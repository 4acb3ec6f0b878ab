-- ===== src/Tests/Proxying.antt =====
-- The theorems on the server's proxy, keys and configuration at concrete inputs.
use expose.Prelude.{
  ℕ, ◌≤◌, ◌≡◌, ◌≢◌, ◌↔◌, ◌⊎◌, inr, ◌++◌, refl, true, false, List, [], ◌∷◌, none, some, ok, arith,
  length, All,
}
use expose.Prelude.Assoc.{nat_eq}
use expose.Prelude.Text.{
  Text, Bytes, text_eq, text_beq, lit, trim, trim_start, is_whitespace, to_ascii_lowercase,
  is_ascii_alphanumeric, is_ascii_digit, as_bytes, before, strip_suffix,
}
use expose.Common.Message.{Message}
use expose.Common.Subdomain.{sanitize_subdomain, starts_with_char, ends_with_char}
use expose.Server.Proxy.Host.{resolve, resolve_iff, resolve-sanitize_subdomain}
use expose.Server.Proxy.Body.{
  Body, Frame, chunk, trailers, collect, hinted, payload, is_clean, collect_iff,
}
use expose.Server.Proxy.Chunks.{concat, Fits}
use expose.Server.Proxy.Streaming.{Channel, StreamingConfig, stream}
use expose.Server.Proxy.Transfer.{sent_too, chunk_messages, stream-Open}
use expose.Server.Keys.{
  Crypto, ComparesBytes, SecureApiKey, deserialize_api_keys, new_key, validate_api_key, HasBytes,
  AdminConfig, admin_auth, passes, bearer, validate_api_key_iff, admin_auth_iff, validate_admin,
}
use expose.Server.Config.{
  SocketParser, ServerConfig, default_config, default_admin, load, settled, check_tls,
}
use expose.Server.Config.Loading.{Starts, load_sound, load_complete}

program : Unit {0}
unfolding lit expose.Common.Subdomain.Filter.allowed trim trim_start is_whitespace
    to_ascii_lowercase is_ascii_alphanumeric is_ascii_digit as_bytes text_beq sanitize_subdomain
    starts_with_char ends_with_char before strip_suffix new_key deserialize_api_keys load check_tls
    validate_admin
program = tt

resolve_iff_example :
    (resolve (lit "example.com") (some (lit "app.example.com:8080")) ≡ ok (lit "app")) ↔ (
      (before b':' (lit "app.example.com:8080") ≡ lit "app" ++ (b'.' ∷ lit "example.com"))
      × (lit "app" ≢ []))
resolve_iff_example = resolve_iff (lit "example.com") (lit "app.example.com:8080") (lit "app")

resolve-sanitize_subdomain_example :
    resolve
      (lit "example.com")
      (some (lit "my-app" ++ (b'.' ∷ lit "example.com") ++ (b':' ∷ lit "80")))
    ≡ ok (lit "my-app")
unfolding program
resolve-sanitize_subdomain_example =
    resolve-sanitize_subdomain (lit " My-App ") (lit "my-app") (lit "example.com") (lit "80") refl
      refl

abbrev frames : List Frame
frames = chunk (1 ∷ 2 ∷ 3 ∷ []) ∷ trailers ∷ chunk (4 ∷ []) ∷ []

abbrev body : Body
body = record { upper = some 4; frames = frames }

collect_iff_example : (collect 10 body ≡ ok (1 ∷ 2 ∷ 3 ∷ 4 ∷ [])) ↔ (
    (hinted 10 (some 4) ≡ none)
    × (is_clean frames ≡ true)
    × (payload frames ≡ 1 ∷ 2 ∷ 3 ∷ 4 ∷ [])
    × (length {A = ℕ} (1 ∷ 2 ∷ 3 ∷ 4 ∷ []) ≤ 10))
collect_iff_example = collect_iff 10 body (1 ∷ 2 ∷ 3 ∷ 4 ∷ [])

abbrev open_channel : Channel
open_channel = record { sent = []; accepts = λ n. true }

abbrev small : StreamingConfig
small = record { enabled = true; threshold_bytes = 0; chunk_size_bytes = 2; max_body_bytes = 100 }

stream-Open_example :
    (ps : List Bytes) × (stream small 3 (lit "PUT") [] [] none frames open_channel
      ≡ some (
        ok tt,
        sent_too
            (Message.http_request_start 3 (lit "PUT") [] [] none ∷ chunk_messages 3 0 ps
              ++ (Message.http_request_end 3 ∷ []))
            open_channel,
      ))
    × (concat ps ≡ payload frames)
    × All (Fits 2) ps
stream-Open_example =
    stream-Open small 3 (lit "PUT") [] [] none frames open_channel (λ n. refl) (omega arith)
      (omega arith) refl (omega arith)

abbrev pub plain : Crypto
plain = record { sha256 = λ bs. []; ct_eq = text_beq }

plain-ComparesBytes : ComparesBytes plain
plain-ComparesBytes = text_eq.eqb_iff

abbrev raw_key : Text
raw_key = lit "valid-key-123456"

abbrev key : SecureApiKey
key = record { key_bytes = as_bytes raw_key; key_hash = [] }

validate_api_key_iff_example :
    (validate_api_key plain (key ∷ []) (some (lit "valid-key-654321")) ≡ true) ↔ (
      ((raw_key ∷ []) ≡ [])
      ⊎ ((candidate : Text) × (some (lit "valid-key-654321") ≡ some candidate)
          × HasBytes (as_bytes candidate) (raw_key ∷ [])))
unfolding program
validate_api_key_iff_example =
    validate_api_key_iff plain (raw_key ∷ []) (key ∷ []) (some (lit "valid-key-654321"))
      plain-ComparesBytes refl

abbrev guarded : AdminConfig
guarded = record default_admin { token = some key }

admin_auth_iff_example :
    (admin_auth plain guarded (some (lit "Bearer valid-key-123456")) ≡ passes) ↔ (
      (false ≡ true)
      ⊎ ((k : SecureApiKey) × (token : Text) × (some key ≡ some k)
          × (bearer (some (lit "Bearer valid-key-123456")) ≡ some token)
          × (k.key_bytes ≡ as_bytes token)))
admin_auth_iff_example =
    admin_auth_iff plain guarded (some (lit "Bearer valid-key-123456")) plain-ComparesBytes

abbrev pub no_sockets : SocketParser
no_sockets address = none

abbrev secured : ServerConfig
secured = record default_config {
  tls_enabled = true;
  https_bind_address = some (lit "0.0.0.0:443");
  tls_cert_path = some (lit "cert.pem");
  tls_key_path = some (lit "key.pem");
}

secured-Starts : Starts true secured
unfolding program expose.Server.Config.https_bind_address_of expose.Server.Config.tls_paths
secured-Starts = (inr (refl, (lit "cert.pem", lit "key.pem", refl)), inr refl)

load_sound_example : Starts true secured × Starts true (settled no_sockets secured)
load_sound_example =
    load_sound no_sockets true secured (settled no_sockets secured)
      (load_complete no_sockets true secured secured-Starts)
