-- ===== src/Tests/Wire.antt =====
-- The theorems on expose-common at concrete inputs.
use expose.Prelude.{none, ℕ, ◌≡◌, ◌↔◌, refl, true, [], ◌∷◌, some, ok, arith}
use expose.Prelude.Text.{
  lit, trim, trim_start, is_whitespace, to_ascii_lowercase, is_ascii_alphanumeric, is_ascii_digit,
  as_bytes, digits, show,
}
use expose.Common.Error.{is_retriable}
use expose.Common.Message.{Message, validate}
use expose.Common.Codec.{encode, decode, decode-encode}
use expose.Common.Subdomain.{
  sanitize_subdomain, sanitize_subdomain_iff, sanitize_subdomain_idem, IsLabel, starts_with_char,
  ends_with_char,
}
use expose.Common.Subdomain.Filter.{normalize}
use expose.Common.Version.{
  OneBlock, check, is_compatible, error_message, versions_compatible, major_version,
  is_compatible_iff,
}
use expose.Tests.Shared.{toy, toy-RoundTrips}
use expose.Client.Version.{parse_server_version, parse_server_version-error_message}

program : Unit {0}
unfolding lit expose.Common.Subdomain.Filter.allowed trim trim_start is_whitespace
    to_ascii_lowercase is_ascii_alphanumeric is_ascii_digit as_bytes sanitize_subdomain
    starts_with_char ends_with_char validate encode decode check versions_compatible major_version
    error_message digits show is_retriable
program = tt

sanitize_subdomain_iff_example :
    (sanitize_subdomain (lit " My-App ") ≡ some (lit "my-app"))
    ↔ ((normalize (lit " My-App ") ≡ lit "my-app") × IsLabel (lit "my-app"))
sanitize_subdomain_iff_example = sanitize_subdomain_iff (lit " My-App ") (lit "my-app")

abbrev one_chunk : Message
one_chunk = Message.http_request_chunk 3 (7 ∷ 8 ∷ []) 0

decode-encode_example : decode toy (1 ∷ 3 ∷ 0 ∷ 7 ∷ 8 ∷ []) ≡ ok one_chunk
unfolding program
decode-encode_example = decode-encode toy one_chunk (1 ∷ 3 ∷ 0 ∷ 7 ∷ 8 ∷ []) toy-RoundTrips refl

is_compatible_iff_example :
    ((is_compatible (check 150 199) ≡ true) ↔ OneBlock 150 199)
    × ((error_message (check 150 199) ≡ none) ↔ OneBlock 150 199)
is_compatible_iff_example = is_compatible_iff 150 199

abbrev old_client : ℕ
old_client = 150

abbrev new_server : ℕ
new_server = 201

parse_server_version-error_message_example :
    parse_server_version (
      lit
        "Client version 150 is incompatible with server version 201. Upgrade the client to version 200 or newer.")
    ≡ some 201
unfolding program
parse_server_version-error_message_example =
    parse_server_version-error_message 150 201 _ (omega arith) refl
