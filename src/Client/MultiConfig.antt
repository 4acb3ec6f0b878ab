-- ===== src/Client/MultiConfig.antt =====
-- expose-client/src/config.rs: the configuration file of several tunnels.
use expose.Prelude.{
  ℕ, ◌≡◌, refl, subst, false, inl, inr, List, [], ◌∷◌, Option, some, ok, err, is_empty,
  if◌then◌else◌, arith, Bool-cases, Option-cases, Result-cases, ok_or, unwrap_or, All, length, ◌<◌,
  ◌>>=◌,
}
use expose.Prelude.Assoc.{nat_eq}
use expose.Prelude.Text.{Text, text_eq, lit}
use expose.Common.Types.{TunnelProtocol, TunnelConfig, default_tunnel}
use expose.Common.Error.{Fallible}
use expose.Client.Config.{
  validation_error, choose_subdomain, hint_multi, Asks, choose_subdomain-Asks,
}

pub record MultiFileTunnel : Type 0 where
  pub name : Option Text
  pub protocol : Option TunnelProtocol
  pub local_host : Option Text
  pub local_port : ℕ
  pub subdomain : Option Text

pub record MultiFileConfig : Type 0 where
  pub server_url : Option Text
  pub api_key : Option Text
  pub reconnect_max_attempts : Option ℕ
  pub reconnect_base_delay_ms : Option ℕ
  pub tunnels : List MultiFileTunnel

pub record MultiRuntimeConfig : Type 0 where
  pub server_url : Text
  pub api_key : Option Text
  pub reconnect_max_attempts : ℕ
  pub reconnect_base_delay_ms : ℕ
  pub tunnels : List TunnelConfig

abbrev pub entry_config : Text → Option Text → MultiFileTunnel → Option Text → TunnelConfig
entry_config server_url api_key entry subdomain = record default_tunnel {
  protocol = unwrap_or entry.protocol TunnelProtocol.http;
  local_host = unwrap_or entry.local_host (lit "127.0.0.1");
  local_port = entry.local_port;
  subdomain = subdomain;
  server_url = server_url;
  api_key = api_key;
}

unfoldable pub multi_tunnel :
    (server_url : Text) → (api_key : Option Text) → MultiFileTunnel → Fallible TunnelConfig
multi_tunnel server_url api_key entry = do
  subdomain ← choose_subdomain hint_multi entry.subdomain
  ok (entry_config server_url api_key entry subdomain)

-- The loop over the entries: the first error ends it.
unfoldable pub multi_tunnels :
    (server_url : Text)
    → (api_key : Option Text) → List MultiFileTunnel
    → Fallible (List TunnelConfig)
multi_tunnels server_url api_key [] = ok []
multi_tunnels server_url api_key (entry ∷ entries) = do
  cfg ← multi_tunnel server_url api_key entry
  rest ← multi_tunnels server_url api_key entries
  ok (cfg ∷ rest)

abbrev pub runtime_of : MultiFileConfig → Text → List TunnelConfig → MultiRuntimeConfig
runtime_of file server_url tunnels = record {
  server_url = server_url;
  api_key = file.api_key;
  reconnect_max_attempts = unwrap_or file.reconnect_max_attempts 0;
  reconnect_base_delay_ms = unwrap_or file.reconnect_base_delay_ms 1000;
  tunnels = tunnels;
}

unfoldable pub load_multi_runtime_config : MultiFileConfig → Fallible MultiRuntimeConfig
load_multi_runtime_config file = do
  server_url ←
      ok_or file.server_url (validation_error (lit "server_url must be set for multi tunnels"))
  tunnels ← multi_tunnels server_url file.api_key file.tunnels
  if is_empty tunnels
      then err (validation_error (lit "multi config must list at least one tunnel"))
      else ok (runtime_of file server_url tunnels)

-- A tunnel of a file of several: its own name, and the server and the key of the file.
abbrev pub Belongs : MultiRuntimeConfig → TunnelConfig → Type 0
Belongs m t = Asks t.subdomain × (t.server_url ≡ m.server_url) × (t.api_key ≡ m.api_key)

abbrev With : Text → Option Text → TunnelConfig → Type 0
With server_url api_key t = Asks t.subdomain × (t.server_url ≡ server_url) × (t.api_key ≡ api_key)

multi_tunnel-With :
    (server_url : Text) (api_key : Option Text) (entry : MultiFileTunnel) (t : TunnelConfig)
    → multi_tunnel server_url api_key entry ≡ ok t
    → With server_url api_key t
unfolding multi_tunnel
multi_tunnel-With server_url api_key entry t h =
    elim (Result-cases (choose_subdomain hint_multi entry.subdomain)) [
      | inr (e, x) ↦ absurd (ground (arith, x, h))
      | inl (s, x) ↦
          let same : entry_config server_url api_key entry s ≡ t = ground (arith, x, h) in
          subst (With server_url api_key) same
            (choose_subdomain-Asks hint_multi entry.subdomain s x, refl, refl)
    ]

multi_tunnels-With :
    (server_url : Text) (api_key : Option Text) (entries : List MultiFileTunnel)
    (ts : List TunnelConfig)
    → multi_tunnels server_url api_key entries ≡ ok ts
    → (length ts ≡ length entries) × All (With server_url api_key) ts
unfolding multi_tunnels
multi_tunnels-With server_url api_key [] ts h =
    let e : [] ≡ ts = ground arith in
    subst (λ x. (length x ≡ 0) × All (With server_url api_key) x) e (refl, tt)
multi_tunnels-With server_url api_key (entry ∷ entries) ts h =
    elim (Result-cases (multi_tunnel server_url api_key entry)) [
      | inr (e, x) ↦ absurd (ground (arith, x, h))
      | inl (c, x) ↦ elim (Result-cases (multi_tunnels server_url api_key entries)) [
        | inr (e, y) ↦ absurd (ground (arith, x, y, h))
        | inl (cs, y) ↦
            let same : c ∷ cs ≡ ts = ground (arith, x, y, h) in
            let (n, a) = multi_tunnels-With server_url api_key entries cs y in
            subst (λ us. (length us ≡ length (entry ∷ entries)) × All (With server_url api_key) us)
              same (omega arith, (multi_tunnel-With server_url api_key entry c x, a))
      ]
    ]

-- What a loaded file of several comes to.
abbrev pub Loaded : MultiFileConfig → MultiRuntimeConfig → Type 0
Loaded file m =
    (0 < length m.tunnels)
    × (length m.tunnels ≡ length file.tunnels)
    × (m.api_key ≡ file.api_key)
    × (file.server_url ≡ some m.server_url)
    × All (Belongs m) m.tunnels

nonempty_pos : (ts : List TunnelConfig) → is_empty ts ≡ false → 0 < length ts
nonempty_pos [] h = absurd (cc)
nonempty_pos (t ∷ ts) h = omega arith

-- A file of several tunnels that loads gives one tunnel for each of its entries, at least one, and
-- each asks for a label or for no name, at the one server and with the one key of the file.
pub load_multi_runtime_config-Loaded :
    (file : MultiFileConfig) (m : MultiRuntimeConfig)
    → load_multi_runtime_config file ≡ ok m
    → Loaded file m
unfolding load_multi_runtime_config
load_multi_runtime_config-Loaded file m h = elim (Option-cases file.server_url) [
  | inl n ↦ absurd (ground (arith, n, h))
  | inr (url, x) ↦ elim (Result-cases (multi_tunnels url file.api_key file.tunnels)) [
    | inr (e, y) ↦ absurd (ground (arith, x, y, h))
    | inl (ts, y) ↦ elim (Bool-cases (is_empty ts)) [
      | inl z ↦ absurd (ground (arith, x, y, z, h))
      | inr z ↦
          let same : runtime_of file url ts ≡ m = ground (arith, x, y, z, h) in
          let (n, a) = multi_tunnels-With url file.api_key file.tunnels ts y in
          subst (Loaded file) same (nonempty_pos ts z, n, refl, x, a)
    ]
  ]
]
