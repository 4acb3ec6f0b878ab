-- ===== src/Server/Config/Loading.antt =====
-- expose-server/src/config.rs: when `load` succeeds.
use expose.Prelude.{
  ◌≡◌, refl, subst, Bool, true, false, ◌⊎◌, inl, inr, ok, is_some, arith, Bool-cases, Result-cases,
}
use expose.Prelude.Assoc.{nat_eq}
use expose.Prelude.Text.{Text}
use expose.Server.Keys.{validate_admin}
use expose.Server.Config.{
  SocketParser, ServerConfig, https_bind_address_of, tls_paths, check_tls, with_admin_bind,
  with_legacy_limit, with_pending_limit, load, settled,
}

-- What a configuration that starts a server must have.
abbrev pub Starts : Bool → ServerConfig → Type 0
Starts is_production cfg =
    ((cfg.tls_enabled ≡ false)
      ⊎ ((is_some (https_bind_address_of cfg) ≡ true)
          × ((cert : Text) × (key : Text) × (tls_paths cfg ≡ ok (cert, key)))))
    × ((is_production ≡ false) ⊎ (cfg.admin.insecure_admin ≡ false))

-- The three conditions that TLS brings.
abbrev Secured : ServerConfig → Type 0
Secured cfg =
    (is_some (https_bind_address_of cfg) ≡ true)
    × ((cert : Text) × (key : Text) × (tls_paths cfg ≡ ok (cert, key)))

check_tls_sound :
    (cfg : ServerConfig) → check_tls cfg ≡ ok tt → (cfg.tls_enabled ≡ false) ⊎ Secured cfg
unfolding check_tls
check_tls_sound cfg h = elim (Bool-cases cfg.tls_enabled) [
  | inr f ↦ inl f
  | inl t ↦ elim (Bool-cases (is_some (https_bind_address_of cfg))) [
    | inr n ↦ absurd (ground (arith, t, n, h))
    | inl s ↦ elim (Result-cases (tls_paths cfg)) [
      | inl (paths, r) ↦ inr (s, (paths.0, paths.1, r))
      | inr (e, r) ↦ absurd (ground (arith, t, s, r, h))
    ]
  ]
]

check_tls_complete :
    (cfg : ServerConfig) → (cfg.tls_enabled ≡ false) ⊎ Secured cfg → check_tls cfg ≡ ok tt
unfolding check_tls
check_tls_complete cfg (inl f) = rw f refl
check_tls_complete cfg (inr (s, (cert, key, r))) = elim (Bool-cases cfg.tls_enabled) [
  | inl t ↦ rw (t, s, r) refl
  | inr f ↦ rw f refl
]

settled-Starts :
    (parse : SocketParser) (p : Bool) (read : ServerConfig)
    → Starts p read
    → Starts p (settled parse read)
unfolding with_pending_limit with_legacy_limit with_admin_bind https_bind_address_of tls_paths
settled-Starts parse p read s = s

-- The second check, on the settled configuration.
admin_ok_sound :
    (parse : SocketParser) (p : Bool) (read : ServerConfig)
    → validate_admin p (settled parse read).admin ≡ ok tt
    → (p ≡ false) ⊎ (read.admin.insecure_admin ≡ false)
unfolding validate_admin with_pending_limit with_legacy_limit with_admin_bind
admin_ok_sound parse true read h = elim (Bool-cases read.admin.insecure_admin) [
  | inl t ↦ absurd (ground (arith, t, h))
  | inr f ↦ inr f
]
admin_ok_sound parse false read h = inl refl

admin_ok_complete :
    (parse : SocketParser) (p : Bool) (read : ServerConfig)
    → (p ≡ false) ⊎ (read.admin.insecure_admin ≡ false)
    → validate_admin p (settled parse read).admin ≡ ok tt
unfolding validate_admin with_pending_limit with_legacy_limit with_admin_bind
admin_ok_complete parse true read (inl f) = absurd (cc)
admin_ok_complete parse true read (inr f) = rw f refl
admin_ok_complete parse false read h = refl

-- A server that loads its configuration has an address, a certificate and a key whenever it serves
-- TLS, and never runs in production with the insecure admin mode: the configuration that was read
-- met this, and so does the one that comes out.
pub load_sound :
    (parse : SocketParser) (p : Bool) (read cfg : ServerConfig)
    → load parse p read ≡ ok cfg
    → Starts p read × Starts p cfg
unfolding load
load_sound parse p read cfg h = elim (Result-cases (check_tls read)) [
  | inr (e, x) ↦ absurd (ground (arith, x, h))
  | inl (_, x) ↦ elim (Result-cases (validate_admin p (settled parse read).admin)) [
    | inr (e, y) ↦ absurd (ground (arith, x, y, h))
    | inl (_, y) ↦
        let starts : Starts p read = (check_tls_sound read x, admin_ok_sound parse p read y) in
        let same : settled parse read ≡ cfg = ground (arith, x, y, h) in
        (starts, subst (Starts p) same (settled-Starts parse p read starts))
  ]
]

-- A configuration that meets the conditions of a start is loaded.
pub load_complete :
    (parse : SocketParser) (p : Bool) (read : ServerConfig)
    → Starts p read
    → load parse p read ≡ ok (settled parse read)
unfolding load
load_complete parse p read (s, a) =
    rw (check_tls_complete read s, admin_ok_complete parse p read a) refl
