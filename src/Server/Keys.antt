-- ===== src/Server/Keys.antt =====
-- expose-server/src/config.rs: API keys, the admin settings and their checks, and
-- expose-server/src/middleware/auth.rs: who may call the admin routes. The hash function and the
-- constant-time comparison are other libraries' and are a parameter; that the comparison is the
-- equality of the bytes is what the library documents.
use expose.Prelude.{
  ℕ, ◌≡◌, ◌↔◌, ◌⊎◌, inl, inr, refl, subst, Bool, true, false, not, ◌&&◌, ◌||◌, ◌++◌, List, [], ◌∷◌,
  Option, none, some, Result, ok, err, is_some, ltb, any, if◌then◌else◌, length, arith, Bool-cases,
  Option-cases, Result-cases, ◌>>=◌,
}
use expose.Prelude.Assoc.{nat_eq, ◌==◌}
use expose.Prelude.Text.{Text, Bytes, lit, show, as_bytes, strip_prefix}
use expose.Common.Error.{ConfigError}

pub record Crypto : Type 0 where
  pub sha256 : Bytes → Bytes
  pub ct_eq : Bytes → Bytes → Bool

abbrev pub ComparesBytes : Crypto → Type 0
ComparesBytes c = (a b : Bytes) → (c.ct_eq a b ≡ true) ↔ (a ≡ b)

pub record SecureApiKey : Type 0 where
  pub key_bytes : Bytes
  pub key_hash : Bytes

abbrev pub min_length : ℕ
min_length = 16

unfoldable pub new_key : Crypto → Text → Result ConfigError SecureApiKey
new_key c key =
    if ltb (length (as_bytes key)) min_length
    then err (
        ConfigError.validation (
          lit "API key must be at least "
          ++ show min_length
          ++ lit " characters, got "
          ++ show (length (as_bytes key))))
    else ok (record { key_bytes = as_bytes key; key_hash = c.sha256 (as_bytes key) })

unfoldable pub verify : Crypto → SecureApiKey → Text → Bool
verify c k candidate =
    if not (length (as_bytes candidate) == length k.key_bytes)
    then false
    else c.ct_eq k.key_bytes (as_bytes candidate)

-- `deserialize_api_keys`: the first key that is too short is the error.
unfoldable pub deserialize_api_keys : Crypto → List Text → Result ConfigError (List SecureApiKey)
unfolding new_key
deserialize_api_keys c [] = ok []
deserialize_api_keys c (raw ∷ rest) = do
  k ← new_key c raw
  ks ← deserialize_api_keys c rest
  ok (k ∷ ks)

unfoldable pub validate_api_key : Crypto → List SecureApiKey → Option Text → Bool
unfolding verify
validate_api_key c [] key = true
validate_api_key c (k ∷ ks) none = false
validate_api_key c (k ∷ ks) (some candidate) = any (λ k'. verify c k' candidate) (k ∷ ks)

pub record AdminConfig : Type 0 where
  pub token : Option SecureApiKey
  pub insecure_admin : Bool
  pub bind_address : Option Text
  pub rate_limit_per_minute : ℕ

unfoldable pub is_enabled : AdminConfig → Bool
is_enabled a = is_some a.token || a.insecure_admin

unfoldable pub validate_admin : Bool → AdminConfig → Result ConfigError (Unit {0})
validate_admin is_production a =
    if is_production && a.insecure_admin
    then err (ConfigError.validation (lit "insecure_admin=true is not allowed in production"))
    else ok tt

unfoldable pub validate_admin_token : Crypto → AdminConfig → Text → Bool
unfolding verify
validate_admin_token c a candidate = elim a.token [ none ↦ false | some k ↦ verify c k candidate ]

-- What the middleware answers: the next handler runs, or a status and a body.
pub data Verdict : Type 0 where
  passes : Verdict
  answers : (status : ℕ) (body : Text) → Verdict

-- The token behind `Bearer `, which must begin the header.
unfoldable pub bearer : Option Text → Option Text
bearer none = none
bearer (some header) = strip_prefix (lit "Bearer ") header

unfoldable pub admin_auth : Crypto → AdminConfig → (authorization : Option Text) → Verdict
unfolding is_enabled bearer validate_admin_token
admin_auth c a authorization =
    if not (is_enabled a)
    then answers 403 (lit "{\"error\":\"admin API is disabled\"}")
    else if a.insecure_admin
    then passes
    else elim (bearer authorization) [
      | none ↦ answers 401 (lit "{\"error\":\"missing or invalid authorization header\"}")
      | some token ↦
          if not (validate_admin_token c a token)
          then answers 403 (lit "{\"error\":\"invalid admin token\"}")
          else passes
    ]

pub verify_iff :
    (c : Crypto) (k : SecureApiKey) (candidate : Text)
    → ComparesBytes c
    → (verify c k candidate ≡ true) ↔ (k.key_bytes ≡ as_bytes candidate)
unfolding verify
verify_iff c k candidate eq = ground (arith, eq k.key_bytes (as_bytes candidate))

-- Some raw key has the bytes of the candidate.
abbrev pub HasBytes : Bytes → List Text → Type 0
HasBytes bs [] = ⊥
HasBytes bs (raw ∷ rest) = (as_bytes raw ≡ bs) ⊎ HasBytes bs rest

new_key_bytes :
    (c : Crypto) (raw : Text) (k : SecureApiKey) → new_key c raw ≡ ok k → k.key_bytes ≡ as_bytes raw
unfolding new_key
new_key_bytes c raw k h = ground (arith)

deserialize_cons :
    (c : Crypto) (raw : Text) (raws : List Text) (ks : List SecureApiKey)
    → deserialize_api_keys c (raw ∷ raws) ≡ ok ks
    → (k : SecureApiKey) × (ks' : List SecureApiKey) × (ks ≡ k ∷ ks')
      × (k.key_bytes ≡ as_bytes raw)
      × (deserialize_api_keys c raws ≡ ok ks')
unfolding deserialize_api_keys
deserialize_cons c raw raws ks h = elim (Result-cases (new_key c raw)) [
  | inr (e, x) ↦ absurd (ground (arith, h, x))
  | inl (k, x) ↦ elim (Result-cases (deserialize_api_keys c raws)) [
    | inr (e, y) ↦ absurd (ground (arith, h, x, y))
    | inl (ks', y) ↦ (k, ks', ground (arith, h, x, y), new_key_bytes c raw k x, y)
  ]
]

any-verify_iff :
    (c : Crypto) (raws : List Text) (ks : List SecureApiKey) (candidate : Text)
    → ComparesBytes c
    → deserialize_api_keys c raws ≡ ok ks
    → (any (λ k. verify c k candidate) ks ≡ true) ↔ HasBytes (as_bytes candidate) raws
unfolding deserialize_api_keys
any-verify_iff c [] ks candidate eq h = let e : [] ≡ ks = ground arith in rw⁻¹ e (ground arith)
any-verify_iff c (raw ∷ raws) ks candidate eq h =
    let (k, ks', e, b, r) = deserialize_cons c raw raws ks h in
    rw e (ground (arith, any-verify_iff c raws ks' candidate eq r, verify_iff c k candidate eq, b))

-- When the configured keys load, a server with keys lets in exactly the clients whose key has the
-- bytes of a configured one, and a server without keys lets everyone in. The comparison of bytes
-- is their equality.
pub validate_api_key_iff :
    (c : Crypto) (raws : List Text) (ks : List SecureApiKey) (key : Option Text)
    → ComparesBytes c
    → deserialize_api_keys c raws ≡ ok ks
    → (validate_api_key c ks key ≡ true) ↔ (
        (raws ≡ [])
        ⊎ ((candidate : Text) × (key ≡ some candidate) × HasBytes (as_bytes candidate) raws))
unfolding validate_api_key deserialize_api_keys
validate_api_key_iff c [] ks key eq h =
    let e : [] ≡ ks = ground arith in rw⁻¹ e (λ _. inl refl, λ _. refl)
validate_api_key_iff c (raw ∷ raws) ks none eq h =
    let (k, ks', e, b, r) = deserialize_cons c raw raws ks h in rw e (ground arith)
validate_api_key_iff c (raw ∷ raws) ks (some candidate) eq h =
    let (k, ks', e, b, r) = deserialize_cons c raw raws ks h in
    let matches = any-verify_iff c (raw ∷ raws) (k ∷ ks') candidate eq (rw⁻¹ e h) in
    rw e (
      λ v. inr (candidate, refl, matches.0 v),
      λ o. elim o [
        | inl n ↦ absurd (cc)
        | inr (x, s, m) ↦
            matches.1 (subst (λ y. HasBytes (as_bytes y) (raw ∷ raws)) (grind arith) m)
      ],
    )

-- An admin request passes exactly when the admin interface is in its insecure mode, or the header
-- is `Bearer ` and a token with the bytes of the configured one. The comparison of bytes is their
-- equality.
pub admin_auth_iff :
    (c : Crypto) (a : AdminConfig) (authorization : Option Text)
    → ComparesBytes c
    → (admin_auth c a authorization ≡ passes) ↔ (
        (a.insecure_admin ≡ true)
        ⊎ ((k : SecureApiKey) × (token : Text) × (a.token ≡ some k)
            × (bearer authorization ≡ some token)
            × (k.key_bytes ≡ as_bytes token)))
unfolding admin_auth is_enabled validate_admin_token
admin_auth_iff c a authorization eq = elim (Bool-cases a.insecure_admin) [
  | inl i ↦ (λ _. inl i, λ _. ground (arith, i))
  | inr i ↦ elim (Option-cases (bearer authorization)) [
    | inl n ↦ ground (arith, i, n)
    | inr (token, s) ↦ elim (Option-cases a.token) [
      | inl n ↦ ground (arith, i, s, n)
      | inr (k, y) ↦ (
        λ p. inr (k, token, y, s, (verify_iff c k token eq).0 (ground (arith, i, s, y, p))),
        λ o. elim o [
          | inl n ↦ absurd (cc)
          | inr (k', token', y', s', e) ↦ ground (arith, i, s, y, verify_iff c k token eq)
        ],
      )
    ]
  ]
]
