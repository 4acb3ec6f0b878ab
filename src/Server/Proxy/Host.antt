-- ===== src/Server/Proxy/Host.antt =====
-- expose-server/src/proxy/host.rs: `HostResolver`. The argument is the Host header if it is there
-- and is text.
use expose.Prelude.{
  ◌≡◌, ◌≢◌, ◌↔◌, refl, ap, ◌++◌, Bool, true, false, [], ◌∷◌, Option, none, some, ok, err, arith,
  if◌then◌else◌, Option-cases, is_empty, inl, inr, length, length-append, Bool-cases, all, ◌==◌,
}
use expose.Prelude.Text.{Text, lit, before, strip_suffix, text_beq, text_beq_iff}
use expose.Common.Error.{ExposeError, Fallible}
use expose.Common.Subdomain.{sanitize_subdomain, sanitize_subdomain_iff}
use expose.Common.Subdomain.Filter.{label_char}

-- The last guard of `resolve`.
unfoldable pub named_subdomain : Text → Fallible Text
named_subdomain [] = err (ExposeError.invalid_subdomain [] (lit "empty subdomain"))
named_subdomain (c ∷ s) = ok (c ∷ s)

unfoldable pub resolve : Text → Option Text → Fallible Text
unfolding named_subdomain
resolve domain none = err (ExposeError.invalid_message (lit "missing Host header"))
resolve domain (some header) =
    let host = before b':' header in
    elim (strip_suffix (b'.' ∷ domain) host) [
      | none ↦ err (
          ExposeError.tunnel_not_found
            (lit "host '" ++ (host ++ (lit "' doesn't match domain '" ++ (domain ++ lit "'")))))
      | some subdomain ↦ named_subdomain subdomain
    ]

strip_suffix-append : (p r : Text) → strip_suffix p (r ++ p) ≡ some r
unfolding strip_suffix
strip_suffix-append [] [] = ground (arith, text_beq_iff [] [])
strip_suffix-append (c ∷ p) [] = ground (arith, text_beq_iff (c ∷ p) (c ∷ p))
strip_suffix-append p (d ∷ r) =
    ground (arith, strip_suffix-append p r, different (text_beq_iff (d ∷ r ++ p) p))
  where
    different :
        ((text_beq (d ∷ r ++ p) p ≡ true) ↔ ((d ∷ r ++ p) ≡ p)) → text_beq (d ∷ r ++ p) p ≡ false
    different e = elim (Bool-cases (text_beq (d ∷ r ++ p) p)) [
      | inl q ↦ absurd (omega (arith, ap length (e.0 q), length-append r p))
      | inr q ↦ q
    ]

strip_suffix_sound : (p s r : Text) → strip_suffix p s ≡ some r → s ≡ r ++ p
unfolding strip_suffix
strip_suffix_sound p [] r h = ground (arith, text_beq_iff [] p)
strip_suffix_sound p (d ∷ s) r h = elim (Option-cases (strip_suffix p s)) [
  | inl e ↦ ground (arith, text_beq_iff (d ∷ s) p)
  | inr (q, e) ↦ ground (arith, text_beq_iff (d ∷ s) p, strip_suffix_sound p s q e)
]

-- A request resolves to a subdomain exactly when its host, the port cut off, is that subdomain, a
-- dot and the server's domain, and the subdomain is not empty.
pub resolve_iff :
    (domain header subdomain : Text)
    → (resolve domain (some header) ≡ ok subdomain)
      ↔ ((before b':' header ≡ subdomain ++ (b'.' ∷ domain)) × (subdomain ≢ []))
unfolding resolve
resolve_iff domain header subdomain = (there, λ (e, n). back subdomain e n)
  where
    there :
        resolve domain (some header) ≡ ok subdomain
        → (before b':' header ≡ subdomain ++ (b'.' ∷ domain)) × (subdomain ≢ [])
    there h = elim (Option-cases (strip_suffix (b'.' ∷ domain) (before b':' header))) [
      | inl e ↦ absurd (ground arith)
      | inr ([], e) ↦ absurd (ground arith)
      | inr (c ∷ q, e) ↦
          let p : (c ∷ q) ≡ subdomain = ground arith in
          (
            rw (← p) (strip_suffix_sound (b'.' ∷ domain) (before b':' header) (c ∷ q) e),
            rw (← p) (λ z. cc),
          )
    ]

    back :
        (s : Text)
        → before b':' header ≡ s ++ (b'.' ∷ domain)
        → s ≢ []
        → resolve domain (some header) ≡ ok s
    back [] e n = absurd (n refl)
    back (c ∷ q) e n = rw (e, resolve) (rw (strip_suffix-append (b'.' ∷ domain) (c ∷ q), resolve))

abbrev no_colon : Text → Bool
no_colon = all (λ c. if c == b':' then false else true)

before-port : (s port : Text) → no_colon s ≡ true → before b':' (s ++ (b':' ∷ port)) ≡ s
unfolding before
before-port [] port h = refl
before-port (c ∷ s) port h = ground (arith, before-port s port)

no_colon-append : (s t : Text) → no_colon s ≡ true → no_colon t ≡ true → no_colon (s ++ t) ≡ true
no_colon-append [] t h k = k
no_colon-append (c ∷ s) t h k = ground (arith, no_colon-append s t)

no_colon-label : (s : Text) → all label_char s ≡ true → no_colon s ≡ true
no_colon-label [] h = refl
no_colon-label (c ∷ s) h = ground (arith, no_colon-label s)

-- A name that sanitizing gave out is reached by its public host: the header `name.domain:port`
-- resolves to the name, for every domain without a colon.
pub resolve-sanitize_subdomain :
    (raw name domain port : Text)
    → sanitize_subdomain raw ≡ some name
    → no_colon domain ≡ true
    → resolve domain (some (name ++ (b'.' ∷ domain) ++ (b':' ∷ port))) ≡ ok name
resolve-sanitize_subdomain raw name domain port h d =
    let l = ((sanitize_subdomain_iff raw name).0 h).1 in
    (resolve_iff domain (name ++ (b'.' ∷ domain) ++ (b':' ∷ port)) name).1 (
      before-port (name ++ (b'.' ∷ domain)) port
          (no_colon-append name (b'.' ∷ domain) (no_colon-label name l.chars) (ground arith)),
      λ e. cc (l.nonempty, ap is_empty e),
    )
