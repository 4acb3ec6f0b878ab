-- ===== src/Client/Version.antt =====
-- expose-client/src/tunnel.rs: `parse_server_version` and `version_mismatch_error`, which read the
-- server's version back from its error message.
use expose.Prelude.{
  subst, Bool-cases, inl, inr, refl, ap, ℕ, zero, suc, ◌+◌, ◌-◌, ◌*◌, ◌/◌, ◌%◌, ◌<◌, ◌≡◌, ◌∙◌, ap,
  refl, ◌++◌, true, false, [], ◌∷◌, Option, none, some, arith, ltb, leb, if◌then◌else◌, is_empty,
  unwrap_or, all,
}
use expose.Prelude.Text.{Text, lit, show, digits, is_ascii_digit, strip_prefix}
use expose.Common.Error.{ExposeError}
use mathlib.Core.Option.{some-injective}
use expose.Common.Version.{
  versions_compatible, protocol_version, check, VersionCheckResult, error_message,
}

-- `message.find(needle)`, and what stands behind the first occurrence.
unfoldable pub find_after : Text → Text → Option Text
find_after needle [] = elim (strip_prefix needle []) [ none ↦ none | some rest ↦ some rest ]
find_after needle (c ∷ s) = elim (strip_prefix needle (c ∷ s)) [
  | none ↦ find_after needle s
  | some rest ↦ some rest
]

unfoldable pub take_digits : Text → Text
take_digits [] = []
take_digits (c ∷ s) = if is_ascii_digit c then c ∷ take_digits s else []

abbrev pub value : ℕ → Text → ℕ
value n [] = n
value n (c ∷ s) = value (n * 10 + (c - b'0')) s

-- `str::parse::<u16>` of a text of digits: none and too many are errors.
unfoldable pub parse_u16 : Text → Option ℕ
parse_u16 s = if is_empty s then none else if leb (value 0 s) 65535 then some (value 0 s) else none

unfoldable pub parse_server_version : Text → Option ℕ
unfolding find_after take_digits parse_u16
parse_server_version message = elim (find_after (lit "server version ") message) [
  | none ↦ none
  | some rest ↦ let found = take_digits rest in if is_empty found then none else parse_u16 found
]

unfoldable pub version_mismatch_error : Text → ExposeError
version_mismatch_error message =
    ExposeError.version_mismatch protocol_version
      (unwrap_or (parse_server_version message) protocol_version)

value-digits : (fuel n : ℕ) (acc : Text) → n < fuel → value 0 (digits fuel n acc) ≡ value n acc
unfolding digits
value-digits zero n acc h = absurd (omega arith)
value-digits (suc fuel) n acc h = elim (Bool-cases (leb n 9)) [
  | inl e ↦ rw (e, digits) (ap (λ t. value t acc) (ground arith))
  | inr e ↦
      rw (e, digits)
        (value-digits fuel (n / 10) ((b'0' + n % 10) ∷ acc) (ground arith)
          ∙ ap (λ t. value t acc) (omega arith))
]

digit : (n : ℕ) → is_ascii_digit (b'0' + n % 10) ≡ true
unfolding is_ascii_digit
digit n = ground arith

digits-all :
    (fuel n : ℕ) (acc : Text)
    → all is_ascii_digit acc ≡ true
    → all is_ascii_digit (digits fuel n acc) ≡ true
unfolding digits
digits-all zero n acc h = h
digits-all (suc fuel) n acc h = elim (Bool-cases (leb n 9)) [
  | inl e ↦ rw (e, digits) (rw (digit n) h)
  | inr e ↦ rw (e, digits) (digits-all fuel (n / 10) ((b'0' + n % 10) ∷ acc) (rw (digit n) h))
]

digits-nonempty :
    (fuel n : ℕ) (acc : Text) → is_empty acc ≡ false → is_empty (digits fuel n acc) ≡ false
unfolding digits
digits-nonempty zero n acc h = h
digits-nonempty (suc fuel) n acc h = elim (Bool-cases (leb n 9)) [
  | inl e ↦ rw (e, digits)
  | inr e ↦ rw (e, digits) (digits-nonempty fuel (n / 10) ((b'0' + n % 10) ∷ acc) refl)
]

show-nonempty : (n : ℕ) → is_empty (show n) ≡ false
unfolding show digits
show-nonempty n = elim (Bool-cases (leb n 9)) [
  | inl e ↦ rw (e, digits)
  | inr e ↦ rw (e, digits) (digits-nonempty n (n / 10) ((b'0' + n % 10) ∷ []) refl)
]

take_digits-append :
    (s rest : Text) → all is_ascii_digit s ≡ true → take_digits (s ++ (b'.' ∷ rest)) ≡ s
unfolding take_digits is_ascii_digit
take_digits-append [] rest h = refl
take_digits-append (c ∷ s) rest h = ground (arith, take_digits-append s rest)

find_after-digits :
    (s rest : Text)
    → all is_ascii_digit s ≡ true
    → find_after (lit "server version ") (s ++ rest) ≡ find_after (lit "server version ") rest
unfolding find_after is_ascii_digit lit strip_prefix
find_after-digits [] rest h = refl
find_after-digits (c ∷ s) rest h = ground (arith, find_after-digits s rest)

parse_behind :
    (n : ℕ) (t message : Text)
    → n < 65536
    → find_after (lit "server version ") message ≡ some (show n ++ (b'.' ∷ t))
    → parse_server_version message ≡ some n
unfolding parse_server_version show
parse_behind n t message h e = ground (
  arith,
  take_digits-append (show n) t (digits-all (suc n) n [] refl),
  value-digits (suc n) n [] (omega arith),
  show-nonempty n,
)

-- The two messages, read up to the server's version.
old_message :
    (client : ℕ) (rest : Text)
    → find_after (lit "server version ") (
        lit "Client version "
        ++ (show client ++ (lit " is incompatible with server version " ++ rest)))
      ≡ some rest
unfolding find_after lit strip_prefix show
old_message client rest =
    find_after-digits (show client) (lit " is incompatible with server version " ++ rest)
      (digits-all (suc client) client [] refl)

new_message :
    (client : ℕ) (rest : Text)
    → find_after
        (lit "server version ")
        (lit "Client version " ++ (show client ++ (lit " is newer than server version " ++ rest)))
      ≡ some rest
unfolding find_after lit strip_prefix show
new_message client rest =
    find_after-digits (show client) (lit " is newer than server version " ++ rest)
      (digits-all (suc client) client [] refl)

-- A refusal carries the two versions that were compared.
abbrev Names : VersionCheckResult → ℕ → ℕ → Type 0
Names VersionCheckResult.compatible client server = Unit
Names (VersionCheckResult.client_too_old c s least) client server = (c ≡ client) × (s ≡ server)
Names (VersionCheckResult.client_too_new c s) client server = (c ≡ client) × (s ≡ server)

message_of :
    (r : VersionCheckResult) (client server : ℕ) (message : Text)
    → server < 65536
    → Names r client server
    → error_message r ≡ some message
    → parse_server_version message ≡ some server
unfolding error_message lit
message_of VersionCheckResult.compatible client server message h w e = cc
message_of (VersionCheckResult.client_too_old c s least) client server message h w e =
    subst (λ m. parse_server_version m ≡ some server) (some-injective _ _ e)
      (rw (w.0, w.1) (parse_behind server _ _ h (old_message client _)))
message_of (VersionCheckResult.client_too_new c s) client server message h w e =
    subst (λ m. parse_server_version m ≡ some server) (some-injective _ _ e)
      (rw (w.0, w.1) (parse_behind server _ _ h (new_message client _)))

check-Names : (client server : ℕ) → Names (check client server) client server
unfolding check
check-Names client server = elim (Bool-cases (versions_compatible client server)) [
  | inl e ↦ rw (e, check) tt
  | inr e ↦
      rw (e, check)
        (elim (Bool-cases (ltb client server)) [
          | inl f ↦ rw (f, check) (refl, refl)
          | inr f ↦ rw (f, check) (refl, refl)
        ])
]

-- The server's refusal of an incompatible client names the server's version in words, and the
-- client reads exactly that 16-bit number back, whichever of the two is older.
pub parse_server_version-error_message :
    (client server : ℕ) (message : Text)
    → server < 65536
    → error_message (check client server) ≡ some message
    → parse_server_version message ≡ some server
parse_server_version-error_message client server message h e =
    message_of (check client server) client server message h (check-Names client server) e
