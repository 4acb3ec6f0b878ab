-- ===== src/Common/Subdomain/Filter.antt =====
-- expose-common/src/utils.rs: the characters that `sanitize_subdomain` keeps.
use mathlib.Core.List.{reverse, reverse-cons, reverse-reverse, map-append, append-nil}
use expose.Prelude.{
  ℕ, ◌≡◌, ◌∙◌, refl, sym, ap, ◌||◌, ◌&&◌, ◌<◌, Bool, true, false, [], ◌∷◌, map, arith, leb, ◌==◌,
  keep, all, keep-append,
}
use expose.Prelude.Text.{
  Text, trim, trim_start, to_ascii_lowercase, is_ascii_alphanumeric, is_whitespace, as_bytes,
}

unfoldable pub allowed : ℕ → Bool
unfolding is_ascii_alphanumeric
allowed c = is_ascii_alphanumeric c || c == b'-'

-- The characters that are left, with the trim left out.
abbrev pub normalize : Text → Text
normalize s = keep allowed (map to_ascii_lowercase s)

-- The specification's alphabet.
abbrev pub label_char : ℕ → Bool
label_char c = leb b'a' c && leb c b'z' || (leb b'0' c && leb c b'9' || c == b'-')

space-allowed : (c : ℕ) → is_whitespace c ≡ true → allowed (to_ascii_lowercase c) ≡ false
unfolding is_whitespace allowed to_ascii_lowercase
space-allowed c h = ground arith

normalize-trim_start : (s : Text) → normalize (trim_start s) ≡ normalize s
unfolding trim_start
normalize-trim_start [] = refl
normalize-trim_start (c ∷ s) = ground (arith, normalize-trim_start s, space-allowed c)

map-reverse : (s : Text) → map to_ascii_lowercase (reverse s) ≡ reverse (map to_ascii_lowercase s)
map-reverse [] = refl
map-reverse (c ∷ s) =
    rw (reverse-cons c s, map-append to_ascii_lowercase (reverse s) (c ∷ []), map-reverse s)
      (sym (reverse-cons (to_ascii_lowercase c) (map to_ascii_lowercase s)))

keep-reverse : (p : ℕ → Bool) (s : Text) → keep p (reverse s) ≡ reverse (keep p s)
keep-reverse p [] = refl
keep-reverse p (c ∷ s) =
    rw (reverse-cons c s, keep-append p (reverse s) (c ∷ []), keep-reverse p s)
      (ground (arith, reverse-cons c (keep p s), append-nil (reverse (keep p s))))

normalize-reverse : (s : Text) → normalize (reverse s) ≡ reverse (normalize s)
normalize-reverse s = rw (map-reverse s) (keep-reverse allowed (map to_ascii_lowercase s))

pub normalize-trim : (s : Text) → normalize (trim s) ≡ normalize s
unfolding trim
normalize-trim s =
    normalize-reverse (trim_start (reverse (trim_start s)))
    ∙ (ap reverse (normalize-trim_start (reverse (trim_start s)) ∙ normalize-reverse (trim_start s))
        ∙ (reverse-reverse (normalize (trim_start s)) ∙ normalize-trim_start s))

label_char-allowed :
    (c : ℕ) → allowed (to_ascii_lowercase c) ≡ true → label_char (to_ascii_lowercase c) ≡ true
unfolding allowed to_ascii_lowercase
label_char-allowed c h = ground arith

allowed-label_char : (c : ℕ) → label_char c ≡ true → (to_ascii_lowercase c ≡ c) × (allowed c ≡ true)
unfolding allowed to_ascii_lowercase
allowed-label_char c h = ground arith

pub all-label_char : (s : Text) → all label_char (normalize s) ≡ true
all-label_char [] = refl
all-label_char (c ∷ s) = ground (arith, all-label_char s, label_char-allowed c)

pub normalize_label : (s : Text) → all label_char s ≡ true → normalize s ≡ s
normalize_label [] h = refl
normalize_label (c ∷ s) h = ground (arith, normalize_label s, allowed-label_char c)

as_bytes_char : (c : ℕ) (s : Text) → c < 128 → as_bytes (c ∷ s) ≡ c ∷ as_bytes s
unfolding as_bytes
as_bytes_char c s h = ground arith

-- A text of label characters is its own UTF-8 encoding.
pub as_bytes_ascii : (s : Text) → all label_char s ≡ true → as_bytes s ≡ s
unfolding as_bytes
as_bytes_ascii [] h = refl
as_bytes_ascii (c ∷ s) h = ground (arith, as_bytes_ascii s, as_bytes_char c s)
