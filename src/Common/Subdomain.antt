-- ===== src/Common/Subdomain.antt =====
-- expose-common/src/utils.rs: `sanitize_subdomain`.
pub mod Filter
use expose.Prelude.{
  ℕ, ◌≡◌, ◌↔◌, ◌||◌, ◌≤◌, ◌<◌, refl, sym, ◌∙◌, ap, Bool, true, false, List, [], ◌∷◌, map, Option,
  none, some, arith, ltb, leb, if◌then◌else◌, ◌==◌, keep, all, length, is_empty, ◌&&◌, keep-all,
  all-keep, ltb→lt,
}
use expose.Prelude.Text.{Text, trim, to_ascii_lowercase, is_ascii_alphanumeric, as_bytes}
use Filter.{
  allowed, normalize, normalize-trim, label_char, all-label_char, normalize_label, as_bytes_ascii,
}

unfoldable pub starts_with_char : ℕ → Text → Bool
starts_with_char c [] = false
starts_with_char c (d ∷ s) = d == c

unfoldable pub ends_with_char : ℕ → Text → Bool
ends_with_char c [] = false
ends_with_char c (d ∷ []) = d == c
ends_with_char c (d ∷ e ∷ s) = ends_with_char c (e ∷ s)

unfoldable pub sanitize_subdomain : Text → Option Text
sanitize_subdomain raw =
    let normalized = keep allowed (map to_ascii_lowercase (trim raw)) in
    if is_empty normalized || ltb 63 (length (as_bytes normalized))
    then none
    else if starts_with_char b'-' normalized || ends_with_char b'-' normalized
    then none
    else some normalized

-- A label that a subdomain may be: 1 to 63 lower case letters, digits and dashes, with no dash at
-- either end.
pub record IsLabel (s : Text) : Type 0 where
  pub nonempty : is_empty s ≡ false
  pub short : length s ≤ 63
  pub chars : all label_char s ≡ true
  pub front : starts_with_char b'-' s ≡ false
  pub back : ends_with_char b'-' s ≡ false

-- A requested name is accepted exactly when its letters, digits and dashes, in lower case and with
-- all else dropped, form a label, and that label is then the answer. White space at the ends makes
-- no difference.
pub sanitize_subdomain_iff :
    (raw s : Text) → (sanitize_subdomain raw ≡ some s) ↔ ((normalize raw ≡ s) × IsLabel s)
unfolding sanitize_subdomain
sanitize_subdomain_iff raw s = (
  λ h. ground (arith, normalize-trim raw, all-label_char raw, as_bytes_ascii (normalize raw)),
  λ (e, l). accept e l,
)
  where
    accept : normalize raw ≡ s → IsLabel s → sanitize_subdomain raw ≡ some s
    accept e l =
        ground (arith, normalize-trim raw, all-label_char raw, as_bytes_ascii (normalize raw))

-- A label is its own sanitized form, so what the server hands out is accepted unchanged when a
-- client asks for it again.
pub sanitize_subdomain_idem :
    (raw s : Text) → sanitize_subdomain raw ≡ some s → sanitize_subdomain s ≡ some s
sanitize_subdomain_idem raw s h =
    let (e, l) = (sanitize_subdomain_iff raw s).0 h in
    (sanitize_subdomain_iff s s).1 (normalize_label s l.chars, l)
