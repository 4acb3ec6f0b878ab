-- ===== src/Server/Tunnels/Allocation.antt =====
-- expose-server/src/tunnel_manager.rs: `allocate_subdomain` and `random_subdomain`.
use expose.Prelude.{
  subst, ℕ, zero, suc, ◌≡◌, ◌≢◌, refl, inl, inr, true, false, [], ◌∷◌, map, Option, none, some, ok,
  err, arith, length, Option-cases, all, is_empty,
}
use expose.Prelude.Assoc.{lookup}
use expose.Prelude.Text.{Text, Bytes, text_eq, to_ascii_lowercase, is_ascii_alphanumeric}
use expose.Common.Types.{TunnelProtocol}
use expose.Common.Error.{ExposeError}
use expose.Common.Subdomain.{sanitize_subdomain_iff, IsLabel, starts_with_char, ends_with_char}
use expose.Common.Subdomain.Filter.{label_char}
use expose.Server.ActiveTunnel.{Governor}
use expose.Server.Tunnels.{
  key_error, TunnelManager, Samples, random_subdomain, try_random, allocate_subdomain,
  register_tunnel, get,
}

-- What the random source promises: eight ASCII letters and digits.
abbrev pub IsSample : Text → Type 0
IsSample drawn = (length drawn ≡ 8) × (all is_ascii_alphanumeric drawn ≡ true)

lower_char :
    (c : ℕ)
    → is_ascii_alphanumeric c ≡ true
    → (label_char (to_ascii_lowercase c) ≡ true) × (to_ascii_lowercase c ≢ b'-')
unfolding is_ascii_alphanumeric to_ascii_lowercase
lower_char c h = ground arith

lower_all :
    (s : Text)
    → all is_ascii_alphanumeric s ≡ true
    → all label_char (map to_ascii_lowercase s) ≡ true
lower_all [] h = refl
lower_all (c ∷ s) h = ground (arith, lower_all s, lower_char c)

lower_front :
    (s : Text)
    → all is_ascii_alphanumeric s ≡ true
    → starts_with_char b'-' (map to_ascii_lowercase s) ≡ false
unfolding starts_with_char
lower_front [] h = refl
lower_front (c ∷ s) h = ground (arith, lower_char c)

lower_back :
    (s : Text)
    → all is_ascii_alphanumeric s ≡ true
    → ends_with_char b'-' (map to_ascii_lowercase s) ≡ false
unfolding ends_with_char
lower_back [] h = refl
lower_back (c ∷ []) h = ground (arith, lower_char c)
lower_back (c ∷ d ∷ s) h = lower_back (d ∷ s) (ground arith)

length-lower : (s : Text) → length (map to_ascii_lowercase s) ≡ length s
length-lower [] = refl
length-lower (c ∷ s) = omega (arith, length-lower s)

nonempty_lower : (s : Text) → length s ≡ 8 → is_empty (map to_ascii_lowercase s) ≡ false
nonempty_lower [] h = absurd (omega arith)
nonempty_lower (c ∷ s) h = refl

random_subdomain-IsLabel : (drawn : Text) → IsSample drawn → IsLabel (random_subdomain drawn)
unfolding random_subdomain
random_subdomain-IsLabel drawn (l, a) = record {
  nonempty = nonempty_lower drawn l;
  short = omega (arith, length-lower drawn);
  chars = lower_all drawn a;
  front = lower_front drawn a;
  back = lower_back drawn a;
}

module _ {L : Type 0} (m : TunnelManager L) (samples : Samples) where
  try_random_lem :
      (rounds round : ℕ) (s : Text)
      → ((i : ℕ) → IsSample (samples i))
      → try_random m samples rounds round ≡ ok s
      → IsLabel s × (get m s ≡ none)
  unfolding try_random get
  try_random_lem zero round s fair h = cc
  try_random_lem (suc rounds) round s fair h =
      elim (Option-cases (lookup (random_subdomain (samples round)) m.tunnels)) [
        | inl e ↦ free e (ground arith)
        | inr (t, e) ↦ try_random_lem rounds (suc round) s fair (ground arith)
      ]
    where
      free :
          lookup (random_subdomain (samples round)) m.tunnels ≡ none
          → random_subdomain (samples round) ≡ s
          → IsLabel s × (lookup s m.tunnels ≡ none)
      free e q =
          subst (λ x. IsLabel x × (lookup x m.tunnels ≡ none)) q
            (random_subdomain-IsLabel (samples round) (fair round), e)

  free_random :
      (rounds round : ℕ) (s : Text) → try_random m samples rounds round ≡ ok s → get m s ≡ none
  unfolding try_random get
  free_random zero round s h = cc
  free_random (suc rounds) round s h =
      elim (Option-cases (lookup (random_subdomain (samples round)) m.tunnels)) [
        | inl e ↦ let (q, _) = chosen e in subst (λ x. lookup x m.tunnels ≡ none) q e
        | inr (t, e) ↦ free_random rounds (suc round) s (ground arith)
      ]
    where
      chosen :
          lookup (random_subdomain (samples round)) m.tunnels ≡ none
          → (random_subdomain (samples round) ≡ s) × (s ≡ s)
      chosen e = ground arith

  allocated-free :
      (desired : Option Text) (s : Text)
      → allocate_subdomain m samples desired ≡ ok s
      → get m s ≡ none
  unfolding allocate_subdomain get
  allocated-free none s h = free_random 5 0 s h
  allocated-free (some raw) s h = ground arith

  -- Whatever name is allocated, a requested or a random one, is a well-formed label that no tunnel
  -- holds, if the random source draws eight letters and digits each time.
  pub allocate_subdomain_lem :
      (desired : Option Text) (s : Text)
      → ((i : ℕ) → IsSample (samples i))
      → allocate_subdomain m samples desired ≡ ok s
      → IsLabel s × (get m s ≡ none)
  unfolding allocate_subdomain
  allocate_subdomain_lem none s fair h = try_random_lem 5 0 s fair h
  allocate_subdomain_lem (some raw) s fair h =
      (((sanitize_subdomain_iff raw s).0 (ground arith)).1, allocated-free (some raw) s h)

key_error_lem :
    {L : Type 0} (m : TunnelManager L) (k : Option Bytes) (taken : Text)
    → key_error m k ≢ ExposeError.subdomain_taken taken
unfolding key_error
key_error_lem m none taken = cc
key_error_lem m (some h) taken = cc

-- A tunnel that registers under the name just allocated is never told that the name is taken.
pub register_tunnel-allocate_subdomain :
    {L : Type 0} (g : Governor L) (hash_api_key : Text → Bytes) (m : TunnelManager L)
    (samples : Samples) (desired : Option Text) (tunnel_id sender : ℕ) (protocol : TunnelProtocol)
    (api_key : Option Text) (s taken : Text)
    → allocate_subdomain m samples desired ≡ ok s
    → register_tunnel g hash_api_key m tunnel_id s protocol sender api_key
      ≢ err (ExposeError.subdomain_taken taken)
unfolding register_tunnel get
register_tunnel-allocate_subdomain g hash_api_key m samples desired tunnel_id sender protocol
      api_key s taken h e =
    let free = allocated-free m samples desired s h in
    ground (arith, key_error_lem m (mathlib.Core.Option.map hash_api_key api_key) taken)
