-- ===== src/Server/Pending/Sweeping.antt =====
-- expose-server/src/tunnel_manager.rs: what `sweep` and `close` take out of the store, and what
-- the waiters get.
use expose.Prelude.{
  subst, ℕ, ◌≡◌, refl, sym, ◌∙◌, ap, inl, inr, Bool, true, false, List, [], ◌∷◌, map, Option, none,
  some, arith, if◌then◌else◌, Option-cases, Bool-cases, any, All, is_empty,
}
use expose.Prelude.Assoc.{
  ◌==◌, nat_eq, lookup, remove, Distinct, lookup-remove, remove_absent, count_values,
}
use expose.Server.Pending.{
  PendingRequestConfig, PendingRequest, PendingStore, store_remove, of_tunnel, is_expired,
  matching_keys, remove_all, close, sweep, count_for_tunnel, timed_out_response,
  disconnected_response,
}
use expose.Server.Pending.Invariant.{Inv, close-Inv}

-- The requests of a map that pass a test.
unfoldable pub matching_values :
    (PendingRequest → Bool) → List (ℕ × PendingRequest) → List PendingRequest
matching_values p [] = []
matching_values p ((id, r) ∷ m) = if p r then r ∷ matching_values p m else matching_values p m

-- What is left of a looked up request when those that pass a test are gone.
abbrev pub unless : (PendingRequest → Bool) → Option PendingRequest → Option PendingRequest
unless p none = none
unless p (some r) = if p r then none else some r

requests-store_remove :
    (id : ℕ) (s : PendingStore) → (store_remove id s).1.requests ≡ remove id s.requests
unfolding store_remove
requests-store_remove id s = elim (Option-cases (lookup id s.requests)) [
  | inl e ↦ rw (e, store_remove) (sym (remove_absent id s.requests e))
  | inr (p, e) ↦ rw (e, store_remove)
]

found-store_remove : (id : ℕ) (s : PendingStore) → (store_remove id s).0 ≡ lookup id s.requests
unfolding store_remove
found-store_remove id s = elim (Option-cases (lookup id s.requests)) [
  | inl e ↦ rw (e, store_remove)
  | inr (p, e) ↦ rw (e, store_remove)
]

lookup-remove_all :
    (j : ℕ) (ids : List ℕ) (s : PendingStore)
    → lookup j (remove_all ids s).1.requests
      ≡ (if any (λ i. i == j) ids then none else lookup j s.requests)
unfolding remove_all
lookup-remove_all j [] s = refl
lookup-remove_all j (id ∷ ids) s = ground (
  arith,
  lookup-remove_all j ids (store_remove id s).1,
  ap (lookup j) (requests-store_remove id s),
  lookup-remove id j s.requests,
)

abbrev listed : ℕ → List ℕ → Bool
listed j = any (λ i. i == j)

absent-matching_keys :
    (p : PendingRequest → Bool) (j : ℕ) (m : List (ℕ × PendingRequest))
    → lookup j m ≡ none
    → listed j (matching_keys p m) ≡ false
unfolding matching_keys lookup
absent-matching_keys p j [] h = refl
absent-matching_keys p j ((i, r) ∷ m) h = elim (Bool-cases (p r)) [
  | inl e ↦ rw (e, matching_keys) (ground (arith, absent-matching_keys p j m))
  | inr e ↦ rw (e, matching_keys) (absent-matching_keys p j m (ground arith))
]

any-matching_keys :
    (p : PendingRequest → Bool) (j : ℕ) (m : List (ℕ × PendingRequest))
    → Distinct m
    → (if listed j (matching_keys p m) then none else lookup j m) ≡ unless p (lookup j m)
unfolding matching_keys lookup
any-matching_keys p j [] d = refl
any-matching_keys p j ((i, r) ∷ m) d = elim (Bool-cases (p r)) [
  | inl e ↦
      rw (e, matching_keys)
        (ground (arith, any-matching_keys p j m d.1, absent-matching_keys p j m))
  | inr e ↦
      rw (e, matching_keys)
        (ground (arith, any-matching_keys p j m d.1, absent-matching_keys p j m))
]

-- The entries of one map stand in another.
abbrev Within : List (ℕ × PendingRequest) → List (ℕ × PendingRequest) → Type 0
Within m n = All (λ e. lookup e.0 n ≡ some e.1) m

Within-remove :
    (i : ℕ) (m n : List (ℕ × PendingRequest))
    → lookup i m ≡ none
    → Within m n
    → Within m (remove i n)
unfolding lookup
Within-remove i [] n h w = tt
Within-remove i ((j, r) ∷ m) n h w =
    (ground (arith, w.0, lookup-remove i j n), Within-remove i m n (ground arith) w.1)

removed-matching :
    (p : PendingRequest → Bool) (m : List (ℕ × PendingRequest)) (s : PendingStore)
    → Distinct m
    → Within m s.requests
    → (remove_all (matching_keys p m) s).0 ≡ matching_values p m
unfolding matching_keys matching_values remove_all
removed-matching p [] s d w = refl
removed-matching p ((i, r) ∷ m) s d w = elim (Bool-cases (p r)) [
  | inl e ↦
      let ih =
        removed-matching p m (store_remove i s).1 d.1
          (rw (requests-store_remove i s) (Within-remove i m s.requests d.0 w.1)) in
      rw (e, matching_keys, matching_values) (ground (arith, ih, found-store_remove i s, w.0))
  | inr e ↦ rw (e, matching_keys, matching_values) (removed-matching p m s d.1 w.1)
]

Within-cons :
    (i : ℕ) (r : PendingRequest) (m n : List (ℕ × PendingRequest))
    → lookup i m ≡ none
    → Within m n
    → Within m ((i, r) ∷ n)
unfolding lookup
Within-cons i r [] n h w = tt
Within-cons i r ((j, q) ∷ m) n h w = (ground (arith, w.0), Within-cons i r m n (ground arith) w.1)

Within-refl : (m : List (ℕ × PendingRequest)) → Distinct m → Within m m
unfolding lookup
Within-refl [] d = tt
Within-refl ((i, r) ∷ m) d = (ground arith, Within-cons i r m m d.0 (Within-refl m d.1))

count_values-zero :
    (p : PendingRequest → Bool) (m : List (ℕ × PendingRequest))
    → Distinct m
    → ((j : ℕ) → unless p (lookup j m) ≡ lookup j m)
    → count_values p m ≡ 0
unfolding count_values lookup
count_values-zero p [] d h = refl
count_values-zero p ((i, r) ∷ m) d h =
    ground (arith, h i, count_values-zero p m d.1 (λ j. ground (arith, h j, d.0)))

nil_of_is_empty : (xs : List ℕ) → is_empty xs ≡ true → xs ≡ []
nil_of_is_empty [] h = refl
nil_of_is_empty (x ∷ xs) h = cc

unless_idem :
    (p : PendingRequest → Bool) (o : Option PendingRequest) → unless p (unless p o) ≡ unless p o
unless_idem p none = refl
unless_idem p (some r) = ground arith

module _ (config : PendingRequestConfig) (s : PendingStore) (v : Inv config s) where
  -- A tick of the sweeper answers exactly the requests whose deadline has come, each with a 504
  -- under its own id, takes exactly those out of the store and leaves every other as it was. The
  -- store is in order before.
  pub sweep_lem :
      (now j : ℕ)
      → ((sweep now s).0
          ≡ map
              (λ p. (p.sender, timed_out_response p))
              (matching_values (is_expired now) s.requests))
        × (lookup j (sweep now s).1.requests ≡ unless (is_expired now) (lookup j s.requests))
  unfolding sweep remove_all
  sweep_lem now j = elim (Bool-cases (is_empty ids)) [
    | inl e ↦
        rw (e, sweep)
          (
            ap (map _) (
                subst (λ xs. (remove_all xs s).0 ≡ matching_values (is_expired now) s.requests)
                  (nil_of_is_empty ids e) answered),
            subst
                (λ xs.
                  lookup j (remove_all xs s).1.requests
                  ≡ unless (is_expired now) (lookup j s.requests))
                (nil_of_is_empty ids e) left,
          )
    | inr e ↦ rw (e, sweep) (ap (map _) answered, left)
  ]
    where
      ids : List ℕ
      ids = matching_keys (is_expired now) s.requests

      answered : (remove_all ids s).0 ≡ matching_values (is_expired now) s.requests
      answered =
          removed-matching (is_expired now) s.requests s v.distinct
            (Within-refl s.requests v.distinct)

      left : lookup j (remove_all ids s).1.requests ≡ unless (is_expired now) (lookup j s.requests)
      left = lookup-remove_all j ids s ∙ any-matching_keys (is_expired now) j s.requests v.distinct

  -- Closing a tunnel answers every request that waits for it with a 502 under its own id, takes
  -- exactly those out of the store, and leaves the tunnel with a count of zero. The store is in order
  -- before.
  pub close_lem :
      (t j : ℕ)
      → ((close t s).0
          ≡ map
              (λ p. (p.sender, disconnected_response p))
              (matching_values (of_tunnel t) s.requests))
        × (lookup j (close t s).1.requests ≡ unless (of_tunnel t) (lookup j s.requests))
        × (count_for_tunnel (close t s).1 t ≡ 0)
  unfolding close count_for_tunnel
  close_lem t j = (
    ap (map _) (
        removed-matching (of_tunnel t) s.requests s v.distinct (Within-refl s.requests v.distinct)),
    left j,
    after.counted t
        ∙ count_values-zero (of_tunnel t) (close t s).1.requests after.distinct (λ i. gone i),
  )
    where
      after : Inv config (close t s).1
      after = close-Inv config t s v

      left : (i : ℕ) → lookup i (close t s).1.requests ≡ unless (of_tunnel t) (lookup i s.requests)
      left i =
          lookup-remove_all i (matching_keys (of_tunnel t) s.requests) s
          ∙ any-matching_keys (of_tunnel t) i s.requests v.distinct

      gone :
          (i : ℕ)
          → unless (of_tunnel t) (lookup i (close t s).1.requests) ≡ lookup i (close t s).1.requests
      gone i = rw (left i) (unless_idem (of_tunnel t) (lookup i s.requests))
