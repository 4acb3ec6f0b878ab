-- ===== src/Prelude/Assoc.antt =====
-- Maps (`HashMap`, `DashMap`) as association lists over keys with a Boolean equality. The order
-- of the entries is the order of insertion; the source's maps promise no order.
use Prim.Native.Nat.{ℕ, suc, ◌≤◌, ◌<◌}
use mathlib.Core.Path.{◌≡◌, refl}
use mathlib.Core.Bool.{Bool, true}
use mathlib.Core.List.{List, [], ◌∷◌}
use mathlib.Core.Option.{Option, none, some}
use mathlib.Core.Logic.{◌↔◌}
use native.Mathlib.Omega.{arith}
use expose.Prelude.Tests.{if◌then◌else◌, ◌==◌ as nat_beq, ==_iff}
use expose.Prelude.Lists.{length}
use expose.Prelude.Outcome.{is_some}

-- `Eq` of Rust: a test that decides equality.
pub record Comparable {ℓ} (K : Type ℓ) : Type ℓ where
  pub eqb : K → K → Bool
  pub eqb_iff : (x y : K) → (eqb x y ≡ true) ↔ (x ≡ y)

instance abbrev pub nat_eq : Comparable ℕ
nat_eq = record { eqb = nat_beq; eqb_iff = ==_iff }

infix 50 ◌==◌
abbrev pub ◌==◌ {ℓ} : {K : Type ℓ} ⦃c : Comparable K⦄ → K → K → Bool
◌==◌ ⦃c⦄ = c.eqb

pub eqb_refl {ℓ} : {A : Type ℓ} ⦃e : Comparable A⦄ (a : A) → (a == a) ≡ true
eqb_refl ⦃e⦄ a = (e.eqb_iff a a).1 refl

module _ {ℓ κ} {K : Type ℓ} {V : Type κ} ⦃e : Comparable K⦄ where
  -- `get`.
  unfoldable pub lookup : K → List (K × V) → Option V
  lookup key [] = none
  lookup key ((other, value) ∷ rest) = if other == key then some value else lookup key rest

  abbrev pub contains_key : K → List (K × V) → Bool
  contains_key k m = is_some (lookup k m)

  -- `insert`: the value of a present key is replaced.
  unfoldable pub insert : K → V → List (K × V) → List (K × V)
  insert key value [] = (key, value) ∷ []
  insert key value ((other, old) ∷ rest) =
      if other == key then (key, value) ∷ rest else (other, old) ∷ insert key value rest

  -- `remove`.
  unfoldable pub remove : K → List (K × V) → List (K × V)
  remove k [] = []
  remove k ((j, w) ∷ m) = if j == k then remove k m else (j, w) ∷ remove k m

  -- No key twice.
  abbrev pub Distinct : List (K × V) → Type κ
  Distinct [] = Unit
  Distinct ((k, v) ∷ m) = (lookup k m ≡ none) × Distinct m

  pub lookup-insert :
      (key wanted : K) (value : V) (rest : List (K × V))
      → lookup wanted (insert key value rest)
        ≡ (if key == wanted then some value else lookup wanted rest)
  unfolding lookup insert
  lookup-insert key wanted value [] = refl
  lookup-insert key wanted value ((present, old) ∷ rest) = ground (
    arith,
    e.eqb_iff key wanted,
    e.eqb_iff present key,
    e.eqb_iff present wanted,
    lookup-insert key wanted value rest,
  )

  pub lookup-remove :
      (k j : K) (m : List (K × V)) → lookup j (remove k m) ≡ (if k == j then none else lookup j m)
  unfolding lookup remove
  lookup-remove k j [] = ground arith
  lookup-remove k j ((i, w) ∷ m) =
      ground (arith, e.eqb_iff k j, e.eqb_iff i k, e.eqb_iff i j, lookup-remove k j m)

  pub lookup-insert_self :
      (key : K) (value : V) (rest : List (K × V)) → lookup key (insert key value rest) ≡ some value
  lookup-insert_self key value rest = ground (arith, lookup-insert key key value rest, eqb_refl key)

  pub lookup-remove_self : (k : K) (m : List (K × V)) → lookup k (remove k m) ≡ none
  lookup-remove_self k m = ground (arith, lookup-remove k k m, eqb_refl k)

  pub remove_absent : (k : K) (m : List (K × V)) → lookup k m ≡ none → remove k m ≡ m
  unfolding lookup remove
  remove_absent k [] h = refl
  remove_absent k ((i, w) ∷ m) h = ground (arith, remove_absent k m)

  pub insert-Distinct : (k : K) (v : V) (m : List (K × V)) → Distinct m → Distinct (insert k v m)
  unfolding lookup insert
  insert-Distinct k v [] d = (refl, tt)
  insert-Distinct k v ((i, w) ∷ m) d =
      ground (arith, e.eqb_iff i k, e.eqb_iff k i, insert-Distinct k v m d.1, lookup-insert k i v m)

  pub remove-Distinct : (k : K) (m : List (K × V)) → Distinct m → Distinct (remove k m)
  unfolding lookup remove
  remove-Distinct k [] d = tt
  remove-Distinct k ((i, w) ∷ m) d = ground (arith, remove-Distinct k m d.1, lookup-remove k i m)

-- How many values pass a test, and what an update does to that number.
module _ {ℓ κ} {K : Type ℓ} {V : Type κ} ⦃e : Comparable K⦄ (p : V → Bool) where
  unfoldable pub count_values : List (K × V) → ℕ
  count_values [] = 0
  count_values ((j, w) ∷ m) = if p w then suc (count_values m) else count_values m

  pub count_values-insert :
      (k : K) (v : V) (m : List (K × V))
      → lookup k m ≡ none
      → count_values (insert k v m) ≡ (if p v then suc (count_values m) else count_values m)
  unfolding lookup insert count_values
  count_values-insert k v [] h = refl
  count_values-insert k v ((i, w) ∷ m) h = ground (arith, count_values-insert k v m)

  pub count_values-remove :
      (k : K) (v : V) (m : List (K × V))
      → Distinct m
      → lookup k m ≡ some v
      → count_values m
        ≡ (if p v then suc (count_values (remove k m)) else count_values (remove k m))
  unfolding lookup remove count_values
  count_values-remove k v [] d h = cc
  count_values-remove k v ((i, w) ∷ m) d h =
      ground (arith, e.eqb_iff i k, count_values-remove k v m d.1, remove_absent k m)

  pub count_values-pos :
      (k : K) (v : V) (m : List (K × V)) → lookup k m ≡ some v → p v ≡ true → 0 < count_values m
  unfolding lookup count_values
  count_values-pos k v [] h t = cc
  count_values-pos k v ((i, w) ∷ m) h t = ground (arith, count_values-pos k v m)

  pub count_values-remove_le :
      (k : K) (m : List (K × V)) → count_values (remove k m) ≤ count_values m
  unfolding remove count_values
  count_values-remove_le k [] = omega arith
  count_values-remove_le k (x ∷ m) = ground (arith, count_values-remove_le k m)

  pub count_values-le : (m : List (K × V)) → count_values m ≤ length m
  unfolding count_values
  count_values-le [] = omega arith
  count_values-le (x ∷ m) = ground (arith, count_values-le m)

module _ {ℓ κ} {K : Type ℓ} {V : Type κ} ⦃e : Comparable K⦄ where
  pub length-insert :
      (k : K) (v : V) (m : List (K × V))
      → lookup k m ≡ none
      → length (insert k v m) ≡ suc (length m)
  unfolding lookup insert
  length-insert k v [] h = refl
  length-insert k v ((i, w) ∷ m) h = ground (arith, length-insert k v m)

  pub length-remove :
      (k : K) (v : V) (m : List (K × V))
      → Distinct m
      → lookup k m ≡ some v
      → length m ≡ suc (length (remove k m))
  unfolding lookup remove
  length-remove k v [] d h = cc
  length-remove k v ((i, w) ∷ m) d h =
      ground (arith, e.eqb_iff i k, length-remove k v m d.1, remove_absent k m)

  pub length-remove-le : (k : K) (m : List (K × V)) → length (remove k m) ≤ length m
  unfolding remove
  length-remove-le k [] = omega arith
  length-remove-le k (x ∷ m) = ground (arith, length-remove-le k m)
