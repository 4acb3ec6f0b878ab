-- ===== src/Server/Pending/Slots.antt =====
-- expose-server/src/tunnel_manager.rs: the counts per tunnel, one lemma for each update.
use expose.Prelude.{
  ℕ, ◌+◌, ◌-◌, ◌^◌, ◌<◌, ◌≡◌, ◌≢◌, List, some, arith, if◌then◌else◌, unwrap_or, wrapping_add-small,
  wrapping_add,
}
use expose.Prelude.Assoc.{◌==◌, nat_eq, lookup, lookup-insert, lookup-remove}
use expose.Server.Pending.{take_slot, free_slot}

-- The count of a tunnel: zero without an entry.
abbrev pub slots : ℕ → List (ℕ × ℕ) → ℕ
slots t m = unwrap_or (lookup t m) 0

pub slots-take_slot :
    (t j : ℕ) (m : List (ℕ × ℕ))
    → slots t m + 1 < 2 ^ 64
    → slots j (take_slot t m) ≡ (if t == j then slots t m + 1 else slots j m)
unfolding take_slot
slots-take_slot t j m h = ground (
  arith,
  lookup-insert t j 1 m,
  lookup-insert t j (wrapping_add (slots t m) 1) m,
  wrapping_add-small (slots t m) 1,
)

pub slots-free_slot :
    (t j : ℕ) (m : List (ℕ × ℕ))
    → slots j (free_slot t m) ≡ (if t == j then slots t m - 1 else slots j m)
unfolding free_slot
slots-free_slot t j m = ground (arith, lookup-insert t j (slots t m - 1) m, lookup-remove t j m)

-- No entry is zero.
abbrev pub NoZero : List (ℕ × ℕ) → Type 0
NoZero m = (t : ℕ) → lookup t m ≢ some 0

pub take_slot-NoZero :
    (t : ℕ) (m : List (ℕ × ℕ)) → slots t m + 1 < 2 ^ 64 → NoZero m → NoZero (take_slot t m)
unfolding take_slot
take_slot-NoZero t m h z j = ground (
  arith,
  z j,
  lookup-insert t j 1 m,
  lookup-insert t j (wrapping_add (slots t m) 1) m,
  wrapping_add-small (slots t m) 1,
)

pub free_slot-NoZero : (t : ℕ) (m : List (ℕ × ℕ)) → NoZero m → NoZero (free_slot t m)
unfolding free_slot
free_slot-NoZero t m z j =
    ground (arith, z j, lookup-insert t j (slots t m - 1) m, lookup-remove t j m)
