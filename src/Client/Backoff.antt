-- ===== src/Client/Backoff.antt =====
-- expose-client/src/tunnel.rs: `ReconnectBackoff`, how long the client waits before it connects
-- again. A `Duration` is its number of milliseconds.
use native.Mathlib.Nat.{mul-le-mul_left}
use expose.Prelude.{
  ℕ, zero, suc, ◌+◌, ◌*◌, ◌/◌, ◌^◌, ◌<◌, ◌≤◌, ◌≡◌, refl, Bool, not, ◌&&◌, false, ◌⊎◌, Option, none,
  some, if◌then◌else◌, ltb, leb, min, max, arith, unwrap_or,
}
use expose.Prelude.Assoc.{nat_eq, ◌==◌}

pub record ReconnectBackoff : Type 0 where
  pub attempt : ℕ
  pub max_attempts : Option ℕ
  pub base_delay : ℕ

unfoldable pub new_backoff : (base_delay_ms max_attempts : ℕ) → ReconnectBackoff
new_backoff base_delay_ms max_attempts = record {
  attempt = 0;
  max_attempts = if max_attempts == 0 then none else some max_attempts;
  base_delay = max base_delay_ms 100;
}

unfoldable pub reset : ReconnectBackoff → ReconnectBackoff
reset b = record b { attempt = 0 }

-- `Duration::checked_mul`: the seconds are a 64-bit number.
unfoldable pub checked_mul : ℕ → ℕ → Option ℕ
checked_mul delay n = if ltb (delay * n / 1000) (2 ^ 64) then some (delay * n) else none

unfoldable pub is_exhausted : ReconnectBackoff → Bool
is_exhausted b = elim b.max_attempts [ none ↦ false | some m ↦ leb m b.attempt ]

abbrev pub cap : ℕ
cap = 32 * 1000

-- The delay that `next_delay` computes when it does not give up.
unfoldable pub delay_of : ReconnectBackoff → ℕ
unfolding checked_mul
delay_of b = min (unwrap_or (checked_mul b.base_delay (2 ^ min b.attempt 5)) (32 * 1000)) cap

-- `u32::saturating_add`.
unfoldable pub next_delay : ReconnectBackoff → Option ℕ × ReconnectBackoff
unfolding is_exhausted delay_of
next_delay b =
    if is_exhausted b
    then (none, b)
    else (some (delay_of b), record b { attempt = min (b.attempt + 1) 4294967295 })

-- The state after some failures in a row.
abbrev pub failures : ℕ → ReconnectBackoff → ReconnectBackoff
failures zero b = b
failures (suc k) b = (next_delay (failures k b)).1

-- The delay before the next try after `k` failures in a row: doubled up to five times, and never
-- more than 32 seconds.
abbrev pub nominal : (base_delay_ms k : ℕ) → ℕ
nominal base_delay_ms k = min (max base_delay_ms 100 * 2 ^ min k 5) cap

pow_le : (e : ℕ) → e ≤ 5 → 2 ^ e ≤ 32
pow_le zero h = omega arith
pow_le (suc zero) h = omega arith
pow_le (suc (suc zero)) h = omega arith
pow_le (suc (suc (suc zero))) h = omega arith
pow_le (suc (suc (suc (suc zero)))) h = omega arith
pow_le (suc (suc (suc (suc (suc zero))))) h = omega arith
pow_le (suc (suc (suc (suc (suc (suc e)))))) h = absurd (omega arith)

mul_le : (a b : ℕ) → a < 2 ^ 64 → b ≤ 32 → a * b / 1000 < 2 ^ 64
mul_le a b w h = let scaled : a * b ≤ a * 32 = mul-le-mul_left a h in omega arith

pub failures-new :
    (base_delay_ms m k : ℕ)
    → k < 2 ^ 32
    → (m ≡ 0) ⊎ (k ≤ m)
    → failures k (new_backoff base_delay_ms m)
      ≡ record (new_backoff base_delay_ms m) { attempt = k }
unfolding new_backoff next_delay is_exhausted
failures-new base_delay_ms m zero w h = refl
failures-new base_delay_ms m (suc k) w h =
    ground (arith, failures-new base_delay_ms m k (omega arith))

pub delay_of-nominal :
    (b : ReconnectBackoff)
    → b.base_delay < 2 ^ 64
    → 100 ≤ b.base_delay
    → delay_of b ≡ nominal b.base_delay b.attempt
unfolding delay_of
delay_of-nominal b w h =
    ground
      (arith, pow_le (min b.attempt 5) (omega arith), mul_le b.base_delay (2 ^ min b.attempt 5))

-- After `k` failures in a row since it was new, the backoff waits for the base delay, of 100 ms at
-- least, doubled `k` times but five at most, and for 32 seconds at most; with a maximum it gives up
-- exactly when that many delays are used up, and the maximum 0 means that it never does. The base
-- delay is a 64-bit number and `k` is below 2^32, and not above a maximum there is.
pub next_delay-failures :
    (base_delay_ms m k : ℕ)
    → base_delay_ms < 2 ^ 64
    → k < 2 ^ 32
    → (m ≡ 0) ⊎ (k ≤ m)
    → (next_delay (failures k (new_backoff base_delay_ms m))).0
      ≡ (if not (m == 0) && (m == k) then none else some (nominal base_delay_ms k))
unfolding new_backoff next_delay is_exhausted
next_delay-failures base_delay_ms m k d w h =
    rw (failures-new base_delay_ms m k w h)
      (ground (arith, delay_of-nominal (record (new_backoff base_delay_ms m) { attempt = k })))
