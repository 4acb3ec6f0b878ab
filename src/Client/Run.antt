-- ===== src/Client/Run.antt =====
-- expose-client/src/tunnel.rs: `run_with_token`, the loop over sessions. A round of the loop is the
-- result of its session, none while that runs, with what the shutdown token says at the three places where it is read:
-- before the session, after it, and during the wait.
use expose.Prelude.{
  Bool-cases, ℕ, zero, suc, ◌+◌, ◌⊎◌, inl, inr, map, ap, sym, subst, ◌∙◌, ◌^◌, ◌<◌, ◌≡◌, refl, Bool,
  true, false, ◌++◌, List, [], ◌∷◌, Option, none, some, ok, err, if◌then◌else◌, length, arith,
}
use expose.Common.Error.{ExposeError, Fallible}
use expose.Client.Backoff.{
  ReconnectBackoff, new_backoff, reset, next_delay, nominal, failures, next_delay-failures,
  delay_of, is_exhausted,
}

pub data SessionResult : Type 0 where
  shutdown : (had_connection : Bool) → SessionResult
  reconnect : ExposeError → (had_connection : Bool) → SessionResult

pub record Round : Type 0 where
  pub cancelled_before : Bool
  pub result : Option SessionResult
  pub cancelled_after : Bool
  pub cancelled_wait : Bool

-- Whether the loop has returned, and the delays that it waited for, in milliseconds.
abbrev pub Ran : Type 0
Ran = Option (Fallible (Unit {0})) × List ℕ

abbrev pub waited : ℕ → Ran → Ran
waited delay r = (r.0, delay ∷ r.1)

abbrev pub finished : Fallible (Unit {0}) → Ran
finished r = (some r, [])

-- What comes of a failed session: a wait and the next round, or the end.
abbrev pub after_failure :
    ExposeError
    → (cancelled_wait : Bool) → Option ℕ × ReconnectBackoff
    → (ReconnectBackoff → Ran)
    → Ran
after_failure e cancelled_wait (none, b) k = finished (err e)
after_failure e true (some delay, b) k = finished (ok tt)
after_failure e false (some delay, b) k = waited delay (k b)

-- `backoff.reset()` when the session had a connection.
abbrev pub settled : Bool → ReconnectBackoff → ReconnectBackoff
settled true b = reset b
settled false b = b

abbrev pub after_session :
    Round → Option SessionResult → ReconnectBackoff → (ReconnectBackoff → Ran) → Ran
after_session r none b k = (none, [])
after_session r (some (SessionResult.shutdown had_connection)) b k = finished (ok tt)
after_session r (some (SessionResult.reconnect e had_connection)) b k =
    if r.cancelled_after
    then finished (ok tt)
    else after_failure e r.cancelled_wait (next_delay (settled had_connection b)) k

unfoldable pub run_rounds : List Round → ReconnectBackoff → Ran
run_rounds [] b = (none, [])
run_rounds (r ∷ rounds) b =
    if r.cancelled_before
    then finished (ok tt)
    else after_session r r.result b (λ b'. run_rounds rounds b')

unfoldable pub run_with_token :
    (reconnect_base_delay_ms reconnect_max_attempts : ℕ) → List Round → Ran
unfolding run_rounds
run_with_token base max_attempts rounds = run_rounds rounds (new_backoff base max_attempts)

-- A round whose session fails without a connection, with no shutdown in sight.
abbrev pub fails_with : ExposeError → Round
fails_with e = record {
  cancelled_before = false;
  result = some (SessionResult.reconnect e false);
  cancelled_after = false;
  cancelled_wait = false;
}

-- The delays that a fresh backoff gives from the `k`-th on.
abbrev pub delays : (base_delay_ms k n : ℕ) → List ℕ
delays base_delay_ms k zero = []
delays base_delay_ms k (suc n) = nominal base_delay_ms k ∷ delays base_delay_ms (suc k) n

last_delay :
    (base m : ℕ)
    → base < 2 ^ 64
    → 0 < m
    → m < 2 ^ 32
    → (next_delay (failures m (new_backoff base m))).0 ≡ none
last_delay base m w z v = next_delay-failures base m m w v (inr (omega arith)) ∙ ground arith

earlier_delay :
    (base m k : ℕ)
    → base < 2 ^ 64
    → k < m
    → m < 2 ^ 32
    → (next_delay (failures k (new_backoff base m))).0 ≡ some (nominal base k)
earlier_delay base m k w z v =
    next_delay-failures base m k w (omega arith) (inr (omega arith)) ∙ ground arith

run-failures :
    (base m k : ℕ) (es : List ExposeError) (e : ExposeError) (rest : List Round)
    → base < 2 ^ 64
    → 0 < m
    → m < 2 ^ 32
    → k + length es ≡ m
    → run_rounds (map fails_with es ++ (fails_with e ∷ rest)) (failures k (new_backoff base m))
      ≡ (some (err e), delays base k (length es))
unfolding run_rounds
run-failures base m k [] e rest w z v h =
    let same : k ≡ m = omega arith in
    ap (λ o. after_failure e false (o, failures (suc k) (new_backoff base m)) (run_rounds rest))
      (subst (λ n. (next_delay (failures n (new_backoff base m))).0 ≡ none) (sym same)
        (last_delay base m w z v))
run-failures base m k (x ∷ es) e rest w z v h =
    ap
      (λ o.
        after_failure x false (o, failures (suc k) (new_backoff base m))
          (run_rounds (map fails_with es ++ (fails_with e ∷ rest))))
      (earlier_delay base m k w (omega arith) v)
    ∙ ap (waited (nominal base k)) (run-failures base m (suc k) es e rest w z v (omega arith))

-- With a maximum of `m` attempts that is not 0, `m + 1` sessions in a row that fail without a
-- connection end the run with the error of the last one, after exactly the `m` delays of the
-- backoff, the first of them the base delay. The base delay is a 64-bit number, `m` a 32-bit one,
-- and no shutdown comes in between.
pub run_with_token-gives_up :
    (base m : ℕ) (es : List ExposeError) (e : ExposeError) (rest : List Round)
    → base < 2 ^ 64
    → 0 < m
    → m < 2 ^ 32
    → length es ≡ m
    → run_with_token base m (map fails_with es ++ (fails_with e ∷ rest))
      ≡ (some (err e), delays base 0 m)
unfolding run_with_token
run_with_token-gives_up base m es e rest w z v h =
    run-failures base m 0 es e rest w z v (omega arith)
    ∙ ap (λ n. (some (err e), delays base 0 n)) h

-- The loop still runs, or it returned without an error.
abbrev HasNotFailed : Ran → Type 0
HasNotFailed r = (r.0 ≡ none) ⊎ (r.0 ≡ some (ok tt))

next_delay-unlimited :
    (b : ReconnectBackoff)
    → b.max_attempts ≡ none
    → ((next_delay b).0 ≡ some (delay_of b)) × ((next_delay b).1.max_attempts ≡ none)
unfolding next_delay is_exhausted
next_delay-unlimited b h = (rw h refl, ground (arith, h))

after_failure-HasNotFailed :
    (e : ExposeError) (cancelled_wait : Bool) (d : ℕ) (p : Option ℕ × ReconnectBackoff)
    (k : ReconnectBackoff → Ran)
    → p.0 ≡ some d
    → HasNotFailed (k p.1)
    → HasNotFailed (after_failure e cancelled_wait p k)
after_failure-HasNotFailed e w d (none, b) k h n = absurd (cc)
after_failure-HasNotFailed e true d (some x, b) k h n = inr refl
after_failure-HasNotFailed e false d (some x, b) k h n = n

settled_unlimited :
    (had : Bool) (b : ReconnectBackoff)
    → b.max_attempts ≡ none
    → (settled had b).max_attempts ≡ none
unfolding reset
settled_unlimited true b h = h
settled_unlimited false b h = h

after_session-HasNotFailed :
    (r : Round) (result : Option SessionResult) (b : ReconnectBackoff) (k : ReconnectBackoff → Ran)
    → b.max_attempts ≡ none
    → ((b' : ReconnectBackoff) → b'.max_attempts ≡ none → HasNotFailed (k b'))
    → HasNotFailed (after_session r result b k)
after_session-HasNotFailed r none b k h n = inl refl
after_session-HasNotFailed r (some (SessionResult.shutdown had)) b k h n = inr refl
after_session-HasNotFailed r (some (SessionResult.reconnect e had)) b k h n =
    let (first, second) = next_delay-unlimited (settled had b) (settled_unlimited had b h) in
    elim (Bool-cases r.cancelled_after) [
      | inl t ↦ inr (rw t refl)
      | inr f ↦ rw f (
          after_failure-HasNotFailed e r.cancelled_wait (delay_of (settled had b))
            (next_delay (settled had b)) k first (n _ second))
    ]

run-unlimited :
    (rounds : List Round) (b : ReconnectBackoff)
    → b.max_attempts ≡ none
    → HasNotFailed (run_rounds rounds b)
unfolding run_rounds
run-unlimited [] b h = inl refl
run-unlimited (r ∷ rounds) b h = elim (Bool-cases r.cancelled_before) [
  | inl t ↦ inr (rw t refl)
  | inr f ↦ rw f (
      after_session-HasNotFailed r r.result b (λ b'. run_rounds rounds b') h
        (λ b' h'. run-unlimited rounds b' h'))
]

-- With the maximum 0 the client never gives up: whatever its sessions come to, the run never ends
-- with an error.
pub run_with_token-unlimited :
    (base : ℕ) (rounds : List Round) (e : ExposeError)
    → ¬ ((run_with_token base 0 rounds).0 ≡ some (err e))
unfolding run_with_token new_backoff
run_with_token-unlimited base rounds e h = elim (run-unlimited rounds (new_backoff base 0) refl) [
  | inl n ↦ cc
  | inr n ↦ cc
]
