-- ===== src/Server/Pending/Answered.antt =====
-- expose-server/src/tunnel_manager.rs: every registered waiter is answered in the end.
use expose.Prelude.{
  ℕ, ◌+◌, ◌^◌, ◌≤◌, ◌<◌, ◌≡◌, refl, sym, ◌∙◌, false, Bool, Bool-cases, Option-cases, Result-cases,
  inl, inr, List, [], ◌∷◌, ◌++◌, Option, some, ok, arith, count, unwrap_or, is_empty,
}
use expose.Prelude.Assoc.{
  nat_eq, ◌==◌, lookup, lookup-insert, lookup-remove, Distinct, count_values, eqb_refl,
}
use expose.Common.Message.{Message}
use expose.Server.Pending.{
  PendingRequestConfig, PendingRequest, PendingStore, new_store, store_remove, of_tunnel,
  is_expired, matching_keys, remove_all, drain_for_tunnel, register_pending_request, fulfill, close,
  sweep, admit, new_request,
}
use expose.Server.Pending.Invariant.{Inv, sweep-Inv}
use expose.Server.Pending.Sweeping.{sweep_lem, unless}
use expose.Server.Pending.History.{
  Event, registers, fulfills, closes, sweeps, Log, start, record_sender, step, run, AreNew, answers,
  waiting,
}
use expose.Server.Pending.Runs.{run-Inv, run_conserves, step-Balanced}

-- The entries of a sender are due at a time, and the registrations that make them.
abbrev DueBy : ℕ → ℕ → PendingStore → Type 0
DueBy a now s =
    (id : ℕ) (p : PendingRequest) → lookup id s.requests ≡ some p → p.sender ≡ a → p.deadline ≤ now

abbrev Due : PendingRequestConfig → ℕ → ℕ → Event → Type 0
Due config a now (registers t id timeout at sender) =
    sender ≡ a → at + unwrap_or timeout config.default_timeout ≤ now
Due config a now _ = Unit

abbrev pub AllDue : PendingRequestConfig → ℕ → ℕ → List Event → Type 0
AllDue config a now [] = Unit
AllDue config a now (e ∷ es) = Due config a now e × AllDue config a now es

module _ (a now : ℕ) where
  store_remove-DueBy :
      (id : ℕ) (s : PendingStore) → DueBy a now s → DueBy a now (store_remove id s).1
  unfolding store_remove
  store_remove-DueBy id s d = elim (Option-cases (lookup id s.requests)) [
    | inl e ↦ rw (e, store_remove) d
    | inr (p, e) ↦
        rw (e, store_remove) (λ j q h. d j q (ground (arith, lookup-remove id j s.requests, h)))
  ]

  remove_all-DueBy :
      (ids : List ℕ) (s : PendingStore) → DueBy a now s → DueBy a now (remove_all ids s).1
  unfolding remove_all
  remove_all-DueBy [] s d = d
  remove_all-DueBy (id ∷ ids) s d =
      remove_all-DueBy ids (store_remove id s).1 (store_remove-DueBy id s d)

  fulfill-DueBy : (m : Message) (s : PendingStore) → DueBy a now s → DueBy a now (fulfill m s).1
  unfolding fulfill
  fulfill-DueBy (Message.http_response id status headers body) s d = store_remove-DueBy id s d
  fulfill-DueBy m s d = d

  close-DueBy : (t : ℕ) (s : PendingStore) → DueBy a now s → DueBy a now (close t s).1
  unfolding close drain_for_tunnel
  close-DueBy t s d = remove_all-DueBy (matching_keys (of_tunnel t) s.requests) s d

  sweep-DueBy : (at : ℕ) (s : PendingStore) → DueBy a now s → DueBy a now (sweep at s).1
  unfolding sweep
  sweep-DueBy at s d = elim (Bool-cases (is_empty (matching_keys (is_expired at) s.requests))) [
    | inl e ↦ rw (e, sweep) d
    | inr e ↦ rw (e, sweep) (remove_all-DueBy (matching_keys (is_expired at) s.requests) s d)
  ]

  register-DueBy :
      (config : PendingRequestConfig) (t id : ℕ) (timeout : Option ℕ) (at sender : ℕ)
      (s s' : PendingStore)
      → (sender ≡ a → at + unwrap_or timeout config.default_timeout ≤ now)
      → DueBy a now s
      → register_pending_request config t id timeout at sender s ≡ ok s'
      → DueBy a now s'
  unfolding register_pending_request admit new_request
  register-DueBy config t id timeout at sender s s' w d h j p e = ground (
    arith,
    h,
    e,
    w,
    d j p,
    lookup-insert id j (new_request config t id timeout at sender) s.requests,
  )

module _ (config : PendingRequestConfig) (a now : ℕ) where
  step-DueBy :
      (l : Log) (e : Event)
      → Due config a now e
      → DueBy a now l.store
      → DueBy a now (step config l e).store
  step-DueBy l (registers t id timeout at sender) w d =
      elim (Result-cases (register_pending_request config t id timeout at sender l.store)) [
        | inl (s, e) ↦ rw e (register-DueBy a now config t id timeout at sender l.store s w d e)
        | inr (x, e) ↦ rw (e, record_sender) d
      ]
  step-DueBy l (fulfills m) w d = fulfill-DueBy a now m l.store d
  step-DueBy l (closes t) w d = close-DueBy a now t l.store d
  step-DueBy l (sweeps at) w d = sweep-DueBy a now at l.store d

  run-DueBy :
      (l : Log) (es : List Event)
      → AllDue config a now es
      → DueBy a now l.store
      → DueBy a now (run config l es).store
  unfolding run
  run-DueBy l [] w d = d
  run-DueBy l (e ∷ es) (w, ws) d = run-DueBy (step config l e) es ws (step-DueBy l e w d)

count_values-none :
    {V : Type 0} (test : V → Bool) (m : List (ℕ × V))
    → Distinct m
    → ((k : ℕ) (v : V) → lookup k m ≡ some v → test v ≡ false)
    → count_values test m ≡ 0
unfolding lookup count_values
count_values-none test [] d h = refl
count_values-none test ((i, w) ∷ m) d h =
    let first : test w ≡ false = h i w (ground (arith, eqb_refl i)) in
    rw first
      (count_values-none test m d.1 (λ k v e. h k v (ground (arith, nat_eq.eqb_iff i k, d.0, e))))

run_snoc :
    (config : PendingRequestConfig) (l : Log) (es : List Event) (e : Event)
    → run config l (es ++ (e ∷ [])) ≡ step config (run config l es) e
unfolding run
run_snoc config l [] e = refl
run_snoc config l (x ∷ es) e = run_snoc config (step config l x) es e

swept_clean :
    (config : PendingRequestConfig) (a now : ℕ) (s : PendingStore)
    → Inv config s
    → DueBy a now s
    → Inv config (sweep now s).1
    → waiting a (sweep now s).1 ≡ 0
swept_clean config a now s v d v' =
    count_values-none (λ p. p.sender == a) (sweep now s).1.requests v'.distinct
      (λ k p e. elim (Bool-cases (p.sender == a)) [
        | inr n ↦ n
        | inl y ↦ absurd (still k p e ((nat_eq.eqb_iff p.sender a).0 y))
      ])
  where
    still :
        (k : ℕ) (p : PendingRequest) → lookup k (sweep now s).1.requests ≡ some p → p.sender ≡ a → ⊥
    still k p e y =
        let left : unless (is_expired now) (lookup k s.requests) ≡ some p =
          sym (sweep_lem config s v now k).1 ∙ e in
        elim (Option-cases (lookup k s.requests)) [
          | inl n ↦ ground (arith, n, left)
          | inr (q, n) ↦ ground (arith, n, left, d k q n, y)
        ]

-- Every waiter whose time has come is answered: in any history that ends with a tick of the sweeper
-- at a time, a sender whose registrations all have their deadline by that time has been answered
-- exactly as often as it was registered, by a response, by the end of its tunnel or by a sweep. Each
-- registration is under an id that does not wait at that time, and the global limit is a 64-bit
-- number.
pub run-all_answered :
    (config : PendingRequestConfig) (es : List Event) (a now : ℕ)
    → config.max_global < 2 ^ 64
    → AreNew config start es
    → AllDue config a now es
    → let l = run config start (es ++ (sweeps now ∷ [])) in
      count (λ x. x == a) l.registered ≡ answers a l.delivered
run-all_answered config es a now usize fresh due =
    let l : Log = run config start es in
    let v : Inv config l.store = run-Inv config es usize fresh in
    let due_now : DueBy a now l.store =
      run-DueBy config a now start es due (unfold new_store lookup in λ id p h. absurd (cc)) in
    let balanced : count (λ x. x == a) (step config l (sweeps now)).registered
        ≡ answers a (step config l (sweeps now)).delivered + waiting a (sweep now l.store).1 =
      step-Balanced config usize a l (sweeps now) tt v (run_conserves config es a usize fresh) in
    rw (run_snoc config start es (sweeps now)) (
      omega (
        arith,
        balanced,
        swept_clean config a now l.store v due_now (sweep-Inv config now l.store v),
      ))
