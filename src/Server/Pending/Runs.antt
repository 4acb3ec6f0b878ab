-- ===== src/Server/Pending/Runs.antt =====
-- expose-server/src/tunnel_manager.rs: what holds of the pending store after any history.
use expose.Prelude.{
  ℕ, Option, none, if◌then◌else◌, suc, ◌+◌, ◌^◌, ◌<◌, ◌≡◌, refl, List, [], ◌∷◌, arith, inl, inr, ok,
  count, Result-cases,
}
use expose.Prelude.Assoc.{◌==◌, nat_eq, lookup, count_values, count_values-insert}
use expose.Server.Pending.{
  fulfill, close, sweep, new_store, PendingRequestConfig, PendingStore, register_pending_request,
  admit, new_request,
}
use expose.Server.Pending.Invariant.{
  Inv, new_store-Inv, register_pending_request-Inv, fulfill-Inv, close-Inv, sweep-Inv,
}
use expose.Server.Pending.History.{
  Event, registers, fulfills, closes, sweeps, Log, start, record_sender, step, run, IsNew, AreNew,
  answers, answers-append, waiting, Balanced, waiting-fulfill, waiting-close, waiting-sweep,
}

waiting-register :
    (a : ℕ) (config : PendingRequestConfig) (t id : ℕ) (timeout : Option ℕ) (now sender : ℕ)
    (s s' : PendingStore)
    → lookup id s.requests ≡ none
    → register_pending_request config t id timeout now sender s ≡ ok s'
    → waiting a s' ≡ (if sender == a then suc (waiting a s) else waiting a s)
unfolding register_pending_request admit
waiting-register a config t id timeout now sender s s' fresh h = ground (
  arith,
  count_values-insert (λ p. p.sender == a) id (new_request config t id timeout now sender)
      s.requests fresh,
)

module _ (config : PendingRequestConfig) (usize : config.max_global < 2 ^ 64) where
  step-Inv :
      (l : Log) (e : Event) → IsNew l e → Inv config l.store → Inv config (step config l e).store
  step-Inv l (registers t id timeout now sender) fresh v =
      elim (Result-cases (register_pending_request config t id timeout now sender l.store)) [
        | inl (s, e) ↦
            rw e (
              register_pending_request-Inv config l.store v t id timeout now sender s usize fresh e)
        | inr (x, e) ↦ rw (e, record_sender) v
      ]
  step-Inv l (fulfills m) fresh v = fulfill-Inv config m l.store v
  step-Inv l (closes t) fresh v = close-Inv config t l.store v
  step-Inv l (sweeps now) fresh v = sweep-Inv config now l.store v

  pub step-Balanced :
      (a : ℕ) (l : Log) (e : Event)
      → IsNew l e
      → Inv config l.store
      → Balanced a l
      → Balanced a (step config l e)
  step-Balanced a l (registers t id timeout now sender) fresh v b =
      elim (Result-cases (register_pending_request config t id timeout now sender l.store)) [
        | inl (s, e) ↦
            rw e
              (ground (arith, waiting-register a config t id timeout now sender l.store s fresh e))
        | inr (x, e) ↦ rw (e, record_sender) b
      ]
  step-Balanced a l (fulfills m) fresh v b = omega (
    arith,
    waiting-fulfill a m l.store v.distinct,
    answers-append a (fulfill m l.store).0 l.delivered,
  )
  step-Balanced a l (closes t) fresh v b = omega (
    arith,
    waiting-close a t l.store v.distinct,
    answers-append a (close t l.store).0 l.delivered,
  )
  step-Balanced a l (sweeps now) fresh v b = omega (
    arith,
    waiting-sweep a now l.store v.distinct,
    answers-append a (sweep now l.store).0 l.delivered,
  )

  run_from-Inv :
      (l : Log) (es : List Event)
      → AreNew config l es
      → Inv config l.store
      → Inv config (run config l es).store
  unfolding run
  run_from-Inv l [] fresh v = v
  run_from-Inv l (e ∷ es) fresh v =
      run_from-Inv (step config l e) es fresh.1 (step-Inv l e fresh.0 v)

  pub run_from-Balanced :
      (a : ℕ) (l : Log) (es : List Event)
      → AreNew config l es
      → Inv config l.store
      → Balanced a l
      → Balanced a (run config l es)
  unfolding run
  run_from-Balanced a l [] fresh v b = b
  run_from-Balanced a l (e ∷ es) fresh v b =
      run_from-Balanced a (step config l e) es fresh.1 (step-Inv l e fresh.0 v)
        (step-Balanced a l e fresh.0 v b)

-- After any history of registrations (each under an id that does not wait at that time), responses,
-- closed tunnels and sweeps, the store is in order: every request stands under its own id, the
-- count of a tunnel is the number of its requests, the gauge is the number of all, and neither
-- limit of the configuration is passed. The global limit is a 64-bit number.
pub run-Inv :
    (config : PendingRequestConfig) (es : List Event)
    → config.max_global < 2 ^ 64
    → AreNew config start es
    → Inv config (run config start es).store
run-Inv config es usize fresh = run_from-Inv config usize start es fresh (new_store-Inv config)

-- No waiter is lost and none is answered twice: in any history of registrations (each under an id
-- that does not wait at that time), responses, closed tunnels and sweeps, a sender was registered as
-- often as it was answered and is waiting, taken together. The global limit is a 64-bit number.
pub run_conserves :
    (config : PendingRequestConfig) (es : List Event) (a : ℕ)
    → config.max_global < 2 ^ 64
    → AreNew config start es
    → let l = run config start es in
      count (λ x. x == a) l.registered ≡ answers a l.delivered + waiting a l.store
run_conserves config es a usize fresh =
    run_from-Balanced config usize a start es fresh (new_store-Inv config)
      (unfold new_store count_values in refl)
