-- ===== src/Server/Proxy/Handler/Waiting.antt =====
-- expose-server/src/proxy/mod.rs: what the wait for an answer comes to, after a history of what other
-- tasks do to the waiting requests.
use expose.Prelude.{
  none, Bool-cases, ℕ, ◌+◌, ◌≤◌, ◌≡◌, ◌≢◌, ◌⊎◌, refl, ◌∙◌, Option-cases, Result-cases, inl, inr,
  List, [], ◌∷◌, some, arith, count,
}
use expose.Prelude.Assoc.{lookup, nat_eq, ◌==◌}
use expose.Prelude.Text.{text_eq}
use expose.Common.Message.{Message}
use expose.Server.Pending.{PendingRequestConfig, Deliveries, register_pending_request}
use expose.Server.Pending.History.{
  Event, registers, fulfills, closes, sweeps, Log, run, step, record_sender, answers, waiting,
}
use expose.Server.Proxy.Handler.{answered, dropped, elapsed, answer_to, is_held, wait_end}

-- No other registration has the sender.
abbrev IsOther : ℕ → Event → Type 0
IsOther a (registers t id timeout now sender) = sender ≢ a
IsOther a _ = Unit

abbrev pub AreOthers : ℕ → List Event → Type 0
AreOthers a [] = Unit
AreOthers a (e ∷ es) = IsOther a e × AreOthers a es

-- A sender got its one answer, or it got none and its entry is in the store.
abbrev pub AnsweredOnce : ℕ → Log → Type 0
AnsweredOnce a l = (answers a l.delivered ≡ 1) × (waiting a l.store ≡ 0)

abbrev pub StillWaits : ℕ → Log → Type 0
StillWaits a l = (answers a l.delivered ≡ 0) × (waiting a l.store ≡ 1)

pub one_of : (n k : ℕ) → n + k ≡ 1 → ((n ≡ 1) × (k ≡ 0)) ⊎ ((n ≡ 0) × (k ≡ 1))
one_of n k h = ground (arith, h)

module _ (a : ℕ) where
  step-registered :
      (limits : PendingRequestConfig) (l : Log) (e : Event)
      → IsOther a e
      → count (λ x. x == a) (step limits l e).registered ≡ count (λ x. x == a) l.registered
  step-registered limits l (registers t id timeout now sender) w =
      elim (Result-cases (register_pending_request limits t id timeout now sender l.store)) [
        | inl (s, e) ↦ rw (e, record_sender) (ground (arith, w, nat_eq.eqb_iff sender a))
        | inr (x, e) ↦ rw (e, record_sender) refl
      ]
  step-registered limits l (fulfills m) w = refl
  step-registered limits l (closes t) w = refl
  step-registered limits l (sweeps now) w = refl

  pub run-registered :
      (limits : PendingRequestConfig) (l : Log) (es : List Event)
      → AreOthers a es
      → count (λ x. x == a) (run limits l es).registered ≡ count (λ x. x == a) l.registered
  unfolding run
  run-registered limits l [] w = refl
  run-registered limits l (e ∷ es) (w, ws) =
      run-registered limits (step limits l e) es ws ∙ step-registered limits l e w

  pub answers_found : (ds : Deliveries) (m : Message) → answer_to a ds ≡ some m → 1 ≤ answers a ds
  unfolding answer_to
  answers_found [] m h = absurd (cc)
  answers_found ((s, x) ∷ ds) m h = elim (Option-cases (answer_to a ds)) [
    | inr (y, e) ↦ ground (arith, answers_found ds y e)
    | inl e ↦ ground (arith, e, h)
  ]

  answers-none : (ds : Deliveries) → answer_to a ds ≡ none → answers a ds ≡ 0
  unfolding answer_to
  answers-none [] h = refl
  answers-none ((s, x) ∷ ds) h = elim (Option-cases (answer_to a ds)) [
    | inr (y, e) ↦ absurd (ground (arith, e, h))
    | inl e ↦ ground (arith, e, h, answers-none ds e)
  ]

  unheld :
      (id : ℕ) (l : Log)
      → answer_to a l.delivered ≡ none
      → (wait_end a id l ≡ dropped) ⊎ (wait_end a id l ≡ elapsed)
  unfolding wait_end
  unheld id l e = elim (Bool-cases (is_held a (lookup id l.store.requests))) [
    | inl b ↦ inr (ground (arith, e, b))
    | inr b ↦ inl (ground (arith, e, b))
  ]

  -- A waiter has its answer, or nothing was delivered to it and the wait fails or times out.
  pub wait_end_cases :
      (id : ℕ) (l : Log)
      → ((m : Message) × (answer_to a l.delivered ≡ some m) × (wait_end a id l ≡ answered m))
        ⊎ ((answers a l.delivered ≡ 0)
            × ((wait_end a id l ≡ dropped) ⊎ (wait_end a id l ≡ elapsed)))
  unfolding wait_end
  wait_end_cases id l = elim (Option-cases (answer_to a l.delivered)) [
    | inr (m, e) ↦ inl (m, e, rw (e, wait_end) refl)
    | inl e ↦ inr (answers-none l.delivered e, unheld id l e)
  ]
