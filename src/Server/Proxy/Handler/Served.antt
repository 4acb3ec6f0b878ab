-- ===== src/Server/Proxy/Handler/Served.antt =====
-- expose-server/src/proxy/mod.rs: when a public request is answered, and what a failed one leaves.
use expose.Prelude.{
  ℕ, ◌+◌, ◌^◌, ◌<◌, ◌≡◌, ◌⊎◌, refl, ◌∙◌, sym, subst, Option-cases, Result-cases, inl, inr, [], ◌∷◌,
  Option, none, some, ok, err, arith, count,
}
use expose.Prelude.Assoc.{nat_eq, ◌==◌}
use expose.Prelude.Text.{Text, text_eq}
use expose.Common.Error.{Fallible}
use expose.Common.Message.{Message}
use expose.Server.ActiveTunnel.{ActiveTunnel, check_rate_limit}
use expose.Server.Tunnels.{TunnelManager, get}
use expose.Server.Pending.{PendingStore}
use expose.Server.Pending.Invariant.{Inv}
use expose.Server.Pending.History.{Log, run, step, record_sender, AreNew, answers, waiting}
use expose.Server.Pending.Runs.{run_from-Balanced}
use expose.Server.Config.{ServerConfig}
use expose.Server.Proxy.Host.{resolve}
use expose.Server.Proxy.Streaming.{Channel}
use expose.Server.Proxy.Handler.{
  Request, Wait, answered, dropped, elapsed, Occasion, from_message, answer_to, wait_end,
  await_response, transfer, after_transfer, until_end, after_registered, registered_for,
  with_tunnel, after_limit, proxy_with_state,
}
use expose.Server.Proxy.Handler.Waiting.{
  AreOthers, AnsweredOnce, one_of, run-registered, answers_found, wait_end_cases,
}
use expose.Server.Proxy.Handler.Outcomes.{
  registration, before, Admitted, Happened, Comes, not_resolved, not_found, not_allowed,
  not_registered,
}

module _ {L : Type 0} (config : ServerConfig) (o : Occasion L) (r : Request) where
  module _ (m m' : TunnelManager L) (c : Channel) (l : Log) (k : Happened config o r m m' l)
      (s : answers o.sender l.delivered + waiting o.sender l.store ≡ 1) where
    answered-Comes :
        (c' : Channel) (message : Message)
        → transfer config o r c ≡ some (ok tt, c')
        → answer_to o.sender l.delivered ≡ some message
        → Comes config o r m c
            (some (await_response o.http config.request_timeout_secs (answered message), m', c'))
    unfolding await_response
    answered-Comes c' message q found =
        let least = answers_found o.sender l.delivered message found in
        let once : AnsweredOnce o.sender l = (omega (arith, least, s), omega (arith, least, s)) in
        elim (Result-cases (from_message o.http message)) [
          | inl (response, f) ↦ rw f (l, k, q, once, (message, found, f))
          | inr (x, f) ↦ rw f (inr (l, k, inr (q, inl (once, (message, found, f)))))
        ]

    unanswered-Comes :
        (c' : Channel) (w : Wait)
        → transfer config o r c ≡ some (ok tt, c')
        → answers o.sender l.delivered ≡ 0
        → (w ≡ dropped) ⊎ (w ≡ elapsed)
        → Comes config o r m c (some (await_response o.http config.request_timeout_secs w, m', c'))
    unfolding await_response
    unanswered-Comes c' w q n (inl e) =
        rw e (inr (l, k, inr (q, inr ((n, omega (arith, n, s)), inr refl))))
    unanswered-Comes c' w q n (inr e) =
        rw e (inr (l, k, inr (q, inr ((n, omega (arith, n, s)), inl refl))))

    waited-Comes :
        (c' : Channel)
        → transfer config o r c ≡ some (ok tt, c')
        → Comes config o r m c (
            some (
              await_response o.http config.request_timeout_secs (wait_end o.sender o.request_id l),
              m',
              c',
            ))
    waited-Comes c' q = elim (wait_end_cases o.sender o.request_id l) [
      | inl (message, found, w) ↦
          subst
            (λ w.
              Comes config o r m c
                (some (await_response o.http config.request_timeout_secs w, m', c')))
            (sym w) (answered-Comes c' message q found)
      | inr (n, w) ↦ unanswered-Comes c' (wait_end o.sender o.request_id l) q n w
    ]

    transfer-Comes :
        (p : Option (Fallible (Unit {0}) × Channel))
        → transfer config o r c ≡ p
        → Comes config o r m c (after_transfer config o r (wait_end o.sender o.request_id l) m' p)
    transfer-Comes none q = let ((name, t, store, a, _), _) = k in ((name, t, store, a), q)
    transfer-Comes (some (err e, c')) q =
        inr (l, k, inl (q, one_of (answers o.sender l.delivered) (waiting o.sender l.store) s))
    transfer-Comes (some (ok _, c')) q = waited-Comes c' q

  module _ (m : TunnelManager L) (v : Inv m.pending_config m.pending_store)
      (usize : m.pending_config.max_global < 2 ^ 64) (unused : waiting o.sender m.pending_store ≡ 0)
      (new : (t : ℕ)
        → AreNew m.pending_config (before config o r m) (registration config o r t ∷ o.meanwhile))
      (others : AreOthers o.sender o.meanwhile) where
    -- Whatever happens, the sender is answered once or waits.
    accounted :
        (name : Text) (t : ActiveTunnel L) (store : PendingStore)
        → Admitted config o r m name t store
        → let l = until_end config o r m.pending_config store in
          answers o.sender l.delivered + waiting o.sender l.store ≡ 1
    accounted name t store (h, g, s) =
        let first : Log = record { store = store; registered = o.sender ∷ []; delivered = [] } in
        let stepped : step m.pending_config (before config o r m) (registration config o r t.id)
            ≡ first =
          rw (s, record_sender) refl in
        let balanced : count (λ x. x == o.sender)
              (run m.pending_config first o.meanwhile).registered
            ≡ answers o.sender (run m.pending_config first o.meanwhile).delivered
              + waiting o.sender (run m.pending_config first o.meanwhile).store =
          subst
            (λ l.
              count (λ x. x == o.sender) (run m.pending_config l o.meanwhile).registered
              ≡ answers o.sender (run m.pending_config l o.meanwhile).delivered
                + waiting o.sender (run m.pending_config l o.meanwhile).store)
            stepped
            (unfold run in
              run_from-Balanced m.pending_config usize o.sender (before config o r m)
                (registration config o r t.id ∷ o.meanwhile) (new t.id) v
                (omega (arith, unused))) in
        sym balanced
        ∙ run-registered o.sender m.pending_config first o.meanwhile others
        ∙ ground (arith, nat_eq.eqb_iff o.sender o.sender)

    admitted-Comes :
        (c : Channel) (name : Text) (t u : ActiveTunnel L) (f : Fallible PendingStore)
        → registered_for config o r t (with_tunnel config o r name t m) ≡ f
        → resolve config.domain r.host ≡ ok name
        → get m name ≡ some u
        → check_rate_limit o.governor o.now u ≡ (ok tt, t)
        → Comes config o r m c (after_registered config o r (with_tunnel config o r name t m) c f)
    admitted-Comes c name t u (err e) s h g q =
        inl (refl, refl, not_registered config o r m name t u e s h g q)
    admitted-Comes c name t u (ok store) s h g q =
        let l : Log = until_end config o r m.pending_config store in
        transfer-Comes m (record (with_tunnel config o r name t m) { pending_store = l.store }) c l
          ((name, t, store, (h, (u, g, q), s), refl), refl)
          (accounted name t store (h, (u, g, q), s)) (transfer config o r c) refl

    limit-Comes :
        (c : Channel) (name : Text) (u : ActiveTunnel L) (q : Fallible (Unit {0}) × ActiveTunnel L)
        → check_rate_limit o.governor o.now u ≡ q
        → resolve config.domain r.host ≡ ok name
        → get m name ≡ some u
        → Comes config o r m c (after_limit config o r name m c q)
    limit-Comes c name u (err e, t) q h g =
        inl (refl, refl, not_allowed config o r m name t u e h g q)
    limit-Comes c name u (ok tt, t) q h g = admitted-Comes c name t u _ refl h g q

-- What a public request comes to, whatever other registrations, responses, closed tunnels and sweeps
-- there are meanwhile. It gets a response only when its host names a tunnel, the rate limit and both
-- limits on waiting requests let it in, it went into the tunnel, and its waiter was answered exactly
-- once, with a message that makes that response, and is out of the store. It fails at once exactly
-- when it is not let in, and then leaves the waiting requests and the channel as they were. One that
-- is let in fails because it could not go into the tunnel, and its waiter may then be left in the store;
-- or because the message that answered its waiter makes no response; or because its waiter got no
-- answer and is left in the store. It panics only while it goes into the tunnel. Ids and senders
-- are fresh, the store is in order before, and the global limit is a 64-bit number.
pub proxy_with_state-Comes :
    {L : Type 0} (config : ServerConfig) (o : Occasion L) (r : Request) (m : TunnelManager L)
    (c : Channel)
    → Inv m.pending_config m.pending_store
    → m.pending_config.max_global < 2 ^ 64
    → waiting o.sender m.pending_store ≡ 0
    → ((t : ℕ)
        → AreNew m.pending_config (before config o r m) (registration config o r t ∷ o.meanwhile))
    → AreOthers o.sender o.meanwhile
    → Comes config o r m c (proxy_with_state config o r m c)
unfolding proxy_with_state
proxy_with_state-Comes config o r m c v usize unused new others =
    elim (Result-cases (resolve config.domain r.host)) [
      | inr (e, h) ↦ rw h (inl (refl, refl, not_resolved config o r m e h))
      | inl (name, h) ↦ elim (Option-cases (get m name)) [
        | inl g ↦ rw (h, g) (inl (refl, refl, not_found config o r m name h g))
        | inr (u, g) ↦
            rw (h, g)
              (limit-Comes config o r m v usize unused new others c name u
                (check_rate_limit o.governor o.now u) refl h g)
      ]
    ]
