-- ===== src/Server/Proxy/Handler/Outcomes.antt =====
-- expose-server/src/proxy/mod.rs: what the handler may come to, and the requests that it turns away.
use expose.Prelude.{ap, ℕ, ◌*◌, ◌≡◌, ◌⊎◌, ◌∙◌, sym, [], none, some, ok, err, arith}
use expose.Prelude.Assoc.{nat_eq}
use expose.Prelude.Text.{Text, lit, text_eq}
use expose.Common.Error.{ExposeError, Fallible}
use expose.Common.Message.{Message}
use expose.Server.ActiveTunnel.{ActiveTunnel, check_rate_limit}
use expose.Server.Tunnels.{TunnelManager, get}
use expose.Server.Pending.{PendingStore}
use expose.Server.Pending.History.{Event, registers, Log}
use expose.Server.Config.{ServerConfig}
use expose.Server.Proxy.Host.{resolve}
use expose.Server.Proxy.Streaming.{Channel}
use expose.Server.Proxy.Handler.{
  Request, Proxied, Occasion, from_message, answer_to, transfer, until_end, registered_for,
  with_tunnel,
}
use expose.Server.Proxy.Handler.Waiting.{AnsweredOnce, StillWaits}

module _ {L : Type 0} (config : ServerConfig) (o : Occasion L) (r : Request) where
  abbrev pub registration : (tunnel_id : ℕ) → Event
  registration t =
      registers t o.request_id (some (config.request_timeout_secs * 1000)) o.now o.sender

  -- The store of waiting requests before the registration.
  abbrev pub before : TunnelManager L → Log
  before m = record { store = m.pending_store; registered = []; delivered = [] }

  -- What stands before a response: a known host, a tunnel that may take the request, and room for it.
  abbrev pub Admitted : TunnelManager L → Text → ActiveTunnel L → PendingStore → Type 0
  Admitted m name t store =
      (resolve config.domain r.host ≡ ok name)
      × ((u : ActiveTunnel L) × (get m name ≡ some u)
          × (check_rate_limit o.governor o.now u ≡ (ok tt, t)))
      × (registered_for config o r t (with_tunnel config o r name t m) ≡ ok store)

  -- The request was admitted, and this is what happened until the handler ended.
  abbrev pub Happened : TunnelManager L → TunnelManager L → Log → Type 0
  Happened m m' l =
      ((name : Text) × (t : ActiveTunnel L) × (store : PendingStore) × Admitted m name t store
        × (l ≡ until_end config o r m.pending_config store))
      × (m'.pending_store ≡ l.store)

  abbrev pub IsAdmitted : TunnelManager L → Type 0
  IsAdmitted m =
      (name : Text) × (t : ActiveTunnel L) × (store : PendingStore) × Admitted m name t store

  -- A failure after the registration: of the transfer, of the answer, or for want of an answer.
  abbrev pub FailsLate : Channel → Log → ExposeError → Channel → Type 0
  FailsLate c l e c' =
      ((transfer config o r c ≡ some (err e, c'))
        × (AnsweredOnce o.sender l ⊎ StillWaits o.sender l))
      ⊎ ((transfer config o r c ≡ some (ok tt, c'))
          × ((AnsweredOnce o.sender l
                × ((message : Message) × (answer_to o.sender l.delivered ≡ some message)
                    × (from_message o.http message ≡ err e)))
              ⊎ (StillWaits o.sender l
                  × ((e ≡ ExposeError.timeout (lit "tunnel response") config.request_timeout_secs)
                      ⊎ (e ≡ ExposeError.tunnel_disconnected none)))))

  -- What the handler comes to.
  abbrev pub Comes : TunnelManager L → Channel → Proxied L → Type 0
  Comes m c none = IsAdmitted m × (transfer config o r c ≡ none)
  Comes m c (some (ok response, m', c')) =
      (l : Log) × Happened m m' l
      × (transfer config o r c ≡ some (ok tt, c'))
      × AnsweredOnce o.sender l
      × ((message : Message) × (answer_to o.sender l.delivered ≡ some message)
          × (from_message o.http message ≡ ok response))
  Comes m c (some (err e, m', c')) =
      ((m'.pending_store ≡ m.pending_store) × (c' ≡ c) × ¬ IsAdmitted m)
      ⊎ ((l : Log) × Happened m m' l × FailsLate c l e c')

  pub not_resolved :
      (m : TunnelManager L) (e : ExposeError)
      → resolve config.domain r.host ≡ err e
      → ¬ IsAdmitted m
  not_resolved m e h (name', t', store', (h', w', s')) = ground (arith, h, h')

  -- The three ways to be turned away once the host is known.
  module _ (m : TunnelManager L) (name : Text) where
    pub not_found : resolve config.domain r.host ≡ ok name → get m name ≡ none → ¬ IsAdmitted m
    not_found h g (name', t', store', (h', (u', g', q'), s')) =
        let same : name ≡ name' = ground (arith, h, h') in
        let here : get m name ≡ some u' = ap (get m) same ∙ g' in ground (arith, g, here)

    same_tunnel :
        (u : ActiveTunnel L) (q : Fallible (Unit {0}) × ActiveTunnel L)
        → resolve config.domain r.host ≡ ok name
        → get m name ≡ some u
        → check_rate_limit o.governor o.now u ≡ q
        → (a : IsAdmitted m) → (name ≡ a.0) × (q ≡ (ok tt, a.1))
    same_tunnel u q h g e (name', t', store', (h', (u', g', q'), s')) =
        let same : name ≡ name' = ground (arith, h, h') in
        let here : some u ≡ some u' = sym g ∙ ap (get m) same ∙ g' in
        let tunnel : u ≡ u' = ground (arith, here) in
        (same, sym e ∙ ap (λ x. check_rate_limit o.governor o.now x) tunnel ∙ q')

    pub not_allowed :
        (t u : ActiveTunnel L) (e : ExposeError)
        → resolve config.domain r.host ≡ ok name
        → get m name ≡ some u
        → check_rate_limit o.governor o.now u ≡ (err e, t)
        → ¬ IsAdmitted m
    not_allowed t u e h g q a = ground (arith, (same_tunnel u (err e, t) h g q a).1)

    pub not_registered :
        (t u : ActiveTunnel L) (e : ExposeError)
        → registered_for config o r t (with_tunnel config o r name t m) ≡ err e
        → resolve config.domain r.host ≡ ok name
        → get m name ≡ some u
        → check_rate_limit o.governor o.now u ≡ (ok tt, t)
        → ¬ IsAdmitted m
    not_registered t u e s h g q (name', t', store', (h', w', s')) =
        let (same, both) = same_tunnel u (ok tt, t) h g q (name', t', store', (h', w', s')) in
        let tunnel : t ≡ t' = ap (λ x. x.1) both in
        let there : registered_for config o r t (with_tunnel config o r name t m) ≡ ok store' =
          ap (λ x. registered_for config o r x m) tunnel ∙ s' in
        let clash : err e ≡ ok store' = sym s ∙ there in cc
