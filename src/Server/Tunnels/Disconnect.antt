-- ===== src/Server/Tunnels/Disconnect.antt =====
-- expose-server/src/tunnel_manager.rs: `disconnect_tunnel`, the admin API's way to end a tunnel.
use expose.Prelude.{
  ℕ, ◌≡◌, ◌≢◌, ◌⊎◌, refl, inl, inr, true, false, List, [], ◌∷◌, map, none, some, arith,
  if◌then◌else◌, Option-cases, find,
}
use expose.Prelude.Assoc.{◌==◌, nat_eq, lookup, lookup-remove, Distinct}
use expose.Prelude.Text.{Text, text_eq}
use expose.Server.ActiveTunnel.{ActiveTunnel}
use expose.Server.Pending.{Deliveries, count_for_tunnel, disconnected_response, of_tunnel}
use expose.Server.Pending.Sweeping.{matching_values, close_lem}
use expose.Server.Pending.Invariant
use expose.Server.Tunnels.{TunnelManager, disconnect_tunnel, get, has_id}
use expose.Server.Tunnels.Invariant.{Inv}

module _ {L : Type 0} where
  found_at :
      (id : ℕ) (ts : List (Text × ActiveTunnel L)) (k : Text) (t : ActiveTunnel L)
      → Distinct ts
      → find (has_id id) ts ≡ some (k, t)
      → (t.id ≡ id) × (lookup k ts ≡ some t)
  unfolding lookup
  found_at id [] k t d h = cc
  found_at id ((j, u) ∷ ts) k t d h = ground (arith, found_at id ts k t d.1, text_eq.eqb_iff j k)

  not_found :
      (id : ℕ) (ts : List (Text × ActiveTunnel L)) (k : Text) (t : ActiveTunnel L)
      → find (has_id id) ts ≡ none
      → lookup k ts ≡ some t
      → t.id ≢ id
  unfolding lookup
  not_found id [] k t h e = cc
  not_found id ((j, u) ∷ ts) k t h e = ground (arith, not_found id ts k t)

  -- What it means that a tunnel was disconnected: one that has the id lost its name, the other names
  -- mean what they meant, its waiters got a 502 each and no request waits for it any more.
  pub record Disconnected (id : ℕ) (m : TunnelManager L) (out : Deliveries) (m' : TunnelManager L)
      : Type 0 where
    pub name : Text
    pub tunnel : ActiveTunnel L
    pub held : get m name ≡ some tunnel
    pub same : tunnel.id ≡ id
    pub names : (j : Text) → get m' j ≡ (if name == j then none else get m j)
    pub answered :
        out
        ≡ map
            (λ p. (p.sender, disconnected_response p))
            (matching_values (of_tunnel id) m.pending_store.requests)
    pub emptied : count_for_tunnel m'.pending_store id ≡ 0

  -- `disconnect_tunnel` answers false exactly when no tunnel has the id, and then changes nothing;
  -- otherwise a tunnel that has the id loses its name, the other names mean what they meant, its
  -- waiters get a 502 each and no request waits for it any more. The tunnels and the pending store
  -- are in order before.
  pub disconnect_tunnel_lem :
      (id : ℕ) (m : TunnelManager L)
      → Inv m
      → Invariant.Inv m.pending_config m.pending_store
      → let (answer, out, m') = disconnect_tunnel id m in
        ((answer ≡ false)
          × ((k : Text) (t : ActiveTunnel L) → get m k ≡ some t → t.id ≢ id)
          × (out ≡ [])
          × (m' ≡ m))
        ⊎ ((answer ≡ true) × Disconnected id m out m')
  unfolding disconnect_tunnel get
  disconnect_tunnel_lem id m v w = elim (Option-cases (find (has_id id) m.tunnels)) [
    | inl e ↦
        rw (e, disconnect_tunnel)
          (inl (refl, (λ k t h. not_found id m.tunnels k t e h), refl, refl))
    | inr ((k, t), e) ↦
        let (same, at) = found_at id m.tunnels k t v.distinct e in
        rw (e, disconnect_tunnel)
          (rw (at, disconnect_tunnel)
            (inr (
              refl,
              record {
                name = k;
                tunnel = t;
                held = at;
                same = same;
                names = λ j. lookup-remove k j m.tunnels;
                answered = rw (← same) ((close_lem m.pending_config m.pending_store w t.id 0).0);
                emptied = rw (← same) ((close_lem m.pending_config m.pending_store w t.id 0).2);
              },
            )))
  ]
