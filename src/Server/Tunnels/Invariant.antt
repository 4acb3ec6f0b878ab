-- ===== src/Server/Tunnels/Invariant.antt =====
-- expose-server/src/tunnel_manager.rs: what holds of the registered tunnels after any operation.
use expose.Prelude.{ℕ, ◌≤◌, ◌<◌, ◌≡◌, true, false, Option, none, some, ok, arith, length, subst}
use expose.Prelude.Assoc.{
  ◌==◌, nat_eq, lookup, insert, lookup-insert, lookup-remove, Distinct, insert-Distinct,
  remove-Distinct, count_values, count_values-insert, count_values-remove_le, length-insert,
  length-remove-le,
}
use expose.Prelude.Text.{Text, Bytes, text_eq}
use expose.Common.Types.{TunnelProtocol, RequestLimits}
use expose.Server.ActiveTunnel.{Governor, ActiveTunnel}
use expose.Server.Pending.{PendingRequestConfig}
use expose.Server.Tunnels.{
  TunnelManager, new_manager, register_tunnel, remove_tunnel, new_handle, key_exhausted, has_key,
}

-- Each tunnel stands under its own name, once, and neither limit is passed. A limit of zero is no
-- limit.
pub record Inv {L : Type 0} (m : TunnelManager L) : Type 0 where
  pub distinct : Distinct m.tunnels
  pub named : (j : Text) (t : ActiveTunnel L) → lookup j m.tunnels ≡ some t → t.subdomain ≡ j
  pub within_total : 0 < m.max_tunnels → length m.tunnels ≤ m.max_tunnels
  pub within_key :
      (h : Bytes)
      → 0 < m.max_tunnels_per_key
      → count_values (has_key h) m.tunnels ≤ m.max_tunnels_per_key

module _ {L : Type 0} where
  -- An empty manager is in order.
  pub new_manager-Inv :
      (domain : Text) (limits : RequestLimits) (per_minute burst : ℕ)
      (config : PendingRequestConfig) (max_tunnels max_tunnels_per_key : ℕ)
      → Inv {L = L}
          (new_manager domain limits per_minute burst config max_tunnels max_tunnels_per_key)
  unfolding new_manager lookup count_values
  new_manager-Inv domain limits per_minute burst config max_tunnels max_tunnels_per_key = record {
    distinct = tt;
    named = λ j t h. cc;
    within_total = λ p. omega arith;
    within_key = λ h p. omega arith;
  }

  key_room :
      (m : TunnelManager L) (k : Option Bytes) (h : Bytes)
      → key_exhausted m k ≡ false
      → (elim k [ none ↦ false | some j ↦ j == h ]) ≡ true
      → 0 < m.max_tunnels_per_key
      → count_values (has_key h) m.tunnels < m.max_tunnels_per_key
  unfolding key_exhausted
  key_room m none h e q p = cc
  key_room m (some k) h e q p =
      let same : k ≡ h = (text_eq.eqb_iff k h).0 q in
      subst (λ x. count_values (has_key x) m.tunnels < m.max_tunnels_per_key) same (ground arith)

  module _ (m : TunnelManager L) (v : Inv m) where
    added-Inv :
        (t : ActiveTunnel L)
        → lookup t.subdomain m.tunnels ≡ none
        → (0 < m.max_tunnels → length m.tunnels < m.max_tunnels)
        → ((h : Bytes)
            → has_key h t ≡ true
            → 0 < m.max_tunnels_per_key
            → count_values (has_key h) m.tunnels < m.max_tunnels_per_key)
        → Inv (record m { tunnels = insert t.subdomain t m.tunnels })
    added-Inv t free room key_room = record {
      distinct = insert-Distinct t.subdomain t m.tunnels v.distinct;
      named = λ j q h. ground (
        arith,
        v.named j q,
        lookup-insert t.subdomain j t m.tunnels,
        text_eq.eqb_iff t.subdomain j,
      );
      within_total = λ p. omega (arith, length-insert t.subdomain t m.tunnels free, room p);
      within_key = λ h p. ground (
        arith,
        v.within_key h p,
        key_room h,
        count_values-insert (has_key h) t.subdomain t m.tunnels free,
      );
    }

    -- A registration that succeeds keeps the tunnels in order, each under its own name and once, and
    -- within both limits, if they were so before.
    pub register_tunnel-Inv :
        (g : Governor L) (hash_api_key : Text → Bytes) (tunnel_id : ℕ) (subdomain : Text)
        (protocol : TunnelProtocol) (sender : ℕ) (api_key : Option Text) (t : ActiveTunnel L)
        (m' : TunnelManager L)
        → register_tunnel g hash_api_key m tunnel_id subdomain protocol sender api_key ≡ ok (t, m')
        → Inv m'
    unfolding register_tunnel new_handle
    register_tunnel-Inv g hash_api_key tunnel_id subdomain protocol sender api_key t m' h =
        let (e, free, room, open_key) = accepted in
        subst Inv e (added-Inv t free room (λ h' k p. key_room m t.api_key_hash h' open_key k p))
      where
        accepted :
            (record m { tunnels = insert t.subdomain t m.tunnels } ≡ m')
            × (lookup t.subdomain m.tunnels ≡ none)
            × (0 < m.max_tunnels → length m.tunnels < m.max_tunnels)
            × (key_exhausted m t.api_key_hash ≡ false)
        accepted = (ground arith, ground arith, λ p. ground arith, ground arith)

    pub remove_tunnel-Inv : (subdomain : Text) → Inv (remove_tunnel subdomain m)
    unfolding remove_tunnel
    remove_tunnel-Inv subdomain = record {
      distinct = remove-Distinct subdomain m.tunnels v.distinct;
      named = λ j q h. v.named j q (ground (arith, lookup-remove subdomain j m.tunnels));
      within_total = λ p. omega (arith, v.within_total p, length-remove-le subdomain m.tunnels);
      within_key = λ h p.
          omega (arith, v.within_key h p, count_values-remove_le (has_key h) subdomain m.tunnels);
    }
