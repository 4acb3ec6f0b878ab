-- ===== src/Server/Tunnels/Registry.antt =====
-- expose-server/src/tunnel_manager.rs: when `register_tunnel` accepts, and what it changes.
use expose.Prelude.{
  ℕ, ◌<◌, ◌≡◌, ◌↔◌, ◌⊎◌, refl, false, Option, none, some, ok, arith, length, if◌then◌else◌,
}
use expose.Prelude.Assoc.{◌==◌, nat_eq, insert, lookup-insert}
use expose.Prelude.Text.{Text, Bytes, text_eq}
use expose.Common.Types.{TunnelProtocol}
use expose.Server.ActiveTunnel.{Governor, ActiveTunnel}
use expose.Server.Tunnels.{
  TunnelManager, register_tunnel, get, new_handle, key_exhausted, count_tunnels_for_key,
}

module _ {L : Type 0} (g : Governor L) (hash_api_key : Text → Bytes) (m : TunnelManager L)
    (tunnel_id : ℕ) (subdomain : Text) (protocol : TunnelProtocol) (sender : ℕ)
    (api_key : Option Text) where
  abbrev key_hash : Option Bytes
  key_hash = mathlib.Core.Option.map hash_api_key api_key

  abbrev handle : ActiveTunnel L
  handle = new_handle g m tunnel_id subdomain protocol sender key_hash

  -- What a registration is accepted on: room among all tunnels, room for its key and a free name. A
  -- limit of zero is no limit.
  pub record Acceptable : Type 0 where
    pub room : (m.max_tunnels ≡ 0) ⊎ (length m.tunnels < m.max_tunnels)
    pub key_room :
        (h : Bytes)
        → key_hash ≡ some h
        → (m.max_tunnels_per_key ≡ 0) ⊎ (count_tunnels_for_key m h < m.max_tunnels_per_key)
    pub free : get m subdomain ≡ none

  key_exhausted_iff :
      (k : Option Bytes)
      → (key_exhausted m k ≡ false) ↔ (
          (h : Bytes)
          → k ≡ some h
          → (m.max_tunnels_per_key ≡ 0) ⊎ (count_tunnels_for_key m h < m.max_tunnels_per_key))
  unfolding key_exhausted
  key_exhausted_iff none = (λ e h q. cc, λ f. refl)
  key_exhausted_iff (some k) = (λ e h q. ground arith, λ f. ground (arith, f k refl))

  -- A registration succeeds, and adds a new handle under the name, exactly when there is room among all
  -- tunnels, room for its key and the name is free; a limit of zero is no limit.
  pub register_tunnel_iff :
      (register_tunnel g hash_api_key m tunnel_id subdomain protocol sender api_key
        ≡ ok (handle, record m { tunnels = insert subdomain handle m.tunnels }))
      ↔ Acceptable
  unfolding register_tunnel get
  register_tunnel_iff = (
    λ e. record {
      room = ground arith;
      key_room = (key_exhausted_iff key_hash).0 (ground arith);
      free = ground arith;
    },
    λ a.
        let some_room = a.room in
        let unused = a.free in ground (arith, (key_exhausted_iff key_hash).1 a.key_room),
  )

  -- A registration that succeeds answers with the tunnel of that id and name; it then stands under
  -- the name, which was free, every other name means what it meant, and no request is touched.
  pub get-register_tunnel :
      (t : ActiveTunnel L) (m' : TunnelManager L) (j : Text)
      → register_tunnel g hash_api_key m tunnel_id subdomain protocol sender api_key ≡ ok (t, m')
      → (t.id ≡ tunnel_id)
        × (t.subdomain ≡ subdomain)
        × (get m subdomain ≡ none)
        × (get m' j ≡ (if subdomain == j then some t else get m j))
        × (m'.pending_store ≡ m.pending_store)
  unfolding register_tunnel get new_handle
  get-register_tunnel t m' j h = ground (arith, lookup-insert subdomain j handle m.tunnels)
