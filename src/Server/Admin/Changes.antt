-- ===== src/Server/Admin/Changes.antt =====
-- expose-server/src/admin.rs and expose-server/src/health.rs: what the admin API may change, and
-- what the readiness test promises.
use expose.Prelude.{
  ℕ, ◌≡◌, ◌≢◌, ◌⊎◌, ◌++◌, refl, inl, inr, true, false, Bool, [], Option, none, some, err, arith,
  length,
}
use expose.Prelude.Text.{Text, Bytes, lit, show, text_eq}
use expose.Common.Types.{TunnelProtocol}
use expose.Common.Error.{ExposeError}
use expose.Server.ActiveTunnel.{Governor, ActiveTunnel}
use expose.Server.Config.{ServerConfig}
use expose.Server.Keys.{Verdict, passes, answers, admin_auth}
use expose.Server.Pending.{Deliveries}
use expose.Server.Pending.Invariant
use expose.Server.Tunnels.{TunnelManager, disconnect_tunnel, register_tunnel, get}
use expose.Server.Tunnels.Invariant.{Inv}
use expose.Server.Tunnels.Disconnect.{Disconnected, disconnect_tunnel_lem}
use expose.Server.Admin.{
  AdminRequest, list_tunnels, get_tunnel, delete_tunnel, get_stats, health_check, disconnected,
  AdminOutside, Administered, after_disconnect, delete_parsed, get_parsed, after_bucket, after_auth,
  admin_handle, admin_router, readiness_check,
}

module _ {L : Type 0} (config : ServerConfig) (o : AdminOutside) (authorization : Option Text) where
  -- Nothing changed, or an authorized deletion ended the tunnel that it names.
  abbrev pub Changes : AdminRequest → TunnelManager L → Administered L → Type 0
  Changes request m (response, out, m') =
      ((out ≡ []) × (m' ≡ m))
      ⊎ ((raw : Text) × (id : ℕ) × (request ≡ delete_tunnel raw)
          × (o.parse_uuid raw ≡ some id)
          × (admin_auth o.crypto config.admin authorization ≡ passes)
          × (o.bucket ≡ none)
          × (response ≡ disconnected)
          × Disconnected id m out m')

  module _ (m : TunnelManager L) (v : Inv m)
      (w : Invariant.Inv m.pending_config m.pending_store) where
    abbrev Told : ℕ → Bool × Deliveries × TunnelManager L → Type 0
    Told id (answer, out, m') =
        ((answer ≡ false)
          × ((k : Text) (t : ActiveTunnel L) → get m k ≡ some t → t.id ≢ id)
          × (out ≡ [])
          × (m' ≡ m))
        ⊎ ((answer ≡ true) × Disconnected id m out m')

    disconnect-Changes :
        (raw : Text) (id : ℕ) (d : Bool × Deliveries × TunnelManager L)
        → Told id d
        → o.parse_uuid raw ≡ some id
        → admin_auth o.crypto config.admin authorization ≡ passes
        → o.bucket ≡ none
        → Changes (delete_tunnel raw) m (after_disconnect d)
    disconnect-Changes raw id (true, out, m') (inl (n, x, y, z)) p a b = absurd (cc)
    disconnect-Changes raw id (true, out, m') (inr (y, k)) p a b =
        inr (raw, id, refl, p, a, b, refl, k)
    disconnect-Changes raw id (false, out, m') (inl (n, x, y, z)) p a b = inl (y, z)
    disconnect-Changes raw id (false, out, m') (inr (y, k)) p a b = absurd (cc)

    delete-Changes :
        (raw : Text) (p : Option ℕ)
        → o.parse_uuid raw ≡ p
        → admin_auth o.crypto config.admin authorization ≡ passes
        → o.bucket ≡ none
        → Changes (delete_tunnel raw) m (delete_parsed p m)
    delete-Changes raw none e a b = inl (refl, refl)
    delete-Changes raw (some id) e a b =
        disconnect-Changes raw id (disconnect_tunnel id m) (disconnect_tunnel_lem id m v w) e a b

    get-Changes : (raw : Text) (p : Option ℕ) → Changes (get_tunnel raw) m (get_parsed p m)
    get-Changes raw none = inl (refl, refl)
    get-Changes raw (some id) = inl (refl, refl)

    handle-Changes :
        (request : AdminRequest)
        → admin_auth o.crypto config.admin authorization ≡ passes
        → o.bucket ≡ none
        → Changes request m (admin_handle config o request m)
    unfolding admin_handle
    handle-Changes list_tunnels a b = inl (refl, refl)
    handle-Changes (get_tunnel raw) a b = get-Changes raw (o.parse_uuid raw)
    handle-Changes (delete_tunnel raw) a b = delete-Changes raw (o.parse_uuid raw) refl a b
    handle-Changes get_stats a b = inl (refl, refl)
    handle-Changes health_check a b = inl (refl, refl)

    bucket-Changes :
        (request : AdminRequest) (bucket : Option ℕ)
        → o.bucket ≡ bucket
        → admin_auth o.crypto config.admin authorization ≡ passes
        → Changes request m (after_bucket config o request m bucket)
    bucket-Changes request none b a = handle-Changes request a b
    bucket-Changes request (some n) b a = inl (refl, refl)

    auth-Changes :
        (request : AdminRequest) (verdict : Verdict)
        → admin_auth o.crypto config.admin authorization ≡ verdict
        → Changes request m (after_auth config o request m verdict)
    auth-Changes request passes a = bucket-Changes request o.bucket refl a
    auth-Changes request (answers status body) a = inl (refl, refl)

-- The admin API changes nothing but by an authorized deletion: whatever the request and its
-- authorization, either no waiter gets anything and the tunnels and the pending requests stay as they
-- were, or the request is a deletion that passed the authorization and the rate limit, its id parses,
-- the response says so, and exactly a tunnel of that id was disconnected. The tunnels and the
-- pending store are in order before.
pub admin_router-Changes :
    {L : Type 0} (config : ServerConfig) (o : AdminOutside) (authorization : Option Text)
    (request : AdminRequest) (m : TunnelManager L)
    → Inv m
    → Invariant.Inv m.pending_config m.pending_store
    → Changes config o authorization request m (admin_router config o authorization request m)
unfolding admin_router admin_handle
admin_router-Changes config o a health_check m v w = inl (refl, refl)
admin_router-Changes config o a list_tunnels m v w =
    auth-Changes config o a m v w list_tunnels _ refl
admin_router-Changes config o a (get_tunnel raw) m v w =
    auth-Changes config o a m v w (get_tunnel raw) _ refl
admin_router-Changes config o a (delete_tunnel raw) m v w =
    auth-Changes config o a m v w (delete_tunnel raw) _ refl
admin_router-Changes config o a get_stats m v w = auth-Changes config o a m v w get_stats _ refl

-- A server that says it is at capacity refuses every tunnel. Its manager has the configured limit.
pub readiness_check-register_tunnel :
    {L : Type 0} (config : ServerConfig) (m : TunnelManager L) (g : Governor L)
    (hash : Text → Bytes) (id : ℕ) (name : Text) (protocol : TunnelProtocol) (sender : ℕ)
    (key : Option Text)
    → m.max_tunnels ≡ config.limits.max_tunnels
    → readiness_check config m ≡ 503
    → (resource : Text) × (register_tunnel g hash m id name protocol sender key
        ≡ err (ExposeError.capacity_exceeded resource))
unfolding readiness_check register_tunnel
readiness_check-register_tunnel config m g hash id name protocol sender key same h = (
  lit "server has reached maximum tunnel capacity ("
      ++ (show (length m.tunnels) ++ (lit "/" ++ (show m.max_tunnels ++ lit ")"))),
  ground (arith, same, h),
)
