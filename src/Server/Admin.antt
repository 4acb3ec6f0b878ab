-- ===== src/Server/Admin.antt =====
-- expose-server/src/admin.rs and the readiness test of expose-server/src/health.rs. A route and its
-- method are a constructor, and a body is the data that it shows; the parser of UUIDs, the token
-- bucket of the admin routes and the clock of the health check are parameters.
pub mod Changes
use expose.Prelude.{
  ℕ, Bool, true, false, ◌&&◌, List, [], Option, none, some, leb, ltb, if◌then◌else◌, length, max,
}
use expose.Prelude.Text.{Text}
use expose.Server.Config.{ServerConfig}
use expose.Server.Keys.{Crypto, Verdict, passes, answers, admin_auth}
use expose.Server.Pending.{Deliveries, store_len}
use expose.Server.Tunnels.{TunnelManager, TunnelSummary, list, summary_by_id, disconnect_tunnel}

pub data AdminRequest : Type 0 where
  list_tunnels : AdminRequest
  get_tunnel : (tunnel_id : Text) → AdminRequest
  delete_tunnel : (tunnel_id : Text) → AdminRequest
  get_stats : AdminRequest
  health_check : AdminRequest

-- The responses; a status that is not named is 200.
pub data AdminResponse : Type 0 where
  tunnels : List TunnelSummary → AdminResponse
  tunnel : TunnelSummary → AdminResponse
  disconnected : AdminResponse
  tunnel_not_found : AdminResponse  -- 404
  invalid_tunnel_id : AdminResponse  -- 400
  stats :
      (domain : Text) (active_tunnels pending_requests rate_limit_per_minute : ℕ) → AdminResponse
  healthy : (active_tunnels : ℕ) (timestamp : Text) → AdminResponse
  denied : (status : ℕ) (body : Text) → AdminResponse
  rate_limited : (retry_after : ℕ) → AdminResponse  -- 429

-- What the routes take from outside; the bucket says how many seconds to wait when it refuses.
pub record AdminOutside : Type 0 where
  pub crypto : Crypto
  pub parse_uuid : Text → Option ℕ
  pub bucket : Option ℕ
  pub timestamp : Text

abbrev pub Administered : Type 0 → Type 0
Administered L = AdminResponse × Deliveries × TunnelManager L

abbrev pub found_summary : Option TunnelSummary → AdminResponse
found_summary none = tunnel_not_found
found_summary (some s) = tunnel s

module _ {L : Type 0} where
  abbrev pub shows : AdminResponse → TunnelManager L → Administered L
  shows response m = (response, [], m)

  abbrev pub get_parsed : Option ℕ → TunnelManager L → Administered L
  get_parsed none m = shows invalid_tunnel_id m
  get_parsed (some id) m = shows (found_summary (summary_by_id m id)) m

  abbrev pub after_disconnect : Bool × Deliveries × TunnelManager L → Administered L
  after_disconnect (true, out, m) = (disconnected, out, m)
  after_disconnect (false, out, m) = (tunnel_not_found, out, m)

  abbrev pub delete_parsed : Option ℕ → TunnelManager L → Administered L
  delete_parsed none m = shows invalid_tunnel_id m
  delete_parsed (some id) m = after_disconnect (disconnect_tunnel id m)

  unfoldable pub admin_handle :
      ServerConfig → AdminOutside → AdminRequest → TunnelManager L → Administered L
  admin_handle config o list_tunnels m = shows (tunnels (list m)) m
  admin_handle config o (get_tunnel raw) m = get_parsed (o.parse_uuid raw) m
  admin_handle config o (delete_tunnel raw) m = delete_parsed (o.parse_uuid raw) m
  admin_handle config o get_stats m =
      shows
        (stats m.domain (length m.tunnels) (store_len m.pending_store)
          config.rate_limit_requests_per_minute)
        m
  admin_handle config o health_check m = shows (healthy (length m.tunnels) o.timestamp) m

  -- `admin_rate_limit_middleware`.
  abbrev pub after_bucket :
      ServerConfig → AdminOutside → AdminRequest → TunnelManager L → Option ℕ → Administered L
  after_bucket config o request m none = admin_handle config o request m
  after_bucket config o request m (some wait) = shows (rate_limited (max wait 1)) m

  -- The authorization comes before the bucket.
  abbrev pub after_auth :
      ServerConfig → AdminOutside → AdminRequest → TunnelManager L → Verdict → Administered L
  after_auth config o request m passes = after_bucket config o request m o.bucket
  after_auth config o request m (answers status body) = shows (denied status body) m

  -- The router: every route but the health check is protected.
  unfoldable pub admin_router :
      ServerConfig
      → AdminOutside
      → (authorization : Option Text) → AdminRequest
      → TunnelManager L
      → Administered L
  unfolding admin_handle
  admin_router config o authorization health_check m = admin_handle config o health_check m
  admin_router config o authorization request m =
      after_auth config o request m (admin_auth o.crypto config.admin authorization)

  -- `readiness_check`: at the limit the server takes no more tunnels.
  unfoldable pub readiness_check : ServerConfig → TunnelManager L → ℕ
  readiness_check config m =
      if ltb 0 config.limits.max_tunnels && leb config.limits.max_tunnels (length m.tunnels)
      then 503
      else 200
