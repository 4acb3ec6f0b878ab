-- ===== src/Server/Tunnels.antt =====
-- expose-server/src/tunnel_manager.rs: `TunnelManager` and `ActiveTunnel`. The pending store that
-- the manager and its tunnels share is a field of the manager. The SHA-256
-- digest and the random samples are parameters. Each operation is one step.
pub mod Registry
pub mod Invariant
pub mod Allocation
pub mod Disconnect
use expose.Prelude.{
  ℕ, zero, suc, ◌+◌, ◌≡◌, ◌++◌, Bool, true, false, List, [], ◌∷◌, map, Option, none, some, Result,
  ok, err, ltb, leb, if◌then◌else◌, length, max, ◌&&◌, wrapping_add, find, ◌>>=◌, ok_or,
}
use expose.Prelude.Assoc.{◌==◌, nat_eq, lookup, insert, remove, contains_key, count_values}
use expose.Prelude.Text.{Text, Bytes, text_eq, lit, show, to_ascii_lowercase}
use expose.Common.Types.{TunnelProtocol, RequestLimits}
use expose.Common.Error.{ExposeError, Fallible}
use expose.Common.Subdomain.{sanitize_subdomain}
use expose.Server.ActiveTunnel.{Governor, ActiveTunnel}
use expose.Server.Pending
use expose.Server.Pending.{PendingStore, PendingRequestConfig, Deliveries, count_for_tunnel}

pub record TunnelManager (L : Type 0) : Type 0 where
  pub domain : Text
  pub limits : RequestLimits
  pub tunnels : List (Text × ActiveTunnel L)
  pub rate_limit_per_minute : ℕ
  pub rate_limit_burst : ℕ
  pub pending_store : PendingStore
  pub pending_config : PendingRequestConfig
  pub max_tunnels : ℕ
  pub max_tunnels_per_key : ℕ

pub record TunnelSummary : Type 0 where
  pub tunnel_id : ℕ
  pub subdomain : Text
  pub protocol : TunnelProtocol
  pub requests_forwarded : ℕ
  pub rate_limit_hits : ℕ
  pub rate_limit_per_minute : ℕ
  pub rate_limit_burst : ℕ
  pub pending_requests : ℕ

-- The samples that `random_subdomain` draws in each round of `allocate_subdomain`.
abbrev pub Samples : Type 0
Samples = ℕ → Text

unfoldable pub random_subdomain : Text → Text
random_subdomain drawn = map to_ascii_lowercase drawn

module _ {L : Type 0} where
  unfoldable pub new_manager :
      Text
      → RequestLimits
      → (per_minute burst : ℕ) → PendingRequestConfig
      → (max_tunnels max_tunnels_per_key : ℕ) → TunnelManager L
  new_manager domain limits per_minute burst config max_tunnels max_tunnels_per_key = record {
    domain = domain;
    limits = limits;
    tunnels = [];
    rate_limit_per_minute = max per_minute 1;
    rate_limit_burst = max burst 1;
    pending_store = Pending.new_store;
    pending_config = config;
    max_tunnels = max_tunnels;
    max_tunnels_per_key = max_tunnels_per_key;
  }

  abbrev pub has_key : Bytes → ActiveTunnel L → Bool
  has_key h t = elim t.api_key_hash [ none ↦ false | some k ↦ k == h ]

  unfoldable pub count_tunnels_for_key : TunnelManager L → Bytes → ℕ
  count_tunnels_for_key m h = count_values (has_key h) m.tunnels

  unfoldable pub new_handle :
      Governor L
      → TunnelManager L
      → (id : ℕ) → Text
      → TunnelProtocol
      → (sender : ℕ) → Option Bytes
      → ActiveTunnel L
  new_handle g m id subdomain protocol sender api_key_hash = record {
    id = id;
    subdomain = subdomain;
    protocol = protocol;
    sender = sender;
    rate_limiter = g.direct m.rate_limit_per_minute m.rate_limit_burst;
    requests_forwarded = 0;
    rate_limit_hits = 0;
    rate_limit_per_minute = m.rate_limit_per_minute;
    rate_limit_burst = m.rate_limit_burst;
    api_key_hash = api_key_hash;
  }

  -- The per-key limit, of a tunnel that names a key.
  unfoldable pub key_exhausted : TunnelManager L → Option Bytes → Bool
  unfolding count_tunnels_for_key
  key_exhausted m none = false
  key_exhausted m (some h) =
      ltb 0 m.max_tunnels_per_key && leb m.max_tunnels_per_key (count_tunnels_for_key m h)

  -- Only reached with a key: `key_exhausted` is false without one.
  unfoldable pub key_error : TunnelManager L → Option Bytes → ExposeError
  unfolding count_tunnels_for_key
  key_error m none = ExposeError.capacity_exceeded []
  key_error m (some h) = ExposeError.capacity_exceeded (
      lit "API key has reached maximum tunnel limit ("
      ++ (show (count_tunnels_for_key m h) ++ (lit "/" ++ (show m.max_tunnels_per_key ++ lit ")"))))

  unfoldable pub register_tunnel :
      Governor L
      → (hash_api_key : Text → Bytes) → TunnelManager L
      → (tunnel_id : ℕ) → Text
      → TunnelProtocol
      → (sender : ℕ) → Option Text
      → Fallible (ActiveTunnel L × TunnelManager L)
  register_tunnel g hash_api_key m tunnel_id subdomain protocol sender api_key =
      let current = length m.tunnels in
      let api_key_hash = mathlib.Core.Option.map hash_api_key api_key in
      let handle = new_handle g m tunnel_id subdomain protocol sender api_key_hash in
      if ltb 0 m.max_tunnels && leb m.max_tunnels current
      then err (
          ExposeError.capacity_exceeded (
            lit "server has reached maximum tunnel capacity ("
            ++ (show current ++ (lit "/" ++ (show m.max_tunnels ++ lit ")")))))
      else if key_exhausted m api_key_hash
      then err (key_error m api_key_hash)
      else if contains_key subdomain m.tunnels
      then err (ExposeError.subdomain_taken subdomain)
      else ok (handle, record m { tunnels = insert subdomain handle m.tunnels })

  unfoldable pub remove_tunnel : Text → TunnelManager L → TunnelManager L
  remove_tunnel subdomain m = record m { tunnels = remove subdomain m.tunnels }

  unfoldable pub get : TunnelManager L → Text → Option (ActiveTunnel L)
  get m subdomain = lookup subdomain m.tunnels

  unfoldable pub summary : TunnelManager L → Text × ActiveTunnel L → TunnelSummary
  summary m (key, t) = record {
    tunnel_id = t.id;
    subdomain = key;
    protocol = t.protocol;
    requests_forwarded = t.requests_forwarded;
    rate_limit_hits = t.rate_limit_hits;
    rate_limit_per_minute = t.rate_limit_per_minute;
    rate_limit_burst = t.rate_limit_burst;
    pending_requests = count_for_tunnel m.pending_store t.id;
  }

  unfoldable pub list : TunnelManager L → List TunnelSummary
  list m = map (summary m) m.tunnels

  abbrev pub has_id : ℕ → Text × ActiveTunnel L → Bool
  has_id id e = e.1.id == id

  unfoldable pub summary_by_id : TunnelManager L → ℕ → Option TunnelSummary
  summary_by_id m id = mathlib.Core.Option.map (summary m) (find (has_id id) m.tunnels)

  -- The rounds of `allocate_subdomain` that are left.
  unfoldable pub try_random : TunnelManager L → Samples → ℕ → ℕ → Fallible Text
  try_random m samples zero round =
      err (ExposeError.capacity_exceeded (lit "unable to allocate unique subdomain"))
  try_random m samples (suc rounds) round =
      let candidate = random_subdomain (samples round) in
      let rest = try_random m samples rounds (suc round) in
      if contains_key candidate m.tunnels then rest else ok candidate

  unfoldable pub allocate_subdomain : TunnelManager L → Samples → Option Text → Fallible Text
  unfolding try_random
  allocate_subdomain m samples none = try_random m samples 5 0
  allocate_subdomain m samples (some raw) = do
    sanitized ←
        ok_or (sanitize_subdomain raw)
          (ExposeError.invalid_subdomain raw (lit "invalid subdomain requested"))
    if contains_key sanitized m.tunnels
        then err (ExposeError.subdomain_taken sanitized)
        else ok sanitized

  -- `ActiveTunnel::close`, on the store that the tunnels share.
  unfoldable pub close_tunnel : ActiveTunnel L → TunnelManager L → Deliveries × TunnelManager L
  close_tunnel t m =
      let (delivered, store) = Pending.close t.id m.pending_store in
      (delivered, record m { pending_store = store })

  -- The answer, what the waiters get, and the manager afterwards.
  unfoldable pub disconnect_tunnel : ℕ → TunnelManager L → Bool × Deliveries × TunnelManager L
  unfolding close_tunnel remove_tunnel
  disconnect_tunnel id m = elim (find (has_id id) m.tunnels) [
    | none ↦ (false, [], m)
    | some (key, _) ↦ elim (lookup key m.tunnels) [
      | none ↦ (false, [], m)
      | some t ↦ let (delivered, m') = close_tunnel t (remove_tunnel key m) in (true, delivered, m')
    ]
  ]
