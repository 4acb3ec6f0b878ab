-- ===== src/Server/Pending.antt =====
-- expose-server/src/tunnel_manager.rs: the store of requests that wait for a tunnel's client.
-- An operation returns the new store. A oneshot sender is a number; the messages handed to senders
-- are a list of deliveries. Each operation is one step: no other task runs inside it;
-- `Races` takes the registration apart. The gauges of the metrics exporter are left out.
pub mod Slots
pub mod Invariant
pub mod History
pub mod Sweeping
pub mod Runs
pub mod Races
pub mod Answered
use expose.Prelude.{
  ℕ, ◌+◌, ◌-◌, ◌≤◌, ◌<◌, ◌≡◌, ◌++◌, Bool, true, false, List, [], ◌∷◌, map, Option, none, some,
  Result, ok, err, ltb, leb, if◌then◌else◌, length, is_empty, unwrap_or, wrapping_add,
}
use expose.Prelude.Assoc.{◌==◌, nat_eq, lookup, insert, remove}
use expose.Prelude.Text.{lit}
use expose.Common.Error.{ExposeError, Fallible}
use expose.Common.Message.{Message}

pub record PendingRequestConfig : Type 0 where
  pub max_per_tunnel : ℕ
  pub max_global : ℕ
  pub sweep_interval : ℕ
  pub default_timeout : ℕ

pub record PendingRequest : Type 0 where
  pub sender : ℕ
  pub created_at : ℕ
  pub deadline : ℕ
  pub request_id : ℕ
  pub tunnel_id : ℕ

unfoldable pub timed_out_response : PendingRequest → Message
timed_out_response p =
    Message.http_response p.request_id 504
      ((lit "x-expose-error", lit "tunnel response deadline exceeded") ∷ []) []

pub record PendingRequestMetrics : Type 0 where
  pub pending_gauge : ℕ
  pub expired_total : ℕ

unfoldable pub increment : PendingRequestMetrics → PendingRequestMetrics
increment m = record m { pending_gauge = wrapping_add m.pending_gauge 1 }

-- `checked_sub(1)`: a gauge at zero stays.
unfoldable pub decrement : PendingRequestMetrics → PendingRequestMetrics
decrement m = record m {
  pending_gauge = if leb 1 m.pending_gauge then m.pending_gauge - 1 else m.pending_gauge;
}

unfoldable pub increment_expired : PendingRequestMetrics → ℕ → PendingRequestMetrics
increment_expired m n = record m { expired_total = wrapping_add m.expired_total n }

pub record PendingStore : Type 0 where
  pub requests : List (ℕ × PendingRequest)
  pub per_tunnel : List (ℕ × ℕ)
  pub metrics : PendingRequestMetrics

unfoldable pub new_store : PendingStore
new_store = record {
  requests = [];
  per_tunnel = [];
  metrics = record { pending_gauge = 0; expired_total = 0 };
}

unfoldable pub store_len : PendingStore → ℕ
store_len s = length s.requests

-- `entry(t).and_modify(|count| *count += 1).or_insert(1)`.
unfoldable pub take_slot : ℕ → List (ℕ × ℕ) → List (ℕ × ℕ)
take_slot t m = elim (lookup t m) [ none ↦ insert t 1 m | some n ↦ insert t (wrapping_add n 1) m ]

-- A count falls by one, and an entry that comes to zero goes.
unfoldable pub free_slot : ℕ → List (ℕ × ℕ) → List (ℕ × ℕ)
free_slot t m = elim (lookup t m) [
  | none ↦ m
  | some n ↦
      let rest = if ltb 0 n then n - 1 else n in if rest == 0 then remove t m else insert t rest m
]

-- `PendingStore::insert`: the bookkeeping of a new request.
unfoldable pub store_insert : ℕ → PendingStore → PendingStore
unfolding increment take_slot
store_insert t s = record s { metrics = increment s.metrics; per_tunnel = take_slot t s.per_tunnel }

unfoldable pub count_for_tunnel : PendingStore → ℕ → ℕ
count_for_tunnel s t = unwrap_or (lookup t s.per_tunnel) 0

unfoldable pub store_remove : ℕ → PendingStore → Option PendingRequest × PendingStore
unfolding decrement free_slot
store_remove id s = elim (lookup id s.requests) [
  | none ↦ (none, s)
  | some p ↦ (
    some p,
    record {
      requests = remove id s.requests;
      per_tunnel = free_slot p.tunnel_id s.per_tunnel;
      metrics = decrement s.metrics;
    },
  )
]

abbrev pub of_tunnel : ℕ → PendingRequest → Bool
of_tunnel t p = p.tunnel_id == t

abbrev pub is_expired : ℕ → PendingRequest → Bool
is_expired now p = leb p.deadline now

-- The keys of the entries that pass a test, as the drain and the sweeper collect them.
unfoldable pub matching_keys : (PendingRequest → Bool) → List (ℕ × PendingRequest) → List ℕ
matching_keys p [] = []
matching_keys p ((id, r) ∷ m) = if p r then id ∷ matching_keys p m else matching_keys p m

-- Removes each key that is still there, and collects the requests.
unfoldable pub remove_all : List ℕ → PendingStore → List PendingRequest × PendingStore
remove_all [] s = ([], s)
remove_all (id ∷ ids) s =
    let (removed, s') = store_remove id s in
    let (rest, s'') = remove_all ids s' in (elim removed [ none ↦ rest | some p ↦ p ∷ rest ], s'')

unfoldable pub drain_for_tunnel : ℕ → PendingStore → List PendingRequest × PendingStore
drain_for_tunnel t s = remove_all (matching_keys (of_tunnel t) s.requests) s

unfoldable pub new_request :
    PendingRequestConfig → (tunnel_id request_id : ℕ) → Option ℕ → (now sender : ℕ) → PendingRequest
new_request config tunnel_id request_id timeout now sender = record {
  sender = sender;
  created_at = now;
  deadline = now + unwrap_or timeout config.default_timeout;
  request_id = request_id;
  tunnel_id = tunnel_id;
}

-- The two writes of `register_pending_request`.
unfoldable pub admit : PendingRequest → PendingStore → PendingStore
unfolding store_insert
admit p s = store_insert p.tunnel_id (record s { requests = insert p.request_id p s.requests })

-- `TunnelManager::register_pending_request`.
unfoldable pub register_pending_request :
    PendingRequestConfig
    → (tunnel_id request_id : ℕ) → Option ℕ
    → (now sender : ℕ) → PendingStore
    → Fallible PendingStore
unfolding store_len count_for_tunnel new_request
register_pending_request config tunnel_id request_id timeout now sender s =
    if leb config.max_global (store_len s)
    then err (ExposeError.capacity_exceeded (lit "too many pending requests globally"))
    else if leb config.max_per_tunnel (count_for_tunnel s tunnel_id)
    then err (ExposeError.capacity_exceeded (lit "tunnel has too many pending requests"))
    else ok (admit (new_request config tunnel_id request_id timeout now sender) s)

abbrev pub Deliveries : Type 0
Deliveries = List (ℕ × Message)

-- `ActiveTunnel::fulfill`: the waiter of the response's id gets it.
unfoldable pub fulfill : Message → PendingStore → Deliveries × PendingStore
fulfill (Message.http_response id status headers body) s =
    let (removed, s') = store_remove id s in
    (
      elim removed [
        | none ↦ []
        | some p ↦ (p.sender, Message.http_response id status headers body) ∷ []
      ],
      s',
    )
fulfill _ s = ([], s)

unfoldable pub disconnected_response : PendingRequest → Message
disconnected_response p =
    Message.http_response p.request_id 502 ((lit "x-expose-error", lit "tunnel disconnected") ∷ [])
      []

-- `ActiveTunnel::close`: every waiter of the tunnel gets a 502.
unfoldable pub close : ℕ → PendingStore → Deliveries × PendingStore
unfolding drain_for_tunnel
close t s =
    let (drained, s') = drain_for_tunnel t s in
    (map (λ p. (p.sender, disconnected_response p)) drained, s')

-- One tick of `pending_request_sweeper`.
unfoldable pub sweep : ℕ → PendingStore → Deliveries × PendingStore
sweep now s =
    let expired_ids = matching_keys (is_expired now) s.requests in
    let (expired, s') = remove_all expired_ids s in
    if is_empty expired_ids then ([], s) else (
      map (λ p. (p.sender, timed_out_response p)) expired,
      record s' { metrics = increment_expired s'.metrics (length expired_ids) },
    )
