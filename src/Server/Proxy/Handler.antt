-- ===== src/Server/Proxy/Handler.antt =====
-- expose-server/src/proxy/mod.rs, limiter.rs, encoder.rs and response.rs: `proxy_with_state`, from a
-- public request to its response. Between the registration of the request and the end of the handler
-- other tasks work on the waiting requests: the history of what they do is a parameter, and the
-- handler has what that history delivers to it. The table of tunnels, which it does not read again, is
-- shown as it left it. The parsers of a header's name and value, the texts of a request and the rate
-- limiter's bucket are parameters; the spans and the counters of the metrics exporter are left out.
pub mod Outcomes
pub mod Served
pub mod Waiting
use expose.Prelude.{
  ℕ, ◌*◌, ◌++◌, Bool, true, false, ◌&&◌, List, [], ◌∷◌, Option, none, some, Result, ok, err, leb,
  if◌then◌else◌, or_else, unwrap_or, map,
}
use expose.Prelude.Assoc.{nat_eq, insert, lookup, ◌==◌}
use expose.Prelude.Text.{Text, Bytes, lit, text_eq}
use expose.Common.Error.{ExposeError, Fallible}
use expose.Common.Message.{Message, Headers}
use expose.Server.ActiveTunnel.{Governor, ActiveTunnel, check_rate_limit}
use expose.Server.Tunnels.{TunnelManager, get}
use expose.Server.Pending.{
  PendingStore, PendingRequest, PendingRequestConfig, Deliveries, register_pending_request,
}
use expose.Server.Pending.History.{Event, Log, run}
use expose.Server.Config.{ServerConfig}
use expose.Server.Proxy.Host.{resolve}
use expose.Server.Proxy.Body.{Body, collect}
use expose.Server.Proxy.Streaming.{Channel, StreamingConfig, stream, send}

-- A request: a header's value is none when it is no text, and the length is the Content-Length
-- header, if it is there, is text and is a 64-bit number.
pub record Request : Type 0 where
  pub host : Option Text
  pub method : Text
  pub path_and_query : Option Text
  pub path : Text
  pub headers : List (Text × Option Text)
  pub content_length : Option ℕ
  pub body : Body

pub record Response : Type 0 where
  pub status : ℕ
  pub headers : Headers
  pub body : Bytes

-- How the wait for the answer ends.
pub data Wait : Type 0 where
  answered : Message → Wait
  dropped : Wait
  elapsed : Wait

-- The HTTP library's parsers, and the text that shows a message.
pub record Http : Type 0 where
  pub header_name : Text → Option Text
  pub header_value : Text → Option Text
  pub debug : Message → Text

unfoldable pub text_headers : List (Text × Option Text) → Headers
text_headers [] = []
text_headers ((name, none) ∷ headers) = text_headers headers
text_headers ((name, some value) ∷ headers) = (name, value) ∷ text_headers headers

abbrev pub request_path : Request → Text
request_path r = unwrap_or r.path_and_query r.path

-- `MessageEncoder::encode_request`.
unfoldable pub encode_request : (id : ℕ) → Request → Bytes → Message
unfolding text_headers
encode_request id r body =
    Message.http_request id r.method (request_path r) (text_headers r.headers) body

-- The header goes along when both its parts parse.
abbrev pub kept_header : Option Text → Option Text → Headers → Headers
kept_header (some name) (some value) headers = (name, value) ∷ headers
kept_header _ _ headers = headers

unfoldable pub response_headers : Http → Headers → Headers
response_headers h [] = []
response_headers h ((name, value) ∷ headers) =
    kept_header (h.header_name name) (h.header_value value) (response_headers h headers)

-- `StatusCode::from_u16`: three digits or a status out of the standard's range.
abbrev pub status_or_ok : ℕ → ℕ
status_or_ok status = if leb 100 status && leb status 999 then status else 200

-- `ResponseBuilder::from_message`.
unfoldable pub from_message : Http → Message → Fallible Response
unfolding response_headers
from_message h (Message.http_response id status headers body) =
    ok (record { status = status_or_ok status; headers = response_headers h headers; body = body })
from_message h other =
    err (ExposeError.invalid_message (lit "expected HttpResponse, got " ++ h.debug other))

abbrev at_least : StreamingConfig → Option ℕ → Option Bool
at_least config none = none
at_least config (some len) = some (leb config.threshold_bytes len)

-- By the announced length, or else by the size that the body says it has at most.
unfoldable pub should_stream : StreamingConfig → Option ℕ → Option ℕ → Bool
should_stream config content_length upper =
    config.enabled
    && unwrap_or (or_else (at_least config content_length) (at_least config upper)) false

-- What was delivered to a sender first; the deliveries are listed newest first.
unfoldable pub answer_to : (sender : ℕ) → Deliveries → Option Message
answer_to sender [] = none
answer_to sender ((s, message) ∷ earlier) =
    or_else (answer_to sender earlier) (if s == sender then some message else none)

abbrev pub is_held : (sender : ℕ) → Option PendingRequest → Bool
is_held sender none = false
is_held sender (some p) = p.sender == sender

-- The receiver has the answer, or else fails when its sender is no longer held by the store, or else
-- waits until the time is up.
unfoldable pub wait_end : (sender request_id : ℕ) → Log → Wait
unfolding answer_to
wait_end sender request_id l = elim (answer_to sender l.delivered) [
  | some message ↦ answered message
  | none ↦ if is_held sender (lookup request_id l.store.requests) then elapsed else dropped
]

unfoldable pub await_response : Http → (timeout_secs : ℕ) → Wait → Fallible Response
unfolding from_message
await_response h timeout_secs (answered message) = from_message h message
await_response h timeout_secs dropped = err (ExposeError.tunnel_disconnected none)
await_response h timeout_secs elapsed =
    err (ExposeError.timeout (lit "tunnel response") timeout_secs)

-- The response, the manager and the channel to the tunnel; none is a panic.
abbrev pub Proxied : Type 0 → Type 0
Proxied L = Option (Fallible Response × TunnelManager L × Channel)

-- What a request takes from outside.
pub record Occasion (L : Type 0) : Type 0 where
  pub governor : Governor L
  pub http : Http
  pub now : ℕ
  pub request_id : ℕ
  pub sender : ℕ
  pub meanwhile : List Event

module _ {L : Type 0} (config : ServerConfig) (o : Occasion L) (r : Request) where
  abbrev pub fails : ExposeError → TunnelManager L → Channel → Proxied L
  fails e m c = some (err e, m, c)

  abbrev pub send_collected : Channel → Fallible Bytes → Fallible (Unit {0}) × Channel
  send_collected c (err e) = (err e, c)
  send_collected c (ok bytes) = send (encode_request o.request_id r bytes) c

  -- The request goes into the tunnel, in pieces or whole; none is a panic.
  unfoldable pub transfer : Channel → Option (Fallible (Unit {0}) × Channel)
  unfolding should_stream encode_request
  transfer c =
      if should_stream config.streaming r.content_length r.body.upper
      then stream config.streaming o.request_id r.method (request_path r) (text_headers r.headers)
          r.content_length r.body.frames c
      else some (send_collected c (collect config.request_body_limit_bytes r.body))

  -- What follows the transfer, with the wait that the handler then has.
  abbrev pub after_transfer :
      Wait → TunnelManager L → Option (Fallible (Unit {0}) × Channel) → Proxied L
  after_transfer w m none = none
  after_transfer w m (some (err e, c)) = fails e m c
  after_transfer w m (some (ok _, c)) =
      some (await_response o.http config.request_timeout_secs w, m, c)

  -- What other tasks do until the handler ends, from the registration on.
  abbrev pub until_end : PendingRequestConfig → PendingStore → Log
  until_end limits store =
      run limits (record { store = store; registered = o.sender ∷ []; delivered = [] }) o.meanwhile

  abbrev pub after_registered : TunnelManager L → Channel → Fallible PendingStore → Proxied L
  after_registered m c (err e) = fails e m c
  after_registered m c (ok store) =
      let l = until_end m.pending_config store in
      after_transfer (wait_end o.sender o.request_id l) (record m { pending_store = l.store })
        (transfer c)

  abbrev pub registered_for : ActiveTunnel L → TunnelManager L → Fallible PendingStore
  registered_for t m =
      register_pending_request m.pending_config t.id o.request_id
        (some (config.request_timeout_secs * 1000)) o.now o.sender m.pending_store

  -- The counters of the tunnel that was found are its own.
  abbrev pub with_tunnel : Text → ActiveTunnel L → TunnelManager L → TunnelManager L
  with_tunnel subdomain t m = record m { tunnels = insert subdomain t m.tunnels }

  abbrev pub after_limit :
      Text → TunnelManager L → Channel → Fallible (Unit {0}) × ActiveTunnel L → Proxied L
  after_limit subdomain m c (err e, t) = fails e (with_tunnel subdomain t m) c
  after_limit subdomain m c (ok _, t) =
      after_registered (with_tunnel subdomain t m) c (registered_for t (with_tunnel subdomain t m))

  abbrev pub after_lookup : Text → TunnelManager L → Channel → Option (ActiveTunnel L) → Proxied L
  after_lookup subdomain m c none = fails (ExposeError.tunnel_not_found subdomain) m c
  after_lookup subdomain m c (some t) =
      after_limit subdomain m c (check_rate_limit o.governor o.now t)

  abbrev pub after_resolve : TunnelManager L → Channel → Fallible Text → Proxied L
  after_resolve m c (err e) = fails e m c
  after_resolve m c (ok subdomain) = after_lookup subdomain m c (get m subdomain)

  unfoldable pub proxy_with_state : TunnelManager L → Channel → Proxied L
  unfolding transfer await_response wait_end
  proxy_with_state m c = after_resolve m c (resolve config.domain r.host)
