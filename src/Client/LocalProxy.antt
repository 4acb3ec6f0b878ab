-- ===== src/Client/LocalProxy.antt =====
-- expose-client/src/proxy.rs: `LocalProxy`, its buffers for streamed requests.
use expose.Prelude.{
  ℕ, ◌+◌, ◌*◌, ◌++◌, List, [], Option, none, some, ok, err, ltb, if◌then◌else◌, length,
}
use expose.Prelude.Assoc.{nat_eq, lookup, insert, remove}
use expose.Prelude.Text.{Text, Bytes, lit, show}
use expose.Common.Error.{ExposeError, Fallible}
use expose.Common.Message.{Headers}

abbrev pub stream_buffer_limit : ℕ
stream_buffer_limit = 50 * 1024 * 1024

pub record StreamingRequest : Type 0 where
  pub method : Text
  pub path : Text
  pub headers : Headers
  pub body : Bytes

pub record LocalProxy : Type 0 where
  pub upstream_host : Text
  pub upstream_port : ℕ
  pub pending_streams : List (ℕ × StreamingRequest)

unfoldable pub new_proxy : Text → ℕ → LocalProxy
new_proxy host port = record { upstream_host = host; upstream_port = port; pending_streams = [] }

unfoldable pub begin_streaming_request :
    ℕ → (method path : Text) → Headers → LocalProxy → LocalProxy
begin_streaming_request id method path headers p = record p {
  pending_streams =
      insert id (record { method = method; path = path; headers = headers; body = [] })
        p.pending_streams;
}

-- The request id in the message is the displayed UUID; here it is its number in decimal.
unfoldable pub push_streaming_chunk : ℕ → Bytes → LocalProxy → Fallible LocalProxy
push_streaming_chunk id bytes p = elim (lookup id p.pending_streams) [
  | none ↦ err (ExposeError.invalid_message (lit "chunk received for unknown request " ++ show id))
  | some r ↦
      if ltb stream_buffer_limit (length r.body + length bytes)
      then err (ExposeError.payload_too_large (length r.body + length bytes) stream_buffer_limit)
      else ok (record p {
        pending_streams = insert id (record r { body = r.body ++ bytes }) p.pending_streams;
      })
]

unfoldable pub finish_streaming_request : ℕ → LocalProxy → Option StreamingRequest × LocalProxy
finish_streaming_request id p =
    (lookup id p.pending_streams, record p { pending_streams = remove id p.pending_streams })
