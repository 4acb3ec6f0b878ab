-- ===== src/Tests/Several.antt =====
-- The theorems on a client of several tunnels at concrete inputs.
use expose.Prelude.{
  ℕ, zero, suc, ◌≡◌, refl, ◌++◌, true, false, List, [], ◌∷◌, map, Option, none, some, Result, ok,
  err, All, keep,
}
use expose.Prelude.Assoc.{nat_eq, lookup, insert, remove}
use expose.Prelude.Text.{
  Text, Bytes, text_eq, text_beq, lit, to_ascii_lowercase, before, show, digits,
}
use expose.Common.Types.{TunnelProtocol, default_limits, default_tunnel}
use expose.Common.Error.{ExposeError}
use expose.Common.Message.{Message, ConnectResponse, Headers}
use expose.Common.Response.{build}
use expose.Common.Codec.{Bincode, decode}
use expose.Client.TcpProxy.{SocketWrites}
use expose.Client.LocalProxy.{new_proxy}
use expose.Client.Session.{WsMessage}
use expose.Client.Backoff.{new_backoff, delay_of}
use expose.Client.Multi.{
  TunnelContext, MultiTunnelManager, Standard, GivesValues, Effect, http_task, new_manager,
  register_context, new_context,
}
use expose.Client.Multi.Routing.{IsRouted, new_manager-IsRouted}
use expose.Client.Multi.Streams.{is_task}
use expose.Client.Multi.Opening.{
  Stream, MultiEvent, received, connected, MultiSession, open_tunnels, multi_loop, multi_session,
  following,
}
use expose.Client.Multi.Opened.{register_context-IsFresh, multi_loop-IsRouted}
use expose.Client.Multi.Rounds.{MultiRound, run_multi, run_multi-never_gives_up}
use expose.Client.Multi.Delivery.{multi_messages}
use expose.Client.Multi.Sharing.{binary_then, multi_loop-delivers}

program : Unit {0}
unfolding default_tunnel expose.Client.Multi.multi_message lit to_ascii_lowercase text_beq before
    show digits build lookup insert remove new_context register_context new_manager
    expose.Common.Response.scheme expose.Common.Response.port_suffix
    expose.Common.Response.advertised_port expose.Common.Codec.decode expose.Common.Message.validate
    new_proxy multi_messages open_tunnels multi_loop multi_session run_multi
    expose.Client.Multi.Opening.wait_for_connect_ack expose.Client.Multi.multi_frame
    expose.Client.Multi.http_context_by_headers expose.Client.Multi.host_header
    expose.Client.Multi.http_context_for_request expose.Client.LocalProxy.begin_streaming_request
    expose.Client.LocalProxy.push_streaming_chunk expose.Client.LocalProxy.finish_streaming_request
program = tt

abbrev present : Option TunnelContext → List TunnelContext → List TunnelContext
present none rest = rest
present (some c) rest = c ∷ rest

-- The values of the present keys.
abbrev values_at : List (ℕ × TunnelContext) → List (ℕ × TunnelContext) → List TunnelContext
values_at m [] = []
values_at m ((k, v) ∷ rest) = present (lookup k m) (values_at m rest)

abbrev pub standard : Standard
standard = record {
  to_lowercase = map to_ascii_lowercase;
  debug = λ reason. [];
  values = λ m. values_at m m;
}

abbrev Found : List (ℕ × TunnelContext) → TunnelContext → Type 0
Found m c = (t : ℕ) × (lookup t m ≡ some c)

present-Found :
    (m : List (ℕ × TunnelContext)) (k : ℕ) (o : Option TunnelContext) (rest : List TunnelContext)
    → lookup k m ≡ o
    → All (Found m) rest
    → All (Found m) (present o rest)
present-Found m k none rest e h = h
present-Found m k (some c) rest e h = ((k, e), h)

gives : (m rest : List (ℕ × TunnelContext)) → All (Found m) (values_at m rest)
gives m [] = tt
gives m ((k, v) ∷ rest) = present-Found m k (lookup k m) (values_at m rest) refl (gives m rest)

standard-GivesValues : GivesValues standard
standard-GivesValues m = gives m m

abbrev pub writes_all : SocketWrites
writes_all id bytes = none

abbrev ack : ℕ → Text → ConnectResponse
ack id name = build id name (lit "example.com") TunnelProtocol.http true none default_limits

abbrev host : Text → Headers
host name = (lit "Host", name ++ lit ".example.com:443") ∷ []

abbrev to_app : List Message
to_app =
    Message.http_request_start 2 [] [] (host (lit "api")) none
    ∷ Message.http_request_chunk 1 (1 ∷ 2 ∷ []) 0
    ∷ Message.http_request_chunk 2 (9 ∷ []) 0
    ∷ Message.http_request_end 2
    ∷ Message.http_request_chunk 1 (3 ∷ []) 1
    ∷ Message.http_request_end 1
    ∷ []

abbrev first : Message
first = Message.http_request_start 1 [] [] (host (lit "APP")) none

-- A frame is the number of its message.
abbrev nth : List Message → ℕ → Result Text Message
nth [] n = err []
nth (m ∷ ms) zero = ok m
nth (m ∷ ms) (suc n) = nth ms n

abbrev numbered : List Message → Bytes → Result Text Message
numbered ms [] = err []
numbered ms (n ∷ rest) = nth ms n

abbrev script : Bincode
script = record {
  serialize = λ m. err [];
  deserialize = numbered (
      Message.connect_ack (ack 7 (lit "app"))
      ∷ Message.connect_ack (ack 8 (lit "api"))
      ∷ first
      ∷ to_app);
}

abbrev two_tunnels : MultiTunnelManager
two_tunnels =
    register_context standard (ack 8 (lit "api")) default_tunnel
      (register_context standard (ack 7 (lit "app")) default_tunnel new_manager)

two_tunnels-IsRouted : IsRouted two_tunnels
unfolding program
two_tunnels-IsRouted =
    (register_context-IsFresh standard (ack 8 (lit "api")) default_tunnel _ (
      register_context-IsFresh standard (ack 7 (lit "app")) default_tunnel new_manager
        (new_manager-IsRouted, refl, refl))).0

abbrev frame : ℕ → Bytes
frame n = n ∷ []

multi_loop-delivers_example :
    (m' : MultiTunnelManager) × (effects : List Effect) × (multi_loop script standard writes_all
        (binary_then (map frame (2 ∷ 3 ∷ 4 ∷ 5 ∷ 6 ∷ 7 ∷ 8 ∷ [])) [])
        two_tunnels
      ≡ following effects (multi_loop script standard writes_all [] m'))
    × (keep (is_task 1) effects ≡ http_task 7 1 [] [] (host (lit "APP")) (1 ∷ 2 ∷ 3 ∷ []) ∷ [])
unfolding program
multi_loop-delivers_example =
    multi_loop-delivers script standard writes_all 1 [] [] (host (lit "APP")) none
      (lit "app.example.com:443") 7 (new_context (ack 7 (lit "app")) default_tunnel)
      (new_proxy (lit "127.0.0.1") 8080) to_app ((1 ∷ 2 ∷ []) ∷ (3 ∷ []) ∷ [])
      (map frame (2 ∷ 3 ∷ 4 ∷ 5 ∷ 6 ∷ 7 ∷ 8 ∷ [])) [] two_tunnels standard-GivesValues
      two_tunnels-IsRouted refl refl refl refl ((0, refl), ((1, refl), refl)) refl
      (refl, (refl, (refl, (refl, (refl, (refl, (refl, tt)))))))

multi_loop-IsRouted_example :
    let opened =
      open_tunnels script standard []
        (λ cfg. none)
        (default_tunnel ∷ default_tunnel ∷ [])
        new_manager
        (map (λ n. ok (WsMessage.binary (frame n))) (0 ∷ 1 ∷ [])) in
    IsRouted
      (multi_loop script standard writes_all (binary_then (frame 2 ∷ frame 4 ∷ []) []) opened.1).1
multi_loop-IsRouted_example =
    multi_loop-IsRouted script standard [] (λ cfg. none) (default_tunnel ∷ default_tunnel ∷ [])
      (map (λ n. ok (WsMessage.binary (frame n))) (0 ∷ 1 ∷ [])) writes_all
      (binary_then (frame 2 ∷ frame 4 ∷ []) []) standard-GivesValues

abbrev session_with : Stream → MultiSession
session_with stream = record {
  parsed = ok tt;
  connection = ok tt;
  queue = λ cfg. none;
  stream = stream;
  events = [];
  writer = some (ok (ok tt));
}

abbrev round : Stream → MultiRound
round stream = record {
  cancelled_before = false;
  session = session_with stream;
  cancelled_after = false;
}

-- The tunnel is acknowledged, and then the server closes the socket.
abbrev opens : MultiRound
opens = round (ok (WsMessage.binary (frame 0)) ∷ ok (WsMessage.close none) ∷ [])

abbrev refuses : MultiRound
refuses = round (ok (WsMessage.close none) ∷ [])

run_multi-never_gives_up_example :
    run_multi script standard writes_all []
      (default_tunnel ∷ [])
      500
      1
      (opens ∷ refuses ∷ refuses ∷ refuses ∷ [])
    ≡ (none, map (λ r. delay_of (new_backoff 500 1)) (opens ∷ refuses ∷ refuses ∷ refuses ∷ []))
unfolding program
run_multi-never_gives_up_example =
    run_multi-never_gives_up script standard writes_all [] (default_tunnel ∷ []) 500 1 opens
      (refuses ∷ refuses ∷ refuses ∷ []) (ExposeError.network (lit "server closed the websocket"))
      refl refl refl
      (
        (refl, refl, refl, refl, (_, refl)),
        ((refl, refl, refl, refl, (_, refl)), ((refl, refl, refl, refl, (_, refl)), tt)),
      )
