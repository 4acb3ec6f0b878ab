-- ===== src/Tests/Manager.antt =====
-- The theorems on the tunnel manager and its pending store at concrete inputs.
use expose.Prelude.{
  ℕ, ◌*◌, ◌+◌, ◌≤◌, ◌<◌, ◌^◌, ◌≡◌, ◌≢◌, ◌↔◌, ◌⊎◌, inl, inr, refl, Bool, true, false, List, [], ◌∷◌,
  map, Option, none, some, ok, err, arith, Result, count, if◌then◌else◌, length,
}
use expose.Prelude.Assoc.{nat_eq, ◌==◌, lookup, insert, remove, count_values}
use expose.Prelude.Text.{
  Text, Bytes, text_eq, text_beq, lit, trim, trim_start, is_whitespace, to_ascii_lowercase,
  is_ascii_alphanumeric, is_ascii_digit, as_bytes,
}
use expose.Common.Types.{TunnelProtocol}
use expose.Common.Message.{Message}
use expose.Common.Subdomain.{sanitize_subdomain, IsLabel, starts_with_char, ends_with_char}
use expose.Server.Pending.{
  PendingRequestConfig, PendingStore, register_pending_request, fulfill, close, sweep, new_store,
  store_len, count_for_tunnel, new_request, admit, store_insert, take_slot, free_slot, increment,
  decrement, store_remove, matching_keys, remove_all, drain_for_tunnel, disconnected_response,
  timed_out_response, is_expired, of_tunnel,
}
use expose.Server.Pending.History.{
  Event, registers, fulfills, closes, sweeps, start, run, AreNew, answers, waiting,
}
use expose.Server.Pending.Invariant
use expose.Server.Pending.Runs.{run-Inv, run_conserves}
use expose.Server.Pending.Sweeping.{matching_values, unless, sweep_lem, close_lem}
use expose.Server.ActiveTunnel.{Governor, ActiveTunnel}
use expose.Server.Tunnels.{
  TunnelManager, new_manager, register_tunnel, get, new_handle, allocate_subdomain, try_random,
  random_subdomain, key_exhausted, count_tunnels_for_key, disconnect_tunnel,
}
use expose.Server.Tunnels.Registry.{Acceptable, register_tunnel_iff, get-register_tunnel}
use expose.Server.Tunnels.Invariant.{Inv, new_manager-Inv, register_tunnel-Inv}
use expose.Server.Tunnels.Allocation.{IsSample, allocate_subdomain_lem}
use expose.Server.Tunnels.Disconnect.{Disconnected, disconnect_tunnel_lem}

program : Unit {0}
unfolding lit expose.Common.Subdomain.Filter.allowed trim trim_start is_whitespace
    to_ascii_lowercase is_ascii_alphanumeric is_ascii_digit as_bytes text_beq sanitize_subdomain
    starts_with_char ends_with_char lookup insert remove count_values register_pending_request
    fulfill close sweep new_store store_len count_for_tunnel new_request admit store_insert
    take_slot free_slot increment decrement expose.Prelude.wrapping_add store_remove matching_keys
    remove_all drain_for_tunnel run new_manager register_tunnel get new_handle allocate_subdomain
    try_random random_subdomain key_exhausted count_tunnels_for_key
program = tt

abbrev pub config : PendingRequestConfig
config = record { max_per_tunnel = 2; max_global = 10; sweep_interval = 1000; default_timeout = 30 }

abbrev answer : Message
answer = Message.http_response 1 200 [] []

abbrev two_waiting : List Event
two_waiting = registers 7 1 none 0 100 ∷ registers 7 2 (some 5) 0 101 ∷ []

abbrev pub history : List Event
history =
    registers 7 1 none 0 100
    ∷ registers 7 2 (some 5) 0 101
    ∷ fulfills answer
    ∷ sweeps 10
    ∷ registers 8 1 none 11 102
    ∷ closes 8
    ∷ []

two_waiting-AreNew : AreNew config start two_waiting
unfolding program
two_waiting-AreNew = (refl, (refl, tt))

pub history-AreNew : AreNew config start history
unfolding program
history-AreNew = (refl, (refl, (tt, (tt, (refl, (tt, tt))))))

run-Inv_example : Invariant.Inv config (run config start history).store
run-Inv_example = run-Inv config history (omega arith) history-AreNew

run_conserves_example :
    let l = run config start history in
    count (λ x. x == 101) l.registered ≡ answers 101 l.delivered + waiting 101 l.store
run_conserves_example = run_conserves config history 101 (omega arith) history-AreNew

abbrev store : PendingStore
store = (run config start two_waiting).store

pub store-Inv : Invariant.Inv config store
store-Inv = run-Inv config two_waiting (omega arith) two_waiting-AreNew

sweep_lem_example :
    ((sweep 10 store).0
      ≡ map
          (λ p. (p.sender, timed_out_response p))
          (matching_values (is_expired 10) store.requests))
    × (lookup 1 (sweep 10 store).1.requests ≡ unless (is_expired 10) (lookup 1 store.requests))
sweep_lem_example = sweep_lem config store store-Inv 10 1

close_lem_example :
    ((close 7 store).0
      ≡ map
          (λ p. (p.sender, disconnected_response p))
          (matching_values (of_tunnel 7) store.requests))
    × (lookup 2 (close 7 store).1.requests ≡ unless (of_tunnel 7) (lookup 2 store.requests))
    × (count_for_tunnel (close 7 store).1 7 ≡ 0)
close_lem_example = close_lem config store store-Inv 7 2

-- A limiter that lets the first request through and refuses the later ones for three seconds.
abbrev pub one_each : Governor Bool
one_each = record {
  direct = λ per_minute burst. true;
  check = λ now fresh. (false, if fresh then none else some 3);
}

abbrev pub no_hash : Text → Bytes
no_hash key = key

abbrev pub empty_manager : TunnelManager Bool
empty_manager =
    new_manager (lit "example.com") (record { max_body_bytes = 1000; max_headers = 64 }) 60 5 config
      2 1

empty-Inv : Inv empty_manager
empty-Inv =
    new_manager-Inv (lit "example.com") (record { max_body_bytes = 1000; max_headers = 64 }) 60 5
      config 2 1

abbrev pub app : ActiveTunnel Bool
app = new_handle one_each empty_manager 7 (lit "app") TunnelProtocol.http 1 (some (1 ∷ []))

abbrev one_tunnel : TunnelManager Bool
one_tunnel = record empty_manager { tunnels = insert (lit "app") app empty_manager.tunnels }

registered :
    register_tunnel one_each no_hash empty_manager 7
      (lit "app")
      TunnelProtocol.http
      1
      (some (1 ∷ []))
    ≡ ok (app, one_tunnel)
unfolding program
registered = refl

register_tunnel-Inv_example : Inv one_tunnel
register_tunnel-Inv_example =
    register_tunnel-Inv empty_manager empty-Inv one_each no_hash 7 (lit "app") TunnelProtocol.http 1
      (some (1 ∷ [])) app one_tunnel registered

register_tunnel_iff_example :
    (register_tunnel one_each no_hash empty_manager 7
        (lit "app")
        TunnelProtocol.http
        1
        (some (1 ∷ []))
      ≡ ok (app, one_tunnel))
    ↔ Acceptable one_each no_hash empty_manager 7 (lit "app") TunnelProtocol.http 1 (some (1 ∷ []))
register_tunnel_iff_example =
    register_tunnel_iff one_each no_hash empty_manager 7 (lit "app") TunnelProtocol.http 1
      (some (1 ∷ []))

get-register_tunnel_example :
    (app.id ≡ 7)
    × (app.subdomain ≡ lit "app")
    × (get empty_manager (lit "app") ≡ none)
    × (get one_tunnel (lit "web")
        ≡ (if lit "app" == lit "web" then some app else get empty_manager (lit "web")))
    × (one_tunnel.pending_store ≡ empty_manager.pending_store)
get-register_tunnel_example =
    get-register_tunnel one_each no_hash empty_manager 7 (lit "app") TunnelProtocol.http 1
      (some (1 ∷ [])) app one_tunnel (lit "web") registered

abbrev pub eight : ℕ → Text
eight round = b'A' ∷ b'b' ∷ b'3' ∷ b'd' ∷ b'e' ∷ b'F' ∷ b'0' ∷ b'9' ∷ []

eight-IsSample : (round : ℕ) → IsSample (eight round)
unfolding program
eight-IsSample round = (refl, refl)

drawn : allocate_subdomain one_tunnel eight none ≡ ok (random_subdomain (eight 0))
unfolding program
drawn = refl

allocate_subdomain_lem_example :
    IsLabel (random_subdomain (eight 0)) × (get one_tunnel (random_subdomain (eight 0)) ≡ none)
allocate_subdomain_lem_example =
    allocate_subdomain_lem one_tunnel eight none (random_subdomain (eight 0)) eight-IsSample drawn

-- One tunnel with two requests that wait for it.
abbrev pub busy : TunnelManager Bool
busy = record one_tunnel { pending_store = store }

pub busy-Inv : Inv busy
busy-Inv =
    let v =
      register_tunnel-Inv empty_manager empty-Inv one_each no_hash 7 (lit "app") TunnelProtocol.http
        1 (some (1 ∷ [])) app one_tunnel registered in
    record {
      distinct = v.distinct;
      named = v.named;
      within_total = v.within_total;
      within_key = v.within_key;
    }

disconnect_tunnel_lem_example :
    let (answer, out, m') = disconnect_tunnel 7 busy in
    ((answer ≡ false)
      × ((k : Text) (t : ActiveTunnel Bool) → get busy k ≡ some t → t.id ≢ 7)
      × (out ≡ [])
      × (m' ≡ busy))
    ⊎ ((answer ≡ true) × Disconnected 7 busy out m')
unfolding program
disconnect_tunnel_lem_example = disconnect_tunnel_lem 7 busy busy-Inv store-Inv
