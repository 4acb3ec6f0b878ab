-- ===== src/Tests/Requests.antt =====
-- The theorems on waiting requests and the proxy's handler at concrete inputs.
use expose.Prelude.{ℕ, ◌+◌, ◌<◌, ◌≡◌, refl, ◌++◌, true, [], ◌∷◌, none, some, arith, count, Bool}
use expose.Prelude.Assoc.{nat_eq, ◌==◌, lookup, insert, remove}
use expose.Prelude.Text.{lit, text_eq}
use expose.Common.Message.{Message}
use expose.Server.Pending.{
  PendingRequestConfig, PendingRequest, PendingStore, store_len, count_for_tunnel, new_store,
  take_slot, free_slot,
}
use expose.Server.Pending.History.{fulfills, sweeps, start, run, answers}
use expose.Server.Pending.Answered.{run-all_answered}
use expose.Server.Pending.Races.{
  Shared, idle, read_len, read_count, write, book, closed, Reach, later, Reach-store_len,
}
use expose.Server.Pending.Races
use expose.Server.Config.{ServerConfig, default_config}
use expose.Server.Proxy.Body.{chunk}
use expose.Server.Proxy.Streaming.{Channel}
use expose.Server.Proxy.Handler.{Request, Occasion, proxy_with_state}
use expose.Server.Proxy.Handler.Outcomes.{Comes}
use expose.Server.Proxy.Handler.Served.{proxy_with_state-Comes}
use expose.Tests.Manager.{config, history, history-AreNew, one_each, busy}
use expose.Server.Admin.{AdminOutside, delete_tunnel, admin_router}
use expose.Server.Admin.Changes.{Changes, admin_router-Changes}
use expose.Tests.Manager.{busy-Inv, store-Inv}
use expose.Tests.Proxying.{plain}

run-all_answered_example :
    let l = run config start (history ++ (sweeps 20 ∷ [])) in
    count (λ x. x == 101) l.registered ≡ answers 101 l.delivered
run-all_answered_example =
    run-all_answered config history 101 20 (omega arith) history-AreNew
      ((λ h. omega arith), ((λ h. omega arith), (tt, (tt, ((λ h. omega arith), (tt, tt))))))

program : Unit {0}
unfolding lookup insert remove new_store store_len count_for_tunnel take_slot free_slot
    Races.write_request expose.Server.Pending.store_insert expose.Server.Pending.close
    expose.Server.Pending.drain_for_tunnel expose.Server.Pending.remove_all
    expose.Server.Pending.store_remove expose.Server.Pending.matching_keys
program = tt

abbrev one_at_most : PendingRequestConfig
one_at_most = record {
  max_per_tunnel = 5;
  max_global = 1;
  sweep_interval = 1;
  default_timeout = 30;
}

abbrev asks : ℕ → PendingRequest
asks id = record { sender = id; created_at = 0; deadline = 30; request_id = id; tunnel_id = 7 }

abbrev both_checked : Shared
both_checked = record {
  store = new_store;
  admitted = [];
  passed = asks 2 ∷ asks 1 ∷ [];
  written = [];
}

abbrev one_written : Shared
one_written = record {
  store = Races.write_request (asks 1) new_store;
  admitted = [];
  passed = asks 2 ∷ [];
  written = asks 1 ∷ [];
}

abbrev both_written : Shared
both_written = record {
  store = Races.write_request (asks 2) one_written.store;
  admitted = [];
  passed = [];
  written = asks 2 ∷ asks 1 ∷ [];
}

both_checked-Reach : Reach one_at_most 2 both_checked
unfolding program
both_checked-Reach =
    later
      (later
        (later (later Races.start (read_len (asks 1) refl (omega arith)))
          (read_len (asks 2) refl (omega arith)))
        (read_count (asks 2 ∷ []) [] (asks 1) refl refl))
      (read_count [] [] (asks 2) refl refl)

one_written-Reach : Reach one_at_most 2 one_written
one_written-Reach = later both_checked-Reach (write (asks 2 ∷ []) [] (asks 1) refl)

both_written-Reach : Reach one_at_most 2 both_written
both_written-Reach = later one_written-Reach (write [] [] (asks 2) refl)

-- With the limit 1 and two workers, two requests wait.
overrun : store_len both_written.store ≡ 2
unfolding program
overrun = refl

Reach-store_len_example : store_len both_written.store < one_at_most.max_global + 2
Reach-store_len_example =
    Reach-store_len one_at_most 2 both_written (omega arith) both_written-Reach

-- When the tunnel closes between the two writes of a registration, its count stays at one with no
-- request left.
abbrev leaked : Shared
leaked = record {
  store = expose.Server.Pending.store_insert 7 (expose.Server.Pending.close 7 one_written.store).1;
  admitted = [];
  passed = asks 2 ∷ [];
  written = [];
}

leaked-Reach : Reach one_at_most 2 leaked
leaked-Reach = later (later one_written-Reach (closed 7)) (book [] [] (asks 1) refl)

leaked_count : (store_len leaked.store ≡ 0) × (count_for_tunnel leaked.store 7 ≡ 1)
unfolding program
leaked_count = (refl, refl)

abbrev request : Request
request = record {
  host = some (lit "app.example.com");
  method = lit "POST";
  path_and_query = some (lit "/a?b");
  path = lit "/a";
  headers = (lit "accept", some (lit "*/*")) ∷ (lit "x-raw", none) ∷ [];
  content_length = some 3;
  body = record { upper = some 3; frames = chunk (1 ∷ 2 ∷ 3 ∷ []) ∷ [] };
}

abbrev occasion : Occasion Bool
occasion = record {
  governor = one_each;
  http = record { header_name = λ t. some t; header_value = λ t. some t; debug = λ m. [] };
  now = 3;
  request_id = 9;
  sender = 109;
  meanwhile =
      fulfills (Message.http_response 9 204 ((lit "x-id", lit "9") ∷ []) []) ∷ sweeps 5 ∷ [];
}

abbrev served_config : ServerConfig
served_config = record default_config { domain = lit "example.com" }

abbrev fresh : Channel
fresh = record { sent = []; accepts = λ n. true }

proxy_with_state-Comes_example :
    Comes served_config occasion request busy fresh
      (proxy_with_state served_config occasion request busy fresh)
unfolding program expose.Server.Tunnels.new_manager expose.Prelude.Assoc.count_values run
    expose.Server.Pending.register_pending_request expose.Server.Pending.admit
proxy_with_state-Comes_example =
    proxy_with_state-Comes served_config occasion request busy fresh store-Inv (omega arith) refl
      (λ t. (refl, (tt, (tt, tt)))) (tt, (tt, tt))

abbrev open_admin : ServerConfig
open_admin = record default_config { admin = record default_config.admin { insecure_admin = true } }

abbrev administration : AdminOutside
administration = record {
  crypto = plain;
  parse_uuid = λ raw. some 7;
  bucket = none;
  timestamp = [];
}

admin_router-Changes_example :
    Changes open_admin administration none
      (delete_tunnel (lit "7"))
      busy
      (admin_router open_admin administration none (delete_tunnel (lit "7")) busy)
unfolding expose.Server.Tunnels.new_manager
admin_router-Changes_example =
    admin_router-Changes open_admin administration none (delete_tunnel (lit "7")) busy busy-Inv
      store-Inv
