-- ===== src/Server/Pending/History.antt =====
-- expose-server/src/tunnel_manager.rs: histories of operations on the pending store. The senders
-- that were registered and the deliveries that were made are recorded beside the store.
use expose.Prelude.{
  ℕ, ◌+◌, ◌≡◌, refl, inl, inr, Bool, List, [], ◌∷◌, ◌++◌, map, Option, none, some, arith,
  if◌then◌else◌, Option-cases, Bool-cases, ok, err, is_empty, count,
}
use expose.Prelude.Assoc.{
  ◌==◌, nat_eq, lookup, Distinct, count_values, count_values-remove, remove-Distinct,
}
use expose.Common.Error.{Fallible}
use expose.Common.Message.{Message}
use expose.Server.Pending.{
  PendingRequestConfig, PendingRequest, PendingStore, new_store, store_remove, of_tunnel,
  is_expired, matching_keys, remove_all, close, sweep, fulfill, register_pending_request,
  Deliveries, timed_out_response, disconnected_response,
}

pub data Event : Type 0 where
  registers : (tunnel_id request_id : ℕ) → Option ℕ → (now sender : ℕ) → Event
  fulfills : Message → Event
  closes : (tunnel_id : ℕ) → Event
  sweeps : (now : ℕ) → Event

pub record Log : Type 0 where
  pub store : PendingStore
  pub registered : List ℕ
  pub delivered : Deliveries

abbrev pub start : Log
start = record { store = new_store; registered = []; delivered = [] }

abbrev deliver : Log → Deliveries × PendingStore → Log
deliver l (ds, s) = record l { store = s; delivered = ds ++ l.delivered }

-- A registration that fails leaves no sender behind.
abbrev pub record_sender : ℕ → Log → Fallible PendingStore → Log
record_sender sender l (ok s) = record l { store = s; registered = sender ∷ l.registered }
record_sender sender l (err e) = l

abbrev pub step : PendingRequestConfig → Log → Event → Log
step config l (registers tunnel_id request_id timeout now sender) =
    record_sender sender l
      (register_pending_request config tunnel_id request_id timeout now sender l.store)
step config l (fulfills m) = deliver l (fulfill m l.store)
step config l (closes t) = deliver l (close t l.store)
step config l (sweeps now) = deliver l (sweep now l.store)

unfoldable pub run : PendingRequestConfig → Log → List Event → Log
run config l [] = l
run config l (e ∷ es) = run config (step config l e) es

-- No request is registered under the id of one that still waits.
abbrev pub IsNew : Log → Event → Type 0
IsNew l (registers tunnel_id request_id timeout now sender) =
    lookup request_id l.store.requests ≡ none
IsNew l _ = Unit

abbrev pub AreNew : PendingRequestConfig → Log → List Event → Type 0
AreNew config l [] = Unit
AreNew config l (e ∷ es) = IsNew l e × AreNew config (step config l e) es

-- How often a sender was registered, was answered, and is waiting.
abbrev pub answers : ℕ → Deliveries → ℕ
answers a = count (λ d. d.0 == a)

abbrev sent_by : ℕ → PendingRequest → Bool
sent_by a p = p.sender == a

abbrev pub waiting : ℕ → PendingStore → ℕ
waiting a s = count_values (sent_by a) s.requests

abbrev requests_of : ℕ → List PendingRequest → ℕ
requests_of a = count (sent_by a)

module _ (a : ℕ) where
  pub answers-append : (ds es : Deliveries) → answers a (ds ++ es) ≡ answers a ds + answers a es
  answers-append [] es = omega arith
  answers-append (d ∷ ds) es = ground (arith, answers-append ds es)

  answers-map :
      (f : PendingRequest → Message) (ps : List PendingRequest)
      → answers a (map (λ p. (p.sender, f p)) ps) ≡ requests_of a ps
  answers-map f [] = refl
  answers-map f (p ∷ ps) = ground (arith, answers-map f ps)

  abbrev taken : Option PendingRequest → ℕ
  taken none = 0
  taken (some p) = if sent_by a p then 1 else 0

  waiting-store_remove :
      (id : ℕ) (s : PendingStore)
      → Distinct s.requests
      → waiting a s ≡ taken (store_remove id s).0 + waiting a (store_remove id s).1
  unfolding store_remove
  waiting-store_remove id s d = elim (Option-cases (lookup id s.requests)) [
    | inl e ↦ rw (e, store_remove) (omega arith)
    | inr (p, e) ↦
        rw (e, store_remove) (ground (arith, count_values-remove (sent_by a) id p s.requests d e))
  ]

  Distinct-store_remove :
      (id : ℕ) (s : PendingStore) → Distinct s.requests → Distinct (store_remove id s).1.requests
  unfolding store_remove
  Distinct-store_remove id s d = elim (Option-cases (lookup id s.requests)) [
    | inl e ↦ rw (e, store_remove) d
    | inr (p, e) ↦ rw (e, store_remove) (remove-Distinct id s.requests d)
  ]

  waiting-remove_all :
      (ids : List ℕ) (s : PendingStore)
      → Distinct s.requests
      → waiting a s ≡ requests_of a (remove_all ids s).0 + waiting a (remove_all ids s).1
  unfolding remove_all
  waiting-remove_all [] s d = omega arith
  waiting-remove_all (id ∷ ids) s d = ground (
    arith,
    waiting-store_remove id s d,
    waiting-remove_all ids (store_remove id s).1 (Distinct-store_remove id s d),
  )

  pub waiting-fulfill :
      (m : Message) (s : PendingStore)
      → Distinct s.requests
      → waiting a s ≡ answers a (fulfill m s).0 + waiting a (fulfill m s).1
  unfolding fulfill
  waiting-fulfill (Message.http_response id status headers body) s d =
      ground (arith, waiting-store_remove id s d)
  waiting-fulfill m s d = omega arith

  pub waiting-close :
      (t : ℕ) (s : PendingStore)
      → Distinct s.requests
      → waiting a s ≡ answers a (close t s).0 + waiting a (close t s).1
  unfolding close
  waiting-close t s d = omega (
    arith,
    waiting-remove_all (matching_keys (of_tunnel t) s.requests) s d,
    answers-map disconnected_response (remove_all (matching_keys (of_tunnel t) s.requests) s).0,
  )

  pub waiting-sweep :
      (now : ℕ) (s : PendingStore)
      → Distinct s.requests
      → waiting a s ≡ answers a (sweep now s).0 + waiting a (sweep now s).1
  unfolding sweep
  waiting-sweep now s d = elim (Bool-cases (is_empty (matching_keys (is_expired now) s.requests))) [
    | inl e ↦ rw (e, sweep) (omega arith)
    | inr e ↦
        rw (e, sweep)
          (omega (
            arith,
            waiting-remove_all (matching_keys (is_expired now) s.requests) s d,
            answers-map timed_out_response
                (remove_all (matching_keys (is_expired now) s.requests) s).0,
          ))
  ]

  -- Every registered sender has been answered or still waits.
  abbrev pub Balanced : Log → Type 0
  Balanced l = count (λ x. x == a) l.registered ≡ answers a l.delivered + waiting a l.store
