-- ===== src/Server/Pending/Invariant.antt =====
-- expose-server/src/tunnel_manager.rs: what holds of the pending store after any operation.
use expose.Prelude.{
  subst, ℕ, ◌^◌, ◌≤◌, ◌<◌, ◌≡◌, refl, inl, inr, List, [], ◌∷◌, Option, none, some, arith, ok,
  length, Option-cases, Bool-cases, wrapping_add-small, is_empty,
}
use expose.Prelude.Assoc.{
  nat_eq, lookup, Distinct, lookup-insert, lookup-remove, insert-Distinct, remove-Distinct,
  count_values, count_values-insert, count_values-remove, count_values-le, length-insert,
  length-remove,
}
use expose.Common.Message.{Message}
use expose.Server.Pending.{
  PendingRequestConfig, PendingRequest, PendingStore, new_store, store_remove, of_tunnel,
  is_expired, matching_keys, remove_all, register_pending_request, fulfill, close, sweep, admit,
  new_request, increment, increment_expired,
}
use expose.Server.Pending.Slots.{slots, slots-take_slot, slots-free_slot}

-- Each request stands under its own id, once; the count of a tunnel is the number of its requests,
-- the gauge the number of all; and both limits of the configuration are kept.
pub record Inv (config : PendingRequestConfig) (s : PendingStore) : Type 0 where
  pub distinct : Distinct s.requests
  pub named : (id : ℕ) (p : PendingRequest) → lookup id s.requests ≡ some p → p.request_id ≡ id
  pub counted : (t : ℕ) → slots t s.per_tunnel ≡ count_values (of_tunnel t) s.requests
  pub gauge : s.metrics.pending_gauge ≡ length s.requests
  pub within_global : length s.requests ≤ config.max_global
  pub within_tunnel : (t : ℕ) → slots t s.per_tunnel ≤ config.max_per_tunnel

pub new_store-Inv : (config : PendingRequestConfig) → Inv config new_store
unfolding new_store lookup count_values
new_store-Inv config = record {
  distinct = tt;
  named = λ id p h. cc;
  counted = λ t. refl;
  gauge = refl;
  within_global = omega arith;
  within_tunnel = λ t. omega arith;
}

module _ (config : PendingRequestConfig) (s : PendingStore) (v : Inv config s) where
  pub store_remove-Inv : (id : ℕ) → Inv config (store_remove id s).1
  unfolding store_remove
  store_remove-Inv id = elim (Option-cases (lookup id s.requests)) [
    | inl e ↦ rw (e, store_remove) v
    | inr (p, e) ↦
        rw (e, store_remove)
          (record {
            distinct = remove-Distinct id s.requests v.distinct;
            named = λ j q h. v.named j q (ground (arith, lookup-remove id j s.requests));
            counted = λ t. ground (
              arith,
              v.counted t,
              v.counted p.tunnel_id,
              slots-free_slot p.tunnel_id t s.per_tunnel,
              count_values-remove (of_tunnel t) id p s.requests v.distinct e,
            );
            gauge = ground (arith, v.gauge, length-remove id p s.requests v.distinct e);
            within_global =
                ground (arith, v.within_global, length-remove id p s.requests v.distinct e);
            within_tunnel = λ t. ground (
              arith,
              v.within_tunnel t,
              v.within_tunnel p.tunnel_id,
              slots-free_slot p.tunnel_id t s.per_tunnel,
            );
          })
  ]

  admit-Inv :
      (p : PendingRequest)
      → config.max_global < 2 ^ 64
      → lookup p.request_id s.requests ≡ none
      → length s.requests < config.max_global
      → slots p.tunnel_id s.per_tunnel < config.max_per_tunnel
      → Inv config (admit p s)
  unfolding admit increment
  admit-Inv p usize fresh room slot = record {
    distinct = insert-Distinct p.request_id p s.requests v.distinct;
    named = λ j q h. ground (arith, v.named j q, lookup-insert p.request_id j p s.requests);
    counted = λ t. ground (
      arith,
      v.counted t,
      v.counted p.tunnel_id,
      count_values-le (of_tunnel p.tunnel_id) s.requests,
      slots-take_slot p.tunnel_id t s.per_tunnel,
      count_values-insert (of_tunnel t) p.request_id p s.requests fresh,
    );
    gauge = ground (
      arith,
      v.gauge,
      wrapping_add-small s.metrics.pending_gauge 1,
      length-insert p.request_id p s.requests fresh,
    );
    within_global = ground (arith, length-insert p.request_id p s.requests fresh);
    within_tunnel = λ t. ground (
      arith,
      v.within_tunnel t,
      v.counted p.tunnel_id,
      count_values-le (of_tunnel p.tunnel_id) s.requests,
      slots-take_slot p.tunnel_id t s.per_tunnel,
    );
  }

  pub register_pending_request-Inv :
      (tunnel_id request_id : ℕ) (timeout : Option ℕ) (now sender : ℕ) (s' : PendingStore)
      → config.max_global < 2 ^ 64
      → lookup request_id s.requests ≡ none
      → register_pending_request config tunnel_id request_id timeout now sender s ≡ ok s'
      → Inv config s'
  unfolding register_pending_request new_request
  register_pending_request-Inv tunnel_id request_id timeout now sender s' usize fresh h =
      let p = new_request config tunnel_id request_id timeout now sender in
      let (e, room, slot) = admitted in subst (Inv config) e (admit-Inv p usize fresh room slot)
    where
      admitted :
          (admit (new_request config tunnel_id request_id timeout now sender) s ≡ s')
          × (length s.requests < config.max_global)
          × (slots tunnel_id s.per_tunnel < config.max_per_tunnel)
      admitted = ground arith

pub remove_all-Inv :
    (config : PendingRequestConfig) (ids : List ℕ) (s : PendingStore)
    → Inv config s
    → Inv config (remove_all ids s).1
unfolding remove_all
remove_all-Inv config [] s v = v
remove_all-Inv config (id ∷ ids) s v =
    remove_all-Inv config ids (store_remove id s).1 (store_remove-Inv config s v id)

pub fulfill-Inv :
    (config : PendingRequestConfig) (m : Message) (s : PendingStore)
    → Inv config s
    → Inv config (fulfill m s).1
unfolding fulfill
fulfill-Inv config (Message.http_response id status headers body) s v =
    store_remove-Inv config s v id
fulfill-Inv config m s v = v

pub close-Inv :
    (config : PendingRequestConfig) (t : ℕ) (s : PendingStore)
    → Inv config s
    → Inv config (close t s).1
unfolding close
close-Inv config t s v = remove_all-Inv config (matching_keys (of_tunnel t) s.requests) s v

counted_expired-Inv :
    (config : PendingRequestConfig) (n : ℕ) (s : PendingStore)
    → Inv config s
    → Inv config (record s { metrics = increment_expired s.metrics n })
unfolding increment_expired
counted_expired-Inv config n s v = record {
  distinct = v.distinct;
  named = v.named;
  counted = v.counted;
  gauge = v.gauge;
  within_global = v.within_global;
  within_tunnel = v.within_tunnel;
}

pub sweep-Inv :
    (config : PendingRequestConfig) (now : ℕ) (s : PendingStore)
    → Inv config s
    → Inv config (sweep now s).1
unfolding sweep
sweep-Inv config now s v = elim (Bool-cases (is_empty ids)) [
  | inl e ↦ rw (e, sweep) v
  | inr e ↦
      rw (e, sweep)
        (counted_expired-Inv config (length ids) (remove_all ids s).1
          (remove_all-Inv config ids s v))
]
  where
    ids : List ℕ
    ids = matching_keys (is_expired now) s.requests
