-- ===== src/Server/Pending/Races.antt =====
-- expose-server/src/tunnel_manager.rs: `register_pending_request` as the shared accesses that it
-- makes, with other tasks in between. A task reads the size of the store, then the count of the
-- tunnel, then writes the request, then counts it. At most so many tasks are before their write as
-- the server has workers.
use expose.Prelude.{
  ℕ, suc, ◌+◌, ◌≤◌, ◌<◌, ◌≡◌, refl, true, false, leb, List, [], ◌∷◌, ◌++◌, Option-cases, Bool-cases,
  inl, inr, length, length-append, arith, is_empty,
}
use expose.Prelude.Assoc.{nat_eq, lookup, insert, length-remove-le}
use expose.Common.Message.{Message}
use expose.Server.Pending.{
  PendingRequestConfig, PendingRequest, PendingStore, new_store, store_len, store_insert, admit,
  count_for_tunnel, store_remove, remove_all, drain_for_tunnel, matching_keys, is_expired,
  of_tunnel, fulfill, close, sweep,
}

-- The store, the requests that passed the first test, those that passed both, and those that are
-- written and not yet counted.
pub record Shared : Type 0 where
  pub store : PendingStore
  pub admitted : List PendingRequest
  pub passed : List PendingRequest
  pub written : List PendingRequest

abbrev pub idle : Shared
idle = record { store = new_store; admitted = []; passed = []; written = [] }

-- `pending_store.requests.insert(..)`.
unfoldable pub write_request : PendingRequest → PendingStore → PendingStore
write_request p s = record s { requests = insert p.request_id p s.requests }

pub data Access (config : PendingRequestConfig) (workers : ℕ) (s : Shared) : Shared → Type 0 where
  read_len :
      (p : PendingRequest)
      → leb config.max_global (store_len s.store) ≡ false
      → length s.admitted + length s.passed < workers
      → Access config workers s (record s { admitted = p ∷ s.admitted })
  read_count :
      (before after : List PendingRequest) (p : PendingRequest)
      → s.admitted ≡ before ++ (p ∷ after)
      → leb config.max_per_tunnel (count_for_tunnel s.store p.tunnel_id) ≡ false
      → Access config workers s (record s { admitted = before ++ after; passed = p ∷ s.passed })
  refused :
      (before after : List PendingRequest) (p : PendingRequest)
      → s.admitted ≡ before ++ (p ∷ after)
      → leb config.max_per_tunnel (count_for_tunnel s.store p.tunnel_id) ≡ true
      → Access config workers s (record s { admitted = before ++ after })
  write :
      (before after : List PendingRequest) (p : PendingRequest)
      → s.passed ≡ before ++ (p ∷ after)
      → Access config workers s (record s {
        store = write_request p s.store;
        passed = before ++ after;
        written = p ∷ s.written;
      })
  book :
      (before after : List PendingRequest) (p : PendingRequest)
      → s.written ≡ before ++ (p ∷ after)
      → Access config workers s
          (record s { store = store_insert p.tunnel_id s.store; written = before ++ after })
  fulfilled : (m : Message) → Access config workers s (record s { store = (fulfill m s.store).1 })
  closed : (t : ℕ) → Access config workers s (record s { store = (close t s.store).1 })
  swept : (now : ℕ) → Access config workers s (record s { store = (sweep now s.store).1 })

pub data Reach (config : PendingRequestConfig) (workers : ℕ) : Shared → Type 0 where
  start : Reach config workers idle
  later :
      {s s' : Shared}
      → Reach config workers s
      → Access config workers s s'
      → Reach config workers s'

-- With nothing in between, the two writes are those of the registration.
undisturbed :
    (p : PendingRequest) (s : PendingStore)
    → store_insert p.tunnel_id (write_request p s) ≡ admit p s
unfolding write_request admit
undisturbed p s = refl

length-taken :
    (before after : List PendingRequest) (p : PendingRequest) (ps : List PendingRequest)
    → ps ≡ before ++ (p ∷ after)
    → length ps ≡ suc (length (before ++ after))
length-taken before after p ps e =
    rw e (omega (arith, length-append before (p ∷ after), length-append before after))

length-insert-le :
    {V : Type 0} (k : ℕ) (v : V) (m : List (ℕ × V)) → length (insert k v m) ≤ suc (length m)
unfolding insert
length-insert-le k v [] = omega arith
length-insert-le k v (x ∷ m) = ground (arith, length-insert-le k v m)

length-store_remove :
    (id : ℕ) (s : PendingStore) → length (store_remove id s).1.requests ≤ length s.requests
unfolding store_remove
length-store_remove id s = elim (Option-cases (lookup id s.requests)) [
  | inl e ↦ rw (e, store_remove) (omega arith)
  | inr (p, e) ↦ rw (e, store_remove) (length-remove-le id s.requests)
]

length-remove_all :
    (ids : List ℕ) (s : PendingStore) → length (remove_all ids s).1.requests ≤ length s.requests
unfolding remove_all
length-remove_all [] s = omega arith
length-remove_all (id ∷ ids) s =
    omega (arith, length-store_remove id s, length-remove_all ids (store_remove id s).1)

length-fulfill :
    (m : Message) (s : PendingStore) → length (fulfill m s).1.requests ≤ length s.requests
unfolding fulfill
length-fulfill (Message.http_response id status headers body) s = length-store_remove id s
length-fulfill m s = omega arith

length-close : (t : ℕ) (s : PendingStore) → length (close t s).1.requests ≤ length s.requests
unfolding close drain_for_tunnel
length-close t s = length-remove_all (matching_keys (of_tunnel t) s.requests) s

length-sweep : (now : ℕ) (s : PendingStore) → length (sweep now s).1.requests ≤ length s.requests
unfolding sweep
length-sweep now s = elim (Bool-cases (is_empty (matching_keys (is_expired now) s.requests))) [
  | inl e ↦ rw (e, sweep) (omega arith)
  | inr e ↦ rw (e, sweep) (length-remove_all (matching_keys (is_expired now) s.requests) s)
]

module _ (config : PendingRequestConfig) (workers : ℕ) where
  abbrev Bounded : Shared → Type 0
  Bounded s =
      store_len s.store + (length s.admitted + length s.passed) < config.max_global + workers

  Access-Bounded : {s s' : Shared} → Access config workers s s' → Bounded s → Bounded s'
  unfolding store_len write_request store_insert
  Access-Bounded {s} (read_len p g w) h = ground (arith, g)
  Access-Bounded {s} (read_count before after p e g) h =
      omega (arith, length-taken before after p s.admitted e)
  Access-Bounded {s} (refused before after p e g) h =
      omega (arith, length-taken before after p s.admitted e)
  Access-Bounded {s} (write before after p e) h = omega (
    arith,
    length-taken before after p s.passed e,
    length-insert-le p.request_id p s.store.requests,
  )
  Access-Bounded {s} (book before after p e) h = h
  Access-Bounded {s} (fulfilled m) h = omega (arith, length-fulfill m s.store)
  Access-Bounded {s} (closed t) h = omega (arith, length-close t s.store)
  Access-Bounded {s} (swept now) h = omega (arith, length-sweep now s.store)

  Reach-Bounded : {s : Shared} → 0 < workers → Reach config workers s → Bounded s
  unfolding store_len new_store
  Reach-Bounded w start = omega arith
  Reach-Bounded w (later r a) = Access-Bounded a (Reach-Bounded w r)

-- However the accesses of concurrent registrations, responses, closed tunnels and sweeps are
-- interleaved, the store holds fewer requests than the global limit and the number of workers that
-- register at a time, taken together: the limit is passed by less than the number of workers.
pub Reach-store_len :
    (config : PendingRequestConfig) (workers : ℕ) (s : Shared)
    → 0 < workers
    → Reach config workers s
    → store_len s.store < config.max_global + workers
Reach-store_len config workers s w r = omega (arith, Reach-Bounded config workers w r)
