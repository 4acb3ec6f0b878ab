-- ===== src/Client/Multi/Delivery.antt =====
-- expose-client/src/multi.rs: a streamed request among the messages of others. Messages are handled
-- in turn until one of them fails.
use expose.Prelude.{
  ℕ, ◌++◌, ◌≡◌, refl, sym, ◌∙◌, ap, Bool-cases, Result-cases, inl, inr, List, [], ◌∷◌, Option, none,
  some, ok, err, keep, keep-append, append_assoc, append-nil, arith, if◌then◌else◌, subst,
}
use expose.Prelude.Assoc.{nat_eq, eqb_refl, lookup, insert, lookup-insert_self}
use expose.Prelude.Text.{Text, Bytes, text_eq}
use expose.Common.Message.{Message, Headers}
use expose.Client.LocalProxy.{
  LocalProxy, StreamingRequest, begin_streaming_request, push_streaming_chunk,
  finish_streaming_request,
}
use expose.Client.TcpProxy.{SocketWrites}
use expose.Client.Multi.{
  TunnelContext, MultiTunnelManager, Standard, GivesValues, Effect, http_task, MultiStep, go,
  multi_message, http_of, context_of, start_in, chunk_in, end_in, track_http_request,
  http_context_for_request,
}
use expose.Client.Multi.Routing.{IsRouted}
use expose.Client.Multi.Frames.{multi_message-IsRouted}
use expose.Client.Multi.Streams.{
  stream_of, about, is_task, tagged, buffer_in, other_message, http_here,
}
use expose.Server.Proxy.Chunks.{concat}

abbrev pub then_more : MultiStep → (MultiTunnelManager → MultiStep) → MultiStep
then_more (ok _, m, effects) k = let s = k m in (s.0, s.1, effects ++ s.2)
then_more (err e, m, effects) k = (err e, m, effects)

-- The messages in turn.
unfoldable pub multi_messages :
    Standard → SocketWrites → List Message → MultiTunnelManager → MultiStep
multi_messages std writes [] m = go m []
multi_messages std writes (x ∷ xs) m =
    then_more (multi_message std writes x m) (λ m'. multi_messages std writes xs m')

-- The messages that follow the start of a streamed request: its chunks, in order, and its end.
abbrev pub Streamed : ℕ → List Bytes → List Message → Type 0
Streamed id [] xs = xs ≡ Message.http_request_end id ∷ []
Streamed id (p ∷ ps) [] = ⊥
Streamed id (p ∷ ps) (x ∷ xs) =
    ((sequence : ℕ) × (x ≡ Message.http_request_chunk id p sequence)) × Streamed id ps xs

pub then_more-ok :
    (s : MultiStep) (k : MultiTunnelManager → MultiStep)
    → (then_more s k).0 ≡ ok tt
    → (s.0 ≡ ok tt) × ((k s.1).0 ≡ ok tt) × ((then_more s k).2 ≡ s.2 ++ (k s.1).2)
then_more-ok (ok tt, m, effects) k h = (refl, h, refl)
then_more-ok (err e, m, effects) k h = absurd (cc)

module _ (id : ℕ) (m : MultiTunnelManager) (r : IsRouted m) where
  pushed_own :
      (payload : Bytes) (p q : LocalProxy) (v : StreamingRequest)
      → lookup id p.pending_streams ≡ some v
      → push_streaming_chunk id payload p ≡ ok q
      → lookup id q.pending_streams ≡ some (record v { body = v.body ++ payload })
  unfolding push_streaming_chunk
  pushed_own payload p q v e h =
      ground (
        arith,
        e,
        h,
        lookup-insert_self id (record v { body = v.body ++ payload }) p.pending_streams,
      )

  tagged-some :
      (c : TunnelContext) (o : Option StreamingRequest) (t : ℕ) (v : StreamingRequest)
      → tagged c.tunnel_id o ≡ some (t, v)
      → (c.tunnel_id ≡ t) × (o ≡ some v)
  tagged-some c none t v h = absurd (cc)
  tagged-some c (some w) t v h = ground (arith, h)

  own_chunk :
      (payload : Bytes) (o : Option (TunnelContext × LocalProxy)) (t : ℕ) (v : StreamingRequest)
      → http_of (context_of m (lookup id m.http_requests)) ≡ o
      → buffer_in id o ≡ some (t, v)
      → (chunk_in id payload m o).0 ≡ ok tt
      → (stream_of id (chunk_in id payload m o).1 ≡ some (t, record v { body = v.body ++ payload }))
        × ((chunk_in id payload m o).2 ≡ [])
  own_chunk payload none t v e b = absurd (cc)
  own_chunk payload (some (c, p)) t v e b =
      let (i, l) = tagged-some c (lookup id p.pending_streams) t v b in
      elim (Result-cases (push_streaming_chunk id payload p)) [
        | inl (q, h) ↦ rw h (λ k. (
          rw (http_here m c p q (lookup id m.http_requests) r e, pushed_own payload p q v l h, i)
              refl,
          refl,
        ))
        | inr (x, h) ↦ rw h (λ k. absurd (cc))
      ]

  own_end :
      (o : Option (TunnelContext × LocalProxy)) (t : ℕ) (v : StreamingRequest)
      → buffer_in id o ≡ some (t, v)
      → (end_in id m o).2 ≡ http_task t id v.method v.path v.headers v.body ∷ []
  unfolding finish_streaming_request
  own_end none t v b = absurd (cc)
  own_end (some (c, p)) t v b =
      let (i, l) = tagged-some c (lookup id p.pending_streams) t v b in rw (l, i) refl

  pub own_start :
      (method path : Text) (headers : Headers) (c : TunnelContext) (p : LocalProxy)
      → stream_of id (start_in id method path headers m (some (c, p))).1
        ≡ some (c.tunnel_id, record { method = method; path = path; headers = headers; body = [] })
  unfolding track_http_request begin_streaming_request
  own_start method path headers c p =
      let v : StreamingRequest = record {
        method = method;
        path = path;
        headers = headers;
        body = [];
      } in
      let q : LocalProxy = record p { pending_streams = insert id v p.pending_streams } in
      rw
        (
          lookup-insert_self id c.tunnel_id m.http_requests,
          lookup-insert_self c.tunnel_id (record c { http_proxy = some q }) m.contexts,
          lookup-insert_self id v p.pending_streams,
        )
        refl

module _ (std : Standard) (g : GivesValues std) (writes : SocketWrites) (id : ℕ) where
  abbrev pub tasks_in : List Message → MultiTunnelManager → List Effect
  tasks_in xs m = keep (is_task id) (multi_messages std writes xs m).2

  pub tasks_next :
      (x : Message) (xs : List Message) (m : MultiTunnelManager)
      → (multi_messages std writes (x ∷ xs) m).0 ≡ ok tt
      → tasks_in (x ∷ xs) m
        ≡ keep (is_task id) (multi_message std writes x m).2
          ++ tasks_in xs (multi_message std writes x m).1
  unfolding multi_messages
  tasks_next x xs m h =
      let s = multi_message std writes x m in
      let k : MultiTunnelManager → MultiStep = λ m'. multi_messages std writes xs m' in
      ap (keep (is_task id)) (then_more-ok s k h).2 ∙ keep-append (is_task id) s.2 (k s.1).2

  pub oks :
      (x : Message) (xs : List Message) (m : MultiTunnelManager)
      → (multi_messages std writes (x ∷ xs) m).0 ≡ ok tt
      → ((multi_message std writes x m).0 ≡ ok tt)
        × ((multi_messages std writes xs (multi_message std writes x m).1).0 ≡ ok tt)
  unfolding multi_messages
  oks x xs m h =
      let (a, b, _) =
        then_more-ok (multi_message std writes x m) (λ m'. multi_messages std writes xs m') h in
      (a, b)

  -- No message about a request, no task for it.
  quiet :
      (xs : List Message) (m : MultiTunnelManager)
      → IsRouted m
      → keep (about id) xs ≡ []
      → (multi_messages std writes xs m).0 ≡ ok tt
      → tasks_in xs m ≡ []
  quiet [] m r e h = unfold multi_messages in refl
  quiet (x ∷ xs) m r e h = elim (Bool-cases (about id x)) [
    | inl q ↦ absurd (ground (arith, q, e))
    | inr q ↦
        tasks_next x xs m h
        ∙ rw ((other_message std g writes id m x r q).1) (
            quiet xs (multi_message std writes x m).1 (multi_message-IsRouted std g m r writes x)
              (ground (arith, q, e)) (oks x xs m h).1)
  ]

  own_last :
      (xs : List Message) (m : MultiTunnelManager) (t : ℕ) (v : StreamingRequest)
      → IsRouted m
      → stream_of id m ≡ some (t, v)
      → keep (about id) xs ≡ []
      → (multi_messages std writes (Message.http_request_end id ∷ xs) m).0 ≡ ok tt
      → tasks_in (Message.http_request_end id ∷ xs) m
        ≡ http_task t id v.method v.path v.headers v.body ∷ []
  unfolding multi_message http_context_for_request
  own_last xs m t v r b n h =
      let x : Message = Message.http_request_end id in
      tasks_next x xs m h
      ∙ rw
          (
            own_end id m r (http_of (context_of m (lookup id m.http_requests))) t v b,
            eqb_refl id,
            quiet xs (multi_message std writes x m).1 (multi_message-IsRouted std g m r writes x) n
                (oks x xs m h).1,
          )
          refl

  own_more :
      (p : Bytes) (sequence : ℕ) (xs : List Message) (m : MultiTunnelManager) (t : ℕ)
      (v : StreamingRequest) (task : Effect)
      → IsRouted m
      → stream_of id m ≡ some (t, v)
      → ((m' : MultiTunnelManager)
          → IsRouted m'
          → stream_of id m' ≡ some (t, record v { body = v.body ++ p })
          → (multi_messages std writes xs m').0 ≡ ok tt
          → tasks_in xs m' ≡ task ∷ [])
      → (multi_messages std writes (Message.http_request_chunk id p sequence ∷ xs) m).0 ≡ ok tt
      → tasks_in (Message.http_request_chunk id p sequence ∷ xs) m ≡ task ∷ []
  unfolding multi_message http_context_for_request
  own_more p sequence xs m t v task r b k h =
      let x : Message = Message.http_request_chunk id p sequence in
      let (now, later) = oks x xs m h in
      let (same, silent) =
        own_chunk id m r p (http_of (context_of m (lookup id m.http_requests))) t v refl b now in
      tasks_next x xs m h
      ∙ rw silent (
          k (multi_message std writes x m).1 (multi_message-IsRouted std g m r writes x) same later)

  abbrev task_with : ℕ → StreamingRequest → Bytes → Effect
  task_with t v body = http_task t id v.method v.path v.headers body

  own :
      (x : Message) (xs : List Message) (m : MultiTunnelManager) (t : ℕ) (v : StreamingRequest)
      (ps : List Bytes)
      → IsRouted m
      → stream_of id m ≡ some (t, v)
      → Streamed id ps (x ∷ keep (about id) xs)
      → ((m' : MultiTunnelManager) (w : StreamingRequest) (qs : List Bytes)
          → IsRouted m'
          → stream_of id m' ≡ some (t, w)
          → Streamed id qs (keep (about id) xs)
          → (multi_messages std writes xs m').0 ≡ ok tt
          → tasks_in xs m' ≡ task_with t w (w.body ++ concat qs) ∷ [])
      → (multi_messages std writes (x ∷ xs) m).0 ≡ ok tt
      → tasks_in (x ∷ xs) m ≡ task_with t v (v.body ++ concat ps) ∷ []
  own x xs m t v [] r b s k h =
      let e : Message.http_request_end id ≡ x = cc in
      let n : keep (about id) xs ≡ [] = cc in
      rw (append-nil v.body) (
        subst (λ y. tasks_in (y ∷ xs) m ≡ task_with t v v.body ∷ []) e
          (own_last xs m t v r b n
            (subst (λ y. (multi_messages std writes (y ∷ xs) m).0 ≡ ok tt) (sym e) h)))
  own x xs m t v (p ∷ ps) r b ((sequence, e), s) k h =
      let w : StreamingRequest = record v { body = v.body ++ p } in
      subst (λ y. tasks_in (y ∷ xs) m ≡ task_with t v (v.body ++ (p ++ concat ps)) ∷ []) (sym e)
        (own_more p sequence xs m t v (task_with t v (v.body ++ (p ++ concat ps))) r b
          (λ m' r' b' h'.
            subst (λ z. tasks_in xs m' ≡ task_with t v z ∷ []) (append_assoc v.body p (concat ps))
              (k m' w ps r' b' s h'))
          (subst (λ y. (multi_messages std writes (y ∷ xs) m).0 ≡ ok tt) e h))

  pub delivered :
      (xs : List Message) (m : MultiTunnelManager) (t : ℕ) (v : StreamingRequest) (ps : List Bytes)
      → IsRouted m
      → stream_of id m ≡ some (t, v)
      → Streamed id ps (keep (about id) xs)
      → (multi_messages std writes xs m).0 ≡ ok tt
      → tasks_in xs m ≡ http_task t id v.method v.path v.headers (v.body ++ concat ps) ∷ []
  delivered [] m t v [] r b s h = absurd (cc)
  delivered [] m t v (p ∷ ps) r b s h = absurd s
  delivered (x ∷ xs) m t v ps r b s h = elim (Bool-cases (about id x)) [
    | inr q ↦
        let (same, none_kept) = other_message std g writes id m x r q in
        tasks_next x xs m h
        ∙ rw none_kept (
            delivered xs (multi_message std writes x m).1 t v ps
              (multi_message-IsRouted std g m r writes x) (same ∙ b)
              (subst
                (λ z. Streamed id ps (if z then x ∷ keep (about id) xs else keep (about id) xs)) q
                s)
              (oks x xs m h).1)
    | inl q ↦
        own x xs m t v ps r b
          (subst (λ z. Streamed id ps (if z then x ∷ keep (about id) xs else keep (about id) xs)) q
            s)
          (λ m' w qs r' b' s' h'. delivered xs m' t w qs r' b' s' h') h
  ]
