-- ===== src/Client/Multi/Rounds.antt =====
-- expose-client/src/multi.rs: `run_with_token`, the loop over sessions of several tunnels. A round
-- is what its session takes from outside, with what the shutdown token says before and after it; the
-- wait between two rounds does not read the token.
use expose.Prelude.{
  ℕ, ◌≡◌, refl, ◌||◌, true, false, Bool, List, [], ◌∷◌, map, Option, none, some, ok, err, All,
  arith, if◌then◌else◌,
}
use expose.Prelude.Text.{Text}
use expose.Common.Types.{TunnelConfig}
use expose.Common.Error.{ExposeError}
use expose.Common.Codec.{Bincode}
use expose.Client.TcpProxy.{SocketWrites}
use expose.Client.Backoff.{ReconnectBackoff, new_backoff, reset, next_delay, delay_of, is_exhausted}
use expose.Client.Run.{SessionResult, Ran, finished, after_failure, settled}
use expose.Client.Multi.{Standard, new_manager}
use expose.Client.Multi.Opening.{MultiSession, multi_session, open_tunnels, Opened, after_opening}

pub record MultiRound : Type 0 where
  pub cancelled_before : Bool
  pub session : MultiSession
  pub cancelled_after : Bool

abbrev pub after_multi_session :
    MultiRound
    → (has_connected : Bool) → Option SessionResult
    → ReconnectBackoff
    → (Bool → ReconnectBackoff → Ran)
    → Ran
after_multi_session r has_connected none backoff k = (none, [])
after_multi_session r has_connected (some (SessionResult.shutdown had_connection)) backoff k =
    finished (ok tt)
after_multi_session r has_connected (some (SessionResult.reconnect e had_connection)) backoff k =
    if r.cancelled_after
    then finished (ok tt)
    else after_failure e false (next_delay (settled had_connection backoff))
        (k (has_connected || had_connection))

module _ (b : Bincode) (std : Standard) (writes : SocketWrites) (client_version : Text)
    (cfgs : List TunnelConfig) where
  unfoldable pub multi_rounds : (has_connected : Bool) → List MultiRound → ReconnectBackoff → Ran
  multi_rounds has_connected [] backoff = (none, [])
  multi_rounds has_connected (r ∷ rounds) backoff =
      if r.cancelled_before
      then finished (ok tt)
      else after_multi_session r has_connected
          (multi_session b std writes client_version has_connected cfgs r.session) backoff
          (λ h backoff'. multi_rounds h rounds backoff')

  unfoldable pub run_multi : (base_delay_ms max_attempts : ℕ) → List MultiRound → Ran
  unfolding multi_rounds
  run_multi base_delay_ms max_attempts rounds =
      multi_rounds false rounds (new_backoff base_delay_ms max_attempts)

  -- The connection is made, and then a tunnel is refused; nobody asks for a shutdown.
  abbrev pub FailsToOpen : MultiRound → Type 0
  FailsToOpen r =
      (r.cancelled_before ≡ false)
      × (r.cancelled_after ≡ false)
      × (r.session.parsed ≡ ok tt)
      × (r.session.connection ≡ ok tt)
      × ((e : ExposeError) × ((open_tunnels b std client_version r.session.queue cfgs new_manager
              r.session.stream).0
            ≡ err e))

  after_opening-refused :
      (reconnecting : Bool) (s : MultiSession) (o : Opened) (e : ExposeError)
      → o.0 ≡ err e
      → after_opening b std writes client_version reconnecting s o
        ≡ some (SessionResult.reconnect e reconnecting)
  after_opening-refused reconnecting s (ok x, m, effects, rest) e h = absurd (cc)
  after_opening-refused reconnecting s (err x, m, effects, rest) e h =
      let same : x ≡ e = cc in rw same refl

  multi_session-refused :
      (r : MultiRound) (f : FailsToOpen r)
      → multi_session b std writes client_version true cfgs r.session
        ≡ some (SessionResult.reconnect f.4.0 true)
  unfolding multi_session
  multi_session-refused r f = rw (f.2, f.3) (after_opening-refused true r.session _ f.4.0 f.4.1)

  next_delay-fresh :
      (base m : ℕ)
      → next_delay (new_backoff base m)
        ≡ (some (delay_of (new_backoff base m)), record (new_backoff base m) { attempt = 1 })
  unfolding next_delay is_exhausted new_backoff
  next_delay-fresh base m = ground arith

  rounds-refused :
      (base m : ℕ) (rounds : List MultiRound) (backoff : ReconnectBackoff)
      → reset backoff ≡ new_backoff base m
      → All FailsToOpen rounds
      → multi_rounds true rounds backoff ≡ (none, map (λ _. delay_of (new_backoff base m)) rounds)
  unfolding multi_rounds
  rounds-refused base m [] backoff h f = refl
  rounds-refused base m (r ∷ rounds) backoff h (f, fs) =
      rw
        (
          f.0,
          multi_session-refused r f,
          f.1,
          h,
          next_delay-fresh base m,
          rounds-refused base m rounds (record (new_backoff base m) { attempt = 1 })
              (unfold reset new_backoff in refl) fs,
        )
        refl

-- After a connection the client never gives up on refused tunnels: once a session of several tunnels
-- had a connection, sessions whose connection is made and whose tunnels are then refused are retried
-- without end, for any maximum of attempts, and every wait is the shortest one.
pub run_multi-never_gives_up :
    (b : Bincode) (std : Standard) (writes : SocketWrites) (v : Text) (cfgs : List TunnelConfig)
    (base max_attempts : ℕ) (first : MultiRound) (rest : List MultiRound) (e : ExposeError)
    → first.cancelled_before ≡ false
    → first.cancelled_after ≡ false
    → multi_session b std writes v false cfgs first.session ≡ some (SessionResult.reconnect e true)
    → All (FailsToOpen b std writes v cfgs) rest
    → run_multi b std writes v cfgs base max_attempts (first ∷ rest)
      ≡ (none, map (λ _. delay_of (new_backoff base max_attempts)) (first ∷ rest))
unfolding run_multi reset next_delay delay_of new_backoff
run_multi-never_gives_up b std writes v cfgs base m first rest e f g h fs =
    rw
      (
        f,
        h,
        g,
        next_delay-fresh b std writes v cfgs base m,
        rounds-refused b std writes v cfgs base m rest (record (new_backoff base m) { attempt = 1 })
            (unfold new_backoff in refl) fs,
      )
      refl
