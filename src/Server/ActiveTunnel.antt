-- ===== src/Server/ActiveTunnel.antt =====
-- expose-server/src/tunnel_manager.rs: `ActiveTunnel` and its rate limit. The token bucket of the
-- governor library is a parameter.
use expose.Prelude.{
  ℕ, suc, ◌+◌, ◌^◌, ◌<◌, ◌≡◌, refl, List, [], ◌∷◌, Option, none, some, ok, err, max, arith,
  wrapping_add, wrapping_add-small, length,
}
use expose.Prelude.Text.{Text, Bytes}
use expose.Common.Types.{TunnelProtocol}
use expose.Common.Error.{ExposeError, Fallible}

-- `RateLimiter::direct` and `check`: a refusal says how many seconds to wait.
pub record Governor (L : Type 0) : Type 0 where
  pub direct : (per_minute burst : ℕ) → L
  pub check : (now : ℕ) → L → L × Option ℕ

pub record ActiveTunnel (L : Type 0) : Type 0 where
  pub id : ℕ
  pub subdomain : Text
  pub protocol : TunnelProtocol
  pub sender : ℕ
  pub rate_limiter : L
  pub requests_forwarded : ℕ
  pub rate_limit_hits : ℕ
  pub rate_limit_per_minute : ℕ
  pub rate_limit_burst : ℕ
  pub api_key_hash : Option Bytes

module _ {L : Type 0} where
  -- The outcome of `check_rate_limit`, by the bucket's answer.
  unfoldable pub record_check : ActiveTunnel L → L → Option ℕ → Fallible (Unit {0}) × ActiveTunnel L
  record_check t limiter none = (
    ok tt,
    record t { rate_limiter = limiter; requests_forwarded = wrapping_add t.requests_forwarded 1 },
  )
  record_check t limiter (some wait) = (
    err (ExposeError.rate_limited (max wait 1)),
    record t { rate_limiter = limiter; rate_limit_hits = wrapping_add t.rate_limit_hits 1 },
  )

  unfoldable pub check_rate_limit :
      Governor L → (now : ℕ) → ActiveTunnel L → Fallible (Unit {0}) × ActiveTunnel L
  unfolding record_check
  check_rate_limit g now t =
      let (limiter, refused) = g.check now t.rate_limiter in record_check t limiter refused

  -- The tunnel after a check at each of the times, with the requests that were let through.
  unfoldable pub checks : Governor L → List ℕ → ActiveTunnel L → ℕ × ActiveTunnel L
  checks g [] t = (0, t)
  checks g (now ∷ times) t =
      let (answer, t') = check_rate_limit g now t in
      let (passed, last) = checks g times t' in
      (elim answer [ ok _ ↦ suc passed | err _ ↦ passed ], last)

  -- Over any row of checks, the two counters of a tunnel grow by the requests let through and by
  -- the requests refused: together by the number of checks, none counted twice. No counter
  -- reaches 2^64.
  pub checks_accounted :
      (g : Governor L) (times : List ℕ) (t : ActiveTunnel L)
      → t.requests_forwarded + t.rate_limit_hits + length times < 2 ^ 64
      → let (passed, last) = checks g times t in
        (last.requests_forwarded ≡ t.requests_forwarded + passed)
        × (last.requests_forwarded + last.rate_limit_hits
            ≡ t.requests_forwarded + t.rate_limit_hits + length times)
        × (last.id ≡ t.id)
        × (last.subdomain ≡ t.subdomain)
  unfolding checks check_rate_limit
  checks_accounted g [] t h = (omega arith, omega arith, refl, refl)
  checks_accounted g (now ∷ times) t h =
      let t' = (check_rate_limit g now t).1 in
      ground (
        arith,
        checks_accounted g times t',
        wrapping_add-small t.requests_forwarded 1,
        wrapping_add-small t.rate_limit_hits 1,
      )
