-- ===== src/Core/RateLimit.antt =====
-- core/ratelimit.py: the fixed-window limiter, the failure throttle and the daily cap.
use ragz.Prelude.{
  ℕ, Bool, true, none, some, String, Result, ok, err, rate_limit_exceeded, ltb, leb, if◌then◌else◌,
}
use ragz.Core.Redis.{Redis}

module _ (redis : Redis) where
  open redis use {Store, get, incr, expire_nx}

  -- INCR and EXPIRE NX in one pipeline.
  unfoldable pub hit : String → ℕ → ℕ → Store → ℕ × Store
  hit key window now s = let (n, s') = incr key now s in (n, expire_nx key window now s')

  unfoldable pub check_rate_limit : String → ℕ → ℕ → ℕ → Store → Result (Unit {0}) × Store
  unfolding hit
  check_rate_limit key limit window now s =
      let (n, s') = hit key window now s in
      (if ltb limit n then err rate_limit_exceeded else ok tt, s')

  unfoldable pub peek_rate_limit : String → ℕ → ℕ → Store → Result (Unit {0})
  peek_rate_limit key limit now s = elim (get key now s) [
    | none ↦ ok tt
    | some n ↦ if leb limit n then err rate_limit_exceeded else ok tt
  ]

  unfoldable pub record_failure : String → ℕ → ℕ → Store → Store
  unfolding hit
  record_failure key window now s = (hit key window now s).1

  -- `limit <= 0` switches the cap off.
  unfoldable pub peek_daily_cap : String → ℕ → ℕ → Store → Bool
  peek_daily_cap key limit now s =
      if leb limit 0 then true else elim (get key now s) [ none ↦ true | some n ↦ ltb n limit ]

  unfoldable pub record_daily_usage : String → ℕ → ℕ → Store → Store
  unfolding hit
  record_daily_usage key ttl now s = (hit key ttl now s).1
