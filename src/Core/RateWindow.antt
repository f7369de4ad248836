-- ===== src/Core/RateWindow.antt =====
-- What the limiter of core/ratelimit.py lets through in one window.
use ragz.Prelude.{
  ℕ, ◌+◌, ◌-◌, ◌<◌, ◌≡◌, refl, ◌≢◌, min, true, none, some, List, [], ◌∷◌, String, is_ok, arith, ltb,
  leb, length, All, if◌then◌else◌, ◌∙◌, ◌||◌,
}
use native.Mathlib.Nat.{add_comm}
use ragz.Core.Redis.{Redis, alive, incremented, armed, count_of}
use ragz.Core.RateLimit.{
  hit, check_rate_limit, peek_rate_limit, record_failure, peek_daily_cap, record_daily_usage,
}

module _ (redis : Redis) where
  open redis use {
    Store, slot, get, get_lem, slot-incr, slot-incr_ne, incr_result, slot-expire_nx,
    slot-expire_nx_ne,
  }

  -- The calls of one caller at the given times, and how many were let through.
  pub calls : String → ℕ → ℕ → List ℕ → Store → ℕ × Store
  calls key limit window [] s = (0, s)
  calls key limit window (t ∷ ts) s =
      let (r, s') = check_rate_limit redis key limit window t s in
      let (n, s'') = calls key limit window ts s' in ((if is_ok r then 1 else 0) + n, s'')

  -- A hit counts one more on what is left of the slot, and arms a deadline where none is set.
  hit_result :
      (key : String) (window now : ℕ) (s : Store)
      → (hit redis key window now s).0 ≡ (incremented (alive now (slot key s))).0
  unfolding hit
  hit_result key window now s = incr_result key now s

  slot-hit :
      (key : String) (window now : ℕ) (s : Store)
      → slot key (hit redis key window now s).1
        ≡ armed (now + window) (alive now (some (incremented (alive now (slot key s)))))
  unfolding hit
  slot-hit key window now s = rw (slot-expire_nx, slot-incr)

  slot-hit_ne :
      (key other : String) (window now : ℕ) (s : Store)
      → other ≢ key
      → slot other (hit redis key window now s).1 ≡ slot other s
  unfolding hit
  slot-hit_ne key other window now s h =
      slot-expire_nx_ne key other window now _ h ∙ slot-incr_ne key other now s h

  -- Within a running window the calls are let through as long as the count is below the limit.
  calls_running :
      (key : String) (limit window deadline n : ℕ) (ts : List ℕ) (s : Store)
      → slot key s ≡ some (n, some deadline)
      → All (λ t. t < deadline) ts
      → ((calls key limit window ts s).0 ≡ min (length ts) (limit - n))
        × (slot key (calls key limit window ts s).1 ≡ some (n + length ts, some deadline))
  unfolding calls check_rate_limit
  calls_running key limit window deadline n [] s h lt = (omega arith, rw h (ground arith))
  calls_running key limit window deadline n (t ∷ ts) s h lt =
      let (k, s') = hit redis key window t s in
      let counted : k ≡ n + 1 = hit_result key window t s ∙ rw h (ground arith) in
      let next : slot key s' ≡ some (n + 1, some deadline) =
        slot-hit key window t s ∙ rw h (ground arith) in
      let ih = calls_running key limit window deadline (n + 1) ts s' next lt.1 in
      (ground (arith, ih.0, counted), ih.1 ∙ ground arith)

  -- In a window that opens with its first call, exactly the first `limit` calls are let through,
  -- however many follow before it closes.
  pub window_admits :
      (key : String) (limit window start : ℕ) (ts : List ℕ) (s : Store)
      → alive start (slot key s) ≡ none
      → All (λ t. t < start + window) ts
      → (calls key limit window (start ∷ ts) s).0 ≡ min (length ts + 1) limit
  unfolding calls check_rate_limit
  window_admits key limit window start ts s free lt =
      let (k, s') = hit redis key window start s in
      let counted : k ≡ 1 = hit_result key window start s ∙ rw free in
      let next : slot key s' ≡ some (1, some (start + window)) =
        slot-hit key window start s ∙ rw free in
      ground (arith, calls_running key limit window (start + window) 1 ts s' next lt, counted)

  -- The failed attempts of one caller at the given times.
  pub failures : String → ℕ → List ℕ → Store → Store
  failures key window [] s = s
  failures key window (t ∷ ts) s = failures key window ts (record_failure redis key window t s)

  failures_running :
      (key : String) (window deadline n : ℕ) (ts : List ℕ) (s : Store)
      → slot key s ≡ some (n, some deadline)
      → All (λ t. t < deadline) ts
      → slot key (failures key window ts s) ≡ some (n + length ts, some deadline)
  unfolding failures record_failure
  failures_running key window deadline n [] s h lt = rw h (ground arith)
  failures_running key window deadline n (t ∷ ts) s h lt =
      failures_running key window deadline (n + 1) ts (record_failure redis key window t s)
        (slot-hit key window t s ∙ rw h (ground arith)) lt.1
      ∙ ground arith

  peek_of_slot :
      (key : String) (limit deadline n now : ℕ) (s : Store)
      → slot key s ≡ some (n, some deadline)
      → is_ok (peek_rate_limit redis key limit now s)
        ≡ (if ltb now deadline then ltb n limit else true)
  unfolding peek_rate_limit
  peek_of_slot key limit deadline n now s h =
      let left : get key now s ≡ count_of (alive now (some (n, some deadline))) =
        get_lem key now s ∙ rw h in
      ground (arith, left)

  -- After failures that open a window and fall within it, the next attempt is let through exactly when
  -- there were fewer than `limit` of them or the window has closed.
  pub throttle_locks :
      (key : String) (limit window start now : ℕ) (ts : List ℕ) (s : Store)
      → alive start (slot key s) ≡ none
      → All (λ t. t < start + window) ts
      → is_ok (peek_rate_limit redis key limit now (failures key window (start ∷ ts) s))
        ≡ (if ltb now (start + window) then ltb (length ts + 1) limit else true)
  unfolding failures record_failure
  throttle_locks key limit window start now ts s free lt =
      peek_of_slot key limit (start + window) (1 + length ts) now _ (
        failures_running key window (start + window) 1 ts (record_failure redis key window start s)
          (slot-hit key window start s ∙ rw free) lt)
      ∙ rw (add_comm 1 (length ts))

  -- The uses of one caller at the given times.
  pub uses : String → ℕ → List ℕ → Store → Store
  uses key ttl [] s = s
  uses key ttl (t ∷ ts) s = uses key ttl ts (record_daily_usage redis key ttl t s)

  uses-eq-failures :
      (key : String) (ttl : ℕ) (ts : List ℕ) (s : Store) → uses key ttl ts s ≡ failures key ttl ts s
  unfolding uses failures record_failure record_daily_usage
  uses-eq-failures key ttl [] s = refl
  uses-eq-failures key ttl (t ∷ ts) s = uses-eq-failures key ttl ts _

  peek_daily_cap_of_slot :
      (key : String) (limit deadline n now : ℕ) (s : Store)
      → slot key s ≡ some (n, some deadline)
      → peek_daily_cap redis key limit now s ≡ (leb limit 0 || (leb deadline now || ltb n limit))
  unfolding peek_daily_cap
  peek_daily_cap_of_slot key limit deadline n now s h =
      let left : get key now s ≡ count_of (alive now (some (n, some deadline))) =
        get_lem key now s ∙ rw h in
      ground (arith, left)

  -- The daily cap lets a further use through exactly when fewer than `limit` uses were recorded since
  -- the counter began, or the counter has lapsed, or the cap is off.
  pub daily_cap_admits :
      (key : String) (limit ttl start now : ℕ) (ts : List ℕ) (s : Store)
      → alive start (slot key s) ≡ none
      → All (λ t. t < start + ttl) ts
      → peek_daily_cap redis key limit now (uses key ttl (start ∷ ts) s)
        ≡ (leb limit 0 || (leb (start + ttl) now || ltb (length ts + 1) limit))
  unfolding failures record_failure
  daily_cap_admits key limit ttl start now ts s free lt =
      rw (uses-eq-failures key ttl (start ∷ ts) s) (
        peek_daily_cap_of_slot key limit (start + ttl) (1 + length ts) now _ (
          failures_running key ttl (start + ttl) 1 ts (record_failure redis key ttl start s)
            (slot-hit key ttl start s ∙ rw free) lt)
        ∙ rw (add_comm 1 (length ts)))
