-- ===== src/Outbox/Backoff.antt =====
-- The retry delay of modules/outbox/service.py.
use ragz.Prelude.{ℕ, ◌+◌, ◌≤◌, ◌≡◌, arith, String, leb}
use ragz.Outbox.{OutboxEvent, backoff, mark_failed, is_due, is_pending, pending}

-- The delay never shrinks from one retry to the next, and stays between five seconds and half an
-- hour: the cap of an hour is never reached.
backoff_bounds : (m n : ℕ) → m ≤ n → (5 ≤ backoff m) × (backoff m ≤ backoff n) × (backoff n ≤ 1800)
unfolding backoff
backoff_bounds m n h = (ground arith, ground arith, ground arith)

-- A failed send leaves the event pending, counts the attempt, and makes it due again exactly after the
-- delay of that attempt, which is half an hour at most.
pub mark_failed_retries :
    (clip : String → String) (now later : ℕ) (error : String) (e : OutboxEvent)
    → e.status ≡ pending
    → let e' = mark_failed clip now error e in
      (is_due later e' ≡ leb (now + backoff e'.attempts) later)
      × (e'.attempts ≡ e.attempts + 1)
      × (backoff e'.attempts ≤ 1800)
unfolding mark_failed is_due is_pending
mark_failed_retries clip now later error e h =
    (ground arith, ground arith, (backoff_bounds 0 (e.attempts + 1) (omega arith)).2)
