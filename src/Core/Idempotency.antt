-- ===== src/Core/Idempotency.antt =====
-- core/idempotency.py: claims of a delivery, so that a replay is told from the first.
use ragz.Prelude.{ℕ, Bool, true, false, none, some, String, leb, if◌then◌else◌}
use ragz.Core.Redis.{Redis}

module _ (redis : Redis) where
  open redis use {Store, get, set_nx, set_ex}

  unfoldable pub claim_once : String → ℕ → ℕ → Store → Bool × Store
  claim_once key ttl_seconds now s = set_nx key 1 ttl_seconds now s

  -- The script, which the server runs as one command.
  unfoldable pub claim_monotonic : String → ℕ → ℕ → ℕ → Store → Bool × Store
  claim_monotonic key value ttl_seconds now s = elim (get key now s) [
    | none ↦ (true, set_ex key value ttl_seconds now s)
    | some current ↦
        if leb value current then (false, s) else (true, set_ex key value ttl_seconds now s)
  ]
