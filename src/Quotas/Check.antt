-- ===== src/Quotas/Check.antt =====
-- When a request is refused for its quota: modules/quotas/service.py, `check_quota`.
use ragz.Prelude.{ℕ, ◌≤◌, ◌≡◌, Bool, Option, none, some, ◌+◌, not, ◌&&◌, if◌then◌else◌}
use ragz.Quotas.Period.{DateTime, is_before, period_bounds}
use ragz.Quotas.Usage.{OrgQuota, UsageRecord}

-- An allocation that is there is used up.
abbrev pub IsSpent : ℕ → Option ℕ → Type 0
IsSpent used allocated = (a : ℕ) × (allocated ≡ some a) × (a ≤ used)

-- The start of the quota period that the time lies in; with no quota it starts on the first.
abbrev pub period_start : DateTime → Option OrgQuota → DateTime
period_start now none = (period_bounds now 1).0
period_start now (some q) = (period_bounds now q.reset_day).0

-- The tokens of a record that falls into the period.
abbrev pub charge : DateTime → Bool → UsageRecord → ℕ
charge start mine r =
    if not (is_before r.created_at start) && mine then r.prompt_tokens + r.completion_tokens else 0
