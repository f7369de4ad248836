-- ===== src/Tests/Quotas.antt =====
-- Runs of modules/quotas/service.py on one organisation's month.
use ragz.Prelude.{◌≡◌, refl, true, false, none, some, [], ◌∷◌, inl, is_ok, arith, map, find}
use ragz.Auth.State.{admin}
use ragz.Tenancy.State.{TenantContext, is_user_in}
use ragz.Quotas.Period.{DateTime, is_before, period_bounds, period_bounds_tile}
use ragz.Quotas.Usage.{
  QuotaDb, OrgQuota, UserQuota, UsageRecord, get_usage_status, check_quota, has_org, set_user_quota,
  org_member_effective_allocations, member_ids,
}
use ragz.Quotas.Mirror.{effective_allocations_agree}
use ragz.Tests.Auth.{alice}

-- The last day of February in a leap year, with a reset on the 31st.
abbrev today : DateTime
today = record { year = 2024; month = 2; day = 29; time = 10 }

abbrev usage : UsageRecord
usage = record {
  org_id = 1;
  user_id = 1;
  workspace_id = none;
  model_id = none;
  feature = "chat";
  prompt_tokens = 60;
  completion_tokens = 40;
  units = 0;
  created_at = today;
}

abbrev db : QuotaDb
db = record {
  users = alice ∷ [];
  org_quotas =
      record {
        org_id = 1;
        monthly_tokens = 1000;
        default_user_monthly_tokens = some 100;
        reset_day = 31;
      }
      ∷ [];
  user_quotas = [];
  usage_records = usage ∷ [];
  audit = [];
}

abbrev ctx : TenantContext
ctx = record {
  user_id = 2;
  org_id = 1;
  role = admin;
  workspace_ids = [];
  group_ids = [];
  permissions = [];
}

leap_reset : period_bounds today 31 ≡ (
  record { year = 2024; month = 2; day = 29; time = 0 },
  record { year = 2024; month = 3; day = 31; time = 0 },
)
unfolding period_bounds is_before ragz.Quotas.Period.clamped ragz.Quotas.Period.days_in_month
    ragz.Quotas.Period.next_month
leap_reset = refl

raised : is_ok (check_quota today 1 1 (set_user_quota ctx 1 (some 500) db).1) ≡ true
unfolding check_quota get_usage_status ragz.Quotas.Usage.status_of find set_user_quota is_user_in
    ragz.Prelude.any ragz.Quotas.Usage.has_user ragz.Quotas.Usage.sum_since
    ragz.Quotas.Usage.sum_tokens ragz.Quotas.Usage.counts is_before period_bounds
    ragz.Quotas.Period.clamped ragz.Quotas.Usage.has_org ragz.Quotas.Period.days_in_month
    ragz.Quotas.Usage.tokens
raised = refl

period_bounds_tile_example :
    let (start, resets_at) = period_bounds today 31 in
    (is_before today start ≡ false)
    × (is_before today resets_at ≡ true)
    × ((period_bounds resets_at 31).0 ≡ resets_at)
    × (period_bounds start 31 ≡ (start, resets_at))
period_bounds_tile_example =
    period_bounds_tile today 31
      (record { year_pos = omega arith; month_pos = omega arith; month_le = omega arith })
      (omega arith)

-- A record of another member, which counts for the organisation only.
abbrev next_usage : UsageRecord
next_usage = record usage { user_id = 2; prompt_tokens = 800; completion_tokens = 100 }

effective_allocations_agree_example :
    org_member_effective_allocations 1 db
    ≡ map (λ k. (k, (get_usage_status today 1 k db).allocated_tokens)) (member_ids 1 db)
effective_allocations_agree_example = effective_allocations_agree today 1 db
