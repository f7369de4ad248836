-- ===== src/Quotas/Usage.antt =====
-- modules/quotas/service.py: the usage ledger, the allocations and the check before a request.
-- Token counts are exact: the ratio of `_ratio` is compared as a fraction.
use ragz.Prelude.{
  ℕ, ◌+◌, ◌*◌, Bool, true, false, not, ◌&&◌, ◌||◌, Option, none, some, List, [], ◌∷◌, ◌++◌, map,
  Result, ok, err, not_found, quota_exceeded, String, leb, ◌==◌, if◌then◌else◌, find, any,
  update_where, delete_where, select_where, id_elem,
}
use ragz.Auth.State.{User, AuditEvent, AuditTarget, audit_event}
use ragz.Tenancy.State.{TenantContext, is_user_in}
use ragz.Quotas.Period.{DateTime, is_before, period_bounds}

pub record OrgQuota : Type 0 where
  pub org_id : ℕ
  pub monthly_tokens : ℕ
  pub default_user_monthly_tokens : Option ℕ
  pub reset_day : ℕ

pub record UserQuota : Type 0 where
  pub user_id : ℕ
  pub monthly_tokens : ℕ

pub record UsageRecord : Type 0 where
  pub org_id : ℕ
  pub user_id : ℕ
  pub workspace_id : Option ℕ
  pub model_id : Option ℕ
  pub feature : String
  pub prompt_tokens : ℕ
  pub completion_tokens : ℕ
  pub units : ℕ
  pub created_at : DateTime

pub record QuotaDb : Type 0 where
  pub users : List User
  pub org_quotas : List OrgQuota
  pub user_quotas : List UserQuota
  pub usage_records : List UsageRecord
  pub audit : List AuditEvent

unfoldable pub has_org : ℕ → OrgQuota → Bool
has_org k q = q.org_id == k

unfoldable pub has_user : ℕ → UserQuota → Bool
has_user k q = q.user_id == k

unfoldable pub record_usage : UsageRecord → QuotaDb → QuotaDb
record_usage r db = record db { usage_records = db.usage_records ++ (r ∷ []) }

-- `_TOKENS`
unfoldable pub tokens : UsageRecord → ℕ
tokens r = r.prompt_tokens + r.completion_tokens

-- An id that is given restricts a sum to its rows.
unfoldable pub matches : Option ℕ → ℕ → Bool
matches none k = true
matches (some j) k = k == j

unfoldable pub counts : DateTime → Option ℕ → Option ℕ → UsageRecord → Bool
unfolding matches
counts start org_id user_id r =
    not (is_before r.created_at start) && (matches org_id r.org_id && matches user_id r.user_id)

unfoldable pub sum_tokens : (UsageRecord → Bool) → List UsageRecord → ℕ
sum_tokens p [] = 0
sum_tokens p (r ∷ rs) = (if p r then tokens r else 0) + sum_tokens p rs

-- `_sum_since`
unfoldable pub sum_since : DateTime → Option ℕ → Option ℕ → QuotaDb → ℕ
sum_since start org_id user_id db = sum_tokens (counts start org_id user_id) db.usage_records

pub record UsageStatus : Type 0 where
  pub used_tokens : ℕ
  pub allocated_tokens : Option ℕ
  pub org_used_tokens : ℕ
  pub org_allocated_tokens : Option ℕ
  pub resets_at : DateTime
  pub warning : Bool
  pub blocked : Bool

-- `_ratio(u, a) >= _WARN_RATIO`: no allocation, and one of zero, count as a ratio of zero.
unfoldable pub is_warned : ℕ → Option ℕ → Bool
is_warned used none = false
is_warned used (some a) = if a == 0 then false else leb (4 * a) (5 * used)

-- `a is not None and u >= a`
unfoldable pub is_exhausted : ℕ → Option ℕ → Bool
is_exhausted used none = false
is_exhausted used (some a) = leb a used

unfoldable pub org_default : Option OrgQuota → Option ℕ
org_default none = none
org_default (some q) = q.default_user_monthly_tokens

unfoldable pub org_tokens : Option OrgQuota → Option ℕ
org_tokens none = none
org_tokens (some q) = some q.monthly_tokens

unfoldable pub org_reset_day : Option OrgQuota → ℕ
org_reset_day none = 1
org_reset_day (some q) = q.reset_day

-- A quota of the user's own comes before the organisation's default.
unfoldable pub allocation : Option UserQuota → Option OrgQuota → Option ℕ
unfolding org_default
allocation (some q) org = some q.monthly_tokens
allocation none org = org_default org

unfoldable pub status_of : ℕ → ℕ → Option UserQuota → Option OrgQuota → DateTime → UsageStatus
unfolding allocation org_tokens is_warned is_exhausted
status_of used org_used own org resets_at = record {
  used_tokens = used;
  allocated_tokens = allocation own org;
  org_used_tokens = org_used;
  org_allocated_tokens = org_tokens org;
  resets_at = resets_at;
  warning = is_warned used (allocation own org) || is_warned org_used (org_tokens org);
  blocked = is_exhausted used (allocation own org) || is_exhausted org_used (org_tokens org);
}

-- Without the cache, which is the call with `redis=None`.
unfoldable pub get_usage_status : DateTime → ℕ → ℕ → QuotaDb → UsageStatus
unfolding org_reset_day
get_usage_status now org_id user_id db =
    let org = find (has_org org_id) db.org_quotas in
    let (start, resets_at) = period_bounds now (org_reset_day org) in
    status_of (sum_since start none (some user_id) db) (sum_since start (some org_id) none db)
      (find (has_user user_id) db.user_quotas) org resets_at

-- The error carries the reset date.
unfoldable pub check_quota : DateTime → ℕ → ℕ → QuotaDb → Result (Unit {0})
check_quota now org_id user_id db =
    if (get_usage_status now org_id user_id db).blocked then err quota_exceeded else ok tt

unfoldable pub audit_quota : ℕ → TenantContext → String → ℕ → QuotaDb → QuotaDb
audit_quota org ctx action target db = record db {
  audit =
      db.audit ++ (audit_event (some org) (some ctx.user_id) action (AuditTarget.row target) ∷ []);
}

-- A row that is there is updated, one that is not is added.
unfoldable pub set_org_quota : TenantContext → OrgQuota → QuotaDb → QuotaDb
unfolding audit_quota
set_org_quota ctx q db = audit_quota q.org_id ctx "quota.org_set" q.org_id (record db {
  org_quotas =
      if any (has_org q.org_id) db.org_quotas
      then update_where (has_org q.org_id) (λ _. q) db.org_quotas
      else db.org_quotas ++ (q ∷ []);
})

unfoldable pub put_user_quota : UserQuota → List UserQuota → List UserQuota
put_user_quota q rows =
    if any (has_user q.user_id) rows
    then update_where (has_user q.user_id) (λ _. q) rows
    else rows ++ (q ∷ [])

-- No number takes the user's own quota away.
unfoldable pub change_user_quota : ℕ → Option ℕ → List UserQuota → List UserQuota
unfolding put_user_quota
change_user_quota user_id none rows = delete_where (has_user user_id) rows
change_user_quota user_id (some n) rows =
    put_user_quota (record { user_id = user_id; monthly_tokens = n }) rows

unfoldable pub set_user_quota : TenantContext → ℕ → Option ℕ → QuotaDb → Result (Unit {0}) × QuotaDb
unfolding change_user_quota audit_quota
set_user_quota ctx user_id monthly_tokens db =
    elim (find (is_user_in user_id ctx.org_id) db.users) [
      | none ↦ (err not_found, db)
      | some u ↦ (
        ok tt,
        audit_quota ctx.org_id ctx "quota.user_set" user_id
            (record db { user_quotas = change_user_quota user_id monthly_tokens db.user_quotas }),
      )
    ]

-- `overrides.get(uid, default_tokens)`; a user has one row, by the table's primary key.
unfoldable pub override_or : Option ℕ → List UserQuota → ℕ → Option ℕ
override_or default_tokens rows uid = elim (find (has_user uid) rows) [
  | none ↦ default_tokens
  | some q ↦ some q.monthly_tokens
]

unfoldable pub member_ids : ℕ → QuotaDb → List ℕ
member_ids org_id db = map (λ u. u.id) (select_where (λ u. u.org_id == org_id) db.users)

-- `org_member_effective_allocations`: each member beside the allocation in force.
unfoldable pub org_member_effective_allocations : ℕ → QuotaDb → List (ℕ × Option ℕ)
unfolding override_or member_ids
org_member_effective_allocations org_id db =
    let default_tokens = org_default (find (has_org org_id) db.org_quotas) in
    let ids = member_ids org_id db in
    let override_rows = select_where (λ q. id_elem q.user_id ids) db.user_quotas in
    map (λ uid. (uid, override_or default_tokens override_rows uid)) ids
