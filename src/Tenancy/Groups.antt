-- ===== src/Tenancy/Groups.antt =====
-- modules/tenancy/service.py: groups and their members.
use ragz.Prelude.{
  ℕ, Bool, ◌&&◌, ◌||◌, none, some, [], ◌∷◌, ◌++◌, Result, ok, err, not_found, conflict, String,
  ◌==◌, str_eq, if◌then◌else◌, find, any, delete_where,
}
use ragz.Auth.State.{AuditTarget, audit_event}
use ragz.Tenancy.State.{TenancyDb, TenantContext, Group, UserGroup, is_group_in, is_user_in}

unfoldable pub audit_group : TenantContext → String → AuditTarget → TenancyDb → TenancyDb
audit_group ctx action target db = record db {
  audit = db.audit ++ (audit_event (some ctx.org_id) (some ctx.user_id) action target ∷ []);
}

unfoldable pub has_group_id : ℕ → Group → Bool
has_group_id g group = group.id == g

-- A membership in the group, and the primary key of `user_groups`.
unfoldable pub is_in_group : ℕ → UserGroup → Bool
is_in_group g row = row.group_id == g

unfoldable pub is_group_row : ℕ → ℕ → UserGroup → Bool
is_group_row g u row = row.group_id == g && row.user_id == u

-- `_org_group`
unfoldable pub org_group : TenantContext → ℕ → TenancyDb → Result Group
org_group ctx group_id db = elim (find (is_group_in group_id ctx.org_id) db.groups) [
  | none ↦ err not_found
  | some g ↦ ok g
]

-- The primary key, and the unique name in an organisation, refuse a row, which the API reports as a
-- conflict.
unfoldable pub create_group : TenantContext → ℕ → String → TenancyDb → Result Group × TenancyDb
unfolding audit_group
create_group ctx k name db =
    let group : Group = record { id = k; org_id = ctx.org_id; name = name } in
    if any (λ g. g.id == k || (g.org_id == ctx.org_id && str_eq g.name name)) db.groups
    then (err conflict, db)
    else (
      ok group,
      audit_group ctx "group.created" (AuditTarget.row k)
          (record db { groups = db.groups ++ (group ∷ []) }),
    )

-- The memberships go with the group, by the foreign key's cascade.
unfoldable pub delete_group : TenantContext → ℕ → TenancyDb → Result (Unit {0}) × TenancyDb
unfolding org_group audit_group has_group_id is_in_group
delete_group ctx group_id db = elim (org_group ctx group_id db) [
  | err e ↦ (err e, db)
  | ok g ↦ (
    ok tt,
    audit_group ctx "group.deleted" (AuditTarget.row group_id) (record db {
      groups = delete_where (has_group_id g.id) db.groups;
      user_groups = delete_where (is_in_group g.id) db.user_groups;
    }),
  )
]

unfoldable pub add_group_member : TenantContext → ℕ → ℕ → TenancyDb → Result (Unit {0}) × TenancyDb
unfolding org_group audit_group is_group_row
add_group_member ctx group_id user_id db = elim (org_group ctx group_id db) [
  | err e ↦ (err e, db)
  | ok _ ↦ elim (find (is_user_in user_id ctx.org_id) db.users) [
    | none ↦ (err not_found, db)
    | some _ ↦ if any (is_group_row group_id user_id) db.user_groups then (err conflict, db) else (
      ok tt,
      audit_group ctx "group.member_added" (AuditTarget.pair group_id user_id) (record db {
        user_groups = db.user_groups ++ (record { group_id = group_id; user_id = user_id } ∷ []);
      }),
    )
  ]
]

unfoldable pub remove_group_member :
    TenantContext → ℕ → ℕ → TenancyDb → Result (Unit {0}) × TenancyDb
unfolding org_group audit_group is_group_row
remove_group_member ctx group_id user_id db = elim (org_group ctx group_id db) [
  | err e ↦ (err e, db)
  | ok _ ↦ (
    ok tt,
    audit_group ctx "group.member_removed" (AuditTarget.pair group_id user_id)
        (record db { user_groups = delete_where (is_group_row group_id user_id) db.user_groups }),
  )
]
