-- ===== src/Tenancy/Roles.antt =====
-- modules/tenancy/service.py: role templates, their versions and their assignment to users.
use ragz.Prelude.{
  is_ok, ℕ, ◌+◌, Bool, true, not, ◌&&◌, Option, none, some, List, [], ◌∷◌, ◌++◌, Result, ok, err,
  not_found, conflict, String, ltb, ◌==◌, is_id, if◌then◌else◌, find, select_where, any,
  update_where, delete_where, count_where, str_elem, str_eq,
}
use ragz.Auth.State.{AuditTarget, audit_event, User, is_superadmin}
use ragz.Tenancy.State.{
  TenancyDb, TenantContext, RoleTemplate, RoleTemplateVersion, draft, active, has_template_id,
  is_user_in, is_active_status,
}
use ragz.Tenancy.Permissions.{permissions}

unfoldable pub audit_template :
    Option ℕ → TenantContext → String → AuditTarget → TenancyDb → TenancyDb
audit_template org ctx action target db = record db {
  audit = db.audit ++ (audit_event org (some ctx.user_id) action target ∷ []);
}

-- `set(permissions) - PERMISSIONS` is empty.
unfoldable pub are_known : List String → Bool
are_known [] = true
are_known (p ∷ ps) = str_elem p permissions && are_known ps

-- `_check_known_permissions`
unfoldable pub check_known_permissions : List String → Result (Unit {0})
check_known_permissions ps = if are_known ps then ok tt else err conflict

-- The table's unique name refuses a second template of a name, which the API reports as a conflict.
unfoldable pub is_name_taken : ℕ → String → TenancyDb → Bool
is_name_taken k name db = any (λ t. str_eq t.name name && not (t.id == k)) db.role_templates

-- A template begins as a draft of version 1, under the new id `k`.
unfoldable pub new_template : ℕ → String → String → List String → RoleTemplate
new_template k name description ps = record {
  id = k;
  name = name;
  description = description;
  permissions = ps;
  status = draft;
  version = 1;
}

unfoldable pub create_role_template :
    TenantContext → ℕ → String → String → List String → TenancyDb → Result RoleTemplate × TenancyDb
unfolding check_known_permissions audit_template new_template is_name_taken
create_role_template ctx k name description ps db = elim (check_known_permissions ps) [
  | err e ↦ (err e, db)
  | ok _ ↦ if is_name_taken k name db then (err conflict, db) else (
    ok (new_template k name description ps),
    audit_template none ctx "role_template.created" (AuditTarget.row k) (record db {
      role_templates = db.role_templates ++ (new_template k name description ps ∷ []);
    }),
  )
]

unfoldable pub set_template : RoleTemplate → TenancyDb → TenancyDb
set_template t db = record db {
  role_templates = update_where (has_template_id t.id) (λ _. t) db.role_templates;
}

-- An argument that is not given leaves the field alone.
unfoldable pub edited :
    Option String → Option String → Option (List String) → RoleTemplate → RoleTemplate
edited name description ps t = record t {
  name = elim name [ none ↦ t.name | some n ↦ n ];
  description = elim description [ none ↦ t.description | some d ↦ d ];
  permissions = elim ps [ none ↦ t.permissions | some given ↦ given ];
}

check_given : Option (List String) → Result (Unit {0})
unfolding check_known_permissions
check_given none = ok tt
check_given (some ps) = check_known_permissions ps

unfoldable pub update_role_template :
    TenantContext
    → ℕ
    → Option String
    → Option String
    → Option (List String)
    → TenancyDb
    → Result RoleTemplate × TenancyDb
unfolding check_given set_template edited audit_template is_name_taken
update_role_template ctx k name description ps db =
    elim (find (has_template_id k) db.role_templates) [
      | none ↦ (err not_found, db)
      | some t ↦ elim (check_given ps) [
        | err e ↦ (err e, db)
        | ok _ ↦
            if is_name_taken k (edited name description ps t).name db then (err conflict, db) else (
              ok (edited name description ps t),
              audit_template none ctx "role_template.updated" (AuditTarget.row k)
                  (set_template (edited name description ps t) db),
            )
      ]
    ]

unfoldable pub snapshot : RoleTemplate → RoleTemplateVersion
snapshot t = record { role_template_id = t.id; version = t.version; permissions = t.permissions }

unfoldable pub activated : RoleTemplate → RoleTemplate
activated t = record t { status = active; version = t.version + 1 }

-- A snapshot of what is activated is added to the history.
unfoldable pub activate : TenantContext → RoleTemplate → TenancyDb → TenancyDb
unfolding set_template audit_template snapshot activated
activate ctx t db =
    audit_template none ctx "role_template.activated" (AuditTarget.pair t.id (t.version + 1)) (
      set_template (activated t) (record db {
        role_template_versions = db.role_template_versions ++ (snapshot (activated t) ∷ []);
      }))

-- A template has one row of a version, by the table's unique key.
unfoldable pub has_version : ℕ → ℕ → TenancyDb → Bool
has_version k n db = any (λ v. v.role_template_id == k && v.version == n) db.role_template_versions

unfoldable pub activate_role_template :
    TenantContext → ℕ → TenancyDb → Result RoleTemplate × TenancyDb
unfolding activate has_version
activate_role_template ctx k db = elim (find (has_template_id k) db.role_templates) [
  | none ↦ (err not_found, db)
  | some t ↦
      if has_version t.id (t.version + 1) db
      then (err conflict, db)
      else (ok (activated t), activate ctx t db)
]

-- `order_by(version.desc())`
unfoldable pub insert_desc :
    RoleTemplateVersion → List RoleTemplateVersion → List RoleTemplateVersion
insert_desc v [] = v ∷ []
insert_desc v (w ∷ ws) = if ltb v.version w.version then w ∷ insert_desc v ws else v ∷ w ∷ ws

unfoldable pub sort_desc : List RoleTemplateVersion → List RoleTemplateVersion
unfolding insert_desc
sort_desc [] = []
sort_desc (v ∷ vs) = insert_desc v (sort_desc vs)

-- The history of a template, newest first; the query reads its first two rows.
unfoldable pub history : ℕ → TenancyDb → List RoleTemplateVersion
unfolding sort_desc
history k db = sort_desc (select_where (λ v. v.role_template_id == k) db.role_template_versions)

-- The second row of the history, if it has two.
unfoldable pub previous_version : List RoleTemplateVersion → Option RoleTemplateVersion
previous_version (_ ∷ v ∷ _) = some v
previous_version _ = none

-- An error rolls the session back to `db`.
unfoldable pub keep_if_ok :
    TenancyDb → Result RoleTemplate × TenancyDb → Result RoleTemplate × TenancyDb
keep_if_ok db (r, after) = (r, if is_ok r then after else db)

unfoldable pub rollback_role_template :
    TenantContext → ℕ → TenancyDb → Result RoleTemplate × TenancyDb
unfolding set_template previous_version keep_if_ok
rollback_role_template ctx k db = elim (find (has_template_id k) db.role_templates) [
  | none ↦ (err not_found, db)
  | some t ↦ elim (previous_version (history k db)) [
    | none ↦ (err conflict, db)
    | some v ↦
        keep_if_ok db (
          activate_role_template ctx k (set_template (record t { permissions = v.permissions }) db))
  ]
]

unfoldable pub role_template_impact : ℕ → TenancyDb → ℕ
role_template_impact k db = count_where (λ u. is_id u.custom_role_id k) db.users

unfoldable pub delete_role_template : TenantContext → ℕ → TenancyDb → Result (Unit {0}) × TenancyDb
unfolding audit_template
delete_role_template ctx k db = elim (find (has_template_id k) db.role_templates) [
  | none ↦ (err not_found, db)
  | some t ↦ if any (λ u. is_id u.custom_role_id k) db.users then (err conflict, db) else (
    ok tt,
    audit_template none ctx "role_template.deleted" (AuditTarget.row k) (record db {
      role_templates = delete_where (has_template_id k) db.role_templates;
      role_template_versions =
          delete_where (λ v. v.role_template_id == k) db.role_template_versions;
    }),
  )
]

unfoldable pub set_custom_role : Option ℕ → User → User
set_custom_role k u = record u { custom_role_id = k }

assign : TenantContext → ℕ → Option ℕ → String → TenancyDb → TenancyDb
unfolding audit_template set_custom_role
assign ctx user_id k action db =
    audit_template (some ctx.org_id) ctx action (AuditTarget.row user_id) (record db {
      users = update_where (is_user_in user_id ctx.org_id) (set_custom_role k) db.users;
    })

assign_template : TenantContext → ℕ → Option ℕ → TenancyDb → Result (Unit {0}) × TenancyDb
unfolding assign
assign_template ctx user_id none db = (ok tt, assign ctx user_id none "user.custom_role_cleared" db)
assign_template ctx user_id (some k) db = elim (find (has_template_id k) db.role_templates) [
  | none ↦ (err not_found, db)
  | some t ↦
      if not (is_active_status t.status)
      then (err conflict, db)
      else (ok tt, assign ctx user_id (some k) "user.custom_role_assigned" db)
]

unfoldable pub assign_custom_role :
    TenantContext → ℕ → Option ℕ → TenancyDb → Result (Unit {0}) × TenancyDb
unfolding assign_template
assign_custom_role ctx user_id k db = elim (find (is_user_in user_id ctx.org_id) db.users) [
  | none ↦ (err not_found, db)
  | some u ↦ if is_superadmin u.role then (err not_found, db) else assign_template ctx user_id k db
]
