-- ===== src/Tenancy/Context.antt =====
-- modules/tenancy/context.py: from the claims of an access token, or the user behind an API key or a
-- bot, to the context of the request, and the guards of the routes.
use ragz.Prelude.{
  ℕ, not, ◌&&◌, Option, none, some, List, [], ◌∷◌, ◌++◌, map, Result, ok, err, authentication,
  authorization, String, leb, ◌==◌, if◌then◌else◌, find, select_where, any, str_elem,
}
use ragz.Auth.State.{User, Claims, AuditEvent, AuditTarget, Role, has_user_id, is_superadmin}
use ragz.Tenancy.State.{
  TenancyDb, TenantContext, is_admin_tier, role_eq, has_template_id, is_member_row,
}
use ragz.Tenancy.Permissions.{permissions, default_user_permissions, automatic_carve_outs, without}

-- The permissions of an administrator: the catalogue less the carve-outs, and what a template adds.
unfoldable pub admin_permissions : Option ℕ → TenancyDb → List String
admin_permissions none db = without permissions automatic_carve_outs
admin_permissions (some k) db = elim (find (has_template_id k) db.role_templates) [
  | none ↦ without permissions automatic_carve_outs
  | some t ↦ without permissions automatic_carve_outs ++ t.permissions
]

-- Those of a user: the template's, nothing at all where it is gone, and the floor with no template.
unfoldable pub user_permissions : Option ℕ → TenancyDb → List String
user_permissions none db = default_user_permissions
user_permissions (some k) db = elim (find (has_template_id k) db.role_templates) [
  | none ↦ []
  | some t ↦ t.permissions
]

unfoldable pub member_workspaces : ℕ → TenancyDb → List ℕ
member_workspaces user_id db =
    map (λ m. m.workspace_id) (select_where (λ m. m.user_id == user_id) db.members)

unfoldable pub build_context_for_user : User → Option (List ℕ) → TenancyDb → TenantContext
unfolding admin_permissions user_permissions member_workspaces
build_context_for_user u workspace_ids db = record {
  user_id = u.id;
  org_id = u.org_id;
  role = u.role;
  workspace_ids = elim workspace_ids [ none ↦ member_workspaces u.id db | some given ↦ given ];
  group_ids = map (λ g. g.group_id) (select_where (λ g. g.user_id == u.id) db.user_groups);
  permissions =
      if is_admin_tier u.role
      then admin_permissions u.custom_role_id db
      else user_permissions u.custom_role_id db;
}

unfoldable pub build_verified_principal_context : User → ℕ → TenancyDb → Result TenantContext
build_verified_principal_context u workspace_id db =
    if not (any (is_member_row workspace_id u.id) db.members)
    then err authentication
    else let ctx = build_context_for_user u (some (workspace_id ∷ [])) db in
      if not (str_elem "chat.generate" ctx.permissions) && not (is_superadmin ctx.role)
      then err authentication
      else ok ctx

-- `decode_access_token`: an expired token is refused.
unfoldable pub decode_access_token : ℕ → Claims → Result Claims
decode_access_token now claims = if leb claims.exp now then err authentication else ok claims

context_of_claims : Claims → TenancyDb → Result TenantContext
context_of_claims claims db = elim (find (has_user_id claims.user_id) db.users) [
  | none ↦ err authentication
  | some u ↦
      if not u.active
      then err authentication
      else if not (claims.sv == u.security_version)
      then err authentication
      else ok (build_context_for_user u none db)
]

unfoldable pub get_tenant_context : ℕ → Option Claims → TenancyDb → Result TenantContext
unfolding context_of_claims decode_access_token
get_tenant_context now none db = err authentication
get_tenant_context now (some claims) db = elim (decode_access_token now claims) [
  | err e ↦ err e
  | ok checked ↦ context_of_claims checked db
]

-- The guard of `require_role(*roles)`.
unfoldable pub require_role : List Role → TenantContext → Result TenantContext
require_role roles ctx =
    if not (is_superadmin ctx.role) && not (any (role_eq ctx.role) roles)
    then err authorization
    else ok ctx

-- The audit row of a denial.
unfoldable pub denial : String → TenantContext → AuditEvent
denial action ctx = record {
  org_id = some ctx.org_id;
  actor_id = some ctx.user_id;
  action = action;
  target = AuditTarget.text action;
  result = "denied";
}

-- The guard of `require_action(action)`; a denial is written to the audit trail.
unfoldable pub require_action :
    String → TenantContext → TenancyDb → Result TenantContext × TenancyDb
require_action action ctx db =
    if not (is_superadmin ctx.role) && not (str_elem action ctx.permissions)
    then (err authorization, record db { audit = db.audit ++ (denial action ctx ∷ []) })
    else (ok ctx, db)
