-- ===== src/Tests/Tenancy.antt =====
-- Runs of modules/tenancy on one organisation.
use ragz.Prelude.{
  id_elem, select_where, ◌≡◌, ℕ, refl, ◌+◌, ◌==◌, ◌&&◌, not, none, some, List, [], ◌∷◌, Option,
  String, err, ok, authentication, conflict, is_ok, find, arith, str_elem,
}
use ragz.Auth.State.{User, AuthDb, Claims, has_user_id}
use ragz.Auth.Refresh.{issue_access_token}
use ragz.Auth.Passwords.{set_password, change_password}
use ragz.Tenancy.State.{
  Group, UserGroup, is_group_in, is_user_in, TenancyDb, TenantContext, Workspace, WorkspaceMember,
  MemberRole, RoleTemplate, RoleTemplateVersion, has_template_id, owner, viewer, contributor,
  active, is_admin_tier,
}
use ragz.Tenancy.Permissions.{automatic_carve_outs}
use ragz.Tenancy.Context.{build_context_for_user, get_tenant_context}
use ragz.Tenancy.Access.{FromTemplate, carve_out_needs_template}
use ragz.Tenancy.Tokens.{password_change_ends_tokens}
use ragz.Tenancy.MemberRows.{HasOwner, IsKeyed}
use ragz.Tenancy.Members.{remove_member}
use ragz.Tenancy.Owners.{Request, add, change, remove, serve_all, serve_all-HasOwner}
use ragz.Tenancy.Groups.{has_group_id, is_in_group}
use ragz.Tenancy.GroupIsolation.{delete, serve_group, serve_group_stays_home}
use ragz.Tenancy.Roles.{rollback_role_template, history}
use ragz.Tenancy.Versions.{HasHistory, rollback_twice}
use ragz.Tests.Auth.{alice, crypto, settings}
use ragz.Tests.Auth

abbrev admin_user : User
admin_user = record alice { id = 2; role = ragz.Auth.State.admin }

-- The template of `auditor` exists, that of `orphan` is gone.
abbrev auditor : User
auditor = record alice { id = 3; custom_role_id = some 5 }

abbrev orphan : User
orphan = record alice { id = 4; custom_role_id = some 6 }

abbrev template : RoleTemplate
template = record {
  id = 5;
  name = "auditor";
  description = "";
  permissions = "audit.read" ∷ [];
  status = active;
  version = 3;
}

abbrev version : ℕ → List String → RoleTemplateVersion
version n ps = record { role_template_id = 5; version = n; permissions = ps }

abbrev member : ℕ → MemberRole → WorkspaceMember
member k role = record { workspace_id = 20; user_id = k; role = role }

abbrev pub db : TenancyDb
db = record {
  users = alice ∷ admin_user ∷ auditor ∷ orphan ∷ [];
  organizations = [];
  workspaces =
      record {
        id = 20;
        org_id = 1;
        name = "legal";
        embedding_model_id = 1;
        default_model_id = none;
      }
      ∷ [];
  members = member 1 owner ∷ member 3 viewer ∷ [];
  groups = [];
  user_groups = [];
  role_templates = template ∷ [];
  role_template_versions = version 2 ("chat.read" ∷ []) ∷ version 3 ("audit.read" ∷ []) ∷ [];
  audit = [];
}

abbrev pub ctx : TenantContext
ctx = build_context_for_user admin_user none db

-- The only owner cannot be removed, and not demoted.
last_owner_stays : (remove_member ctx 20 1 db).0 ≡ err conflict
unfolding remove_member ragz.Tenancy.Members.get_workspace_checked find
    ragz.Tenancy.State.is_workspace_in build_context_for_user ragz.Tenancy.State.is_user_tier
    ragz.Prelude.any ragz.Tenancy.State.is_member_row ragz.Prelude.select_where
    ragz.Tenancy.State.is_owner
last_owner_stays = refl

carve_out_needs_template_example : FromTemplate "audit.read" auditor db
unfolding build_context_for_user str_elem automatic_carve_outs ragz.Tenancy.State.is_admin_tier find
    has_template_id
carve_out_needs_template_example = carve_out_needs_template "audit.read" auditor none db refl refl

abbrev changed_users : List User
changed_users = (change_password crypto 500 1 99 77 Auth.db).1.users

abbrev after_change : TenancyDb
after_change = record db { users = changed_users }

password_change_ends_tokens_example :
    let u' = set_password 78 alice in
    (get_tenant_context 600 (some (issue_access_token settings 450 alice)) after_change
      ≡ err authentication)
    × (get_tenant_context 600 (some (issue_access_token settings 500 u')) after_change
        ≡ ok (build_context_for_user u' none after_change))
unfolding find has_user_id issue_access_token
password_change_ends_tokens_example =
    password_change_ends_tokens crypto settings 500 600 99 77
      (issue_access_token settings 450 alice) alice Auth.db after_change refl refl refl refl
      (omega arith) refl (omega arith)

abbrev requests : List Request
requests = change ctx 20 1 viewer ∷ add ctx 20 2 owner ∷ remove ctx 20 1 ∷ remove ctx 20 2 ∷ []

serve_all-HasOwner_example :
    IsKeyed (serve_all requests db).members × HasOwner 20 (serve_all requests db)
unfolding ragz.Prelude.any ragz.Tenancy.State.is_member_row ragz.Tenancy.State.is_owner
serve_all-HasOwner_example = serve_all-HasOwner 20 requests db (refl, (refl, tt)) refl

template-HasHistory :
    HasHistory 5 template (version 3 ("audit.read" ∷ []) ∷ version 2 ("chat.read" ∷ []) ∷ []) db
unfolding find has_template_id history ragz.Prelude.select_where
template-HasHistory = record {
  found = refl;
  versions = refl;
  versioned = (λ _. omega arith, (λ _. omega arith, tt));
}

rollback_twice_example :
    let (_, db') = rollback_role_template ctx 5 db in
    let (_, db'') = rollback_role_template ctx 5 db' in
    (t' t'' : RoleTemplate) × (find (has_template_id 5) db'.role_templates ≡ some t')
    × (t'.permissions ≡ "chat.read" ∷ [])
    × (find (has_template_id 5) db''.role_templates ≡ some t'')
    × (t''.permissions ≡ "audit.read" ∷ [])
    × (t''.version ≡ 5)
rollback_twice_example =
    rollback_twice ctx 5 template (version 3 ("audit.read" ∷ [])) (version 2 ("chat.read" ∷ [])) []
      db template-HasHistory

-- The group of this organisation, and one of another.
abbrev staff : Group
staff = record { id = 50; org_id = 1; name = "staff" }

abbrev guests : Group
guests = record { id = 51; org_id = 9; name = "guests" }

abbrev grouped : TenancyDb
grouped = record db {
  groups = staff ∷ guests ∷ [];
  user_groups = record { group_id = 51; user_id = 1 } ∷ [];
}

serve_group_stays_home_example :
    let db' = serve_group ctx (delete 51) grouped in
    (find (has_group_id 51) db'.groups ≡ some guests)
    × (select_where (is_in_group 51) db'.user_groups
        ≡ select_where (is_in_group 51) grouped.user_groups)
unfolding find has_group_id
serve_group_stays_home_example =
    serve_group_stays_home ctx (delete 51) 51 guests grouped (refl, (refl, tt)) refl
      (λ h. unfold build_context_for_user in ground arith)
