-- ===== src/Tenancy/State.antt =====
-- The tables of modules/tenancy/models.py, and the context that a request runs under
-- (modules/tenancy/context.py).
use ragz.Prelude.{ℕ, Bool, true, false, ◌&&◌, Option, List, String, ◌==◌}
use ragz.Auth.State.{User, Organization, AuditEvent, Role, superadmin, admin, user}

-- The values that the table's CHECK constraint allows.
pub data MemberRole : Type 0 where
  owner manager contributor viewer : MemberRole

pub data TemplateStatus : Type 0 where
  draft active archived : TemplateStatus

-- A workspace, less the settings of its retrieval.
pub record Workspace : Type 0 where
  pub id : ℕ
  pub org_id : ℕ
  pub name : String
  pub embedding_model_id : ℕ
  pub default_model_id : Option ℕ

pub record WorkspaceMember : Type 0 where
  pub workspace_id : ℕ
  pub user_id : ℕ
  pub role : MemberRole

pub record Group : Type 0 where
  pub id : ℕ
  pub org_id : ℕ
  pub name : String

pub record UserGroup : Type 0 where
  pub group_id : ℕ
  pub user_id : ℕ

pub record RoleTemplate : Type 0 where
  pub id : ℕ
  pub name : String
  pub description : String
  pub permissions : List String
  pub status : TemplateStatus
  pub version : ℕ

pub record RoleTemplateVersion : Type 0 where
  pub role_template_id : ℕ
  pub version : ℕ
  pub permissions : List String

pub record TenancyDb : Type 0 where
  pub users : List User
  pub organizations : List Organization
  pub workspaces : List Workspace
  pub members : List WorkspaceMember
  pub groups : List Group
  pub user_groups : List UserGroup
  pub role_templates : List RoleTemplate
  pub role_template_versions : List RoleTemplateVersion
  pub audit : List AuditEvent

pub record TenantContext : Type 0 where
  pub user_id : ℕ
  pub org_id : ℕ
  pub role : Role
  pub workspace_ids : List ℕ
  pub group_ids : List ℕ
  pub permissions : List String

unfoldable pub is_user_tier : Role → Bool
is_user_tier user = true
is_user_tier _ = false

-- `role in ("admin", "superadmin")`
unfoldable pub is_admin_tier : Role → Bool
is_admin_tier user = false
is_admin_tier _ = true

unfoldable pub role_eq : Role → Role → Bool
role_eq superadmin superadmin = true
role_eq admin admin = true
role_eq user user = true
role_eq _ _ = false

unfoldable pub is_owner : MemberRole → Bool
is_owner owner = true
is_owner _ = false

unfoldable pub is_active_status : TemplateStatus → Bool
is_active_status active = true
is_active_status _ = false

unfoldable pub has_template_id : ℕ → RoleTemplate → Bool
has_template_id k t = t.id == k

-- The primary key of `workspace_members`.
unfoldable pub is_member_row : ℕ → ℕ → WorkspaceMember → Bool
is_member_row w u m = m.workspace_id == w && m.user_id == u

-- `Workspace.id == workspace_id, Workspace.org_id == ctx.org_id`
unfoldable pub is_workspace_in : ℕ → ℕ → Workspace → Bool
is_workspace_in w org ws = ws.id == w && ws.org_id == org

-- `User.id == user_id, User.org_id == ctx.org_id`
unfoldable pub is_user_in : ℕ → ℕ → User → Bool
is_user_in k org u = u.id == k && u.org_id == org

unfoldable pub is_group_in : ℕ → ℕ → Group → Bool
is_group_in g org group = group.id == g && group.org_id == org
