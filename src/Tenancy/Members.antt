-- ===== src/Tenancy/Members.antt =====
-- modules/tenancy/service.py: workspaces and their members.
use ragz.Prelude.{
  ℕ, Bool, false, not, ◌&&◌, ◌||◌, none, some, List, [], ◌∷◌, ◌++◌, Result, ok, err, not_found,
  conflict, workspace_access_denied, String, ◌==◌, if◌then◌else◌, find, select_where, any,
  update_where, delete_where, id_elem, map,
}
use ragz.Auth.State.{AuditTarget, audit_event}
use ragz.Tenancy.State.{
  TenancyDb, TenantContext, Workspace, WorkspaceMember, MemberRole, is_owner, is_user_tier,
  is_member_row, is_workspace_in, is_user_in,
}

-- `record_audit` for an act of the caller on a member row.
unfoldable pub audit_member : TenantContext → String → ℕ → ℕ → TenancyDb → TenancyDb
audit_member ctx action workspace_id user_id db = record db {
  audit =
      db.audit
      ++ (audit_event (some ctx.org_id) (some ctx.user_id) action
            (AuditTarget.pair workspace_id user_id)
          ∷ []);
}

-- The one gate to a workspace: the same denial for another organisation and for a non-member.
unfoldable pub get_workspace_checked : TenantContext → ℕ → TenancyDb → Result Workspace
get_workspace_checked ctx workspace_id db =
    elim (find (is_workspace_in workspace_id ctx.org_id) db.workspaces) [
      | none ↦ err workspace_access_denied
      | some ws ↦
          if is_user_tier ctx.role && not (id_elem workspace_id ctx.workspace_ids)
          then err workspace_access_denied
          else ok ws
    ]

-- Without the order by name.
unfoldable pub list_workspaces : TenantContext → TenancyDb → List Workspace
list_workspaces ctx db =
    select_where
      (λ ws.
        ws.org_id == ctx.org_id && (not (is_user_tier ctx.role) || id_elem ws.id ctx.workspace_ids))
      db.workspaces

unfoldable pub owners : ℕ → TenancyDb → List ℕ
owners workspace_id db =
    map (λ m. m.user_id)
      (select_where (λ m. m.workspace_id == workspace_id && is_owner m.role) db.members)

-- `list(owners) == [user_id]`
unfoldable pub is_singleton : ℕ → List ℕ → Bool
is_singleton k [] = false
is_singleton k (j ∷ []) = j == k
is_singleton k (_ ∷ _) = false

unfoldable pub is_last_owner : ℕ → ℕ → TenancyDb → Bool
unfolding owners is_singleton
is_last_owner workspace_id user_id db = is_singleton user_id (owners workspace_id db)

-- The primary key refuses a second row for the same pair, which the API reports as a conflict.
unfoldable pub add_member :
    TenantContext → ℕ → ℕ → MemberRole → TenancyDb → Result (Unit {0}) × TenancyDb
unfolding audit_member
add_member ctx workspace_id user_id role db =
    elim (find (is_workspace_in workspace_id ctx.org_id) db.workspaces) [
      | none ↦ (err not_found, db)
      | some _ ↦ elim (find (is_user_in user_id ctx.org_id) db.users) [
        | none ↦ (err not_found, db)
        | some _ ↦
            if any (is_member_row workspace_id user_id) db.members then (err conflict, db) else (
              ok tt,
              audit_member ctx "workspace.member_added" workspace_id user_id (record db {
                members =
                    db.members
                    ++ (record { workspace_id = workspace_id; user_id = user_id; role = role }
                        ∷ []);
              }),
            )
      ]
    ]

unfoldable pub set_member_role : MemberRole → WorkspaceMember → WorkspaceMember
set_member_role role m = record m { role = role }

unfoldable pub change_member_role :
    TenantContext → ℕ → ℕ → MemberRole → TenancyDb → Result (Unit {0}) × TenancyDb
unfolding audit_member is_last_owner
change_member_role ctx workspace_id user_id role db =
    elim (get_workspace_checked ctx workspace_id db) [
      | err e ↦ (err e, db)
      | ok _ ↦
          if not (any (is_member_row workspace_id user_id) db.members)
          then (err not_found, db)
          else if not (is_owner role) && is_last_owner workspace_id user_id db
          then (err conflict, db)
          else (
            ok tt,
            audit_member ctx "workspace.member_role_changed" workspace_id user_id (record db {
              members =
                  update_where (is_member_row workspace_id user_id) (set_member_role role)
                    db.members;
            }),
          )
    ]

unfoldable pub remove_member : TenantContext → ℕ → ℕ → TenancyDb → Result (Unit {0}) × TenancyDb
unfolding audit_member is_last_owner
remove_member ctx workspace_id user_id db = elim (get_workspace_checked ctx workspace_id db) [
  | err e ↦ (err e, db)
  | ok _ ↦
      if not (any (is_member_row workspace_id user_id) db.members)
      then (err not_found, db)
      else if is_last_owner workspace_id user_id db
      then (err conflict, db)
      else (
        ok tt,
        audit_member ctx "workspace.member_removed" workspace_id user_id
            (record db { members = delete_where (is_member_row workspace_id user_id) db.members }),
      )
]
