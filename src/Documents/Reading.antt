-- ===== src/Documents/Reading.antt =====
-- modules/documents/service.py: who may read a document.
use ragz.Prelude.{
  ℕ, Bool, true, false, not, ◌&&◌, ◌||◌, none, some, List, Result, ok, err, not_found,
  workspace_access_denied, ◌==◌, if◌then◌else◌, find, any, id_elem, str_elem,
}
use ragz.Tenancy.State.{TenantContext, is_user_tier}
use ragz.Documents.State.{Document, is_document_in, is_active_index, is_indexed}

-- `bool(set(acl_group_ids) & ctx.group_ids)`
unfoldable pub meets : List ℕ → List ℕ → Bool
meets xs ys = any (λ x. id_elem x ys) xs

unfoldable pub user_can_access_document : TenantContext → Document → Bool
unfolding meets
user_can_access_document ctx doc =
    if is_user_tier ctx.role
    then if not (id_elem doc.workspace_id ctx.workspace_ids)
      then false
      else elim doc.acl_group_ids [ none ↦ true | some groups ↦ meets groups ctx.group_ids ]
    else elim doc.acl_group_ids [
      | none ↦ true
      | some groups ↦ str_elem "documents.acl.bypass" ctx.permissions || meets groups ctx.group_ids
    ]

unfoldable pub get_document_checked : TenantContext → ℕ → List Document → Result Document
get_document_checked ctx document_id documents =
    elim (find (is_document_in document_id ctx.org_id) documents) [
      | none ↦ err not_found
      | some doc ↦
          if not (user_can_access_document ctx doc) then err workspace_access_denied else ok doc
    ]

-- `has_indexed_documents`
unfoldable pub has_indexed_documents : TenantContext → ℕ → List Document → Bool
has_indexed_documents ctx workspace_id documents =
    any (λ d. d.org_id == ctx.org_id && d.workspace_id == workspace_id && is_indexed d.status)
      documents

unfoldable pub is_unprojected : ℕ → ℕ → Document → Bool
is_unprojected org workspace_id d =
    d.org_id == org && d.workspace_id == workspace_id && not (is_active_index d.index_state)

-- `unprojected_document_ids`, as the test that the set answers.
unfoldable pub unprojected : ℕ → ℕ → List Document → ℕ → Bool
unfolding is_unprojected
unprojected org workspace_id documents k =
    any (λ d. is_unprojected org workspace_id d && d.id == k) documents
