-- ===== src/Documents/Folders.antt =====
-- modules/documents/folders.py: the tree of a workspace's folders.
use ragz.Prelude.{
  ℕ, zero, suc, Bool, true, false, not, ◌&&◌, Option, none, some, List, [], ◌∷◌, ◌++◌, Result, ok,
  err, not_found, conflict, workspace_access_denied, ◌>>=◌, ◌>>◌, require, transaction, String,
  ◌==◌, if◌then◌else◌, find, any, update_where, id_elem, str_elem,
}
use ragz.Tenancy.State.{TenantContext, is_user_tier}
use ragz.Tenancy.Members.{get_workspace_checked}
use ragz.Documents.State.{Folder, DocDb, audit_row, has_folder_id, is_folder_in, is_sibling}

-- `_MAX_TREE_DEPTH`
abbrev pub max_tree_depth : ℕ
max_tree_depth = 1000

abbrev pub in_workspace : Option ℕ → ℕ → Bool
in_workspace none k = true
in_workspace (some w) k = k == w

unfoldable pub get_folder_checked : TenantContext → ℕ → Option ℕ → List Folder → Result Folder
get_folder_checked ctx folder_id workspace_id folders =
    elim (find (is_folder_in folder_id ctx.org_id) folders) [
      | none ↦ err not_found
      | some f ↦
          if is_user_tier ctx.role && not (id_elem f.workspace_id ctx.workspace_ids)
          then err workspace_access_denied
          else if not (in_workspace workspace_id f.workspace_id)
          then err not_found
          else ok f
    ]

-- `if parent_folder_id is not None: await get_folder_checked(…)`
unfoldable pub check_parent : TenantContext → Option ℕ → ℕ → List Folder → Result (Unit {0})
check_parent ctx none workspace_id folders = ok tt
check_parent ctx (some p) workspace_id folders = do
  f ← get_folder_checked ctx p (some workspace_id) folders
  ok tt

unfoldable pub new_folder : ℕ → TenantContext → ℕ → Option ℕ → String → Folder
new_folder id ctx workspace_id parent name = record {
  id = id;
  org_id = ctx.org_id;
  workspace_id = workspace_id;
  parent_folder_id = parent;
  name = name;
  created_by = ctx.user_id;
}

-- The INSERT of a folder, which the unique indexes refuse where the name is taken.
unfoldable pub insert_folder : Folder → DocDb → Result DocDb
insert_folder f db =
    if any (is_sibling f.workspace_id f.parent_folder_id f.name) db.folders
    then err conflict
    else ok (record db { folders = db.folders ++ (f ∷ []) })

unfoldable pub create_folder :
    ℕ → TenantContext → ℕ → String → Option ℕ → DocDb → Result Folder × DocDb
unfolding check_parent insert_folder new_folder audit_row
create_folder id ctx workspace_id name parent db = transaction db (do
  ws ← get_workspace_checked ctx workspace_id db.tenancy
  check_parent ctx parent ws.id db.folders
  let f = new_folder id ctx ws.id parent name
  inserted ← insert_folder f db
  ok (f, audit_row ctx "folder.created" id inserted))

-- One segment of a path: the folder of that name under the one before it, or a new one.
unfoldable pub ensure_segment :
    ℕ → TenantContext → ℕ → Option ℕ → String → DocDb → Result (Folder × DocDb)
unfolding insert_folder new_folder
ensure_segment id ctx workspace_id parent segment db =
    elim (find (is_sibling workspace_id parent segment) db.folders) [
      | some existing ↦ ok (existing, db)
      | none ↦ do
        let f = new_folder id ctx workspace_id parent segment
        inserted ← insert_folder f db
        ok (f, inserted)
    ]

-- The loop of `ensure_path` over the segments that are left; each draws its own id.
unfoldable pub ensure_segments :
    TenantContext → ℕ → Folder → List (ℕ × String) → DocDb → Result (Folder × DocDb)
unfolding ensure_segment
ensure_segments ctx workspace_id folder [] db = ok (folder, db)
ensure_segments ctx workspace_id folder ((id, segment) ∷ rest) db = do
  next ← ensure_segment id ctx workspace_id (some folder.id) segment db
  ensure_segments ctx workspace_id next.0 rest next.1

-- `ensure_path` on the segments of the path, with no writer beside it.
unfoldable pub ensure_path : TenantContext → ℕ → List (ℕ × String) → DocDb → Result Folder × DocDb
unfolding ensure_segment ensure_segments audit_row
ensure_path ctx workspace_id [] db =
    transaction db (do ws ← get_workspace_checked ctx workspace_id db.tenancy; err conflict)
ensure_path ctx workspace_id ((id, segment) ∷ rest) db = transaction db (do
  ws ← get_workspace_checked ctx workspace_id db.tenancy
  top ← ensure_segment id ctx ws.id none segment db
  last ← ensure_segments ctx ws.id top.0 rest top.1
  ok (last.0, audit_row ctx "folder.path_ensured" last.0.id last.1))

-- `select(Folder.parent_folder_id).where(Folder.id == current)`
unfoldable pub parent_of : List Folder → ℕ → Option ℕ
parent_of folders k = elim (find (has_folder_id k) folders) [
  | none ↦ none
  | some f ↦ f.parent_folder_id
]

-- The walk up of `_is_ancestor_or_self`, for as many rounds as are given.
unfoldable pub is_ancestor_or_self : ℕ → ℕ → Option ℕ → List Folder → Bool
is_ancestor_or_self zero candidate current folders = true
is_ancestor_or_self (suc rounds) candidate none folders = false
is_ancestor_or_self (suc rounds) candidate (some k) folders =
    if k == candidate
    then true
    else is_ancestor_or_self rounds candidate (parent_of folders k) folders

unfoldable pub is_other_sibling : Folder → Folder → Bool
is_other_sibling f g =
    not (has_folder_id f.id g) && is_sibling f.workspace_id f.parent_folder_id f.name g

-- The UPDATE of a folder's name and parent.
unfoldable pub flush_folder : Folder → DocDb → Result DocDb
unfolding is_other_sibling
flush_folder f db =
    if any (is_other_sibling f) db.folders
    then err conflict
    else ok (record db {
      folders =
          update_where (has_folder_id f.id)
            (λ g. record g { name = f.name; parent_folder_id = f.parent_folder_id }) db.folders;
    })

-- The part of `rename_or_move_folder` for a patch that has a parent. The query for the target
-- flushes the new name first.
unfoldable pub moved : TenantContext → Folder → Option ℕ → DocDb → Result DocDb
unfolding flush_folder
moved ctx folder none db = flush_folder (record folder { parent_folder_id = none }) db
moved ctx folder (some p) db = do
  require (not (p == folder.id)) conflict
  renamed ← flush_folder folder db
  target ← get_folder_checked ctx p (some folder.workspace_id) renamed.folders
  require (not (is_ancestor_or_self max_tree_depth folder.id (some target.id) renamed.folders))
      conflict
  flush_folder (record folder { parent_folder_id = some p }) renamed

abbrev pub new_name : Option String → List String → String → String
new_name none fields_set old = old
new_name (some name) fields_set old = if str_elem "name" fields_set then name else old

unfoldable pub rename_or_move_folder :
    TenantContext → ℕ → Option String → Option ℕ → List String → DocDb → Result (Unit {0}) × DocDb
unfolding moved flush_folder audit_row
rename_or_move_folder ctx folder_id name parent fields_set db = transaction db (do
  folder ← get_folder_checked ctx folder_id none db.folders
  let renamed = record folder { name = new_name name fields_set folder.name }
  written ←
      (if str_elem "parent_folder_id" fields_set
        then moved ctx renamed parent db
        else flush_folder renamed db)
  ok (tt, audit_row ctx "folder.updated" folder_id written))
