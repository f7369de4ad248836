-- ===== src/Documents/Subtree.antt =====
-- modules/documents/folders.py: the folders below a folder, and the deletion of a folder with them.
use ragz.Prelude.{
  ℕ, zero, suc, ◌-◌, Bool, false, not, ◌&&◌, Option, none, some, List, [], ◌∷◌, ◌++◌, map, Result,
  ok, workspace_access_denied, ◌>>=◌, ◌>>◌, require, transaction, ◌==◌, select_where, any,
  update_where, delete_where, count_where, id_elem, length,
}
use ragz.Tenancy.State.{TenantContext}
use ragz.Outbox.{OutboxEvent, publish}
use ragz.Documents.State.{Folder, Document, DocDb, DocumentStatus, audit_row}
use ragz.Documents.Folders.{max_tree_depth, get_folder_checked}
use ragz.Documents.Reading.{user_can_access_document}

-- A nullable column `IN` a list of ids.
abbrev pub is_among : Option ℕ → List ℕ → Bool
is_among none ids = false
is_among (some k) ids = id_elem k ids

-- `Folder.parent_folder_id.in_(frontier), Folder.workspace_id == workspace_id`
unfoldable pub is_child : List ℕ → ℕ → Folder → Bool
is_child frontier workspace_id f =
    is_among f.parent_folder_id frontier && f.workspace_id == workspace_id

unfoldable pub children : List ℕ → ℕ → List Folder → List ℕ
unfolding is_child
children frontier workspace_id folders =
    map (λ f. f.id) (select_where (is_child frontier workspace_id) folders)

-- The rounds of the walk that are left, from the frontier that it has come to. Nothing has an empty
-- frontier for its parents, so the rounds after a `break` would add nothing.
unfoldable pub descendants : ℕ → List ℕ → ℕ → List Folder → List ℕ
unfolding children
descendants zero frontier workspace_id folders = []
descendants (suc rounds) frontier workspace_id folders =
    let rows = children frontier workspace_id folders in
    rows ++ descendants rounds rows workspace_id folders

unfoldable pub collect_subtree_folder_ids : ℕ → ℕ → List Folder → List ℕ
unfolding descendants
collect_subtree_folder_ids folder_id workspace_id folders =
    folder_id ∷ descendants max_tree_depth (folder_id ∷ []) workspace_id folders

-- `Document.folder_id.in_(folder_ids), Document.workspace_id == workspace_id`
unfoldable pub is_filed_in : List ℕ → ℕ → Document → Bool
is_filed_in folder_ids workspace_id d =
    is_among d.folder_id folder_ids && d.workspace_id == workspace_id

unfoldable pub count_subtree : TenantContext → ℕ → DocDb → Result (ℕ × ℕ)
unfolding collect_subtree_folder_ids is_filed_in
count_subtree ctx folder_id db = do
  folder ← get_folder_checked ctx folder_id none db.folders
  let ids = collect_subtree_folder_ids folder.id folder.workspace_id db.folders
  ok (count_where (is_filed_in ids folder.workspace_id) db.documents, length ids - 1)

-- `doc.status = "deleting"` and who asked for it.
unfoldable pub set_deleting : ℕ → Document → Document
set_deleting user_id d = record d { status = DocumentStatus.deleting; deleted_by = some user_id }

-- One event for each document, whose id is its payload; `fresh` draws the id of the event.
unfoldable pub publish_deletes :
    (fresh : ℕ → ℕ) → ℕ → List Document → List OutboxEvent → List OutboxEvent
publish_deletes fresh now [] outbox = outbox
publish_deletes fresh now (d ∷ ds) outbox =
    publish_deletes fresh now ds
      (publish (fresh d.id) now "documents.delete" d.id "interactive" outbox)

-- ON DELETE CASCADE of a folder's parent, and ON DELETE SET NULL of a document's folder. `gone`
-- answers which folders the database takes with one that is deleted.
abbrev pub loses_folder : (ℕ → Bool) → Document → Bool
loses_folder gone d = elim d.folder_id [ none ↦ false | some j ↦ gone j ]

unfoldable pub drop_folder : (gone : ℕ → Bool) → DocDb → DocDb
drop_folder gone db = record db {
  folders = delete_where (λ f. gone f.id) db.folders;
  documents = update_where (loses_folder gone) (λ d. record d { folder_id = none }) db.documents;
}

unfoldable pub delete_folder :
    (gone : List Folder → ℕ → ℕ → Bool) (fresh : ℕ → ℕ)
    → ℕ
    → TenantContext
    → ℕ
    → DocDb
    → Result (List ℕ) × DocDb
unfolding collect_subtree_folder_ids is_filed_in set_deleting publish_deletes drop_folder audit_row
delete_folder gone fresh now ctx folder_id db = transaction db (do
  folder ← get_folder_checked ctx folder_id none db.folders
  let ids = collect_subtree_folder_ids folder.id folder.workspace_id db.folders
  let filed = is_filed_in ids folder.workspace_id
  let docs = select_where filed db.documents
  require (not (any (λ d. not (user_can_access_document ctx d)) docs)) workspace_access_denied
  let flipped = record db {
    documents = update_where filed (set_deleting ctx.user_id) db.documents;
    outbox = publish_deletes fresh now docs db.outbox;
  }
  ok (
    map (λ d. d.id) docs,
    audit_row ctx "folder.deleted" folder_id (drop_folder (gone db.folders folder.id) flipped),
  ))
