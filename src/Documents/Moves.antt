-- ===== src/Documents/Moves.antt =====
-- modules/documents/folders.py: a folder that is renamed or moved, and one that is deleted.
use ragz.Prelude.{
  ℕ, ◌≡◌, refl, sym, ◌∙◌, Bool, false, not, Option, none, some, List, String, ◌==◌, str_elem,
  select_where, any, if◌then◌else◌, arith, inl, inr, Bool-cases, Option-cases, Result-cases, find,
  ==_iff, ==-refl, ok,
}
use ragz.Tenancy.State.{TenantContext}
use ragz.Documents.State.{Folder, DocDb, has_folder_id, audit_row}
use ragz.Documents.Folders.{
  parent_of, is_ancestor_or_self, get_folder_checked, flush_folder, moved, max_tree_depth,
  rename_or_move_folder, new_name,
}
use ragz.Documents.Subtree.{delete_folder, drop_folder, collect_subtree_folder_ids, is_filed_in}
use ragz.Documents.Reading.{user_can_access_document}
use ragz.Documents.FolderRows.{
  find_folder_row, find_folder-flush, find_folder-id, flushed, rewritten, parent_of_found,
}
use ragz.Documents.Forest.{
  IsForest, IsAdopted, Cascades, flush-IsForest, delete-IsForest, renamed-Rooted, unrelated-Rooted,
  parent_of-flush, Rooted,
}
use ragz.Documents.Tree.{get_folder_checked_row}

flush_folder_lem :
    (f : Folder) (db : DocDb) {after : DocDb}
    → flush_folder f db ≡ ok after
    → after.folders ≡ flushed f db.folders
unfolding flush_folder
flush_folder_lem f db h = ground arith

-- A row that is written back under another name keeps its place.
rename-IsForest :
    (folder : Folder) (name : String) (fs : List Folder)
    → find (has_folder_id folder.id) fs ≡ some folder
    → IsForest fs
    → IsForest (flushed (record folder { name = name }) fs)
rename-IsForest folder name fs found forest =
    let f = record folder { name = name } in
    let same : (j : ℕ) → parent_of (flushed f fs) j ≡ parent_of fs j =
      λ j. parent_of-flush f fs forest folder found refl j ∙ keeps j in
    flush-IsForest f fs forest folder found refl adopted
      (renamed-Rooted fs (flushed f fs) same (rooted_at folder.parent_folder_id))
  where
    keeps :
        (j : ℕ)
        → (if j == folder.id then folder.parent_folder_id else parent_of fs j) ≡ parent_of fs j
    keeps j = elim (Bool-cases (j == folder.id)) [
      | inl e ↦
          let at : j ≡ folder.id = (==_iff j folder.id).0 e in
          rw e (rw at (sym (parent_of_found folder.id fs found)))
      | inr e ↦ rw e refl
    ]

    rooted_at : (o : Option ℕ) → Rooted fs o
    rooted_at none = Rooted.root
    rooted_at (some p) = forest.rooted p

    adopted : IsAdopted fs folder.workspace_id folder.parent_folder_id
    adopted = elim (Option-cases folder.parent_folder_id) [
      | inl e ↦ rw e tt
      | inr (p, e) ↦ rw e (forest.home folder.id p folder found e)
    ]

find_folder-flushed :
    (f folder : Folder) (fs : List Folder)
    → find (has_folder_id f.id) fs ≡ some folder
    → find (has_folder_id f.id) (flushed f fs) ≡ some (rewritten f folder)
find_folder-flushed f folder fs found = find_folder-flush f fs f.id ∙ rw (==-refl f.id, found) refl

moved-IsForest :
    (ctx : TenantContext) (folder : Folder) (name : String) (parent : Option ℕ) (db : DocDb)
    {after : DocDb}
    → find (has_folder_id folder.id) db.folders ≡ some folder
    → IsForest db.folders
    → moved ctx (record folder { name = name }) parent db ≡ ok after
    → IsForest after.folders
unfolding moved
moved-IsForest ctx folder name none db {after} found forest h =
    let f = record folder { name = name; parent_folder_id = none } in
    rw (flush_folder_lem f db h)
      (flush-IsForest f db.folders forest folder found refl tt Rooted.root)
moved-IsForest ctx folder name (some p) db {after} found forest h =
    let f = record folder { name = name } in
    elim (Result-cases (flush_folder f db)) [
      | inr (_, e) ↦ absurd (ground (arith, e))
      | inl (next, e) ↦
          let rows = flush_folder_lem f db e in
          let forest' : IsForest next.folders =
            rw rows (rename-IsForest folder name db.folders found forest) in
          let found' : find (has_folder_id folder.id) next.folders ≡ some f =
            rw rows (find_folder-flushed f folder db.folders found) in
          elim (Result-cases (get_folder_checked ctx p (some folder.workspace_id) next.folders)) [
            | inr (_, e') ↦ absurd (ground (arith, e, e'))
            | inl (target, e') ↦
                let (there, at) =
                  get_folder_checked_row ctx p (some folder.workspace_id) next.folders forest'.keyed
                    e' in
                let at_p : target.id ≡ p = find_folder-id p next.folders there in
                let last = record f { parent_folder_id = some p } in
                let apart : is_ancestor_or_self max_tree_depth folder.id (some p) next.folders
                    ≡ false =
                  rw (← at_p) (ground (arith, e, e')) in
                let written : flush_folder last next ≡ ok after = ground (arith, e, e') in
                rw (flush_folder_lem last next written) (
                  flush-IsForest last next.folders forest' f found' refl
                    (target, there, (==_iff target.workspace_id folder.workspace_id).0 at)
                    (unrelated-Rooted last next.folders forest' f found' refl max_tree_depth
                      (some p) apart))
          ]
    ]

-- An audit row leaves the folders alone.
audited-folders :
    (ctx : TenantContext) (action : String) (id : ℕ) (db : DocDb)
    → (audit_row ctx action id db).folders ≡ db.folders
unfolding audit_row
audited-folders ctx action id db = refl

pub rename_or_move_folder-IsForest :
    (ctx : TenantContext) (folder_id : ℕ) (name : Option String) (parent : Option ℕ)
    (fields_set : List String) (db : DocDb)
    → IsForest db.folders
    → IsForest (rename_or_move_folder ctx folder_id name parent fields_set db).1.folders
unfolding rename_or_move_folder
rename_or_move_folder-IsForest ctx folder_id name parent fields_set db forest =
    elim (Result-cases (get_folder_checked ctx folder_id none db.folders)) [
      | inr (_, e) ↦ rw e forest
      | inl (folder, e) ↦
          let (row, _) = get_folder_checked_row ctx folder_id none db.folders forest.keyed e in
          let found : find (has_folder_id folder.id) db.folders ≡ some folder =
            find_folder_row (has_folder_id folder_id) db.folders forest.keyed row in
          let f = record folder { name = new_name name fields_set folder.name } in
          elim (Bool-cases (str_elem "parent_folder_id" fields_set)) [
            | inl moves ↦ elim (Result-cases (moved ctx f parent db)) [
              | inr (_, e') ↦ rw (e, moves, e') forest
              | inl (after, e') ↦
                  rw (e, moves, e') (moved-IsForest ctx folder f.name parent db found forest e')
            ]
            | inr stays ↦ elim (Result-cases (flush_folder f db)) [
              | inr (_, e') ↦ rw (e, stays, e') forest
              | inl (after, e') ↦
                  rw (e, stays, e', flush_folder_lem f db e')
                    (rename-IsForest folder f.name db.folders found forest)
            ]
          ]
    ]

pub delete_folder-IsForest :
    (gone : List Folder → ℕ → ℕ → Bool) (fresh : ℕ → ℕ) (now : ℕ) (ctx : TenantContext)
    (folder_id : ℕ) (db : DocDb)
    → Cascades (gone db.folders folder_id) db.folders folder_id
    → IsForest db.folders
    → IsForest (delete_folder gone fresh now ctx folder_id db).1.folders
unfolding delete_folder drop_folder
delete_folder-IsForest gone fresh now ctx folder_id db cascades forest =
    elim (Result-cases (get_folder_checked ctx folder_id none db.folders)) [
      | inr (_, e) ↦ rw e forest
      | inl (folder, e) ↦
          let (row, _) = get_folder_checked_row ctx folder_id none db.folders forest.keyed e in
          let at : folder.id ≡ folder_id = find_folder-id folder_id db.folders row in
          let ids = collect_subtree_folder_ids folder.id folder.workspace_id db.folders in
          let docs = select_where (is_filed_in ids folder.workspace_id) db.documents in
          elim (Bool-cases (any (λ d. not (user_can_access_document ctx d)) docs)) [
            | inl refused ↦ rw (e, refused) forest
            | inr allowed ↦
                rw (e, allowed, at)
                  (delete-IsForest (gone db.folders folder_id) folder_id db.folders forest cascades)
          ]
    ]
