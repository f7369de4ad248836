-- ===== src/Documents/Cascade.antt =====
-- modules/documents/folders.py: what the deletion of a folder does to the documents below it.
use mathlib.Core.List.{append_assoc, append-nil}
use ragz.Prelude.{
  ℕ, zero, suc, ◌≡◌, refl, sym, ◌∙◌, ap, Bool, true, false, not, none, some, List, ◌==◌, arith, inl,
  inr, Bool-cases, Option-cases, Result-cases, find, select_where, update_where, any, ==_iff, map,
  [], ◌∷◌, ◌++◌, All, All-map, ok, select_where_cong, update_where_cong, update_where-update_where,
  All-of_any-false,
}
use mathlib.Core.Path.{fun_ext}
use ragz.Tenancy.State.{TenantContext}
use ragz.Outbox.{OutboxEvent, Status, publish}
use ragz.Documents.State.{Folder, Document, DocumentStatus, DocDb, has_folder_id, audit_row}
use ragz.Documents.Folders.{max_tree_depth, get_folder_checked}
use ragz.Documents.Reading.{user_can_access_document}
use ragz.Documents.Subtree.{
  is_filed_in, set_deleting, publish_deletes, loses_folder, drop_folder, delete_folder,
  collect_subtree_folder_ids,
}
use ragz.Documents.Forest.{IsForest}
use ragz.Documents.Tree.{get_folder_checked_row}
use ragz.Documents.FolderRows.{find_folder-id, parent_of_found}
use ragz.Documents.Descent.{is_below, collect_subtree-is_below}

-- A document's folder is there and in the document's workspace.
abbrev pub IsFiled : List Folder → Document → Type 0
IsFiled fs d = elim d.folder_id [
  | none ↦ Unit
  | some j ↦ (f : Folder) × (find (has_folder_id j) fs ≡ some f) × (f.workspace_id ≡ d.workspace_id)
]

-- Is the document in the folder, or in one below it?
abbrev pub lies_below : ℕ → List Folder → Document → Bool
lies_below k fs d = loses_folder (is_below max_tree_depth k fs) d

module _ (fs : List Folder) (forest : IsForest fs) where
  open forest use {home}

  -- Folders above one another are of one workspace.
  is_below_workspace :
      (n k j : ℕ) (top f : Folder)
      → find (has_folder_id k) fs ≡ some top
      → find (has_folder_id j) fs ≡ some f
      → is_below n k fs j ≡ true
      → f.workspace_id ≡ top.workspace_id
  unfolding is_below
  is_below_workspace zero k j top f at_k at_j h =
      ground (arith, at_k, rw ((==_iff j k).0 h) at at_j)
  is_below_workspace (suc n) k j top f at_k at_j h = elim (Bool-cases (j == k)) [
    | inl e ↦ ground (arith, at_k, rw ((==_iff j k).0 e) at at_j)
    | inr e ↦ elim (Option-cases f.parent_folder_id) [
      | inl e' ↦ absurd (ground (arith, parent_of_found j fs at_j))
      | inr (p, e') ↦
          let (g, at_p, same) = home j p f at_j e' in
          sym same
          ∙ is_below_workspace n k p top g at_k at_p (ground (arith, parent_of_found j fs at_j))
    ]
  ]

  filed_at :
      (d : Document) (j : ℕ)
      → d.folder_id ≡ some j
      → IsFiled fs d
      → (f : Folder) × (find (has_folder_id j) fs ≡ some f) × (f.workspace_id ≡ d.workspace_id)
  filed_at d j e filed = rw e at filed

  is_filed_in-lies_below :
      (k : ℕ) (top : Folder) (d : Document)
      → find (has_folder_id k) fs ≡ some top
      → IsFiled fs d
      → is_filed_in (collect_subtree_folder_ids k top.workspace_id fs) top.workspace_id d
        ≡ lies_below k fs d
  unfolding is_filed_in
  is_filed_in-lies_below k top d at_k filed = elim (Option-cases d.folder_id) [
    | inl e ↦ ground (arith, e)
    | inr (j, e) ↦
        let (f, at_j, same) = filed_at d j e filed in
        let ids = collect_subtree_folder_ids k top.workspace_id fs in
        elim (Bool-cases (is_below max_tree_depth k fs j)) [
          | inl below ↦
              let near = is_below_workspace max_tree_depth k j top f at_k at_j below in
              ground (
                arith,
                e,
                below,
                collect_subtree-is_below top.workspace_id fs forest k j f at_j near,
                same,
                near,
              )
          | inr other ↦ elim (Bool-cases (d.workspace_id == top.workspace_id)) [
            | inl here ↦
                let near = same ∙ (==_iff d.workspace_id top.workspace_id).0 here in
                ground (
                  arith,
                  e,
                  other,
                  collect_subtree-is_below top.workspace_id fs forest k j f at_j near,
                )
            | inr away ↦ ground (arith, e, other, away)
          ]
        ]
  ]

-- The document after the deletion: marked as deleting, by the caller, and in no folder.
abbrev pub after_deletion : TenantContext → Document → Document
after_deletion ctx d = record d {
  status = DocumentStatus.deleting;
  deleted_by = some ctx.user_id;
  folder_id = none;
}

-- The event that asks for a document's points and row to be deleted.
abbrev pub deletion_event : (ℕ → ℕ) → ℕ → Document → OutboxEvent
deletion_event fresh now d = record {
  id = fresh d.id;
  topic = "documents.delete";
  payload = d.id;
  queue = "interactive";
  status = Status.pending;
  attempts = 0;
  last_error = none;
  available_at = now;
  dispatched_at = none;
}

publish_deletes_appends :
    (fresh : ℕ → ℕ) (now : ℕ) (ds : List Document) (outbox : List OutboxEvent)
    → publish_deletes fresh now ds outbox ≡ outbox ++ map (deletion_event fresh now) ds
unfolding publish_deletes publish
publish_deletes_appends fresh now [] outbox = sym (append-nil outbox)
publish_deletes_appends fresh now (d ∷ ds) outbox =
    publish_deletes_appends fresh now ds (outbox ++ (deletion_event fresh now d ∷ []))
    ∙ append_assoc outbox (deletion_event fresh now d ∷ []) (map (deletion_event fresh now) ds)

not-eq-false : (b : Bool) → not b ≡ false → b ≡ true
not-eq-false true h = refl
not-eq-false false h = absurd (ground arith)

-- ON DELETE SET NULL, for the folders that are gone.
abbrev unfiled : (ℕ → Bool) → List Document → List Document
unfiled gone = update_where (loses_folder gone) (λ d. record d { folder_id = none })

-- The test by which the walk down finds the documents.
abbrev found_below : Folder → List Folder → Document → Bool
found_below top fs =
    is_filed_in (collect_subtree_folder_ids top.id top.workspace_id fs) top.workspace_id

delete_folder_found :
    (gone : List Folder → ℕ → ℕ → Bool) (fresh : ℕ → ℕ) (now : ℕ) (ctx : TenantContext) (k : ℕ)
    (db after : DocDb) (ids : List ℕ) (top : Folder)
    → get_folder_checked ctx k none db.folders ≡ ok top
    → delete_folder gone fresh now ctx k db ≡ (ok ids, after)
    → (update_where
          (loses_folder (gone db.folders top.id))
          (λ d. record d { folder_id = none })
          (update_where (found_below top db.folders) (set_deleting ctx.user_id) db.documents)
        ≡ after.documents)
      × (ids ≡ map (λ d. d.id) (select_where (found_below top db.folders) db.documents))
      × (after.outbox
          ≡ publish_deletes fresh now
              (select_where (found_below top db.folders) db.documents)
              db.outbox)
      × (any
            (λ d. not (user_can_access_document ctx d))
            (select_where (found_below top db.folders) db.documents)
          ≡ false)
unfolding delete_folder drop_folder audit_row
delete_folder_found gone fresh now ctx k db after ids top e h =
    elim (Bool-cases (
      any (λ d. not (user_can_access_document ctx d))
        (select_where (found_below top db.folders) db.documents))) [
          | inl refused ↦ absurd (ground (arith, e, refused))
          | inr allowed ↦ (
            ground (arith, e, allowed),
            ground (arith, e, allowed),
            ground (arith, e, allowed),
            allowed,
          )
        ]

-- In a forest whose documents are filed in folders of their own workspace, and where the cascade
-- takes the folders that are at most `_MAX_TREE_DEPTH` below: a deletion that succeeds marks exactly
-- the documents in the folder and below it as deleting, by the caller, and returns their ids; it
-- adds to the outbox one pending event for each of them, due at once; every other document is as it was; and there is none among
-- them that the caller may not open.
pub delete_folder_effect :
    (gone : List Folder → ℕ → ℕ → Bool) (fresh : ℕ → ℕ) (now : ℕ) (ctx : TenantContext) (k : ℕ)
    (db after : DocDb) (ids : List ℕ)
    → IsForest db.folders
    → All (IsFiled db.folders) db.documents
    → ((j : ℕ) → gone db.folders k j ≡ is_below max_tree_depth k db.folders j)
    → delete_folder gone fresh now ctx k db ≡ (ok ids, after)
    → (after.documents ≡ update_where (lies_below k db.folders) (after_deletion ctx) db.documents)
      × (ids ≡ map (λ d. d.id) (select_where (lies_below k db.folders) db.documents))
      × (after.outbox
          ≡ db.outbox
            ++ map (deletion_event fresh now) (select_where (lies_below k db.folders) db.documents))
      × All
          (λ d. lies_below k db.folders d ≡ true → user_can_access_document ctx d ≡ true)
          db.documents
unfolding delete_folder drop_folder audit_row set_deleting
delete_folder_effect gone fresh now ctx k db after ids forest filed deep h =
    elim (Result-cases (get_folder_checked ctx k none db.folders)) [
      | inr (_, e) ↦ absurd (ground (arith, e))
      | inl (top, e) ↦
          let (at_k, _) = get_folder_checked_row ctx k none db.folders forest.keyed e in
          let same_k : top.id ≡ k = find_folder-id k db.folders at_k in
          let (written, listed, sent, allowed) =
            delete_folder_found gone fresh now ctx k db after ids top e h in
          let agree : All (λ d. found_below top db.folders d ≡ lies_below k db.folders d)
              db.documents =
            rw same_k (
              All-map (IsFiled db.folders)
                (λ d. found_below (record top { id = k }) db.folders d ≡ lies_below k db.folders d)
                db.documents (λ d. is_filed_in-lies_below db.folders forest k top d at_k) filed) in
          let chosen =
            select_where_cong (found_below top db.folders) (lies_below k db.folders) db.documents
              agree in
          let deleted =
            update_where (lies_below k db.folders) (set_deleting ctx.user_id) db.documents in
          (
            sym written
                ∙ ap (λ (ds : List Document). unfiled (gone db.folders top.id) ds)
                    (update_where_cong (found_below top db.folders) (lies_below k db.folders)
                      (set_deleting ctx.user_id) db.documents agree)
                ∙ ap (λ (g : ℕ → Bool). unfiled g deleted)
                    (ap (gone db.folders) same_k ∙ fun_ext deep)
                ∙ update_where-update_where (lies_below k db.folders) (set_deleting ctx.user_id)
                    (λ d. record d { folder_id = none }) db.documents (λ d. refl),
            rw chosen at listed,
            (rw chosen at sent)
                ∙ publish_deletes_appends fresh now
                    (select_where (lies_below k db.folders) db.documents) db.outbox,
            All-map
                (λ d.
                  lies_below k db.folders d ≡ true → not (user_can_access_document ctx d) ≡ false)
                (λ d. lies_below k db.folders d ≡ true → user_can_access_document ctx d ≡ true)
                db.documents (λ d f below. not-eq-false (user_can_access_document ctx d) (f below))
                (All-of_any-false (λ d. not (user_can_access_document ctx d))
                  (lies_below k db.folders) db.documents (rw chosen at allowed)),
          )
    ]
