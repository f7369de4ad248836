-- ===== src/Tests/Documents.antt =====
-- Runs of modules/documents on one workspace.
use ragz.Prelude.{
  ℕ, ◌≡◌, refl, ◌+◌, ◌==◌, ◌||◌, ◌++◌, true, false, none, some, Option, List, [], ◌∷◌, String, Bool,
  ok, err, map, All, arith, find, id_elem, select_where, update_where, conflict,
}
use ragz.Tenancy.State.{TenancyDb, TenantContext}
use ragz.Documents.State.{
  Folder, Document, DocumentStatus, IndexState, DocDb, has_folder_id, is_active_index,
}
use ragz.Documents.Folders.{rename_or_move_folder, max_tree_depth}
use ragz.Documents.Subtree.{collect_subtree_folder_ids, delete_folder}
use ragz.Documents.Reading.{user_can_access_document}
use ragz.Documents.Forest.{IsForest, root, up, Cascades}
use ragz.Documents.FolderRequests.{
  Request, create, ensure, patch, remove, serve, serve_all, serve_all-IsForest,
}
use ragz.Documents.Descent.{is_below, collect_subtree-is_below}
use ragz.Documents.Cascade.{lies_below, after_deletion, deletion_event, delete_folder_effect}
use ragz.Documents.Projection.{Shared, Event, set, start, write, finish, run, acl_payload, is_stale}
use ragz.Documents.Serving.{ordered_projections_serve, overtaken_projection_stays, overtaking}
use ragz.Tests.Tenancy

abbrev empty_db : DocDb
empty_db = record {
  tenancy = Tenancy.db;
  folders = [];
  documents = [];
  reembed_jobs = [];
  outbox = [];
}

empty-IsForest : IsForest []
unfolding find ragz.Documents.Folders.parent_of
empty-IsForest = record {
  keyed = tt;
  rooted = λ k. up root;
  home = λ k p f found parent. absurd (ground arith);
}

abbrev pub ctx : TenantContext
ctx = record {
  user_id = 2;
  org_id = 1;
  role = ragz.Auth.State.admin;
  workspace_ids = [];
  group_ids = 4 ∷ [];
  permissions = [];
}

abbrev folder : ℕ → Option ℕ → String → Folder
folder k parent name = record {
  id = k;
  org_id = 1;
  workspace_id = 20;
  parent_folder_id = parent;
  name = name;
  created_by = 2;
}

-- A path, a folder below its end, and a move that is refused since it would make a cycle.
abbrev made : DocDb
made = serve (patch ctx 1 none (some 3) ("parent_folder_id" ∷ [])) (
    serve (create 3 ctx 20 "drafts" (some 2))
      (serve (ensure ctx 20 ((1, "legal") ∷ (2, "2024") ∷ [])) empty_db))

abbrev tree : List Folder
tree = folder 1 none "legal" ∷ folder 2 (some 1) "2024" ∷ folder 3 (some 2) "drafts" ∷ []

made_folders : made.folders ≡ tree
unfolding serve rename_or_move_folder ragz.Documents.Folders.get_folder_checked find
    ragz.Documents.Folders.create_folder ragz.Tenancy.Members.get_workspace_checked
    ragz.Documents.Folders.ensure_path ragz.Tenancy.State.is_workspace_in
    ragz.Tenancy.State.is_user_tier ragz.Prelude.any ragz.Documents.State.is_sibling
    ragz.Documents.State.is_folder_in ragz.Prelude.str_elem has_folder_id update_where
    ragz.Documents.Folders.is_ancestor_or_self ragz.Documents.Folders.parent_of
made_folders = refl

abbrev below_first : ℕ → Bool
below_first j = j == 1 || (j == 2 || j == 3)

tree-Cascades : Cascades below_first tree 1
unfolding find ragz.Documents.Folders.parent_of has_folder_id
tree-Cascades j = ground arith

abbrev requests : List Request
requests =
    ensure ctx 20 ((1, "legal") ∷ (2, "2024") ∷ [])
    ∷ create 3 ctx 20 "drafts" (some 2)
    ∷ patch ctx 1 none (some 3) ("parent_folder_id" ∷ [])
    ∷ remove (λ fs k. below_first) (λ k. k) 500 ctx 1
    ∷ []

unused_ids :
    find
      (has_folder_id 3)
      (serve (ensure ctx 20 ((1, "legal") ∷ (2, "2024") ∷ [])) empty_db).folders
    ≡ none
unfolding find serve ragz.Documents.Folders.ensure_path ragz.Tenancy.Members.get_workspace_checked
    ragz.Tenancy.State.is_workspace_in ragz.Tenancy.State.is_user_tier ragz.Prelude.any
    ragz.Documents.State.is_sibling has_folder_id
unused_ids = refl

serve_all-IsForest_example : IsForest (serve_all requests empty_db).folders
unfolding find
serve_all-IsForest_example =
    serve_all-IsForest requests empty_db
      ((refl, (refl, tt), (refl, tt, tt)), (unused_ids, (tt, (rw made_folders tree-Cascades, tt))))
      empty-IsForest

tree-IsForest : IsForest tree
unfolding find serve_all
tree-IsForest = rw made_folders at (
    serve_all-IsForest
      (ensure ctx 20 ((1, "legal") ∷ (2, "2024") ∷ [])
        ∷ create 3 ctx 20 "drafts" (some 2)
        ∷ patch ctx 1 none (some 3) ("parent_folder_id" ∷ [])
        ∷ [])
      empty_db ((refl, (refl, tt), (refl, tt, tt)), (unused_ids, (tt, tt))) empty-IsForest)

collect_subtree-is_below_example :
    id_elem 3 (collect_subtree_folder_ids 1 20 tree) ≡ is_below max_tree_depth 1 tree 3
unfolding find has_folder_id
collect_subtree-is_below_example =
    collect_subtree-is_below 20 tree tree-IsForest 1 3 (folder 3 (some 2) "drafts") refl refl

-- The folder at the end of the path has a restricted document, and the last one an open one.
abbrev pub document : ℕ → Option ℕ → Option (List ℕ) → Document
document k folder_id acl = record {
  id = k;
  org_id = 1;
  workspace_id = 20;
  filename = "brief";
  size_bytes = 10;
  content_hash = k;
  status = DocumentStatus.indexed;
  error = none;
  created_by = 2;
  deleted_by = none;
  pinned = false;
  acl_group_ids = acl;
  security_revision = 0;
  projected_security_revision = 0;
  index_state = IndexState.active;
  version = 1;
  lineage_id = k;
  supersedes_document_id = none;
  is_current = true;
  approved = false;
  vectors_present = true;
  folder_id = folder_id;
}

abbrev pub db : DocDb
db = record empty_db {
  folders = tree;
  documents =
      document 7 (some 2) (some (4 ∷ [])) ∷ document 8 (some 3) none ∷ document 9 none none ∷ [];
}

abbrev gone : List Folder → ℕ → ℕ → Bool
gone fs k = is_below max_tree_depth k fs

abbrev deleted : DocDb
deleted = (delete_folder gone (λ k. k) 500 ctx 2 db).1

delete_folder_runs : delete_folder gone (λ k. k) 500 ctx 2 db ≡ (ok (7 ∷ 8 ∷ []), deleted)
unfolding delete_folder ragz.Documents.Folders.get_folder_checked find
    ragz.Documents.State.is_folder_in ragz.Tenancy.State.is_user_tier ragz.Prelude.any select_where
    id_elem user_can_access_document ragz.Prelude.str_elem
delete_folder_runs = refl

delete_folder_effect_example :
    (deleted.documents ≡ update_where (lies_below 2 tree) (after_deletion ctx) db.documents)
    × (7 ∷ 8 ∷ [] ≡ map (λ d. d.id) (select_where (lies_below 2 tree) db.documents))
    × (deleted.outbox
        ≡ map (deletion_event (λ k. k) 500) (select_where (lies_below 2 tree) db.documents))
    × All (λ d. lies_below 2 tree d ≡ true → user_can_access_document ctx d ≡ true) db.documents
unfolding find has_folder_id
delete_folder_effect_example =
    delete_folder_effect gone (λ k. k) 500 ctx 2 db deleted (7 ∷ 8 ∷ []) tree-IsForest
      ((folder 2 (some 1) "2024", refl, refl), ((folder 3 (some 2) "drafts", refl, refl), (tt, tt)))
      (λ j. refl) delete_folder_runs

-- Two changes whose writes land in the order of their revisions.
abbrev settled : Shared
settled = record {
  row = document 7 none (some (4 ∷ []));
  payload = 4 ∷ [];
  running = λ session. none;
}

abbrev in_order : List Event
in_order =
    set 1 (some (5 ∷ [])) ∷ set 2 (some (6 ∷ [])) ∷ write 1 ∷ write 2 ∷ finish 1 ∷ finish 2 ∷ []

in_order_active : is_active_index (run in_order settled).row.index_state ≡ true
unfolding is_active_index run
in_order_active = refl

ordered_projections_serve_example :
    ((run in_order settled).payload ≡ acl_payload (run in_order settled).row.acl_group_ids)
    × ((run in_order settled).row.projected_security_revision
        ≡ (run in_order settled).row.security_revision)
unfolding acl_payload ragz.Documents.Projection.step
ordered_projections_serve_example =
    ordered_projections_serve in_order settled
      (record { payload = refl; projected = refl; idle = λ session. refl }) (omega arith)
      in_order_active

overtaken_projection_stays_example :
    let last = run (overtaking (some (4 ∷ [])) (some (5 ∷ []))) settled in
    (is_active_index last.row.index_state ≡ true)
    × (last.row.acl_group_ids ≡ some (5 ∷ []))
    × (last.payload ≡ acl_payload (some (4 ∷ [])))
    × (last.running 1 ≡ none)
    × (last.running 2 ≡ none)
    × (is_stale last.row ≡ false)
overtaken_projection_stays_example =
    overtaken_projection_stays (some (4 ∷ [])) (some (5 ∷ [])) settled
