-- ===== src/Documents/FolderRequests.antt =====
-- modules/documents/folders.py: the requests that write folders, in any order and from any callers.
use ragz.Prelude.{ℕ, Bool, ◌≡◌, none, List, [], ◌∷◌, String, Option, find}
use ragz.Tenancy.State.{TenantContext}
use ragz.Documents.State.{Folder, DocDb, has_folder_id}
use ragz.Documents.Folders.{create_folder, ensure_path, rename_or_move_folder}
use ragz.Documents.Subtree.{delete_folder}
use ragz.Documents.Forest.{IsForest, Cascades}
use ragz.Documents.Tree.{AreUnused, create_folder-IsForest, ensure_path-IsForest}
use ragz.Documents.Moves.{rename_or_move_folder-IsForest, delete_folder-IsForest}

-- A request, with the ids that it draws and the folders that the database's cascade takes.
pub data Request : Type 0 where
  create : ℕ → TenantContext → ℕ → String → Option ℕ → Request
  ensure : TenantContext → ℕ → List (ℕ × String) → Request
  patch : TenantContext → ℕ → Option String → Option ℕ → List String → Request
  remove : (gone : List Folder → ℕ → ℕ → Bool) → (ℕ → ℕ) → ℕ → TenantContext → ℕ → Request

unfoldable pub serve : Request → DocDb → DocDb
serve (create id ctx w name parent) db = (create_folder id ctx w name parent db).1
serve (ensure ctx w path) db = (ensure_path ctx w path db).1
serve (patch ctx k name parent fields_set) db =
    (rename_or_move_folder ctx k name parent fields_set db).1
serve (remove gone fresh now ctx k) db = (delete_folder gone fresh now ctx k db).1

unfoldable pub serve_all : List Request → DocDb → DocDb
serve_all [] db = db
serve_all (r ∷ rs) db = serve_all rs (serve r db)

-- What is drawn is unused, and the cascade follows the foreign key.
abbrev pub IsServed : Request → DocDb → Type 0
IsServed (create id ctx w name parent) db = find (has_folder_id id) db.folders ≡ none
IsServed (ensure ctx w path) db = AreUnused path db.folders
IsServed (patch ctx k name parent fields_set) db = Unit
IsServed (remove gone fresh now ctx k) db = Cascades (gone db.folders k) db.folders k

abbrev pub AreServed : List Request → DocDb → Type 0
AreServed [] db = Unit
AreServed (r ∷ rs) db = IsServed r db × AreServed rs (serve r db)

serve-IsForest :
    (r : Request) (db : DocDb) → IsServed r db → IsForest db.folders → IsForest (serve r db).folders
unfolding serve
serve-IsForest (create id ctx w name parent) db served forest =
    create_folder-IsForest id ctx w name parent db served forest
serve-IsForest (ensure ctx w path) db served forest =
    ensure_path-IsForest ctx w path db served forest
serve-IsForest (patch ctx k name parent fields_set) db served forest =
    rename_or_move_folder-IsForest ctx k name parent fields_set db forest
serve-IsForest (remove gone fresh now ctx k) db served forest =
    delete_folder-IsForest gone fresh now ctx k db served forest

-- Whatever folders are made, renamed, moved and deleted, where ids are drawn unused and a deletion
-- takes what the foreign key does, every chain of parents ends at a root, and a folder's parent is
-- there and in the folder's workspace.
pub serve_all-IsForest :
    (rs : List Request) (db : DocDb)
    → AreServed rs db
    → IsForest db.folders
    → IsForest (serve_all rs db).folders
unfolding serve_all
serve_all-IsForest [] db served forest = forest
serve_all-IsForest (r ∷ rs) db (first, rest) forest =
    serve_all-IsForest rs (serve r db) rest (serve-IsForest r db first forest)
