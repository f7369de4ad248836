-- ===== src/Documents/Tree.antt =====
-- modules/documents/folders.py: folders that are made, one by one or along a path.
use ragz.Prelude.{
  ℕ, ◌≡◌, refl, ◌∙◌, ap, true, false, Option, none, some, List, [], ◌∷◌, ◌++◌, String, ◌==◌, arith,
  inl, inr, Option-cases, Result-cases, find, ==_iff, ==-refl, ok, All, find_holds,
}
use ragz.Tenancy.State.{TenantContext}
use ragz.Tenancy.Members.{get_workspace_checked}
use ragz.Documents.State.{Folder, DocDb, has_folder_id, is_folder_in, is_sibling}
use ragz.Documents.Folders.{
  get_folder_checked, check_parent, in_workspace, insert_folder, new_folder, create_folder,
  ensure_segment, ensure_segments, ensure_path,
}
use ragz.Documents.FolderRows.{HasUniqueIds, find_folder_in, find_folder_row, find_folder-insert}
use ragz.Documents.Forest.{IsForest, IsAdopted, insert-IsForest}

-- A folder that the caller may use is a row of the table, in the workspace that was asked for.
pub get_folder_checked_row :
    (ctx : TenantContext) (k : ℕ) (w : Option ℕ) (fs : List Folder) {f : Folder}
    → HasUniqueIds fs
    → get_folder_checked ctx k w fs ≡ ok f
    → (find (has_folder_id k) fs ≡ some f) × (in_workspace w f.workspace_id ≡ true)
unfolding get_folder_checked
get_folder_checked_row ctx k w fs {f} keyed h =
    elim (Option-cases (find (is_folder_in k ctx.org_id) fs)) [
      | inl e ↦ absurd (ground arith)
      | inr (g, e) ↦
          let same : g ≡ f = ground arith in
          let row : find (is_folder_in k ctx.org_id) fs ≡ some f = e ∙ ap some same in
          (find_folder_in k ctx.org_id fs keyed row, ground arith)
    ]

check_parent-IsAdopted :
    (ctx : TenantContext) (p : Option ℕ) (w : ℕ) (fs : List Folder)
    → HasUniqueIds fs
    → check_parent ctx p w fs ≡ ok tt
    → IsAdopted fs w p
unfolding check_parent
check_parent-IsAdopted ctx none w fs keyed h = tt
check_parent-IsAdopted ctx (some p) w fs keyed h =
    elim (Result-cases (get_folder_checked ctx p (some w) fs)) [
      | inl (g, e) ↦
          let (found, at) = get_folder_checked_row ctx p (some w) fs keyed e in
          (g, found, (==_iff g.workspace_id w).0 at)
      | inr (_, e) ↦ absurd (ground arith)
    ]

insert_folder_lem :
    (f : Folder) (db : DocDb) {after : DocDb}
    → insert_folder f db ≡ ok after
    → after.folders ≡ db.folders ++ (f ∷ [])
unfolding insert_folder
insert_folder_lem f db h = ground arith

-- Each operation, on the tables that it commits.
pub create_folder-IsForest :
    (id : ℕ) (ctx : TenantContext) (w : ℕ) (name : String) (parent : Option ℕ) (db : DocDb)
    → find (has_folder_id id) db.folders ≡ none
    → IsForest db.folders
    → IsForest (create_folder id ctx w name parent db).1.folders
unfolding create_folder
create_folder-IsForest id ctx w name parent db free forest =
    elim (Result-cases (get_workspace_checked ctx w db.tenancy)) [
      | inr (_, e) ↦ rw e forest
      | inl (ws, e) ↦ elim (Result-cases (check_parent ctx parent ws.id db.folders)) [
        | inr (_, e') ↦ rw (e, e') forest
        | inl (_, e') ↦
            let f = new_folder id ctx ws.id parent name in
            elim (Result-cases (insert_folder f db)) [
              | inr (_, e'') ↦ rw (e, e', e'') forest
              | inl (after, e'') ↦
                  rw (e, e', e'', insert_folder_lem f db e'')
                    (insert-IsForest f db.folders forest free
                      (check_parent-IsAdopted ctx parent ws.id db.folders forest.keyed e'))
            ]
      ]
    ]

-- The ids drawn for the segments of a path are unused and differ from one another.
abbrev pub AreUnused : List (ℕ × String) → List Folder → Type 0
AreUnused [] fs = Unit
AreUnused ((id, segment) ∷ rest) fs =
    (find (has_folder_id id) fs ≡ none) × All (λ r. (r.0 == id) ≡ false) rest × AreUnused rest fs

AreUnused-insert :
    (rest : List (ℕ × String)) (f : Folder) (fs : List Folder)
    → find (has_folder_id f.id) fs ≡ none
    → All (λ r. (r.0 == f.id) ≡ false) rest
    → AreUnused rest fs
    → AreUnused rest (fs ++ (f ∷ []))
AreUnused-insert [] f fs free apart unused = tt
AreUnused-insert ((id, segment) ∷ rest) f fs free apart unused = (
  find_folder-insert f fs id free ∙ rw apart.0 unused.0,
  unused.1,
  AreUnused-insert rest f fs free apart.1 unused.2,
)

-- What a step of the path leaves for the next one.
record IsReady (w : ℕ) (folder : Folder) (rest : List (ℕ × String)) (db : DocDb) : Type 0 where
  forest : IsForest db.folders
  adopted : IsAdopted db.folders w (some folder.id)
  unused : AreUnused rest db.folders

sibling_workspace :
    (w : ℕ) (parent : Option ℕ) (name : String) (g : Folder)
    → is_sibling w parent name g ≡ true
    → g.workspace_id ≡ w
unfolding is_sibling
sibling_workspace w parent name g h = ground arith

ensure_segment-IsReady :
    (id : ℕ) (ctx : TenantContext) (w : ℕ) (parent : Option ℕ) (segment : String)
    (rest : List (ℕ × String)) (db : DocDb) {f : Folder} {after : DocDb}
    → IsForest db.folders
    → IsAdopted db.folders w parent
    → AreUnused ((id, segment) ∷ rest) db.folders
    → ensure_segment id ctx w parent segment db ≡ ok (f, after)
    → IsReady w f rest after
unfolding ensure_segment
ensure_segment-IsReady id ctx w parent segment rest db {f} {after} forest adopted unused h =
    elim (Option-cases (find (is_sibling w parent segment) db.folders)) [
      | inl missing ↦
          let new = new_folder id ctx w parent segment in
          elim (Result-cases (insert_folder new db)) [
            | inr (_, e) ↦ absurd (ground (arith, missing, e))
            | inl (inserted, e) ↦
                let made : new ≡ f = ground (arith, missing, e) in
                let kept : inserted ≡ after = ground (arith, missing, e) in
                let rows : after.folders ≡ db.folders ++ (new ∷ []) =
                  rw kept at (insert_folder_lem new db e) in
                rw (← made) (record {
                  forest = rw rows (insert-IsForest new db.folders forest unused.0 adopted);
                  adopted = (
                    new,
                    rw rows (find_folder-insert new db.folders id unused.0 ∙ rw (==-refl id) refl),
                    refl,
                  );
                  unused =
                      rw rows (AreUnused-insert rest new db.folders unused.0 unused.1 unused.2);
                })
          ]
      | inr (g, found) ↦
          let made : g ≡ f = ground (arith, found) in
          let kept : db ≡ after = ground (arith, found) in
          rw (← kept, ← made)
            (record {
              forest = forest;
              adopted = (
                g,
                find_folder_row (is_sibling w parent segment) db.folders forest.keyed found,
                sibling_workspace w parent segment g
                    (find_holds (is_sibling w parent segment) db.folders found),
              );
              unused = unused.2;
            })
    ]

ensure_segments-IsForest :
    (ctx : TenantContext) (w : ℕ) (folder : Folder) (rest : List (ℕ × String)) (db : DocDb)
    {f : Folder} {after : DocDb}
    → IsReady w folder rest db
    → ensure_segments ctx w folder rest db ≡ ok (f, after)
    → IsForest after.folders
unfolding ensure_segments
ensure_segments-IsForest ctx w folder [] db {f} {after} ready h =
    let kept : db ≡ after = ground arith in rw (← kept) ready.forest
ensure_segments-IsForest ctx w folder ((id, segment) ∷ rest) db ready h =
    elim (Result-cases (ensure_segment id ctx w (some folder.id) segment db)) [
      | inr (_, e) ↦ absurd (ground (arith, e))
      | inl ((g, next), e) ↦
          ensure_segments-IsForest ctx w g rest next
            (ensure_segment-IsReady id ctx w (some folder.id) segment rest db ready.forest
              ready.adopted ready.unused e)
            (rw e at h)
    ]

pub ensure_path-IsForest :
    (ctx : TenantContext) (w : ℕ) (path : List (ℕ × String)) (db : DocDb)
    → AreUnused path db.folders
    → IsForest db.folders
    → IsForest (ensure_path ctx w path db).1.folders
unfolding ensure_path
ensure_path-IsForest ctx w [] db unused forest =
    elim (Result-cases (get_workspace_checked ctx w db.tenancy)) [
      | inr (_, e) ↦ rw e forest
      | inl (_, e) ↦ rw e forest
    ]
ensure_path-IsForest ctx w ((id, segment) ∷ rest) db unused forest =
    elim (Result-cases (get_workspace_checked ctx w db.tenancy)) [
      | inr (_, e) ↦ rw e forest
      | inl (ws, e) ↦ elim (Result-cases (ensure_segment id ctx ws.id none segment db)) [
        | inr (_, e') ↦ rw (e, e') forest
        | inl ((f, top), e') ↦
            let ready =
              ensure_segment-IsReady id ctx ws.id none segment rest db forest tt unused e' in
            elim (Result-cases (ensure_segments ctx ws.id f rest top)) [
              | inr (_, e'') ↦ rw (e, e', e'') forest
              | inl ((g, last), e'') ↦
                  rw (e, e', e'') (ensure_segments-IsForest ctx ws.id f rest top ready e'')
            ]
      ]
    ]
