-- ===== src/Documents/Forest.antt =====
-- modules/documents/folders.py: the folders of a workspace stay a forest.
use ragz.Prelude.{
  ℕ, zero, suc, ◌≡◌, refl, sym, ◌∙◌, ap, ◌≢◌, Bool, false, Option, none, some, List, [], ◌∷◌, ◌++◌,
  ◌==◌, ◌||◌, if◌then◌else◌, arith, inl, inr, Bool-cases, Option-cases, find, delete_where, ==_iff,
  ==-refl,
}
use ragz.Documents.State.{Folder, has_folder_id}
use ragz.Documents.Folders.{parent_of, is_ancestor_or_self}
use ragz.Documents.FolderRows.{
  HasUniqueIds, insert-HasUniqueIds, flush-HasUniqueIds, delete-HasUniqueIds, rewritten, flushed,
  find_folder-insert, find_folder-flush, find_folder-delete, parent_of_found,
}

-- The chain of parents ends at the root.
pub data Rooted (folders : List Folder) : Option ℕ → Type 0 where
  root : Rooted folders none
  up : {k : ℕ} → Rooted folders (parent_of folders k) → Rooted folders (some k)

-- A folder's parent is there and in the same workspace.
abbrev pub HasHome : List Folder → Type 0
HasHome fs =
    (k p : ℕ) (f : Folder)
    → find (has_folder_id k) fs ≡ some f
    → f.parent_folder_id ≡ some p
    → (g : Folder) × (find (has_folder_id p) fs ≡ some g) × (g.workspace_id ≡ f.workspace_id)

pub record IsForest (fs : List Folder) : Type 0 where
  pub keyed : HasUniqueIds fs
  pub rooted : (k : ℕ) → Rooted fs (some k)
  pub home : HasHome fs

-- What the database's cascade takes with a folder, by the foreign key of the parent.
abbrev pub Cascades : (ℕ → Bool) → List Folder → ℕ → Type 0
Cascades gone fs k =
    (j : ℕ) → gone j ≡ (j == k || elim (parent_of fs j) [ none ↦ false | some p ↦ gone p ])

-- A walk up that ends below its limit without the candidate stays the same when only the
-- candidate's parent changes.
walk-Rooted :
    (fs gs : List Folder) (rounds k : ℕ) (o : Option ℕ)
    → ((j : ℕ) → (j == k) ≡ false → parent_of gs j ≡ parent_of fs j)
    → is_ancestor_or_self rounds k o fs ≡ false
    → Rooted gs o
unfolding is_ancestor_or_self
walk-Rooted fs gs zero k o same h = absurd (ground arith)
walk-Rooted fs gs (suc rounds) k none same h = root
walk-Rooted fs gs (suc rounds) k (some j) same h = elim (Bool-cases (j == k)) [
  | inl e ↦ absurd (ground arith)
  | inr e ↦ up (rw (same j e) (walk-Rooted fs gs rounds k (parent_of fs j) same (ground arith)))
]

-- Where one folder's parent changes to one that is rooted, all stay rooted.
reparent-Rooted :
    (fs gs : List Folder) (k : ℕ)
    → ((j : ℕ) → (j == k) ≡ false → parent_of gs j ≡ parent_of fs j)
    → Rooted gs (parent_of gs k)
    → {o : Option ℕ} → Rooted fs o
    → Rooted gs o
reparent-Rooted fs gs k same at_k root = root
reparent-Rooted fs gs k same at_k (up {k = j} r) = elim (Bool-cases (j == k)) [
  | inl e ↦ let here : k ≡ j = sym ((==_iff j k).0 e) in up (rw here at at_k)
  | inr e ↦ up (rw (same j e) (reparent-Rooted fs gs k same at_k r))
]

-- The parent that a row is written with is there, and in the row's workspace.
abbrev pub IsAdopted : List Folder → ℕ → Option ℕ → Type 0
IsAdopted fs w none = Unit
IsAdopted fs w (some p) = (g : Folder) × (find (has_folder_id p) fs ≡ some g) × (g.workspace_id ≡ w)

module _ (f : Folder) (fs : List Folder) (forest : IsForest fs) where
  open forest use {keyed, rooted, home}

  module _ (free : find (has_folder_id f.id) fs ≡ none) where
    parent_of-insert :
        (j : ℕ)
        → parent_of (fs ++ (f ∷ [])) j ≡ (if j == f.id then f.parent_folder_id else parent_of fs j)
    unfolding parent_of
    parent_of-insert j = ground (arith, find_folder-insert f fs j free)

    -- No folder has a parent that is not there.
    parent-ne-free : (j : ℕ) → parent_of fs j ≢ some f.id
    unfolding parent_of
    parent-ne-free j h = elim (Option-cases (find (has_folder_id j) fs)) [
      | inl missing ↦ absurd (ground arith)
      | inr (g, found) ↦
          let (p, there, _) = home j f.id g found (ground arith) in absurd (ground arith)
    ]

    insert-Rooted : {o : Option ℕ} → o ≢ some f.id → Rooted fs o → Rooted (fs ++ (f ∷ [])) o
    insert-Rooted other root = root
    insert-Rooted other (up {k = j} r) =
        let apart : (j == f.id) ≡ false = ground arith in
        up (rw (parent_of-insert j, apart) (insert-Rooted (parent-ne-free j) r))

    adopted-Rooted : (p : Option ℕ) → IsAdopted fs f.workspace_id p → Rooted (fs ++ (f ∷ [])) p
    adopted-Rooted none a = root
    adopted-Rooted (some p) (g, found, _) = insert-Rooted (λ e. absurd (ground arith)) (rooted p)

    insert_found :
        (p w : ℕ) {g : Folder}
        → find (has_folder_id p) fs ≡ some g
        → g.workspace_id ≡ w
        → (h : Folder) × (find (has_folder_id p) (fs ++ (f ∷ [])) ≡ some h) × (h.workspace_id ≡ w)
    insert_found p w {g} found e =
        (g, find_folder-insert f fs p free ∙ ground (arith, free, found, ==_iff p f.id), e)

    insert-HasHome : IsAdopted fs f.workspace_id f.parent_folder_id → HasHome (fs ++ (f ∷ []))
    insert-HasHome adopted k p g found parent = elim (Bool-cases (k == f.id)) [
      | inl e ↦
          let same : f ≡ g = ground (arith, found, find_folder-insert f fs k free) in
          let here : IsAdopted fs f.workspace_id (some p) =
            rw (ap (λ (x : Folder). x.parent_folder_id) same ∙ parent) at adopted in
          insert_found p g.workspace_id here.1 (here.2 ∙ ap (λ (x : Folder). x.workspace_id) same)
      | inr e ↦
          let before : find (has_folder_id k) fs ≡ some g =
            ground (arith, found, find_folder-insert f fs k free) in
          let there = home k p g before parent in insert_found p g.workspace_id there.1 there.2
    ]

    pub insert-IsForest : IsAdopted fs f.workspace_id f.parent_folder_id → IsForest (fs ++ (f ∷ []))
    insert-IsForest adopted = record {
      keyed = insert-HasUniqueIds f fs free keyed;
      rooted = λ k. elim (Bool-cases (k == f.id)) [
        | inl e ↦ up (rw (parent_of-insert k, e) (adopted-Rooted f.parent_folder_id adopted))
        | inr e ↦ insert-Rooted (λ same. absurd (ground arith)) (rooted k)
      ];
      home = insert-HasHome adopted;
    }

  module _ (old : Folder) (there : find (has_folder_id f.id) fs ≡ some old)
      (at_home : f.workspace_id ≡ old.workspace_id) where
    pub parent_of-flush :
        (j : ℕ)
        → parent_of (flushed f fs) j ≡ (if j == f.id then f.parent_folder_id else parent_of fs j)
    unfolding parent_of
    parent_of-flush j = elim (Bool-cases (j == f.id)) [
      | inl e ↦
          let same : j ≡ f.id = (==_iff j f.id).0 e in
          rw same (ground (arith, find_folder-flush f fs f.id, there))
      | inr e ↦ ground (arith, find_folder-flush f fs j)
    ]

    flush_found :
        (p w : ℕ) {g : Folder}
        → find (has_folder_id p) fs ≡ some g
        → g.workspace_id ≡ w
        → (h : Folder) × (find (has_folder_id p) (flushed f fs) ≡ some h) × (h.workspace_id ≡ w)
    flush_found p w {g} found e = (
      if p == f.id then rewritten f g else g,
      find_folder-flush f fs p ∙ ground (arith, found),
      ground arith,
    )

    flush-HasHome : IsAdopted fs f.workspace_id f.parent_folder_id → HasHome (flushed f fs)
    flush-HasHome adopted k p g found parent = elim (Bool-cases (k == f.id)) [
      | inl e ↦
          let at_id : k ≡ f.id = (==_iff k f.id).0 e in
          let same : rewritten f old ≡ g =
            ground (arith, rw at_id at found, find_folder-flush f fs f.id, there) in
          let here : IsAdopted fs f.workspace_id (some p) =
            rw (ap (λ (x : Folder). x.parent_folder_id) same ∙ parent) at adopted in
          flush_found p g.workspace_id here.1
            (here.2 ∙ at_home ∙ ap (λ (x : Folder). x.workspace_id) same)
      | inr e ↦
          let before : find (has_folder_id k) fs ≡ some g =
            ground (arith, found, find_folder-flush f fs k) in
          let kept = home k p g before parent in flush_found p g.workspace_id kept.1 kept.2
    ]

    pub flush-IsForest :
        IsAdopted fs f.workspace_id f.parent_folder_id
        → Rooted (flushed f fs) f.parent_folder_id
        → IsForest (flushed f fs)
    flush-IsForest adopted at_parent = record {
      keyed = flush-HasUniqueIds f fs keyed;
      rooted = λ k.
          reparent-Rooted fs (flushed f fs) f.id (λ j e. parent_of-flush j ∙ rw e refl)
            (rw (parent_of-flush f.id, ==-refl f.id) at_parent) (rooted k);
      home = flush-HasHome adopted;
    }

    -- The walk that `rename_or_move_folder` makes before a move shows that the target is no
    -- descendant, and so that it hangs on a root.
    pub unrelated-Rooted :
        (rounds : ℕ) (o : Option ℕ)
        → is_ancestor_or_self rounds f.id o fs ≡ false
        → Rooted (flushed f fs) o
    unrelated-Rooted rounds o h =
        walk-Rooted fs (flushed f fs) rounds f.id o (λ j e. parent_of-flush j ∙ rw e refl) h

-- A folder that keeps its parent may be renamed.
pub renamed-Rooted :
    (fs gs : List Folder)
    → ((j : ℕ) → parent_of gs j ≡ parent_of fs j)
    → {o : Option ℕ} → Rooted fs o
    → Rooted gs o
renamed-Rooted fs gs same root = root
renamed-Rooted fs gs same (up {k = j} r) = up (rw (same j) (renamed-Rooted fs gs same r))

-- A deletion that takes what is below a folder.
module _ (gone : ℕ → Bool) (k : ℕ) (fs : List Folder) (forest : IsForest fs)
    (cascades : Cascades gone fs k) where
  open forest use {keyed, rooted, home}

  abbrev kept : List Folder
  kept = delete_where (λ f. gone f.id) fs

  parent_of-delete : (j : ℕ) → parent_of kept j ≡ (if gone j then none else parent_of fs j)
  unfolding parent_of
  parent_of-delete j = ground (arith, find_folder-delete gone fs j)

  delete-Rooted : {o : Option ℕ} → Rooted fs o → Rooted kept o
  delete-Rooted root = root
  delete-Rooted (up {k = j} r) = elim (Bool-cases (gone j)) [
    | inl e ↦ up (rw (parent_of-delete j, e) root)
    | inr e ↦ up (rw (parent_of-delete j, e) (delete-Rooted r))
  ]

  delete-HasHome : HasHome kept
  delete-HasHome j p f found parent = elim (Bool-cases (gone j)) [
    | inl e ↦ absurd (ground (arith, found, find_folder-delete gone fs j))
    | inr e ↦
        let before : find (has_folder_id j) fs ≡ some f =
          ground (arith, found, find_folder-delete gone fs j) in
        let (g, there, same) = home j p f before parent in
        let stays : gone p ≡ false =
          ground (arith, cascades j, parent_of_found j fs before, parent) in
        (g, find_folder-delete gone fs p ∙ rw stays there, same)
  ]

  pub delete-IsForest : IsForest kept
  delete-IsForest = record {
    keyed = delete-HasUniqueIds gone fs keyed;
    rooted = λ j. delete-Rooted (rooted j);
    home = delete-HasHome;
  }
