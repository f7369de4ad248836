-- ===== src/Documents/Descent.antt =====
-- modules/documents/folders.py: the walk down a subtree against the chains of parents.
use ragz.Prelude.{
  ℕ, zero, suc, ◌≡◌, refl, sym, ◌∙◌, ap, Bool, false, none, some, List, [], ◌∷◌, ◌++◌, ◌==◌, ◌||◌,
  arith, inl, inr, Bool-cases, Option-cases, find, select_where, id_elem, ==_iff,
}
use ragz.Documents.State.{Folder, has_folder_id}
use ragz.Documents.Folders.{parent_of, max_tree_depth}
use ragz.Documents.Subtree.{is_among, is_child, children, descendants, collect_subtree_folder_ids}
use ragz.Documents.FolderRows.{HasUniqueIds}
use ragz.Documents.Forest.{IsForest}

-- Going up from a folder by at most so many parents comes to `k`.
unfoldable pub is_below : ℕ → ℕ → List Folder → ℕ → Bool
is_below zero k fs j = j == k
is_below (suc n) k fs j =
    j == k || elim (parent_of fs j) [ none ↦ false | some p ↦ is_below n k fs p ]

-- Going up by at least one and at most so many parents comes to one of `ids`.
above : ℕ → List ℕ → List Folder → ℕ → Bool
above zero ids fs j = false
above (suc n) ids fs j = elim (parent_of fs j) [
  | none ↦ false
  | some p ↦ id_elem p ids || above n ids fs p
]

pub id_elem-append : (k : ℕ) (xs ys : List ℕ) → id_elem k (xs ++ ys) ≡ id_elem k xs || id_elem k ys
unfolding id_elem
id_elem-append k [] ys = refl
id_elem-append k (x ∷ xs) ys = ground (arith, id_elem-append k xs ys)

id_elem-children :
    (ids : List ℕ) (w : ℕ) (fs : List Folder) (j : ℕ)
    → HasUniqueIds fs
    → id_elem j (children ids w fs)
      ≡ elim (find (has_folder_id j) fs) [ none ↦ false | some f ↦ is_child ids w f ]
unfolding children id_elem find has_folder_id select_where
id_elem-children ids w [] j keyed = refl
id_elem-children ids w (g ∷ gs) j (first, rest) = elim (Bool-cases (g.id == j)) [
  | inl e ↦
      let at : g.id ≡ j = (==_iff g.id j).0 e in
      let none_later = rw at at first in
      ground (arith, id_elem-children ids w gs j rest, none_later)
  | inr e ↦ ground (arith, id_elem-children ids w gs j rest)
]

module _ (w : ℕ) (fs : List Folder) (forest : IsForest fs) where
  open forest use {keyed, home}

  -- A folder that is there is one of the workspace.
  abbrev IsLocal : ℕ → Type 0
  IsLocal j = (f : Folder) → find (has_folder_id j) fs ≡ some f → f.workspace_id ≡ w

  IsLocal-parent : (j p : ℕ) → IsLocal j → parent_of fs j ≡ some p → IsLocal p
  unfolding parent_of
  IsLocal-parent j p local h g there = elim (Option-cases (find (has_folder_id j) fs)) [
    | inl e ↦ absurd (ground (arith, e))
    | inr (f, e) ↦
        let (g', there', same) = home j p f e (ground (arith, e)) in
        ground (arith, there, there', same, local f e)
  ]

  child_of_parent :
      (ids : List ℕ) (j : ℕ)
      → IsLocal j
      → id_elem j (children ids w fs) ≡ is_among (parent_of fs j) ids
  unfolding is_child parent_of
  child_of_parent ids j local = elim (Option-cases (find (has_folder_id j) fs)) [
    | inl e ↦ ground (arith, id_elem-children ids w fs j keyed, e)
    | inr (f, e) ↦ ground (arith, id_elem-children ids w fs j keyed, e, local f e)
  ]

  -- One round down is one parent up.
  above-children :
      (n : ℕ) (ids : List ℕ) (j : ℕ)
      → IsLocal j
      → above (suc n) ids fs j ≡ is_among (parent_of fs j) ids || above n (children ids w fs) fs j
  unfolding above
  above-children zero ids j local = elim (Option-cases (parent_of fs j)) [
    | inl e ↦ ground (arith, e)
    | inr (p, e) ↦ ground (arith, e)
  ]
  above-children (suc n) ids j local = elim (Option-cases (parent_of fs j)) [
    | inl e ↦ ground (arith, e)
    | inr (p, e) ↦
        let local' = IsLocal-parent j p local e in
        rw (e, above)
          (ap (λ (b : Bool). id_elem p ids || b)
            (above-children n ids p local'
              ∙ ap (λ (b : Bool). b || above n (children ids w fs) fs p)
                  (sym (child_of_parent ids p local'))))
  ]

  id_elem-descendants :
      (n : ℕ) (ids : List ℕ) (j : ℕ)
      → IsLocal j
      → id_elem j (descendants n ids w fs) ≡ above n ids fs j
  unfolding descendants id_elem above
  id_elem-descendants zero ids j local = refl
  id_elem-descendants (suc n) ids j local =
      id_elem-append j (children ids w fs) (descendants n (children ids w fs) w fs)
      ∙ rw (child_of_parent ids j local, id_elem-descendants n (children ids w fs) j local)
          (sym (above-children n ids j local))

  above-is_below : (n k j : ℕ) → j == k || above n (k ∷ []) fs j ≡ is_below n k fs j
  unfolding above is_below id_elem
  above-is_below zero k j = ground arith
  above-is_below (suc n) k j = elim (Option-cases (parent_of fs j)) [
    | inl e ↦ ground (arith, e)
    | inr (p, e) ↦ ground (arith, e, above-is_below n k p)
  ]

  -- In a forest, the walk down from a folder collects, of its workspace, the folders from which at
  -- most `_MAX_TREE_DEPTH` parents lead up to it, and no other.
  pub collect_subtree-is_below :
      (k j : ℕ) (f : Folder)
      → find (has_folder_id j) fs ≡ some f
      → f.workspace_id ≡ w
      → id_elem j (collect_subtree_folder_ids k w fs) ≡ is_below max_tree_depth k fs j
  unfolding collect_subtree_folder_ids id_elem
  collect_subtree-is_below k j f there at =
      let local : IsLocal j = λ g found. ground (arith, there, found, at) in
      rw (id_elem-descendants max_tree_depth (k ∷ []) j local) (above-is_below max_tree_depth k j)
