-- ===== src/Documents/FolderRows.antt =====
-- modules/documents/folders.py: what a row written to `folders` does to the parents of all folders.
use mathlib.Core.Option
use ragz.Prelude.{
  ℕ, ◌≡◌, refl, ◌∙◌, Bool, none, some, List, [], ◌∷◌, ◌++◌, ◌==◌, if◌then◌else◌, arith, inl, inr,
  Bool-cases, find, update_where, delete_where, ==_iff, ==-refl,
}
use ragz.Documents.State.{Folder, has_folder_id, is_folder_in}
use ragz.Documents.Folders.{parent_of}

pub find_folder-id :
    (k : ℕ) (fs : List Folder) {f : Folder} → find (has_folder_id k) fs ≡ some f → f.id ≡ k
unfolding find has_folder_id
find_folder-id k [] h = ground arith
find_folder-id k (g ∷ gs) {f} h = ground (arith, find_folder-id k gs {f = f})

pub parent_of_found :
    (k : ℕ) (fs : List Folder) {f : Folder}
    → find (has_folder_id k) fs ≡ some f
    → parent_of fs k ≡ f.parent_folder_id
unfolding parent_of
parent_of_found k fs h = rw (h, parent_of) refl

pub find_folder-insert :
    (f : Folder) (fs : List Folder) (k : ℕ)
    → find (has_folder_id f.id) fs ≡ none
    → find (has_folder_id k) (fs ++ (f ∷ []))
      ≡ (if k == f.id then some f else find (has_folder_id k) fs)
unfolding find has_folder_id
find_folder-insert f [] k h = ground arith
find_folder-insert f (g ∷ gs) k h = ground (arith, find_folder-insert f gs k)

-- The row as `flush_folder` writes it.
abbrev pub rewritten : Folder → Folder → Folder
rewritten f g = record g { name = f.name; parent_folder_id = f.parent_folder_id }

abbrev pub flushed : Folder → List Folder → List Folder
flushed f fs = update_where (has_folder_id f.id) (rewritten f) fs

pub find_folder-flush :
    (f : Folder) (fs : List Folder) (k : ℕ)
    → find (has_folder_id k) (update_where (has_folder_id f.id) (rewritten f) fs) ≡ (
        if k == f.id
        then Option.map (rewritten f) (find (has_folder_id k) fs)
        else find (has_folder_id k) fs)
unfolding find update_where has_folder_id
find_folder-flush f [] k = ground arith
find_folder-flush f (g ∷ gs) k = ground (arith, find_folder-flush f gs k)

pub find_folder-delete :
    (gone : ℕ → Bool) (fs : List Folder) (k : ℕ)
    → find (has_folder_id k) (delete_where (λ f. gone f.id) fs)
      ≡ (if gone k then none else find (has_folder_id k) fs)
unfolding find delete_where has_folder_id
find_folder-delete gone [] k = ground arith
find_folder-delete gone (g ∷ gs) k = elim (Bool-cases (g.id == k)) [
  | inl hit ↦
      let same : g.id ≡ k = (==_iff g.id k).0 hit in
      rw same (ground (arith, find_folder-delete gone gs k))
  | inr miss ↦ ground (arith, find_folder-delete gone gs k)
]

-- The primary key of `folders`.
abbrev pub HasUniqueIds : List Folder → Type 0
HasUniqueIds [] = Unit
HasUniqueIds (f ∷ fs) = (find (has_folder_id f.id) fs ≡ none) × HasUniqueIds fs

pub insert-HasUniqueIds :
    (f : Folder) (fs : List Folder)
    → find (has_folder_id f.id) fs ≡ none
    → HasUniqueIds fs
    → HasUniqueIds (fs ++ (f ∷ []))
unfolding find has_folder_id
insert-HasUniqueIds f [] free keyed = (refl, tt)
insert-HasUniqueIds f (g ∷ gs) free (first, rest) = (
  ground (arith, find_folder-insert f gs g.id (ground arith)),
  insert-HasUniqueIds f gs (ground arith) rest,
)

pub flush-HasUniqueIds :
    (f : Folder) (fs : List Folder)
    → HasUniqueIds fs
    → HasUniqueIds (update_where (has_folder_id f.id) (rewritten f) fs)
unfolding update_where has_folder_id
flush-HasUniqueIds f [] keyed = tt
flush-HasUniqueIds f (g ∷ gs) (first, rest) = (
  elim (Bool-cases (g.id == f.id)) [
    | inl e ↦ rw e (find_folder-flush f gs g.id ∙ rw (first, e) refl)
    | inr e ↦ rw e (find_folder-flush f gs g.id ∙ rw (e, first) refl)
  ],
  flush-HasUniqueIds f gs rest,
)

pub delete-HasUniqueIds :
    (gone : ℕ → Bool) (fs : List Folder)
    → HasUniqueIds fs
    → HasUniqueIds (delete_where (λ f. gone f.id) fs)
unfolding delete_where
delete-HasUniqueIds gone [] keyed = tt
delete-HasUniqueIds gone (g ∷ gs) (first, rest) = elim (Bool-cases (gone g.id)) [
  | inl e ↦ rw e (delete-HasUniqueIds gone gs rest)
  | inr e ↦
      rw e (find_folder-delete gone gs g.id ∙ rw (e, first) refl, delete-HasUniqueIds gone gs rest)
]

-- What the caller's query finds is the row of that id.
pub find_folder_in :
    (k org : ℕ) (fs : List Folder) {f : Folder}
    → HasUniqueIds fs
    → find (is_folder_in k org) fs ≡ some f
    → find (has_folder_id k) fs ≡ some f
unfolding find has_folder_id is_folder_in
find_folder_in k org [] keyed h = ground arith
find_folder_in k org (g ∷ gs) {f} (first, rest) h = elim (Bool-cases (g.id == k)) [
  | inl hit ↦ elim (Bool-cases (g.org_id == org)) [
    | inl home ↦ ground arith
    | inr away ↦
        let later = find_folder_in k org gs {f = f} rest (ground arith) in
        let same : g.id ≡ k = (==_iff g.id k).0 hit in
        absurd (ground (arith, rw same at first, later))
  ]
  | inr miss ↦ ground (arith, find_folder_in k org gs {f = f} rest)
]

-- What any query finds is the row of its id.
pub find_folder_row :
    (p : Folder → Bool) (fs : List Folder) {f : Folder}
    → HasUniqueIds fs
    → find p fs ≡ some f
    → find (has_folder_id f.id) fs ≡ some f
unfolding find has_folder_id
find_folder_row p [] keyed h = absurd (ground arith)
find_folder_row p (g ∷ gs) {f} (first, rest) h = elim (Bool-cases (p g)) [
  | inl hit ↦ let same : g ≡ f = ground arith in rw same (rw (==-refl f.id) refl)
  | inr miss ↦
      let later = find_folder_row p gs {f = f} rest (ground arith) in
      elim (Bool-cases (g.id == f.id)) [
        | inl e ↦ absurd (ground (arith, rw ((==_iff g.id f.id).0 e) at first, later))
        | inr e ↦ rw e later
      ]
]
