-- ===== src/Documents/Stale.antt =====
-- modules/documents/ingest.py: the rows that a sweep has yet to take.
use ragz.Prelude.{
  ◌≡◌, ap, true, List, [], ◌∷◌, map, ◌==◌, some, arith, inl, inr, Bool-cases, find, update_where,
  id_elem, All, All-map, All-update_where, length, ==_iff, ==-refl,
}
use ragz.Documents.State.{Document, has_document_id, is_active_index}
use ragz.Documents.Projection.{activate, is_stale}

-- A primary key.
abbrev pub IsKeyed : List Document → Type 0
IsKeyed ds = All (λ d. find (has_document_id d.id) ds ≡ some d) ds

-- An `ORDER BY` gives the same rows.
pub record IsOrdering (order : List Document → List Document) : Type 1 where
  pub into : (P : Document → Type 0) (ds : List Document) → All P ds → All P (order ds)
  pub back : (P : Document → Type 0) (ds : List Document) → All P (order ds) → All P ds
  pub same_length : (ds : List Document) → length (order ds) ≡ length ds

-- Rows of one id are the same row.
abbrev pub AgreeOn : List Document → Document → Type 0
AgreeOn ds l = All (λ d. (d.id == l.id) ≡ true → d ≡ l) ds

pub same_row :
    (ds : List Document) (l d : Document)
    → find (has_document_id l.id) ds ≡ some l
    → find (has_document_id d.id) ds ≡ some d
    → (d.id == l.id) ≡ true
    → d ≡ l
same_row ds l d h k same =
    let ids : find (has_document_id d.id) ds ≡ find (has_document_id l.id) ds =
      ap (λ i. find (has_document_id i) ds) ((==_iff d.id l.id).0 same) in
    cc

pub keyed-AgreeOn : (ds : List Document) → IsKeyed ds → All (AgreeOn ds) ds
keyed-AgreeOn ds keyed =
    All-map (λ l. find (has_document_id l.id) ds ≡ some l) (AgreeOn ds) ds
      (λ l found.
        All-map (λ d. find (has_document_id d.id) ds ≡ some d) (λ d. (d.id == l.id) ≡ true → d ≡ l)
          ds (λ d found'. same_row ds l d found found') keyed)
      keyed

-- A row's revision is that of the rows of its id.
abbrev pub SameRevision : List Document → Document → Type 0
SameRevision ds l = All (λ d. (d.id == l.id) ≡ true → d.security_revision ≡ l.security_revision) ds

pub same_revision : (ds : List Document) (l : Document) → AgreeOn ds l → SameRevision ds l
same_revision ds l agree =
    All-map (λ d. (d.id == l.id) ≡ true → d ≡ l)
      (λ d. (d.id == l.id) ≡ true → d.security_revision ≡ l.security_revision) ds
      (λ d same e. ap (λ x. x.security_revision) (same e)) agree

-- The rows that a sweep has yet to take: each stale one is among them, at its own revision.
abbrev pub IsDue : List Document → List Document → Type 0
IsDue ls ds =
    All (λ d. is_stale d ≡ true → id_elem d.id (map (λ l. l.id) ls) ≡ true) ds
    × All (SameRevision ds) ls

activated_listed :
    (l : Document) (ls ds : List Document)
    → All (λ d. is_stale d ≡ true → id_elem d.id (map (λ l. l.id) (l ∷ ls)) ≡ true) ds
    → All (λ d. (d.id == l.id) ≡ true → d.security_revision ≡ l.security_revision) ds
    → All
        (λ d. is_stale d ≡ true → id_elem d.id (map (λ l. l.id) ls) ≡ true)
        (update_where (has_document_id l.id) (activate l.security_revision) ds)
unfolding has_document_id activate is_stale is_active_index id_elem update_where
activated_listed l ls [] listed agree = tt
activated_listed l ls (d ∷ ds) (here, listed) (same, agree) = elim (Bool-cases (d.id == l.id)) [
  | inl e ↦ rw e (λ stale. absurd (ground (arith, same e)), activated_listed l ls ds listed agree)
  | inr e ↦ rw e (λ stale. ground (arith, here stale, e), activated_listed l ls ds listed agree)
]

pub activated-IsDue :
    (l : Document) (ls ds : List Document)
    → IsDue (l ∷ ls) ds
    → IsDue ls (update_where (has_document_id l.id) (activate l.security_revision) ds)
unfolding has_document_id activate
activated-IsDue l ls ds (listed, agree) = (
  activated_listed l ls ds listed agree.0,
  All-map (SameRevision ds)
      (SameRevision (update_where (has_document_id l.id) (activate l.security_revision) ds)) ls
      (λ l' all.
        All-update_where (λ d. (d.id == l'.id) ≡ true → d.security_revision ≡ l'.security_revision)
          (λ d. (d.id == l'.id) ≡ true → d.security_revision ≡ l'.security_revision)
          (has_document_id l.id) (activate l.security_revision) ds
          (λ d hit h same. ground (arith, h)) (λ d miss h. h) all)
      agree.1,
)

-- Each row is listed among its own.
pub listed_self : (ls : List Document) → All (λ l. id_elem l.id (map (λ l. l.id) ls) ≡ true) ls
unfolding id_elem
listed_self [] = tt
listed_self (l ∷ ls) = (
  ground (arith, ==-refl l.id),
  All-map (λ d. id_elem d.id (map (λ l. l.id) ls) ≡ true)
      (λ d. id_elem d.id (map (λ l. l.id) (l ∷ ls)) ≡ true) ls (λ d h. ground (arith, h))
      (listed_self ls),
)
