-- ===== src/Documents/Promotion.antt =====
-- modules/documents/service.py: which version of a document is served after a promotion.
use mathlib.Core.List.{Mem, mem-cons_self, mem-cons_of_mem}
use ragz.Prelude.{
  ℕ, ◌≡◌, ◌≢◌, refl, true, false, not, ◌&&◌, none, some, List, [], ◌∷◌, ◌==◌, arith, inl, inr,
  Bool-cases, Option-cases, select_where, update_where, All, All-unselected, All-map, All-intro,
  Bool, ==-refl, if◌then◌else◌, All-delete_where, All-deleted, List-cases, update_where-All,
}
use ragz.Documents.State.{Document, DocDb}
use ragz.Documents.Uploads.{newest}
use ragz.Documents.Lineage.{
  is_version, candidates, converged, delete_demoted, promote, promote_lineage,
}
use ragz.Retrieval.Points.{Point, Qdrant}
use ragz.Retrieval.Filter.{update_document_current, delete_document_points}
use ragz.Retrieval.Maintenance.{
  is_point_of, points-delete_document_points, points-update_document_current,
}
use ragz.Documents.Preference.{newest-none, IsPreferred, candidates-IsPreferred, newest_version}

-- The flags of the versions after a promotion.
abbrev pub IsConverged : Document → Document → Type 0
IsConverged effective d =
    (d.is_current ≡ d.id == effective.id)
    × (d.vectors_present ≡ true → (d.id == effective.id) ≡ true)

converged-IsConverged :
    (lineage_id : ℕ) (effective : Document) (ds : List Document)
    → All
        (λ d. is_version lineage_id d ≡ true → IsConverged effective d)
        (update_where (is_version lineage_id) (converged effective) ds)
unfolding converged is_version
converged-IsConverged lineage_id effective ds =
    update_where-All (λ d. is_version lineage_id d ≡ true → IsConverged effective d)
      (is_version lineage_id) (converged effective) ds
      (λ d is _. (refl, λ have. ground (arith, have)))
      (λ d other is. absurd (ground (arith, other, is)))

module _ {Score : Type 0} (q : Qdrant Score) (org : ℕ) (effective : Document) where
  -- No point of a document is left.
  abbrev pub HasNoPoints : ℕ → q.Store → Type 0
  HasNoPoints k s = All (λ p. is_point_of org k p ≡ false) (q.points s)

  pub delete_demoted-All :
      (P : Point → Type 0) (ds : List Document) (s : q.Store)
      → All P (q.points s)
      → All P (q.points (delete_demoted q org effective ds s))
  unfolding delete_demoted
  delete_demoted-All P [] s all = all
  delete_demoted-All P (d ∷ ds) s all =
      elim (Bool-cases (not (d.id == effective.id) && d.vectors_present)) [
        | inr e ↦ rw e (delete_demoted-All P ds s all)
        | inl e ↦ rw e (
            delete_demoted-All P ds (delete_document_points q org d.id s) (
              rw (points-delete_document_points q org d.id s)
                (All-delete_where P (is_point_of org d.id) (q.points s) all)))
      ]

  delete_demoted-HasNoPoints :
      (ds : List Document) (s last : q.Store)
      → delete_demoted q org effective ds s ≡ last
      → All (λ d. not (d.id == effective.id) && d.vectors_present ≡ true → HasNoPoints d.id last) ds
  unfolding delete_demoted
  delete_demoted-HasNoPoints [] s last h = tt
  delete_demoted-HasNoPoints (d ∷ ds) s last h =
      elim (Bool-cases (not (d.id == effective.id) && d.vectors_present)) [
        | inr e ↦
            (λ e'. absurd (ground (arith, e, e')), delete_demoted-HasNoPoints ds s last (rw e at h))
        | inl e ↦
            let next = delete_document_points q org d.id s in
            let rest : delete_demoted q org effective ds next ≡ last = rw e at h in
            (
              λ _. rw (← rest) (
                  delete_demoted-All (λ p. is_point_of org d.id p ≡ false) ds next
                    (rw (points-delete_document_points q org d.id s)
                      (All-deleted (is_point_of org d.id) (q.points s)))),
              delete_demoted-HasNoPoints ds next last rest,
            )
      ]

  marked_current :
      (s : q.Store)
      → All
          (λ p. is_point_of org effective.id p ≡ true → p.is_current ≡ some true)
          (q.points (update_document_current q org effective.id true s))
  marked_current s = rw (points-update_document_current q org effective.id s true) (
      update_where-All (λ p. is_point_of org effective.id p ≡ true → p.is_current ≡ some true)
        (is_point_of org effective.id) (λ p. record p { is_current = some true }) (q.points s)
        (λ p is _. refl) (λ p other is. absurd (ground (arith, other, is))))

All-Mem : (ds : List Document) → All (λ d. Mem d ds) ds
All-Mem [] = tt
All-Mem (d ∷ ds) = (
  mem-cons_self,
  All-map (λ x. Mem x ds) (λ x. Mem x (d ∷ ds)) ds (λ x. mem-cons_of_mem d) (All-Mem ds),
)

-- The rows that an update rewrites are in the table after it.
Mem-update_where :
    (q : Document → Bool) (f : Document → Document) (ds : List Document)
    → All (λ d. q d ≡ true → Mem (f d) (update_where q f ds)) ds
unfolding update_where
Mem-update_where q f [] = tt
Mem-update_where q f (d ∷ ds) = (
  λ is. rw is mem-cons_self,
  All-map (λ x. q x ≡ true → Mem (f x) (update_where q f ds))
      (λ x. q x ≡ true → Mem (f x) (update_where q f (d ∷ ds))) ds
      (λ x held is. mem-cons_of_mem (if q d then f d else d) (held is)) (Mem-update_where q f ds),
)

served :
    (effective : Document)
    → effective.vectors_present ≡ true
    → converged effective effective ≡ record effective { is_current = true }
unfolding converged
served effective present = rw (==-refl effective.id, present) refl

candidates_nil : (rows : List Document) → candidates rows ≡ [] → rows ≡ []
unfolding candidates
candidates_nil rows h = elim (List-cases (select_where (λ d. d.approved) rows)) [
  | inl e ↦ rw (e, candidates) at h
  | inr (a, more, e) ↦ absurd (ground (arith, e))
]

-- After a promotion that needs no indexing, in a lineage that has an indexed version: one of the
-- lineage's indexed documents that has points is in the table as it was, but current, and no other
-- indexed version is current; it is approved where any is, and the
-- newest of those that are as it is; only it counts as having points, its points are marked as
-- current, and those of each other version that had any are gone.
pub promote_lineage_converges :
    {Score : Type 0} (q : Qdrant Score) (org lineage_id : ℕ) (db after : DocDb) (s last : q.Store)
    → select_where (is_version lineage_id) db.documents ≢ []
    → promote_lineage q org lineage_id db s ≡ (none, (after, last))
    → (effective : Document) × Mem effective db.documents
      × (is_version lineage_id effective && effective.vectors_present ≡ true)
      × Mem (record effective { is_current = true }) after.documents
      × All (λ d. is_version lineage_id d ≡ true → IsPreferred effective d) db.documents
      × All (λ d. is_version lineage_id d ≡ true → IsConverged effective d) after.documents
      × All (λ p. is_point_of org effective.id p ≡ true → p.is_current ≡ some true) (q.points last)
      × All
          (λ d.
            is_version lineage_id d ≡ true
            → not (d.id == effective.id) && d.vectors_present ≡ true
            → HasNoPoints q org effective d.id last)
          db.documents
unfolding promote_lineage promote
promote_lineage_converges q org lineage_id db after s last versions h =
    elim (Option-cases (newest (candidates (select_where (is_version lineage_id) db.documents)))) [
      | inl e ↦
          let rows = select_where (is_version lineage_id) db.documents in
          absurd (versions (candidates_nil rows (newest-none (candidates rows) e)))
      | inr (effective, e) ↦ elim (Bool-cases effective.vectors_present) [
        | inr missing ↦ absurd (ground (arith, e, missing))
        | inl present ↦
            let rows = select_where (is_version lineage_id) db.documents in
            let marked = update_document_current q org effective.id true s in
            let written : update_where (is_version lineage_id) (converged effective) db.documents
                ≡ after.documents =
              ground (arith, e, present) in
            let deleted : delete_demoted q org effective rows marked ≡ last =
              ground (arith, e, present) in
            (
              effective,
              newest_version (λ d. Mem d db.documents) lineage_id db.documents
                  {effective = effective}
                  (All-map (λ d. Mem d db.documents)
                    (λ d. is_version lineage_id d ≡ true → Mem d db.documents) db.documents
                    (λ d there _. there) (All-Mem db.documents))
                  e,
              ground (
                arith,
                newest_version (λ d. is_version lineage_id d ≡ true) lineage_id db.documents
                    {effective = effective}
                    (All-intro
                      (λ d. is_version lineage_id d ≡ true → is_version lineage_id d ≡ true)
                      db.documents (λ d is. is))
                    e,
              ),
              rw (← written, ← served effective present)
                  (newest_version
                    (λ d.
                      Mem (converged effective d)
                        (update_where (is_version lineage_id) (converged effective) db.documents))
                    lineage_id db.documents {effective = effective}
                    (Mem-update_where (is_version lineage_id) (converged effective) db.documents)
                    e),
              All-unselected (IsPreferred effective) (is_version lineage_id) db.documents
                  (candidates-IsPreferred rows {effective = effective} e),
              rw (← written) (converged-IsConverged lineage_id effective db.documents),
              rw (← deleted) (
                  delete_demoted-All q org effective
                    (λ p. is_point_of org effective.id p ≡ true → p.is_current ≡ some true) rows
                    marked (marked_current q org effective s)),
              All-unselected
                  (λ d.
                    not (d.id == effective.id) && d.vectors_present ≡ true
                    → HasNoPoints q org effective d.id last)
                  (is_version lineage_id) db.documents
                  (delete_demoted-HasNoPoints q org effective rows marked last deleted),
            )
      ]
    ]
