-- ===== src/Documents/Deletion.antt =====
-- The deletion of one document: the route of api/routes/documents.py that asks for it, and run_delete
-- of modules/documents/ingest.py that does it. The rows of ingest jobs are left out.
use ragz.Prelude.{
  ℕ, ◌≡◌, refl, ◌∙◌, true, false, Option, none, some, List, [], ◌∷◌, ◌++◌, Result, ok, ◌>>=◌,
  transaction, arith, inl, inr, Bool-cases, Option-cases, find, select_where, update_where,
  delete_where, All, All-deleted, All-update_where, ==_iff, find-update_where, find-none,
  find_holds, ◌⊎◌,
}
use ragz.Auth.State.{AuditTarget, audit_event}
use ragz.Tenancy.State.{TenantContext}
use ragz.Outbox.{publish}
use ragz.Documents.State.{Document, DocDb, has_document_id}
use ragz.Documents.Reading.{get_document_checked}
use ragz.Documents.Subtree.{set_deleting}
use ragz.Documents.Uploads.{newest}
use ragz.Documents.Lineage.{
  is_version, candidates, converged, delete_demoted, promote, promote_lineage,
}
use ragz.Documents.Promotion.{HasNoPoints, delete_demoted-All}
use ragz.Retrieval.Points.{Qdrant}
use ragz.Retrieval.Filter.{delete_document_points, update_document_current}
use ragz.Retrieval.Maintenance.{
  is_point_of, points-delete_document_points, points-update_document_current,
}

-- `delete_document`, with the id that the event draws.
unfoldable pub delete_document :
    (event now : ℕ) → TenantContext → ℕ → DocDb → Result (Unit {0}) × DocDb
unfolding set_deleting
delete_document event now ctx document_id db = transaction db (do
  doc ← get_document_checked ctx document_id db.documents
  ok (
    tt,
    record db {
      documents =
          update_where (has_document_id document_id) (set_deleting ctx.user_id) db.documents;
      outbox = publish event now "documents.delete" document_id "interactive" db.outbox;
    },
  ))

-- The row is gone, and its deletion in the audit trail.
unfoldable erase : Option ℕ → Document → DocDb → DocDb
erase actor_id doc db = record db {
  tenancy = record db.tenancy {
    audit =
        db.tenancy.audit
        ++ (audit_event (some doc.org_id) actor_id "document.deleted" (AuditTarget.row doc.id)
            ∷ []);
  };
  documents = delete_where (has_document_id doc.id) db.documents;
}

module _ {Score : Type 0} (q : Qdrant Score) where
  unfoldable pub run_delete :
      ℕ → (actor_id : Option ℕ) → DocDb → q.Store → Option ℕ × (DocDb × q.Store)
  unfolding erase
  run_delete document_id actor_id db s = elim (find (has_document_id document_id) db.documents) [
    | none ↦ (none, (db, s))
    | some doc ↦
        promote_lineage q doc.org_id doc.lineage_id (erase actor_id doc db)
          (delete_document_points q doc.org_id doc.id s)
  ]

find-delete_where_gone :
    (k : ℕ) (ds : List Document)
    → find (has_document_id k) (delete_where (has_document_id k) ds) ≡ none
find-delete_where_gone k ds =
    find-none (has_document_id k) (delete_where (has_document_id k) ds)
      (All-deleted (has_document_id k) ds)

module _ {Score : Type 0} (q : Qdrant Score) (org lineage_id k : ℕ) where
  marked-HasNoPoints :
      (effective : Document) (s : q.Store)
      → HasNoPoints q org effective k s
      → HasNoPoints q org effective k (update_document_current q org effective.id true s)
  marked-HasNoPoints effective s h = rw (points-update_document_current q org effective.id s true) (
      All-update_where (λ p. is_point_of org k p ≡ false) (λ p. is_point_of org k p ≡ false)
        (is_point_of org effective.id) (λ p. record p { is_current = some true }) (q.points s)
        (λ p _ none_left. none_left) (λ p _ none_left. none_left) h)

  promote_lineage-cases :
      (db : DocDb) (s : q.Store)
      → ((again : Option ℕ) × (promote_lineage q org lineage_id db s ≡ (again, (db, s))))
        ⊎ ((effective : Document) × (promote_lineage q org lineage_id db s ≡ (
          none,
          (
            record db {
              documents = update_where (is_version lineage_id) (converged effective) db.documents;
            },
            delete_demoted q org effective
                (select_where (is_version lineage_id) db.documents)
                (update_document_current q org effective.id true s),
          ),
        )))
  unfolding promote_lineage promote
  promote_lineage-cases db s =
      elim (Option-cases
        (newest (candidates (select_where (is_version lineage_id) db.documents)))) [
          | inl e ↦ inl (none, ground (arith, e))
          | inr (effective, e) ↦ elim (Bool-cases effective.vectors_present) [
            | inr missing ↦ inl (some effective.id, ground (arith, e, missing))
            | inl present ↦ inr (effective, ground (arith, e, present))
          ]
        ]

  -- A promotion brings back neither a row that is gone nor a point of it.
  promote_lineage_keeps_gone :
      (db : DocDb) (s : q.Store)
      → find (has_document_id k) db.documents ≡ none
      → All (λ p. is_point_of org k p ≡ false) (q.points s)
      → (find (has_document_id k) (promote_lineage q org lineage_id db s).1.0.documents ≡ none)
        × All
            (λ p. is_point_of org k p ≡ false)
            (q.points (promote_lineage q org lineage_id db s).1.1)
  unfolding has_document_id converged
  promote_lineage_keeps_gone db s gone no_points = elim (promote_lineage-cases db s) [
    | inl (again, e) ↦ rw e (gone, no_points)
    | inr (effective, e) ↦ rw e (
      find-update_where (has_document_id k) (is_version lineage_id) (converged effective)
            db.documents (λ d. refl)
          ∙ rw gone refl,
      delete_demoted-All q org effective (λ p. is_point_of org k p ≡ false)
          (select_where (is_version lineage_id) db.documents)
          (update_document_current q org effective.id true s)
          (marked-HasNoPoints effective s no_points),
    )
  ]

  erased_points :
      (s : q.Store)
      → All (λ p. is_point_of org k p ≡ false) (q.points (delete_document_points q org k s))
  erased_points s =
      rw (points-delete_document_points q org k s) (All-deleted (is_point_of org k) (q.points s))

module _ {Score : Type 0} (q : Qdrant Score) (k : ℕ) (actor_id : Option ℕ) (db : DocDb)
    (s : q.Store) where
  run_delete_gone :
      find (has_document_id k) db.documents ≡ none → run_delete q k actor_id db s ≡ (none, (db, s))
  unfolding run_delete
  run_delete_gone gone = ground (arith, gone)

  run_delete_found :
      (d : Document)
      → find (has_document_id k) db.documents ≡ some d
      → run_delete q k actor_id db s
        ≡ promote_lineage q d.org_id d.lineage_id
            (erase actor_id d db)
            (delete_document_points q d.org_id d.id s)
  unfolding run_delete
  run_delete_found d found = ground (arith, found)

-- After a deletion has run the document's row is gone and no point of it is left, and running it
-- again, as the dispatcher may, changes nothing and asks for no indexing.
pub run_delete_once :
    {Score : Type 0} (q : Qdrant Score) (k : ℕ) (actor_id again_by : Option ℕ) (db : DocDb)
    (s : q.Store) (d : Document)
    → find (has_document_id k) db.documents ≡ some d
    → let (_, (after, last)) = run_delete q k actor_id db s in
      (find (has_document_id k) after.documents ≡ none)
      × All (λ p. is_point_of d.org_id k p ≡ false) (q.points last)
      × (run_delete q k again_by after last ≡ (none, (after, last)))
unfolding erase has_document_id
run_delete_once q k actor_id again_by db s d found =
    let at : d.id ≡ k =
      (==_iff d.id k).0 (find_holds (has_document_id k) db.documents {a = d} found) in
    let erased_row : find (has_document_id k) (erase actor_id d db).documents ≡ none =
      rw at (find-delete_where_gone k db.documents) in
    let (gone, no_points) =
      promote_lineage_keeps_gone q d.org_id d.lineage_id k (erase actor_id d db)
        (delete_document_points q d.org_id d.id s) erased_row
        (rw at (erased_points q d.org_id d.lineage_id k s)) in
    rw (run_delete_found q k actor_id db s d found) (
      gone,
      no_points,
      run_delete_gone q k again_by
          (promote_lineage q d.org_id d.lineage_id (erase actor_id d db)
            (delete_document_points q d.org_id d.id s)).1.0
          (promote_lineage q d.org_id d.lineage_id (erase actor_id d db)
            (delete_document_points q d.org_id d.id s)).1.1
          gone,
    )
