-- ===== src/Documents/Lineage.antt =====
-- modules/documents/service.py: the versions of a document, of which one is served.
use ragz.Prelude.{
  ℕ, Bool, true, not, ◌&&◌, Option, none, some, List, [], ◌∷◌, Result, ok, err, ◌==◌, if◌then◌else◌,
  select_where, update_where,
}
use ragz.Tenancy.State.{TenantContext}
use ragz.Outbox.{publish}
use ragz.Documents.State.{Document, DocDb, audit_row, has_document_id, is_indexed}
use ragz.Documents.Reading.{get_document_checked}
use ragz.Documents.Uploads.{newest}
use ragz.Retrieval.Points.{Qdrant}
use ragz.Retrieval.Filter.{update_document_current, delete_document_points}

-- `Document.lineage_id == lineage_id, Document.status == "indexed"`
unfoldable pub is_version : ℕ → Document → Bool
is_version lineage_id d = d.lineage_id == lineage_id && is_indexed d.status

-- `approved_rows or rows`
unfoldable pub candidates : List Document → List Document
candidates rows = elim (select_where (λ d. d.approved) rows) [ [] ↦ rows | r ∷ rs ↦ r ∷ rs ]

-- The flags of a version after the promotion of `effective`.
unfoldable pub converged : Document → Document → Document
converged effective d = record d {
  is_current = d.id == effective.id;
  vectors_present = d.vectors_present && d.id == effective.id;
}

module _ {Score : Type 0} (q : Qdrant Score) where
  open q use {Store}

  -- The points of the other versions that have any are deleted.
  unfoldable pub delete_demoted : ℕ → Document → List Document → Store → Store
  delete_demoted org effective [] s = s
  delete_demoted org effective (d ∷ ds) s = delete_demoted org effective ds (
      if not (d.id == effective.id) && d.vectors_present
      then delete_document_points q org d.id s
      else s)

  unfoldable pub promote : ℕ → ℕ → Document → DocDb → Store → Option ℕ × (DocDb × Store)
  unfolding converged delete_demoted
  promote org lineage_id effective db s =
      if not effective.vectors_present then (some effective.id, (db, s)) else (
        none,
        (
          record db {
            documents = update_where (is_version lineage_id) (converged effective) db.documents;
          },
          delete_demoted org effective (select_where (is_version lineage_id) db.documents)
              (update_document_current q org effective.id true s),
        ),
      )

  -- The id of a version that has to be indexed again first, beside the tables and the store.
  unfoldable pub promote_lineage : ℕ → ℕ → DocDb → Store → Option ℕ × (DocDb × Store)
  unfolding promote candidates newest
  promote_lineage org lineage_id db s =
      elim (newest (candidates (select_where (is_version lineage_id) db.documents))) [
        | none ↦ (none, (db, s))
        | some effective ↦ promote org lineage_id effective db s
      ]

  abbrev publish_reindex : (event now : ℕ) → Option ℕ → DocDb → DocDb
  publish_reindex event now none db = db
  publish_reindex event now (some k) db = record db {
    outbox = publish event now "documents.reindex" k "interactive" db.outbox;
  }

  unfoldable pub set_approved :
      (event now : ℕ)
      → TenantContext
      → ℕ
      → Bool
      → DocDb
      → Store
      → Result (Option ℕ) × (DocDb × Store)
  unfolding promote_lineage audit_row
  set_approved event now ctx document_id approved db s =
      elim (get_document_checked ctx document_id db.documents) [
        | err e ↦ (err e, (db, s))
        | ok doc ↦
            let written =
              audit_row ctx (if approved then "document.approved" else "document.unapproved")
                document_id
                (record db {
                  documents =
                      update_where (has_document_id document_id)
                        (λ d. record d { approved = approved }) db.documents;
                }) in
            let (again, promoted) = promote_lineage ctx.org_id doc.lineage_id written s in
            (ok again, (publish_reindex event now again promoted.0, promoted.1))
      ]
