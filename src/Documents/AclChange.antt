-- ===== src/Documents/AclChange.antt =====
-- modules/documents/service.py: a change of a document's access list, and the sweep of
-- modules/documents/ingest.py that projects again what was not.
use ragz.Prelude.{
  ℕ, Bool, true, not, ◌&&◌, Option, none, some, List, [], ◌∷◌, Result, ok, err, not_found,
  upstream_error, if◌then◌else◌, select_where, update_where, any, take,
}
use ragz.Tenancy.State.{TenantContext, Group, is_group_in}
use ragz.Documents.State.{Document, DocDb, audit_row, has_document_id}
use ragz.Documents.Reading.{get_document_checked}
use ragz.Documents.Projection.{commit_acl, activate, fail_projection, is_stale}
use ragz.Retrieval.Points.{Qdrant}
use ragz.Retrieval.Filter.{update_document_acl}

-- `owned == set(acl_group_ids)`: every group is one of the organisation's.
unfoldable pub are_owned : ℕ → List Group → List ℕ → Bool
are_owned org groups [] = true
are_owned org groups (g ∷ gs) = any (is_group_in g org) groups && are_owned org groups gs

unfoldable pub are_known : ℕ → List Group → Option (List ℕ) → Bool
unfolding are_owned
are_known org groups none = true
are_known org groups (some acl) = are_owned org groups acl

unfoldable pub write_document : ℕ → (Document → Document) → DocDb → DocDb
write_document k f db = record db { documents = update_where (has_document_id k) f db.documents }

module _ {Score : Type 0} (q : Qdrant Score) where
  open q use {Store}

  -- `doc` is the row as the session read it; `reachable` tells whether the store answers.
  unfoldable pub project_document_security :
      (reachable : Bool) → Document → DocDb → Store → Result (Unit {0}) × (DocDb × Store)
  unfolding write_document activate fail_projection
  project_document_security reachable doc db s =
      if reachable
      then (
        ok tt,
        (
          write_document doc.id (activate doc.security_revision) db,
          update_document_acl q doc.org_id doc.id doc.acl_group_ids s,
        ),
      )
      else (err upstream_error, (write_document doc.id fail_projection db, s))

  unfoldable pub set_document_acl :
      (reachable : Bool)
      → TenantContext
      → ℕ
      → Option (List ℕ)
      → DocDb
      → Store
      → Result (Unit {0}) × (DocDb × Store)
  unfolding project_document_security are_known commit_acl write_document audit_row
  set_document_acl reachable ctx document_id acl db s =
      elim (get_document_checked ctx document_id db.documents) [
        | err e ↦ (err e, (db, s))
        | ok doc ↦
            if not (are_known ctx.org_id db.tenancy.groups acl)
            then (err not_found, (db, s))
            else project_document_security reachable (commit_acl acl doc)
                (audit_row ctx "document.acl_changed" document_id
                  (write_document document_id (commit_acl acl) db))
                s
      ]

  -- The loop of the sweep: one document that cannot be projected does not stop it.
  unfoldable pub project_all :
      (reachable : ℕ → Bool) → List Document → DocDb → Store → DocDb × Store
  unfolding project_document_security
  project_all reachable [] db s = (db, s)
  project_all reachable (d ∷ ds) db s =
      let (_, (db', s')) = project_document_security (reachable d.id) d db s in
      project_all reachable ds db' s'

  -- `by_update` is the order of the rows by the time of their last update.
  unfoldable pub reconcile_security_projections :
      (by_update : List Document → List Document)
      → (reachable : ℕ → Bool) → ℕ
      → DocDb
      → Store
      → DocDb × Store
  unfolding project_all is_stale
  reconcile_security_projections by_update reachable limit db s =
      project_all reachable (take limit (by_update (select_where is_stale db.documents))) db s
