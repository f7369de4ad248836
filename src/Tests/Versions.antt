-- ===== src/Tests/Versions.antt =====
-- Runs of modules/documents/service.py on uploads, versions and access lists.
use mathlib.Core.List.{Mem}
use ragz.Prelude.{
  ℕ, ◌≡◌, ◌≢◌, refl, ◌+◌, ◌==◌, ◌&&◌, not, true, false, none, some, Option, List, [], ◌∷◌, String,
  Bool, ok, err, upstream_error, All, arith, inr, find, select_where, any,
}
use ragz.Documents.State.{Document, DocDb, DocumentStatus, IndexState, has_document_id}
use ragz.Documents.Reading.{user_can_access_document}
use ragz.Documents.Uploads.{UploadLimits, UploadedContent, total_bytes, create_from_upload}
use ragz.Documents.Capacity.{IsWithin, create_from_upload-IsWithin}
use ragz.Documents.Deletion.{delete_document, run_delete, run_delete_once}
use ragz.Documents.Lineage.{is_version, promote_lineage}
use ragz.Documents.Preference.{IsPreferred}
use ragz.Documents.Promotion.{IsConverged, HasNoPoints, promote_lineage_converges}
use ragz.Documents.Projection.{commit_acl, is_stale}
use ragz.Documents.AclChange.{set_document_acl, reconcile_security_projections}
use ragz.Documents.Stale.{IsKeyed, IsOrdering}
use ragz.Documents.Sweep.{Carries, reconcile_security_projections-settles}
use ragz.Documents.FailClosed.{set_document_acl_fails_closed}
use ragz.Retrieval.Points.{Point}
use ragz.Retrieval.Maintenance.{is_point_of}
use ragz.Retrieval.Memory.{memory}
use ragz.Retrieval.Search.{RetrievalResult, RetrievedChunk, retrieve}
use ragz.Retrieval.Reading.{list_document_chunks}
use ragz.Retrieval.PinnedReads.{pinned_read_serves_old_list}
use ragz.Tests.Tenancy
use ragz.Tests.Documents.{ctx, document, db}
use ragz.Tests.Retrieval.{point, store, scores, tuning, vectors, rerank}

abbrev limits : UploadLimits
limits = record { org_max_documents = 4; org_max_storage_bytes = 50 }

abbrev content : UploadedContent
content = record { size_bytes = 15; sha256 = 77 }

within : IsWithin limits 1 db.documents
unfolding total_bytes ragz.Prelude.count_where
within = (λ on. omega arith, λ on. omega arith)

create_from_upload-IsWithin_example :
    IsWithin limits 1
      (create_from_upload 50 60 900 limits ctx 20 "brief" content none db).1.documents
create_from_upload-IsWithin_example =
    create_from_upload-IsWithin 50 60 900 1 limits ctx 20 "brief" content none db within

-- Two versions of one document: the older is served and approved, the newer is neither.
abbrev older : Document
older = record (document 7 none none) {
  approved = true;
  vectors_present = true;
  is_current = false;
}

abbrev newer : Document
newer = record (document 8 none none) {
  lineage_id = 7;
  version = 2;
  is_current = true;
  vectors_present = true;
}

abbrev versions : DocDb
versions = record db { documents = older ∷ newer ∷ [] }

abbrev promoted : DocDb
promoted = record db {
  documents =
      record older { is_current = true }
      ∷ record newer { is_current = false; vectors_present = false }
      ∷ [];
}

promotion : promote_lineage memory 1 7 versions store ≡ (none, (promoted, point 7 4 ∷ []))
unfolding promote_lineage select_where is_version ragz.Documents.State.is_indexed
    ragz.Prelude.update_where ragz.Retrieval.Filter.delete_document_points ragz.Prelude.delete_where
    ragz.Retrieval.Filter.update_document_current ragz.Retrieval.Filter.tenant_filter
    ragz.Retrieval.Memory.evaluate ragz.Retrieval.Points.patched
promotion = refl

there : select_where (is_version 7) versions.documents ≢ []
unfolding select_where is_version ragz.Documents.State.is_indexed
there e = absurd (ground (arith, e))

promote_lineage_converges_example :
    (effective : Document) × Mem effective versions.documents
    × (is_version 7 effective && effective.vectors_present ≡ true)
    × Mem (record effective { is_current = true }) promoted.documents
    × All (λ d. is_version 7 d ≡ true → IsPreferred effective d) versions.documents
    × All (λ d. is_version 7 d ≡ true → IsConverged effective d) promoted.documents
    × All (λ p. is_point_of 1 effective.id p ≡ true → p.is_current ≡ some true) (point 7 4 ∷ [])
    × All
        (λ d.
          is_version 7 d ≡ true
          → not (d.id == effective.id) && d.vectors_present ≡ true
          → HasNoPoints memory 1 effective d.id (point 7 4 ∷ []))
        versions.documents
promote_lineage_converges_example =
    promote_lineage_converges memory 1 7 versions promoted store (point 7 4 ∷ []) there promotion

-- A change of the list of document 8 that does not get through, and a search during which it is made.
abbrev grouped : DocDb
grouped = record db {
  tenancy = record Tenancy.db { groups = record { id = 4; org_id = 1; name = "team" } ∷ [] };
}

abbrev changed : DocDb
changed = (set_document_acl memory false ctx 8 (some (4 ∷ [])) grouped store).1.0

abbrev found : RetrievalResult scores
found = record {
  chunks =
      record {
        document_id = 7;
        page = 1;
        chunk_index = 0;
        text = "text";
        score = 3;
        section = none;
        version = 1;
      }
      ∷ [];
  no_answer = false;
}

search_runs :
    retrieve scores memory rerank ctx 20 tuning vectors none [] Tenancy.db grouped.documents store
      changed.documents store
    ≡ ok found
unfolding retrieve ragz.Tenancy.Members.get_workspace_checked find
    ragz.Tenancy.State.is_workspace_in ragz.Tenancy.State.is_user_tier select_where
    ragz.Retrieval.Filter.tenant_filter ragz.Retrieval.Memory.evaluate ragz.Retrieval.Filter.ctx_acl
    ragz.Prelude.str_elem set_document_acl ragz.Documents.Reading.get_document_checked
    ragz.Documents.State.is_document_in user_can_access_document
    ragz.Documents.Reading.is_unprojected ragz.Documents.State.is_active_index
    ragz.Tenancy.State.is_group_in ragz.Prelude.update_where has_document_id
search_runs = refl

set_document_acl_fails_closed_example :
    ((set_document_acl memory false ctx 8 (some (4 ∷ [])) grouped store).0 ≡ err upstream_error)
    × (find (has_document_id 8) changed.documents
        ≡ some (record (document 8 (some 3) none) {
          acl_group_ids = some (4 ∷ []);
          security_revision = 1;
          index_state = IndexState.failed;
        }))
    × ((set_document_acl memory false ctx 8 (some (4 ∷ [])) grouped store).1.1 ≡ store)
    × All (λ c. (c.document_id == 8) ≡ false) found.chunks
unfolding find has_document_id user_can_access_document ragz.Documents.State.is_document_in
    ragz.Tenancy.State.is_user_tier ragz.Documents.AclChange.are_known ragz.Prelude.any
    ragz.Tenancy.State.is_group_in
set_document_acl_fails_closed_example =
    set_document_acl_fails_closed scores memory ctx 8 (some (4 ∷ [])) grouped store
      (document 8 (some 3) none) rerank ctx tuning vectors none [] Tenancy.db grouped.documents
      changed.documents store store found refl refl refl refl refl (inr refl) search_runs

-- The sweep after that.
in_table_order : IsOrdering (λ ds. ds)
in_table_order = record { into = λ P ds h. h; back = λ P ds h. h; same_length = λ ds. refl }

changed-IsKeyed : IsKeyed changed.documents
unfolding find has_document_id set_document_acl ragz.Documents.Reading.get_document_checked
    ragz.Documents.State.is_document_in user_can_access_document ragz.Tenancy.State.is_user_tier
    ragz.Prelude.any ragz.Tenancy.State.is_group_in ragz.Prelude.update_where
changed-IsKeyed = (refl, (refl, (refl, tt)))

reconcile_security_projections-settles_example :
    let (db', s') =
      reconcile_security_projections memory (λ ds. ds) (λ _. true) 500 changed store in
    All (λ d. is_stale d ≡ false) db'.documents
    × All (λ d. is_stale d ≡ true → Carries memory s' d) changed.documents
unfolding is_stale select_where set_document_acl ragz.Documents.Reading.get_document_checked find
    ragz.Documents.State.is_document_in user_can_access_document ragz.Tenancy.State.is_user_tier
    ragz.Prelude.any ragz.Tenancy.State.is_group_in ragz.Prelude.update_where
    ragz.Documents.State.is_active_index has_document_id ragz.Documents.State.is_deleting
reconcile_security_projections-settles_example =
    reconcile_security_projections-settles memory (λ ds. ds) 500 changed store in_table_order
      changed-IsKeyed (omega arith)

-- A member of the old group, whom the new list of document 7 refuses.
abbrev regrouped : DocDb
regrouped = record grouped {
  tenancy = record Tenancy.db { groups = record { id = 5; org_id = 1; name = "other" } ∷ [] };
}

pinned_read_serves_old_list_example :
    let (answer, (after, s')) =
      set_document_acl memory false ctx 7 (some (5 ∷ [])) regrouped store in
    (answer ≡ err upstream_error)
    × ((row : Document) × (find (has_document_id 7) after.documents ≡ some row)
        × (user_can_access_document ctx row ≡ false))
    × ((chunks : List (RetrievedChunk scores)) × (list_document_chunks scores memory 1 ctx 20 7 s'
          ≡ ok chunks)
        × (any (λ c. c.document_id == 7) chunks ≡ true))
unfolding find ragz.Documents.State.is_document_in has_document_id user_can_access_document
    ragz.Tenancy.State.is_user_tier ragz.Prelude.str_elem any ragz.Prelude.id_elem
    ragz.Documents.AclChange.are_known ragz.Tenancy.State.is_group_in commit_acl
    ragz.Retrieval.Filter.ctx_acl
pinned_read_serves_old_list_example =
    pinned_read_serves_old_list scores memory 1 ctx (some (5 ∷ [])) regrouped store
      (document 7 (some 2) (some (4 ∷ []))) ctx refl refl refl refl refl refl refl

-- The newer version is asked to go and goes; the older one is served again.
abbrev asked : DocDb
asked = (delete_document 60 900 ctx 8 versions).1

abbrev erased : DocDb
erased = (run_delete memory 8 (some 2) asked store).1.0

older_served : find (λ d. d.is_current) erased.documents ≡ some (record older { is_current = true })
unfolding find run_delete delete_document ragz.Documents.Reading.get_document_checked
    ragz.Documents.State.is_document_in user_can_access_document ragz.Tenancy.State.is_user_tier
    ragz.Prelude.update_where has_document_id promote_lineage select_where ragz.Prelude.delete_where
    is_version ragz.Documents.State.is_indexed
older_served = refl

run_delete_once_example :
    (find (has_document_id 8) erased.documents ≡ none)
    × All (λ p. is_point_of 1 8 p ≡ false) (run_delete memory 8 (some 2) asked store).1.1
    × (run_delete memory 8 none erased (run_delete memory 8 (some 2) asked store).1.1
        ≡ (none, (erased, (run_delete memory 8 (some 2) asked store).1.1)))
unfolding find delete_document ragz.Documents.Reading.get_document_checked
    ragz.Documents.State.is_document_in user_can_access_document ragz.Tenancy.State.is_user_tier
    ragz.Prelude.update_where has_document_id
run_delete_once_example =
    run_delete_once memory 8 (some 2) none asked store
      (record newer { status = DocumentStatus.deleting; deleted_by = some 2 }) refl
