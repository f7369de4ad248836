-- ===== src/Documents/Uploads.antt =====
-- modules/documents/service.py: the upload of a document, and what changes only its row.
use ragz.Prelude.{
  ℕ, ◌+◌, Bool, false, not, ◌&&◌, Option, none, some, List, [], ◌∷◌, ◌++◌, Result, ok, err,
  org_resource_quota_exceeded, conflict, ◌>>=◌, ◌>>◌, require, transaction, String, str_eq, ◌==◌,
  ltb, leb, is_none, if◌then◌else◌, select_where, any, update_where, count_where,
}
use ragz.Tenancy.State.{TenantContext}
use ragz.Tenancy.Members.{get_workspace_checked}
use ragz.Outbox.{publish}
use ragz.Documents.State.{
  Document, DocDb, DocumentStatus, IndexState, ReembedJob, audit_row, same_id, has_document_id,
}
use ragz.Documents.Folders.{check_parent}
use ragz.Documents.Reading.{get_document_checked}

-- The settings of the caps; 0 is off.
pub record UploadLimits : Type 0 where
  pub org_max_documents : ℕ
  pub org_max_storage_bytes : ℕ

-- `UploadedContent`, less its stream.
pub record UploadedContent : Type 0 where
  pub size_bytes : ℕ
  pub sha256 : ℕ

unfoldable pub is_of_org : ℕ → Document → Bool
is_of_org org d = d.org_id == org

-- `func.sum(Document.size_bytes)` of an organisation.
unfoldable pub total_bytes : ℕ → List Document → ℕ
unfolding is_of_org
total_bytes org [] = 0
total_bytes org (d ∷ ds) = (if is_of_org org d then d.size_bytes else 0) + total_bytes org ds

unfoldable pub enforce_org_upload_quota : UploadLimits → ℕ → ℕ → List Document → Result (Unit {0})
unfolding total_bytes is_of_org
enforce_org_upload_quota limits org new_file_bytes documents =
    if limits.org_max_documents == 0 && limits.org_max_storage_bytes == 0
    then ok tt
    else if ltb 0 limits.org_max_documents
        && leb limits.org_max_documents (count_where (is_of_org org) documents)
    then err org_resource_quota_exceeded
    else if ltb 0 limits.org_max_storage_bytes
        && ltb limits.org_max_storage_bytes (total_bytes org documents + new_file_bytes)
    then err org_resource_quota_exceeded
    else ok tt

unfoldable pub is_running : ℕ → ReembedJob → Bool
is_running workspace_id job =
    job.workspace_id == workspace_id && (not (is_none job.started_at) && is_none job.finished_at)

unfoldable pub is_duplicate : ℕ → ℕ → Document → Bool
is_duplicate workspace_id hash d = d.workspace_id == workspace_id && d.content_hash == hash

unfoldable pub is_predecessor : ℕ → Option ℕ → String → Document → Bool
is_predecessor workspace_id folder_id filename d =
    d.workspace_id == workspace_id && same_id d.folder_id folder_id && str_eq d.filename filename

-- The greatest version, the first of equals.
unfoldable pub newest : List Document → Option Document
newest [] = none
newest (d ∷ ds) = elim (newest ds) [
  | none ↦ some d
  | some best ↦ if ltb d.version best.version then some best else some d
]

-- The row of an upload: a new lineage, or the next version after the predecessor.
unfoldable pub new_document :
    ℕ → TenantContext → ℕ → String → UploadedContent → Option ℕ → Option Document → Document
new_document id ctx workspace_id filename content folder_id predecessor = record {
  id = id;
  org_id = ctx.org_id;
  workspace_id = workspace_id;
  filename = filename;
  size_bytes = content.size_bytes;
  content_hash = content.sha256;
  status = DocumentStatus.queued;
  error = none;
  created_by = ctx.user_id;
  deleted_by = none;
  pinned = false;
  acl_group_ids = none;
  security_revision = 0;
  projected_security_revision = 0;
  index_state = IndexState.active;
  version = elim predecessor [ none ↦ 1 | some p ↦ p.version + 1 ];
  lineage_id = elim predecessor [ none ↦ id | some p ↦ p.lineage_id ];
  supersedes_document_id = elim predecessor [ none ↦ none | some p ↦ some p.id ];
  is_current = false;
  approved = false;
  vectors_present = false;
  folder_id = folder_id;
}

-- `id` and `event` are the ids that the two new rows draw.
unfoldable pub create_from_upload :
    (id event now : ℕ)
    → UploadLimits
    → TenantContext
    → ℕ
    → String
    → UploadedContent
    → Option ℕ
    → DocDb
    → Result Document × DocDb
unfolding enforce_org_upload_quota is_running is_duplicate is_predecessor newest new_document
    audit_row
create_from_upload id event now limits ctx workspace_id filename content folder_id db =
    transaction db (do
      ws ← get_workspace_checked ctx workspace_id db.tenancy
      check_parent ctx folder_id ws.id db.folders
      enforce_org_upload_quota limits ctx.org_id content.size_bytes db.documents
      require (not (any (is_running ws.id) db.reembed_jobs)) conflict
      require (not (any (is_duplicate ws.id content.sha256) db.documents)) conflict
      let predecessor = newest (select_where (is_predecessor ws.id folder_id filename) db.documents)
      let doc = new_document id ctx ws.id filename content folder_id predecessor
      let added = record db { documents = db.documents ++ (doc ∷ []) }
      let audited = audit_row ctx "document.uploaded" id added
      ok (
        doc,
        record audited {
          outbox = publish event now "documents.ingest" id "default" audited.outbox;
        },
      ))

-- A write of the caller's to one row, with its audit event.
unfoldable pub write_row :
    TenantContext → String → ℕ → (Document → Document) → DocDb → Result (Unit {0}) × DocDb
unfolding audit_row
write_row ctx action document_id f db = transaction db (do
  doc ← get_document_checked ctx document_id db.documents
  ok (
    tt,
    audit_row ctx action document_id
        (record db { documents = update_where (has_document_id document_id) f db.documents }),
  ))

unfoldable pub set_pinned : TenantContext → ℕ → Bool → DocDb → Result (Unit {0}) × DocDb
unfolding write_row
set_pinned ctx document_id pinned =
    write_row ctx (if pinned then "document.pinned" else "document.unpinned") document_id
      (λ d. record d { pinned = pinned })

unfoldable pub move_document : TenantContext → ℕ → Option ℕ → DocDb → Result (Unit {0}) × DocDb
unfolding audit_row
move_document ctx document_id folder_id db = transaction db (do
  doc ← get_document_checked ctx document_id db.documents
  check_parent ctx folder_id doc.workspace_id db.folders
  ok (
    tt,
    audit_row ctx "document.moved" document_id (record db {
      documents =
          update_where (has_document_id document_id) (λ d. record d { folder_id = folder_id })
            db.documents;
    }),
  ))
