-- ===== src/Documents/State.antt =====
-- The tables of modules/documents/models.py, and conditions of the queries on them.
use ragz.Prelude.{
  ℕ, Bool, true, false, ◌&&◌, Option, none, some, List, [], ◌∷◌, ◌++◌, String, ◌==◌, str_eq, is_id,
}
use ragz.Auth.State.{AuditTarget, audit_event}
use ragz.Tenancy.State.{TenancyDb, TenantContext}
use ragz.Outbox.{OutboxEvent}

pub record Folder : Type 0 where
  pub id : ℕ
  pub org_id : ℕ
  pub workspace_id : ℕ
  pub parent_folder_id : Option ℕ
  pub name : String
  pub created_by : ℕ

-- The values that the table's CHECK constraints allow.
pub data DocumentStatus : Type 0 where
  queued processing indexed failed deleting : DocumentStatus

pub data IndexState : Type 0 where
  active pending failed : IndexState

-- A document, less what the parsers and the enrichment read of it, its tags and its time stamps.
pub record Document : Type 0 where
  pub id : ℕ
  pub org_id : ℕ
  pub workspace_id : ℕ
  pub filename : String
  pub size_bytes : ℕ
  pub content_hash : ℕ
  pub status : DocumentStatus
  pub error : Option String
  pub created_by : ℕ
  pub deleted_by : Option ℕ
  pub pinned : Bool
  pub acl_group_ids : Option (List ℕ)
  pub security_revision : ℕ
  pub projected_security_revision : ℕ
  pub index_state : IndexState
  pub version : ℕ
  pub lineage_id : ℕ
  pub supersedes_document_id : Option ℕ
  pub is_current : Bool
  pub approved : Bool
  pub vectors_present : Bool
  pub folder_id : Option ℕ

-- modules/tenancy/reembed_models.py: what tells a job that runs.
pub record ReembedJob : Type 0 where
  pub workspace_id : ℕ
  pub started_at : Option ℕ
  pub finished_at : Option ℕ

pub record DocDb : Type 0 where
  pub tenancy : TenancyDb
  pub folders : List Folder
  pub documents : List Document
  pub reembed_jobs : List ReembedJob
  pub outbox : List OutboxEvent

-- `record_audit` for an act of the caller on a row.
unfoldable pub audit_row : TenantContext → String → ℕ → DocDb → DocDb
audit_row ctx action id db = record db {
  tenancy = record db.tenancy {
    audit =
        db.tenancy.audit
        ++ (audit_event (some ctx.org_id) (some ctx.user_id) action (AuditTarget.row id) ∷ []);
  };
}

-- Two nullable columns, as Python's `==` and SQLAlchemy's `IS NULL` compare them.
unfoldable pub same_id : Option ℕ → Option ℕ → Bool
same_id none none = true
same_id none (some k) = false
same_id (some j) o = is_id o j

unfoldable pub has_folder_id : ℕ → Folder → Bool
has_folder_id k f = f.id == k

-- `Folder.id == folder_id, Folder.org_id == ctx.org_id`
unfoldable pub is_folder_in : ℕ → ℕ → Folder → Bool
is_folder_in k org f = f.id == k && f.org_id == org

-- What the two unique indexes of `folders` keep apart, roots included.
unfoldable pub is_sibling : ℕ → Option ℕ → String → Folder → Bool
unfolding same_id
is_sibling workspace_id parent name f =
    f.workspace_id == workspace_id && same_id f.parent_folder_id parent && str_eq f.name name

unfoldable pub has_document_id : ℕ → Document → Bool
has_document_id k d = d.id == k

-- `Document.id == document_id, Document.org_id == ctx.org_id`
unfoldable pub is_document_in : ℕ → ℕ → Document → Bool
is_document_in k org d = d.id == k && d.org_id == org

unfoldable pub is_indexed : DocumentStatus → Bool
is_indexed indexed = true
is_indexed _ = false

unfoldable pub is_deleting : DocumentStatus → Bool
is_deleting deleting = true
is_deleting _ = false

unfoldable pub is_active_index : IndexState → Bool
is_active_index active = true
is_active_index _ = false
