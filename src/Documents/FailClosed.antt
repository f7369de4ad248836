-- ===== src/Documents/FailClosed.antt =====
-- modules/documents/service.py: an access list that did not reach the vector store.
use ragz.Prelude.{
  ℕ, ◌≡◌, refl, ◌∙◌, ap, Bool, true, false, Option, some, List, String, ◌==◌, arith, inl, inr, find,
  update_where, id_elem, All, ◌⊎◌, ◌+◌, ok, err, upstream_error, ==_iff, ==-refl, find-update_where,
  find_holds,
}
use ragz.Tenancy.State.{TenantContext, TenancyDb}
use ragz.Documents.State.{
  Document, DocDb, IndexState, has_document_id, is_document_in, is_active_index, audit_row,
}
use ragz.Documents.Reading.{user_can_access_document, get_document_checked, is_unprojected}
use ragz.Documents.Projection.{commit_acl, fail_projection}
use ragz.Documents.AclChange.{
  are_known, write_document, project_document_security, set_document_acl,
}
use ragz.Retrieval.Hidden.{retrieve-hides}
use ragz.Retrieval.Points.{Qdrant}
use ragz.Retrieval.Filter.{MetadataClause}
use ragz.Retrieval.Search.{
  Scores, RetrievalResult, Tuning, Vectors, retrieve, unprojected_document_ids,
}
use ragz.Retrieval.Backing.{unprojected_listed}

get_document_checked_ok :
    (ctx : TenantContext) (k : ℕ) (ds : List Document) (d : Document)
    → find (is_document_in k ctx.org_id) ds ≡ some d
    → user_can_access_document ctx d ≡ true
    → get_document_checked ctx k ds ≡ ok d
unfolding get_document_checked
get_document_checked_ok ctx k ds d found may = ground (arith, found, may)

find_document-id :
    (k : ℕ) (ds : List Document) {d : Document} → find (has_document_id k) ds ≡ some d → d.id ≡ k
unfolding has_document_id
find_document-id k ds {d} found =
    (==_iff d.id k).0 (find_holds (has_document_id k) ds {a = d} found)

-- A write to the row that keeps its id is what the lookup finds.
find_document-write :
    (k : ℕ) (f : Document → Document) (ds : List Document) {d : Document}
    → ((x : Document) → (f x).id ≡ x.id)
    → find (has_document_id k) ds ≡ some d
    → find (has_document_id k) (update_where (has_document_id k) f ds) ≡ some (f d)
unfolding has_document_id
find_document-write k f ds {d} keeps found =
    find-update_where (has_document_id k) (has_document_id k) f ds
      (λ x. ap (λ (j : ℕ). j == k) (keeps x))
    ∙ rw (found, find_document-id k ds found, ==-refl k) refl

find_document-write_at :
    (j k : ℕ)
    → j ≡ k
    → (f : Document → Document) (ds : List Document) {d : Document}
    → ((x : Document) → (f x).id ≡ x.id)
    → find (has_document_id k) ds ≡ some d
    → find (has_document_id k) (update_where (has_document_id j) f ds) ≡ some (f d)
find_document-write_at j k same f ds {d} keeps found =
    rw same (find_document-write k f ds {d = d} keeps found)

module _ {Score : Type 0} (q : Qdrant Score) (ctx : TenantContext) (k : ℕ) (acl : Option (List ℕ))
    (db : DocDb) (s : q.Store) (d : Document)
    (found : find (is_document_in k ctx.org_id) db.documents ≡ some d)
    (row : find (has_document_id k) db.documents ≡ some d)
    (may : user_can_access_document ctx d ≡ true)
    (known : are_known ctx.org_id db.tenancy.groups acl ≡ true) where
  abbrev committed : DocDb
  committed = audit_row ctx "document.acl_changed" k (write_document k (commit_acl acl) db)

  -- Past its checks, a change is committed and then projected.
  pub set_document_acl_lem :
      (reachable : Bool)
      → set_document_acl q reachable ctx k acl db s
        ≡ project_document_security q reachable (commit_acl acl d) committed s
  unfolding set_document_acl
  set_document_acl_lem reachable =
      rw (get_document_checked_ok ctx k db.documents d found may, known, set_document_acl) refl

  committed_row : find (has_document_id k) committed.documents ≡ some (commit_acl acl d)
  unfolding audit_row write_document commit_acl
  committed_row = find_document-write k (commit_acl acl) db.documents (λ x. refl) row

  abbrev failed_row : Document
  failed_row = fail_projection (commit_acl acl d)

  failed_lem :
      (project_document_security q false (commit_acl acl d) committed s).0 ≡ err upstream_error
  unfolding project_document_security
  failed_lem = refl

  pub failed_row_found :
      find
        (has_document_id k)
        (project_document_security q false (commit_acl acl d) committed s).1.0.documents
      ≡ some failed_row
  unfolding project_document_security write_document fail_projection commit_acl
  failed_row_found =
      find_document-write_at d.id k (find_document-id k db.documents row) fail_projection
        committed.documents (λ x. refl) committed_row

  failed_row_listed :
      (documents : List Document)
      → find (has_document_id k) documents ≡ some failed_row
      → id_elem k (unprojected_document_ids d.org_id d.workspace_id documents) ≡ true
  unfolding is_unprojected fail_projection commit_acl is_active_index
  failed_row_listed documents there =
      unprojected_listed d.org_id d.workspace_id k documents failed_row there
        (rw (==-refl d.org_id, ==-refl d.workspace_id) refl)

-- Where a change of an access list that is allowed does not reach the vector store: the call raises;
-- the row is as it was but for the new list, the next revision and its state, which is failed; the
-- store is as it was; and no search of the document's workspace returns a chunk of the document if
-- it finds that row in the table before its query or after it, whatever the store holds and whoever
-- of the organisation asks.
pub set_document_acl_fails_closed :
    (scores : Scores) (q : Qdrant scores.Score) (ctx : TenantContext) (k : ℕ)
    (acl : Option (List ℕ)) (db : DocDb) (s : q.Store) (d : Document)
    (rerank : List String → Option (List scores.Score)) (reader : TenantContext)
    (tuning : Tuning scores) (vectors : Vectors scores q) (top_k : Option ℕ)
    (clauses : List MetadataClause) (tenancy : TenancyDb) (before after : List Document)
    (at_query at_dense : q.Store) (result : RetrievalResult scores)
    → find (is_document_in k ctx.org_id) db.documents ≡ some d
    → find (has_document_id k) db.documents ≡ some d
    → user_can_access_document ctx d ≡ true
    → are_known ctx.org_id db.tenancy.groups acl ≡ true
    → reader.org_id ≡ d.org_id
    → (find (has_document_id k) before
        ≡ find (has_document_id k) (set_document_acl q false ctx k acl db s).1.0.documents)
      ⊎ (find (has_document_id k) after
          ≡ find (has_document_id k) (set_document_acl q false ctx k acl db s).1.0.documents)
    → retrieve scores q rerank reader d.workspace_id tuning vectors top_k clauses tenancy before
        at_query after at_dense
      ≡ ok result
    → ((set_document_acl q false ctx k acl db s).0 ≡ err upstream_error)
      × (find (has_document_id k) (set_document_acl q false ctx k acl db s).1.0.documents
          ≡ some (record d {
            acl_group_ids = acl;
            security_revision = d.security_revision + 1;
            index_state = IndexState.failed;
          }))
      × ((set_document_acl q false ctx k acl db s).1.1 ≡ s)
      × All (λ c. (c.document_id == k) ≡ false) result.chunks
unfolding project_document_security fail_projection commit_acl
set_document_acl_fails_closed scores q ctx k acl db s d rerank reader tuning vectors top_k clauses
      tenancy before after at_query at_dense result found row may known org seen searched =
    let same = set_document_acl_lem q ctx k acl db s d found row may known false in
    let at_row : find (has_document_id k) (set_document_acl q false ctx k acl db s).1.0.documents
        ≡ some (failed_row q ctx k acl db s d found row may known) =
      rw same (failed_row_found q ctx k acl db s d found row may known) in
    let hidden : (documents : List Document)
        → find (has_document_id k) documents
          ≡ find (has_document_id k) (set_document_acl q false ctx k acl db s).1.0.documents
        → id_elem k (unprojected_document_ids reader.org_id d.workspace_id documents) ≡ true =
      λ documents there.
        rw org
          (failed_row_listed q ctx k acl db s d found row may known documents (there ∙ at_row)) in
    (
      rw same (failed_lem q ctx k acl db s d found row may known),
      at_row,
      rw same refl,
      retrieve-hides scores q rerank reader d.workspace_id tuning vectors top_k clauses tenancy
          before after at_query at_dense result k
          (elim seen [ inl early ↦ inl (hidden before early) | inr late ↦ inr (hidden after late) ])
          searched,
    )
