-- ===== src/Retrieval/PinnedReads.antt =====
-- modules/retrieval/service.py: whose documents list_document_chunks gives back.
use mathlib.Core.Path.{fun_ext}
use ragz.Prelude.{
  ℕ, ◌≡◌, refl, ap, ◌∙◌, Bool, true, false, not, ◌&&◌, ◌||◌, Option, some, List, [], ◌∷◌, map, ok,
  err, upstream_error, ◌==◌, arith, any, find, select_where, id_elem,
}
use ragz.Tenancy.State.{TenantContext, is_user_tier}
use ragz.Documents.State.{Document, DocDb, has_document_id, is_document_in}
use ragz.Documents.Reading.{user_can_access_document}
use ragz.Documents.Projection.{commit_acl, fail_projection}
use ragz.Documents.AclChange.{set_document_acl, are_known, project_document_security}
use ragz.Documents.FailClosed.{set_document_acl_lem, failed_row_found}
use ragz.Retrieval.Points.{Point, all_hold, Qdrant}
use ragz.Retrieval.Filter.{tenant_filter, acl_clause, current_clause, projected_clause, ctx_acl}
use ragz.Retrieval.Access.{passes_acl, all_hold-append, acl_clause_holds}
use ragz.Retrieval.Search.{Scores, RetrievedChunk, chunk_from_point}
use ragz.Retrieval.Reading.{insert_chunk, sort_chunks, document_filter, list_document_chunks}

-- A sorted list has the chunks of the list.
module _ (scores : Scores) (test : RetrievedChunk scores → Bool) where
  any-insert :
      (c : RetrievedChunk scores) (cs : List (RetrievedChunk scores))
      → any test (insert_chunk scores c cs) ≡ test c || any test cs
  unfolding insert_chunk any
  any-insert c [] = refl
  any-insert c (x ∷ xs) = ground (arith, any-insert c xs)

  any-sort : (cs : List (RetrievedChunk scores)) → any test (sort_chunks scores cs) ≡ any test cs
  unfolding sort_chunks any
  any-sort [] = refl
  any-sort (c ∷ cs) = ground (arith, any-insert c (sort_chunks scores cs), any-sort cs)

any-map {ℓ κ} :
    {A : Type ℓ} {B : Type κ} (test : B → Bool) (f : A → B) (xs : List A)
    → any test (map f xs) ≡ any (λ a. test (f a)) xs
unfolding any
any-map test f [] = refl
any-map test f (x ∷ xs) = ground (arith, any-map test f xs)

any-select_where {ℓ} :
    {A : Type ℓ} (test p : A → Bool) (xs : List A)
    → any test (select_where p xs) ≡ any (λ a. p a && test a) xs
unfolding any select_where
any-select_where test p [] = refl
any-select_where test p (x ∷ xs) = ground (arith, any-select_where test p xs)

-- A point of the document that the filter admits for the reader.
abbrev pub is_open_to : TenantContext → Document → Point → Bool
is_open_to reader d p =
    p.tenant_id == reader.org_id
    && (p.workspace_id == d.workspace_id
        && (p.document_id == d.id && passes_acl (ctx_acl reader) p.acl_groups))

module _ (scores : Scores) (q : Qdrant scores.Score) (full : scores.Score) (reader : TenantContext)
    (d : Document) (s : q.Store) where
  document_filter_holds :
      (p : Point)
      → all_hold (q.holds p) (document_filter scores q reader d.workspace_id d.id)
        ≡ is_open_to reader d p
  unfolding tenant_filter current_clause projected_clause
  document_filter_holds p = ground (
    arith,
    q.holds_tenant p reader.org_id,
    q.holds_workspace p d.workspace_id,
    q.holds_document p d.id,
    all_hold-append (q.holds p) (acl_clause (ctx_acl reader)) [],
    acl_clause_holds q p (ctx_acl reader),
  )

  abbrev read_chunks : List (RetrievedChunk scores)
  read_chunks = sort_chunks scores (
      map (λ p. chunk_from_point scores (p, full))
        (q.scroll (document_filter scores q reader d.workspace_id d.id) s))

  read_chunks-any :
      any (λ c. c.document_id == d.id) read_chunks ≡ any (is_open_to reader d) (q.points s)
  unfolding chunk_from_point
  read_chunks-any =
      let f = document_filter scores q reader d.workspace_id d.id in
      any-sort scores (λ c. c.document_id == d.id)
        (map (λ p. chunk_from_point scores (p, full)) (q.scroll f s))
      ∙ any-map (λ (c : RetrievedChunk scores). c.document_id == d.id)
          (λ p. chunk_from_point scores (p, full)) (q.scroll f s)
      ∙ ap (any (λ p. p.document_id == d.id)) (q.scroll_lem f s)
      ∙ any-select_where (λ p. p.document_id == d.id) (λ p. all_hold (q.holds p) f) (q.points s)
      ∙ ap (λ (test : Point → Bool). any test (q.points s))
          (fun_ext (λ p. ground (arith, document_filter_holds p)))

-- Where a change of an access list that is allowed does not reach the vector store: the new list is
-- committed, and a reader of the workspace whom it refuses still reads the document's chunks as a
-- pinned document's, if the store holds a point of it that the reader's groups admit.
pub pinned_read_serves_old_list :
    (scores : Scores) (q : Qdrant scores.Score) (full : scores.Score) (ctx : TenantContext)
    (acl : Option (List ℕ)) (db : DocDb) (s : q.Store) (d : Document) (reader : TenantContext)
    → find (is_document_in d.id ctx.org_id) db.documents ≡ some d
    → find (has_document_id d.id) db.documents ≡ some d
    → user_can_access_document ctx d ≡ true
    → are_known ctx.org_id db.tenancy.groups acl ≡ true
    → not (is_user_tier reader.role) || id_elem d.workspace_id reader.workspace_ids ≡ true
    → user_can_access_document reader (commit_acl acl d) ≡ false
    → any (is_open_to reader d) (q.points s) ≡ true
    → let (answer, (after, s')) = set_document_acl q false ctx d.id acl db s in
      (answer ≡ err upstream_error)
      × ((row : Document) × (find (has_document_id d.id) after.documents ≡ some row)
          × (user_can_access_document reader row ≡ false))
      × ((chunks : List (RetrievedChunk scores)) × (list_document_chunks scores q full reader
              d.workspace_id d.id s'
            ≡ ok chunks)
          × (any (λ c. c.document_id == d.id) chunks ≡ true))
unfolding project_document_security list_document_chunks commit_acl fail_projection
    user_can_access_document
pinned_read_serves_old_list scores q full ctx acl db s d reader found row may known member refused
      open_ =
    let same = set_document_acl_lem q ctx d.id acl db s d found row may known false in
    rw same (
      refl,
      (
        fail_projection (commit_acl acl d),
        failed_row_found q ctx d.id acl db s d found row may known,
        refused,
      ),
      (
        read_chunks scores q full reader d s,
        ground (arith, member),
        read_chunks-any scores q full reader d s ∙ open_,
      ),
    )
