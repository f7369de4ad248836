-- ===== src/Retrieval/Confined.antt =====
-- modules/retrieval/service.py: whose documents a search gives back.
use ragz.Prelude.{
  ℕ, ◌≡◌, ◌⊎◌, true, false, not, ◌||◌, Option, none, some, List, map, String, arith, Bool-cases,
  Result-cases, inl, inr, select_where, id_elem, All, All-map, All-both, All-selected, ok,
  if◌then◌else◌,
}
use ragz.Tenancy.State.{TenantContext, TenancyDb, is_user_tier}
use ragz.Tenancy.Members.{get_workspace_checked}
use ragz.Documents.State.{Document}
use ragz.Retrieval.Points.{all_hold, Qdrant}
use ragz.Retrieval.Filter.{MetadataClause, tenant_filter, ctx_acl}
use ragz.Retrieval.Access.{gate_passed}
use ragz.Retrieval.Search.{
  Scores, RetrievalResult, Tuning, Vectors, chunk_from_point, dedupe_hq, retrieve,
  unprojected_document_ids, given_or, rerank_prefetch, ranked, in_fused_order,
}
use ragz.Retrieval.Chunks.{AllOf, AllOf-points, AllOf-dedupe, AllOf-ranked}
use ragz.Retrieval.Backing.{
  IsBacked, IsReadable, id_elem-select_where, admitted_facts, admitted-IsReadable,
}

-- A candidate that the filter admits, before the second read.
abbrev IsFresh : TenantContext → ℕ → (documents before : List Document) → ℕ → Type 0
IsFresh ctx w documents before k =
    (id_elem k (unprojected_document_ids ctx.org_id w before) ≡ false)
    × (id_elem k (unprojected_document_ids ctx.org_id w documents) ≡ false
        → IsReadable ctx w documents k)

-- The documents of which only the second read says that they are unprojected.
abbrev newly : TenantContext → ℕ → (before after : List Document) → List ℕ
newly ctx w before after =
    select_where (λ d. not (id_elem d (unprojected_document_ids ctx.org_id w before)))
      (unprojected_document_ids ctx.org_id w after)

module _ (ctx : TenantContext) (w : ℕ) (documents before after : List Document)
    (covered : (k : ℕ)
      → id_elem k (unprojected_document_ids ctx.org_id w documents) ≡ true
      → (id_elem k (unprojected_document_ids ctx.org_id w before) ≡ true)
        ⊎ (id_elem k (unprojected_document_ids ctx.org_id w after) ≡ true)) where
  kept-IsReadable :
      (k : ℕ)
      → id_elem k (newly ctx w before after) ≡ false
      → IsFresh ctx w documents before k
      → IsReadable ctx w documents k
  kept-IsReadable k kept (fresh, reads) =
      elim (Bool-cases (id_elem k (unprojected_document_ids ctx.org_id w documents))) [
        | inr e ↦ reads e
        | inl e ↦ elim (covered k e) [
          | inl old ↦ absurd (ground (arith, old, fresh))
          | inr new ↦ absurd (
              ground (
                arith,
                kept,
                new,
                fresh,
                id_elem-select_where
                    (λ d. not (id_elem d (unprojected_document_ids ctx.org_id w before))) k
                    (unprojected_document_ids ctx.org_id w after),
              ))
        ]
      ]

-- The candidates that are kept are of readable documents.
kept-AllOf :
    (scores : Scores) (q : Qdrant scores.Score) (ctx : TenantContext) (w : ℕ) (query : q.Query)
    (n : ℕ) (clauses : List MetadataClause) (documents before after : List Document) (s : q.Store)
    → not (is_user_tier ctx.role) || id_elem w ctx.workspace_ids ≡ true
    → ((k : ℕ)
        → id_elem k (unprojected_document_ids ctx.org_id w documents) ≡ true
        → (id_elem k (unprojected_document_ids ctx.org_id w before) ≡ true)
          ⊎ (id_elem k (unprojected_document_ids ctx.org_id w after) ≡ true))
    → All (IsBacked documents) (q.points s)
    → AllOf scores (IsReadable ctx w documents) (
        select_where
          (λ c. not (id_elem c.document_id (newly ctx w before after)))
          (map (chunk_from_point scores) (
            q.search query
              (tenant_filter ctx.org_id
                (some w)
                none
                (ctx_acl ctx)
                true
                clauses
                (unprojected_document_ids ctx.org_id w before))
              n
              s)))
kept-AllOf scores q ctx w query n clauses documents before after s member covered backed =
    let unprojected = unprojected_document_ids ctx.org_id w before in
    let flt = tenant_filter ctx.org_id (some w) none (ctx_acl ctx) true clauses unprojected in
    let hits = q.search query flt n s in
    let fresh : All (λ r. IsFresh ctx w documents before r.0.document_id) hits =
      All-map (λ r. (all_hold (q.holds r.0) flt ≡ true) × IsBacked documents r.0)
        (λ r. IsFresh ctx w documents before r.0.document_id) hits
        (λ r facts. (
          (admitted_facts q ctx w clauses unprojected r.0 facts.0).3,
          λ projected.
              admitted-IsReadable q ctx w clauses unprojected r.0 facts.0 documents facts.1 member
                projected,
        ))
        (All-both (λ r. all_hold (q.holds r.0) flt ≡ true) (λ r. IsBacked documents r.0) hits
          (q.search_matches query flt n s)
          (q.search_stored (IsBacked documents) query flt n s backed)) in
    All-selected (λ c. IsFresh ctx w documents before c.document_id)
      (λ c. IsReadable ctx w documents c.document_id)
      (λ c. not (id_elem c.document_id (newly ctx w before after)))
      (map (chunk_from_point scores) hits)
      (λ c stays ok_before.
        kept-IsReadable ctx w documents before after covered c.document_id (ground arith) ok_before)
      (AllOf-points scores (IsFresh ctx w documents before) hits fresh)

-- Where each point that the store holds at the query is of a document that is there, whose list is
-- not the empty one, and carries the committed list if the document is projected; and where a
-- document that is unprojected then is so at the read before the query or at the one after it: a
-- search returns only chunks of documents of the caller's organisation and of the workspace, which
-- the caller may open, or reads by the bypass.
pub retrieve-IsReadable :
    (scores : Scores) (q : Qdrant scores.Score) (rerank : List String → Option (List scores.Score))
    (ctx : TenantContext) (w : ℕ) (tuning : Tuning scores) (vectors : Vectors scores q)
    (top_k : Option ℕ) (clauses : List MetadataClause) (db : TenancyDb)
    (documents before after : List Document) (at_query at_dense : q.Store)
    (result : RetrievalResult scores)
    → All (IsBacked documents) (q.points at_query)
    → ((k : ℕ)
        → id_elem k (unprojected_document_ids ctx.org_id w documents) ≡ true
        → (id_elem k (unprojected_document_ids ctx.org_id w before) ≡ true)
          ⊎ (id_elem k (unprojected_document_ids ctx.org_id w after) ≡ true))
    → retrieve scores q rerank ctx w tuning vectors top_k clauses db before at_query after at_dense
      ≡ ok result
    → All (λ c. IsReadable ctx w documents c.document_id) result.chunks
unfolding retrieve
retrieve-IsReadable scores q rerank ctx w tuning vectors top_k clauses db documents before after
      at_query at_dense result backed covered h =
    elim (Result-cases (get_workspace_checked ctx w db)) [
      | inr (_, e) ↦ absurd (ground (arith, e))
      | inl (ws, e) ↦
          let member = gate_passed ctx w db ws e in
          let k = given_or tuning.top_k top_k in
          let unprojected = unprojected_document_ids ctx.org_id w before in
          let flt = tenant_filter ctx.org_id (some w) none (ctx_acl ctx) true clauses unprojected in
          let fetch_k = if tuning.rerank_enabled then rerank_prefetch else k in
          let hits = q.search vectors.fused flt fetch_k at_query in
          let fused = map (chunk_from_point scores) hits in
          let gone = newly ctx w before after in
          let kept = select_where (λ c. not (id_elem c.document_id gone)) fused in
          let candidates = dedupe_hq scores kept in
          let scored =
            if tuning.rerank_enabled then rerank (map (λ c. c.text) candidates) else none in
          let dense_hits = q.search vectors.dense flt 1 at_dense in
          let out =
            ranked scores q tuning k candidates scored
              (in_fused_order scores q tuning k candidates dense_hits) in
          let returned : ok out ≡ ok result = rw e at h in
          let same : out ≡ result = cc in
          rw (← same) (
            AllOf-ranked scores (IsReadable ctx w documents) q tuning k candidates scored dense_hits
              (AllOf-dedupe scores (IsReadable ctx w documents) kept (
                kept-AllOf scores q ctx w vectors.fused fetch_k clauses documents before after
                  at_query member covered backed)))
    ]
