-- ===== src/Retrieval/Hidden.antt =====
-- modules/retrieval/service.py: what `retrieve` leaves out, by its two reads of the unprojected
-- documents.
use ragz.Prelude.{
  ℕ, ◌≡◌, refl, ◌∙◌, true, false, not, Option, none, some, List, map, String, ◌==◌, if◌then◌else◌,
  arith, inl, inr, Bool-cases, Result-cases, select_where, id_elem, All, All-map, All-selected, ◌⊎◌,
  ok, ==_iff,
}
use ragz.Tenancy.State.{TenantContext, TenancyDb}
use ragz.Tenancy.Members.{get_workspace_checked}
use ragz.Documents.State.{Document}
use ragz.Retrieval.Points.{Qdrant, all_hold}
use ragz.Retrieval.Filter.{MetadataClause, tenant_filter, ctx_acl}
use ragz.Retrieval.Search.{
  Scores, RetrievalResult, Tuning, Vectors, retrieve, chunk_from_point, dedupe_hq, ranked,
  in_fused_order, unprojected_document_ids, given_or, rerank_prefetch,
}
use ragz.Retrieval.Chunks.{AllOf-points, AllOf-dedupe, AllOf-ranked}
use ragz.Retrieval.Backing.{admitted_facts, id_elem-select_where}

elem_apart : (j k : ℕ) (xs : List ℕ) → id_elem k xs ≡ true → id_elem j xs ≡ false → (j == k) ≡ false
elem_apart j k xs inside outside = elim (Bool-cases (j == k)) [
  | inr e ↦ e
  | inl e ↦ let at : j ≡ k = (==_iff j k).0 e in absurd (ground (arith, rw at at outside, inside))
]

-- What the two reads of the unprojected documents leave of the hits.
listed_apart :
    (j k : ℕ) (unprojected recheck : List ℕ)
    → (id_elem k unprojected ≡ true) ⊎ (id_elem k recheck ≡ true)
    → id_elem j unprojected ≡ false
    → id_elem j (select_where (λ d. not (id_elem d unprojected)) recheck) ≡ false
    → (j == k) ≡ false
listed_apart j k unprojected recheck listed fresh kept = elim (Bool-cases (id_elem k unprojected)) [
  | inl old ↦ elem_apart j k unprojected old fresh
  | inr e ↦ elim listed [
    | inl old ↦ elem_apart j k unprojected old fresh
    | inr new ↦
        elem_apart j k (select_where (λ d. not (id_elem d unprojected)) recheck)
          (id_elem-select_where (λ d. not (id_elem d unprojected)) k recheck ∙ rw (new, e) refl)
          kept
  ]
]

-- A document that is unprojected at the read before the query or at the one after it is in no
-- result.
pub retrieve-hides :
    (scores : Scores) (q : Qdrant scores.Score) (rerank : List String → Option (List scores.Score))
    (ctx : TenantContext) (w : ℕ) (tuning : Tuning scores) (vectors : Vectors scores q)
    (top_k : Option ℕ) (clauses : List MetadataClause) (db : TenancyDb)
    (before after : List Document) (at_query at_dense : q.Store) (result : RetrievalResult scores)
    (k : ℕ)
    → (id_elem k (unprojected_document_ids ctx.org_id w before) ≡ true)
      ⊎ (id_elem k (unprojected_document_ids ctx.org_id w after) ≡ true)
    → retrieve scores q rerank ctx w tuning vectors top_k clauses db before at_query after at_dense
      ≡ ok result
    → All (λ c. (c.document_id == k) ≡ false) result.chunks
unfolding retrieve
retrieve-hides scores q rerank ctx w tuning vectors top_k clauses db before after at_query at_dense
      result k listed h =
    elim (Result-cases (get_workspace_checked ctx w db)) [
      | inr (_, e) ↦ absurd (ground (arith, e))
      | inl (ws, e) ↦
          let top = given_or tuning.top_k top_k in
          let unprojected = unprojected_document_ids ctx.org_id w before in
          let recheck = unprojected_document_ids ctx.org_id w after in
          let flt = tenant_filter ctx.org_id (some w) none (ctx_acl ctx) true clauses unprojected in
          let fetch_k = if tuning.rerank_enabled then rerank_prefetch else top in
          let hits = q.search vectors.fused flt fetch_k at_query in
          let fused = map (chunk_from_point scores) hits in
          let newly = select_where (λ d. not (id_elem d unprojected)) recheck in
          let kept = select_where (λ c. not (id_elem c.document_id newly)) fused in
          let candidates = dedupe_hq scores kept in
          let scored =
            if tuning.rerank_enabled then rerank (map (λ c. c.text) candidates) else none in
          let dense_hits = q.search vectors.dense flt 1 at_dense in
          let returned : ok (
                ranked scores q tuning top candidates scored
                  (in_fused_order scores q tuning top candidates dense_hits))
              ≡ ok result =
            rw e at h in
          let fresh : All (λ r. id_elem r.0.document_id unprojected ≡ false) hits =
            All-map (λ r. all_hold (q.holds r.0) flt ≡ true)
              (λ r. id_elem r.0.document_id unprojected ≡ false) hits
              (λ r admitted. (admitted_facts q ctx w clauses unprojected r.0 admitted).3)
              (q.search_matches vectors.fused flt fetch_k at_query) in
          let apart : All (λ c. (c.document_id == k) ≡ false) kept =
            All-selected (λ c. id_elem c.document_id unprojected ≡ false)
              (λ c. (c.document_id == k) ≡ false) (λ c. not (id_elem c.document_id newly)) fused
              (λ c stays unlisted.
                listed_apart c.document_id k unprojected recheck listed unlisted (ground arith))
              (AllOf-points scores (λ j. id_elem j unprojected ≡ false) hits fresh) in
          let same : ranked scores q tuning top candidates scored
                (in_fused_order scores q tuning top candidates dense_hits)
              ≡ result =
            cc in
          rw (← same) (
            AllOf-ranked scores (λ j. (j == k) ≡ false) q tuning top candidates scored dense_hits
              (AllOf-dedupe scores (λ j. (j == k) ≡ false) kept apart))
    ]
