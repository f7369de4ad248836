-- ===== src/Retrieval/Search.antt =====
-- modules/retrieval/service.py: the search of a workspace and the reading of its chunks.
use ragz.Prelude.{
  ℕ, Bool, true, not, ◌&&◌, Option, none, some, List, [], ◌∷◌, map, String, Result, ok, ◌>>=◌, ◌==◌,
  if◌then◌else◌, select_where, id_elem, take,
}
use ragz.Tenancy.State.{TenantContext, TenancyDb}
use ragz.Tenancy.Members.{get_workspace_checked}
use ragz.Documents.State.{Document}
use ragz.Documents.Reading.{is_unprojected}
use ragz.Retrieval.Points.{Point, Qdrant}
use ragz.Retrieval.Filter.{MetadataClause, tenant_filter, ctx_acl}

-- The scores of the store and of the reranker: floats, of which the code uses only the order.
pub record Scores : Type 1 where
  pub Score : Type 0
  pub below : Score → Score → Bool
  pub zero_score : Score

-- `_RERANK_PREFETCH`
abbrev pub rerank_prefetch : ℕ
rerank_prefetch = 50

-- `unprojected_document_ids`
unfoldable pub unprojected_document_ids : ℕ → ℕ → List Document → List ℕ
unprojected_document_ids org workspace_id documents =
    map (λ d. d.id) (select_where (is_unprojected org workspace_id) documents)

abbrev pub given_or : ℕ → Option ℕ → ℕ
given_or default none = default
given_or default (some given) = given

module _ (scores : Scores) where
  open scores use {Score, below, zero_score}

  pub record RetrievedChunk : Type 0 where
    pub document_id : ℕ
    pub page : ℕ
    pub chunk_index : ℕ
    pub text : String
    pub score : Score
    pub section : Option String
    pub version : ℕ

  pub record RetrievalResult : Type 0 where
    pub chunks : List RetrievedChunk
    pub no_answer : Bool

  -- The columns of a workspace that a search goes by.
  pub record Tuning : Type 0 where
    pub top_k : ℕ
    pub rerank_enabled : Bool
    pub min_score : Score

  unfoldable pub chunk_from_point : Point × Score → RetrievedChunk
  chunk_from_point (p, score) = record {
    document_id = p.document_id;
    page = p.page;
    chunk_index = p.chunk_index;
    text = p.text;
    score = score;
    section = p.section;
    version = p.version;
  }

  unfoldable pub same_chunk : RetrievedChunk → RetrievedChunk → Bool
  same_chunk a b =
      a.document_id == b.document_id && a.page == b.page && a.chunk_index == b.chunk_index

  -- The groups of `_dedupe_hq` in the order in which they were first seen; a candidate of a group
  -- that is there takes its place if its score is greater.
  unfoldable pub merge_chunk : RetrievedChunk → List RetrievedChunk → List RetrievedChunk
  unfolding same_chunk
  merge_chunk c [] = c ∷ []
  merge_chunk c (b ∷ bs) =
      if same_chunk c b then (if below b.score c.score then c else b) ∷ bs else b ∷ merge_chunk c bs

  unfoldable pub dedupe_from : List RetrievedChunk → List RetrievedChunk → List RetrievedChunk
  unfolding merge_chunk
  dedupe_from best [] = best
  dedupe_from best (c ∷ cs) = dedupe_from (merge_chunk c best) cs

  unfoldable pub dedupe_hq : List RetrievedChunk → List RetrievedChunk
  unfolding dedupe_from
  dedupe_hq candidates = dedupe_from [] candidates

  -- `sorted(…, key=scores, reverse=True)`, which keeps the order of equal scores.
  unfoldable pub insert_scored : RetrievedChunk → List RetrievedChunk → List RetrievedChunk
  insert_scored c [] = c ∷ []
  insert_scored c (x ∷ xs) = if below c.score x.score then x ∷ insert_scored c xs else c ∷ x ∷ xs

  unfoldable pub sort_scored : List RetrievedChunk → List RetrievedChunk
  unfolding insert_scored
  sort_scored [] = []
  sort_scored (c ∷ cs) = insert_scored c (sort_scored cs)

  -- `replace(candidate, score=score)`, one score for each candidate.
  unfoldable pub rescored : List RetrievedChunk → List Score → List RetrievedChunk
  rescored [] ss = []
  rescored (c ∷ cs) [] = []
  rescored (c ∷ cs) (s ∷ ss) = record c { score = s } ∷ rescored cs ss

  abbrev pub best_score : List RetrievedChunk → Score
  best_score [] = zero_score
  best_score (c ∷ cs) = c.score

  module _ (q : Qdrant Score) where
    open q use {Store, Query, search}

    -- What the embedders made of the query: the two vectors that are fused, and the dense one.
    pub record Vectors : Type 0 where
      pub fused : Query
      pub dense : Query

    -- The end of `retrieve`, where the reranker is off or down: `dense_hits` answers the dense search.
    unfoldable pub in_fused_order :
        Tuning → ℕ → List RetrievedChunk → List (Point × Score) → RetrievalResult
    in_fused_order tuning k candidates dense_hits = record {
      chunks = take k candidates;
      no_answer = below (best_score (map chunk_from_point dense_hits)) tuning.min_score;
    }

    unfoldable pub in_rerank_order : Tuning → ℕ → List RetrievedChunk → List Score → RetrievalResult
    unfolding sort_scored rescored
    in_rerank_order tuning k candidates scored =
        let top = take k (sort_scored (rescored candidates scored)) in
        record { chunks = top; no_answer = below (best_score top) tuning.min_score }

    -- What is returned: nothing where nothing was found, and the order of the reranker where it
    -- answered. The schemas take no `top_k` below 1, so the best one is there.
    unfoldable pub ranked :
        Tuning → ℕ → List RetrievedChunk → Option (List Score) → RetrievalResult → RetrievalResult
    unfolding in_rerank_order
    ranked tuning k [] scored plain = record { chunks = []; no_answer = true }
    ranked tuning k (c ∷ cs) none plain = plain
    ranked tuning k (c ∷ cs) (some scored) plain = in_rerank_order tuning k (c ∷ cs) scored

    -- `rerank` answers none where the reranker is not available. `before` and `after` are the
    -- documents as the two reads around the query saw them, and `at_query`, `at_dense` the store.
    unfoldable pub retrieve :
        (rerank : List String → Option (List Score))
        → TenantContext
        → ℕ
        → Tuning
        → Vectors
        → Option ℕ
        → List MetadataClause
        → TenancyDb
        → (before : List Document) → (at_query : Store) → (after : List Document)
        → (at_dense : Store) → Result RetrievalResult
    unfolding dedupe_hq chunk_from_point in_fused_order ranked unprojected_document_ids
    retrieve rerank ctx workspace_id tuning vectors top_k clauses db before at_query after
          at_dense =
        do
          ws ← get_workspace_checked ctx workspace_id db
          let k = given_or tuning.top_k top_k
          let unprojected = unprojected_document_ids ctx.org_id workspace_id before
          let flt =
              tenant_filter ctx.org_id (some workspace_id) none (ctx_acl ctx) true clauses
                unprojected
          let fetch_k = if tuning.rerank_enabled then rerank_prefetch else k
          let fused = map chunk_from_point (search vectors.fused flt fetch_k at_query)
          let recheck = unprojected_document_ids ctx.org_id workspace_id after
          let newly = select_where (λ d. not (id_elem d unprojected)) recheck
          let kept = select_where (λ c. not (id_elem c.document_id newly)) fused
          let candidates = dedupe_hq kept
          let plain = in_fused_order tuning k candidates (search vectors.dense flt 1 at_dense)
          let scored = if tuning.rerank_enabled then rerank (map (λ c. c.text) candidates) else none
          ok (ranked tuning k candidates scored plain)
