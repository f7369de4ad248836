-- ===== src/Retrieval/Reading.antt =====
-- modules/retrieval/service.py: the reading of one document's chunks, for pinned documents.
use ragz.Prelude.{
  ℕ, Bool, false, not, ◌&&◌, ◌||◌, some, List, [], ◌∷◌, map, Result, ok, err,
  workspace_access_denied, ◌==◌, ltb, if◌then◌else◌, id_elem,
}
use ragz.Tenancy.State.{TenantContext, is_user_tier}
use ragz.Retrieval.Points.{Filter, Qdrant}
use ragz.Retrieval.Filter.{tenant_filter, ctx_acl}
use ragz.Retrieval.Search.{Scores, RetrievedChunk, chunk_from_point}

module _ (scores : Scores) where
  open scores use {Score}

  abbrev is_before : RetrievedChunk scores → RetrievedChunk scores → Bool
  is_before a b = ltb a.page b.page || (a.page == b.page && ltb a.chunk_index b.chunk_index)

  -- `chunks.sort(key=lambda c: (c.page, c.chunk_index))`, which keeps the order of equal keys.
  unfoldable pub insert_chunk :
      RetrievedChunk scores → List (RetrievedChunk scores) → List (RetrievedChunk scores)
  insert_chunk c [] = c ∷ []
  insert_chunk c (x ∷ xs) = if is_before x c then x ∷ insert_chunk c xs else c ∷ x ∷ xs

  unfoldable pub sort_chunks : List (RetrievedChunk scores) → List (RetrievedChunk scores)
  unfolding insert_chunk
  sort_chunks [] = []
  sort_chunks (c ∷ cs) = insert_chunk c (sort_chunks cs)

  module _ (q : Qdrant Score) where
    abbrev pub document_filter : TenantContext → ℕ → ℕ → Filter
    document_filter ctx workspace_id document_id =
        tenant_filter ctx.org_id (some workspace_id) (some document_id) (ctx_acl ctx) false [] []

    -- `full` is the score 1.0. The pages of the scroll, one after another, are all that match.
    unfoldable pub list_document_chunks :
        (full : Score) → TenantContext → ℕ → ℕ → q.Store → Result (List (RetrievedChunk scores))
    unfolding sort_chunks
    list_document_chunks full ctx workspace_id document_id s =
        if is_user_tier ctx.role && not (id_elem workspace_id ctx.workspace_ids)
        then err workspace_access_denied
        else ok (
            sort_chunks (
              map (λ p. chunk_from_point scores (p, full))
                (q.scroll (document_filter ctx workspace_id document_id) s)))
