-- ===== src/Retrieval/Chunks.antt =====
-- modules/retrieval/service.py: what is true of every candidate's document stays true of the result,
-- however the candidates are merged, scored, ordered and cut.
use ragz.Prelude.{
  ℕ, zero, suc, Option, none, some, List, [], ◌∷◌, map, Bool-cases, inl, inr, All, take,
}
use ragz.Retrieval.Points.{Point, Qdrant}
use ragz.Retrieval.Search.{
  Scores, RetrievedChunk, Tuning, chunk_from_point, same_chunk, merge_chunk, dedupe_from, dedupe_hq,
  insert_scored, sort_scored, rescored, in_fused_order, in_rerank_order, ranked,
}

pub All-take {ℓ κ} :
    {A : Type ℓ} (P : A → Type κ) (n : ℕ) (xs : List A) → All P xs → All P (take n xs)
All-take P zero xs h = tt
All-take P (suc n) [] h = tt
All-take P (suc n) (x ∷ xs) h = (h.0, All-take P n xs h.1)

module _ (scores : Scores) (P : ℕ → Type 0) where
  open scores use {Score, below}

  -- Every chunk is of a document of which `P` holds.
  abbrev pub AllOf : List (RetrievedChunk scores) → Type 0
  AllOf cs = All (λ c. P c.document_id) cs

  AllOf-merge :
      (c : RetrievedChunk scores) (bs : List (RetrievedChunk scores))
      → P c.document_id
      → AllOf bs
      → AllOf (merge_chunk scores c bs)
  unfolding merge_chunk
  AllOf-merge c [] h hs = (h, tt)
  AllOf-merge c (b ∷ bs) h hs = elim (Bool-cases (same_chunk scores c b)) [
    | inl e ↦ elim (Bool-cases (below b.score c.score)) [
      | inl e' ↦ rw (e, e') (h, hs.1)
      | inr e' ↦ rw (e, e') hs
    ]
    | inr e ↦ rw e (hs.0, AllOf-merge c bs h hs.1)
  ]

  AllOf-dedupe_from :
      (best cs : List (RetrievedChunk scores))
      → AllOf best
      → AllOf cs
      → AllOf (dedupe_from scores best cs)
  unfolding dedupe_from
  AllOf-dedupe_from best [] h hs = h
  AllOf-dedupe_from best (c ∷ cs) h hs =
      AllOf-dedupe_from (merge_chunk scores c best) cs (AllOf-merge c best hs.0 h) hs.1

  AllOf-insert :
      (c : RetrievedChunk scores) (xs : List (RetrievedChunk scores))
      → P c.document_id
      → AllOf xs
      → AllOf (insert_scored scores c xs)
  unfolding insert_scored
  AllOf-insert c [] h hs = (h, tt)
  AllOf-insert c (x ∷ xs) h hs = elim (Bool-cases (below c.score x.score)) [
    | inl e ↦ rw e (hs.0, AllOf-insert c xs h hs.1)
    | inr e ↦ rw e (h, hs)
  ]

  AllOf-sort : (cs : List (RetrievedChunk scores)) → AllOf cs → AllOf (sort_scored scores cs)
  unfolding sort_scored
  AllOf-sort [] hs = tt
  AllOf-sort (c ∷ cs) hs = AllOf-insert c (sort_scored scores cs) hs.0 (AllOf-sort cs hs.1)

  AllOf-rescored :
      (cs : List (RetrievedChunk scores)) (ss : List Score)
      → AllOf cs
      → AllOf (rescored scores cs ss)
  unfolding rescored
  AllOf-rescored [] ss hs = tt
  AllOf-rescored (c ∷ cs) [] hs = tt
  AllOf-rescored (c ∷ cs) (s ∷ ss) hs = (hs.0, AllOf-rescored cs ss hs.1)

  pub AllOf-points :
      (rs : List (Point × Score))
      → All (λ r. P r.0.document_id) rs
      → AllOf (map (chunk_from_point scores) rs)
  unfolding chunk_from_point
  AllOf-points [] hs = tt
  AllOf-points (r ∷ rs) hs = (hs.0, AllOf-points rs hs.1)

  pub AllOf-dedupe : (cs : List (RetrievedChunk scores)) → AllOf cs → AllOf (dedupe_hq scores cs)
  unfolding dedupe_hq
  AllOf-dedupe cs hs = AllOf-dedupe_from [] cs tt hs

  pub AllOf-ranked :
      (q : Qdrant Score) (tuning : Tuning scores) (k : ℕ) (cs : List (RetrievedChunk scores))
      (scored : Option (List Score)) (dense_hits : List (Point × Score))
      → AllOf cs
      → AllOf
          (ranked scores q tuning k cs scored
            (in_fused_order scores q tuning k cs dense_hits)).chunks
  unfolding ranked in_rerank_order in_fused_order
  AllOf-ranked q tuning k [] scored hits hs = tt
  AllOf-ranked q tuning k (c ∷ cs) none hits hs = All-take (λ c. P c.document_id) k (c ∷ cs) hs
  AllOf-ranked q tuning k (c ∷ cs) (some ss) hits hs =
      All-take (λ c. P c.document_id) k (sort_scored scores (rescored scores (c ∷ cs) ss))
        (AllOf-sort (rescored scores (c ∷ cs) ss) (AllOf-rescored (c ∷ cs) ss hs))
