-- ===== src/Tests/Retrieval.antt =====
-- Runs of modules/retrieval on a store in memory.
use ragz.Prelude.{
  ℕ, ◌≡◌, refl, ◌&&◌, ◌||◌, ◌≢◌, not, true, false, none, some, Option, List, [], ◌∷◌, String, Bool,
  ok, err, map, All, arith, find, id_elem, ltb, str_elem, inl,
}
use ragz.Documents.State.{Document, IndexState}
use ragz.Documents.Reading.{user_can_access_document}
use ragz.Retrieval.Points.{Point, all_hold}
use ragz.Retrieval.Filter.{tenant_filter, ctx_acl}
use ragz.Retrieval.Access.{retrieve_filter_agrees}
use ragz.Retrieval.Memory.{memory}
use ragz.Retrieval.Search.{Scores, RetrievalResult, Tuning, Vectors, retrieve}
use ragz.Retrieval.Backing.{IsBacked, IsReadable}
use ragz.Retrieval.Confined.{retrieve-IsReadable}
use ragz.Tests.Tenancy
use ragz.Tests.Documents.{ctx, document}

-- A restricted document of a group of the caller's, and one of another group.
abbrev mine : Document
mine = document 7 none (some (4 ∷ []))

abbrev other : Document
other = document 8 none (some (5 ∷ []))

abbrev documents : List Document
documents = mine ∷ other ∷ []

abbrev pub point : ℕ → ℕ → Point
point document_id group = record {
  tenant_id = 1;
  workspace_id = 20;
  document_id = document_id;
  acl_groups = group ∷ [];
  is_current = some true;
  page = 1;
  chunk_index = 0;
  text = "text";
  section = none;
  version = 1;
  meta = [];
}

abbrev pub store : List Point
store = point 7 4 ∷ point 8 5 ∷ []

abbrev in_20 : ragz.Tenancy.State.Workspace
in_20 = record {
  id = 20;
  org_id = 1;
  name = "legal";
  embedding_model_id = 1;
  default_model_id = none;
}

retrieve_filter_agrees_example :
    all_hold (memory.holds (point 7 4)) (tenant_filter 1 (some 20) none (ctx_acl ctx) true [] [])
    ≡ (user_can_access_document ctx mine || str_elem "documents.acl.bypass" [])
      && (true && (not (id_elem 7 []) && true))
unfolding ragz.Tenancy.Members.get_workspace_checked find ragz.Tenancy.State.is_workspace_in
    ragz.Tenancy.State.is_user_tier ragz.Documents.Projection.acl_payload
retrieve_filter_agrees_example =
    retrieve_filter_agrees memory ctx Tenancy.db in_20 mine (point 7 4) [] [] refl refl (λ e. cc)
      (record { tenant = refl; workspace = refl; document = refl; groups = refl })

abbrev pub scores : Scores
scores = record { Score = ℕ; below = ltb; zero_score = 0 }

abbrev pub tuning : Tuning scores
tuning = record { top_k = 5; rerank_enabled = true; min_score = 1 }

abbrev pub vectors : Vectors scores memory
vectors = record { fused = tt; dense = tt }

abbrev pub rerank : List String → Option (List ℕ)
rerank texts = some (3 ∷ 2 ∷ [])

abbrev result : RetrievalResult scores
result = record {
  chunks =
      record {
        document_id = 7;
        page = 1;
        chunk_index = 0;
        text = "text";
        score = 3;
        section = none;
        version = 1;
      }
      ∷ [];
  no_answer = false;
}

retrieve_runs :
    retrieve scores memory rerank ctx 20 tuning vectors none [] Tenancy.db documents store documents
      store
    ≡ ok result
unfolding retrieve ragz.Tenancy.Members.get_workspace_checked find
    ragz.Tenancy.State.is_workspace_in ragz.Tenancy.State.is_user_tier ragz.Prelude.select_where
    tenant_filter ragz.Retrieval.Memory.evaluate ctx_acl str_elem
    ragz.Documents.Reading.is_unprojected ragz.Documents.State.is_active_index
retrieve_runs = refl

backed : All (IsBacked documents) store
unfolding find ragz.Documents.State.has_document_id ragz.Documents.Projection.acl_payload
backed = (
  record {
    document = mine;
    found = refl;
    tenant = refl;
    workspace = refl;
    listed = λ e. cc;
    groups = λ _. refl;
  },
  (
    record {
      document = other;
      found = refl;
      tenant = refl;
      workspace = refl;
      listed = λ e. cc;
      groups = λ _. refl;
    },
    tt,
  ),
)

retrieve-IsReadable_example : All (λ c. IsReadable ctx 20 documents c.document_id) result.chunks
retrieve-IsReadable_example =
    retrieve-IsReadable scores memory rerank ctx 20 tuning vectors none [] Tenancy.db documents
      documents documents store store result backed (λ k unprojected. inl unprojected) retrieve_runs
