-- ===== src/Retrieval/Filter.antt =====
-- modules/retrieval/service.py: the one builder of filters on documents, and the calls that keep the
-- points of a document up to date.
use ragz.Prelude.{
  ℕ, Bool, true, false, Option, none, some, List, [], ◌∷◌, ◌++◌, map, String, str_elem,
  if◌then◌else◌,
}
use ragz.Tenancy.State.{TenantContext}
use ragz.Documents.Projection.{acl_payload}
use ragz.Retrieval.Points.{
  Condition, Conditions, Filter, tenant_is, workspace_is, document_is, document_among, acl_empty,
  acl_among, current_is, current_empty, meta_is, meta_between, should, must_not, stop, also, Qdrant,
  set_acl_groups, set_current, set_meta,
}

-- `MetadataClause`; the bounds of a range are texts of dates, which the filter parses.
pub data MetadataClause : Type 0 where
  eq : String → String → MetadataClause
  date_range : String → Option String → Option String → MetadataClause

unfoldable pub of_clause : MetadataClause → Condition
of_clause (eq key value) = meta_is key value
of_clause (date_range key gte lte) = meta_between key gte lte

abbrev of_id : (ℕ → Condition) → Option ℕ → List Condition
of_id c none = []
of_id c (some k) = c k ∷ []

-- `if acl_group_ids:`, the empty set of groups being left out.
abbrev among_groups : List ℕ → Conditions
among_groups [] = stop
among_groups (g ∷ gs) = also (acl_among (g ∷ gs)) stop

unfoldable pub acl_clause : Option (List ℕ) → List Condition
acl_clause none = []
acl_clause (some groups) = should (also acl_empty (among_groups groups)) ∷ []

unfoldable pub current_clause : Bool → List Condition
current_clause false = []
current_clause true = should (also (current_is true) (also current_empty stop)) ∷ []

unfoldable pub projected_clause : List ℕ → List Condition
projected_clause [] = []
projected_clause (d ∷ ds) = must_not (also (document_among (d ∷ ds)) stop) ∷ []

-- `_tenant_filter`
unfoldable pub tenant_filter :
    ℕ
    → (workspace_id document_id : Option ℕ) → Option (List ℕ)
    → Bool
    → List MetadataClause
    → List ℕ
    → Filter
unfolding acl_clause current_clause projected_clause of_clause
tenant_filter org workspace_id document_id acl_group_ids current_only clauses unprojected =
    tenant_is org
    ∷ (of_id workspace_is workspace_id
        ++ (of_id document_is document_id
            ++ (acl_clause acl_group_ids
                ++ (current_clause current_only
                    ++ (projected_clause unprojected ++ map of_clause clauses)))))

-- `_ctx_acl`
unfoldable pub ctx_acl : TenantContext → Option (List ℕ)
ctx_acl ctx = if str_elem "documents.acl.bypass" ctx.permissions then none else some ctx.group_ids

module _ {Score : Type 0} (q : Qdrant Score) where
  open q use {Store, delete, set_payload}

  -- The filter of the paths that maintain one document.
  abbrev pub whole_document : ℕ → ℕ → Filter
  whole_document org document_id = tenant_filter org none (some document_id) none false [] []

  unfoldable pub delete_document_points : ℕ → ℕ → Store → Store
  delete_document_points org document_id = delete (whole_document org document_id)

  unfoldable pub delete_workspace_points : ℕ → ℕ → Store → Store
  delete_workspace_points org workspace_id =
      delete (tenant_filter org (some workspace_id) none none false [] [])

  unfoldable pub update_document_acl : ℕ → ℕ → Option (List ℕ) → Store → Store
  unfolding acl_payload
  update_document_acl org document_id acl_group_ids =
      set_payload (set_acl_groups (acl_payload acl_group_ids)) (whole_document org document_id)

  unfoldable pub update_document_current : ℕ → ℕ → Bool → Store → Store
  update_document_current org document_id is_current =
      set_payload (set_current is_current) (whole_document org document_id)

  unfoldable pub update_document_metadata : ℕ → ℕ → List (String × String) → Store → Store
  update_document_metadata org document_id meta =
      set_payload (set_meta meta) (whole_document org document_id)
