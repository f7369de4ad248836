-- ===== src/Retrieval/Access.antt =====
-- modules/retrieval/service.py against modules/documents/service.py: which documents a search admits.
use ragz.Prelude.{
  ℕ, ◌≡◌, refl, ◌∙◌, ◌≢◌, Bool, true, false, not, ◌&&◌, ◌||◌, Option, none, some, List, [], ◌∷◌,
  ◌++◌, map, str_elem, ◌==◌, is_none, arith, Option-cases, inl, inr, any, id_elem, find, ok,
  ==-refl,
}
use ragz.Tenancy.State.{TenantContext, TenancyDb, Workspace, is_user_tier, is_workspace_in}
use ragz.Tenancy.Members.{get_workspace_checked}
use ragz.Documents.State.{Document}
use ragz.Documents.Reading.{user_can_access_document, meets}
use ragz.Documents.Projection.{acl_payload}
use ragz.Retrieval.Points.{
  Point, Filter, Condition, all_hold, is_empty, is_flag, Qdrant, also, stop,
}
use ragz.Retrieval.Filter.{
  MetadataClause, of_clause, tenant_filter, acl_clause, current_clause, projected_clause, ctx_acl,
}

pub all_hold-append :
    (holds : Condition → Bool) (xs ys : Filter)
    → all_hold holds (xs ++ ys) ≡ all_hold holds xs && all_hold holds ys
all_hold-append holds [] ys = refl
all_hold-append holds (x ∷ xs) ys = ground (arith, all_hold-append holds xs ys)

-- Where nothing restricts the id, it passes.
abbrev is_given : Option ℕ → ℕ → Bool
is_given none k = true
is_given (some j) k = k == j

abbrev pub passes_acl : Option (List ℕ) → List ℕ → Bool
passes_acl none groups = true
passes_acl (some mine) groups = is_empty groups || meets groups mine

abbrev pub is_current_point : Point → Bool
is_current_point p = is_flag true p.is_current || is_none p.is_current

meets_nobody : (groups : List ℕ) → meets groups [] ≡ false
unfolding meets any id_elem
meets_nobody [] = refl
meets_nobody (g ∷ gs) = meets_nobody gs

module _ {Score : Type 0} (q : Qdrant Score) (p : Point) where
  open q use {
    holds, holds_tenant, holds_workspace, holds_document, holds_among, holds_acl_empty,
    holds_acl_among, holds_current, holds_current_empty, holds_should, holds_must_not,
  }

  pub acl_clause_holds :
      (acl : Option (List ℕ)) → all_hold (holds p) (acl_clause acl) ≡ passes_acl acl p.acl_groups
  unfolding acl_clause meets
  acl_clause_holds none = refl
  acl_clause_holds (some []) = ground (
    arith,
    holds_should p (also Condition.acl_empty stop),
    holds_acl_empty p,
    meets_nobody p.acl_groups,
  )
  acl_clause_holds (some (g ∷ gs)) = ground (
    arith,
    holds_should p (also Condition.acl_empty (also (Condition.acl_among (g ∷ gs)) stop)),
    holds_acl_empty p,
    holds_acl_among p (g ∷ gs),
  )

  current_clause_holds : all_hold (holds p) (current_clause true) ≡ is_current_point p
  unfolding current_clause
  current_clause_holds = ground (
    arith,
    holds_should p (also (Condition.current_is true) (also Condition.current_empty stop)),
    holds_current p true,
    holds_current_empty p,
  )

  projected_clause_holds :
      (ids : List ℕ) → all_hold (holds p) (projected_clause ids) ≡ not (id_elem p.document_id ids)
  unfolding projected_clause id_elem
  projected_clause_holds [] = refl
  projected_clause_holds (d ∷ ds) = ground (
    arith,
    holds_must_not p (also (Condition.document_among (d ∷ ds)) stop),
    holds_among p (d ∷ ds),
  )

  -- The filter of `retrieve`, condition by condition.
  pub retrieve_filter_holds :
      (org w : ℕ) (acl : Option (List ℕ)) (clauses : List MetadataClause) (unprojected : List ℕ)
      → all_hold (holds p) (tenant_filter org (some w) none acl true clauses unprojected)
        ≡ p.tenant_id == org
          && (p.workspace_id == w
              && (passes_acl acl p.acl_groups
                  && (is_current_point p
                      && (not (id_elem p.document_id unprojected)
                          && all_hold (holds p) (map of_clause clauses)))))
  unfolding tenant_filter
  retrieve_filter_holds org w acl clauses unprojected =
      let last = map of_clause clauses in
      let fourth = projected_clause unprojected ++ last in
      let third = current_clause true ++ fourth in
      rw
        (
          holds_tenant p org,
          holds_workspace p w,
          all_hold-append (holds p) (acl_clause acl) third,
          all_hold-append (holds p) (current_clause true) fourth,
          all_hold-append (holds p) (projected_clause unprojected) last,
          acl_clause_holds acl,
          current_clause_holds,
          projected_clause_holds unprojected,
        )
        refl

-- The payload that a point of the document has when it is up to date.
pub record IsStamped (d : Document) (p : Point) : Type 0 where
  pub tenant : p.tenant_id ≡ d.org_id
  pub workspace : p.workspace_id ≡ d.workspace_id
  pub document : p.document_id ≡ d.id
  pub groups : p.acl_groups ≡ acl_payload d.acl_group_ids

-- Who has passed the gate of a workspace is in the workspace's organisation, and a user is a member.
pub gate_passed :
    (ctx : TenantContext) (w : ℕ) (db : TenancyDb) (ws : Workspace)
    → get_workspace_checked ctx w db ≡ ok ws
    → not (is_user_tier ctx.role) || id_elem w ctx.workspace_ids ≡ true
unfolding get_workspace_checked
gate_passed ctx w db ws h =
    elim (Option-cases (find (is_workspace_in w ctx.org_id) db.workspaces)) [
      | inl e ↦ absurd (ground (arith, e))
      | inr (found, e) ↦ ground (arith, e)
    ]

module _ (ctx : TenantContext) (d : Document)
    (member : not (is_user_tier ctx.role) || id_elem d.workspace_id ctx.workspace_ids ≡ true) where
  -- The list of a document, by the filter's reading and by the service's.
  pub acl_agrees :
      (acl : Option (List ℕ))
      → d.acl_group_ids ≡ acl
      → acl ≢ some []
      → passes_acl (ctx_acl ctx) (acl_payload d.acl_group_ids)
        ≡ user_can_access_document ctx d || str_elem "documents.acl.bypass" ctx.permissions
  unfolding ctx_acl acl_payload user_can_access_document
  acl_agrees none e some_group = ground (arith, e)
  acl_agrees (some []) e some_group = absurd (some_group refl)
  acl_agrees (some (g ∷ gs)) e some_group = ground (arith, e)

-- For a caller who has passed the gate of the document's workspace, the filter of a search admits an
-- up-to-date point of a document whose list is not the empty one exactly if the caller may open the
-- document or holds the bypass, the point is of the current version, the document is not excluded
-- as unprojected, and the clauses on metadata hold.
pub retrieve_filter_agrees :
    {Score : Type 0} (q : Qdrant Score) (ctx : TenantContext) (db : TenancyDb) (ws : Workspace)
    (d : Document) (p : Point) (clauses : List MetadataClause) (unprojected : List ℕ)
    → get_workspace_checked ctx d.workspace_id db ≡ ok ws
    → d.org_id ≡ ctx.org_id
    → d.acl_group_ids ≢ some []
    → IsStamped d p
    → all_hold
        (q.holds p)
        (tenant_filter ctx.org_id (some d.workspace_id) none (ctx_acl ctx) true clauses unprojected)
      ≡ (user_can_access_document ctx d || str_elem "documents.acl.bypass" ctx.permissions)
        && (is_current_point p
            && (not (id_elem d.id unprojected) && all_hold (q.holds p) (map of_clause clauses)))
unfolding user_can_access_document
retrieve_filter_agrees q ctx db ws d p clauses unprojected gate org some_group stamped =
    retrieve_filter_holds q p ctx.org_id d.workspace_id (ctx_acl ctx) clauses unprojected
    ∙ rw
        (
          stamped.tenant,
          stamped.workspace,
          stamped.document,
          stamped.groups,
          org,
          ==-refl ctx.org_id,
          ==-refl d.workspace_id,
          acl_agrees ctx d (gate_passed ctx d.workspace_id db ws gate) d.acl_group_ids refl
              some_group,
        )
        refl
