-- ===== src/Retrieval/Backing.antt =====
-- modules/retrieval/service.py: points that are up to date, and what the filter says of them.
use ragz.Prelude.{
  ℕ, ◌≡◌, refl, ◌∙◌, sym, ◌≢◌, Bool, true, false, not, ◌&&◌, ◌||◌, none, some, List, [], ◌∷◌, map,
  str_elem, ◌==◌, arith, Bool-cases, inl, inr, find, select_where, id_elem, ==_iff,
}
use ragz.Tenancy.State.{TenantContext, is_user_tier}
use ragz.Documents.State.{Document, has_document_id, is_active_index}
use ragz.Documents.Reading.{user_can_access_document, is_unprojected}
use ragz.Documents.Projection.{acl_payload}
use ragz.Retrieval.Points.{Point, all_hold, Qdrant}
use ragz.Retrieval.Filter.{MetadataClause, of_clause, tenant_filter, ctx_acl}
use ragz.Retrieval.Access.{retrieve_filter_holds, acl_agrees, passes_acl, is_current_point}
use ragz.Retrieval.Search.{unprojected_document_ids}

-- The point's document is there, and its payload is up to date where the document is projected.
pub record IsBacked (documents : List Document) (p : Point) : Type 0 where
  pub document : Document
  pub found : find (has_document_id p.document_id) documents ≡ some document
  pub tenant : p.tenant_id ≡ document.org_id
  pub workspace : p.workspace_id ≡ document.workspace_id
  pub listed : document.acl_group_ids ≢ some []
  pub groups :
      is_active_index document.index_state ≡ true
      → p.acl_groups ≡ acl_payload document.acl_group_ids

-- May the caller read the document, by the service's rule or by the bypass?
abbrev may_read : TenantContext → Document → Bool
may_read ctx d = user_can_access_document ctx d || str_elem "documents.acl.bypass" ctx.permissions

-- The document is one of the caller's organisation and of the workspace, and the caller may read it.
abbrev pub IsReadable : TenantContext → ℕ → List Document → ℕ → Type 0
IsReadable ctx w documents k =
    (d : Document) × (find (has_document_id k) documents ≡ some d)
    × (d.org_id ≡ ctx.org_id)
    × (d.workspace_id ≡ w)
    × (may_read ctx d ≡ true)

pub id_elem-select_where :
    (p : ℕ → Bool) (k : ℕ) (ys : List ℕ) → id_elem k (select_where p ys) ≡ id_elem k ys && p k
unfolding id_elem select_where
id_elem-select_where p k [] = refl
id_elem-select_where p k (y ∷ ys) = elim (Bool-cases (k == y)) [
  | inl e ↦
      let at : y ≡ k = sym ((==_iff k y).0 e) in rw at (ground (arith, id_elem-select_where p k ys))
  | inr e ↦ ground (arith, e, id_elem-select_where p k ys)
]

-- A document of the workspace that is not projected is in the list of such documents.
pub unprojected_listed :
    (org w k : ℕ) (documents : List Document) (d : Document)
    → find (has_document_id k) documents ≡ some d
    → is_unprojected org w d ≡ true
    → id_elem k (unprojected_document_ids org w documents) ≡ true
unfolding unprojected_document_ids find has_document_id id_elem select_where
unprojected_listed org w k [] d found pending = absurd (ground arith)
unprojected_listed org w k (x ∷ xs) d found pending = elim (Bool-cases (x.id == k)) [
  | inl e ↦
      let same : x ≡ d = ground (arith, e) in
      let at : k ≡ x.id = sym ((==_iff x.id k).0 e) in
      let listed : is_unprojected org w x ≡ true = rw same pending in rw listed (ground (arith, at))
  | inr e ↦
      let later : id_elem k (unprojected_document_ids org w xs) ≡ true =
        unprojected_listed org w k xs d (ground (arith, e)) pending in
      elim (Bool-cases (is_unprojected org w x)) [
        | inl e' ↦ rw e' (ground (arith, later))
        | inr e' ↦ rw e' later
      ]
]

unlisted_active :
    (org w k : ℕ) (documents : List Document) (d : Document)
    → find (has_document_id k) documents ≡ some d
    → d.org_id ≡ org
    → d.workspace_id ≡ w
    → id_elem k (unprojected_document_ids org w documents) ≡ false
    → is_active_index d.index_state ≡ true
unfolding is_unprojected
unlisted_active org w k documents d found at_org at_ws unlisted =
    elim (Bool-cases (is_active_index d.index_state)) [
      | inl e ↦ e
      | inr e ↦
          let pending : is_unprojected org w d ≡ true = ground (arith, e) in
          absurd (ground (arith, unlisted, unprojected_listed org w k documents d found pending))
    ]

conjuncts :
    (a b c e f g : Bool)
    → a && (b && (c && (e && (not f && g)))) ≡ true
    → (a ≡ true) × (b ≡ true) × (c ≡ true) × (f ≡ false)
conjuncts a b c e f g h = ground arith

-- What the filter says of a point that it admits.
module _ {Score : Type 0} (q : Qdrant Score) (ctx : TenantContext) (w : ℕ)
    (clauses : List MetadataClause) (unprojected : List ℕ) (p : Point)
    (admitted : all_hold
        (q.holds p)
        (tenant_filter ctx.org_id (some w) none (ctx_acl ctx) true clauses unprojected)
      ≡ true) where
  pub admitted_facts :
      (p.tenant_id ≡ ctx.org_id)
      × (p.workspace_id ≡ w)
      × (passes_acl (ctx_acl ctx) p.acl_groups ≡ true)
      × (id_elem p.document_id unprojected ≡ false)
  admitted_facts =
      let (org, ws, acl, fresh) =
        conjuncts (p.tenant_id == ctx.org_id) (p.workspace_id == w)
          (passes_acl (ctx_acl ctx) p.acl_groups) (is_current_point p)
          (id_elem p.document_id unprojected) (all_hold (q.holds p) (map of_clause clauses))
          (sym (retrieve_filter_holds q p ctx.org_id w (ctx_acl ctx) clauses unprojected)
            ∙ admitted) in
      ((==_iff p.tenant_id ctx.org_id).0 org, (==_iff p.workspace_id w).0 ws, acl, fresh)

  -- If the document is projected, the caller may read it.
  pub admitted-IsReadable :
      (documents : List Document)
      → IsBacked documents p
      → not (is_user_tier ctx.role) || id_elem w ctx.workspace_ids ≡ true
      → id_elem p.document_id (unprojected_document_ids ctx.org_id w documents) ≡ false
      → IsReadable ctx w documents p.document_id
  admitted-IsReadable documents backed member projected =
      let (org, ws, acl, _) = admitted_facts in
      let d = backed.document in
      let org' : d.org_id ≡ ctx.org_id = sym backed.tenant ∙ org in
      let ws' : d.workspace_id ≡ w = sym backed.workspace ∙ ws in
      let live : is_active_index d.index_state ≡ true =
        unlisted_active ctx.org_id w p.document_id documents d backed.found org' ws' projected in
      let reads = acl_agrees ctx d (rw ws' member) d.acl_group_ids refl backed.listed in
      (d, backed.found, org', ws', sym reads ∙ (rw (← backed.groups live) acl))
