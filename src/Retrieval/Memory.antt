-- ===== src/Retrieval/Memory.antt =====
-- A vector store that keeps its points in a list, and finds all that match, in their order.
use ragz.Prelude.{
  ℕ, zero, ◌≡◌, refl, ap, Bool, true, false, not, ◌||◌, List, [], ◌∷◌, map, Bool-cases, inl, inr,
  select_where, update_where, delete_where, id_elem, any, is_none, ◌==◌, All, All-select_where,
  take, arith,
}
use ragz.Retrieval.Points.{
  Point, Condition, Conditions, Filter, Qdrant, any_holds, all_hold, is_empty, is_flag, patched,
  tenant_is, workspace_is, document_is, document_among, acl_empty, acl_among, current_is,
  current_empty, meta_is, meta_between, should, must_not, stop, also,
}
use ragz.Retrieval.Chunks.{All-take}

-- Conditions on metadata are left open: here they hold.
unfoldable mutual
  unfolding id_elem any

  pub evaluate : Point → Condition → Bool
  evaluate p (tenant_is k) = p.tenant_id == k
  evaluate p (workspace_is k) = p.workspace_id == k
  evaluate p (document_is k) = p.document_id == k
  evaluate p (document_among ks) = id_elem p.document_id ks
  evaluate p acl_empty = is_empty p.acl_groups
  evaluate p (acl_among gs) = any (λ g. id_elem g gs) p.acl_groups
  evaluate p (current_is b) = is_flag b p.is_current
  evaluate p current_empty = is_none p.is_current
  evaluate p (meta_is key value) = true
  evaluate p (meta_between key gte lte) = true
  evaluate p (should cs) = evaluate_any p cs
  evaluate p (must_not cs) = not (evaluate_any p cs)

  pub evaluate_any : Point → Conditions → Bool
  evaluate_any p stop = false
  evaluate_any p (also c cs) = evaluate p c || evaluate_any p cs

evaluate_any_lem : (p : Point) (cs : Conditions) → evaluate_any p cs ≡ any_holds (evaluate p) cs
unfolding evaluate_any
evaluate_any_lem p stop = refl
evaluate_any_lem p (also c cs) = ground (arith, evaluate_any_lem p cs)

pub holds_tenant : (p : Point) (k : ℕ) → evaluate p (tenant_is k) ≡ p.tenant_id == k
unfolding evaluate
holds_tenant p k = refl

pub holds_workspace : (p : Point) (k : ℕ) → evaluate p (workspace_is k) ≡ p.workspace_id == k
unfolding evaluate
holds_workspace p k = refl

pub holds_document : (p : Point) (k : ℕ) → evaluate p (document_is k) ≡ p.document_id == k
unfolding evaluate
holds_document p k = refl

pub holds_among :
    (p : Point) (ks : List ℕ) → evaluate p (document_among ks) ≡ id_elem p.document_id ks
unfolding evaluate
holds_among p ks = refl

pub holds_acl_empty : (p : Point) → evaluate p acl_empty ≡ is_empty p.acl_groups
unfolding evaluate
holds_acl_empty p = refl

pub holds_acl_among :
    (p : Point) (gs : List ℕ) → evaluate p (acl_among gs) ≡ any (λ g. id_elem g gs) p.acl_groups
unfolding evaluate
holds_acl_among p gs = refl

pub holds_current : (p : Point) (b : Bool) → evaluate p (current_is b) ≡ is_flag b p.is_current
unfolding evaluate
holds_current p b = refl

pub holds_current_empty : (p : Point) → evaluate p current_empty ≡ is_none p.is_current
unfolding evaluate
holds_current_empty p = refl

pub holds_should :
    (p : Point) (cs : Conditions) → evaluate p (should cs) ≡ any_holds (evaluate p) cs
unfolding evaluate
holds_should p cs = evaluate_any_lem p cs

pub holds_must_not :
    (p : Point) (cs : Conditions) → evaluate p (must_not cs) ≡ not (any_holds (evaluate p) cs)
unfolding evaluate
holds_must_not p cs = ap not (evaluate_any_lem p cs)

abbrev pub matching : Filter → List Point → List Point
matching f ps = select_where (λ p. all_hold (evaluate p) f) ps

pub All-unscored :
    (P : Point → Type 0) (ps : List Point)
    → All P ps
    → All (λ (r : Point × ℕ). P r.0) (map (λ p. (p, zero)) ps)
All-unscored P [] h = tt
All-unscored P (p ∷ ps) h = (h.0, All-unscored P ps h.1)

pub matching-matches :
    (f : Filter) (ps : List Point) → All (λ p. all_hold (evaluate p) f ≡ true) (matching f ps)
unfolding select_where
matching-matches f [] = tt
matching-matches f (p ∷ ps) = elim (Bool-cases (all_hold (evaluate p) f)) [
  | inl e ↦ rw e (e, matching-matches f ps)
  | inr e ↦ rw e (matching-matches f ps)
]

abbrev pub memory : Qdrant ℕ
memory = record {
  Store = List Point;
  Query = Unit {0};
  points = λ s. s;
  holds = evaluate;
  delete = λ f s. delete_where (λ p. all_hold (evaluate p) f) s;
  set_payload = λ patch f s. update_where (λ p. all_hold (evaluate p) f) (patched patch) s;
  search = λ q f n s. map (λ p. (p, zero)) (take n (matching f s));
  scroll = matching;
  holds_tenant = holds_tenant;
  holds_workspace = holds_workspace;
  holds_document = holds_document;
  holds_among = holds_among;
  holds_acl_empty = holds_acl_empty;
  holds_acl_among = holds_acl_among;
  holds_current = holds_current;
  holds_current_empty = holds_current_empty;
  holds_should = holds_should;
  holds_must_not = holds_must_not;
  points-delete = λ f s. refl;
  points-set_payload = λ patch f s. refl;
  search_matches = λ q f n s.
      All-unscored (λ p. all_hold (evaluate p) f ≡ true) (take n (matching f s))
        (All-take (λ p. all_hold (evaluate p) f ≡ true) n (matching f s) (matching-matches f s));
  search_stored = λ P q f n s h.
      All-unscored P (take n (matching f s))
        (All-take P n (matching f s) (All-select_where P (λ p. all_hold (evaluate p) f) s h));
  scroll_lem = λ f s. refl;
}
