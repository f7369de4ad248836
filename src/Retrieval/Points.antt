-- ===== src/Retrieval/Points.antt =====
-- The vector store of modules/retrieval/service.py, for any server that does what Qdrant documents:
-- points with a payload, filters on them, and the calls that the module makes. A collection that is
-- missing has no points.
use ragz.Prelude.{
  ℕ, ◌≡◌, Bool, true, false, not, ◌&&◌, ◌||◌, Option, none, some, List, [], ◌∷◌, String, ◌==◌,
  is_none, select_where, update_where, delete_where, id_elem, any, All,
}

-- A point: its payload, less its vectors. A key that is missing is empty.
pub record Point : Type 0 where
  pub tenant_id : ℕ
  pub workspace_id : ℕ
  pub document_id : ℕ
  pub acl_groups : List ℕ
  pub is_current : Option Bool
  pub page : ℕ
  pub chunk_index : ℕ
  pub text : String
  pub section : Option String
  pub version : ℕ
  pub meta : List (String × String)

-- `models.Condition`, as far as the filters use it.
mutual
  pub data Condition : Type 0 where
    tenant_is : ℕ → Condition
    workspace_is : ℕ → Condition
    document_is : ℕ → Condition
    document_among : List ℕ → Condition
    acl_empty : Condition
    acl_among : List ℕ → Condition
    current_is : Bool → Condition
    current_empty : Condition
    meta_is : String → String → Condition
    meta_between : String → Option String → Option String → Condition
    should : Conditions → Condition
    must_not : Conditions → Condition

  pub data Conditions : Type 0 where
    stop : Conditions
    also : Condition → Conditions → Conditions

-- The conditions of a filter's `must`.
abbrev pub Filter : Type 0
Filter = List Condition

abbrev pub any_holds : (Condition → Bool) → Conditions → Bool
any_holds holds stop = false
any_holds holds (also c cs) = holds c || any_holds holds cs

abbrev pub all_hold : (Condition → Bool) → Filter → Bool
all_hold holds [] = true
all_hold holds (c ∷ cs) = holds c && all_hold holds cs

abbrev pub is_empty : List ℕ → Bool
is_empty [] = true
is_empty (_ ∷ _) = false

abbrev pub is_flag : Bool → Option Bool → Bool
is_flag b none = false
is_flag true (some c) = c
is_flag false (some c) = not c

-- What a call of `set_payload` writes.
pub data Patch : Type 0 where
  set_acl_groups : List ℕ → Patch
  set_current : Bool → Patch
  set_meta : List (String × String) → Patch

unfoldable pub patched : Patch → Point → Point
patched (set_acl_groups groups) p = record p { acl_groups = groups }
patched (set_current b) p = record p { is_current = some b }
patched (set_meta meta) p = record p { meta = meta }

-- A search gives back points that are stored and match its filter, at most so many, in an order and
-- with scores of its own.
pub record Qdrant (Score : Type 0) : Type 1 where
  pub Store : Type 0
  pub Query : Type 0
  pub points : Store → List Point
  pub holds : Point → Condition → Bool
  pub delete : Filter → Store → Store
  pub set_payload : Patch → Filter → Store → Store
  pub search : Query → Filter → ℕ → Store → List (Point × Score)
  pub scroll : Filter → Store → List Point
  pub holds_tenant : (p : Point) (k : ℕ) → holds p (tenant_is k) ≡ p.tenant_id == k
  pub holds_workspace : (p : Point) (k : ℕ) → holds p (workspace_is k) ≡ p.workspace_id == k
  pub holds_document : (p : Point) (k : ℕ) → holds p (document_is k) ≡ p.document_id == k
  pub holds_among :
      (p : Point) (ks : List ℕ) → holds p (document_among ks) ≡ id_elem p.document_id ks
  pub holds_acl_empty : (p : Point) → holds p acl_empty ≡ is_empty p.acl_groups
  pub holds_acl_among :
      (p : Point) (gs : List ℕ) → holds p (acl_among gs) ≡ any (λ g. id_elem g gs) p.acl_groups
  pub holds_current : (p : Point) (b : Bool) → holds p (current_is b) ≡ is_flag b p.is_current
  pub holds_current_empty : (p : Point) → holds p current_empty ≡ is_none p.is_current
  pub holds_should : (p : Point) (cs : Conditions) → holds p (should cs) ≡ any_holds (holds p) cs
  pub holds_must_not :
      (p : Point) (cs : Conditions) → holds p (must_not cs) ≡ not (any_holds (holds p) cs)
  pub points-delete :
      (f : Filter) (s : Store)
      → points (delete f s) ≡ delete_where (λ p. all_hold (holds p) f) (points s)
  pub points-set_payload :
      (patch : Patch) (f : Filter) (s : Store)
      → points (set_payload patch f s)
        ≡ update_where (λ p. all_hold (holds p) f) (patched patch) (points s)
  pub search_matches :
      (q : Query) (f : Filter) (n : ℕ) (s : Store)
      → All (λ r. all_hold (holds r.0) f ≡ true) (search q f n s)
  pub search_stored :
      (P : Point → Type 0) (q : Query) (f : Filter) (n : ℕ) (s : Store)
      → All P (points s)
      → All (λ r. P r.0) (search q f n s)
  pub scroll_lem :
      (f : Filter) (s : Store) → scroll f s ≡ select_where (λ p. all_hold (holds p) f) (points s)
