-- ===== src/Retrieval/Maintenance.antt =====
-- modules/retrieval/service.py: what the calls that maintain a document do to the points.
use ragz.Prelude.{
  ℕ, ◌≡◌, ◌∙◌, ap, Bool, ◌&&◌, some, Option, List, ◌==◌, arith, update_where, delete_where,
}
use mathlib.Core.Path.{fun_ext}
use ragz.Documents.Projection.{acl_payload}
use ragz.Retrieval.Points.{Point, Qdrant, all_hold, patched, set_acl_groups, set_current}
use ragz.Retrieval.Filter.{
  tenant_filter, whole_document, delete_document_points, update_document_acl,
  update_document_current,
}

-- A point of a document of an organisation.
abbrev pub is_point_of : ℕ → ℕ → Point → Bool
is_point_of org k p = p.tenant_id == org && p.document_id == k

module _ {Score : Type 0} (q : Qdrant Score) (org k : ℕ) (s : q.Store) where
  whole_document_holds :
      (p : Point) → all_hold (q.holds p) (whole_document q org k) ≡ is_point_of org k p
  unfolding tenant_filter
  whole_document_holds p = ground (arith, q.holds_tenant p org, q.holds_document p k)

  pub points-delete_document_points :
      q.points (delete_document_points q org k s) ≡ delete_where (is_point_of org k) (q.points s)
  unfolding delete_document_points
  points-delete_document_points =
      q.points-delete (whole_document q org k) s
      ∙ ap (λ (test : Point → Bool). delete_where test (q.points s)) (fun_ext whole_document_holds)

  pub points-update_document_acl :
      (acl : Option (List ℕ))
      → q.points (update_document_acl q org k acl s)
        ≡ update_where
            (is_point_of org k)
            (λ p. record p { acl_groups = acl_payload acl })
            (q.points s)
  unfolding update_document_acl patched
  points-update_document_acl acl =
      q.points-set_payload (set_acl_groups (acl_payload acl)) (whole_document q org k) s
      ∙ ap
          (λ (test : Point → Bool).
            update_where test (λ p. record p { acl_groups = acl_payload acl }) (q.points s))
          (fun_ext whole_document_holds)

  pub points-update_document_current :
      (b : Bool)
      → q.points (update_document_current q org k b s)
        ≡ update_where (is_point_of org k) (λ p. record p { is_current = some b }) (q.points s)
  unfolding update_document_current patched
  points-update_document_current b =
      q.points-set_payload (set_current b) (whole_document q org k) s
      ∙ ap
          (λ (test : Point → Bool).
            update_where test (λ p. record p { is_current = some b }) (q.points s))
          (fun_ext whole_document_holds)
