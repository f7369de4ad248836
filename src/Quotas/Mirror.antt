-- ===== src/Quotas/Mirror.antt =====
-- The allocations that the gateway's budgets are set from: modules/quotas/service.py,
-- `org_member_effective_allocations` beside `get_usage_status`.
use ragz.Prelude.{
  ℕ, ◌≡◌, refl, true, Option, none, some, List, [], ◌∷◌, arith, find, map, select_where, id_elem,
  All, ap, All-map,
}
use ragz.Quotas.Period.{DateTime}
use ragz.Quotas.Usage.{
  QuotaDb, UserQuota, OrgQuota, get_usage_status, has_user, has_org, org_default, allocation,
  override_or, member_ids, org_member_effective_allocations, status_of,
}

find-select_where :
    (k : ℕ) (ids : List ℕ) (rows : List UserQuota)
    → id_elem k ids ≡ true
    → find (has_user k) (select_where (λ q. id_elem q.user_id ids) rows) ≡ find (has_user k) rows
unfolding find select_where has_user
find-select_where k ids [] h = refl
find-select_where k ids (q ∷ rows) h = ground (arith, find-select_where k ids rows h)

map_agree : (f g : ℕ → ℕ × Option ℕ) (ks : List ℕ) → All (λ k. f k ≡ g k) ks → map f ks ≡ map g ks
map_agree f g [] h = refl
map_agree f g (k ∷ ks) h = ground (arith, h.0, map_agree f g ks h.1)

each_elem : (ids : List ℕ) → All (λ k. id_elem k ids ≡ true) ids
unfolding id_elem
each_elem [] = tt
each_elem (k ∷ ids) = (ground arith, All-map _ _ ids (λ j h. ground arith) (each_elem ids))

override_lem :
    (k : ℕ) (own : Option UserQuota) (org : Option OrgQuota) (rows : List UserQuota)
    → find (has_user k) rows ≡ own
    → override_or (org_default org) rows k ≡ allocation own org
unfolding override_or allocation
override_lem k none org rows h = ground (arith, h)
override_lem k (some q) org rows h = ground (arith, h)

-- The allocation of each member, as the budgets at the gateway are set from it, is the one that the
-- check before that member's requests goes by.
pub effective_allocations_agree :
    (now : DateTime) (org_id : ℕ) (db : QuotaDb)
    → org_member_effective_allocations org_id db
      ≡ map (λ k. (k, (get_usage_status now org_id k db).allocated_tokens)) (member_ids org_id db)
unfolding org_member_effective_allocations get_usage_status status_of
effective_allocations_agree now org_id db = map_agree _ _ (member_ids org_id db) (
    All-map _ _ (member_ids org_id db)
      (λ k h.
        ap (λ o. (k, o))
          (override_lem k (find (has_user k) db.user_quotas) (find (has_org org_id) db.org_quotas) _
            (find-select_where k (member_ids org_id db) db.user_quotas h)))
      (each_elem (member_ids org_id db)))
