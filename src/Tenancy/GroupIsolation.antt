-- ===== src/Tenancy/GroupIsolation.antt =====
-- Groups across organisations: modules/tenancy/service.py, `_org_group` and the operations on groups.
use ragz.Prelude.{
  str_eq, ℕ, ◌≡◌, ◌≢◌, refl, Bool, true, false, ◌&&◌, ◌||◌, some, List, [], ◌∷◌, ◌++◌, String, ◌==◌,
  arith, find, find-All, find-append_some, find-delete_where, find_holds, any, select_where,
  delete_where, All, Bool-cases, Option-cases, inl, inr, ◌∙◌, ap, sym,
}
use ragz.Tenancy.State.{TenancyDb, TenantContext, Group, UserGroup, is_group_in, is_user_in}
use ragz.Tenancy.Groups.{
  has_group_id, is_in_group, is_group_row, create_group, delete_group, add_group_member,
  remove_group_member,
}

-- A request on groups, with the context of its caller.
pub data GroupRequest : Type 0 where
  create : ℕ → String → GroupRequest
  delete : ℕ → GroupRequest
  add : (group_id user_id : ℕ) → GroupRequest
  remove : (group_id user_id : ℕ) → GroupRequest

unfoldable pub serve_group : TenantContext → GroupRequest → TenancyDb → TenancyDb
serve_group ctx (create k name) db = (create_group ctx k name db).1
serve_group ctx (delete g) db = (delete_group ctx g db).1
serve_group ctx (add g u) db = (add_group_member ctx g u db).1
serve_group ctx (remove g u) db = (remove_group_member ctx g u db).1

-- The primary key of `groups`.
abbrev pub IsKeyed : List Group → Type 0
IsKeyed groups = All (λ g. find (has_group_id g.id) groups ≡ some g) groups

-- A group that the caller's organisation has is not the group `k` of another one.
other_group :
    (ctx : TenantContext) (k j : ℕ) (g mine : Group) (db : TenancyDb)
    → IsKeyed db.groups
    → find (has_group_id k) db.groups ≡ some g
    → g.org_id ≢ ctx.org_id
    → find (is_group_in j ctx.org_id) db.groups ≡ some mine
    → (mine.id ≡ j) × (mine.id ≢ k)
other_group ctx k j g mine db keyed found foreign own =
    let held = find_holds (is_group_in j ctx.org_id) db.groups own in
    let row =
      find-All (λ x. find (has_group_id x.id) db.groups ≡ some x) (is_group_in j ctx.org_id)
        db.groups own keyed in
    (
      unfold is_group_in in ground arith,
      λ e.
          let same : some mine ≡ some g =
            sym (ap (λ i. find (has_group_id i) db.groups) (sym e) ∙ row) ∙ found in
          let here : g ≡ mine = ground arith in
          foreign (rw here (unfold is_group_in in ground arith)),
    )

is_not_mine :
    (m k : ℕ) (g : Group) (db : TenancyDb)
    → find (has_group_id k) db.groups ≡ some g
    → m ≢ k
    → has_group_id m g ≡ false
is_not_mine m k g db found apart =
    let held = find_holds (has_group_id k) db.groups found in unfold has_group_id in ground arith

module _ (p q : UserGroup → Bool) where
  -- A deletion of other rows keeps a selection, and so does an added row.
  select_where-delete_where :
      (rows : List UserGroup)
      → ((r : UserGroup) → p r ≡ true → q r ≡ false)
      → select_where p (delete_where q rows) ≡ select_where p rows
  unfolding select_where delete_where
  select_where-delete_where [] apart = refl
  select_where-delete_where (r ∷ rows) apart =
      ground (arith, apart r, select_where-delete_where rows apart)

select_where-snoc :
    (p : UserGroup → Bool) (rows : List UserGroup) (r : UserGroup)
    → p r ≡ false
    → select_where p (rows ++ (r ∷ [])) ≡ select_where p rows
unfolding select_where
select_where-snoc p [] r h = ground arith
select_where-snoc p (x ∷ rows) r h = ground (arith, select_where-snoc p rows r h)

-- No request on groups touches a group of another organisation: the group and its memberships are as
-- they were.
pub serve_group_stays_home :
    (ctx : TenantContext) (r : GroupRequest) (k : ℕ) (g : Group) (db : TenancyDb)
    → IsKeyed db.groups
    → find (has_group_id k) db.groups ≡ some g
    → g.org_id ≢ ctx.org_id
    → let db' = serve_group ctx r db in
      (find (has_group_id k) db'.groups ≡ some g)
      × (select_where (is_in_group k) db'.user_groups ≡ select_where (is_in_group k) db.user_groups)
unfolding serve_group
serve_group_stays_home ctx (create j name) k g db keyed found foreign =
    elim (Bool-cases
      (any (λ x. x.id == j || (x.org_id == ctx.org_id && str_eq x.name name)) db.groups)) [
        | inl taken ↦ (unfold create_group in ground arith, unfold create_group in ground arith)
        | inr free ↦
            let kept =
              find-append_some (has_group_id k) db.groups
                (record { id = j; org_id = ctx.org_id; name = name } ∷ []) found in
            (unfold create_group in ground arith, unfold create_group in ground arith)
      ]
serve_group_stays_home ctx (delete j) k g db keyed found foreign =
    elim (Option-cases (find (is_group_in j ctx.org_id) db.groups)) [
      | inl missing ↦ (unfold delete_group in ground arith, unfold delete_group in ground arith)
      | inr (mine, own) ↦
          let (at, apart) = other_group ctx k j g mine db keyed found foreign own in
          let kept : find (has_group_id k) (delete_where (has_group_id mine.id) db.groups)
              ≡ some g =
            find-delete_where (has_group_id k) (has_group_id mine.id) db.groups found
              (is_not_mine mine.id k g db found apart) in
          let rows : select_where (is_in_group k)
                (delete_where (is_in_group mine.id) db.user_groups)
              ≡ select_where (is_in_group k) db.user_groups =
            select_where-delete_where (is_in_group k) (is_in_group mine.id) db.user_groups
              (λ r h. unfold is_in_group in ground arith) in
          (unfold delete_group in ground arith, unfold delete_group in ground arith)
    ]
serve_group_stays_home ctx (add j u) k g db keyed found foreign =
    elim (Option-cases (find (is_group_in j ctx.org_id) db.groups)) [
      | inl missing ↦
          (unfold add_group_member in ground arith, unfold add_group_member in ground arith)
      | inr (mine, own) ↦
          let (at, apart) = other_group ctx k j g mine db keyed found foreign own in
          let rows : select_where (is_in_group k)
                (db.user_groups ++ (record { group_id = j; user_id = u } ∷ []))
              ≡ select_where (is_in_group k) db.user_groups =
            select_where-snoc (is_in_group k) db.user_groups _
              (unfold is_in_group in ground arith) in
          elim (Option-cases (find (is_user_in u ctx.org_id) db.users)) [
            | inl nobody ↦
                (unfold add_group_member in ground arith, unfold add_group_member in ground arith)
            | inr (v, member) ↦ elim (Bool-cases (any (is_group_row j u) db.user_groups)) [
              | inl taken ↦
                  (unfold add_group_member in ground arith, unfold add_group_member in ground arith)
              | inr free ↦
                  (unfold add_group_member in ground arith, unfold add_group_member in ground arith)
            ]
          ]
    ]
serve_group_stays_home ctx (remove j u) k g db keyed found foreign =
    elim (Option-cases (find (is_group_in j ctx.org_id) db.groups)) [
      | inl missing ↦
          (unfold remove_group_member in ground arith, unfold remove_group_member in ground arith)
      | inr (mine, own) ↦
          let (at, apart) = other_group ctx k j g mine db keyed found foreign own in
          let rows : select_where (is_in_group k) (delete_where (is_group_row j u) db.user_groups)
              ≡ select_where (is_in_group k) db.user_groups =
            select_where-delete_where (is_in_group k) (is_group_row j u) db.user_groups
              (λ r h. unfold is_in_group is_group_row in ground arith) in
          (unfold remove_group_member in ground arith, unfold remove_group_member in ground arith)
    ]
