-- ===== src/Tenancy/GroupAccess.antt =====
-- Groups in the context of a request: modules/tenancy/service.py, and `build_context_for_user` of
-- modules/tenancy/context.py.
use ragz.Prelude.{
  ℕ, ◌≡◌, refl, Bool, true, false, some, Option, List, [], ◌∷◌, ◌++◌, map, ok, ◌==◌, arith, find,
  find_holds, any, select_where, delete_where, id_elem,
}
use ragz.Auth.State.{User}
use ragz.Tenancy.State.{TenancyDb, TenantContext, Group, UserGroup, is_group_in, is_user_in}
use ragz.Tenancy.Context.{build_context_for_user}
use ragz.Tenancy.Groups.{
  is_in_group, is_group_row, delete_group, add_group_member, remove_group_member,
}

id_elem-snoc :
    (g u : ℕ) (rows : List UserGroup)
    → id_elem g (
        map
          (λ r. r.group_id)
          (select_where
            (λ r. r.user_id == u)
            (rows ++ (record { group_id = g; user_id = u } ∷ []))))
      ≡ true
unfolding id_elem select_where
id_elem-snoc g u [] = ground arith
id_elem-snoc g u (r ∷ rows) = ground (arith, id_elem-snoc g u rows)

id_elem-deleted :
    (g u : ℕ) (q : UserGroup → Bool) (rows : List UserGroup)
    → ((r : UserGroup) → is_group_row g u r ≡ true → q r ≡ true)
    → id_elem g (map (λ r. r.group_id) (select_where (λ r. r.user_id == u) (delete_where q rows)))
      ≡ false
unfolding id_elem select_where delete_where is_group_row
id_elem-deleted g u q [] all = refl
id_elem-deleted g u q (r ∷ rows) all = ground (arith, all r, id_elem-deleted g u q rows all)

add_done :
    (ctx : TenantContext) (g : ℕ) (group : Group) (u : User) (db : TenancyDb)
    → find (is_group_in g ctx.org_id) db.groups ≡ some group
    → find (is_user_in u.id ctx.org_id) db.users ≡ some u
    → any (is_group_row g u.id) db.user_groups ≡ false
    → let (result, db') = add_group_member ctx g u.id db in
      (result ≡ ok tt)
      × (db'.user_groups ≡ db.user_groups ++ (record { group_id = g; user_id = u.id } ∷ []))
      × (db'.groups ≡ db.groups)
unfolding add_group_member
add_done ctx g group u db found member free = (ground arith, ground arith, ground arith)

remove_done :
    (ctx : TenantContext) (g : ℕ) (group : Group) (k : ℕ) (db : TenancyDb)
    → find (is_group_in g ctx.org_id) db.groups ≡ some group
    → let (result, db') = remove_group_member ctx g k db in
      (result ≡ ok tt) × (db'.user_groups ≡ delete_where (is_group_row g k) db.user_groups)
unfolding remove_group_member
remove_done ctx g group k db found = (ground arith, ground arith)

delete_done :
    (ctx : TenantContext) (g : ℕ) (group : Group) (db : TenancyDb)
    → find (is_group_in g ctx.org_id) db.groups ≡ some group
    → let (result, db') = delete_group ctx g db in
      (result ≡ ok tt) × (db'.user_groups ≡ delete_where (is_in_group g) db.user_groups)
delete_done ctx g group db found =
    let held = find_holds (is_group_in g ctx.org_id) db.groups found in
    let same : group.id ≡ g = unfold is_group_in in ground arith in
    (unfold delete_group in ground arith, unfold delete_group in ground arith)

-- In the caller's organisation, adding a user who is not in a group succeeds and the user's next
-- context has the group; removing the user, or deleting the group, succeeds and the next context has
-- it no more.
pub group_requests_take_effect :
    (ctx : TenantContext) (g : ℕ) (group : Group) (u : User) (workspaces : Option (List ℕ))
    (db : TenancyDb)
    → find (is_group_in g ctx.org_id) db.groups ≡ some group
    → find (is_user_in u.id ctx.org_id) db.users ≡ some u
    → any (is_group_row g u.id) db.user_groups ≡ false
    → let (added, after_add) = add_group_member ctx g u.id db in
      let (removed, after_remove) = remove_group_member ctx g u.id after_add in
      let (deleted, after_delete) = delete_group ctx g after_add in
      (added ≡ ok tt)
      × (id_elem g (build_context_for_user u workspaces after_add).group_ids ≡ true)
      × (removed ≡ ok tt)
      × (id_elem g (build_context_for_user u workspaces after_remove).group_ids ≡ false)
      × (deleted ≡ ok tt)
      × (id_elem g (build_context_for_user u workspaces after_delete).group_ids ≡ false)
group_requests_take_effect ctx g group u workspaces db found member free =
    let after_add : TenancyDb = (add_group_member ctx g u.id db).1 in
    let (added, rows, groups) = add_done ctx g group u db found member free in
    let still : find (is_group_in g ctx.org_id) after_add.groups ≡ some group = rw groups found in
    let (removed, without_row) = remove_done ctx g group u.id after_add still in
    let (deleted, without_group) = delete_done ctx g group after_add still in
    (
      added,
      unfold build_context_for_user in rw rows (id_elem-snoc g u.id db.user_groups),
      removed,
      unfold build_context_for_user in
          rw without_row
            (id_elem-deleted g u.id (is_group_row g u.id) after_add.user_groups (λ r h. h)),
      deleted,
      unfold build_context_for_user in
          rw without_group (
            id_elem-deleted g u.id (is_in_group g) after_add.user_groups
              (λ r h. unfold is_group_row is_in_group in ground arith)),
    )
