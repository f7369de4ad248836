-- ===== src/Tenancy/Owners.antt =====
-- The owners of a workspace under requests on its members: modules/tenancy/service.py, `add_member`,
-- `change_member_role` and `remove_member`.
use ragz.Prelude.{
  ℕ, ◌≡◌, refl, true, false, List, [], ◌∷◌, ◌++◌, inl, inr, arith, Bool-cases, Option-cases, ◌==◌,
  find, any, any-append, update_where, delete_where, ◌⊎◌, map, select_where, Result-cases,
}
use ragz.Tenancy.State.{
  TenancyDb, TenantContext, WorkspaceMember, MemberRole, is_owner, is_member_row, is_workspace_in,
  is_user_in,
}
use ragz.Tenancy.Members.{
  add_member, change_member_role, remove_member, is_last_owner, set_member_role,
  get_workspace_checked, is_singleton,
}
use ragz.Tenancy.MemberRows.{
  is_owner_of, HasOwner, IsKeyed, delete_keeps_owner, demote_keeps_owner, update_keeps_any,
  delete_keeps_any, delete-IsKeyed, update-IsKeyed, snoc-IsKeyed,
}

-- A request on the members of a workspace, with the context of its caller.
pub data Request : Type 0 where
  add : TenantContext → ℕ → ℕ → MemberRole → Request
  change : TenantContext → ℕ → ℕ → MemberRole → Request
  remove : TenantContext → ℕ → ℕ → Request

unfoldable pub serve : Request → TenancyDb → TenancyDb
serve (add ctx w u role) db = (add_member ctx w u role db).1
serve (change ctx w u role) db = (change_member_role ctx w u role db).1
serve (remove ctx w u) db = (remove_member ctx w u db).1

unfoldable pub serve_all : List Request → TenancyDb → TenancyDb
serve_all [] db = db
serve_all (r ∷ rs) db = serve_all rs (serve r db)

-- What a request does to the member rows.
data Change (db : TenancyDb) (ms : List WorkspaceMember) : Type 0 where
  same : ms ≡ db.members → Change db ms
  added :
      (w u : ℕ) (role : MemberRole)
      → any (is_member_row w u) db.members ≡ false
      → ms ≡ db.members ++ (record { workspace_id = w; user_id = u; role = role } ∷ [])
      → Change db ms
  changed :
      (w u : ℕ) (role : MemberRole)
      → (is_owner role ≡ true) ⊎ (is_last_owner w u db ≡ false)
      → ms ≡ update_where (is_member_row w u) (set_member_role role) db.members
      → Change db ms
  removed :
      (w u : ℕ)
      → is_last_owner w u db ≡ false
      → ms ≡ delete_where (is_member_row w u) db.members
      → Change db ms

add_changes :
    (ctx : TenantContext) (w u : ℕ) (role : MemberRole) (db : TenancyDb)
    → Change db (add_member ctx w u role db).1.members
unfolding add_member
add_changes ctx w u role db =
    elim (Option-cases (find (is_workspace_in w ctx.org_id) db.workspaces)) [
      | inl e ↦ same (ground arith)
      | inr (ws, e) ↦ elim (Option-cases (find (is_user_in u ctx.org_id) db.users)) [
        | inl f ↦ same (ground arith)
        | inr (v, f) ↦ elim (Bool-cases (any (is_member_row w u) db.members)) [
          | inl g ↦ same (ground arith)
          | inr g ↦ added w u role g (ground arith)
        ]
      ]
    ]

role_changes :
    (ctx : TenantContext) (w u : ℕ) (role : MemberRole) (db : TenancyDb)
    → Change db (change_member_role ctx w u role db).1.members
unfolding change_member_role
role_changes ctx w u role db = elim (Result-cases (get_workspace_checked ctx w db)) [
  | inr (e, denied) ↦ same (ground arith)
  | inl (ws, granted) ↦ elim (Bool-cases (any (is_member_row w u) db.members)) [
    | inr e ↦ same (ground arith)
    | inl e ↦ elim (Bool-cases (is_owner role)) [
      | inl o ↦ changed w u role (inl o) (ground arith)
      | inr o ↦ elim (Bool-cases (is_last_owner w u db)) [
        | inl l ↦ same (ground arith)
        | inr l ↦ changed w u role (inr l) (ground arith)
      ]
    ]
  ]
]

remove_changes :
    (ctx : TenantContext) (w u : ℕ) (db : TenancyDb)
    → Change db (remove_member ctx w u db).1.members
unfolding remove_member
remove_changes ctx w u db = elim (Result-cases (get_workspace_checked ctx w db)) [
  | inr (e, denied) ↦ same (ground arith)
  | inl (ws, granted) ↦ elim (Bool-cases (any (is_member_row w u) db.members)) [
    | inr e ↦ same (ground arith)
    | inl e ↦ elim (Bool-cases (is_last_owner w u db)) [
      | inl l ↦ same (ground arith)
      | inr l ↦ removed w u l (ground arith)
    ]
  ]
]

serve_changes : (r : Request) (db : TenancyDb) → Change db (serve r db).members
unfolding serve
serve_changes (add ctx w u role) db = add_changes ctx w u role db
serve_changes (change ctx w u role) db = role_changes ctx w u role db
serve_changes (remove ctx w u) db = remove_changes ctx w u db

last_owner_rows :
    (w u : ℕ) (db : TenancyDb)
    → is_last_owner w u db ≡ false
    → is_singleton u (map (λ m. m.user_id) (select_where (is_owner_of w) db.members)) ≡ false
unfolding is_last_owner
last_owner_rows w u db h = h

Change-IsKeyed :
    (db : TenancyDb) (ms : List WorkspaceMember) → Change db ms → IsKeyed db.members → IsKeyed ms
Change-IsKeyed db ms (same e) k = rw e k
Change-IsKeyed db ms (added w u role free e) k = rw e (snoc-IsKeyed w u role db.members free k)
Change-IsKeyed db ms (changed w u role _ e) k = rw e (update-IsKeyed w u role db.members k)
Change-IsKeyed db ms (removed w u _ e) k = rw e (delete-IsKeyed (is_member_row w u) db.members k)

Change-HasOwner :
    (v : ℕ) (db : TenancyDb) (ms : List WorkspaceMember)
    → Change db ms
    → IsKeyed db.members
    → HasOwner v db
    → any (is_owner_of v) ms ≡ true
Change-HasOwner v db ms (same e) k h = rw e h
Change-HasOwner v db ms (added w u role free e) k h =
    rw (e, any-append (is_owner_of v) db.members, h) refl
Change-HasOwner v db ms (changed w u role (inl o) e) k h = rw e (
    update_keeps_any (is_owner_of v) (is_member_row w u) (set_member_role role) db.members
      (λ m q p. unfold set_member_role in ground arith) h)
Change-HasOwner v db ms (changed w u role (inr l) e) k h = elim (Bool-cases (w == v)) [
  | inl here ↦
      let e' : w ≡ v = ground arith in
      rw (e, e') (demote_keeps_owner v u role db.members k (rw e' at (last_owner_rows w u db l)) h)
  | inr elsewhere ↦ rw e (
      update_keeps_any (is_owner_of v) (is_member_row w u) (set_member_role role) db.members
        (λ m q p. unfold set_member_role is_member_row in ground arith) h)
]
Change-HasOwner v db ms (removed w u l e) k h = elim (Bool-cases (w == v)) [
  | inl here ↦
      let e' : w ≡ v = ground arith in
      rw (e, e') (delete_keeps_owner v u db.members k (rw e' at (last_owner_rows w u db l)) h)
  | inr elsewhere ↦ rw e (
      delete_keeps_any (is_owner_of v) (is_member_row w u) db.members
        (λ m q. unfold is_member_row in ground arith) h)
]

-- Whatever requests come, in any order and from any callers, a workspace that has an owner keeps one,
-- and a user has at most one row in a workspace.
pub serve_all-HasOwner :
    (v : ℕ) (rs : List Request) (db : TenancyDb)
    → IsKeyed db.members
    → HasOwner v db
    → IsKeyed (serve_all rs db).members × HasOwner v (serve_all rs db)
unfolding serve_all
serve_all-HasOwner v [] db k h = (k, h)
serve_all-HasOwner v (r ∷ rs) db k h =
    serve_all-HasOwner v rs (serve r db) (Change-IsKeyed db _ (serve_changes r db) k)
      (Change-HasOwner v db _ (serve_changes r db) k h)
