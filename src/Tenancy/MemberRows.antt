-- ===== src/Tenancy/MemberRows.antt =====
-- Rows of `workspace_members` under the changes that modules/tenancy/service.py makes.
use ragz.Prelude.{
  ℕ, ◌≡◌, refl, Bool, true, false, ◌&&◌, List, [], ◌∷◌, ◌++◌, inl, inr, arith, Bool-cases, ◌==◌,
  any, select_where, any-append, update_where, delete_where, map, ◌∙◌,
}
use ragz.Tenancy.State.{TenancyDb, WorkspaceMember, MemberRole, is_owner, is_member_row}
use ragz.Tenancy.Members.{is_singleton, set_member_role}

abbrev pub is_owner_of : ℕ → WorkspaceMember → Bool
is_owner_of w m = m.workspace_id == w && is_owner m.role

-- Some member of the workspace is an owner.
abbrev pub HasOwner : ℕ → TenancyDb → Type 0
HasOwner w db = any (is_owner_of w) db.members ≡ true

-- The primary key: a workspace and a user have one row.
abbrev pub IsKeyed : List WorkspaceMember → Type 0
IsKeyed [] = Unit
IsKeyed (m ∷ ms) = (any (is_member_row m.workspace_id m.user_id) ms ≡ false) × IsKeyed ms

delete_where_none :
    (q : WorkspaceMember → Bool) (ms : List WorkspaceMember)
    → any q ms ≡ false
    → delete_where q ms ≡ ms
unfolding any delete_where
delete_where_none q [] h = refl
delete_where_none q (m ∷ ms) h = ground (arith, delete_where_none q ms)

update_where_none :
    (q : WorkspaceMember → Bool) (f : WorkspaceMember → WorkspaceMember) (ms : List WorkspaceMember)
    → any q ms ≡ false
    → update_where q f ms ≡ ms
unfolding any update_where
update_where_none q f [] h = refl
update_where_none q f (m ∷ ms) h = ground (arith, update_where_none q f ms)

owners_nonempty :
    (w k : ℕ) (ms : List WorkspaceMember)
    → is_singleton k (k ∷ map (λ m. m.user_id) (select_where (is_owner_of w) ms)) ≡ false
    → any (is_owner_of w) ms ≡ true
unfolding is_singleton select_where any
owners_nonempty w k [] h = ground arith
owners_nonempty w k (m ∷ ms) h = ground (arith, owners_nonempty w k ms)

-- Two rows of one workspace and one user are one.
row_of :
    (w u : ℕ) (m : WorkspaceMember) (ms : List WorkspaceMember)
    → is_member_row w u m ≡ true
    → any (is_member_row m.workspace_id m.user_id) ms ≡ false
    → any (is_member_row w u) ms ≡ false
unfolding is_member_row
row_of w u m ms h k =
    let e : m.workspace_id ≡ w = ground arith in
    let f : m.user_id ≡ u = ground arith in rw (e, f) at k

pub delete_keeps_owner :
    (w u : ℕ) (ms : List WorkspaceMember)
    → IsKeyed ms
    → is_singleton u (map (λ m. m.user_id) (select_where (is_owner_of w) ms)) ≡ false
    → any (is_owner_of w) ms ≡ true
    → any (is_owner_of w) (delete_where (is_member_row w u) ms) ≡ true
unfolding any delete_where select_where
delete_keeps_owner w u [] keyed two has = ground arith
delete_keeps_owner w u (m ∷ ms) keyed two has = elim (Bool-cases (is_member_row w u m)) [
  | inl q ↦ elim (Bool-cases (is_owner_of w m)) [
    | inl p ↦
        let e : u ≡ m.user_id = unfold is_member_row in ground arith in
        let rest : any (is_owner_of w) ms ≡ true =
          owners_nonempty w m.user_id ms (rw (p, e) at two) in
        rw (q, delete_where_none (is_member_row w u) ms (row_of w u m ms q keyed.0)) rest
    | inr p ↦ rw q (delete_keeps_owner w u ms keyed.1 (rw p at two) (rw p at has))
  ]
  | inr q ↦ elim (Bool-cases (is_owner_of w m)) [
    | inl p ↦ rw (q, p) refl
    | inr p ↦ rw (q, p) (delete_keeps_owner w u ms keyed.1 (rw p at two) (rw p at has))
  ]
]

pub demote_keeps_owner :
    (w u : ℕ) (role : MemberRole) (ms : List WorkspaceMember)
    → IsKeyed ms
    → is_singleton u (map (λ m. m.user_id) (select_where (is_owner_of w) ms)) ≡ false
    → any (is_owner_of w) ms ≡ true
    → any (is_owner_of w) (update_where (is_member_row w u) (set_member_role role) ms) ≡ true
unfolding any update_where select_where
demote_keeps_owner w u role [] keyed two has = ground arith
demote_keeps_owner w u role (m ∷ ms) keyed two has = elim (Bool-cases (is_member_row w u m)) [
  | inl q ↦ elim (Bool-cases (is_owner_of w m)) [
    | inl p ↦
        let e : u ≡ m.user_id = unfold is_member_row in ground arith in
        let rest : any (is_owner_of w) ms ≡ true =
          owners_nonempty w m.user_id ms (rw (p, e) at two) in
        rw
          (
            q,
            update_where_none (is_member_row w u) (set_member_role role) ms
                (row_of w u m ms q keyed.0),
          )
          (ground arith)
    | inr p ↦
        rw q (ground (arith, demote_keeps_owner w u role ms keyed.1 (rw p at two) (rw p at has)))
  ]
  | inr q ↦ elim (Bool-cases (is_owner_of w m)) [
    | inl p ↦ rw (q, p) refl
    | inr p ↦ rw (q, p) (demote_keeps_owner w u role ms keyed.1 (rw p at two) (rw p at has))
  ]
]

-- Where every changed row keeps the condition, some row still meets it.
pub update_keeps_any :
    (p q : WorkspaceMember → Bool) (f : WorkspaceMember → WorkspaceMember)
    (ms : List WorkspaceMember)
    → ((m : WorkspaceMember) → q m ≡ true → p m ≡ true → p (f m) ≡ true)
    → any p ms ≡ true
    → any p (update_where q f ms) ≡ true
unfolding any update_where
update_keeps_any p q f [] keep has = has
update_keeps_any p q f (m ∷ ms) keep has = ground (arith, keep m, update_keeps_any p q f ms keep)

pub delete_keeps_any :
    (p q : WorkspaceMember → Bool) (ms : List WorkspaceMember)
    → ((m : WorkspaceMember) → q m ≡ true → p m ≡ false)
    → any p ms ≡ true
    → any p (delete_where q ms) ≡ true
unfolding any delete_where
delete_keeps_any p q [] off has = has
delete_keeps_any p q (m ∷ ms) off has = ground (arith, off m, delete_keeps_any p q ms off)

any-false_delete :
    (p q : WorkspaceMember → Bool) (ms : List WorkspaceMember)
    → any p ms ≡ false
    → any p (delete_where q ms) ≡ false
unfolding any delete_where
any-false_delete p q [] h = h
any-false_delete p q (m ∷ ms) h = ground (arith, any-false_delete p q ms)

any_update_role :
    (w u w' u' : ℕ) (role : MemberRole) (ms : List WorkspaceMember)
    → any (is_member_row w u) (update_where (is_member_row w' u') (set_member_role role) ms)
      ≡ any (is_member_row w u) ms
unfolding any update_where is_member_row set_member_role
any_update_role w u w' u' role [] = refl
any_update_role w u w' u' role (m ∷ ms) = ground (arith, any_update_role w u w' u' role ms)

pub delete-IsKeyed :
    (q : WorkspaceMember → Bool) (ms : List WorkspaceMember)
    → IsKeyed ms
    → IsKeyed (delete_where q ms)
unfolding delete_where
delete-IsKeyed q [] k = tt
delete-IsKeyed q (m ∷ ms) k = elim (Bool-cases (q m)) [
  | inl e ↦ rw e (delete-IsKeyed q ms k.1)
  | inr e ↦ rw e (any-false_delete _ q ms k.0, delete-IsKeyed q ms k.1)
]

pub update-IsKeyed :
    (w u : ℕ) (role : MemberRole) (ms : List WorkspaceMember)
    → IsKeyed ms
    → IsKeyed (update_where (is_member_row w u) (set_member_role role) ms)
unfolding update_where
update-IsKeyed w u role [] k = tt
update-IsKeyed w u role (m ∷ ms) k = elim (Bool-cases (is_member_row w u m)) [
  | inl e ↦ rw e (
    unfold set_member_role in any_update_role _ _ w u role ms ∙ k.0,
    update-IsKeyed w u role ms k.1,
  )
  | inr e ↦ rw e (any_update_role _ _ w u role ms ∙ k.0, update-IsKeyed w u role ms k.1)
]

pub snoc-IsKeyed :
    (w u : ℕ) (role : MemberRole) (ms : List WorkspaceMember)
    → any (is_member_row w u) ms ≡ false
    → IsKeyed ms
    → IsKeyed (ms ++ (record { workspace_id = w; user_id = u; role = role } ∷ []))
unfolding any is_member_row
snoc-IsKeyed w u role [] free k = (refl, tt)
snoc-IsKeyed w u role (m ∷ ms) free k = (
  any-append (is_member_row m.workspace_id m.user_id) ms _ ∙ ground (arith, k.0),
  snoc-IsKeyed w u role ms (ground arith) k.1,
)
