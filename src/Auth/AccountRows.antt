-- ===== src/Auth/AccountRows.antt =====
-- The rows of the accounts under the operations that add an account or change one: the primary key,
-- and how many are superadmins (modules/auth/service.py).
use mathlib.Core.Option
use ragz.Prelude.{
  Result, ℕ, ◌+◌, ◌≤◌, ◌≡◌, refl, Bool, true, false, ◌||◌, none, some, List, [], ◌∷◌, ◌++◌, ◌⊎◌,
  inl, inr, ◌∙◌, arith, Option-cases, Bool-cases, find, any, find-append, find-append_some,
  find-update_where, find-All, All, All-append, All-update_where, All-map, update_where,
  count_where, sym, ◌==◌, ==_iff, if◌then◌else◌, ap,
}
use ragz.Auth.State.{User, Invitation, AuthDb, has_user_id, is_superadmin}
use ragz.Tenancy.State.{TenantContext, is_user_in}
use ragz.Auth.Accounts.{is_taken, has_superadmin, org_user}

unfoldable pub superadmins : List User → ℕ
superadmins us = count_where (λ u. is_superadmin u.role) us

-- The primary key of the accounts.
abbrev pub IsKeyed : List User → Type 0
IsKeyed us = All (λ u. find (has_user_id u.id) us ≡ some u) us

-- The database's constraints, and at most one superadmin.
pub record HasOneSuperadmin (db : AuthDb) : Type 0 where
  pub keyed : IsKeyed db.users
  pub at_most : superadmins db.users ≤ 1
  pub invited : All (λ i. is_superadmin i.role ≡ false) db.invitations

unseen :
    (us : List User) (u : User)
    → any (λ v. v.id == u.id || v.email == u.email) us ≡ false
    → find (has_user_id u.id) us ≡ none
unfolding find any has_user_id
unseen [] u free = refl
unseen (v ∷ us) u free = ground (arith, unseen us u)

-- An account is added under a new id.
append-IsKeyed :
    (us : List User) (u : User)
    → IsKeyed us
    → any (λ v. v.id == u.id || v.email == u.email) us ≡ false
    → IsKeyed (us ++ (u ∷ []))
append-IsKeyed us u keyed free =
    All-append _ us (u ∷ [])
      (All-map _ _ us (λ v found. find-append_some (has_user_id v.id) us (u ∷ []) found) keyed)
      (
        find-append (has_user_id u.id) us (u ∷ []) (unseen us u free)
            ∙ unfold find has_user_id in ground arith,
        tt,
      )

update-IsKeyed :
    (us : List User) (q : User → Bool) (f : User → User)
    → ((u : User) → (f u).id ≡ u.id)
    → IsKeyed us
    → IsKeyed (update_where q f us)
update-IsKeyed us q f keep keyed =
    All-update_where _ _ q f us
      (λ u hit found.
        ap (λ k. find (has_user_id k) (update_where q f us)) (keep u)
        ∙ updated u
        ∙ ap (Option.map (λ v. if q v then f v else v)) found
        ∙ ground arith)
      (λ u miss found.
        updated u ∙ ap (Option.map (λ v. if q v then f v else v)) found ∙ ground arith)
      keyed
  where
    updated :
        (u : User)
        → find (has_user_id u.id) (update_where q f us)
          ≡ Option.map (λ v. if q v then f v else v) (find (has_user_id u.id) us)
    updated u =
        find-update_where (has_user_id u.id) q f us (λ v. unfold has_user_id in rw (keep v) refl)

superadmins-append :
    (us : List User) (u : User)
    → superadmins (us ++ (u ∷ [])) ≡ superadmins us + (if is_superadmin u.role then 1 else 0)
unfolding superadmins count_where
superadmins-append [] u = ground arith
superadmins-append (v ∷ us) u = ground (arith, superadmins-append us u)

-- An update of rows that are no superadmin's, and stay so.
superadmins-update :
    (us : List User) (q : User → Bool) (f : User → User)
    → All (λ u. q u ≡ true → is_superadmin (f u).role ≡ is_superadmin u.role) us
    → superadmins (update_where q f us) ≡ superadmins us
unfolding superadmins count_where update_where
superadmins-update [] q f same = refl
superadmins-update (u ∷ us) q f same = ground (arith, same.0, superadmins-update us q f same.1)

org_user_ok :
    (ctx : TenantContext) (k : ℕ) (u : User) (db : AuthDb)
    → org_user ctx k db ≡ Result.ok u
    → (find (is_user_in k ctx.org_id) db.users ≡ some u) × (is_superadmin u.role ≡ false)
unfolding org_user
org_user_ok ctx k u db h = elim (Option-cases (find (is_user_in k ctx.org_id) db.users)) [
  | inl e ↦ absurd (ground arith)
  | inr (v, e) ↦ elim (Bool-cases (is_superadmin v.role)) [
    | inl top ↦ absurd (ground arith)
    | inr below ↦ let e' : v ≡ u = ground arith in (rw e' at e, rw e' at below)
  ]
]

-- The rows of the account that `_org_user` gives are no superadmin's.
pub org_user_rows :
    (ctx : TenantContext) (k : ℕ) (u : User) (db : AuthDb)
    → IsKeyed db.users
    → org_user ctx k db ≡ Result.ok u
    → All (λ v. has_user_id u.id v ≡ true → is_superadmin v.role ≡ false) db.users
org_user_rows ctx k u db keyed h =
    let (found, below) = org_user_ok ctx k u db h in
    let own : find (has_user_id u.id) db.users ≡ some u =
      find-All (λ v. find (has_user_id v.id) db.users ≡ some v) _ db.users found keyed in
    All-map _ _ db.users
      (λ v theirs same.
        let e : v.id ≡ u.id = unfold has_user_id in (==_iff v.id u.id).0 same in
        let e' : u ≡ v = (ground (arith, sym own ∙ (rw e at theirs))) in rw e' at below)
      keyed

-- What a request does to the accounts and the invitations.
pub data Change (db : AuthDb) (db' : AuthDb) : Type 0 where
  same : db'.users ≡ db.users → db'.invitations ≡ db.invitations → Change db db'
  added :
      (u : User)
      → is_taken u db ≡ false
      → (is_superadmin u.role ≡ false) ⊎ (has_superadmin db ≡ false)
      → db'.users ≡ db.users ++ (u ∷ [])
      → All (λ i. is_superadmin i.role ≡ false) db'.invitations
      → Change db db'
  updated :
      (k : ℕ) (f : User → User)
      → ((u : User) → (f u).id ≡ u.id)
      → All (λ v. has_user_id k v ≡ true → is_superadmin (f v).role ≡ is_superadmin v.role) db.users
      → db'.users ≡ update_where (has_user_id k) f db.users
      → db'.invitations ≡ db.invitations
      → Change db db'
  invited :
      (i : Invitation)
      → is_superadmin i.role ≡ false
      → db'.users ≡ db.users
      → db'.invitations ≡ db.invitations ++ (i ∷ [])
      → Change db db'

superadmins-none :
    (us : List User) → any (λ u. is_superadmin u.role) us ≡ false → superadmins us ≡ 0
unfolding any superadmins count_where
superadmins-none [] h = refl
superadmins-none (u ∷ us) h = ground (arith, superadmins-none us)

allowed_adds :
    (db : AuthDb) (u : User)
    → (is_superadmin u.role ≡ false) ⊎ (has_superadmin db ≡ false)
    → superadmins db.users ≤ 1
    → superadmins db.users + (if is_superadmin u.role then 1 else 0) ≤ 1
unfolding has_superadmin
allowed_adds db u (inl below) h = ground arith
allowed_adds db u (inr first) h = ground (arith, superadmins-none db.users first)

pub Change-HasOneSuperadmin :
    (db db' : AuthDb) → Change db db' → HasOneSuperadmin db → HasOneSuperadmin db'
Change-HasOneSuperadmin db db' (same users invitations) h = record {
  keyed = rw users h.keyed;
  at_most = rw users h.at_most;
  invited = rw invitations h.invited;
}
Change-HasOneSuperadmin db db' (invited i below users invitations) h = record {
  keyed = rw users h.keyed;
  at_most = rw users h.at_most;
  invited = rw invitations (All-append _ db.invitations _ h.invited (below, tt));
}
Change-HasOneSuperadmin db db' (updated k f keep rows users invitations) h = record {
  keyed = rw users (update-IsKeyed db.users (has_user_id k) f keep h.keyed);
  at_most = rw (users, superadmins-update db.users (has_user_id k) f rows) h.at_most;
  invited = rw invitations h.invited;
}
Change-HasOneSuperadmin db db' (added u free allowed users invitations) h = record {
  keyed = rw users (append-IsKeyed db.users u h.keyed (unfold is_taken in free));
  at_most = rw (users, superadmins-append db.users u) (allowed_adds db u allowed h.at_most);
  invited = invitations;
}

-- The account with the id is there and a superadmin.
abbrev pub IsSuperadmin : ℕ → List User → Type 0
IsSuperadmin k us = (u : User) × (find (has_user_id k) us ≡ some u) × (is_superadmin u.role ≡ true)

IsSuperadmin-update :
    (k : ℕ) (us : List User) (q : User → Bool) (f : User → User)
    → ((u : User) → (f u).id ≡ u.id)
    → All (λ u. q u ≡ true → is_superadmin (f u).role ≡ is_superadmin u.role) us
    → IsSuperadmin k us
    → IsSuperadmin k (update_where q f us)
IsSuperadmin-update k us q f keep rows (u, found, top) = (
  if q u then f u else u,
  find-update_where (has_user_id k) q f us (λ v. unfold has_user_id in rw (keep v) refl)
      ∙ ap (Option.map (λ v. if q v then f v else v)) found,
  elim (Bool-cases (q u)) [
    | inl hit ↦
        let kept =
          find-All (λ v. q v ≡ true → is_superadmin (f v).role ≡ is_superadmin v.role)
            (has_user_id k) us found rows in
        rw hit (kept hit ∙ top)
    | inr miss ↦ rw miss top
  ],
)

-- An account that is a superadmin stays one.
pub Change-IsSuperadmin :
    (k : ℕ) (db db' : AuthDb) → Change db db' → IsSuperadmin k db.users → IsSuperadmin k db'.users
Change-IsSuperadmin k db db' (same users invitations) h = rw users h
Change-IsSuperadmin k db db' (invited i below users invitations) h = rw users h
Change-IsSuperadmin k db db' (updated j f keep rows users invitations) h =
    rw users (IsSuperadmin-update k db.users (has_user_id j) f keep rows h)
Change-IsSuperadmin k db db' (added u free allowed users invitations) (v, found, top) =
    rw users (v, find-append_some (has_user_id k) db.users (u ∷ []) found, top)
