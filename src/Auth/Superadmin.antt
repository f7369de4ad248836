-- ===== src/Auth/Superadmin.antt =====
-- How many superadmins there are: modules/auth/service.py, the operations that add an account or
-- change a role.
use ragz.Prelude.{
  All-selected, select_where, str_eq, ℕ, ◌≡◌, refl, Bool, true, false, not, ◌||◌, Option, some,
  List, [], ◌∷◌, inl, inr, ◌∙◌, arith, Option-cases, Bool-cases, Result-cases, find, any, find-All,
  All, All-update_where, All-map, All-intro, update_where, sym, is_none, ◌==◌, ltb,
}
use ragz.Auth.Refresh.{add_audit}
use ragz.Auth.Admission.{login_oidc_found, login_oidc_new}
use ragz.Auth.State.{
  AuditTarget, audit_event, User, Role, Organization, Invitation, AuthDb, Crypto, Settings, Fresh,
  has_email, has_user_id, is_superadmin, superadmin,
}
use ragz.Tenancy.State.{TenantContext}
use ragz.Auth.Accounts.{
  insert_user, accept_invitation, has_invitation_hash, mark_accepted, new_user, is_taken,
  has_superadmin, register_first_superadmin, create_invitation, set_user_active, set_user_role,
  set_active, set_role, org_user, target_org, invitation_for,
}
use ragz.Auth.Oidc.{login_oidc, oidc_session, provision_in, provision, provisioned, is_bound}
use ragz.Auth.AccountRows.{
  IsKeyed, IsSuperadmin, Change-IsSuperadmin, HasOneSuperadmin, Change, same, added, updated,
  invited, org_user_rows, Change-HasOneSuperadmin,
}

-- A request that adds an account or changes one, with the ids that it draws.
pub data Request : Type 0 where
  register : (org_id user_id email password : ℕ) → Request
  invite : TenantContext → (now ttl_hours : ℕ) → Fresh → (email : ℕ) → Role → Option ℕ → Request
  accept : (now user_id raw password : ℕ) → Request
  activate : TenantContext → ℕ → Bool → Request
  change_role : TenantContext → ℕ → Role → Request
  enter : (now : ℕ) → Fresh → (user_id email issuer subject unusable : ℕ) → Request

-- The route of a change of role offers the other roles only.
abbrev pub IsOffered : Request → Type 0
IsOffered (change_role ctx k role) = is_superadmin role ≡ false
IsOffered _ = Unit

module _ (crypto : Crypto) (settings : Settings) (domain : ℕ → ℕ) where
  unfoldable pub serve : Request → AuthDb → AuthDb
  serve (register org_id user_id email password) db =
      (register_first_superadmin crypto org_id user_id email password db).1
  serve (invite ctx now ttl_hours fresh email role org_id) db =
      (create_invitation crypto ctx now ttl_hours fresh email role org_id db).1
  serve (accept now user_id raw password) db =
      (accept_invitation crypto now user_id raw password db).1
  serve (activate ctx k active) db = (set_user_active ctx k active db).1
  serve (change_role ctx k role) db = (set_user_role ctx k role db).1
  serve (enter now fresh user_id email issuer subject unusable) db =
      (login_oidc crypto settings domain now fresh user_id email issuer subject unusable db).1

  unfoldable pub serve_all : List Request → AuthDb → AuthDb
  serve_all [] db = db
  serve_all (r ∷ rs) db = serve_all rs (serve r db)

  register_changes :
      (org_id user_id email password : ℕ) (db : AuthDb)
      → HasOneSuperadmin db
      → Change db (register_first_superadmin crypto org_id user_id email password db).1
  unfolding register_first_superadmin
  register_changes org_id user_id email password db h =
      let u = new_user user_id org_id email (crypto.hash_password password) superadmin in
      let clash = is_taken u db || any (λ o. str_eq o.name "Platform") db.organizations in
      elim (Bool-cases (has_superadmin db)) [
        | inl there ↦ same (ground arith) (ground arith)
        | inr first ↦ elim (Bool-cases clash) [
          | inl refused ↦ same (ground arith) (ground arith)
          | inr free ↦
              added u (ground arith) (inr first) (ground arith) (rw (first, free) h.invited)
        ]
      ]

  invite_changes :
      (ctx : TenantContext) (now ttl_hours : ℕ) (fresh : Fresh) (email : ℕ) (role : Role)
      (org_id : Option ℕ) (db : AuthDb)
      → Change db (create_invitation crypto ctx now ttl_hours fresh email role org_id db).1
  unfolding create_invitation
  invite_changes ctx now ttl_hours fresh email role org_id db =
      elim (Result-cases (target_org ctx org_id db)) [
        | inr (e, refused) ↦ same (ground arith) (ground arith)
        | inl (target, e) ↦
            elim (Bool-cases (any (has_email email) db.users || is_superadmin role)) [
              | inl refused ↦ same (ground arith) (ground arith)
              | inr allowed ↦
                  invited (invitation_for crypto now ttl_hours fresh target email role)
                    (unfold invitation_for in ground arith) (ground arith) (ground arith)
            ]
      ]

  activate_changes :
      (ctx : TenantContext) (k : ℕ) (active : Bool) (db : AuthDb)
      → Change db (set_user_active ctx k active db).1
  activate_changes ctx k active db = elim (Result-cases (org_user ctx k db)) [
    | inr (e, refused) ↦
        same (unfold set_user_active in ground arith) (unfold set_user_active in ground arith)
    | inl (u, e) ↦
        updated u.id (set_active active) (λ v. unfold set_active in refl)
          (All-intro _ db.users (λ v mine. unfold set_active in refl))
          (unfold set_user_active in ground arith) (unfold set_user_active in ground arith)
  ]

  role_changes :
      (ctx : TenantContext) (k : ℕ) (role : Role) (db : AuthDb)
      → is_superadmin role ≡ false
      → IsKeyed db.users
      → Change db (set_user_role ctx k role db).1
  role_changes ctx k role db below keyed = elim (Result-cases (org_user ctx k db)) [
    | inr (e, refused) ↦
        same (unfold set_user_role in ground arith) (unfold set_user_role in ground arith)
    | inl (u, e) ↦
        updated u.id (set_role role) (λ v. unfold set_role in refl)
          (All-map (λ v. has_user_id u.id v ≡ true → is_superadmin v.role ≡ false) _ db.users
            (λ v low mine. unfold set_role in (below ∙ sym (low mine)))
            (org_user_rows ctx k u db keyed e))
          (unfold set_user_role in ground arith) (unfold set_user_role in ground arith)
  ]

  marked_below :
      (now : ℕ) (i : Invitation) (is : List Invitation)
      → All (λ j. is_superadmin j.role ≡ false) is
      → All
          (λ j. is_superadmin j.role ≡ false)
          (update_where (λ j. j.id == i.id) (mark_accepted now) is)
  marked_below now i is below =
      All-update_where (λ j. is_superadmin j.role ≡ false) (λ j. is_superadmin j.role ≡ false)
        (λ j. j.id == i.id) (mark_accepted now) is (λ j hit low. unfold mark_accepted in low)
        (λ j miss low. low) below

  session_keeps :
      (now : ℕ) (fresh : Fresh) (u : User) (base : AuthDb)
      → ((oidc_session crypto settings now fresh u base).1.users ≡ base.users)
        × ((oidc_session crypto settings now fresh u base).1.invitations ≡ base.invitations)
  unfolding oidc_session
  session_keeps now fresh u base = (ground arith, ground arith)

  provision_changes :
      (orgs : List Organization) (now : ℕ) (fresh : Fresh)
      (user_id email issuer subject unusable : ℕ) (db : AuthDb)
      → HasOneSuperadmin db
      → Change db
          (provision_in crypto settings orgs now fresh user_id email issuer subject unusable db).1
  unfolding provision_in provision
  provision_changes [] now fresh user_id email issuer subject unusable db h = same refl refl
  provision_changes (o ∷ p ∷ orgs) now fresh user_id email issuer subject unusable db h =
      same refl refl
  provision_changes (o ∷ []) now fresh user_id email issuer subject unusable db h =
      let u = provisioned crypto settings user_id o.id email issuer subject unusable in
      elim (Bool-cases (is_taken u db)) [
        | inl taken ↦ same (ground arith) (ground arith)
        | inr free ↦
            let base : AuthDb =
              add_audit
                (audit_event (some u.org_id) (some u.id) "user.oidc_provisioned"
                  (AuditTarget.row u.id))
                (insert_user u db) in
            let (users, invitations) = session_keeps now fresh u base in
            added u free (inl (unfold provisioned is_superadmin in refl))
              (rw free (users ∙ unfold add_audit insert_user in refl))
              (rw (free, invitations) (unfold add_audit insert_user in h.invited))
      ]

  accept_changes :
      (now user_id raw password : ℕ) (db : AuthDb)
      → HasOneSuperadmin db
      → Change db (accept_invitation crypto now user_id raw password db).1
  accept_changes now user_id raw password db h =
      elim (Option-cases (find (has_invitation_hash (crypto.hash raw)) db.invitations)) [
        | inl e ↦
            same (unfold accept_invitation in ground arith)
              (unfold accept_invitation in ground arith)
        | inr (i, e) ↦
            let u = new_user user_id i.org_id i.email (crypto.hash_password password) i.role in
            let below : is_superadmin i.role ≡ false =
              find-All (λ j. is_superadmin j.role ≡ false) _ db.invitations e h.invited in
            elim (Bool-cases
              (not (is_none i.accepted_at) || ltb i.expires_at now || is_taken u db)) [
                | inl refused ↦
                    same (unfold accept_invitation in ground arith)
                      (unfold accept_invitation in ground arith)
                | inr allowed ↦
                    let invitations : (accept_invitation crypto now user_id raw password
                          db).1.invitations
                        ≡ update_where (λ j. j.id == i.id) (mark_accepted now) db.invitations =
                      unfold accept_invitation in ground arith in
                    added u (ground arith) (inl (unfold new_user in below))
                      (unfold accept_invitation in ground arith)
                      (rw invitations (marked_below now i db.invitations h.invited))
              ]
      ]

  enter_changes :
      (now : ℕ) (fresh : Fresh) (user_id email issuer subject unusable : ℕ) (db : AuthDb)
      → HasOneSuperadmin db
      → Change db
          (login_oidc crypto settings domain now fresh user_id email issuer subject unusable db).1
  enter_changes now fresh user_id email issuer subject unusable db h =
      elim (Option-cases (find (is_bound issuer subject) db.users)) [
        | inr (u, e) ↦
            let result =
              login_oidc_found crypto settings domain now fresh user_id email issuer subject
                unusable u db e in
            let (users, invitations) = session_keeps now fresh u db in
            rw result (same users invitations)
        | inl e ↦ elim (Option-cases (find (has_email email) db.users)) [
          | inr (v, f) ↦
              same (unfold login_oidc in ground arith) (unfold login_oidc in ground arith)
          | inl f ↦
              rw
                (login_oidc_new crypto settings domain now fresh user_id email issuer subject
                  unusable db e f)
                (provision_changes _ now fresh user_id email issuer subject unusable db h)
        ]
      ]

  serve-Change :
      (r : Request) (db : AuthDb) → IsOffered r → HasOneSuperadmin db → Change db (serve r db)
  unfolding serve
  serve-Change (register org_id user_id email password) db ok h =
      register_changes org_id user_id email password db h
  serve-Change (invite ctx now ttl_hours fresh email role org_id) db ok h =
      invite_changes ctx now ttl_hours fresh email role org_id db
  serve-Change (accept now user_id raw password) db ok h =
      accept_changes now user_id raw password db h
  serve-Change (activate ctx k active) db ok h = activate_changes ctx k active db
  serve-Change (change_role ctx k role) db ok h = role_changes ctx k role db ok h.keyed
  serve-Change (enter now fresh user_id email issuer subject unusable) db ok h =
      enter_changes now fresh user_id email issuer subject unusable db h

  -- One after the other.
  serve_all_keeps :
      (rs : List Request) (db : AuthDb)
      → All IsOffered rs
      → HasOneSuperadmin db
      → HasOneSuperadmin (serve_all rs db)
        × ((k : ℕ) → IsSuperadmin k db.users → IsSuperadmin k (serve_all rs db).users)
  unfolding serve_all
  serve_all_keeps [] db offered h = (h, λ k top. top)
  serve_all_keeps (r ∷ rs) db offered h =
      let change = serve-Change r db offered.0 h in
      let rest =
        serve_all_keeps rs (serve r db) offered.1
          (Change-HasOneSuperadmin db (serve r db) change h) in
      (rest.0, λ k top. rest.1 k (Change-IsSuperadmin k db (serve r db) change top))

  -- Where the accounts have unique ids, at most one of them is a superadmin and no invitation is for
  -- one: whatever requests come, if those that change a role offer the other roles only, this stays
  -- so, and each account that is a superadmin stays one.
  pub serve_all-HasOneSuperadmin :
      (rs : List Request) (db : AuthDb)
      → All IsOffered rs
      → HasOneSuperadmin db
      → HasOneSuperadmin (serve_all rs db)
        × All
            (λ u. IsSuperadmin u.id (serve_all rs db).users)
            (select_where (λ u. is_superadmin u.role) db.users)
  serve_all-HasOneSuperadmin rs db offered h =
      let kept = serve_all_keeps rs db offered h in
      (
        kept.0,
        All-selected (λ u. find (has_user_id u.id) db.users ≡ some u)
            (λ u. IsSuperadmin u.id (serve_all rs db).users) (λ u. is_superadmin u.role) db.users
            (λ u top found. kept.1 u.id (u, found, top)) h.keyed,
      )
