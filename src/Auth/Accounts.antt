-- ===== src/Auth/Accounts.antt =====
-- modules/auth/service.py: the first superadmin, invitations and the administration of users.
use ragz.Prelude.{
  str_eq, ℕ, ◌+◌, ◌*◌, Bool, true, not, ◌||◌, Option, none, some, [], ◌∷◌, ◌++◌, authentication,
  authorization, conflict, not_found, Result, ok, err, ltb, ◌==◌, is_none, if◌then◌else◌, find, any,
  update_where,
}
use ragz.Auth.State.{
  User, Role, Invitation, AuthDb, AuditTarget, audit_event, Crypto, Fresh, is_superadmin,
  superadmin, has_user_id, has_email,
}
use ragz.Auth.Refresh.{add_audit}
use ragz.Tenancy.State.{TenantContext, is_user_in}

-- `select(User.id).where(User.role == "superadmin")`
unfoldable pub has_superadmin : AuthDb → Bool
has_superadmin db = any (λ u. is_superadmin u.role) db.users

unfoldable pub needs_bootstrap : AuthDb → Bool
unfolding has_superadmin
needs_bootstrap db = not (has_superadmin db)

-- A row with the defaults of its columns.
unfoldable pub new_user : ℕ → ℕ → ℕ → ℕ → Role → User
new_user k org_id email password_hash role = record {
  id = k;
  org_id = org_id;
  email = email;
  password_hash = password_hash;
  role = role;
  active = true;
  security_version = 0;
  custom_role_id = none;
  oidc_issuer = none;
  oidc_subject = none;
}

-- The primary key and the unique email refuse a row, which is an IntegrityError.
unfoldable pub is_taken : User → AuthDb → Bool
is_taken u db = any (λ v. v.id == u.id || v.email == u.email) db.users

unfoldable pub insert_user : User → AuthDb → AuthDb
insert_user u db = record db { users = db.users ++ (u ∷ []) }

unfoldable pub has_invitation_hash : ℕ → Invitation → Bool
has_invitation_hash h i = i.token_hash == h

-- `_org_user`
unfoldable pub org_user : TenantContext → ℕ → AuthDb → Result User
org_user ctx user_id db = elim (find (is_user_in user_id ctx.org_id) db.users) [
  | none ↦ err not_found
  | some u ↦ if is_superadmin u.role then err not_found else ok u
]

unfoldable pub set_active : Bool → User → User
set_active active u = record u { active = active }

unfoldable pub set_role : Role → User → User
set_role role u = record u { role = role }

unfoldable pub set_user_active : TenantContext → ℕ → Bool → AuthDb → Result User × AuthDb
unfolding org_user set_active add_audit
set_user_active ctx user_id active db = elim (org_user ctx user_id db) [
  | err e ↦ (err e, db)
  | ok u ↦
      let db' = record db {
        users = update_where (has_user_id u.id) (set_active active) db.users;
      } in
      (
        ok (set_active active u),
        if active
            then db'
            else add_audit
                (audit_event (some ctx.org_id) (some ctx.user_id) "user.deactivated"
                  (AuditTarget.row user_id))
                db',
      )
]

unfoldable pub set_user_role : TenantContext → ℕ → Role → AuthDb → Result User × AuthDb
unfolding org_user set_role add_audit
set_user_role ctx user_id role db = elim (org_user ctx user_id db) [
  | err e ↦ (err e, db)
  | ok u ↦ (
    ok (set_role role u),
    add_audit
        (audit_event (some ctx.org_id) (some ctx.user_id) "user.role_changed"
          (AuditTarget.row user_id))
        (record db { users = update_where (has_user_id u.id) (set_role role) db.users }),
  )
]

-- Which organisation an invitation is for.
unfoldable pub target_org : TenantContext → Option ℕ → AuthDb → Result ℕ
target_org ctx none db = ok ctx.org_id
target_org ctx (some k) db =
    if k == ctx.org_id
    then ok ctx.org_id
    else if not (is_superadmin ctx.role)
    then err authorization
    else if any (λ o. o.id == k) db.organizations
    then ok k
    else err not_found

-- `inv.accepted_at = now`
unfoldable pub mark_accepted : ℕ → Invitation → Invitation
mark_accepted now i = record i { accepted_at = some now }

module _ (crypto : Crypto) where
  -- A second superadmin is refused; so is a row that the database refuses, with the same message.
  unfoldable pub register_first_superadmin :
      (org_id user_id email password : ℕ) → AuthDb → Result User × AuthDb
  unfolding has_superadmin new_user is_taken insert_user add_audit
  register_first_superadmin org_id user_id email password db =
      let u = new_user user_id org_id email (crypto.hash_password password) superadmin in
      if has_superadmin db
        || (is_taken u db || any (λ o. str_eq o.name "Platform") db.organizations)
      then (err conflict, db)
      else (
        ok u,
        add_audit
            (audit_event (some org_id) (some user_id) "bootstrap.register"
              (AuditTarget.row user_id))
            (insert_user u (record db {
              organizations =
                  db.organizations
                  ++ (record { id = org_id; name = "Platform"; sso_domains = [] } ∷ []);
            })),
      )

  unfoldable pub invitation_for : ℕ → ℕ → Fresh → ℕ → ℕ → Role → Invitation
  invitation_for now ttl_hours fresh org_id email role = record {
    id = fresh.id;
    org_id = org_id;
    email = email;
    role = role;
    token_hash = crypto.hash fresh.raw;
    expires_at = now + ttl_hours * 3600;
    accepted_at = none;
  }

  -- The table's CHECK constraint refuses a superadmin. Gives the raw token of the link.
  unfoldable pub create_invitation :
      TenantContext → ℕ → ℕ → Fresh → ℕ → Role → Option ℕ → AuthDb → Result ℕ × AuthDb
  unfolding target_org invitation_for add_audit
  create_invitation ctx now ttl_hours fresh email role org_id db = elim (target_org ctx org_id db) [
    | err e ↦ (err e, db)
    | ok target ↦
        if any (has_email email) db.users || is_superadmin role then (err conflict, db) else (
          ok fresh.raw,
          add_audit
              (audit_event (some target) (some ctx.user_id) "invitation.created"
                (AuditTarget.row fresh.id))
              (record db {
                invitations =
                    db.invitations ++ (invitation_for now ttl_hours fresh target email role ∷ []);
              }),
        )
  ]

  accept_as : ℕ → Invitation → User → AuthDb → Result User × AuthDb
  unfolding is_taken insert_user add_audit mark_accepted
  accept_as now i u db = if is_taken u db then (err conflict, db) else (
    ok u,
    add_audit (audit_event (some i.org_id) none "invitation.accepted" (AuditTarget.row u.id)) (
        insert_user u (record db {
          invitations = update_where (λ j. j.id == i.id) (mark_accepted now) db.invitations;
        })),
  )

  unfoldable pub accept_invitation : ℕ → ℕ → ℕ → ℕ → AuthDb → Result User × AuthDb
  unfolding accept_as new_user
  accept_invitation now user_id raw password db =
      elim (find (has_invitation_hash (crypto.hash raw)) db.invitations) [
        | none ↦ (err authentication, db)
        | some i ↦
            if not (is_none i.accepted_at) || ltb i.expires_at now
            then (err authentication, db)
            else accept_as now i
                (new_user user_id i.org_id i.email (crypto.hash_password password) i.role) db
      ]
