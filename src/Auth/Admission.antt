-- ===== src/Auth/Admission.antt =====
-- Who gets in through an identity provider: modules/auth/service.py, `login_oidc`.
use ragz.Prelude.{
  ℕ, ◌≡◌, refl, true, none, some, List, [], ◌∷◌, ◌++◌, ◌⊎◌, inl, inr, ◌∙◌, authentication, ok, err,
  arith, Option-cases, Bool-cases, find, find-append, select_where, id_elem,
}
use ragz.Auth.State.{
  AuditTarget, audit_event, User, Organization, AuthDb, Crypto, Settings, Fresh, TokenPair,
  has_email,
}
use ragz.Auth.Refresh.{add_audit, issue_access_token}
use ragz.Auth.Accounts.{insert_user, is_taken}
use ragz.Auth.Oidc.{login_oidc, oidc_session, provision, provision_in, provisioned, is_bound}

-- How a session through an identity provider starts.
pub record Entered (email issuer subject : ℕ) (db db' : AuthDb) (pair : TokenPair) : Type 0 where
  pub u : User
  pub bound : find (is_bound issuer subject) db'.users ≡ some u
  pub session : pair.access_token.user_id ≡ u.id
  pub is_active : u.active ≡ true
  pub accounts :
      (db'.users ≡ db.users)
      ⊎ (find (has_email email) db.users ≡ none) × (db'.users ≡ db.users ++ (u ∷ []))

module _ (crypto : Crypto) (settings : Settings) (domain : ℕ → ℕ) where
  login_oidc_taken :
      (now : ℕ) (fresh : Fresh) (user_id email issuer subject unusable : ℕ) (owner : User)
      (db : AuthDb)
      → find (is_bound issuer subject) db.users ≡ none
      → find (has_email email) db.users ≡ some owner
      → (login_oidc crypto settings domain now fresh user_id email issuer subject unusable db).0
        ≡ err authentication
  unfolding login_oidc
  login_oidc_taken now fresh user_id email issuer subject unusable owner db unbound taken =
      ground arith

  session_starts :
      (now : ℕ) (fresh : Fresh) (u : User) (base : AuthDb) (pair : TokenPair)
      → (oidc_session crypto settings now fresh u base).0 ≡ ok pair
      → (u.active ≡ true)
        × (pair.access_token.user_id ≡ u.id)
        × ((oidc_session crypto settings now fresh u base).1.users ≡ base.users)
  unfolding oidc_session issue_access_token
  session_starts now fresh u base pair h = elim (Bool-cases u.active) [
    | inr off ↦ absurd (ground arith)
    | inl on ↦ (on, ground arith, ground arith)
  ]

  -- What is known of a session in a fresh account.
  provisioned_session :
      (orgs : List Organization) (now : ℕ) (fresh : Fresh)
      (user_id email issuer subject unusable : ℕ) (pair : TokenPair) (db : AuthDb)
      → (provision_in crypto settings orgs now fresh user_id email issuer subject unusable db).0
        ≡ ok pair
      → (u : User) × (is_bound issuer subject u ≡ true)
        × (u.active ≡ true)
        × (pair.access_token.user_id ≡ u.id)
        × ((provision_in crypto settings orgs now fresh user_id email issuer subject unusable
              db).1.users
            ≡ db.users ++ (u ∷ []))
  unfolding provision_in provision
  provisioned_session [] now fresh user_id email issuer subject unusable pair db h =
      absurd (ground arith)
  provisioned_session (o ∷ p ∷ orgs) now fresh user_id email issuer subject unusable pair db h =
      absurd (ground arith)
  provisioned_session (o ∷ []) now fresh user_id email issuer subject unusable pair db h =
      let u = provisioned crypto settings user_id o.id email issuer subject unusable in
      elim (Bool-cases (is_taken u db)) [
        | inl taken ↦ absurd (ground arith)
        | inr free ↦
            let base : AuthDb =
              add_audit
                (audit_event (some u.org_id) (some u.id) "user.oidc_provisioned"
                  (AuditTarget.row u.id))
                (insert_user u db) in
            let start = session_starts now fresh u base pair (rw free at h) in
            (
              u,
              unfold provisioned is_bound in ground arith,
              start.0,
              start.1,
              rw free (start.2 ∙ unfold insert_user add_audit in refl),
            )
      ]

  pub login_oidc_found :
      (now : ℕ) (fresh : Fresh) (user_id email issuer subject unusable : ℕ) (u : User) (db : AuthDb)
      → find (is_bound issuer subject) db.users ≡ some u
      → login_oidc crypto settings domain now fresh user_id email issuer subject unusable db
        ≡ oidc_session crypto settings now fresh u db
  unfolding login_oidc
  login_oidc_found now fresh user_id email issuer subject unusable u db e = ground arith

  pub login_oidc_new :
      (now : ℕ) (fresh : Fresh) (user_id email issuer subject unusable : ℕ) (db : AuthDb)
      → find (is_bound issuer subject) db.users ≡ none
      → find (has_email email) db.users ≡ none
      → login_oidc crypto settings domain now fresh user_id email issuer subject unusable db
        ≡ provision_in crypto settings
            (select_where (λ o. id_elem (domain email) o.sso_domains) db.organizations)
            now
            fresh
            user_id
            email
            issuer
            subject
            unusable
            db
  unfolding login_oidc
  login_oidc_new now fresh user_id email issuer subject unusable db e f = ground arith

  -- A sign-in through an identity provider that succeeds is into the active account that is bound to
  -- the identity, and changes no account: it was bound before, or it is new and nobody had its email.
  pub login_oidc_enters :
      (now : ℕ) (fresh : Fresh) (user_id email issuer subject unusable : ℕ) (pair : TokenPair)
      (db : AuthDb)
      → (login_oidc crypto settings domain now fresh user_id email issuer subject unusable db).0
        ≡ ok pair
      → Entered email issuer subject db
          (login_oidc crypto settings domain now fresh user_id email issuer subject unusable db).1
          pair
  login_oidc_enters now fresh user_id email issuer subject unusable pair db h =
      elim (Option-cases (find (is_bound issuer subject) db.users)) [
        | inr (u, e) ↦
            let result = login_oidc_found now fresh user_id email issuer subject unusable u db e in
            let start = session_starts now fresh u db pair (rw result at h) in
            rw result (record {
              u = u;
              bound = rw start.2 e;
              session = start.1;
              is_active = start.0;
              accounts = inl start.2;
            })
        | inl e ↦ elim (Option-cases (find (has_email email) db.users)) [
          | inr (v, f) ↦
              let refused =
                login_oidc_taken now fresh user_id email issuer subject unusable v db e f in
              absurd (ground (arith, refused))
          | inl f ↦
              let result = login_oidc_new now fresh user_id email issuer subject unusable db e f in
              let (u, mine, on, session, users) =
                provisioned_session
                  (select_where (λ o. id_elem (domain email) o.sso_domains) db.organizations) now
                  fresh user_id email issuer subject unusable pair db (rw result at h) in
              rw result (record {
                u = u;
                bound = rw users (
                    find-append (is_bound issuer subject) db.users (u ∷ []) e
                    ∙ unfold find in rw mine refl);
                session = session;
                is_active = on;
                accounts = inr (f, users);
              })
        ]
      ]
