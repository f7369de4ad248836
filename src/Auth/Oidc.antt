-- ===== src/Auth/Oidc.antt =====
-- modules/auth/service.py: `login_oidc`, the sign-in through an identity provider.
use ragz.Prelude.{
  ℕ, Bool, not, ◌&&◌, Option, none, some, List, [], ◌∷◌, authentication, conflict, Result, err,
  is_id, id_elem, if◌then◌else◌, find, select_where,
}
use ragz.Auth.State.{
  User, Role, Organization, AuthDb, AuditTarget, audit_event, Settings, Crypto, Fresh, TokenPair,
  has_email,
}
use ragz.Auth.Refresh.{add_audit, issue_pair}
use ragz.Auth.Accounts.{new_user, is_taken, insert_user}

unfoldable pub is_bound : ℕ → ℕ → User → Bool
is_bound issuer subject u = is_id u.oidc_issuer issuer && is_id u.oidc_subject subject

module _ (crypto : Crypto) (settings : Settings) where
  deny_oidc : Option ℕ → ℕ → AuthDb → Result TokenPair × AuthDb
  unfolding add_audit
  deny_oidc org_id email db = (
    err authentication,
    add_audit (audit_event org_id none "login.oidc_denied" (AuditTarget.row email)) db,
  )

  unfoldable pub oidc_session : ℕ → Fresh → User → AuthDb → Result TokenPair × AuthDb
  unfolding issue_pair add_audit
  oidc_session now fresh u db =
      if not u.active
      then (err authentication, db)
      else issue_pair crypto settings now fresh u fresh.family_id (
          add_audit (audit_event (some u.org_id) (some u.id) "login.oidc" (AuditTarget.row u.id))
            db)

  -- The account of a first sign-in, bound to its identity; nobody knows its password.
  unfoldable pub provisioned : ℕ → ℕ → ℕ → ℕ → ℕ → ℕ → User
  unfolding new_user
  provisioned user_id org_id email issuer subject unusable =
      record (new_user user_id org_id email (crypto.hash_password unusable) Role.user) {
        oidc_issuer = some issuer;
        oidc_subject = some subject;
      }

  unfoldable pub provision : ℕ → Fresh → User → AuthDb → Result TokenPair × AuthDb
  unfolding is_taken insert_user oidc_session add_audit
  provision now fresh u db =
      if is_taken u db
      then (err conflict, db)
      else oidc_session now fresh u (
          add_audit
            (audit_event (some u.org_id) (some u.id) "user.oidc_provisioned" (AuditTarget.row u.id))
            (insert_user u db))

  -- Exactly one organisation must accept the domain.
  unfoldable pub provision_in :
      List Organization → ℕ → Fresh → ℕ → ℕ → ℕ → ℕ → ℕ → AuthDb → Result TokenPair × AuthDb
  unfolding deny_oidc provision provisioned
  provision_in (org ∷ []) now fresh user_id email issuer subject unusable db =
      provision now fresh (provisioned user_id org.id email issuer subject unusable) db
  provision_in _ now fresh user_id email issuer subject unusable db = deny_oidc none email db

  -- `domain` stands for `email.rsplit("@", 1)[-1]`, `unusable` for the random password.
  unfoldable pub login_oidc :
      (domain : ℕ → ℕ)
      → ℕ
      → Fresh
      → (user_id email issuer subject unusable : ℕ) → AuthDb
      → Result TokenPair × AuthDb
  unfolding provision_in
  login_oidc domain now fresh user_id email issuer subject unusable db =
      elim (find (is_bound issuer subject) db.users) [
        | some u ↦ oidc_session now fresh u db
        | none ↦ elim (find (has_email email) db.users) [
          | some existing ↦ deny_oidc (some existing.org_id) email db
          | none ↦
              provision_in
                (select_where (λ o. id_elem (domain email) o.sso_domains) db.organizations) now
                fresh user_id email issuer subject unusable db
        ]
      ]
