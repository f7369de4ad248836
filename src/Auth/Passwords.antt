-- ===== src/Auth/Passwords.antt =====
-- modules/auth/service.py: forgotten passwords, resets and changes of a password. The notice that is
-- mailed after a change is left out: it changes no state, and its failure is caught.
use ragz.Prelude.{
  ℕ, ◌+◌, ◌*◌, Bool, not, ◌&&◌, ◌||◌, Option, none, some, [], ◌∷◌, ◌++◌, authentication,
  no_result_found, Result, ok, err, leb, ◌==◌, is_none, if◌then◌else◌, String, find, update_where,
}
use ragz.Core.Redis.{Redis}
use ragz.Core.RateLimit.{check_rate_limit}
use ragz.Auth.State.{
  User, PasswordResetToken, AuthDb, AuditTarget, audit_event, Crypto, Fresh, has_user_id, has_email,
}
use ragz.Auth.Refresh.{add_audit, revoke_all_refresh_tokens}

-- `_FORGOT_EMAIL_MAX_SENDS`, `_FORGOT_EMAIL_WINDOW_SECONDS`, and the lifetime of a reset link
abbrev pub forgot_email_max_sends : ℕ
forgot_email_max_sends = 5

abbrev pub forgot_email_window_seconds : ℕ
forgot_email_window_seconds = 900

abbrev pub reset_token_ttl_seconds : ℕ
reset_token_ttl_seconds = 45 * 60

unfoldable pub has_reset_hash : ℕ → PasswordResetToken → Bool
has_reset_hash h t = t.token_hash == h

unfoldable pub set_used : ℕ → PasswordResetToken → PasswordResetToken
set_used now t = record t { used_at = some now }

-- `user.password_hash = …; user.security_version += 1`
unfoldable pub set_password : ℕ → User → User
set_password h u = record u { password_hash = h; security_version = u.security_version + 1 }

module _ (crypto : Crypto) where
  -- The newest link is the only one that works: older unused tokens are marked used.
  unfoldable pub issue_reset_token : ℕ → Fresh → User → AuthDb → AuthDb
  unfolding set_used
  issue_reset_token now fresh u db = record db {
    reset_tokens =
        update_where (λ t. t.user_id == u.id && is_none t.used_at) (set_used now) db.reset_tokens
        ++ (record {
          id = fresh.id;
          user_id = u.id;
          token_hash = crypto.hash fresh.raw;
          expires_at = now + reset_token_ttl_seconds;
          used_at = none;
        }
            ∷ []);
  }

  -- Gives the raw token of the link that is mailed, if one is, and the limiter's new state.
  unfoldable pub request_password_reset :
      (redis : Redis)
      → String
      → ℕ
      → Fresh
      → ℕ
      → Option redis.Store
      → AuthDb
      → Option ℕ × Option redis.Store × AuthDb
  unfolding issue_reset_token
  request_password_reset redis email_key now fresh email limiter db =
      elim (find (has_email email) db.users) [
        | none ↦ (none, limiter, db)
        | some u ↦ if not u.active then (none, limiter, db) else elim limiter [
          | none ↦ (some fresh.raw, none, issue_reset_token now fresh u db)
          | some store ↦
              let (r, store') =
                check_rate_limit redis email_key forgot_email_max_sends forgot_email_window_seconds
                  now store in
              elim r [
                | err e ↦ (none, some store', db)
                | ok _ ↦ (some fresh.raw, some store', issue_reset_token now fresh u db)
              ]
        ]
      ]

  unfoldable pub store_password : ℕ → User → ℕ → AuthDb → AuthDb
  unfolding set_password
  store_password now u new_password db = record db {
    users =
        update_where (has_user_id u.id) (set_password (crypto.hash_password new_password)) db.users;
  }

  unfoldable pub spend_token : ℕ → PasswordResetToken → AuthDb → AuthDb
  unfolding set_used
  spend_token now t db = record db {
    reset_tokens = update_where (λ r. r.id == t.id) (set_used now) db.reset_tokens;
  }

  -- What a successful reset leaves.
  unfoldable pub finish_reset : ℕ → ℕ → PasswordResetToken → User → AuthDb → AuthDb
  unfolding store_password spend_token revoke_all_refresh_tokens add_audit
  finish_reset now new_password t u db =
      add_audit (audit_event (some u.org_id) (some u.id) "password.reset" (AuditTarget.row u.id)) (
        revoke_all_refresh_tokens now u.id
          (spend_token now t (store_password now u new_password db)))

  reset_with : ℕ → ℕ → PasswordResetToken → AuthDb → Result (Unit {0}) × AuthDb
  reset_with now new_password t db = elim (find (has_user_id t.user_id) db.users) [
    | none ↦ (err no_result_found, db)
    | some u ↦
        if not u.active
        then (err authentication, db)
        else (ok tt, finish_reset now new_password t u db)
  ]

  unfoldable pub reset_password : ℕ → ℕ → ℕ → AuthDb → Result (Unit {0}) × AuthDb
  unfolding reset_with
  reset_password now raw new_password db =
      elim (find (has_reset_hash (crypto.hash raw)) db.reset_tokens) [
        | none ↦ (err authentication, db)
        | some t ↦
            if not (is_none t.used_at) || leb t.expires_at now
            then (err authentication, db)
            else reset_with now new_password t db
      ]

  -- `ctx_user_id` is the caller of the request.
  unfoldable pub change_password : ℕ → ℕ → ℕ → ℕ → AuthDb → Result (Unit {0}) × AuthDb
  unfolding store_password revoke_all_refresh_tokens add_audit
  change_password now ctx_user_id current_password new_password db =
      elim (find (has_user_id ctx_user_id) db.users) [
        | none ↦ (err no_result_found, db)
        | some u ↦
            if not (crypto.verify_password u.password_hash current_password)
            then (err authentication, db)
            else (
              ok tt,
              add_audit
                  (audit_event (some u.org_id) (some u.id) "password.changed"
                    (AuditTarget.row u.id))
                  (revoke_all_refresh_tokens now u.id (store_password now u new_password db)),
            )
      ]
