-- ===== src/Auth/Refresh.antt =====
-- modules/auth/service.py: issuing a token pair, rotating a refresh token, and every operation that
-- revokes one.
use ragz.Prelude.{
  ℕ, ◌+◌, Bool, true, false, not, ◌&&◌, Option, none, some, [], ◌∷◌, ◌++◌, authentication,
  not_found, no_result_found, Result, ok, err, ltb, leb, ◌==◌, is_none, is_id, if◌then◌else◌, find,
  any, update_where, count_where,
}
use ragz.Auth.State.{
  User, RefreshToken, AuthDb, AuditEvent, AuditTarget, audit_event, Settings, Crypto, Fresh, Claims,
  TokenPair, has_hash, is_in_family, is_live, has_user_id, has_email, set_revoked,
}

-- `issue_access_token`: the claims carry the user's current security version.
unfoldable pub issue_access_token : Settings → ℕ → User → Claims
issue_access_token settings now u = record {
  user_id = u.id;
  org_id = u.org_id;
  role = u.role;
  sv = u.security_version;
  exp = now + settings.access_token_ttl_seconds;
}

unfoldable pub add_audit : AuditEvent → AuthDb → AuthDb
add_audit e db = record db { audit = db.audit ++ (e ∷ []) }

-- The family of a replayed token has another token that still works.
unfoldable pub has_live_successor : ℕ → RefreshToken → AuthDb → Bool
has_live_successor now row db =
    any (λ t. is_in_family row.family_id t && (not (t.id == row.id) && is_live now t))
      db.refresh_tokens

unfoldable pub revoke_family : ℕ → ℕ → AuthDb → AuthDb
revoke_family now family db = record db {
  refresh_tokens = update_where (is_in_family family) (set_revoked now) db.refresh_tokens;
}

unfoldable pub revoke_row : ℕ → RefreshToken → AuthDb → AuthDb
revoke_row now row db = record db {
  refresh_tokens = update_where (λ t. t.id == row.id) (set_revoked now) db.refresh_tokens;
}

-- `now - row.revoked_at <= timedelta(seconds=settings.refresh_reuse_grace_seconds)`
unfoldable pub is_within_grace : Settings → ℕ → ℕ → Bool
is_within_grace settings now revoked_at =
    leb now (revoked_at + settings.refresh_reuse_grace_seconds)

module _ (crypto : Crypto) (settings : Settings) where
  unfoldable pub new_token : ℕ → Fresh → User → ℕ → RefreshToken
  new_token now fresh u family = record {
    id = fresh.id;
    user_id = u.id;
    family_id = family;
    token_hash = crypto.hash fresh.raw;
    expires_at = now + settings.refresh_token_ttl_seconds;
    revoked_at = none;
    created_at = now;
  }

  unfoldable pub issue_pair : ℕ → Fresh → User → ℕ → AuthDb → Result TokenPair × AuthDb
  unfolding new_token
  issue_pair now fresh u family db = (
    ok (record { access_token = issue_access_token settings now u; refresh_token = fresh.raw }),
    record db { refresh_tokens = db.refresh_tokens ++ (new_token now fresh u family ∷ []) },
  )

  login_as : ℕ → Fresh → User → AuthDb → Result TokenPair × AuthDb
  unfolding issue_pair add_audit
  login_as now fresh u db = issue_pair now fresh u fresh.family_id (
      add_audit (audit_event (some u.org_id) (some u.id) "login.success" (AuditTarget.row u.id)) db)

  deny_login : ℕ → AuthDb → Result TokenPair × AuthDb
  unfolding add_audit
  deny_login email db = (
    err authentication,
    add_audit (audit_event none none "login.failure" (AuditTarget.row email)) db,
  )

  unfoldable pub login : ℕ → Fresh → ℕ → ℕ → AuthDb → Result TokenPair × AuthDb
  unfolding login_as deny_login
  login now fresh email password db = elim (find (has_email email) db.users) [
    | none ↦ deny_login email db
    | some u ↦
        if not u.active
        then deny_login email db
        else if not (crypto.verify_password u.password_hash password)
        then deny_login email db
        else login_as now fresh u db
  ]

  -- From the expiry test to the end; `scalar_one` raises on a user that is not there.
  unfoldable pub finish_rotation :
      ℕ → Fresh → RefreshToken → Bool → AuthDb → Result TokenPair × AuthDb
  unfolding issue_pair revoke_row
  finish_rotation now fresh row grace_reissue db =
      if ltb row.expires_at now
      then (err authentication, db)
      else elim (find (has_user_id row.user_id) db.users) [
        | none ↦ (err no_result_found, db)
        | some u ↦
            if not u.active
            then (err authentication, db)
            else issue_pair now fresh u row.family_id
                (if grace_reissue then db else revoke_row now row db)
      ]

  unfoldable pub rotate_row : ℕ → Fresh → RefreshToken → AuthDb → Result TokenPair × AuthDb
  unfolding finish_rotation has_live_successor is_within_grace revoke_family
  rotate_row now fresh row db = elim row.revoked_at [
    | none ↦ finish_rotation now fresh row false db
    | some revoked_at ↦
        if is_within_grace settings now revoked_at && has_live_successor now row db
        then finish_rotation now fresh row true db
        else (err authentication, revoke_family now row.family_id db)
  ]

  unfoldable pub rotate_refresh : ℕ → Fresh → ℕ → AuthDb → Result TokenPair × AuthDb
  unfolding rotate_row
  rotate_refresh now fresh raw db = elim (find (has_hash (crypto.hash raw)) db.refresh_tokens) [
    | none ↦ (err authentication, db)
    | some row ↦ rotate_row now fresh row db
  ]

  unfoldable pub logout : ℕ → ℕ → AuthDb → AuthDb
  logout now raw db = record db {
    refresh_tokens = update_where (has_hash (crypto.hash raw)) (set_revoked now) db.refresh_tokens;
  }

-- `_revoke_all_refresh_tokens`
unfoldable pub revoke_all_refresh_tokens : ℕ → ℕ → AuthDb → AuthDb
revoke_all_refresh_tokens now user_id db = record db {
  refresh_tokens =
      update_where (λ t. t.user_id == user_id && is_none t.revoked_at) (set_revoked now)
        db.refresh_tokens;
}

unfoldable pub is_session_of : ℕ → ℕ → RefreshToken → Bool
is_session_of user_id family_id t = t.family_id == family_id && t.user_id == user_id

unfoldable pub revoke_session : ℕ → ℕ → ℕ → AuthDb → Result (Unit {0}) × AuthDb
unfolding is_session_of
revoke_session now user_id family_id db =
    if any (is_session_of user_id family_id) db.refresh_tokens
    then (
      ok tt,
      record db {
        refresh_tokens =
            update_where (λ t. is_session_of user_id family_id t && is_none t.revoked_at)
              (set_revoked now) db.refresh_tokens;
      },
    )
    else (err not_found, db)

-- The rows that `revoke_other_sessions` updates; no family is spared where none is given.
unfoldable pub is_other_session : ℕ → Option ℕ → RefreshToken → Bool
is_other_session user_id keep t =
    t.user_id == user_id && (is_none t.revoked_at && not (is_id keep t.family_id))

unfoldable pub revoke_other_sessions : ℕ → ℕ → Option ℕ → AuthDb → ℕ × AuthDb
unfolding is_other_session
revoke_other_sessions now user_id keep db = (
  count_where (is_other_session user_id keep) db.refresh_tokens,
  record db {
    refresh_tokens =
        update_where (is_other_session user_id keep) (set_revoked now) db.refresh_tokens;
  },
)
