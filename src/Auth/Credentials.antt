-- ===== src/Auth/Credentials.antt =====
-- What a change or a reset of a password ends: modules/auth/service.py, `change_password` and
-- `reset_password`.
use ragz.Prelude.{
  ℕ, ◌≡◌, refl, true, false, ◌&&◌, some, ◌∙◌, authentication, ok, err, is_ok, arith, All, find,
  find_holds, find-update_where, update_where-All, is_none, ◌==◌, ltb,
}
use ragz.Auth.State.{User, PasswordResetToken, AuthDb, Crypto, has_user_id, set_revoked}
use ragz.Auth.Refresh.{revoke_all_refresh_tokens}
use ragz.Auth.Passwords.{
  has_reset_hash, set_used, set_password, store_password, reset_password, change_password,
  finish_reset, spend_token,
}

-- No refresh token of the user is unrevoked.
abbrev pub IsSignedOut : ℕ → AuthDb → Type 0
IsSignedOut k db = All (λ t. (t.user_id == k && is_none t.revoked_at) ≡ false) db.refresh_tokens

pub revoke_all_refresh_tokens-IsSignedOut :
    (now k : ℕ) (db : AuthDb) → IsSignedOut k (revoke_all_refresh_tokens now k db)
unfolding revoke_all_refresh_tokens
revoke_all_refresh_tokens-IsSignedOut now k db =
    update_where-All (λ t. (t.user_id == k && is_none t.revoked_at) ≡ false)
      (λ t. t.user_id == k && is_none t.revoked_at) (set_revoked now) db.refresh_tokens
      (λ t e. unfold set_revoked in ground arith) (λ t e. e)

module _ (crypto : Crypto) where
  find-store_password :
      (now new_password : ℕ) (u : User) (db : AuthDb)
      → find (has_user_id u.id) db.users ≡ some u
      → find (has_user_id u.id) (store_password crypto now u new_password db).users
        ≡ some (set_password (crypto.hash_password new_password) u)
  unfolding store_password
  find-store_password now new_password u db h =
      find-update_where (has_user_id u.id) (has_user_id u.id)
        (set_password (crypto.hash_password new_password)) db.users
        (λ v. unfold has_user_id set_password in refl)
      ∙ rw (h, find_holds (has_user_id u.id) db.users h)

  -- Given the current password, a change of password succeeds, and then the user has the new password
  -- and the next security version, and no refresh token that is unrevoked.
  pub change_password_signs_out :
      (now current_password new_password : ℕ) (u : User) (db : AuthDb)
      → find (has_user_id u.id) db.users ≡ some u
      → crypto.verify_password u.password_hash current_password ≡ true
      → let (result, db') = change_password crypto now u.id current_password new_password db in
        (result ≡ ok tt)
        × (find (has_user_id u.id) db'.users
            ≡ some (set_password (crypto.hash_password new_password) u))
        × IsSignedOut u.id db'
  unfolding change_password
  change_password_signs_out now current_password new_password u db found right =
      rw (found, right, change_password)
        (
          refl,
          find-store_password now new_password u db found,
          revoke_all_refresh_tokens-IsSignedOut now u.id
              (store_password crypto now u new_password db),
        )

  -- With a token that is stored and whose user exists, a reset succeeds exactly if the token is
  -- unused and has not expired and the user is active.
  pub reset_password_ok :
      (now raw new_password : ℕ) (t : PasswordResetToken) (u : User) (db : AuthDb)
      → find (has_reset_hash (crypto.hash raw)) db.reset_tokens ≡ some t
      → find (has_user_id t.user_id) db.users ≡ some u
      → is_ok (reset_password crypto now raw new_password db).0
        ≡ (is_none t.used_at && (ltb now t.expires_at && u.active))
  unfolding reset_password
  reset_password_ok now raw new_password t u db found owner = ground arith

  reset_password_done :
      (now raw new_password : ℕ) (t : PasswordResetToken) (u : User) (db : AuthDb)
      → find (has_reset_hash (crypto.hash raw)) db.reset_tokens ≡ some t
      → find (has_user_id t.user_id) db.users ≡ some u
      → is_ok (reset_password crypto now raw new_password db).0 ≡ true
      → reset_password crypto now raw new_password db
        ≡ (ok tt, finish_reset crypto now new_password t u db)
  unfolding reset_password
  reset_password_done now raw new_password t u db found owner done = ground arith

  reset_password_used :
      (now raw new_password used : ℕ) (t : PasswordResetToken) (db : AuthDb)
      → find (has_reset_hash (crypto.hash raw)) db.reset_tokens ≡ some (set_used used t)
      → reset_password crypto now raw new_password db ≡ (err authentication, db)
  unfolding reset_password set_used
  reset_password_used now raw new_password used t db found = ground arith

  find-finish_reset :
      (now raw new_password : ℕ) (t : PasswordResetToken) (u : User) (db : AuthDb)
      → find (has_reset_hash (crypto.hash raw)) db.reset_tokens ≡ some t
      → find
          (has_reset_hash (crypto.hash raw))
          (finish_reset crypto now new_password t u db).reset_tokens
        ≡ some (set_used now t)
  unfolding finish_reset
  find-finish_reset now raw new_password t u db found =
      find-update_where (has_reset_hash (crypto.hash raw)) (λ r. r.id == t.id) (set_used now)
        db.reset_tokens (λ r. unfold has_reset_hash set_used in refl)
      ∙ rw found (ground arith)

  -- A reset link works once: after a successful reset every later use of it is refused and changes
  -- nothing, and right after the reset no refresh token of the user is unrevoked.
  pub reset_password_once :
      (now later raw new_password again : ℕ) (t : PasswordResetToken) (u : User) (db : AuthDb)
      → find (has_reset_hash (crypto.hash raw)) db.reset_tokens ≡ some t
      → find (has_user_id t.user_id) db.users ≡ some u
      → is_ok (reset_password crypto now raw new_password db).0 ≡ true
      → let db' = (reset_password crypto now raw new_password db).1 in
        (reset_password crypto later raw again db' ≡ (err authentication, db'))
        × IsSignedOut u.id db'
  reset_password_once now later raw new_password again t u db found owner done =
      rw (reset_password_done now raw new_password t u db found owner done) (
        reset_password_used later raw again now t _
            (find-finish_reset now raw new_password t u db found),
        unfold finish_reset in
            revoke_all_refresh_tokens-IsSignedOut now u.id
              (spend_token crypto now t (store_password crypto now u new_password db)),
      )
