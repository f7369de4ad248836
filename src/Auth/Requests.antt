-- ===== src/Auth/Requests.antt =====
-- Sequences of the requests of modules/auth/service.py that touch refresh tokens.
use ragz.Prelude.{
  ℕ, ◌≡◌, refl, ◌≢◌, ◌&&◌, Option, some, List, [], ◌∷◌, inl, inr, authentication, err, arith,
  Bool-cases, All, find, any, is_none,
}
use ragz.Auth.State.{RefreshToken, AuthDb, Settings, Crypto, Fresh, has_hash}
use ragz.Auth.Refresh.{
  login, rotate_refresh, logout, revoke_session, revoke_other_sessions, is_session_of,
  is_other_session,
}
use ragz.Auth.Passwords.{change_password, reset_password}
use ragz.Auth.TokenChanges.{
  Change, same, revoked, Change-IsDead, login_changes, rotate_changes, password_changes,
  reset_changes,
}
use ragz.Auth.Rotation.{IsDead, rotate_refresh-IsDead}

-- A request with the time at which it is served, and what it draws at random.
pub data Request : Type 0 where
  login_request : ℕ → Fresh → (email password : ℕ) → Request
  rotate_request : ℕ → Fresh → (raw : ℕ) → Request
  logout_request : ℕ → (raw : ℕ) → Request
  revoke_session_request : ℕ → (user_id family_id : ℕ) → Request
  revoke_others_request : ℕ → (user_id : ℕ) → (keep : Option ℕ) → Request
  change_password_request : ℕ → (user_id current_password new_password : ℕ) → Request
  reset_password_request : ℕ → (raw new_password : ℕ) → Request

-- A sign-in draws a family that is not `f`.
abbrev pub Avoids : ℕ → Request → Type 0
Avoids f (login_request now fresh email password) = fresh.family_id ≢ f
Avoids f _ = Unit

module _ (crypto : Crypto) (settings : Settings) where
  unfoldable pub serve : Request → AuthDb → AuthDb
  serve (login_request now fresh email password) db =
      (login crypto settings now fresh email password db).1
  serve (rotate_request now fresh raw) db = (rotate_refresh crypto settings now fresh raw db).1
  serve (logout_request now raw) db = logout crypto settings now raw db
  serve (revoke_session_request now user_id family_id) db =
      (revoke_session now user_id family_id db).1
  serve (revoke_others_request now user_id keep) db = (revoke_other_sessions now user_id keep db).1
  serve (change_password_request now user_id current_password new_password) db =
      (change_password crypto now user_id current_password new_password db).1
  serve (reset_password_request now raw new_password) db =
      (reset_password crypto now raw new_password db).1

  unfoldable pub serve_all : List Request → AuthDb → AuthDb
  serve_all [] db = db
  serve_all (r ∷ rs) db = serve_all rs (serve r db)

  serve-Change :
      (f : ℕ) (r : Request) (db : AuthDb)
      → Avoids f r
      → IsDead f db
      → Change f db (serve r db).refresh_tokens
  unfolding serve
  serve-Change f (login_request now fresh email password) db other dead =
      login_changes crypto settings f now fresh email password db other
  serve-Change f (rotate_request now fresh raw) db other dead =
      rotate_changes crypto settings f now fresh raw db dead
  serve-Change f (logout_request now raw) db other dead =
      revoked now (has_hash (crypto.hash raw)) (unfold logout in refl)
  serve-Change f (revoke_session_request now user_id family_id) db other dead =
      elim (Bool-cases (any (is_session_of user_id family_id) db.refresh_tokens)) [
        | inl e ↦
            revoked now (λ t. is_session_of user_id family_id t && is_none t.revoked_at)
              (unfold revoke_session in ground arith)
        | inr e ↦ same (unfold revoke_session in ground arith)
      ]
  serve-Change f (revoke_others_request now user_id keep) db other dead =
      revoked now (is_other_session user_id keep) (unfold revoke_other_sessions in refl)
  serve-Change f (change_password_request now user_id current_password new_password) db other dead =
      password_changes crypto settings f now user_id current_password new_password db
  serve-Change f (reset_password_request now raw new_password) db other dead =
      reset_changes crypto settings f now raw new_password db

  serve_all-IsDead :
      (f : ℕ) (rs : List Request) (db : AuthDb)
      → All (Avoids f) rs
      → IsDead f db
      → IsDead f (serve_all rs db)
  unfolding serve_all
  serve_all-IsDead f [] db avoid dead = dead
  serve_all-IsDead f (r ∷ rs) db avoid dead =
      serve_all-IsDead f rs (serve r db) avoid.1
        (Change-IsDead f db _ (serve-Change f r db avoid.0 dead) dead)

  -- A family in which every token is revoked stays so through any requests, as long as sign-ins draw
  -- other families; and each of its tokens is refused at the end.
  pub revoked_family_stays_revoked :
      (f : ℕ) (rs : List Request) (db : AuthDb) (now : ℕ) (fresh : Fresh) (raw : ℕ)
      (row : RefreshToken)
      → All (Avoids f) rs
      → IsDead f db
      → find (has_hash (crypto.hash raw)) (serve_all rs db).refresh_tokens ≡ some row
      → row.family_id ≡ f
      → IsDead f (serve_all rs db)
        × ((rotate_refresh crypto settings now fresh raw (serve_all rs db)).0 ≡ err authentication)
  revoked_family_stays_revoked f rs db now fresh raw row avoid dead found same_family =
      let still = serve_all-IsDead f rs db avoid dead in
      (
        still,
        rotate_refresh-IsDead crypto settings now fresh raw (serve_all rs db) found
            (rw same_family still),
      )
