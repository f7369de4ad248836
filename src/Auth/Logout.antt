-- ===== src/Auth/Logout.antt =====
-- What a logout leaves possible: modules/auth/service.py, `logout` and `rotate_refresh`.
use ragz.Prelude.{
  ℕ, ◌+◌, ◌≤◌, ◌≡◌, refl, true, not, ◌&&◌, some, List, [], ◌∷◌, is_ok, arith, ==_iff, ◌==◌, leb,
  find, any, update_where, find_holds, find-update_where, ◌∙◌, All,
}
use ragz.Auth.State.{
  User, RefreshToken, AuthDb, Settings, Crypto, Fresh, has_hash, is_in_family, is_live, has_user_id,
  set_revoked,
}
use ragz.Auth.Refresh.{rotate_refresh, logout, has_live_successor, is_within_grace, issue_pair}

-- The rows of one hash are one, as the table's unique index has it.
abbrev pub HashIsKey : RefreshToken → AuthDb → Type 0
HashIsKey row db =
    All (λ t. (t.token_hash == row.token_hash) ≡ true → (t.id == row.id) ≡ true) db.refresh_tokens

-- A logout has no part in whether another token of the family is live.
other_live_after :
    (now later h : ℕ) (row : RefreshToken) (ts : List RefreshToken)
    → All (λ t. (t.token_hash == h) ≡ true → (t.id == row.id) ≡ true) ts
    → any
        (λ t. is_in_family row.family_id t && (not (t.id == row.id) && is_live later t))
        (update_where (has_hash h) (set_revoked now) ts)
      ≡ any (λ t. is_in_family row.family_id t && (not (t.id == row.id) && is_live later t)) ts
unfolding any update_where has_hash set_revoked is_in_family is_live
other_live_after now later h row [] key = refl
other_live_after now later h row (t ∷ ts) key =
    ground (arith, key.0, other_live_after now later h row ts key.1)

module _ (crypto : Crypto) (settings : Settings) where
  find-logout :
      (now raw : ℕ) (db : AuthDb) (row : RefreshToken)
      → find (has_hash (crypto.hash raw)) db.refresh_tokens ≡ some row
      → find (has_hash (crypto.hash raw)) (logout crypto settings now raw db).refresh_tokens
        ≡ some (set_revoked now row)
  unfolding logout
  find-logout now raw db row found =
      find-update_where (has_hash (crypto.hash raw)) (has_hash (crypto.hash raw)) (set_revoked now)
        db.refresh_tokens (λ t. unfold has_hash set_revoked in refl)
      ∙ rw (found, find_holds (has_hash (crypto.hash raw)) db.refresh_tokens found)

  -- A revoked token of an active user that has not expired is accepted exactly within the grace
  -- window and beside another live token of its family.
  rotate_revoked_ok :
      (now at raw : ℕ) (fresh : Fresh) (row : RefreshToken) (u : User) (db : AuthDb)
      → find (has_hash (crypto.hash raw)) db.refresh_tokens ≡ some row
      → row.revoked_at ≡ some at
      → find (has_user_id row.user_id) db.users ≡ some u
      → u.active ≡ true
      → now ≤ row.expires_at
      → is_ok (rotate_refresh crypto settings now fresh raw db).0
        ≡ (is_within_grace settings now at && has_live_successor now row db)
  unfolding rotate_refresh issue_pair
  rotate_revoked_ok now at raw fresh row u db found gone owner on fits = ground arith

  live_after_logout :
      (now later raw : ℕ) (row : RefreshToken) (db : AuthDb)
      → find (has_hash (crypto.hash raw)) db.refresh_tokens ≡ some row
      → HashIsKey row db
      → has_live_successor later (set_revoked now row) (logout crypto settings now raw db)
        ≡ has_live_successor later row db
  unfolding has_live_successor logout set_revoked
  live_after_logout now later raw row db found key =
      let same : row.token_hash ≡ crypto.hash raw =
        unfold has_hash in
        (==_iff row.token_hash (crypto.hash raw)).0
          (find_holds (λ t. t.token_hash == crypto.hash raw) db.refresh_tokens found) in
      other_live_after now later (crypto.hash raw) row db.refresh_tokens (rw same at key)

  -- A token of an active user that was logged out, and has not expired, is accepted afterwards exactly
  -- when another token of its family is live and the grace window, counted from the logout, has not
  -- passed.
  pub logout_then_rotate :
      (now later raw : ℕ) (fresh : Fresh) (row : RefreshToken) (u : User) (db : AuthDb)
      → find (has_hash (crypto.hash raw)) db.refresh_tokens ≡ some row
      → HashIsKey row db
      → find (has_user_id row.user_id) db.users ≡ some u
      → u.active ≡ true
      → later ≤ row.expires_at
      → is_ok (rotate_refresh crypto settings later fresh raw (logout crypto settings now raw db)).0
        ≡ (leb later (now + settings.refresh_reuse_grace_seconds)
            && has_live_successor later row db)
  unfolding is_within_grace
  logout_then_rotate now later raw fresh row u db found key owner on fits =
      rotate_revoked_ok later now raw fresh (set_revoked now row) u
        (logout crypto settings now raw db) (find-logout now raw db row found)
        (unfold set_revoked in refl) (unfold set_revoked logout in owner) on
        (unfold set_revoked in fits)
      ∙ rw (live_after_logout now later raw row db found key)
