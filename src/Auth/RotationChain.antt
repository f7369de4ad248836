-- ===== src/Auth/RotationChain.antt =====
-- The token that a rotation returns: modules/auth/service.py, `rotate_refresh` and `_issue_pair`.
use ragz.Prelude.{
  ℕ, ◌+◌, ◌≤◌, ◌≡◌, refl, true, none, some, ◌⊎◌, inl, inr, ap, sym, ◌∙◌, Result, is_ok, arith, find,
  find_holds, find-append, find-update_where, ◌==◌, ==_iff,
}
use ragz.Auth.State.{
  User, RefreshToken, AuthDb, Settings, Crypto, Fresh, TokenPair, has_hash, has_user_id,
  set_revoked,
}
use ragz.Auth.Refresh.{issue_pair, new_token, rotate_refresh, revoke_row}
use ragz.Auth.Rotation.{rotate_refresh_ok}

module _ (crypto : Crypto) (settings : Settings) where
  -- What it takes for a rotation to succeed on an unrevoked token.
  pub rotate_unrevoked :
      (now : ℕ) (fresh : Fresh) (raw : ℕ) (db : AuthDb) {row : RefreshToken} {u : User}
      → find (has_hash (crypto.hash raw)) db.refresh_tokens ≡ some row
      → row.revoked_at ≡ none
      → now ≤ row.expires_at
      → find (has_user_id row.user_id) db.users ≡ some u
      → u.active ≡ true
      → rotate_refresh crypto settings now fresh raw db
        ≡ issue_pair crypto settings now fresh u row.family_id (revoke_row now row db)
  unfolding rotate_refresh
  rotate_unrevoked now fresh raw db found live fits owner on = ground arith

  -- No stored token has a hash: revoking a row keeps that.
  unseen_after_revoke :
      (h now : ℕ) (row : RefreshToken) (db base : AuthDb)
      → find (has_hash h) db.refresh_tokens ≡ none
      → (base ≡ db) ⊎ (base ≡ revoke_row now row db)
      → find (has_hash h) base.refresh_tokens ≡ none
  unfolding revoke_row
  unseen_after_revoke h now row db base unseen (inl e) = rw e unseen
  unseen_after_revoke h now row db base unseen (inr e) = rw e (
      find-update_where (has_hash h) (λ t. t.id == row.id) (set_revoked now) db.refresh_tokens
        (λ t. unfold has_hash set_revoked in refl)
      ∙ rw unseen)

  users_after_revoke :
      (now : ℕ) (row : RefreshToken) (db base : AuthDb)
      → (base ≡ db) ⊎ (base ≡ revoke_row now row db)
      → base.users ≡ db.users
  unfolding revoke_row
  users_after_revoke now row db base h = ground arith

  issued_found :
      (now family : ℕ) (fresh : Fresh) (u : User) (base : AuthDb)
      → find (has_hash (crypto.hash fresh.raw)) base.refresh_tokens ≡ none
      → find
          (has_hash (crypto.hash fresh.raw))
          (issue_pair crypto settings now fresh u family base).1.refresh_tokens
        ≡ some (new_token crypto settings now fresh u family)
  unfolding issue_pair
  issued_found now family fresh u base unseen =
      find-append (has_hash (crypto.hash fresh.raw)) base.refresh_tokens _ unseen
      ∙ unfold find has_hash in ground arith

  -- An issued token rotates until it expires, while its user stays active.
  pub issued_rotates :
      (now later family : ℕ) (fresh fresh' : Fresh) (u : User) (base : AuthDb)
      → find (has_hash (crypto.hash fresh.raw)) base.refresh_tokens ≡ none
      → find (has_user_id u.id) base.users ≡ some u
      → u.active ≡ true
      → later ≤ now + settings.refresh_token_ttl_seconds
      → is_ok
          (rotate_refresh crypto settings later fresh' fresh.raw
            (issue_pair crypto settings now fresh u family base).1).0
        ≡ true
  issued_rotates now later family fresh fresh' u base unseen owner on fits =
      let db' = (issue_pair crypto settings now fresh u family base).1 in
      ap (λ r. is_ok r.0)
        (rotate_unrevoked later fresh' fresh.raw db'
          {row = new_token crypto settings now fresh u family} {u = u}
          (issued_found now family fresh u base unseen) (unfold new_token in refl)
          (unfold new_token in fits) (unfold new_token issue_pair in owner) on)
      ∙ unfold issue_pair in refl

  owner_id : (u : User) (k : ℕ) (db : AuthDb) → find (has_user_id k) db.users ≡ some u → u.id ≡ k
  owner_id u k db h =
      (==_iff u.id k).0 (unfold has_user_id in find_holds (λ v. v.id == k) db.users h)

  -- The refresh token that a rotation returns can be rotated in turn until it expires, if the raw
  -- token drawn for it was not in use.
  pub rotate_refresh_chain :
      (now later : ℕ) (fresh fresh' : Fresh) (raw : ℕ) (pair : TokenPair) (db : AuthDb)
      → find (has_hash (crypto.hash fresh.raw)) db.refresh_tokens ≡ none
      → (rotate_refresh crypto settings now fresh raw db).0 ≡ Result.ok pair
      → later ≤ now + settings.refresh_token_ttl_seconds
      → is_ok
          (rotate_refresh crypto settings later fresh' pair.refresh_token
            (rotate_refresh crypto settings now fresh raw db).1).0
        ≡ true
  rotate_refresh_chain now later fresh fresh' raw pair db unseen h fits =
      let r = rotate_refresh_ok crypto settings now fresh raw db (rw h) in
      let same : pair.refresh_token ≡ fresh.raw =
        ret r.row.family_id r.u r.base (sym (ap (λ x. x.0) r.result) ∙ h) in
      rw (same, r.result)
        (issued_rotates now later r.row.family_id fresh fresh' r.u r.base
          (unseen_after_revoke (crypto.hash fresh.raw) now r.row db r.base unseen r.based)
          (rw
            (users_after_revoke now r.row db r.base r.based, owner_id r.u r.row.user_id db r.owner)
            r.owner)
          r.is_active fits)
    where
      ret :
          (family : ℕ) (u : User) (base : AuthDb)
          → (issue_pair crypto settings now fresh u family base).0 ≡ Result.ok pair
          → pair.refresh_token ≡ fresh.raw
      ret family u base e = unfold issue_pair in ground arith
