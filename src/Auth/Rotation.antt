-- ===== src/Auth/Rotation.antt =====
-- What a rotation of a refresh token gives: modules/auth/service.py, `rotate_refresh`.
use ragz.Prelude.{
  ℕ, ◌+◌, ◌<◌, ◌≡◌, refl, ◌≢◌, true, false, ◌&&◌, some, inl, inr, ◌∙◌, authentication, err, is_ok,
  arith, Option-cases, if◌then◌else◌, All, find, All-map, any-false, find-update_where, is_none,
  update_where-All, ◌⊎◌, find-All,
}
use ragz.Auth.State.{
  User, RefreshToken, AuthDb, Settings, Crypto, Fresh, has_hash, is_in_family, is_live, has_user_id,
  set_revoked,
}
use ragz.Auth.Refresh.{
  issue_pair, rotate_refresh, has_live_successor, revoke_family, revoke_row, is_within_grace,
}

-- No token of the family is unrevoked.
abbrev pub IsDead : ℕ → AuthDb → Type 0
IsDead f db = All (λ t. (is_in_family f t && is_none t.revoked_at) ≡ false) db.refresh_tokens

pub revoke_family-IsDead : (now f : ℕ) (db : AuthDb) → IsDead f (revoke_family now f db)
unfolding revoke_family set_revoked is_in_family
revoke_family-IsDead now f db =
    update_where-All (λ t. (is_in_family f t && is_none t.revoked_at) ≡ false) (is_in_family f)
      (set_revoked now) db.refresh_tokens (λ t e. ground arith) (λ t e. ground arith)

-- A dead family has no live successor for any of its tokens.
pub no_live_successor :
    (now : ℕ) (row : RefreshToken) (db : AuthDb)
    → IsDead row.family_id db
    → has_live_successor now row db ≡ false
unfolding has_live_successor is_live
no_live_successor now row db dead =
    any-false _ db.refresh_tokens (All-map _ _ db.refresh_tokens (λ t h. ground arith) dead)

module _ (crypto : Crypto) (settings : Settings) where
  -- A token of a family in which every token is revoked never rotates.
  pub rotate_refresh-IsDead :
      (now : ℕ) (fresh : Fresh) (raw : ℕ) (db : AuthDb) {row : RefreshToken}
      → find (has_hash (crypto.hash raw)) db.refresh_tokens ≡ some row
      → IsDead row.family_id db
      → (rotate_refresh crypto settings now fresh raw db).0 ≡ err authentication
  unfolding rotate_refresh
  rotate_refresh-IsDead now fresh raw db {row} found dead =
      let revoked : (is_in_family row.family_id row && is_none row.revoked_at) ≡ false =
        find-All (λ t. (is_in_family row.family_id t && is_none t.revoked_at) ≡ false)
          (has_hash (crypto.hash raw)) db.refresh_tokens found dead in
      unfold is_in_family has_live_successor in ground (arith, no_live_successor now row db dead)

  rotate_refresh_theft :
      (now : ℕ) (fresh : Fresh) (raw revoked_at : ℕ) (db : AuthDb) {row : RefreshToken}
      → find (has_hash (crypto.hash raw)) db.refresh_tokens ≡ some row
      → row.revoked_at ≡ some revoked_at
      → (is_within_grace settings now revoked_at && has_live_successor now row db) ≡ false
      → rotate_refresh crypto settings now fresh raw db
        ≡ (err authentication, revoke_family now row.family_id db)
  unfolding rotate_refresh
  rotate_refresh_theft now fresh raw revoked_at db {row} found revoked theft = ground arith

  -- Replaying a revoked token after the grace window, or when its family has no other live token,
  -- is refused and leaves every token of its family revoked; a token of another family stays as it
  -- was.
  pub replay_revokes_family :
      (now : ℕ) (fresh : Fresh) (raw revoked_at other : ℕ) (db : AuthDb) {row row' : RefreshToken}
      → find (has_hash (crypto.hash raw)) db.refresh_tokens ≡ some row
      → row.revoked_at ≡ some revoked_at
      → (revoked_at + settings.refresh_reuse_grace_seconds < now)
        ⊎ (has_live_successor now row db ≡ false)
      → find (has_hash other) db.refresh_tokens ≡ some row'
      → row'.family_id ≢ row.family_id
      → let (result, db') = rotate_refresh crypto settings now fresh raw db in
        (result ≡ err authentication)
        × IsDead row.family_id db'
        × (find (has_hash other) db'.refresh_tokens ≡ some row')
  unfolding is_within_grace
  replay_revokes_family now fresh raw revoked_at other db {row} {row'} found revoked theft found'
        apart =
      rw (rotate_refresh_theft now fresh raw revoked_at db found revoked (ground arith))
        (refl, revoke_family-IsDead now row.family_id db, kept)
    where
      kept : find (has_hash other) (revoke_family now row.family_id db).refresh_tokens ≡ some row'
      kept =
          unfold revoke_family in
          find-update_where (has_hash other) (is_in_family row.family_id) (set_revoked now)
            db.refresh_tokens (λ t. unfold has_hash set_revoked in refl)
          ∙ rw found' (unfold is_in_family in ground arith)

  -- How a rotation can succeed.
  pub record Rotated (now : ℕ) (fresh : Fresh) (raw : ℕ) (db : AuthDb) : Type 0 where
    pub row : RefreshToken
    pub u : User
    pub base : AuthDb
    pub found : find (has_hash (crypto.hash raw)) db.refresh_tokens ≡ some row
    pub owner : find (has_user_id row.user_id) db.users ≡ some u
    pub is_active : u.active ≡ true
    pub based : (base ≡ db) ⊎ (base ≡ revoke_row now row db)
    pub result :
        rotate_refresh crypto settings now fresh raw db
        ≡ issue_pair crypto settings now fresh u row.family_id base

  pub rotate_refresh_ok :
      (now : ℕ) (fresh : Fresh) (raw : ℕ) (db : AuthDb)
      → is_ok (rotate_refresh crypto settings now fresh raw db).0 ≡ true
      → Rotated now fresh raw db
  unfolding rotate_refresh
  rotate_refresh_ok now fresh raw db h =
      elim (Option-cases (find (has_hash (crypto.hash raw)) db.refresh_tokens)) [
        | inl e ↦ absurd (ground arith)
        | inr (row, found) ↦ elim (Option-cases (find (has_user_id row.user_id) db.users)) [
          | inl e ↦ absurd (unfold has_live_successor is_within_grace in ground arith)
          | inr (u, owner) ↦ record {
            row = row;
            u = u;
            base = if is_none row.revoked_at then revoke_row now row db else db;
            found = found;
            owner = owner;
            is_active = ground arith;
            based = ground arith;
            result = ground arith;
          }
        ]
      ]
