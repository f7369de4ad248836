-- ===== src/Auth/TokenChanges.antt =====
-- What each request of modules/auth/service.py does to the refresh tokens.
use ragz.Prelude.{
  ℕ, ◌≡◌, refl, ◌≢◌, Bool, true, false, not, ◌&&◌, ◌||◌, none, some, List, [], ◌∷◌, ◌++◌, inl, inr,
  ◌⊎◌, authentication, err, arith, Bool-cases, Option-cases, ◌==◌, ltb, leb, All, All-append,
  All-update_where, find, find-All, update_where, is_none,
}
use ragz.Auth.State.{
  RefreshToken, AuthDb, Settings, Crypto, Fresh, has_hash, is_in_family, set_revoked, has_email,
  has_user_id,
}
use ragz.Auth.Refresh.{
  new_token, login, rotate_refresh, revoke_family, finish_rotation, is_within_grace,
  has_live_successor,
}
use ragz.Auth.Passwords.{change_password, reset_password, finish_reset, has_reset_hash}
use ragz.Auth.Rotation.{IsDead, no_live_successor}

-- An update that only ever revokes.
revoking-IsDead :
    (f now : ℕ) (q : RefreshToken → Bool) (ts : List RefreshToken)
    → All (λ t. (is_in_family f t && is_none t.revoked_at) ≡ false) ts
    → All
        (λ t. (is_in_family f t && is_none t.revoked_at) ≡ false)
        (update_where q (set_revoked now) ts)
unfolding set_revoked is_in_family
revoking-IsDead f now q ts dead =
    All-update_where _ _ q (set_revoked now) ts (λ t e h. ground arith) (λ t e h. h) dead

-- How a request changes the refresh tokens: it leaves them, revokes some, or adds one, in a family
-- that is alive or that a sign-in drew.
pub data Change (f : ℕ) (db : AuthDb) (ts : List RefreshToken) : Type 0 where
  same : ts ≡ db.refresh_tokens → Change f db ts
  revoked :
      (now : ℕ) (q : RefreshToken → Bool)
      → ts ≡ update_where q (set_revoked now) db.refresh_tokens
      → Change f db ts
  issued :
      (t : RefreshToken) → t.family_id ≢ f → ts ≡ db.refresh_tokens ++ (t ∷ []) → Change f db ts
  rotated :
      (t row : RefreshToken) (now : ℕ)
      → t.family_id ≢ f
      → ts ≡ update_where (λ x. x.id == row.id) (set_revoked now) db.refresh_tokens ++ (t ∷ [])
      → Change f db ts

pub Change-IsDead :
    (f : ℕ) (db : AuthDb) (ts : List RefreshToken)
    → Change f db ts
    → IsDead f db
    → All (λ t. (is_in_family f t && is_none t.revoked_at) ≡ false) ts
Change-IsDead f db ts (same e) dead = rw e dead
Change-IsDead f db ts (revoked now q e) dead = rw e (revoking-IsDead f now q db.refresh_tokens dead)
Change-IsDead f db ts (issued t other e) dead =
    rw e (All-append _ db.refresh_tokens _ dead (unfold is_in_family in ground arith, tt))
Change-IsDead f db ts (rotated t row now other e) dead = rw e (
    All-append _ _ _ (revoking-IsDead f now (λ x. x.id == row.id) db.refresh_tokens dead)
      (unfold is_in_family in ground arith, tt))

module _ (crypto : Crypto) (settings : Settings) where
  pub login_changes :
      (f now : ℕ) (fresh : Fresh) (email password : ℕ) (db : AuthDb)
      → fresh.family_id ≢ f
      → Change f db (login crypto settings now fresh email password db).1.refresh_tokens
  unfolding login
  login_changes f now fresh email password db other =
      elim (Option-cases (find (has_email email) db.users)) [
        | inl e ↦ same (ground arith)
        | inr (u, e) ↦
            elim (Bool-cases (u.active && crypto.verify_password u.password_hash password)) [
              | inr denied ↦ same (ground arith)
              | inl granted ↦
                  issued (new_token crypto settings now fresh u fresh.family_id)
                    (unfold new_token in other) (ground arith)
            ]
      ]

  finish_changes :
      (f now : ℕ) (fresh : Fresh) (row : RefreshToken) (grace : Bool) (db : AuthDb)
      → row.family_id ≢ f
      → Change f db (finish_rotation crypto settings now fresh row grace db).1.refresh_tokens
  unfolding finish_rotation
  finish_changes f now fresh row grace db other =
      elim (Option-cases (find (has_user_id row.user_id) db.users)) [
        | inl e ↦ same (ground arith)
        | inr (u, e) ↦ elim (Bool-cases (not (ltb row.expires_at now) && u.active)) [
          | inr denied ↦ same (ground arith)
          | inl granted ↦ elim (Bool-cases grace) [
            | inl again ↦
                issued (new_token crypto settings now fresh u row.family_id)
                  (unfold new_token in other) (ground arith)
            | inr first ↦
                rotated (new_token crypto settings now fresh u row.family_id) row now
                  (unfold new_token in other) (ground arith)
          ]
        ]
      ]

  -- A rotation of a found token ends in one of three ways.
  rotate_finds :
      (now : ℕ) (fresh : Fresh) (raw : ℕ) (db : AuthDb) (row : RefreshToken)
      → find (has_hash (crypto.hash raw)) db.refresh_tokens ≡ some row
      → let after = rotate_refresh crypto settings now fresh raw db in
        (row.revoked_at ≡ none) × (after ≡ finish_rotation crypto settings now fresh row false db)
        ⊎ (has_live_successor now row db ≡ true)
          × (after ≡ finish_rotation crypto settings now fresh row true db)
        ⊎ (after ≡ (err authentication, revoke_family now row.family_id db))
  unfolding rotate_refresh
  rotate_finds now fresh raw db row e = elim (Option-cases row.revoked_at) [
    | inl live ↦ inl (live, ground arith)
    | inr (at, gone) ↦
        elim (Bool-cases (is_within_grace settings now at && has_live_successor now row db)) [
          | inl again ↦ inr (inl (ground arith, ground arith))
          | inr theft ↦ inr (inr (ground arith))
        ]
  ]

  alive :
      (f now : ℕ) (row : RefreshToken) (db : AuthDb)
      → IsDead f db
      → has_live_successor now row db ≡ true
      → row.family_id ≢ f
  alive f now row db dead succ same_family =
      cc (succ, no_live_successor now row db (rw same_family dead))

  pub rotate_changes :
      (f now : ℕ) (fresh : Fresh) (raw : ℕ) (db : AuthDb)
      → IsDead f db
      → Change f db (rotate_refresh crypto settings now fresh raw db).1.refresh_tokens
  rotate_changes f now fresh raw db dead =
      elim (Option-cases (find (has_hash (crypto.hash raw)) db.refresh_tokens)) [
        | inl e ↦ same (unfold rotate_refresh in ground arith)
        | inr (row, e) ↦
            let unrevoked_here : (is_in_family f row && is_none row.revoked_at) ≡ false =
              find-All (λ t. (is_in_family f t && is_none t.revoked_at) ≡ false)
                (has_hash (crypto.hash raw)) db.refresh_tokens e dead in
            elim (rotate_finds now fresh raw db row e) [
              | inl (live, after) ↦
                  rw after
                    (finish_changes f now fresh row false db (unfold is_in_family in ground arith))
              | inr (inl (succ, after)) ↦
                  rw after (finish_changes f now fresh row true db (alive f now row db dead succ))
              | inr (inr after) ↦
                  rw after (revoked now (is_in_family row.family_id) (unfold revoke_family in refl))
            ]
      ]

  pub password_changes :
      (f now user_id current_password new_password : ℕ) (db : AuthDb)
      → Change f db
          (change_password crypto now user_id current_password new_password db).1.refresh_tokens
  unfolding change_password
  password_changes f now user_id current_password new_password db =
      elim (Option-cases (find (has_user_id user_id) db.users)) [
        | inl e ↦ same (ground arith)
        | inr (u, e) ↦ elim (Bool-cases (crypto.verify_password u.password_hash current_password)) [
          | inr wrong ↦ same (ground arith)
          | inl right ↦ revoked now (λ t. t.user_id == u.id && is_none t.revoked_at) (ground arith)
        ]
      ]

  pub reset_changes :
      (f now raw new_password : ℕ) (db : AuthDb)
      → Change f db (reset_password crypto now raw new_password db).1.refresh_tokens
  unfolding reset_password
  reset_changes f now raw new_password db =
      elim (Option-cases (find (has_reset_hash (crypto.hash raw)) db.reset_tokens)) [
        | inl e ↦ same (ground arith)
        | inr (t, e) ↦ elim (Bool-cases (not (is_none t.used_at) || leb t.expires_at now)) [
          | inl spent ↦ same (ground arith)
          | inr open_still ↦ elim (Option-cases (find (has_user_id t.user_id) db.users)) [
            | inl g ↦ same (ground arith)
            | inr (u, g) ↦ elim (Bool-cases u.active) [
              | inr off ↦ same (ground arith)
              | inl on ↦
                  revoked now (λ t. t.user_id == u.id && is_none t.revoked_at)
                    (unfold finish_reset in ground arith)
            ]
          ]
        ]
      ]
