-- ===== src/Auth/KeyLifetime.antt =====
-- How long a key for the external API is good: modules/auth/api_keys_service.py.
use ragz.Prelude.{
  ℕ, ◌+◌, ◌*◌, ◌≤◌, ◌≡◌, ◌≢◌, refl, Bool, true, false, not, ◌&&◌, Option, none, some, List, [], ◌∷◌,
  ◌++◌, String, multiple_results_found, inl, inr, ok, err, ltb, ◌==◌, is_none, if◌then◌else◌, arith,
  any, select_where, take, find, ap, ◌∙◌, Bool-cases, Option-cases, All, All-select_where,
  update_where-All,
}
use ragz.Core.ClientIp.{Text}
use ragz.Tenancy.State.{TenancyDb, is_member_row}
use ragz.Auth.ApiKeys.{
  ApiKey, ApiKeyPrincipal, raw_prefix, key_prefix_len, seconds_per_day, text_eq, starts_with,
  has_prefix, has_key_id, bound_expiry, principal, revoke_api_key, set_key_revoked,
  generate_api_key, resolve_row, resolve_rows, resolve_api_key,
}

text_eq_refl : (s : Text) → text_eq s s ≡ true
unfolding text_eq
text_eq_refl [] = refl
text_eq_refl (c ∷ s) = ground (arith, text_eq_refl s)

bound_expiry_le :
    (now : ℕ) (requested : Option ℕ) (days : ℕ)
    → bound_expiry now requested days ≤ now + days * seconds_per_day
unfolding bound_expiry
bound_expiry_le now none days = omega arith
bound_expiry_le now (some t) days = omega arith

select_where-append :
    (q : ApiKey → Bool) (keys : List ApiKey) (k : ApiKey)
    → q k ≡ true
    → select_where q (keys ++ (k ∷ [])) ≡ select_where q keys ++ (k ∷ [])
unfolding select_where
select_where-append q [] k mine = ground arith
select_where-append q (x ∷ keys) k mine = ground (arith, select_where-append q keys k mine)

module _ (hash : Text → ℕ) (days : ℕ) where
  generate_done :
      (now id actor_id : ℕ) (name : String) (user_id workspace_id : ℕ) (expires_at : Option ℕ)
      (token raw : Text) (row : ApiKey) (db : TenancyDb) (keys : List ApiKey)
      → (generate_api_key hash days now id actor_id name user_id workspace_id expires_at token db
          keys).0
        ≡ ok (row, raw)
      → (raw ≡ raw_prefix ++ token)
        × (row.key_hash ≡ hash raw)
        × (row.prefix ≡ take key_prefix_len raw)
        × (row.revoked_at ≡ none)
        × (row.expires_at ≡ some (bound_expiry now expires_at days))
        × ((generate_api_key hash days now id actor_id name user_id workspace_id expires_at token db
              keys).1
            ≡ keys ++ (row ∷ []))
  unfolding generate_api_key
  generate_done now id actor_id name user_id workspace_id expires_at token raw row db keys h =
      elim (Option-cases (find (λ ws. ws.id == workspace_id) db.workspaces)) [
        | inl e ↦ absurd (ground arith)
        | inr (ws, e) ↦
            elim (Bool-cases (
              any (is_member_row workspace_id user_id) db.members
              && not (any (λ k. k.key_hash == hash (raw_prefix ++ token)) keys))) [
                | inr refused ↦ absurd (ground arith)
                | inl made ↦ (
                  ground arith,
                  ground arith,
                  ground arith,
                  ground arith,
                  ground arith,
                  ground arith,
                )
              ]
      ]

  starts_with-raw_prefix :
      (token raw : Text) → raw ≡ raw_prefix ++ token → starts_with raw raw_prefix ≡ true
  starts_with-raw_prefix token raw e = rw e (unfold starts_with in refl)

  resolve_started :
      (now : ℕ) (raw : Text) (rows keys : List ApiKey)
      → starts_with raw raw_prefix ≡ true
      → select_where (has_prefix (take key_prefix_len raw)) keys ≡ rows
      → resolve_api_key hash days now raw keys ≡ resolve_rows hash days now raw rows keys
  unfolding resolve_api_key
  resolve_started now raw rows keys starts found = rw (starts, found) refl

  resolve_good :
      (now : ℕ) (raw : Text) (row : ApiKey) (t : ℕ) (keys : List ApiKey)
      → row.key_hash ≡ hash raw
      → row.revoked_at ≡ none
      → row.expires_at ≡ some t
      → (resolve_row hash days now raw row keys).0
        ≡ ok (if ltb t now then none else some (principal row))
  unfolding resolve_row
  resolve_good now raw row t keys mine live expires = ground (arith, mine)

  rows_after :
      (raw : Text) (row : ApiKey) (keys : List ApiKey)
      → row.prefix ≡ take key_prefix_len raw
      → select_where (has_prefix (take key_prefix_len raw)) (keys ++ (row ∷ []))
        ≡ select_where (has_prefix (take key_prefix_len raw)) keys ++ (row ∷ [])
  rows_after raw row keys e =
      select_where-append (has_prefix (take key_prefix_len raw)) keys row
        (unfold has_prefix in rw e (text_eq_refl (take key_prefix_len raw)))

  -- A key that is made, where no other key has its prefix, is good until the expiry that was asked for
  -- or the longest lifetime has passed, whichever is first, and never after.
  pub generated_key_lifetime :
      (now later id actor_id : ℕ) (name : String) (user_id workspace_id : ℕ) (expires_at : Option ℕ)
      (token raw : Text) (row : ApiKey) (db : TenancyDb) (keys : List ApiKey)
      → (generate_api_key hash days now id actor_id name user_id workspace_id expires_at token db
          keys).0
        ≡ ok (row, raw)
      → select_where (has_prefix (take key_prefix_len raw)) keys ≡ []
      → let keys' =
          (generate_api_key hash days now id actor_id name user_id workspace_id expires_at token db
            keys).1 in
        let expiry = bound_expiry now expires_at days in
        ((resolve_api_key hash days later raw keys').0
          ≡ ok (if ltb expiry later then none else some (principal row)))
        × (expiry ≤ now + days * seconds_per_day)
  generated_key_lifetime now later id actor_id name user_id workspace_id expires_at token raw row db
        keys h free =
      let (made, mine, prefix, live, expires, rows) =
        generate_done now id actor_id name user_id workspace_id expires_at token raw row db keys
          h in
      (
        rw rows (
            ap (λ r. r.0)
              (resolve_started later raw (row ∷ []) (keys ++ (row ∷ []))
                (starts_with-raw_prefix token raw made)
                (rows_after raw row keys prefix ∙ rw free refl))
            ∙ unfold resolve_rows in
              resolve_good later raw row _ (keys ++ (row ∷ [])) mine live expires),
        bound_expiry_le now expires_at days,
      )

  -- Two keys with one prefix lock each other out: where a key is made whose prefix another key has,
  -- every raw key of that prefix raises instead of being checked, the old ones too.
  pub shared_prefix_raises :
      (now later id actor_id : ℕ) (name : String) (user_id workspace_id : ℕ) (expires_at : Option ℕ)
      (token raw other : Text) (row old : ApiKey) (rest : List ApiKey) (db : TenancyDb)
      (keys : List ApiKey)
      → (generate_api_key hash days now id actor_id name user_id workspace_id expires_at token db
          keys).0
        ≡ ok (row, raw)
      → select_where (has_prefix (take key_prefix_len raw)) keys ≡ old ∷ rest
      → starts_with other raw_prefix ≡ true
      → take key_prefix_len other ≡ take key_prefix_len raw
      → (resolve_api_key hash days later other
          (generate_api_key hash days now id actor_id name user_id workspace_id expires_at token db
            keys).1).0
        ≡ err multiple_results_found
  shared_prefix_raises now later id actor_id name user_id workspace_id expires_at token raw other
        row old rest db keys h taken starts same =
      let (made, mine, prefix, live, expires, rows) =
        generate_done now id actor_id name user_id workspace_id expires_at token raw row db keys
          h in
      rw rows (
        ap (λ r. r.0)
          (resolve_started later other (old ∷ (rest ++ (row ∷ []))) (keys ++ (row ∷ [])) starts
            (rw same (rows_after raw row keys prefix ∙ rw taken refl)))
        ∙ two_rows later other old row rest _)
    where
      two_rows :
          (later : ℕ) (other : Text) (old row : ApiKey) (rest keys : List ApiKey)
          → (resolve_rows hash days later other (old ∷ (rest ++ (row ∷ []))) keys).0
            ≡ err multiple_results_found
      two_rows later other old row [] keys = unfold resolve_rows in refl
      two_rows later other old row (x ∷ rest) keys = unfold resolve_rows in refl

  resolved_row :
      (now key_id : ℕ) (raw : Text) (p : ApiKeyPrincipal) (rows keys : List ApiKey)
      → (resolve_rows hash days now raw rows keys).0 ≡ ok (some p)
      → All (λ k. (is_none k.revoked_at && k.id == key_id) ≡ false) rows
      → p.key_id ≢ key_id
  unfolding resolve_rows principal
  resolved_row now key_id raw p [] keys h all = absurd (ground arith)
  resolved_row now key_id raw p (x ∷ y ∷ rows) keys h all = absurd (ground arith)
  resolved_row now key_id raw p (x ∷ []) keys h all = ground (arith, all.0)

  -- A revoked key never gets in again, whatever key is presented and whenever.
  pub revoked_key_is_refused :
      (now later key_id : ℕ) (raw : Text) (p : ApiKeyPrincipal) (keys : List ApiKey)
      → (resolve_api_key hash days later raw (revoke_api_key now key_id keys)).0 ≡ ok (some p)
      → p.key_id ≢ key_id
  revoked_key_is_refused now later key_id raw p keys h =
      elim (Bool-cases (starts_with raw raw_prefix)) [
        | inr other ↦ absurd (unfold resolve_api_key in ground arith)
        | inl starts ↦
            let keys' = revoke_api_key now key_id keys in
            let gone : All (λ k. (is_none k.revoked_at && k.id == key_id) ≡ false) keys' =
              unfold revoke_api_key in
              update_where-All (λ k. (is_none k.revoked_at && k.id == key_id) ≡ false)
                (has_key_id key_id) (set_key_revoked now) keys (λ k e. ground arith)
                (λ k e. ground arith) in
            resolved_row later key_id raw p _ keys'
              (rw (resolve_started later raw _ keys' starts refl) at h)
              (All-select_where (λ k. (is_none k.revoked_at && k.id == key_id) ≡ false)
                (has_prefix (take key_prefix_len raw)) keys' gone)
      ]
