-- ===== src/Auth/ApiKeys.antt =====
-- modules/auth/api_keys_service.py: keys for the external API. A raw key is the list of its code
-- points; its peppered hash is a parameter.
use ragz.Prelude.{
  ℕ, ◌+◌, ◌*◌, Bool, true, false, not, ◌&&◌, Option, none, some, List, [], ◌∷◌, ◌++◌, String,
  conflict, not_found, multiple_results_found, Result, ok, err, ltb, ◌==◌, is_none, min,
  if◌then◌else◌, find, any, select_where, update_where, take,
}
use ragz.Core.ClientIp.{Text}
use ragz.Tenancy.State.{TenancyDb, Workspace, is_member_row}

pub record ApiKey : Type 0 where
  pub id : ℕ
  pub prefix : Text
  pub key_hash : ℕ
  pub name : String
  pub org_id : ℕ
  pub user_id : ℕ
  pub workspace_id : ℕ
  pub created_by : ℕ
  pub created_at : ℕ
  pub expires_at : Option ℕ
  pub last_used_at : Option ℕ
  pub revoked_at : Option ℕ

pub record ApiKeyPrincipal : Type 0 where
  pub key_id : ℕ
  pub org_id : ℕ
  pub user_id : ℕ
  pub workspace_id : ℕ

-- `RAW_PREFIX`, which is `ragz_sk_`, and `KEY_PREFIX_LEN`
abbrev pub raw_prefix : Text
raw_prefix = b'r' ∷ b'a' ∷ b'g' ∷ b'z' ∷ b'_' ∷ b's' ∷ b'k' ∷ b'_' ∷ []

abbrev pub key_prefix_len : ℕ
key_prefix_len = 12

abbrev pub seconds_per_day : ℕ
seconds_per_day = 24 * 60 * 60

unfoldable pub text_eq : Text → Text → Bool
text_eq [] [] = true
text_eq (c ∷ s) (d ∷ t) = c == d && text_eq s t
text_eq _ _ = false

-- `s.startswith(prefix)`
unfoldable pub starts_with : Text → Text → Bool
starts_with s [] = true
starts_with [] (d ∷ t) = false
starts_with (c ∷ s) (d ∷ t) = c == d && starts_with s t

unfoldable pub has_prefix : Text → ApiKey → Bool
has_prefix p k = text_eq k.prefix p

unfoldable pub has_key_id : ℕ → ApiKey → Bool
has_key_id i k = k.id == i

-- `_bound_expiry`
unfoldable pub bound_expiry : ℕ → Option ℕ → ℕ → ℕ
bound_expiry now none max_lifetime_days = now + max_lifetime_days * seconds_per_day
bound_expiry now (some requested) max_lifetime_days =
    min requested (now + max_lifetime_days * seconds_per_day)

-- A row from before the bound expires at the bound all the same.
unfoldable pub effective_expiry : ℕ → ApiKey → ℕ
effective_expiry max_lifetime_days k = elim k.expires_at [
  | none ↦ k.created_at + max_lifetime_days * seconds_per_day
  | some t ↦ t
]

unfoldable pub principal : ApiKey → ApiKeyPrincipal
principal k = record {
  key_id = k.id;
  org_id = k.org_id;
  user_id = k.user_id;
  workspace_id = k.workspace_id;
}

unfoldable pub set_last_used : ℕ → ApiKey → ApiKey
set_last_used now k = record k { last_used_at = some now }

unfoldable pub set_key_revoked : ℕ → ApiKey → ApiKey
set_key_revoked now k = record k { revoked_at = some now }

unfoldable pub get_api_key : ℕ → List ApiKey → Result ApiKey
unfolding has_key_id
get_api_key key_id keys = elim (find (has_key_id key_id) keys) [
  | none ↦ err not_found
  | some k ↦ ok k
]

unfoldable pub revoke_api_key : ℕ → ℕ → List ApiKey → List ApiKey
unfolding has_key_id set_key_revoked
revoke_api_key now key_id keys = update_where (has_key_id key_id) (set_key_revoked now) keys

module _ (hash : Text → ℕ) (max_lifetime_days : ℕ) where
  -- The row of a key that is made, `token` being the random part of the raw key.
  unfoldable pub new_key : ℕ → ℕ → ℕ → String → ℕ → Workspace → Option ℕ → Text → ApiKey
  unfolding bound_expiry
  new_key now id actor_id name user_id ws expires_at token = record {
    id = id;
    prefix = take key_prefix_len (raw_prefix ++ token);
    key_hash = hash (raw_prefix ++ token);
    name = name;
    org_id = ws.org_id;
    user_id = user_id;
    workspace_id = ws.id;
    created_by = actor_id;
    created_at = now;
    expires_at = some (bound_expiry now expires_at max_lifetime_days);
    last_used_at = none;
    revoked_at = none;
  }

  -- The unique hash refuses a second row for one raw key, which the API reports as a conflict.
  unfoldable pub generate_api_key :
      ℕ
      → ℕ
      → ℕ
      → String
      → (user_id workspace_id : ℕ) → Option ℕ
      → Text
      → TenancyDb
      → List ApiKey
      → Result (ApiKey × Text) × List ApiKey
  unfolding new_key
  generate_api_key now id actor_id name user_id workspace_id expires_at token db keys =
      elim (find (λ ws. ws.id == workspace_id) db.workspaces) [
        | none ↦ (err conflict, keys)
        | some ws ↦
            if not (any (is_member_row workspace_id user_id) db.members)
            then (err conflict, keys)
            else if any (λ k. k.key_hash == hash (raw_prefix ++ token)) keys
            then (err conflict, keys)
            else (
              ok (new_key now id actor_id name user_id ws expires_at token, raw_prefix ++ token),
              keys ++ (new_key now id actor_id name user_id ws expires_at token ∷ []),
            )
      ]

  -- The checks on the one row of a prefix.
  unfoldable pub resolve_row :
      ℕ → Text → ApiKey → List ApiKey → Result (Option ApiKeyPrincipal) × List ApiKey
  unfolding effective_expiry principal set_last_used has_key_id
  resolve_row now raw_key row keys =
      if not (row.key_hash == hash raw_key)
      then (ok none, keys)
      else if not (is_none row.revoked_at)
      then (ok none, keys)
      else if ltb (effective_expiry max_lifetime_days row) now
      then (ok none, keys)
      else (ok (some (principal row)), update_where (has_key_id row.id) (set_last_used now) keys)

  -- `scalar_one_or_none` raises where a prefix has two rows.
  unfoldable pub resolve_rows :
      ℕ → Text → List ApiKey → List ApiKey → Result (Option ApiKeyPrincipal) × List ApiKey
  unfolding resolve_row
  resolve_rows now raw_key [] keys = (ok none, keys)
  resolve_rows now raw_key (row ∷ []) keys = resolve_row now raw_key row keys
  resolve_rows now raw_key (_ ∷ _ ∷ _) keys = (err multiple_results_found, keys)

  unfoldable pub resolve_api_key :
      ℕ → Text → List ApiKey → Result (Option ApiKeyPrincipal) × List ApiKey
  unfolding starts_with has_prefix resolve_rows
  resolve_api_key now raw_key keys =
      if not (starts_with raw_key raw_prefix)
      then (ok none, keys)
      else resolve_rows now raw_key (select_where (has_prefix (take key_prefix_len raw_key)) keys)
          keys
