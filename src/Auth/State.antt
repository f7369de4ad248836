-- ===== src/Auth/State.antt =====
-- The tables of modules/auth/models.py that the sign-in services read and write, and the settings
-- and crypto that they use. Ids, hashes and texts that are only compared are numbers; times are
-- seconds since an epoch.
use ragz.Prelude.{ℕ, Bool, Option, List, String, is_none, ◌&&◌, ltb, ◌==◌}

-- `User.role`, by the table's CHECK constraint
pub data Role : Type 0 where
  superadmin admin user : Role

-- `role == "superadmin"`
unfoldable pub is_superadmin : Role → Bool
is_superadmin superadmin = Bool.true
is_superadmin _ = Bool.false

pub record User : Type 0 where
  pub id : ℕ
  pub org_id : ℕ
  pub email : ℕ
  pub password_hash : ℕ
  pub role : Role
  pub active : Bool
  pub security_version : ℕ
  pub custom_role_id : Option ℕ
  pub oidc_issuer : Option ℕ
  pub oidc_subject : Option ℕ

pub record RefreshToken : Type 0 where
  pub id : ℕ
  pub user_id : ℕ
  pub family_id : ℕ
  pub token_hash : ℕ
  pub expires_at : ℕ
  pub revoked_at : Option ℕ
  pub created_at : ℕ

pub record PasswordResetToken : Type 0 where
  pub id : ℕ
  pub user_id : ℕ
  pub token_hash : ℕ
  pub expires_at : ℕ
  pub used_at : Option ℕ

pub record Invitation : Type 0 where
  pub id : ℕ
  pub org_id : ℕ
  pub email : ℕ
  pub role : Role
  pub token_hash : ℕ
  pub expires_at : ℕ
  pub accepted_at : Option ℕ

-- An organisation, less its profile.
pub record Organization : Type 0 where
  pub id : ℕ
  pub name : String
  pub sso_domains : List ℕ

-- What an audit row is about: a row by its id, a row by two numbers, or a text.
pub data AuditTarget : Type 0 where
  row : ℕ → AuditTarget
  pair : ℕ → ℕ → AuditTarget
  text : String → AuditTarget

-- modules/audit/models.py, less target_type, reason_code and the columns of the request.
pub record AuditEvent : Type 0 where
  pub org_id : Option ℕ
  pub actor_id : Option ℕ
  pub action : String
  pub target : AuditTarget
  pub result : String

-- `record_audit` with the defaults of modules/audit/service.py, before it is added to a table.
unfoldable pub audit_event : Option ℕ → Option ℕ → String → AuditTarget → AuditEvent
audit_event org_id actor_id action target = record {
  org_id = org_id;
  actor_id = actor_id;
  action = action;
  target = target;
  result = "success";
}

pub record AuthDb : Type 0 where
  pub users : List User
  pub refresh_tokens : List RefreshToken
  pub reset_tokens : List PasswordResetToken
  pub invitations : List Invitation
  pub organizations : List Organization
  pub audit : List AuditEvent

pub record Settings : Type 0 where
  pub refresh_token_ttl_seconds : ℕ
  pub access_token_ttl_seconds : ℕ
  pub refresh_reuse_grace_seconds : ℕ

-- Argon2 and the peppered SHA-256 of `_hash`, which the services only call.
pub record Crypto : Type 0 where
  pub hash : ℕ → ℕ
  pub hash_password : ℕ → ℕ
  pub verify_password : ℕ → ℕ → Bool

-- What a call draws at random: ids for the rows that it adds, a session family and a raw token.
pub record Fresh : Type 0 where
  pub id : ℕ
  pub family_id : ℕ
  pub raw : ℕ

-- The claims of an access token (modules/auth/tokens.py); its signature is not modelled.
pub record Claims : Type 0 where
  pub user_id : ℕ
  pub org_id : ℕ
  pub role : Role
  pub sv : ℕ
  pub exp : ℕ

pub record TokenPair : Type 0 where
  pub access_token : Claims
  pub refresh_token : ℕ

-- Conditions of the queries.
unfoldable pub has_hash : ℕ → RefreshToken → Bool
has_hash h t = t.token_hash == h

unfoldable pub is_in_family : ℕ → RefreshToken → Bool
is_in_family f t = t.family_id == f

-- `revoked_at.is_(None), expires_at > now`
unfoldable pub is_live : ℕ → RefreshToken → Bool
is_live now t = is_none t.revoked_at && ltb now t.expires_at

unfoldable pub has_user_id : ℕ → User → Bool
has_user_id k u = u.id == k

unfoldable pub has_email : ℕ → User → Bool
has_email e u = u.email == e

unfoldable pub set_revoked : ℕ → RefreshToken → RefreshToken
set_revoked now t = record t { revoked_at = Option.some now }
