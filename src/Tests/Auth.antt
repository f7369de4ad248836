-- ===== src/Tests/Auth.antt =====
-- Runs of modules/auth/service.py on one organisation's user.
use ragz.Prelude.{
  map, any, ℕ, ◌≡◌, refl, ◌+◌, ◌==◌, ◌&&◌, true, false, none, some, List, [], ◌∷◌, inl, inr, Option,
  err, ok, authentication, is_ok, find, arith, leb, is_none,
}
use ragz.Auth.State.{
  is_live, User, RefreshToken, PasswordResetToken, AuthDb, Settings, Crypto, Fresh, TokenPair,
  has_hash, has_user_id, is_in_family, set_revoked,
}
use ragz.Auth.Refresh.{rotate_refresh, login, logout, issue_access_token, has_live_successor}
use ragz.Auth.Passwords.{reset_password, has_reset_hash}
use ragz.Auth.Rotation.{IsDead, replay_revokes_family}
use ragz.Auth.RotationChain.{rotate_refresh_chain}
use ragz.Auth.Credentials.{IsSignedOut, reset_password_once}
use ragz.Auth.Requests.{
  serve_all, revoked_family_stays_revoked, login_request, logout_request, rotate_request,
}
use ragz.Auth.Sessions.{list_sessions}
use ragz.Auth.Logout.{logout_then_rotate}

-- A hash is the number itself, and a password's the next one.
abbrev pub crypto : Crypto
crypto = record { hash = λ x. x; hash_password = λ p. p + 1; verify_password = λ h p. h == p + 1 }

abbrev pub settings : Settings
settings = record {
  refresh_token_ttl_seconds = 604800;
  access_token_ttl_seconds = 900;
  refresh_reuse_grace_seconds = 30;
}

abbrev pub alice : User
alice = record {
  id = 1;
  org_id = 1;
  email = 10;
  password_hash = 100;
  role = ragz.Auth.State.user;
  active = true;
  security_version = 0;
  custom_role_id = none;
  oidc_issuer = none;
  oidc_subject = none;
}

abbrev token : ℕ → ℕ → ℕ → Option ℕ → RefreshToken
token k family hash revoked_at = record {
  id = k;
  user_id = 1;
  family_id = family;
  token_hash = hash;
  expires_at = 604800;
  revoked_at = revoked_at;
  created_at = 0;
}

abbrev reset_token : PasswordResetToken
reset_token = record { id = 1; user_id = 1; token_hash = 900; expires_at = 2700; used_at = none }

abbrev fresh : Fresh
fresh = record { id = 9; family_id = 9; raw = 509 }

abbrev fresher : Fresh
fresher = record { id = 10; family_id = 10; raw = 510 }

-- Family 7 was rotated once, at 100; family 8 is another session; family 6 is revoked.
abbrev pub db : AuthDb
db = record {
  users = alice ∷ [];
  refresh_tokens =
      token 1 7 501 (some 100)
      ∷ token 2 7 502 none
      ∷ token 3 8 503 none
      ∷ token 4 6 504 (some 50)
      ∷ [];
  reset_tokens = reset_token ∷ [];
  invitations = [];
  organizations = [];
  audit = [];
}

-- The replay of a rotated token within the window is answered with a pair.
grace_replay : is_ok (rotate_refresh crypto settings 130 fresh 501 db).0 ≡ true
unfolding rotate_refresh issue_access_token find has_hash ragz.Prelude.any is_in_family
    ragz.Auth.State.is_live has_user_id
grace_replay = refl

late_replay : (rotate_refresh crypto settings 131 fresh 501 db).0 ≡ err authentication
unfolding rotate_refresh find has_hash
late_replay = refl

-- The theft of family 7 ends its newest token too.
stolen :
    (rotate_refresh crypto settings 140 fresher 502
      (rotate_refresh crypto settings 131 fresh 501 db).1).0
    ≡ err authentication
unfolding rotate_refresh find has_hash ragz.Prelude.update_where is_in_family set_revoked
    ragz.Prelude.any ragz.Auth.State.is_live
stolen = refl

replay_revokes_family_example :
    let (result, db') = rotate_refresh crypto settings 1000 fresh 501 db in
    (result ≡ err authentication)
    × IsDead 7 db'
    × (find (has_hash 503) db'.refresh_tokens ≡ some (token 3 8 503 none))
unfolding find has_hash
replay_revokes_family_example =
    replay_revokes_family crypto settings 1000 fresh 501 100 503 db {row = token 1 7 501 (some 100)}
      {row' = token 3 8 503 none} refl refl (inl (omega arith)) refl (ground arith)

rotate_refresh_chain_example :
    is_ok
      (rotate_refresh crypto settings 700000 fresher 509
        (rotate_refresh crypto settings 200000 fresh 502 db).1).0
    ≡ true
unfolding find has_hash rotate_refresh issue_access_token has_user_id
rotate_refresh_chain_example =
    rotate_refresh_chain crypto settings 200000 700000 fresh fresher 502
      (record { access_token = issue_access_token settings 200000 alice; refresh_token = 509 }) db
      refl refl (omega arith)

reset_password_once_example :
    let db' = (reset_password crypto 2699 900 77 db).1 in
    (reset_password crypto 2700 900 88 db' ≡ (err authentication, db')) × IsSignedOut 1 db'
unfolding find has_user_id has_reset_hash reset_password
reset_password_once_example =
    reset_password_once crypto 2699 2700 900 77 88 reset_token alice db refl refl refl

revoked_family_stays_revoked_example :
    let db' =
      serve_all crypto settings
        (rotate_request 60 fresh 504 ∷ login_request 70 fresher 10 99 ∷ logout_request 80 504 ∷ [])
        db in
    IsDead 6 db' × ((rotate_refresh crypto settings 90 fresh 504 db').0 ≡ err authentication)
unfolding find has_hash serve_all is_in_family login set_revoked ragz.Auth.Requests.serve logout
    ragz.Prelude.update_where rotate_refresh ragz.Prelude.any ragz.Auth.State.has_email
revoked_family_stays_revoked_example =
    revoked_family_stays_revoked crypto settings 6
      (rotate_request 60 fresh 504 ∷ login_request 70 fresher 10 99 ∷ logout_request 80 504 ∷ []) db
      90 fresh 504 (token 4 6 504 (some 80)) (tt, (ground arith, (tt, tt)))
      (refl, (refl, (refl, (refl, tt)))) refl refl

-- The logged-out token is taken once more, since the grace reissue left a second live token.
logout_then_rotate_example :
    is_ok
      (rotate_refresh crypto settings 130 fresher 502
        (logout crypto settings 120 502 (rotate_refresh crypto settings 110 fresh 501 db).1)).0
    ≡ true
unfolding find has_hash has_user_id rotate_refresh has_live_successor ragz.Prelude.any is_in_family
    ragz.Auth.State.is_live
logout_then_rotate_example =
    logout_then_rotate crypto settings 120 130 502 fresher (token 2 7 502 none) alice
      (rotate_refresh crypto settings 110 fresh 501 db).1 refl
      (
        λ h. absurd (ground arith),
        (
          λ _. refl,
          (
            λ h. absurd (ground arith),
            (λ h. absurd (ground arith), (λ h. absurd (ground arith), tt)),
          ),
        ),
      )
      refl refl (omega arith)

-- Families 7 and 8 are live, 6 is not.
listed : map (λ s. s.family_id) (list_sessions 1000 1 db) ≡ 7 ∷ 8 ∷ []
unfolding list_sessions ragz.Prelude.select_where ragz.Auth.Sessions.session_of is_in_family is_live
    ragz.Prelude.delete_where
listed = refl
