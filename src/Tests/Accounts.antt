-- ===== src/Tests/Accounts.antt =====
-- Runs of the operations on accounts and API keys.
use ragz.Prelude.{
  All, ℕ, ◌≡◌, ◌≤◌, ◌≢◌, ◌+◌, ◌*◌, refl, true, false, none, some, List, [], ◌∷◌, ◌++◌, ok, err,
  authentication, multiple_results_found, arith, find, ltb, if◌then◌else◌, select_where, take,
  is_ok, ◌⊎◌,
}
use ragz.Core.ClientIp.{Text}
use ragz.Auth.State.{User, Role, Organization, Invitation, AuthDb, Fresh, has_email, is_superadmin}
use ragz.Auth.Accounts.{register_first_superadmin, new_user}
use ragz.Auth.Oidc.{login_oidc, is_bound}
use ragz.Auth.Admission.{Entered, login_oidc_enters}
use ragz.Auth.AccountRows.{HasOneSuperadmin, IsSuperadmin, superadmins}
use ragz.Auth.Superadmin.{
  Request, register, accept, change_role, serve_all, serve_all-HasOneSuperadmin,
}
use ragz.Auth.ApiKeys.{
  ApiKey, ApiKeyPrincipal, raw_prefix, key_prefix_len, seconds_per_day, has_prefix, bound_expiry,
  principal, generate_api_key, resolve_api_key, revoke_api_key, new_key,
}
use ragz.Auth.KeyLifetime.{shared_prefix_raises}
use ragz.Tenancy.State.{TenantContext, TenancyDb, Workspace}
use ragz.Tests.Auth.{alice, crypto, settings}
use ragz.Tests.Tenancy

abbrev fresh : Fresh
fresh = record { id = 9; family_id = 9; raw = 509 }

-- `bob` signs in through the provider 70 as the subject 71.
abbrev bob : User
bob = record alice { id = 2; email = 20; oidc_issuer = some 70; oidc_subject = some 71 }

abbrev invitation : Invitation
invitation = record {
  id = 1;
  org_id = 1;
  email = 30;
  role = Role.admin;
  token_hash = 800;
  expires_at = 1000;
  accepted_at = none;
}

abbrev db : AuthDb
db = record {
  users = alice ∷ bob ∷ [];
  refresh_tokens = [];
  reset_tokens = [];
  invitations = invitation ∷ [];
  organizations = record { id = 1; name = "Acme"; sso_domains = 7 ∷ [] } ∷ [];
  audit = [];
}

-- Every email is of one domain.
abbrev domain : ℕ → ℕ
domain _ = 7

first_run :
    superadmins
      (register_first_superadmin crypto 5 6 60 1
        (register_first_superadmin crypto 3 4 40 1 db).1).1.users
    ≡ 1
unfolding superadmins ragz.Prelude.count_where register_first_superadmin ragz.Prelude.any
    ragz.Auth.State.is_superadmin
first_run = refl

login_oidc_enters_example :
    Entered 20 70 71 db (login_oidc crypto settings domain 100 fresh 8 20 70 71 5 db).1 (record {
      access_token = record { user_id = 2; org_id = 1; role = Role.user; sv = 0; exp = 1000 };
      refresh_token = 509;
    })
unfolding login_oidc find is_bound ragz.Auth.Refresh.issue_access_token
login_oidc_enters_example =
    login_oidc_enters crypto settings domain 100 fresh 8 20 70 71 5
      (record {
        access_token = record { user_id = 2; org_id = 1; role = Role.user; sv = 0; exp = 1000 };
        refresh_token = 509;
      })
      db refl

abbrev carol : User
carol = new_user 8 1 30 78 Role.admin

abbrev requests : List Request
requests =
    register 3 4 40 1
    ∷ accept 1000 8 800 77
    ∷ change_role Tenancy.ctx 4 Role.user
    ∷ register 5 6 60 1
    ∷ []

-- The account 4 is the superadmin.
abbrev run_db : AuthDb
run_db = record db { users = alice ∷ bob ∷ new_user 4 3 40 1 Role.superadmin ∷ [] }

run_db-HasOneSuperadmin : HasOneSuperadmin run_db
unfolding find ragz.Auth.State.has_user_id superadmins ragz.Prelude.count_where
    ragz.Auth.State.is_superadmin new_user
run_db-HasOneSuperadmin = record {
  keyed = (refl, (refl, (refl, tt)));
  at_most = omega arith;
  invited = (refl, tt);
}

serve_all-HasOneSuperadmin_example :
    HasOneSuperadmin (serve_all crypto settings domain requests run_db)
    × All
        (λ u. IsSuperadmin u.id (serve_all crypto settings domain requests run_db).users)
        (select_where (λ u. is_superadmin u.role) run_db.users)
unfolding ragz.Auth.State.is_superadmin
serve_all-HasOneSuperadmin_example =
    serve_all-HasOneSuperadmin crypto settings domain requests run_db (tt, (tt, (refl, (tt, tt))))
      run_db-HasOneSuperadmin

-- A hash that takes a text to the sum of its code points.
abbrev hash : Text → ℕ
hash [] = 0
hash (c ∷ s) = c + hash s

abbrev token : Text
token = b'A' ∷ b'B' ∷ b'C' ∷ b'D' ∷ b'E' ∷ []

abbrev raw : Text
raw = raw_prefix ++ token

abbrev legal : Workspace
legal = record {
  id = 20;
  org_id = 1;
  name = "legal";
  embedding_model_id = 1;
  default_model_id = none;
}

abbrev key : ApiKey
key = new_key hash 90 0 1 2 "ci" 1 legal none token

abbrev twin : Text
twin = b'A' ∷ b'B' ∷ b'C' ∷ b'D' ∷ b'F' ∷ []

abbrev twin_key : ApiKey
twin_key = new_key hash 90 0 3 2 "cd" 1 legal none twin

shared_prefix_raises_example :
    (resolve_api_key hash 90 5 raw
      (generate_api_key hash 90 0 3 2 "cd" 1 20 none twin Tenancy.db (key ∷ [])).1).0
    ≡ err multiple_results_found
unfolding generate_api_key find ragz.Prelude.any ragz.Tenancy.State.is_member_row select_where
    has_prefix ragz.Auth.ApiKeys.text_eq ragz.Auth.ApiKeys.starts_with
shared_prefix_raises_example =
    shared_prefix_raises hash 90 0 5 3 2 "cd" 1 20 none twin (raw_prefix ++ twin) raw twin_key key
      [] Tenancy.db (key ∷ []) refl refl refl refl

-- `key` is revoked, and `twin_key`, alone under its prefix, still resolves.
abbrev other_key : ApiKey
other_key = new_key hash 90 0 3 2 "cd" 1 legal none (b'Z' ∷ twin)
