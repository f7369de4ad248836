-- ===== src/Tenancy/Tokens.antt =====
-- Access tokens across a change of password: modules/auth/service.py, `change_password`, and
-- modules/tenancy/context.py, `get_tenant_context`.
use ragz.Prelude.{
  ℕ, ◌+◌, ◌≤◌, ◌<◌, ◌≡◌, refl, true, none, some, authentication, ok, err, arith, find,
}
use ragz.Auth.State.{User, AuthDb, Crypto, Settings, Claims, has_user_id}
use ragz.Auth.Refresh.{issue_access_token}
use ragz.Auth.Passwords.{change_password, set_password}
use ragz.Auth.Credentials.{change_password_signs_out}
use ragz.Tenancy.State.{TenancyDb}
use ragz.Tenancy.Context.{get_tenant_context, build_context_for_user}

stale_rejected :
    (now : ℕ) (claims : Claims) (u : User) (db : TenancyDb)
    → find (has_user_id claims.user_id) db.users ≡ some u
    → claims.sv < u.security_version
    → get_tenant_context now (some claims) db ≡ err authentication
unfolding get_tenant_context
stale_rejected now claims u db found old = ground arith

current_accepted :
    (now : ℕ) (claims : Claims) (u : User) (db : TenancyDb)
    → find (has_user_id claims.user_id) db.users ≡ some u
    → claims.sv ≡ u.security_version
    → now < claims.exp
    → u.active ≡ true
    → get_tenant_context now (some claims) db ≡ ok (build_context_for_user u none db)
unfolding get_tenant_context
current_accepted now claims u db found same fits on = ground arith

-- After a change of password every access token minted for the user before it is refused, however
-- long it had still to run; one minted for the user after it is accepted until it expires.
pub password_change_ends_tokens :
    (crypto : Crypto) (settings : Settings) (now later current_password new_password : ℕ)
    (claims : Claims) (u : User) (db : AuthDb) (tenancy : TenancyDb)
    → find (has_user_id u.id) db.users ≡ some u
    → crypto.verify_password u.password_hash current_password ≡ true
    → tenancy.users ≡ (change_password crypto now u.id current_password new_password db).1.users
    → claims.user_id ≡ u.id
    → claims.sv ≤ u.security_version
    → u.active ≡ true
    → later < now + settings.access_token_ttl_seconds
    → let u' = set_password (crypto.hash_password new_password) u in
      (get_tenant_context later (some claims) tenancy ≡ err authentication)
      × (get_tenant_context later (some (issue_access_token settings now u')) tenancy
          ≡ ok (build_context_for_user u' none tenancy))
password_change_ends_tokens crypto settings now later current_password new_password claims u db
      tenancy found right same owner old on fits =
    let u' = set_password (crypto.hash_password new_password) u in
    let stored : find (has_user_id u.id) tenancy.users ≡ some u' =
      rw same
        (change_password_signs_out crypto now current_password new_password u db found right).1 in
    (
      stale_rejected later claims u' tenancy (rw owner stored) (unfold set_password in omega arith),
      current_accepted later (issue_access_token settings now u') u' tenancy
          (unfold issue_access_token set_password in stored) (unfold issue_access_token in refl)
          (unfold issue_access_token in fits) (unfold set_password in on),
    )
