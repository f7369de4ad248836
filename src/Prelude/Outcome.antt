-- ===== src/Prelude/Outcome.antt =====
-- core/errors.py: the typed errors that a service raises, and what a request handler returns: a
-- result beside the state that it left committed.
use mathlib.Core.Path.{◌≡◌, refl}
use mathlib.Core.Logic.{◌⊎◌, inl, inr}
use mathlib.Core.Bool.{Bool, true, false}

pub data Error : Type 0 where
  authentication authorization not_found conflict rate_limit_exceeded : Error
  workspace_access_denied quota_exceeded org_resource_quota_exceeded : Error
  upstream_error no_result_found multiple_results_found : Error

pub data Result {ℓ} (A : Type ℓ) : Type ℓ where
  ok : A → Result A
  err : Error → Result A

-- Does a call return?
abbrev pub is_ok {ℓ} : {A : Type ℓ} → Result A → Bool
is_ok (ok a) = true
is_ok (err e) = false

-- To split on what a call returns and keep the equation.
pub Result-cases {ℓ} :
    {A : Type ℓ} (r : Result A) → ((a : A) × (r ≡ ok a)) ⊎ ((e : Error) × (r ≡ err e))
Result-cases (ok a) = inl (a, refl)
Result-cases (err e) = inr (e, refl)

-- What a request leaves committed: on an error the tables are as they were.
abbrev pub transaction {ℓ κ} : {A : Type ℓ} {S : Type κ} → S → Result (A × S) → Result A × S
transaction s (err e) = (err e, s)
transaction s (ok (a, s')) = (ok a, s')

-- `if not condition: raise error`
abbrev pub require : Bool → Error → Result (Unit {0})
require condition error = elim condition [ false ↦ err error | true ↦ ok tt ]

-- A call, and what follows it unless it raises.
infixl 5 ◌>>=◌ ◌>>◌
abbrev pub ◌>>=◌ {ℓ κ} :
    {Got : Type ℓ} {Next : Type κ} → Result Got → (Got → Result Next) → Result Next
err error >>= next = err error
ok got >>= next = next got

abbrev pub ◌>>◌ {κ} : {Next : Type κ} → Result (Unit {0}) → Result Next → Result Next
err error >> next = err error
ok _ >> next = next
