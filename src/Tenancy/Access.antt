-- ===== src/Tenancy/Access.antt =====
-- What a context grants: modules/tenancy/context.py and permissions.py.
use ragz.Prelude.{
  ℕ, ◌≡◌, refl, Bool, true, false, not, ◌&&◌, ◌||◌, Option, none, some, List, [], ◌∷◌, ◌++◌, inl,
  inr, ap, is_ok, arith, Bool-cases, Option-cases, find, select_where, str_elem, str_eq, eq_iff,
  String,
}
use ragz.Auth.State.{User, admin, is_superadmin}
use ragz.Tenancy.State.{TenancyDb, RoleTemplate, has_template_id, is_admin_tier}
use ragz.Tenancy.Permissions.{permissions, default_user_permissions, automatic_carve_outs, without}
use ragz.Tenancy.Context.{
  build_context_for_user, require_action, admin_permissions, user_permissions,
}

pub str_elem-append :
    (x : String) (xs ys : List String) → str_elem x (xs ++ ys) ≡ str_elem x xs || str_elem x ys
unfolding str_elem
str_elem-append x [] ys = refl
str_elem-append x (y ∷ xs) ys = ground (arith, str_elem-append x xs ys)

str_elem_of_eq :
    (x y : String) (ys : List String) → str_eq x y ≡ true → str_elem x ys ≡ str_elem y ys
str_elem_of_eq x y ys h = ap (λ z. str_elem z ys) ((eq_iff x y).0 h)

pub str_elem-without :
    (x : String) (xs ys : List String)
    → str_elem x (without xs ys) ≡ str_elem x xs && not (str_elem x ys)
unfolding without str_elem select_where
str_elem-without x [] ys = refl
str_elem-without x (y ∷ xs) ys = ground (arith, str_elem-without x xs ys, str_elem_of_eq x y ys)

-- No name of the first list is in the second.
apart : List String → List String → Bool
apart [] ys = true
apart (x ∷ xs) ys = not (str_elem x ys) && apart xs ys

apart_sound :
    (a : String) (xs ys : List String)
    → apart xs ys ≡ true
    → str_elem a xs ≡ true
    → str_elem a ys ≡ false
unfolding apart str_elem
apart_sound a [] ys h m = ground arith
apart_sound a (x ∷ xs) ys h m = ground (arith, apart_sound a xs ys, str_elem_of_eq a x ys)

-- The floor of a user with no template holds no carve-out.
floor_has_no_carve_out :
    (a : String)
    → str_elem a automatic_carve_outs ≡ true
    → str_elem a default_user_permissions ≡ false
floor_has_no_carve_out a h =
    apart_sound a automatic_carve_outs default_user_permissions
      (unfold apart str_elem automatic_carve_outs default_user_permissions in refl) h

-- The action is granted by the role template that the user is assigned.
abbrev pub FromTemplate : String → User → TenancyDb → Type 0
FromTemplate a u db =
    (k : ℕ) × (t : RoleTemplate) × (u.custom_role_id ≡ some k)
    × (find (has_template_id k) db.role_templates ≡ some t)
    × (str_elem a t.permissions ≡ true)

admin_carve_out :
    (a : String) (c : Option ℕ) (db : TenancyDb)
    → str_elem a automatic_carve_outs ≡ true
    → str_elem a (admin_permissions c db) ≡ true
    → (k : ℕ) × (t : RoleTemplate) × (c ≡ some k)
      × (find (has_template_id k) db.role_templates ≡ some t)
      × (str_elem a t.permissions ≡ true)
unfolding admin_permissions
admin_carve_out a none db carved held =
    absurd (ground (arith, str_elem-without a permissions automatic_carve_outs))
admin_carve_out a (some k) db carved held =
    elim (Option-cases (find (has_template_id k) db.role_templates)) [
      | inl gone ↦ absurd (ground (arith, str_elem-without a permissions automatic_carve_outs))
      | inr (t, e) ↦ (
        k,
        t,
        refl,
        e,
        ground (
          arith,
          str_elem-append a (without permissions automatic_carve_outs) t.permissions,
          str_elem-without a permissions automatic_carve_outs,
        ),
      )
    ]

user_carve_out :
    (a : String) (c : Option ℕ) (db : TenancyDb)
    → str_elem a automatic_carve_outs ≡ true
    → str_elem a (user_permissions c db) ≡ true
    → (k : ℕ) × (t : RoleTemplate) × (c ≡ some k)
      × (find (has_template_id k) db.role_templates ≡ some t)
      × (str_elem a t.permissions ≡ true)
unfolding user_permissions
user_carve_out a none db carved held = absurd (ground (arith, floor_has_no_carve_out a carved))
user_carve_out a (some k) db carved held =
    elim (Option-cases (find (has_template_id k) db.role_templates)) [
      | inl gone ↦ absurd (unfold str_elem in ground arith)
      | inr (t, e) ↦ (k, t, refl, e, ground arith)
    ]

-- Whoever holds a carve-out, of any tier and in any workspace, has it from an assigned role template
-- that exists.
pub carve_out_needs_template :
    (a : String) (u : User) (workspaces : Option (List ℕ)) (db : TenancyDb)
    → str_elem a automatic_carve_outs ≡ true
    → str_elem a (build_context_for_user u workspaces db).permissions ≡ true
    → FromTemplate a u db
unfolding build_context_for_user
carve_out_needs_template a u workspaces db carved held = elim (Bool-cases (is_admin_tier u.role)) [
  | inl e ↦ admin_carve_out a u.custom_role_id db carved (rw e at held)
  | inr e ↦ user_carve_out a u.custom_role_id db carved (rw e at held)
]

-- An administrator with no template passes the guard of an action exactly when the catalogue has it
-- and it is no carve-out.
pub admin_may :
    (a : String) (u : User) (workspaces : Option (List ℕ)) (db : TenancyDb)
    → u.role ≡ admin
    → u.custom_role_id ≡ none
    → is_ok (require_action a (build_context_for_user u workspaces db) db).0
      ≡ (str_elem a permissions && not (str_elem a automatic_carve_outs))
unfolding build_context_for_user require_action is_admin_tier is_superadmin
admin_may a u workspaces db tier bare =
    ground (arith, str_elem-without a permissions automatic_carve_outs)
