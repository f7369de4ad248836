-- ===== src/Tenancy/Versions.antt =====
-- The history of a role template: modules/tenancy/service.py, `activate_role_template` and
-- `rollback_role_template`.
use ragz.Prelude.{
  is_ok, any-false, false, ℕ, ◌+◌, ◌≤◌, ◌<◌, ◌≡◌, refl, true, some, List, [], ◌∷◌, ◌++◌, inl, inr,
  ok, arith, Bool-cases, ==_iff, ◌==◌, All, find, find_holds, select_where, update_where, ◌∙◌, ap,
  All-map, All-append,
}
use ragz.Tenancy.State.{
  TenancyDb, TenantContext, RoleTemplate, RoleTemplateVersion, has_template_id,
}
use ragz.Tenancy.Roles.{
  has_version, activate_role_template, rollback_role_template, history, sort_desc, insert_desc,
  previous_version, snapshot, activated, set_template, activate,
}

-- The history of a template holds no version above the template's own.
abbrev pub IsVersioned : RoleTemplate → TenancyDb → Type 0
IsVersioned t db =
    All (λ v. (v.role_template_id == t.id) ≡ true → v.version ≤ t.version) db.role_template_versions

-- A row above all others comes first.
insert_desc-first :
    (v w : RoleTemplateVersion) (ws : List RoleTemplateVersion)
    → w.version < v.version
    → insert_desc w (v ∷ ws) ≡ v ∷ insert_desc w ws
unfolding insert_desc
insert_desc-first v w ws h = ground arith

history_snoc :
    (k : ℕ) (v : RoleTemplateVersion) (vs : List RoleTemplateVersion)
    → v.role_template_id ≡ k
    → All (λ w. (w.role_template_id == k) ≡ true → w.version < v.version) vs
    → sort_desc (select_where (λ w. w.role_template_id == k) (vs ++ (v ∷ [])))
      ≡ v ∷ sort_desc (select_where (λ w. w.role_template_id == k) vs)
unfolding sort_desc select_where
history_snoc k v [] e below = rw e (ground arith)
history_snoc k v (w ∷ vs) e below = elim (Bool-cases (w.role_template_id == k)) [
  | inl mine ↦ rw (mine, history_snoc k v vs e below.1) (insert_desc-first v w _ (below.0 mine))
  | inr other ↦ rw other (history_snoc k v vs e below.1)
]

find_replaced :
    (k : ℕ) (t : RoleTemplate) (ts : List RoleTemplate) {s : RoleTemplate}
    → t.id ≡ k
    → find (has_template_id k) ts ≡ some s
    → find (has_template_id k) (update_where (has_template_id t.id) (λ _. t) ts) ≡ some t
unfolding find update_where
find_replaced k t [] e found = absurd (ground arith)
find_replaced k t (x ∷ ts) {s} e found =
    let mine : has_template_id k t ≡ true = unfold has_template_id in ground arith in
    let same : has_template_id t.id x ≡ has_template_id k x = ap (λ i. has_template_id i x) e in
    elim (Bool-cases (has_template_id k x)) [
      | inl hit ↦ rw (same, hit, mine) refl
      | inr miss ↦ rw (same, miss, miss) (find_replaced k t ts {s = s} e (rw miss at found))
    ]

find-set_template :
    (k : ℕ) (t s : RoleTemplate) (db : TenancyDb)
    → find (has_template_id k) db.role_templates ≡ some s
    → t.id ≡ k
    → find (has_template_id k) (set_template t db).role_templates ≡ some t
unfolding set_template
find-set_template k t s db found e = find_replaced k t db.role_templates e found

template_id :
    (k : ℕ) (t : RoleTemplate) (db : TenancyDb)
    → find (has_template_id k) db.role_templates ≡ some t
    → t.id ≡ k
template_id k t db h =
    (==_iff t.id k).0 (unfold has_template_id in find_holds (λ v. v.id == k) db.role_templates h)

-- The template `k` is `t`, its history is `vs`, newest first, and no version is above the current.
pub record HasHistory (k : ℕ) (t : RoleTemplate) (vs : List RoleTemplateVersion) (db : TenancyDb)
    : Type 0 where
  pub found : find (has_template_id k) db.role_templates ≡ some t
  pub versions : history k db ≡ vs
  pub versioned : IsVersioned t db

-- The next version is free.
next_is_free :
    (t : RoleTemplate) (db : TenancyDb)
    → IsVersioned t db
    → has_version t.id (t.version + 1) db ≡ false
unfolding has_version
next_is_free t db h = any-false _ db.role_template_versions (
    All-map (λ v. (v.role_template_id == t.id) ≡ true → v.version ≤ t.version) _
      db.role_template_versions (λ v le. ground (arith, le)) h)

activate_done :
    (ctx : TenantContext) (k : ℕ) (t : RoleTemplate) (db : TenancyDb)
    → find (has_template_id k) db.role_templates ≡ some t
    → IsVersioned t db
    → activate_role_template ctx k db ≡ (ok (activated t), activate ctx t db)
unfolding activate_role_template
activate_done ctx k t db found versioned =
    let free : has_version t.id (t.version + 1) db ≡ false = next_is_free t db versioned in
    ground arith

rollback_done :
    (ctx : TenantContext) (k : ℕ) (t : RoleTemplate) (v w : RoleTemplateVersion)
    (vs : List RoleTemplateVersion) (db : TenancyDb)
    → find (has_template_id k) db.role_templates ≡ some t
    → history k db ≡ v ∷ w ∷ vs
    → is_ok
        (activate_role_template ctx k
          (set_template (record t { permissions = w.permissions }) db)).0
      ≡ true
    → rollback_role_template ctx k db
      ≡ activate_role_template ctx k (set_template (record t { permissions = w.permissions }) db)
rollback_done ctx k t v w vs db found e done =
    unfold rollback_role_template previous_version in ground arith

find-activate :
    (ctx : TenantContext) (k : ℕ) (t : RoleTemplate) (db : TenancyDb)
    → find (has_template_id k) db.role_templates ≡ some t
    → t.id ≡ k
    → find (has_template_id k) (activate ctx t db).role_templates ≡ some (activated t)
unfolding activate
find-activate ctx k t db found e = find-set_template k (activated t) t db found e

history-activate :
    (ctx : TenantContext) (k : ℕ) (t : RoleTemplate) (db : TenancyDb)
    → t.id ≡ k
    → IsVersioned t db
    → history k (activate ctx t db) ≡ snapshot (activated t) ∷ history k db
unfolding activate history
history-activate ctx k t db e h =
    history_snoc k (snapshot (activated t)) db.role_template_versions e
      (All-map _ _ db.role_template_versions (λ v le mine. omega (arith, le (rw e mine))) h)

activate-IsVersioned :
    (ctx : TenantContext) (t : RoleTemplate) (db : TenancyDb)
    → IsVersioned t db
    → IsVersioned (activated t) (activate ctx t db)
unfolding activate
activate-IsVersioned ctx t db h =
    All-append _ db.role_template_versions _
      (All-map _ _ db.role_template_versions (λ v le mine. omega (arith, le mine)) h)
      (λ _. omega arith, tt)

-- An activation makes the template active under the next version, and adds what it activates to the
-- front of the history, which keeps all it held.
pub activate_role_template-HasHistory :
    (ctx : TenantContext) (k : ℕ) (t : RoleTemplate) (vs : List RoleTemplateVersion)
    (db : TenancyDb)
    → HasHistory k t vs db
    → let (result, db') = activate_role_template ctx k db in
      (result ≡ ok (activated t)) × HasHistory k (activated t) (snapshot (activated t) ∷ vs) db'
activate_role_template-HasHistory ctx k t vs db h =
    let e : t.id ≡ k = template_id k t db h.found in
    rw (activate_done ctx k t db h.found h.versioned) (
      refl,
      record {
        found = find-activate ctx k t db h.found e;
        versions =
            history-activate ctx k t db e h.versioned
            ∙ ap (λ l. snapshot (activated t) ∷ l) h.versions;
        versioned = activate-IsVersioned ctx t db h.versioned;
      },
    )

-- Storing other permissions leaves the history as it was.
set_template-HasHistory :
    (k : ℕ) (t t' : RoleTemplate) (vs : List RoleTemplateVersion) (db : TenancyDb)
    → HasHistory k t vs db
    → t'.id ≡ t.id
    → t'.version ≡ t.version
    → HasHistory k t' vs (set_template t' db)
set_template-HasHistory k t t' vs db h same_id same_version = record {
  found = find-set_template k t' t db h.found (same_id ∙ template_id k t db h.found);
  versions = unfold set_template history in h.versions;
  versioned =
      unfold set_template in
      All-map _ _ db.role_template_versions
        (λ v le mine. omega (arith, le (mine_of v mine), same_version)) h.versioned;
}
  where
    mine_of :
        (v : RoleTemplateVersion)
        → (v.role_template_id == t'.id) ≡ true
        → (v.role_template_id == t.id) ≡ true
    mine_of v m = ground arith

pub rollback_role_template-HasHistory :
    (ctx : TenantContext) (k : ℕ) (t : RoleTemplate) (v w : RoleTemplateVersion)
    (vs : List RoleTemplateVersion) (db : TenancyDb)
    → HasHistory k t (v ∷ w ∷ vs) db
    → let (result, db') = rollback_role_template ctx k db in
      let t' = activated (record t { permissions = w.permissions }) in
      (result ≡ ok t') × HasHistory k t' (snapshot t' ∷ v ∷ w ∷ vs) db'
rollback_role_template-HasHistory ctx k t v w vs db h =
    let restored : RoleTemplate = record t { permissions = w.permissions } in
    let step =
      activate_role_template-HasHistory ctx k restored (v ∷ w ∷ vs) (set_template restored db)
        (set_template-HasHistory k t restored (v ∷ w ∷ vs) db h refl refl) in
    rw (rollback_done ctx k t v w vs db h.found h.versions (ap is_ok step.0)) step

-- A rollback restores the permissions of the version before the current one, and a second rollback
-- takes them back to those of the version that was current first: the history only grows.
pub rollback_twice :
    (ctx : TenantContext) (k : ℕ) (t : RoleTemplate) (v w : RoleTemplateVersion)
    (vs : List RoleTemplateVersion) (db : TenancyDb)
    → HasHistory k t (v ∷ w ∷ vs) db
    → let (_, db') = rollback_role_template ctx k db in
      let (_, db'') = rollback_role_template ctx k db' in
      (t' t'' : RoleTemplate) × (find (has_template_id k) db'.role_templates ≡ some t')
      × (t'.permissions ≡ w.permissions)
      × (find (has_template_id k) db''.role_templates ≡ some t'')
      × (t''.permissions ≡ v.permissions)
      × (t''.version ≡ t.version + 2)
rollback_twice ctx k t v w vs db h =
    let first = rollback_role_template-HasHistory ctx k t v w vs db h in
    let t' = activated (record t { permissions = w.permissions }) in
    let second =
      rollback_role_template-HasHistory ctx k t' (snapshot t') v (w ∷ vs)
        (rollback_role_template ctx k db).1 first.1 in
    let t'' = activated (record t' { permissions = v.permissions }) in
    (
      t',
      t'',
      first.1.found,
      unfold activated in refl,
      second.1.found,
      unfold activated in refl,
      unfold activated in omega arith,
    )
