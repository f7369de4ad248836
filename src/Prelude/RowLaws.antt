-- ===== src/Prelude/RowLaws.antt =====
-- Laws of the queries on tables.
use Prim.Native.Nat.{suc}
use mathlib.Core.Path.{◌≡◌, refl, ap, ◌∙◌}
use mathlib.Core.Logic.{inl, inr}
use mathlib.Core.Bool.{Bool, true, false, ◌||◌}
use mathlib.Core.Option
use mathlib.Core.Option.{Option, none, some}
use mathlib.Core.List.{List, [], ◌∷◌, ◌++◌}
use native.Mathlib.Omega.{arith}
use ragz.Prelude.Tests.{if◌then◌else◌, Bool-cases}
use ragz.Prelude.Lists.{length, All}
use ragz.Prelude.Rows.{find, any, select_where, update_where, delete_where, count_where}

module _ {ℓ} {A : Type ℓ} where
  pub find_holds : (p : A → Bool) (xs : List A) {a : A} → find p xs ≡ some a → p a ≡ true
  unfolding find
  find_holds p [] h = ground arith
  find_holds p (x ∷ xs) {a} h = ground (arith, find_holds p xs {a = a})

  pub find-append :
      (p : A → Bool) (xs ys : List A) → find p xs ≡ none → find p (xs ++ ys) ≡ find p ys
  unfolding find
  find-append p [] ys h = refl
  find-append p (x ∷ xs) ys h = ground (arith, find-append p xs ys)

  pub find-append_some :
      (p : A → Bool) (xs ys : List A) {a : A} → find p xs ≡ some a → find p (xs ++ ys) ≡ some a
  unfolding find
  find-append_some p [] ys h = ground arith
  find-append_some p (x ∷ xs) ys {a} h = ground (arith, find-append_some p xs ys {a = a})

  -- An update that keeps the condition of the lookup maps what is found.
  pub find-update_where :
      (p q : A → Bool) (f : A → A) (xs : List A)
      → ((a : A) → p (f a) ≡ p a)
      → find p (update_where q f xs) ≡ Option.map (λ a. if q a then f a else a) (find p xs)
  unfolding find update_where
  find-update_where p q f [] keep = refl
  find-update_where p q f (x ∷ xs) keep = ground (arith, keep x, find-update_where p q f xs keep)

  pub any-append : (p : A → Bool) (xs ys : List A) → any p (xs ++ ys) ≡ any p xs || any p ys
  unfolding any
  any-append p [] ys = refl
  any-append p (x ∷ xs) ys = ground (arith, any-append p xs ys)

  pub length-update_where :
      (q : A → Bool) (f : A → A) (xs : List A) → length (update_where q f xs) ≡ length xs
  unfolding update_where
  length-update_where q f [] = refl
  length-update_where q f (x ∷ xs) = ap suc (length-update_where q f xs)

  -- A deletion that spares the row keeps it.
  pub find-delete_where :
      (p q : A → Bool) (xs : List A) {a : A}
      → find p xs ≡ some a
      → q a ≡ false
      → find p (delete_where q xs) ≡ some a
  unfolding find delete_where
  find-delete_where p q [] h keep = absurd (ground arith)
  find-delete_where p q (x ∷ xs) {a} h keep = elim (Bool-cases (p x)) [
    | inl hit ↦ let same : x ≡ a = ground arith in rw (ap q same ∙ keep, hit) (ap some same)
    | inr miss ↦ elim (Bool-cases (q x)) [
      | inl gone ↦ rw gone (find-delete_where p q xs (rw miss at h) keep)
      | inr stays ↦ rw (stays, miss) (find-delete_where p q xs (rw miss at h) keep)
    ]
  ]

  -- A deletion that takes no row of a kind keeps their number.
  pub count_where-delete_where :
      (p q : A → Bool) (xs : List A)
      → All (λ a. q a ≡ true → p a ≡ false) xs
      → count_where p (delete_where q xs) ≡ count_where p xs
  unfolding count_where delete_where
  count_where-delete_where p q [] apart = refl
  count_where-delete_where p q (x ∷ xs) apart = elim (Bool-cases (q x)) [
    | inl gone ↦ rw (gone, apart.0 gone, count_where-delete_where p q xs apart.1) (omega arith)
    | inr stays ↦ rw (stays, count_where-delete_where p q xs apart.1) refl
  ]

module _ {ℓ κ} {A : Type ℓ} (P : A → Type κ) where
  pub find-All : (p : A → Bool) (xs : List A) {a : A} → find p xs ≡ some a → All P xs → P a
  unfolding find
  find-All p [] h all = absurd (ground arith)
  find-All p (x ∷ xs) {a} h all = elim (Bool-cases (p x)) [
    | inl found ↦ let e : x ≡ a = ground arith in rw e at all.0
    | inr other ↦ find-All p xs (rw other at h) all.1
  ]

  pub All-select_where : (p : A → Bool) (xs : List A) → All P xs → All P (select_where p xs)
  unfolding select_where
  All-select_where p [] all = tt
  All-select_where p (x ∷ xs) all = elim (Bool-cases (p x)) [
    | inl e ↦ rw e (all.0, All-select_where p xs all.1)
    | inr e ↦ rw e (All-select_where p xs all.1)
  ]

  pub All-delete_where : (p : A → Bool) (xs : List A) → All P xs → All P (delete_where p xs)
  unfolding delete_where
  All-delete_where p [] all = tt
  All-delete_where p (x ∷ xs) all = elim (Bool-cases (p x)) [
    | inl e ↦ rw e (All-delete_where p xs all.1)
    | inr e ↦ rw e (all.0, All-delete_where p xs all.1)
  ]

-- An update takes rows that satisfy `P` to rows that satisfy `Q`.
pub All-update_where {ℓ κ ι} :
    {A : Type ℓ} (P : A → Type κ) (Q : A → Type ι) (q : A → Bool) (f : A → A) (xs : List A)
    → ((a : A) → q a ≡ true → P a → Q (f a))
    → ((a : A) → q a ≡ false → P a → Q a)
    → All P xs
    → All Q (update_where q f xs)
unfolding update_where
All-update_where P Q q f [] hit miss all = tt
All-update_where P Q q f (x ∷ xs) hit miss all = elim (Bool-cases (q x)) [
  | inl e ↦ rw e (hit x e all.0, All-update_where P Q q f xs hit miss all.1)
  | inr e ↦ rw e (miss x e all.0, All-update_where P Q q f xs hit miss all.1)
]

-- A predicate that every value satisfies holds of every row.
pub All-intro {ℓ κ} : {A : Type ℓ} (P : A → Type κ) (xs : List A) → ((a : A) → P a) → All P xs
All-intro P [] h = tt
All-intro P (x ∷ xs) h = (h x, All-intro P xs h)

-- No row meets a condition that every row fails.
pub any-false {ℓ} :
    {A : Type ℓ} (p : A → Bool) (xs : List A) → All (λ a. p a ≡ false) xs → any p xs ≡ false
unfolding any
any-false p [] all = refl
any-false p (x ∷ xs) all = ground (arith, any-false p xs all.1)

pub find-none {ℓ} :
    {A : Type ℓ} (p : A → Bool) (xs : List A) → All (λ a. p a ≡ false) xs → find p xs ≡ none
unfolding find
find-none p [] all = refl
find-none p (x ∷ xs) all = ground (arith, find-none p xs all.1)

pub All-of_none {ℓ} :
    {A : Type ℓ} (p : A → Bool) (xs : List A) → find p xs ≡ none → All (λ a. p a ≡ false) xs
unfolding find
All-of_none p [] h = tt
All-of_none p (x ∷ xs) h = elim (Bool-cases (p x)) [
  | inl e ↦ absurd (ground arith)
  | inr e ↦ (e, All-of_none p xs (rw e at h))
]

-- The same, where nothing is known of the rows before the update.
pub update_where-All {ℓ κ} :
    {A : Type ℓ} (Q : A → Type κ) (q : A → Bool) (f : A → A) (xs : List A)
    → ((a : A) → q a ≡ true → Q (f a))
    → ((a : A) → q a ≡ false → Q a)
    → All Q (update_where q f xs)
unfolding update_where
update_where-All Q q f [] hit miss = tt
update_where-All Q q f (x ∷ xs) hit miss = elim (Bool-cases (q x)) [
  | inl e ↦ rw e (hit x e, update_where-All Q q f xs hit miss)
  | inr e ↦ rw e (miss x e, update_where-All Q q f xs hit miss)
]

-- Conditions that agree on the rows select and update the same.
module _ {ℓ} {A : Type ℓ} (p q : A → Bool) where
  pub select_where_cong :
      (xs : List A) → All (λ a. p a ≡ q a) xs → select_where p xs ≡ select_where q xs
  unfolding select_where
  select_where_cong [] same = refl
  select_where_cong (x ∷ xs) same = ground (arith, same.0, select_where_cong xs same.1)

  pub update_where_cong :
      (f : A → A) (xs : List A)
      → All (λ a. p a ≡ q a) xs
      → update_where p f xs ≡ update_where q f xs
  unfolding update_where
  update_where_cong f [] same = refl
  update_where_cong f (x ∷ xs) same = ground (arith, same.0, update_where_cong f xs same.1)

-- Two updates of the same rows are one, where the first keeps the condition.
pub update_where-update_where {ℓ} :
    {A : Type ℓ} (p : A → Bool) (f g : A → A) (xs : List A)
    → ((a : A) → p (f a) ≡ p a)
    → update_where p g (update_where p f xs) ≡ update_where p (λ a. g (f a)) xs
unfolding update_where
update_where-update_where p f g [] keep = refl
update_where-update_where p f g (x ∷ xs) keep =
    ground (arith, keep x, update_where-update_where p f g xs keep)

-- No row that is selected meets a condition that no selected row meets.
pub All-of_any-false {ℓ} :
    {A : Type ℓ} (p q : A → Bool) (xs : List A)
    → any p (select_where q xs) ≡ false
    → All (λ a. q a ≡ true → p a ≡ false) xs
unfolding any select_where
All-of_any-false p q [] h = tt
All-of_any-false p q (x ∷ xs) h = elim (Bool-cases (q x)) [
  | inl e ↦ (λ _. ground (arith, e), All-of_any-false p q xs (ground (arith, e)))
  | inr e ↦ (λ e'. absurd (ground arith), All-of_any-false p q xs (rw e at h))
]

pub All-both {ℓ κ ι} :
    {A : Type ℓ} (P : A → Type κ) (Q : A → Type ι) (xs : List A)
    → All P xs
    → All Q xs
    → All (λ a. P a × Q a) xs
All-both P Q [] h k = tt
All-both P Q (x ∷ xs) h k = ((h.0, k.0), All-both P Q xs h.1 k.1)

-- What a selection keeps also meets its condition.
pub All-selected {ℓ κ ι} :
    {A : Type ℓ} (P : A → Type κ) (Q : A → Type ι) (p : A → Bool) (xs : List A)
    → ((a : A) → p a ≡ true → P a → Q a)
    → All P xs
    → All Q (select_where p xs)
unfolding select_where
All-selected P Q p [] f h = tt
All-selected P Q p (x ∷ xs) f h = elim (Bool-cases (p x)) [
  | inl e ↦ rw e (f x e h.0, All-selected P Q p xs f h.1)
  | inr e ↦ rw e (All-selected P Q p xs f h.1)
]

-- What holds of every row that is selected, as a statement on all rows.
pub All-unselected {ℓ κ} :
    {A : Type ℓ} (P : A → Type κ) (p : A → Bool) (xs : List A)
    → All P (select_where p xs)
    → All (λ a. p a ≡ true → P a) xs
unfolding select_where
All-unselected P p [] h = tt
All-unselected P p (x ∷ xs) h = elim (Bool-cases (p x)) [
  | inl e ↦ let (here, rest) = rw e at h in (λ _. here, All-unselected P p xs rest)
  | inr e ↦ (λ e'. absurd (ground arith), All-unselected P p xs (rw e at h))
]

-- No row that a deletion leaves meets its condition.
pub All-deleted {ℓ} :
    {A : Type ℓ} (p : A → Bool) (xs : List A) → All (λ a. p a ≡ false) (delete_where p xs)
unfolding delete_where
All-deleted p [] = tt
All-deleted p (x ∷ xs) = elim (Bool-cases (p x)) [
  | inl e ↦ rw e (All-deleted p xs)
  | inr e ↦ rw e (e, All-deleted p xs)
]
