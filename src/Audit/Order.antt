-- ===== src/Audit/Order.antt =====
-- modules/audit/service.py: the order of the events, and what is below a key in it.
use ragz.Prelude.{
  ◌≡◌, refl, Bool, true, false, List, [], ◌∷◌, ◌++◌, ◌==◌, arith, inl, inr, Bool-cases, All,
  All-map, All-select_where, select_where,
}
use ragz.Audit.{AuditRow, is_below, key, insert_row, newest_first}

-- Each row is newer than all that follow it.
abbrev pub IsDescending : List AuditRow → Type 0
IsDescending [] = Unit
IsDescending (r ∷ rs) = All (λ r'. is_below (key r) r' ≡ true) rs × IsDescending rs

-- No two rows have one id.
abbrev pub HaveOwnIds : List AuditRow → Type 0
HaveOwnIds [] = Unit
HaveOwnIds (r ∷ rs) = All (λ r'. (r'.id == r.id) ≡ false) rs × HaveOwnIds rs

below_trans :
    (a b c : AuditRow)
    → is_below (key a) b ≡ true
    → is_below (key b) c ≡ true
    → is_below (key a) c ≡ true
unfolding is_below
below_trans a b c h k = ground (arith, h, k)

above_other :
    (a b : AuditRow)
    → (b.id == a.id) ≡ false
    → is_below (key a) b ≡ false
    → is_below (key b) a ≡ true
unfolding is_below
above_other a b other h = ground (arith, other, h)

not_below_self : (a : AuditRow) → is_below (key a) a ≡ false
unfolding is_below
not_below_self a = ground arith

not_below_newer : (a b : AuditRow) → is_below (key a) b ≡ true → is_below (key b) a ≡ false
unfolding is_below
not_below_newer a b h = ground (arith, h)

All-insert :
    (P : AuditRow → Type 0) (r : AuditRow) (rs : List AuditRow)
    → P r
    → All P rs
    → All P (insert_row r rs)
unfolding insert_row
All-insert P r [] h hs = (h, tt)
All-insert P r (x ∷ xs) h hs = elim (Bool-cases (is_below (key r) x)) [
  | inl e ↦ rw e (h, hs)
  | inr e ↦ rw e (hs.0, All-insert P r xs h hs.1)
]

insert-IsDescending :
    (r : AuditRow) (rs : List AuditRow)
    → All (λ r'. (r'.id == r.id) ≡ false) rs
    → IsDescending rs
    → IsDescending (insert_row r rs)
unfolding insert_row
insert-IsDescending r [] apart h = (tt, tt)
insert-IsDescending r (x ∷ xs) apart h = elim (Bool-cases (is_below (key r) x)) [
  | inl e ↦ rw e (
    (
      e,
      All-map (λ y. is_below (key x) y ≡ true) (λ y. is_below (key r) y ≡ true) xs
          (λ y. below_trans r x y e) h.0,
    ),
    h,
  )
  | inr e ↦ rw e (
    All-insert (λ y. is_below (key x) y ≡ true) r xs (above_other r x apart.0 e) h.0,
    insert-IsDescending r xs apart.1 h.1,
  )
]

All-newest_first :
    (P : AuditRow → Type 0) (rows : List AuditRow) → All P rows → All P (newest_first rows)
unfolding newest_first
All-newest_first P [] h = tt
All-newest_first P (r ∷ rs) h = All-insert P r (newest_first rs) h.0 (All-newest_first P rs h.1)

pub newest_first-IsDescending :
    (rows : List AuditRow) → HaveOwnIds rows → IsDescending (newest_first rows)
unfolding newest_first
newest_first-IsDescending [] h = tt
newest_first-IsDescending (r ∷ rs) h =
    insert-IsDescending r (newest_first rs)
      (All-newest_first (λ r'. (r'.id == r.id) ≡ false) rs h.0) (newest_first-IsDescending rs h.1)

pub select-IsDescending :
    (p : AuditRow → Bool) (rows : List AuditRow)
    → IsDescending rows
    → IsDescending (select_where p rows)
unfolding select_where
select-IsDescending p [] h = tt
select-IsDescending p (r ∷ rs) h = elim (Bool-cases (p r)) [
  | inl e ↦
      rw e
        (All-select_where (λ r'. is_below (key r) r' ≡ true) p rs h.0, select-IsDescending p rs h.1)
  | inr e ↦ rw e (select-IsDescending p rs h.1)
]

-- What is below all of the rows is left as it is.
select_below_keeps :
    (r : AuditRow) (rs : List AuditRow)
    → All (λ r'. is_below (key r) r' ≡ true) rs
    → select_where (is_below (key r)) rs ≡ rs
unfolding select_where
select_below_keeps r [] h = refl
select_below_keeps r (x ∷ xs) h = ground (arith, h.0, select_below_keeps r xs h.1)

-- Below the key of a row are the rows that follow it.
pub select-is_below :
    (before : List AuditRow) (r : AuditRow) (after : List AuditRow)
    → IsDescending (before ++ (r ∷ after))
    → select_where (is_below (key r)) (before ++ (r ∷ after)) ≡ after
unfolding select_where
select-is_below [] r after h = rw (not_below_self r, select_below_keeps r after h.0) refl
select-is_below (x ∷ xs) r after h =
    rw (not_below_newer x r (among x xs r after h.0), select-is_below xs r after h.1) refl
  where
    among :
        (x : AuditRow) (xs : List AuditRow) (r : AuditRow) (after : List AuditRow)
        → All (λ r'. is_below (key x) r' ≡ true) (xs ++ (r ∷ after))
        → is_below (key x) r ≡ true
    among x [] r after h = h.0
    among x (y ∷ ys) r after h = among x ys r after h.1
