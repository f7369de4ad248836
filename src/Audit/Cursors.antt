-- ===== src/Audit/Cursors.antt =====
-- modules/audit/service.py: what the cursor of a page is read back as, and what a page takes.
use ragz.Prelude.{
  ℕ, zero, suc, ◌+◌, ◌≤◌, ◌≡◌, refl, ap, ◌∙◌, true, false, some, List, [], ◌∷◌, ◌++◌, ◌⊎◌, ◌==◌,
  arith, inl, inr, All, take, take-length, length, ltb, Bool-cases, length-append,
}
use ragz.Core.ClientIp.{Text}
use ragz.Audit.{AuditRow, Formats, key, cut, last_row, read_cursor, write_cursor, with_cursor, page}

-- What the standard library documents of its formats.
pub record IsFaithful (formats : Formats) : Type 0 where
  pub time : (t : ℕ) → formats.fromisoformat (formats.isoformat t) ≡ some t
  pub id : (i : ℕ) → formats.uuid (formats.uuid_text i) ≡ some i
  pub no_bar : (t : ℕ) → All (λ c. (c == b'|') ≡ false) (formats.isoformat t)

cut-append :
    (before after : Text)
    → All (λ c. (c == b'|') ≡ false) before
    → cut (before ++ (b'|' ∷ after)) ≡ some (before, after)
unfolding cut
cut-append [] after h = refl
cut-append (c ∷ s) after h = rw (h.0, cut-append s after h.1) refl

-- The cursor that a page ends with is read back as the place of the row that it was made of.
pub read_cursor-write_cursor :
    (formats : Formats) (row : AuditRow)
    → IsFaithful formats
    → read_cursor formats (write_cursor formats row) ≡ some (key row)
unfolding read_cursor write_cursor
read_cursor-write_cursor formats row faithful = ground (
  arith,
  cut-append (formats.isoformat row.created_at) (formats.uuid_text row.id)
      (faithful.no_bar row.created_at),
  faithful.time row.created_at,
  faithful.id row.id,
)

-- Rows that fit a page, or those of a page, its last one, and more.
abbrev Split : ℕ → List AuditRow → Type 0
Split n rows =
    (length rows ≤ suc n)
    ⊎ ((before : List AuditRow) × (r next : AuditRow) × (more : List AuditRow) × (rows
          ≡ before ++ (r ∷ next ∷ more))
        × (length before ≡ n))

pub split : (n : ℕ) (rows : List AuditRow) → Split n rows
split n [] = inl (omega arith)
split n (r ∷ []) = inl (omega arith)
split zero (r ∷ next ∷ more) = inr ([], r, next, more, refl, refl)
split (suc n) (r ∷ next ∷ more) = elim (split n (next ∷ more)) [
  | inl few ↦ inl (omega (arith, few))
  | inr (before, r', next', more', e, len) ↦
      inr (r ∷ before, r', next', more', ap (λ rs. r ∷ rs) e, ap suc len)
]

take-to :
    (before : List AuditRow) (r : AuditRow) (more : List AuditRow)
    → take (suc (length before)) (before ++ (r ∷ more)) ≡ before ++ (r ∷ [])
take-to [] r more = refl
take-to (x ∷ xs) r more = ap (λ rs. x ∷ rs) (take-to xs r more)

take-past :
    (before : List AuditRow) (r next : AuditRow) (more : List AuditRow)
    → take (suc (suc (length before))) (before ++ (r ∷ next ∷ more)) ≡ before ++ (r ∷ next ∷ [])
take-past [] r next more = refl
take-past (x ∷ xs) r next more = ap (λ rs. x ∷ rs) (take-past xs r next more)

last_row-append :
    (first : AuditRow) (before : List AuditRow) (r : AuditRow)
    → last_row first (before ++ (r ∷ [])) ≡ r
unfolding last_row
last_row-append first [] r = refl
last_row-append first (x ∷ xs) r = last_row-append x xs r

module _ (formats : Formats) where
  pub page-whole :
      (n : ℕ) (rows : List AuditRow)
      → length rows ≤ n
      → page formats n (take (n + 1) rows) ≡ (rows, [])
  unfolding page
  page-whole n rows h =
      rw (take-length (n + 1) rows (omega (arith, h))) (elim (Bool-cases (ltb n (length rows))) [
        | inl e ↦ absurd (ground (arith, e, h))
        | inr e ↦ rw e refl
      ])

  with_cursor-append :
      (before : List AuditRow) (r : AuditRow)
      → with_cursor formats (before ++ (r ∷ [])) ≡ (before ++ (r ∷ []), write_cursor formats r)
  unfolding with_cursor
  with_cursor-append [] r = rw (last_row-append r [] r) refl
  with_cursor-append (x ∷ xs) r = rw (last_row-append x xs r) refl

  pub page-part :
      (before : List AuditRow) (r next : AuditRow) (more : List AuditRow)
      → page formats
          (suc (length before))
          (take (suc (length before) + 1) (before ++ (r ∷ next ∷ more)))
        ≡ (before ++ (r ∷ []), write_cursor formats r)
  unfolding page
  page-part before r next more =
      let step : suc (length before) + 1 ≡ suc (suc (length before)) = omega arith in
      let two : take (suc (length before) + 1) (before ++ (r ∷ next ∷ more))
          ≡ before ++ (r ∷ next ∷ []) =
        ap (λ n. take n (before ++ (r ∷ next ∷ more))) step ∙ take-past before r next more in
      let one = take-to before r (next ∷ []) in
      let longer : ltb (suc (length before)) (length (before ++ (r ∷ next ∷ []))) ≡ true =
        ground (arith, length-append before (r ∷ next ∷ [])) in
      rw (two, longer, one) (with_cursor-append before r)
