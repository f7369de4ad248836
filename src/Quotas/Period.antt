-- ===== src/Quotas/Period.antt =====
-- modules/quotas/service.py: `period_bounds`. A datetime is its calendar fields and the time of day.
use ragz.Prelude.{
  ℕ, ◌+◌, ◌-◌, ◌%◌, ◌≤◌, ◌≡◌, refl, Bool, true, false, not, ◌&&◌, ◌||◌, min, ltb, ◌==◌,
  if◌then◌else◌, arith, Bool-cases, inl, inr, ap, ◌∙◌,
}

pub record DateTime : Type 0 where
  pub year : ℕ
  pub month : ℕ
  pub day : ℕ
  pub time : ℕ

-- `calendar.monthrange(year, month)[1]`
unfoldable pub is_leap : ℕ → Bool
is_leap y = y % 4 == 0 && (not (y % 100 == 0) || y % 400 == 0)

unfoldable pub days_in_month : ℕ → ℕ → ℕ
unfolding is_leap
days_in_month y m =
    if m == 2
    then (if is_leap y then 29 else 28)
    else if m == 4 || (m == 6 || (m == 9 || m == 11))
    then 30
    else 31

-- `_clamped`
unfoldable pub clamped : ℕ → ℕ → ℕ → DateTime
clamped year month day = record {
  year = year;
  month = month;
  day = min day (days_in_month year month);
  time = 0;
}

-- `a < b` on datetimes.
unfoldable pub is_before : DateTime → DateTime → Bool
is_before a b =
    ltb a.year b.year
    || (a.year == b.year
        && (ltb a.month b.month
            || (a.month == b.month && (ltb a.day b.day || (a.day == b.day && ltb a.time b.time)))))

unfoldable pub next_month : DateTime → ℕ → DateTime
next_month now reset_day =
    if now.month == 12
    then clamped (now.year + 1) 1 reset_day
    else clamped now.year (now.month + 1) reset_day

unfoldable pub previous_month : DateTime → ℕ → DateTime
previous_month now reset_day =
    if now.month == 1
    then clamped (now.year - 1) 12 reset_day
    else clamped now.year (now.month - 1) reset_day

-- The start of the period that holds `now`, and the next reset.
unfoldable pub period_bounds : DateTime → ℕ → DateTime × DateTime
period_bounds now reset_day =
    let this_month = clamped now.year now.month reset_day in
    if not (is_before now this_month)
    then (this_month, next_month now reset_day)
    else (previous_month now reset_day, this_month)

-- A date of the calendar, after its first year.
pub record IsDate (d : DateTime) : Type 0 where
  pub year_pos : 2 ≤ d.year
  pub month_pos : 1 ≤ d.month
  pub month_le : d.month ≤ 12

next_month_later :
    (now : DateTime) (reset_day : ℕ) → IsDate now → is_before now (next_month now reset_day) ≡ true
unfolding next_month is_before clamped
next_month_later now reset_day valid = ground arith

previous_month_earlier :
    (now : DateTime) (reset_day : ℕ)
    → IsDate now
    → is_before now (previous_month now reset_day) ≡ false
unfolding previous_month is_before clamped
previous_month_earlier now reset_day valid = ground arith

-- The period holds the time that it was asked for: it began by then, and its reset is still ahead.
period_bounds_hold :
    (now : DateTime) (reset_day : ℕ)
    → IsDate now
    → 1 ≤ reset_day
    → let (start, resets_at) = period_bounds now reset_day in
      (is_before now start ≡ false) × (is_before now resets_at ≡ true)
unfolding period_bounds
period_bounds_hold now reset_day valid pos =
    elim (Bool-cases (is_before now (clamped now.year now.month reset_day))) [
      | inl early ↦ rw early (previous_month_earlier now reset_day valid, early)
      | inr late ↦ rw late (late, next_month_later now reset_day valid)
    ]

-- A reset is the reset of its own month.
bounds_of_clamped :
    (y m reset_day : ℕ)
    → period_bounds (clamped y m reset_day) reset_day
      ≡ (clamped y m reset_day, next_month (clamped y m reset_day) reset_day)
unfolding period_bounds is_before clamped
bounds_of_clamped y m reset_day = ground arith

next_of_previous :
    (now : DateTime) (reset_day : ℕ)
    → IsDate now
    → next_month (previous_month now reset_day) reset_day ≡ clamped now.year now.month reset_day
unfolding next_month previous_month clamped
next_of_previous now reset_day valid = ground arith

bounds_late :
    (now : DateTime) (reset_day : ℕ)
    → is_before now (clamped now.year now.month reset_day) ≡ false
    → period_bounds now reset_day ≡ (clamped now.year now.month reset_day, next_month now reset_day)
unfolding period_bounds
bounds_late now reset_day h = ground arith

bounds_early :
    (now : DateTime) (reset_day : ℕ)
    → is_before now (clamped now.year now.month reset_day) ≡ true
    → period_bounds now reset_day
      ≡ (previous_month now reset_day, clamped now.year now.month reset_day)
unfolding period_bounds
bounds_early now reset_day h = ground arith

bounds_of_next :
    (now : DateTime) (reset_day : ℕ)
    → (period_bounds (next_month now reset_day) reset_day).0 ≡ next_month now reset_day
unfolding next_month
bounds_of_next now reset_day = elim (Bool-cases (now.month == 12)) [
  | inl dec ↦ rw dec (ap (λ p. p.0) (bounds_of_clamped (now.year + 1) 1 reset_day))
  | inr other ↦ rw other (ap (λ p. p.0) (bounds_of_clamped now.year (now.month + 1) reset_day))
]

bounds_of_previous :
    (now : DateTime) (reset_day : ℕ)
    → let start = previous_month now reset_day in
      period_bounds start reset_day ≡ (start, next_month start reset_day)
unfolding previous_month
bounds_of_previous now reset_day = elim (Bool-cases (now.month == 1)) [
  | inl jan ↦ rw jan (bounds_of_clamped (now.year - 1) 12 reset_day)
  | inr other ↦ rw other (bounds_of_clamped now.year (now.month - 1) reset_day)
]

period_bounds_follow :
    (now : DateTime) (reset_day : ℕ)
    → IsDate now
    → let (start, resets_at) = period_bounds now reset_day in
      ((period_bounds resets_at reset_day).0 ≡ resets_at)
      × (period_bounds start reset_day ≡ (start, resets_at))
period_bounds_follow now reset_day valid =
    elim (Bool-cases (is_before now (clamped now.year now.month reset_day))) [
      | inl early ↦ rw (bounds_early now reset_day early) (
        ap (λ p. p.0) (bounds_of_clamped now.year now.month reset_day),
        bounds_of_previous now reset_day ∙ rw (next_of_previous now reset_day valid),
      )
      | inr late ↦ rw (bounds_late now reset_day late) (
        bounds_of_next now reset_day,
        bounds_of_clamped now.year now.month reset_day ∙ unfold next_month clamped in refl,
      )
    ]

-- The period holds the time that it was asked for, and the periods follow one another without a gap or
-- an overlap: the next period begins at the reset of this one, and asking at the first instant of this
-- one gives this one.
pub period_bounds_tile :
    (now : DateTime) (reset_day : ℕ)
    → IsDate now
    → 1 ≤ reset_day
    → let (start, resets_at) = period_bounds now reset_day in
      (is_before now start ≡ false)
      × (is_before now resets_at ≡ true)
      × ((period_bounds resets_at reset_day).0 ≡ resets_at)
      × (period_bounds start reset_day ≡ (start, resets_at))
period_bounds_tile now reset_day valid pos =
    let (began, ahead) = period_bounds_hold now reset_day valid pos in
    let (next, again) = period_bounds_follow now reset_day valid in (began, ahead, next, again)
