-- ===== src/Documents/Preference.antt =====
-- modules/documents/service.py: which version of a lineage a promotion prefers.
use ragz.Prelude.{
  ℕ, ◌≤◌, ◌≡◌, refl, true, false, none, some, List, [], ◌∷◌, arith, inl, inr, Bool-cases,
  Option-cases, select_where, All, All-map, All-both, All-unselected, All-intro, All-selected,
  All-select_where, List-cases, ltb,
}
use ragz.Documents.State.{Document}
use ragz.Documents.Uploads.{newest}
use ragz.Documents.Lineage.{is_version, candidates}

pub newest-none : (xs : List Document) → newest xs ≡ none → xs ≡ []
unfolding newest
newest-none [] h = refl
newest-none (x ∷ xs) h = elim (Option-cases (newest xs)) [
  | inl e ↦ absurd (ground (arith, e))
  | inr (b, e) ↦ absurd (ground (arith, e))
]

newest_greatest :
    (xs : List Document) {best : Document}
    → newest xs ≡ some best
    → All (λ d. d.version ≤ best.version) xs
unfolding newest
newest_greatest [] h = tt
newest_greatest (x ∷ xs) {best} h = elim (Option-cases (newest xs)) [
  | inl e ↦ let same : x ≡ best = ground (arith, e) in rw (newest-none xs e) (ground arith, tt)
  | inr (b, e) ↦ elim (Bool-cases (ltb x.version b.version)) [
    | inl less ↦
        let same : b ≡ best = ground (arith, e, less) in
        (
          ground (arith, same),
          All-map (λ d. d.version ≤ b.version) (λ d. d.version ≤ best.version) xs
              (λ d le. ground (arith, same)) (newest_greatest xs {best = b} e),
        )
    | inr more ↦
        let same : x ≡ best = ground (arith, e, more) in
        (
          ground (arith, same),
          All-map (λ d. d.version ≤ b.version) (λ d. d.version ≤ best.version) xs
              (λ d le. ground (arith, same, more)) (newest_greatest xs {best = b} e),
        )
  ]
]

newest_among :
    (P : Document → Type 0) (xs : List Document) {best : Document}
    → newest xs ≡ some best
    → All P xs
    → P best
unfolding newest
newest_among P [] h all = absurd (ground arith)
newest_among P (x ∷ xs) {best} h all = elim (Option-cases (newest xs)) [
  | inl e ↦ let same : x ≡ best = ground (arith, e) in rw (← same) all.0
  | inr (b, e) ↦ elim (Bool-cases (ltb x.version b.version)) [
    | inl less ↦
        let same : b ≡ best = ground (arith, e, less) in
        rw (← same) (newest_among P xs {best = b} e all.1)
    | inr more ↦ let same : x ≡ best = ground (arith, e, more) in rw (← same) all.0
  ]
]

-- `effective` is approved where any version is, and the newest of those that are as it is.
abbrev pub IsPreferred : Document → Document → Type 0
IsPreferred effective d =
    (d.approved ≡ true → (effective.approved ≡ true) × (d.version ≤ effective.version))
    × (effective.approved ≡ false → d.version ≤ effective.version)

pub candidates-IsPreferred :
    (rows : List Document) {effective : Document}
    → newest (candidates rows) ≡ some effective
    → All (IsPreferred effective) rows
unfolding candidates
candidates-IsPreferred rows {effective} h = of_approved (select_where (λ d. d.approved) rows) refl
  where
    of_approved :
        (approved : List Document)
        → select_where (λ d. d.approved) rows ≡ approved
        → All (IsPreferred effective) rows
    of_approved [] e =
        let none_approved : All (λ d. d.approved ≡ true → false ≡ true) rows =
          All-unselected (λ d. false ≡ true) (λ d. d.approved) rows (rw e tt) in
        let greatest : All (λ d. d.version ≤ effective.version) rows =
          newest_greatest rows {best = effective} (rw (e, candidates) at h) in
        All-map (λ d. (d.approved ≡ true → false ≡ true) × (d.version ≤ effective.version))
          (IsPreferred effective) rows
          (λ d facts. (λ yes_approved. absurd (ground (arith, facts.0 yes_approved)), λ _. facts.1))
          (All-both (λ d. d.approved ≡ true → false ≡ true) (λ d. d.version ≤ effective.version)
            rows none_approved greatest)
    of_approved (a ∷ more) e =
        let chosen : newest (a ∷ more) ≡ some effective = rw (e, candidates) at h in
        let is_approved : effective.approved ≡ true =
          newest_among (λ d. d.approved ≡ true) (a ∷ more) {best = effective} chosen
            (rw e at (
              All-selected (λ d. Unit {0}) (λ d. d.approved ≡ true) (λ d. d.approved) rows
                (λ d yes_approved _. yes_approved) (All-intro (λ d. Unit {0}) rows (λ d. tt)))) in
        All-map (λ d. d.approved ≡ true → d.version ≤ effective.version) (IsPreferred effective)
          rows
          (λ d le. (
            λ yes_approved. (is_approved, le yes_approved),
            λ unapproved. absurd (ground (arith, is_approved, unapproved)),
          ))
          (All-unselected (λ d. d.version ≤ effective.version) (λ d. d.approved) rows
            (rw e (newest_greatest (a ∷ more) {best = effective} chosen)))

-- What holds of every version holds of the one that is promoted.
pub newest_version :
    (P : Document → Type 0) (lineage_id : ℕ) (ds : List Document) {effective : Document}
    → All (λ d. is_version lineage_id d ≡ true → P d) ds
    → newest (candidates (select_where (is_version lineage_id) ds)) ≡ some effective
    → P effective
unfolding candidates
newest_version P lineage_id ds {effective} all h =
    newest_among P (candidates (select_where (is_version lineage_id) ds)) {best = effective} h (
      among_candidates (select_where (is_version lineage_id) ds) (
        All-selected (λ d. is_version lineage_id d ≡ true → P d) P (is_version lineage_id) ds
          (λ d is held. held is) all))
  where
    among_candidates : (rows : List Document) → All P rows → All P (candidates rows)
    among_candidates rows all = elim (List-cases (select_where (λ d. d.approved) rows)) [
      | inl e ↦ rw (e, candidates) all
      | inr (a, more, e) ↦
          rw (e, candidates) (rw e at (All-select_where P (λ d. d.approved) rows all))
    ]
