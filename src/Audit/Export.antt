-- ===== src/Audit/Export.antt =====
-- api/routes/admin_audit.py: the export of the trail, page after page.
use mathlib.Core.Path.{subst}
use mathlib.Core.List.{append_assoc}
use ragz.Prelude.{
  ℕ, zero, suc, ◌+◌, ◌≤◌, ◌<◌, ◌≡◌, refl, sym, ap, ◌∙◌, Bool, false, Option, some, List, [], ◌∷◌,
  ◌++◌, ok, arith, inl, inr, All-intro, select_where, select_where_cong, is_id, if◌then◌else◌, take,
  length, length-append, List-cases,
}
use ragz.Auth.State.{is_superadmin}
use ragz.Tenancy.State.{TenantContext}
use ragz.Core.ClientIp.{Text, is_nil}
use ragz.Audit.{
  insert_row, if_given, AuditRow, AuditFilter, Formats, no_filter, key, is_listed, is_below,
  newest_first, write_cursor, page, list_audit_events, export_from, effective_org_id, export_audit,
}
use ragz.Audit.Order.{
  IsDescending, HaveOwnIds, newest_first-IsDescending, select-IsDescending, select-is_below,
}
use ragz.Audit.Cursors.{IsFaithful, read_cursor-write_cursor, split, page-whole, page-part}

module _ (formats : Formats) (faithful : IsFaithful formats) (f : AuditFilter)
    (table : List AuditRow) where
  abbrev listed : List AuditRow
  listed = select_where (is_listed f) (newest_first table)

  written_cursor : (row : AuditRow) → is_nil (write_cursor formats row) ≡ false
  unfolding write_cursor is_nil
  written_cursor row = elim (List-cases (formats.isoformat row.created_at)) [
    | inl e ↦ rw e refl
    | inr (c, more, e) ↦ rw e refl
  ]

  -- A cursor stands for the rows that follow the one that it was made of.
  list-after :
      (before : List AuditRow) (row : AuditRow) (after : List AuditRow)
      → IsDescending listed
      → listed ≡ before ++ (row ∷ after)
      → list_audit_events formats f (write_cursor formats row) 200 table
        ≡ ok (page formats 200 (take 201 after))
  unfolding list_audit_events
  list-after before row after descending e =
      let below : select_where (is_below (key row)) listed ≡ after =
        ap (select_where (is_below (key row))) e
        ∙ select-is_below before row after (subst IsDescending e descending) in
      rw (written_cursor row, read_cursor-write_cursor formats row faithful, below) refl

  -- A round that is not the last.
  round :
      (rounds : ℕ) (cursor next : Text) (rows rest : List AuditRow)
      → is_nil rows ≡ false
      → is_nil next ≡ false
      → list_audit_events formats f cursor 200 table ≡ ok (rows, next)
      → export_from formats rounds f next table ≡ some rest
      → export_from formats (suc rounds) f cursor table ≡ some (rows ++ rest)
  unfolding is_nil export_from
  round rounds cursor next [] rest h h' answered later = absurd (ground (arith, h))
  round rounds cursor [] (r ∷ rs) rest h h' answered later = absurd (ground (arith, h'))
  round rounds cursor (c ∷ next) (r ∷ rs) rest h h' answered later = ground (arith, answered, later)

  last_round :
      (rounds : ℕ) (cursor : Text) (rows : List AuditRow)
      → list_audit_events formats f cursor 200 table ≡ ok (rows, [])
      → export_from formats (suc rounds) f cursor table ≡ some rows
  unfolding export_from
  last_round rounds cursor [] answered = ground (arith, answered)
  last_round rounds cursor (r ∷ rs) answered = ground (arith, answered)

  append-is_nil : (before : List AuditRow) (r : AuditRow) → is_nil (before ++ (r ∷ [])) ≡ false
  unfolding is_nil
  append-is_nil [] r = refl
  append-is_nil (x ∷ xs) r = refl

  full_page :
      (before : List AuditRow) (r next : AuditRow) (more : List AuditRow)
      → length before ≡ 199
      → page formats 200 (take 201 (before ++ (r ∷ next ∷ more)))
        ≡ (before ++ (r ∷ []), write_cursor formats r)
  full_page before r next more len =
      subst
        (λ n.
          page formats n (take (n + 1) (before ++ (r ∷ next ∷ more)))
          ≡ (before ++ (r ∷ []), write_cursor formats r))
        (ap suc len) (page-part formats before r next more)

  -- From a place where `rest` is left, the rounds send what is left.
  export_from-rest :
      (rounds : ℕ) (done rest : List AuditRow) (cursor : Text)
      → IsDescending listed
      → listed ≡ done ++ rest
      → list_audit_events formats f cursor 200 table ≡ ok (page formats 200 (take 201 rest))
      → length rest < rounds
      → export_from formats rounds f cursor table ≡ some rest
  export_from-rest zero done rest cursor descending e answered enough =
      absurd (omega (arith, enough))
  export_from-rest (suc rounds) done rest cursor descending e answered enough =
      elim (split 199 rest) [
        | inl few ↦
            last_round rounds cursor rest (answered ∙ ap ok (page-whole formats 200 rest few))
        | inr (before, row, next, more, e', len) ↦
            let at_row : listed ≡ (done ++ before) ++ (row ∷ next ∷ more) =
              e ∙ ap (λ rs. done ++ rs) e' ∙ sym (append_assoc done before (row ∷ next ∷ more)) in
            let past_row : listed ≡ ((done ++ before) ++ (row ∷ [])) ++ (next ∷ more) =
              at_row ∙ sym (append_assoc (done ++ before) (row ∷ []) (next ∷ more)) in
            let page_is : page formats 200 (take 201 rest)
                ≡ (before ++ (row ∷ []), write_cursor formats row) =
              ap (λ rs. page formats 200 (take 201 rs)) e' ∙ full_page before row next more len in
            let fewer : length (next ∷ more) < rounds =
              omega (arith, enough, ap length e', length-append before (row ∷ next ∷ more)) in
            round rounds cursor (write_cursor formats row) (before ++ (row ∷ [])) (next ∷ more)
              (append-is_nil before row) (written_cursor row) (answered ∙ ap ok page_is)
              (export_from-rest rounds ((done ++ before) ++ (row ∷ [])) (next ∷ more)
                (write_cursor formats row) descending past_row
                (list-after (done ++ before) row (next ∷ more) descending at_row) fewer)
            ∙ ap some (append_assoc before (row ∷ []) (next ∷ more) ∙ sym e')
      ]

first_page :
    (formats : Formats) (f : AuditFilter) (table : List AuditRow)
    → list_audit_events formats f [] 200 table
      ≡ ok (page formats 200 (take 201 (select_where (is_listed f) (newest_first table))))
unfolding list_audit_events is_nil
first_page formats f table = refl

length-insert_row :
    (row : AuditRow) (rows : List AuditRow) → length (insert_row row rows) ≡ suc (length rows)
unfolding insert_row
length-insert_row row [] = refl
length-insert_row row (r ∷ rs) = ground (arith, length-insert_row row rs)

length-listed :
    (p : AuditRow → Bool) (rows : List AuditRow) → length (select_where p rows) ≤ length rows
unfolding select_where
length-listed p [] = omega arith
length-listed p (r ∷ rs) = ground (arith, length-listed p rs)

length-newest_first : (rows : List AuditRow) → length (newest_first rows) ≡ length rows
unfolding newest_first
length-newest_first [] = refl
length-newest_first (r ∷ rs) =
    length-insert_row r (newest_first rs) ∙ ap suc (length-newest_first rs)

-- Who may see an event: a superadmin sees those of the organisation that was asked for, or all of
-- them, and anybody else those of the own organisation.
abbrev pub is_visible : TenantContext → Option ℕ → AuditRow → Bool
is_visible ctx org_id row =
    if is_superadmin ctx.role
    then if_given org_id (is_id row.event.org_id)
    else is_id row.event.org_id ctx.org_id

visible_listed :
    (ctx : TenantContext) (org_id : Option ℕ) (row : AuditRow)
    → is_listed (record no_filter { org_id = effective_org_id ctx org_id }) row
      ≡ is_visible ctx org_id row
unfolding is_listed effective_org_id
visible_listed ctx org_id row = ground arith

-- The export ends, within one round more than the trail has rows, and sends each event that the
-- caller may see, once, the newest first, if ids are unique and the formats of times and ids are
-- read back as they were printed.
pub export_audit_sends_all :
    (formats : Formats) (rounds : ℕ) (ctx : TenantContext) (org_id : Option ℕ)
    (table : List AuditRow)
    → IsFaithful formats
    → HaveOwnIds table
    → length table < rounds
    → export_audit formats rounds ctx org_id table
      ≡ some (select_where (is_visible ctx org_id) (newest_first table))
unfolding export_audit
export_audit_sends_all formats rounds ctx org_id table faithful own enough =
    let f = record no_filter { org_id = effective_org_id ctx org_id } in
    let all = select_where (is_listed f) (newest_first table) in
    let few : length all < rounds = omega (
      arith,
      enough,
      length-listed (is_listed f) (newest_first table),
      length-newest_first table,
    ) in
    export_from-rest formats faithful f table rounds [] all []
      (select-IsDescending (is_listed f) (newest_first table) (newest_first-IsDescending table own))
      refl (first_page formats f table) few
    ∙ ap some (
        select_where_cong (is_listed f) (is_visible ctx org_id) (newest_first table) (
          All-intro (λ row. is_listed f row ≡ is_visible ctx org_id row) (newest_first table)
            (visible_listed ctx org_id)))
