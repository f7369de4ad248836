-- ===== src/Audit.antt =====
-- modules/audit/service.py: list_audit_events, and its callers in api/routes/admin_audit.py.
use text.Mathlib.Text.{starts_with}
use ragz.Prelude.{
  ℕ, zero, suc, ◌+◌, Bool, true, false, not, ◌&&◌, ◌||◌, Option, none, some, List, [], ◌∷◌, ◌++◌,
  Result, ok, err, not_found, ◌>>=◌, String, str_eq, ◌==◌, ltb, leb, is_id, if◌then◌else◌, take,
  length, select_where,
}
use ragz.Auth.State.{AuditEvent, is_superadmin}
use ragz.Tenancy.State.{TenantContext}
use ragz.Core.ClientIp.{Text, is_nil}
pub mod Order
pub mod Cursors
pub mod Export

-- A row of the table.
pub record AuditRow : Type 0 where
  pub id : ℕ
  pub created_at : ℕ
  pub event : AuditEvent

-- What the standard library prints and parses: a time, and an id. Neither prints a `|`.
pub record Formats : Type 0 where
  pub isoformat : ℕ → Text
  pub fromisoformat : Text → Option ℕ
  pub uuid_text : ℕ → Text
  pub uuid : Text → Option ℕ

-- The arguments that narrow the list.
pub record AuditFilter : Type 0 where
  pub action : Option String
  pub actor_id : Option ℕ
  pub org_id : Option ℕ
  pub date_from : Option ℕ
  pub date_to : Option ℕ

abbrev pub no_filter : AuditFilter
no_filter = record {
  action = none;
  actor_id = none;
  org_id = none;
  date_from = none;
  date_to = none;
}

abbrev pub if_given : Option ℕ → (ℕ → Bool) → Bool
if_given none test = true
if_given (some k) test = test k

abbrev has_action : Option String → String → Bool
has_action none action = true
has_action (some prefix) action = str_eq prefix "" || starts_with action prefix

-- The conditions of the query, less the cursor's.
unfoldable pub is_listed : AuditFilter → AuditRow → Bool
is_listed f row =
    has_action f.action row.event.action
    && (if_given f.actor_id (is_id row.event.actor_id)
        && (if_given f.org_id (is_id row.event.org_id)
            && (if_given f.date_from (λ t. leb t row.created_at)
                && if_given f.date_to (λ t. leb row.created_at t))))

-- `(created_at, id) < cursor_key`
unfoldable pub is_below : ℕ × ℕ → AuditRow → Bool
is_below (t, i) row = ltb row.created_at t || (row.created_at == t && ltb row.id i)

abbrev pub key : AuditRow → ℕ × ℕ
key row = (row.created_at, row.id)

-- `order_by(AuditEvent.created_at.desc(), AuditEvent.id.desc())`
unfoldable pub insert_row : AuditRow → List AuditRow → List AuditRow
unfolding is_below
insert_row row [] = row ∷ []
insert_row row (r ∷ rs) = if is_below (key row) r then row ∷ r ∷ rs else r ∷ insert_row row rs

unfoldable pub newest_first : List AuditRow → List AuditRow
unfolding insert_row
newest_first [] = []
newest_first (row ∷ rows) = insert_row row (newest_first rows)

-- `cursor.split("|", 1)`, where it gives two parts.
unfoldable pub cut : Text → Option (Text × Text)
cut [] = none
cut (c ∷ s) =
    if c == b'|'
    then some ([], s)
    else elim (cut s) [ none ↦ none | some (before, after) ↦ some (c ∷ before, after) ]

abbrev paired : Option ℕ → Option ℕ → Option (ℕ × ℕ)
paired none j = none
paired (some i) none = none
paired (some i) (some j) = some (i, j)

-- The last row of a page.
unfoldable pub last_row : AuditRow → List AuditRow → AuditRow
last_row row [] = row
last_row row (r ∷ rs) = last_row r rs

-- The organisation that the caller may see.
unfoldable pub effective_org_id : TenantContext → Option ℕ → Option ℕ
effective_org_id ctx org_id = if is_superadmin ctx.role then org_id else some ctx.org_id

module _ (formats : Formats) where
  open formats use {isoformat, fromisoformat, uuid_text, uuid}

  unfoldable pub read_cursor : Text → Option (ℕ × ℕ)
  unfolding cut
  read_cursor cursor = elim (cut cursor) [
    | none ↦ none
    | some (ts_raw, id_raw) ↦ paired (fromisoformat ts_raw) (uuid id_raw)
  ]

  unfoldable pub write_cursor : AuditRow → Text
  write_cursor row = isoformat row.created_at ++ (b'|' ∷ uuid_text row.id)

  -- A page that is not the last, with the cursor of its last row.
  unfoldable pub with_cursor : List AuditRow → List AuditRow × Text
  unfolding last_row write_cursor
  with_cursor [] = ([], [])
  with_cursor (r ∷ rs) = (r ∷ rs, write_cursor (last_row r rs))

  -- The page that is cut from the rows that the query gives; no cursor is empty.
  unfoldable pub page : ℕ → List AuditRow → List AuditRow × Text
  unfolding with_cursor
  page limit rows = if ltb limit (length rows) then with_cursor (take limit rows) else (rows, [])

  -- `limit` is 1 or more, as the routes have it; `cursor` is empty where none is given.
  unfoldable pub list_audit_events :
      AuditFilter → (cursor : Text) → ℕ → List AuditRow → Result (List AuditRow × Text)
  unfolding is_listed is_below newest_first read_cursor page is_nil
  list_audit_events f cursor limit table =
      let rows = select_where (is_listed f) (newest_first table) in
      if is_nil cursor then ok (page limit (take (limit + 1) rows)) else elim (read_cursor cursor) [
        | none ↦ err not_found
        | some k ↦ ok (page limit (take (limit + 1) (select_where (is_below k) rows)))
      ]

  -- The rows that `_export_lines` sends, for as many rounds of its loop as are given; none where it
  -- raises or needs more rounds.
  unfoldable pub export_from :
      (rounds : ℕ) → AuditFilter → (cursor : Text) → List AuditRow → Option (List AuditRow)
  unfolding list_audit_events
  export_from zero f cursor table = none
  export_from (suc rounds) f cursor table = elim (list_audit_events f cursor 200 table) [
    | err e ↦ none
    | ok ([], next) ↦ some []
    | ok (r ∷ rs, []) ↦ some (r ∷ rs)
    | ok (r ∷ rs, c ∷ next) ↦ elim (export_from rounds f (c ∷ next) table) [
      | none ↦ none
      | some rest ↦ some ((r ∷ rs) ++ rest)
    ]
  ]

  unfoldable pub export_audit :
      (rounds : ℕ) → TenantContext → Option ℕ → List AuditRow → Option (List AuditRow)
  unfolding export_from effective_org_id
  export_audit rounds ctx org_id table =
      export_from rounds (record no_filter { org_id = effective_org_id ctx org_id }) [] table
