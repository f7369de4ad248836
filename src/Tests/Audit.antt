-- ===== src/Tests/Audit.antt =====
-- A run of the export of the audit trail, where times and ids are printed as one code point.
use ragz.Prelude.{ℕ, ◌+◌, ◌-◌, ◌≡◌, refl, Option, some, none, List, [], ◌∷◌, arith, select_where}
use ragz.Auth.State.{AuditTarget, audit_event}
use ragz.Core.ClientIp.{Text}
use ragz.Audit.{AuditRow, Formats, newest_first, read_cursor, write_cursor, export_audit}
use ragz.Audit.Cursors.{IsFaithful, read_cursor-write_cursor}
use ragz.Audit.Export.{is_visible, export_audit_sends_all}
use ragz.Tests.Documents.{ctx}

abbrev read : Text → Option ℕ
read (c ∷ []) = some (c - 200)
read _ = none

abbrev formats : Formats
formats = record {
  isoformat = λ t. (t + 200) ∷ [];
  fromisoformat = read;
  uuid_text = λ i. (i + 200) ∷ [];
  uuid = read;
}

read_back : (n : ℕ) → read ((n + 200) ∷ []) ≡ some n
read_back n = ground arith

formats-IsFaithful : IsFaithful formats
formats-IsFaithful = record { time = read_back; id = read_back; no_bar = λ t. (ground arith, tt) }

abbrev row : ℕ → ℕ → ℕ → AuditRow
row id created_at org = record {
  id = id;
  created_at = created_at;
  event = audit_event (some org) none "folder.created" (AuditTarget.row 1);
}

abbrev table : List AuditRow
table = row 1 10 1 ∷ row 2 30 1 ∷ row 3 30 2 ∷ row 4 30 1 ∷ []

table_sent :
    select_where (is_visible ctx none) (newest_first table)
    ≡ row 4 30 1 ∷ row 2 30 1 ∷ row 1 10 1 ∷ []
unfolding select_where newest_first ragz.Auth.State.is_superadmin audit_event
table_sent = refl

export_audit_sends_all_example :
    export_audit formats 5 ctx none table
    ≡ some (select_where (is_visible ctx none) (newest_first table))
export_audit_sends_all_example =
    export_audit_sends_all formats 5 ctx none table formats-IsFaithful
      ((refl, (refl, (refl, tt))), ((refl, (refl, tt)), ((refl, tt), (tt, tt)))) (omega arith)

read_cursor-write_cursor_example :
    read_cursor formats (write_cursor formats (row 4 30 1)) ≡ some (30, 4)
read_cursor-write_cursor_example = read_cursor-write_cursor formats (row 4 30 1) formats-IsFaithful
