-- ===== src/Documents/Projection.antt =====
-- modules/documents/service.py: a change of a document's access list and its projection into the
-- vector store, for requests and sweeps that run side by side on one document.
use ragz.Prelude.{
  ℕ, ◌+◌, Bool, true, false, not, ◌||◌, ◌&&◌, Option, none, some, List, [], ◌∷◌, ◌==◌,
  if◌then◌else◌,
}
use ragz.Documents.State.{Document, IndexState, is_active_index, is_deleting}

-- The `acl_groups` of a point: an unrestricted document has none (update_document_acl).
unfoldable pub acl_payload : Option (List ℕ) → List ℕ
acl_payload none = []
acl_payload (some groups) = groups

-- What `set_document_acl` commits on the row.
unfoldable pub commit_acl : Option (List ℕ) → Document → Document
commit_acl acl d = record d {
  acl_group_ids = acl;
  security_revision = d.security_revision + 1;
  index_state = IndexState.pending;
}

-- The compare-and-set of `project_document_security`, and what it does where it matches no row.
unfoldable pub activate : ℕ → Document → Document
activate target d =
    if d.security_revision == target
    then record d { projected_security_revision = target; index_state = IndexState.active }
    else record d { projected_security_revision = target; index_state = IndexState.pending }

-- A write that raised.
unfoldable pub fail_projection : Document → Document
fail_projection d = record d { index_state = IndexState.failed }

-- A call of `project_document_security` that runs: the row as its session read it.
pub record Projecting : Type 0 where
  pub target : ℕ
  pub groups : List ℕ
  pub written : Bool

unfoldable pub snapshot : Document → Projecting
unfolding acl_payload
snapshot d = record {
  target = d.security_revision;
  groups = acl_payload d.acl_group_ids;
  written = false;
}

-- The row, the document's points, and the calls that run, by session.
pub record Shared : Type 0 where
  pub row : Document
  pub payload : List ℕ
  pub running : ℕ → Option Projecting

unfoldable pub assign : ℕ → Option Projecting → (ℕ → Option Projecting) → ℕ → Option Projecting
assign session p running s = if s == session then p else running s

-- `set` commits a new list and goes on to project it; `start` is a sweep's or a retry's call, which
-- reads the row; `write` reaches the vector store; `finish` is the compare-and-set; `fail` is a write
-- that raised, and `crash` a worker that died.
pub data Event : Type 0 where
  set : ℕ → Option (List ℕ) → Event
  start write finish fail crash : ℕ → Event

write_by : ℕ → Option Projecting → Shared → Shared
write_by session none s = s
write_by session (some p) s = record s {
  payload = p.groups;
  running = assign session (some (record p { written = true })) s.running;
}

finish_by : ℕ → Option Projecting → Shared → Shared
finish_by session none s = s
finish_by session (some p) s =
    if p.written
    then record s { row = activate p.target s.row; running = assign session none s.running }
    else s

fail_by : ℕ → Option Projecting → Shared → Shared
fail_by session none s = s
fail_by session (some p) s = record s {
  row = fail_projection s.row;
  running = assign session none s.running;
}

unfoldable pub step : Event → Shared → Shared
unfolding write_by finish_by fail_by commit_acl activate fail_projection snapshot assign
step (set session acl) s =
    let row = commit_acl acl s.row in
    record s { row = row; running = assign session (some (snapshot row)) s.running }
step (start session) s = record s { running = assign session (some (snapshot s.row)) s.running }
step (write session) s = write_by session (s.running session) s
step (finish session) s = finish_by session (s.running session) s
step (fail session) s = fail_by session (s.running session) s
step (crash session) s = record s { running = assign session none s.running }

unfoldable pub run : List Event → Shared → Shared
unfolding step
run [] s = s
run (e ∷ es) s = run es (step e s)

-- The rows that `reconcile_security_projections` drives again.
unfoldable pub is_stale : Document → Bool
is_stale d =
    (not (is_active_index d.index_state)
      || not (d.projected_security_revision == d.security_revision))
    && not (is_deleting d.status)
