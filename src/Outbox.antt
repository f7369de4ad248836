-- ===== src/Outbox.antt =====
-- modules/outbox/service.py and worker/outbox.py: the transactional outbox and its dispatcher.
-- Times are seconds; the payload, which only the handlers read, is a number.
pub mod Backoff
pub mod Dispatch
pub mod Delivery
pub mod Progress
pub mod Retention
use ragz.Prelude.{
  ℕ, suc, ◌+◌, ◌-◌, ◌*◌, min, max, Bool, true, false, not, ◌&&◌, Option, none, some, List, [], ◌∷◌,
  ◌++◌, String, ltb, leb, ◌==◌, if◌then◌else◌, take, length, select_where, update_where,
  delete_where, count_where, str_elem, any,
}

-- The values that the table's CHECK constraint allows.
pub data Status : Type 0 where
  pending dispatched failed : Status

unfoldable pub is_pending : Status → Bool
is_pending pending = true
is_pending _ = false

unfoldable pub is_dispatched : Status → Bool
is_dispatched dispatched = true
is_dispatched _ = false

pub record OutboxEvent : Type 0 where
  pub id : ℕ
  pub topic : String
  pub payload : ℕ
  pub queue : String
  pub status : Status
  pub attempts : ℕ
  pub last_error : Option String
  pub available_at : ℕ
  pub dispatched_at : Option ℕ

unfoldable pub has_id : ℕ → OutboxEvent → Bool
has_id k e = e.id == k

-- `_BACKOFF_SECONDS` at an index, and `_MAX_BACKOFF`.
unfoldable pub backoff_seconds : ℕ → ℕ
backoff_seconds i =
    if i == 0
    then 5
    else if i == 1
    then 30
    else if i == 2
    then 120
    else if i == 3
    then 600
    else 1800

abbrev pub max_backoff : ℕ
max_backoff = 3600

-- `_backoff`; the subtraction stops at 0 as `max(attempts - 1, 0)` does.
unfoldable pub backoff : ℕ → ℕ
unfolding backoff_seconds
backoff attempts = min (backoff_seconds (min (attempts - 1) 4)) max_backoff

unfoldable pub publish : ℕ → ℕ → String → ℕ → String → List OutboxEvent → List OutboxEvent
publish id now topic payload queue rows =
    rows
    ++ (record {
      id = id;
      topic = topic;
      payload = payload;
      queue = queue;
      status = pending;
      attempts = 0;
      last_error = none;
      available_at = now;
      dispatched_at = none;
    }
        ∷ [])

-- `order_by(available_at)`
unfoldable pub insert_due : OutboxEvent → List OutboxEvent → List OutboxEvent
insert_due e [] = e ∷ []
insert_due e (x ∷ xs) =
    if ltb x.available_at e.available_at then x ∷ insert_due e xs else e ∷ x ∷ xs

unfoldable pub sort_due : List OutboxEvent → List OutboxEvent
unfolding insert_due
sort_due [] = []
sort_due (e ∷ es) = insert_due e (sort_due es)

unfoldable pub is_due : ℕ → OutboxEvent → Bool
is_due now e = is_pending e.status && leb e.available_at now

-- The rows that another dispatcher has locked are skipped.
unfoldable pub claim_due : (locked : ℕ → Bool) → ℕ → ℕ → List OutboxEvent → List OutboxEvent
unfolding sort_due is_due
claim_due locked limit now rows =
    take limit (sort_due (select_where (λ e. is_due now e && not (locked e.id)) rows))

unfoldable pub mark_dispatched : ℕ → OutboxEvent → OutboxEvent
mark_dispatched now e = record e {
  status = dispatched;
  dispatched_at = some now;
  last_error = none;
}

-- `clip` stands for `error[:1000]`.
unfoldable pub mark_failed : (clip : String → String) → ℕ → String → OutboxEvent → OutboxEvent
unfolding backoff
mark_failed clip now error e = record e {
  attempts = e.attempts + 1;
  last_error = some (clip error);
  available_at = now + backoff (e.attempts + 1);
}

unfoldable pub pending_backlog : List OutboxEvent → ℕ
pending_backlog rows = count_where (λ e. is_pending e.status) rows

-- The topics of `_HANDLERS`.
unfoldable pub handler_topics : List String
handler_topics = "documents.ingest" ∷ "documents.delete" ∷ "documents.reindex" ∷ "evals.run" ∷ []

-- An unknown topic is parked for an operator; `report` stands for the message that names it.
unfoldable pub park : (report : String → String) → OutboxEvent → OutboxEvent
park report e = record e { status = failed; last_error = some (report e.topic) }

-- The broker, which answers a send with the text of an exception or with nothing.
pub record Broker : Type 0 where
  pub send : OutboxEvent → Option String
  pub clip : String → String
  pub report : String → String

-- The row of an event takes what the loop assigned.
unfoldable pub store : OutboxEvent → List OutboxEvent → List OutboxEvent
store e rows = update_where (has_id e.id) (λ _. e) rows

module _ (broker : Broker) where
  -- One round of the loop, on the event's row.
  unfoldable pub dispatch_event : ℕ → OutboxEvent → OutboxEvent
  unfolding mark_dispatched mark_failed park
  dispatch_event now e =
      if not (str_elem e.topic handler_topics) then park broker.report e else elim (broker.send e) [
        | some error ↦ mark_failed broker.clip now error e
        | none ↦ mark_dispatched now e
      ]

  -- Whether the round reached the broker.
  unfoldable pub is_sent : OutboxEvent → Bool
  is_sent e =
      str_elem e.topic handler_topics && (elim (broker.send e) [ some _ ↦ false | none ↦ true ])

  -- The loop over the claimed events: the rows, and the events whose message was sent.
  unfoldable pub dispatch_all :
      ℕ → List OutboxEvent → List OutboxEvent → List OutboxEvent × List OutboxEvent
  unfolding store
  dispatch_all now [] rows = (rows, [])
  dispatch_all now (e ∷ es) rows =
      let (rows', sent) = dispatch_all now es (store (dispatch_event now e) rows) in
      (rows', if is_sent e then e ∷ sent else sent)

  -- Gives the rows, the events whose message was sent, and their number.
  unfoldable pub dispatch_pending :
      (locked : ℕ → Bool) → ℕ → ℕ → List OutboxEvent → List OutboxEvent × List OutboxEvent × ℕ
  dispatch_pending locked limit now rows =
      let (rows', sent) = dispatch_all now (claim_due locked limit now rows) rows in
      (rows', sent, length sent)

-- `_RETENTION`
abbrev pub retention : ℕ
retention = 7 * 24 * 60 * 60

unfoldable pub is_older : ℕ → Option ℕ → Bool
is_older cutoff none = false
is_older cutoff (some t) = ltb t cutoff

-- The ids of the first `limit` dispatched rows past their retention.
unfoldable pub doomed : ℕ → ℕ → List OutboxEvent → List OutboxEvent
doomed cutoff limit rows =
    take limit (select_where (λ e. is_dispatched e.status && is_older cutoff e.dispatched_at) rows)

unfoldable pub purge_dispatched : ℕ → ℕ → ℕ → List OutboxEvent → List OutboxEvent × ℕ
unfolding doomed
purge_dispatched now older_than limit rows =
    let ids = doomed (now - older_than) limit rows in
    (delete_where (λ e. any (has_id e.id) ids) rows, count_where (λ e. any (has_id e.id) ids) rows)
