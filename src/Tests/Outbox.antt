-- ===== src/Tests/Outbox.antt =====
-- Runs of the outbox on a few events.
use ragz.Prelude.{
  ◌≡◌, ℕ, refl, ◌≤◌, ◌+◌, true, false, ◌&&◌, none, some, [], ◌∷◌, List, ◌⊎◌, String, arith, any,
  find, leb, length, str_elem, str_eq, if◌then◌else◌,
}
use ragz.Outbox.{
  OutboxEvent, Broker, Status, pending, dispatched, failed, has_id, is_due, backoff, mark_failed,
  dispatch_pending, purge_dispatched, pending_backlog, handler_topics,
}
use ragz.Outbox.Delivery.{dispatch_pending_keeps}
use ragz.Outbox.Progress.{dispatch_pending_delivers}
use ragz.Outbox.Retention.{purge_dispatched_keeps}

abbrev event : ℕ → String → Status → OutboxEvent
event k topic status = record {
  id = k;
  topic = topic;
  payload = 0;
  queue = "ingest";
  status = status;
  attempts = 0;
  last_error = none;
  available_at = 100;
  dispatched_at = none;
}

abbrev old : OutboxEvent
old = record (event 4 "evals.run" dispatched) { dispatched_at = some 5 }

abbrev rows : List OutboxEvent
rows =
    event 1 "documents.ingest" pending
    ∷ event 2 "documents.rename" pending
    ∷ event 3 "documents.delete" pending
    ∷ old
    ∷ []

-- The broker takes everything but a deletion.
abbrev broker : Broker
broker = record {
  send = λ e. if str_eq e.topic "documents.delete" then some "refused" else none;
  clip = λ s. s;
  report = λ s. s;
}

dispatch_pending_keeps_example :
    let (rows', sent, _) = dispatch_pending broker (λ _. false) 50 100 rows in
    let e = event 2 "documents.rename" pending in
    (e' : OutboxEvent) × (find (has_id 2) rows' ≡ some e')
    × ((e' ≡ e) × (any (has_id 2) sent ≡ false)
        ⊎ (e.status ≡ pending) × (e'.status ≡ dispatched) × (any (has_id 2) sent ≡ true)
        ⊎ (e.status ≡ pending)
          × (e'.status ≡ pending)
          × (e'.attempts ≡ e.attempts + 1)
          × (any (has_id 2) sent ≡ false)
        ⊎ (e.status ≡ pending)
          × (e'.status ≡ failed)
          × (str_elem e.topic handler_topics ≡ false)
          × (any (has_id 2) sent ≡ false))
unfolding find has_id
dispatch_pending_keeps_example =
    dispatch_pending_keeps broker (λ _. false) 50 100 2 rows (event 2 "documents.rename" pending)
      (refl, (refl, (refl, (refl, tt)))) refl

dispatch_pending_delivers_example :
    let (rows', sent, _) = dispatch_pending broker (λ _. false) 50 100 rows in
    (e' : OutboxEvent) × (find (has_id 1) rows' ≡ some e')
    × (e'.status ≡ dispatched)
    × (any (has_id 1) sent ≡ true)
unfolding find has_id ragz.Prelude.select_where is_due ragz.Outbox.is_pending str_elem
    handler_topics
dispatch_pending_delivers_example =
    dispatch_pending_delivers broker (λ _. false) 50 100 1 rows (event 1 "documents.ingest" pending)
      (refl, (refl, (refl, (refl, tt)))) (omega arith) refl refl refl refl refl

purge_dispatched_keeps_example :
    let (rows', _) = purge_dispatched 1000 100 10 rows in
    (find (has_id 1) rows' ≡ some (event 1 "documents.ingest" pending))
    × (pending_backlog rows' ≡ pending_backlog rows)
unfolding find has_id ragz.Outbox.is_dispatched
purge_dispatched_keeps_example =
    purge_dispatched_keeps 1000 100 10 1 rows (event 1 "documents.ingest" pending)
      (refl, (refl, (refl, (refl, tt)))) refl refl

-- The event that the broker refuses stays and the unknown one is parked; later the retention takes the
-- old row and the one that was sent.
sweep :
    let (rows', sent, n) = dispatch_pending broker (λ _. false) 50 100 rows in
    (n ≡ 1) × (pending_backlog rows' ≡ 1) × ((purge_dispatched 1000 100 10 rows').1 ≡ 2)
unfolding dispatch_pending ragz.Outbox.dispatch_all ragz.Outbox.claim_due ragz.Prelude.select_where
    ragz.Outbox.is_pending ragz.Outbox.is_sent str_elem handler_topics pending_backlog
    ragz.Prelude.count_where ragz.Prelude.update_where has_id ragz.Outbox.dispatch_event
    purge_dispatched any ragz.Outbox.is_dispatched ragz.Outbox.is_older
sweep = (refl, refl, refl)
