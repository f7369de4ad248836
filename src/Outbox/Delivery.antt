-- ===== src/Outbox/Delivery.antt =====
-- What becomes of each event in a sweep: worker/outbox.py, `dispatch_pending`.
use ragz.Prelude.{
  ℕ, ◌+◌, ◌≡◌, Bool, true, false, ◌&&◌, some, List, [], ◌∷◌, inl, inr, ◌⊎◌, arith, Bool-cases,
  Option-cases, if◌then◌else◌, All, All-map, find, any, str_elem,
}
use ragz.Outbox.{
  OutboxEvent, pending, dispatched, failed, is_pending, has_id, is_due, claim_due, Broker,
  dispatch_event, is_sent, dispatch_pending, handler_topics,
}
use ragz.Outbox.Dispatch.{
  IsKeyed, IsClaimed, same_row, claim_due-IsClaimed, find-dispatch_all, sent_dispatch_all,
}

-- A row that is among the claimed ones was pending.
claimed_was_pending :
    (now k : ℕ) (rows es : List OutboxEvent) (e : OutboxEvent)
    → find (has_id k) rows ≡ some e
    → All (IsClaimed now rows) es
    → any (has_id k) es ≡ true
    → e.status ≡ pending
unfolding any
claimed_was_pending now k rows [] e found all h = absurd (ground arith)
claimed_was_pending now k rows (c ∷ es) e found all h = elim (Bool-cases (has_id k c)) [
  | inl mine ↦
      let same = same_row k rows c e mine all.0.0 found in
      let due : is_due now c ≡ true = all.0.1 in unfold is_due is_pending in ground arith
  | inr other ↦ claimed_was_pending now k rows es e found all.1 (rw other at h)
]

module _ (broker : Broker) (locked : ℕ → Bool) (limit now k : ℕ) (rows : List OutboxEvent) where
  -- What a sweep leaves of the row `e`.
  abbrev pub swept : OutboxEvent → OutboxEvent
  swept e =
      if any (has_id k) (claim_due locked limit now rows) then dispatch_event broker now e else e

  pub find-dispatch_pending :
      (e : OutboxEvent)
      → IsKeyed rows
      → find (has_id k) rows ≡ some e
      → (find (has_id k) (dispatch_pending broker locked limit now rows).0 ≡ some (swept e))
        × (any (has_id k) (dispatch_pending broker locked limit now rows).1
            ≡ (any (has_id k) (claim_due locked limit now rows) && is_sent broker e))
  unfolding dispatch_pending
  find-dispatch_pending e keyed found =
      let claimed =
        All-map _ (λ c. find (has_id c.id) rows ≡ some c) (claim_due locked limit now rows)
          (λ c h. h.0) (claim_due-IsClaimed locked limit now rows keyed) in
      (
        find-dispatch_all broker now k rows (claim_due locked limit now rows) rows e e found claimed
            found,
        sent_dispatch_all broker now k rows (claim_due locked limit now rows) rows e found claimed,
      )

  -- A sweep loses no event. The row is there afterwards, and it is as it was and no message was sent;
  -- or it is dispatched and its message was sent; or the broker refused it and it is pending still,
  -- with one more attempt; or its topic has no handler and it is parked. Only a pending row is taken.
  pub dispatch_pending_keeps :
      (e : OutboxEvent)
      → IsKeyed rows
      → find (has_id k) rows ≡ some e
      → let (rows', sent, _) = dispatch_pending broker locked limit now rows in
        (e' : OutboxEvent) × (find (has_id k) rows' ≡ some e')
        × ((e' ≡ e) × (any (has_id k) sent ≡ false)
            ⊎ (e.status ≡ pending) × (e'.status ≡ dispatched) × (any (has_id k) sent ≡ true)
            ⊎ (e.status ≡ pending)
              × (e'.status ≡ pending)
              × (e'.attempts ≡ e.attempts + 1)
              × (any (has_id k) sent ≡ false)
            ⊎ (e.status ≡ pending)
              × (e'.status ≡ failed)
              × (str_elem e.topic handler_topics ≡ false)
              × (any (has_id k) sent ≡ false))
  unfolding dispatch_event is_sent
  dispatch_pending_keeps e keyed found =
      let after = find-dispatch_pending e keyed found in
      let sent : any (has_id k) (dispatch_pending broker locked limit now rows).1
          ≡ (any (has_id k) (claim_due locked limit now rows) && is_sent broker e) =
        after.1 in
      (
        swept e,
        after.0,
        elim (Bool-cases (any (has_id k) (claim_due locked limit now rows))) [
          | inr unclaimed ↦ inl (ground arith, ground arith)
          | inl taken ↦
              let was =
                claimed_was_pending now k rows _ e found
                  (claim_due-IsClaimed locked limit now rows keyed) taken in
              elim (Bool-cases (str_elem e.topic handler_topics)) [
                | inr unknown ↦ inr (inr (inr (was, ground arith, unknown, ground arith)))
                | inl known ↦ elim (Option-cases (broker.send e)) [
                  | inl accepted ↦ inr (inl (was, ground arith, ground arith))
                  | inr (error, refused) ↦
                      inr (inr (inl (was, ground arith, ground arith, ground arith)))
                ]
              ]
        ],
      )
