-- ===== src/Outbox/Progress.antt =====
-- The events that are due at a sweep: worker/outbox.py, `dispatch_pending`.
use ragz.Prelude.{
  ℕ, zero, suc, ◌≤◌, ◌≡◌, refl, Bool, true, false, not, ◌&&◌, ◌||◌, none, some, List, [], ◌∷◌, inl,
  inr, arith, Bool-cases, take, length, find, any, select_where, ◌∙◌, ap, str_elem,
}
use ragz.Outbox.{
  OutboxEvent, dispatched, has_id, sort_due, insert_due, is_due, claim_due, Broker, dispatch_event,
  is_sent, dispatch_pending, handler_topics,
}
use ragz.Outbox.Dispatch.{IsKeyed}
use ragz.Outbox.Delivery.{swept, find-dispatch_pending}

module _ (p : OutboxEvent → Bool) where
  any-insert_due :
      (e : OutboxEvent) (xs : List OutboxEvent) → any p (insert_due e xs) ≡ p e || any p xs
  unfolding any insert_due
  any-insert_due e [] = refl
  any-insert_due e (x ∷ xs) = ground (arith, any-insert_due e xs)

  any-sort_due : (xs : List OutboxEvent) → any p (sort_due xs) ≡ any p xs
  unfolding any sort_due
  any-sort_due [] = refl
  any-sort_due (x ∷ xs) = any-insert_due x (sort_due xs) ∙ ap (λ b. p x || b) (any-sort_due xs)

  any-select_where :
      (q : OutboxEvent → Bool) (xs : List OutboxEvent) (e : OutboxEvent)
      → find p xs ≡ some e
      → q e ≡ true
      → any p (select_where q xs) ≡ true
  unfolding find any select_where
  any-select_where q [] e h m = ground arith
  any-select_where q (x ∷ xs) e h m = elim (Bool-cases (p x)) [
    | inl hit ↦ let same : x ≡ e = ground arith in ground (arith, ap q same)
    | inr miss ↦ ground (arith, any-select_where q xs e (rw miss at h) m)
  ]

length-insert_due :
    (e : OutboxEvent) (xs : List OutboxEvent) → length (insert_due e xs) ≡ suc (length xs)
unfolding insert_due
length-insert_due e [] = refl
length-insert_due e (x ∷ xs) = ground (arith, length-insert_due e xs)

length-sort_due : (xs : List OutboxEvent) → length (sort_due xs) ≡ length xs
unfolding sort_due
length-sort_due [] = refl
length-sort_due (x ∷ xs) = length-insert_due x (sort_due xs) ∙ ap suc (length-sort_due xs)

take_all : (n : ℕ) (xs : List OutboxEvent) → length xs ≤ n → take n xs ≡ xs
take_all zero [] h = refl
take_all zero (x ∷ xs) h = absurd (omega arith)
take_all (suc n) [] h = refl
take_all (suc n) (x ∷ xs) h = ap (λ l. x ∷ l) (take_all n xs (omega arith))

-- The rows that a sweep may take.
abbrev pub claimable : (locked : ℕ → Bool) → ℕ → List OutboxEvent → List OutboxEvent
claimable locked now rows = select_where (λ e. is_due now e && not (locked e.id)) rows

-- If no more rows are due than a sweep takes, it dispatches every due event that no other dispatcher
-- holds, whose topic has a handler and which the broker accepts, and its message is sent.
pub dispatch_pending_delivers :
    (broker : Broker) (locked : ℕ → Bool) (limit now k : ℕ) (rows : List OutboxEvent)
    (e : OutboxEvent)
    → IsKeyed rows
    → length (claimable locked now rows) ≤ limit
    → find (has_id k) rows ≡ some e
    → is_due now e ≡ true
    → locked e.id ≡ false
    → str_elem e.topic handler_topics ≡ true
    → broker.send e ≡ none
    → let (rows', sent, _) = dispatch_pending broker locked limit now rows in
      (e' : OutboxEvent) × (find (has_id k) rows' ≡ some e')
      × (e'.status ≡ dispatched)
      × (any (has_id k) sent ≡ true)
unfolding claim_due dispatch_event is_sent
dispatch_pending_delivers broker locked limit now k rows e keyed room found due free known accepts =
    let after = find-dispatch_pending broker locked limit now k rows e keyed found in
    let claimed : any (has_id k) (claim_due locked limit now rows) ≡ true =
      ap (any (has_id k)) (take_all limit _ (rw length-sort_due room))
      ∙ any-sort_due (has_id k) (claimable locked now rows)
      ∙ any-select_where (has_id k) (λ e. is_due now e && not (locked e.id)) rows e found
          (ground arith) in
    let sent : any (has_id k) (dispatch_pending broker locked limit now rows).1
        ≡ (any (has_id k) (claim_due locked limit now rows) && is_sent broker e) =
      after.1 in
    (swept broker locked limit now k rows e, after.0, ground arith, ground arith)
