-- ===== src/Outbox/Retention.antt =====
-- What the retention sweep leaves: modules/outbox/service.py, `purge_dispatched`.
use ragz.Prelude.{
  ℕ, zero, suc, ◌-◌, ◌≡◌, true, false, ◌&&◌, some, List, [], ◌∷◌, inl, inr, arith, Bool-cases, ◌==◌,
  take, All, find, any, select_where, ◌∙◌, ap, count_where-delete_where, All-map, find-delete_where,
  find_holds, ==_iff,
}
use ragz.Outbox.{
  OutboxEvent, has_id, is_dispatched, is_pending, is_older, doomed, purge_dispatched,
  pending_backlog,
}
use ragz.Outbox.Dispatch.{IsKeyed, same_row}

-- A doomed row is one of the table, dispatched, and older than the cutoff.
abbrev IsDoomed : ℕ → List OutboxEvent → OutboxEvent → Type 0
IsDoomed cutoff rows e =
    (find (has_id e.id) rows ≡ some e)
    × ((is_dispatched e.status && is_older cutoff e.dispatched_at) ≡ true)

select-IsDoomed :
    (cutoff : ℕ) (rows xs : List OutboxEvent)
    → All (λ e. find (has_id e.id) rows ≡ some e) xs
    → All
        (IsDoomed cutoff rows)
        (select_where (λ e. is_dispatched e.status && is_older cutoff e.dispatched_at) xs)
unfolding select_where
select-IsDoomed cutoff rows [] h = tt
select-IsDoomed cutoff rows (x ∷ xs) h =
    elim (Bool-cases (is_dispatched x.status && is_older cutoff x.dispatched_at)) [
      | inl old ↦ rw old ((h.0, old), select-IsDoomed cutoff rows xs h.1)
      | inr stays ↦ rw stays (select-IsDoomed cutoff rows xs h.1)
    ]

module _ (P : OutboxEvent → Type 0) where
  All-take : (n : ℕ) (xs : List OutboxEvent) → All P xs → All P (take n xs)
  All-take zero xs all = tt
  All-take (suc n) [] all = tt
  All-take (suc n) (x ∷ xs) all = (all.0, All-take n xs all.1)

doomed-IsDoomed :
    (cutoff limit : ℕ) (rows : List OutboxEvent)
    → IsKeyed rows
    → All (IsDoomed cutoff rows) (doomed cutoff limit rows)
unfolding doomed
doomed-IsDoomed cutoff limit rows keyed =
    All-take (IsDoomed cutoff rows) limit _ (select-IsDoomed cutoff rows rows keyed)

-- A row whose id is doomed is doomed.
doomed_row :
    (cutoff : ℕ) (rows ids : List OutboxEvent) (e : OutboxEvent)
    → find (has_id e.id) rows ≡ some e
    → All (IsDoomed cutoff rows) ids
    → any (has_id e.id) ids ≡ true
    → (is_dispatched e.status && is_older cutoff e.dispatched_at) ≡ true
unfolding any
doomed_row cutoff rows [] e found all h = absurd (ground arith)
doomed_row cutoff rows (c ∷ ids) e found all h = elim (Bool-cases (has_id e.id c)) [
  | inl mine ↦ let same = same_row e.id rows c e mine all.0.0 found in rw same at all.0.1
  | inr other ↦ doomed_row cutoff rows ids e found all.1 (rw other at h)
]

not_pending :
    (cutoff : ℕ) (e : OutboxEvent)
    → (is_dispatched e.status && is_older cutoff e.dispatched_at) ≡ true
    → is_pending e.status ≡ false
unfolding is_dispatched is_pending
not_pending cutoff e h = ground arith

own_id :
    (k : ℕ) (rows : List OutboxEvent) (e : OutboxEvent)
    → find (has_id k) rows ≡ some e
    → find (has_id e.id) rows ≡ some e
own_id k rows e found =
    let same : e.id ≡ k =
      unfold has_id in (==_iff e.id k).0 (find_holds (λ x. x.id == k) rows found) in
    ap (λ i. find (has_id i) rows) same ∙ found

spared :
    (cutoff k : ℕ) (rows ids : List OutboxEvent) (e : OutboxEvent)
    → find (has_id k) rows ≡ some e
    → All (IsDoomed cutoff rows) ids
    → (is_dispatched e.status && is_older cutoff e.dispatched_at) ≡ false
    → any (has_id e.id) ids ≡ false
spared cutoff k rows ids e found all owed = elim (Bool-cases (any (has_id e.id) ids)) [
  | inl h ↦ let old = doomed_row cutoff rows ids e (own_id k rows e found) all h in cc (old, owed)
  | inr h ↦ h
]

-- The retention sweep keeps every row that is not both dispatched and past its retention, so an event
-- that is pending or parked stays, and the backlog is what it was.
pub purge_dispatched_keeps :
    (now older_than limit k : ℕ) (rows : List OutboxEvent) (e : OutboxEvent)
    → IsKeyed rows
    → find (has_id k) rows ≡ some e
    → (is_dispatched e.status && is_older (now - older_than) e.dispatched_at) ≡ false
    → let (rows', _) = purge_dispatched now older_than limit rows in
      (find (has_id k) rows' ≡ some e) × (pending_backlog rows' ≡ pending_backlog rows)
unfolding purge_dispatched pending_backlog
purge_dispatched_keeps now older_than limit k rows e keyed found owed =
    let ids = doomed (now - older_than) limit rows in
    let all = doomed-IsDoomed (now - older_than) limit rows keyed in
    (
      find-delete_where (has_id k) (λ x. any (has_id x.id) ids) rows found
          (spared _ k rows ids e found all owed),
      count_where-delete_where (λ x. is_pending x.status) (λ x. any (has_id x.id) ids) rows
          (All-map _ _ rows (λ x h m. not_pending _ x (doomed_row _ rows ids x h all m)) keyed),
    )
