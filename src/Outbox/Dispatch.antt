-- ===== src/Outbox/Dispatch.antt =====
-- What a sweep of the dispatcher does to each event: worker/outbox.py, `dispatch_pending`.
use ragz.Prelude.{
  ℕ, zero, suc, ltb, ◌≡◌, refl, Bool, true, not, ◌&&◌, some, List, [], ◌∷◌, inl, inr, arith,
  Bool-cases, if◌then◌else◌, All, take, find, any, select_where, update_where, ap,
}
use ragz.Outbox.{
  OutboxEvent, has_id, sort_due, insert_due, is_due, claim_due, Broker, dispatch_event, is_sent,
  store, dispatch_all,
}

-- The primary key: looking a row up by its id gives that row.
abbrev pub IsKeyed : List OutboxEvent → Type 0
IsKeyed rows = All (λ e. find (has_id e.id) rows ≡ some e) rows

module _ (P : OutboxEvent → Type 0) where
  All-insert_due :
      (e : OutboxEvent) (xs : List OutboxEvent) → P e → All P xs → All P (insert_due e xs)
  unfolding insert_due
  All-insert_due e [] h all = (h, tt)
  All-insert_due e (x ∷ xs) h all = elim (Bool-cases (ltb x.available_at e.available_at)) [
    | inl first ↦ rw first (all.0, All-insert_due e xs h all.1)
    | inr last ↦ rw last (h, all)
  ]

  All-sort_due : (xs : List OutboxEvent) → All P xs → All P (sort_due xs)
  unfolding sort_due
  All-sort_due [] all = tt
  All-sort_due (x ∷ xs) all = All-insert_due x (sort_due xs) all.0 (All-sort_due xs all.1)

  All-take : (n : ℕ) (xs : List OutboxEvent) → All P xs → All P (take n xs)
  All-take zero xs all = tt
  All-take (suc n) [] all = tt
  All-take (suc n) (x ∷ xs) all = (all.0, All-take n xs all.1)

find-store :
    (k : ℕ) (e : OutboxEvent) (rows : List OutboxEvent) {x : OutboxEvent}
    → find (has_id k) rows ≡ some x
    → find (has_id k) (store e rows) ≡ some (if has_id k e then e else x)
unfolding find store update_where has_id
find-store k e [] h = absurd (ground arith)
find-store k e (r ∷ rows) {x} h = ground (arith, find-store k e rows {x = x})

-- A claimed event is a row of the table that was due.
abbrev pub IsClaimed : ℕ → List OutboxEvent → OutboxEvent → Type 0
IsClaimed now rows e = (find (has_id e.id) rows ≡ some e) × (is_due now e ≡ true)

select_due_rows :
    (rows : List OutboxEvent) (now : ℕ) (locked : ℕ → Bool) (xs : List OutboxEvent)
    → All (λ e. find (has_id e.id) rows ≡ some e) xs
    → All (IsClaimed now rows) (select_where (λ e. is_due now e && not (locked e.id)) xs)
unfolding select_where
select_due_rows rows now locked [] h = tt
select_due_rows rows now locked (x ∷ xs) h = elim (Bool-cases (is_due now x && not (locked x.id))) [
  | inl due ↦ rw due ((h.0, ground arith), select_due_rows rows now locked xs h.1)
  | inr not_due ↦ rw not_due (select_due_rows rows now locked xs h.1)
]

pub claim_due-IsClaimed :
    (locked : ℕ → Bool) (limit now : ℕ) (rows : List OutboxEvent)
    → IsKeyed rows
    → All (IsClaimed now rows) (claim_due locked limit now rows)
unfolding claim_due
claim_due-IsClaimed locked limit now rows keyed =
    All-take (IsClaimed now rows) limit _
      (All-sort_due (IsClaimed now rows) _ (select_due_rows rows now locked rows keyed))

-- Two rows of one id are one.
pub same_row :
    (k : ℕ) (rows : List OutboxEvent) (c e : OutboxEvent)
    → has_id k c ≡ true
    → find (has_id c.id) rows ≡ some c
    → find (has_id k) rows ≡ some e
    → c ≡ e
same_row k rows c e mine at_c at_e =
    let same : c.id ≡ k = unfold has_id in ground arith in
    cc (at_c, at_e, ap (λ i. find (has_id i) rows) same)

module _ (broker : Broker) (now k : ℕ) where
  has_id-dispatch_event : (c : OutboxEvent) → has_id k (dispatch_event broker now c) ≡ has_id k c
  unfolding dispatch_event has_id
  has_id-dispatch_event c = ground arith

  -- The loop takes the row of a claimed event through one round, and leaves any other row alone.
  pub find-dispatch_all :
      (rows es table : List OutboxEvent) (e x : OutboxEvent)
      → find (has_id k) rows ≡ some e
      → All (λ c. find (has_id c.id) rows ≡ some c) es
      → find (has_id k) table ≡ some x
      → find (has_id k) (dispatch_all broker now es table).0
        ≡ some (if any (has_id k) es then dispatch_event broker now e else x)
  unfolding dispatch_all any
  find-dispatch_all rows [] table e x found claimed h = h
  find-dispatch_all rows (c ∷ es) table e x found claimed h =
      let ih =
        find-dispatch_all rows es (store (dispatch_event broker now c) table) e
          (if has_id k (dispatch_event broker now c) then dispatch_event broker now c else x) found
          claimed.1 (find-store k (dispatch_event broker now c) table h) in
      elim (Bool-cases (has_id k c)) [
        | inl mine ↦
            let same = same_row k rows c e mine claimed.0 found in
            ground (arith, ih, has_id-dispatch_event c, ap (dispatch_event broker now) same)
        | inr other ↦ ground (arith, ih, has_id-dispatch_event c)
      ]

  pub sent_dispatch_all :
      (rows es table : List OutboxEvent) (e : OutboxEvent)
      → find (has_id k) rows ≡ some e
      → All (λ c. find (has_id c.id) rows ≡ some c) es
      → any (has_id k) (dispatch_all broker now es table).1
        ≡ (any (has_id k) es && is_sent broker e)
  unfolding dispatch_all any
  sent_dispatch_all rows [] table e found claimed = refl
  sent_dispatch_all rows (c ∷ es) table e found claimed =
      let ih =
        sent_dispatch_all rows es (store (dispatch_event broker now c) table) e found claimed.1 in
      elim (Bool-cases (has_id k c)) [
        | inl mine ↦
            let same = same_row k rows c e mine claimed.0 found in
            ground (arith, ih, ap (is_sent broker) same)
        | inr other ↦ ground (arith, ih)
      ]
