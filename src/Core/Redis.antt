-- ===== src/Core/Redis.antt =====
-- The Redis commands that the limiter and the claims call, as the server documents them, for
-- any server.
use ragz.Prelude.{
  is_none, Bool, ℕ, ◌+◌, ◌≡◌, refl, ◌≢◌, Option, none, some, String, arith, ltb, str_eq, eq_iff,
  if◌then◌else◌,
}

-- A key holds a count and, once EXPIRE has armed it, the time at which it is dropped.
abbrev pub Slot : Type 0
Slot = Option (ℕ × Option ℕ)

-- What of a slot is left at a time.
abbrev pub alive : ℕ → Slot → Slot
alive now none = none
alive now (some (n, none)) = some (n, none)
alive now (some (n, some deadline)) = if ltb now deadline then some (n, some deadline) else none

abbrev pub count_of : Slot → Option ℕ
count_of none = none
count_of (some (n, deadline)) = some n

-- INCR: a missing key starts at 1 and has no deadline; an existing one keeps its deadline.
abbrev pub incremented : Slot → ℕ × Option ℕ
incremented none = (1, none)
incremented (some (n, deadline)) = (n + 1, deadline)

-- EXPIRE … NX: a deadline that is set is kept.
abbrev pub armed : ℕ → Slot → Slot
armed deadline none = none
armed deadline (some (n, none)) = some (n, some deadline)
armed deadline (some (n, some d)) = some (n, some d)

-- SET … NX EX: a value that is set is kept.
abbrev pub taken : ℕ → ℕ → Slot → Slot
taken n deadline none = some (n, some deadline)
taken n deadline (some held) = some held

pub record Redis : Type 1 where
  pub Store : Type 0
  pub slot : String → Store → Slot
  pub get : String → ℕ → Store → Option ℕ
  pub incr : String → ℕ → Store → ℕ × Store
  pub expire_nx : String → ℕ → ℕ → Store → Store
  pub set_nx : String → ℕ → ℕ → ℕ → Store → Bool × Store
  pub set_ex : String → ℕ → ℕ → ℕ → Store → Store
  pub get_lem : (k : String) (now : ℕ) (s : Store) → get k now s ≡ count_of (alive now (slot k s))
  pub incr_result :
      (k : String) (now : ℕ) (s : Store) → (incr k now s).0 ≡ (incremented (alive now (slot k s))).0
  pub slot-incr :
      (k : String) (now : ℕ) (s : Store)
      → slot k (incr k now s).1 ≡ some (incremented (alive now (slot k s)))
  pub slot-incr_ne :
      (k j : String) (now : ℕ) (s : Store) → j ≢ k → slot j (incr k now s).1 ≡ slot j s
  pub slot-expire_nx :
      (k : String) (seconds now : ℕ) (s : Store)
      → slot k (expire_nx k seconds now s) ≡ armed (now + seconds) (alive now (slot k s))
  pub slot-expire_nx_ne :
      (k j : String) (seconds now : ℕ) (s : Store)
      → j ≢ k
      → slot j (expire_nx k seconds now s) ≡ slot j s
  pub set_nx_result :
      (k : String) (n seconds now : ℕ) (s : Store)
      → (set_nx k n seconds now s).0 ≡ is_none (alive now (slot k s))
  pub slot-set_nx :
      (k : String) (n seconds now : ℕ) (s : Store)
      → slot k (set_nx k n seconds now s).1 ≡ taken n (now + seconds) (alive now (slot k s))
  pub slot-set_ex :
      (k : String) (n seconds now : ℕ) (s : Store)
      → slot k (set_ex k n seconds now s) ≡ some (n, some (now + seconds))

-- A server that keeps its slots in a function.
abbrev pub write : String → Slot → (String → Slot) → String → Slot
write k v s j = if str_eq j k then v else s j

pub write_self : (k : String) (v : Slot) (s : String → Slot) → write k v s k ≡ v
write_self k v s = ground (arith, eq_iff k k)

pub write_ne : (k j : String) (v : Slot) (s : String → Slot) → j ≢ k → write k v s j ≡ s j
write_ne k j v s h = ground (arith, eq_iff j k)

abbrev pub memory : Redis
memory = record {
  Store = String → Slot;
  slot = λ k s. s k;
  get = λ k now s. count_of (alive now (s k));
  incr = λ k now s. let v = incremented (alive now (s k)) in (v.0, write k (some v) s);
  expire_nx = λ k seconds now s. write k (armed (now + seconds) (alive now (s k))) s;
  set_nx = λ k n seconds now s.
      (is_none (alive now (s k)), write k (taken n (now + seconds) (alive now (s k))) s);
  set_ex = λ k n seconds now s. write k (some (n, some (now + seconds))) s;
  set_nx_result = λ k n seconds now s. refl;
  slot-set_nx = λ k n seconds now s. write_self k _ s;
  slot-set_ex = λ k n seconds now s. write_self k _ s;
  get_lem = λ k now s. refl;
  incr_result = λ k now s. refl;
  slot-incr = λ k now s. write_self k _ s;
  slot-incr_ne = λ k j now s h. write_ne k j _ s h;
  slot-expire_nx = λ k seconds now s. write_self k _ s;
  slot-expire_nx_ne = λ k j seconds now s h. write_ne k j _ s h;
}
