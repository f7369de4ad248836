-- ===== src/Core/Replay.antt =====
-- Which of a sequence of deliveries are let through: core/idempotency.py.
use ragz.Prelude.{
  ℕ, ◌+◌, ◌≤◌, ◌<◌, ◌≡◌, refl, true, false, none, some, List, [], ◌∷◌, String, arith, leb, All,
  if◌then◌else◌, ◌∙◌, Bool-cases, inl, inr,
}
use ragz.Core.Redis.{Redis, alive}
use ragz.Core.Idempotency.{claim_once, claim_monotonic}

-- The values rise, from above `m`.
abbrev pub Rises : ℕ → List ℕ → Type 0
Rises m [] = Unit
Rises m (v ∷ vs) = (m < v) × Rises v vs

module _ (redis : Redis) where
  open redis use {Store, slot, get, get_lem, set_nx_result, slot-set_nx, slot-set_ex, set_ex}

  -- The claims of one key at the given times, and how many were won.
  unfoldable pub claims : String → ℕ → List ℕ → Store → ℕ × Store
  claims key ttl [] s = (0, s)
  claims key ttl (t ∷ ts) s =
      let (won, after) = claim_once redis key ttl t s in
      let (n, last) = claims key ttl ts after in ((if won then 1 else 0) + n, last)

  claims_taken :
      (key : String) (ttl deadline n : ℕ) (ts : List ℕ) (s : Store)
      → slot key s ≡ some (n, some deadline)
      → All (λ t. t < deadline) ts
      → (claims key ttl ts s).0 ≡ 0
  unfolding claims claim_once
  claims_taken key ttl deadline n [] s h lt = refl
  claims_taken key ttl deadline n (t ∷ ts) s h lt =
      let lost : (claim_once redis key ttl t s).0 ≡ false =
        set_nx_result key 1 ttl t s ∙ rw h (ground arith) in
      let next : slot key (claim_once redis key ttl t s).1 ≡ some (n, some deadline) =
        slot-set_nx key 1 ttl t s ∙ rw h (ground arith) in
      ground
        (arith, lost, claims_taken key ttl deadline n ts (claim_once redis key ttl t s).1 next lt.1)

  -- When no claim of a delivery is alive at first, then however often it comes again before the
  -- first claim lapses, exactly one claim of it is won.
  pub one_claim_wins :
      (key : String) (ttl start : ℕ) (ts : List ℕ) (s : Store)
      → alive start (slot key s) ≡ none
      → All (λ t. t < start + ttl) ts
      → (claims key ttl (start ∷ ts) s).0 ≡ 1
  unfolding claims claim_once
  one_claim_wins key ttl start ts s free lt =
      let won : (claim_once redis key ttl start s).0 ≡ true =
        set_nx_result key 1 ttl start s ∙ rw free refl in
      let next : slot key (claim_once redis key ttl start s).1 ≡ some (1, some (start + ttl)) =
        slot-set_nx key 1 ttl start s ∙ rw free refl in
      ground (
        arith,
        won,
        claims_taken key ttl (start + ttl) 1 ts (claim_once redis key ttl start s).1 next lt,
      )

  -- The values of the deliveries that are let through, a delivery being its time and its value.
  unfoldable pub accepted : String → ℕ → List (ℕ × ℕ) → Store → List ℕ
  accepted key ttl [] s = []
  accepted key ttl ((t, v) ∷ ds) s =
      let (won, after) = claim_monotonic redis key v ttl t s in
      let rest = accepted key ttl ds after in if won then v ∷ rest else rest

  claim_lost :
      (key : String) (ttl t m v : ℕ) (s : Store)
      → get key t s ≡ some m
      → leb v m ≡ true
      → claim_monotonic redis key v ttl t s ≡ (false, s)
  unfolding claim_monotonic
  claim_lost key ttl t m v s read stale = ground (arith, read)

  claim_won :
      (key : String) (ttl t m v : ℕ) (s : Store)
      → get key t s ≡ some m
      → leb v m ≡ false
      → claim_monotonic redis key v ttl t s ≡ (true, set_ex key v ttl t s)
  unfolding claim_monotonic
  claim_won key ttl t m v s read newer = ground (arith, read)

  -- Deliveries that all come within the mark's lifetime are let through in rising order of their
  -- values, from above the mark: none twice, and none that is overtaken.
  pub accepted-Rises :
      (key : String) (ttl base m deadline : ℕ) (ds : List (ℕ × ℕ)) (s : Store)
      → slot key s ≡ some (m, some deadline)
      → base + ttl ≤ deadline
      → All (λ d. (base ≤ d.0) × (d.0 < base + ttl)) ds
      → Rises m (accepted key ttl ds s)
  unfolding accepted
  accepted-Rises key ttl base m deadline [] s h le within = tt
  accepted-Rises key ttl base m deadline ((t, v) ∷ ds) s h le within =
      let (fits, rest) = within in
      let read : get key t s ≡ some m = get_lem key t s ∙ rw h (ground (arith, fits.0, fits.1)) in
      elim (Bool-cases (leb v m)) [
        | inl stale ↦
            rw (claim_lost key ttl t m v s read stale)
              (accepted-Rises key ttl base m deadline ds s h le rest)
        | inr newer ↦ rw (claim_won key ttl t m v s read newer) (
          ground arith,
          accepted-Rises key ttl base v (t + ttl) ds (set_ex key v ttl t s)
              (slot-set_ex key v ttl t s) (omega (arith, fits.0)) rest,
        )
      ]
