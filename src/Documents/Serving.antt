-- ===== src/Documents/Serving.antt =====
-- modules/documents/service.py: which access list the vector store serves by.
use ragz.Prelude.{
  ℕ, ◌≤◌, ◌≡◌, refl, true, false, Option, none, some, List, [], ◌∷◌, arith, inl, inr, Bool-cases,
  Option-cases,
}
use ragz.Documents.State.{Document, is_active_index}
use ragz.Documents.Projection.{
  acl_payload, Projecting, Shared, Event, set, start, write, finish, fail, crash, step, run,
  is_stale,
}

-- The revision of the last write to the vector store, after the next event.
abbrev write_stamp : ℕ → Option Projecting → ℕ
write_stamp stamp none = stamp
write_stamp stamp (some p) = p.target

abbrev pub stamp_after : ℕ → Event → Shared → ℕ
stamp_after stamp (write session) s = write_stamp stamp (s.running session)
stamp_after stamp _ s = stamp

-- No write to the vector store is of an older revision than one before it.
abbrev pub IsOrdered : ℕ → List Event → Shared → Type 0
IsOrdered stamp [] s = Unit
IsOrdered stamp (e ∷ es) s =
    (stamp ≤ stamp_after stamp e s) × IsOrdered (stamp_after stamp e s) es (step e s)

-- A call that runs is of a revision that was committed, and of the list of that revision.
abbrev IsCall : ℕ → Document → Projecting → Type 0
IsCall stamp row p =
    (p.target ≤ row.security_revision)
    × (p.target ≡ row.security_revision → p.groups ≡ acl_payload row.acl_group_ids)
    × (p.written ≡ true → p.target ≤ stamp)

record IsServing (stamp : ℕ) (s : Shared) : Type 0 where
  bound : stamp ≤ s.row.security_revision
  current : stamp ≡ s.row.security_revision → s.payload ≡ acl_payload s.row.acl_group_ids
  active : is_active_index s.row.index_state ≡ true → stamp ≡ s.row.security_revision
  projected :
      is_active_index s.row.index_state ≡ true
      → s.row.projected_security_revision ≡ s.row.security_revision
  calls : (session : ℕ) (p : Projecting) → s.running session ≡ some p → IsCall stamp s.row p

step-IsServing :
    (stamp : ℕ) (e : Event) (s : Shared)
    → stamp ≤ stamp_after stamp e s
    → IsServing stamp s
    → IsServing (stamp_after stamp e s) (step e s)
unfolding step is_active_index
step-IsServing stamp (set session acl) s le h = record {
  bound = omega (arith, h.bound);
  current = λ e. absurd (omega (arith, h.bound));
  active = λ e. absurd (ground arith);
  projected = λ e. absurd (ground arith);
  calls = λ k p at. ground (arith, h.calls k p);
}
step-IsServing stamp (start session) s le h = record {
  bound = h.bound;
  current = h.current;
  active = h.active;
  projected = h.projected;
  calls = λ k p at. ground (arith, h.calls k p);
}
step-IsServing stamp (write session) s le h = elim (Option-cases (s.running session)) [
  | inl e ↦ rw e h
  | inr (p, e) ↦
      let call = h.calls session p e in
      rw e (record {
        bound = call.0;
        current = call.1;
        active = λ live. ground (arith, h.active live, call, rw e at le, h.bound);
        projected = h.projected;
        calls = λ k q at. ground (arith, h.calls k q, call, rw e at le);
      })
]
step-IsServing stamp (finish session) s le h = elim (Option-cases (s.running session)) [
  | inl e ↦ rw e h
  | inr (p, e) ↦ elim (Bool-cases p.written) [
    | inr idle ↦ rw (e, idle) h
    | inl done ↦
        let call = h.calls session p e in
        rw (e, done)
          (record {
            bound = ground (arith, h.bound);
            current = λ at. ground (arith, h.current);
            active = λ live. ground (arith, call, done, h.bound);
            projected = λ live. ground arith;
            calls = λ k q at. ground (arith, h.calls k q);
          })
  ]
]
step-IsServing stamp (fail session) s le h = elim (Option-cases (s.running session)) [
  | inl e ↦ rw e h
  | inr (p, e) ↦ rw e (record {
    bound = h.bound;
    current = h.current;
    active = λ live. absurd (ground arith);
    projected = λ live. absurd (ground arith);
    calls = λ k q at. ground (arith, h.calls k q);
  })
]
step-IsServing stamp (crash session) s le h = record {
  bound = h.bound;
  current = h.current;
  active = h.active;
  projected = h.projected;
  calls = λ k p at. ground (arith, h.calls k p);
}

run-IsServing :
    (stamp : ℕ) (es : List Event) (s : Shared)
    → IsOrdered stamp es s
    → IsServing stamp s
    → (last : ℕ) × IsServing last (run es s)
unfolding run
run-IsServing stamp [] s ordered h = (stamp, h)
run-IsServing stamp (e ∷ es) s ordered h =
    run-IsServing (stamp_after stamp e s) es (step e s) ordered.1
      (step-IsServing stamp e s ordered.0 h)

-- A document that is projected, with no call under way.
pub record IsSettled (s : Shared) : Type 0 where
  pub payload : s.payload ≡ acl_payload s.row.acl_group_ids
  pub projected : s.row.projected_security_revision ≡ s.row.security_revision
  pub idle : (session : ℕ) → s.running session ≡ none

settled-IsServing : (s : Shared) → IsSettled s → IsServing s.row.security_revision s
settled-IsServing s h = record {
  bound = omega arith;
  current = λ _. h.payload;
  active = λ _. refl;
  projected = λ _. h.projected;
  calls = λ k p at. absurd (ground (arith, h.idle k, at));
}

-- However changes of a document's access list, retries, sweeps, failed writes and dead workers
-- interleave from a settled state, if writes reach the vector store in the order of their revisions,
-- then whenever the row is active its points carry the committed list at the committed revision.
pub ordered_projections_serve :
    (es : List Event) (s : Shared)
    → IsSettled s
    → IsOrdered s.row.security_revision es s
    → is_active_index (run es s).row.index_state ≡ true
    → ((run es s).payload ≡ acl_payload (run es s).row.acl_group_ids)
      × ((run es s).row.projected_security_revision ≡ (run es s).row.security_revision)
ordered_projections_serve es s settled ordered live =
    let (stamp, h) =
      run-IsServing s.row.security_revision es s ordered (settled-IsServing s settled) in
    (h.current (h.active live), h.projected live)

-- Two changes of one document: the first one's write lands after the second one's, and its
-- compare-and-set, which fails, before the second one's.
abbrev pub overtaking : Option (List ℕ) → Option (List ℕ) → List Event
overtaking first second = set 1 first ∷ set 2 second ∷ write 2 ∷ write 1 ∷ finish 1 ∷ finish 2 ∷ []

-- From any state: when the write of a change lands after that of a later change, and its own
-- compare-and-set comes before the later one's, the row ends active at the later list and revision
-- with no call of the two under way, the points carry the earlier list, and the sweep passes it over.
pub overtaken_projection_stays :
    (first second : Option (List ℕ)) (s : Shared)
    → let last = run (overtaking first second) s in
      (is_active_index last.row.index_state ≡ true)
      × (last.row.acl_group_ids ≡ second)
      × (last.payload ≡ acl_payload first)
      × (last.running 1 ≡ none)
      × (last.running 2 ≡ none)
      × (is_stale last.row ≡ false)
unfolding run is_active_index is_stale
overtaken_projection_stays first second s =
    (ground arith, ground arith, ground arith, ground arith, ground arith, ground arith)
