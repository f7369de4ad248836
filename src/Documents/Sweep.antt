-- ===== src/Documents/Sweep.antt =====
-- modules/documents/ingest.py: what reconcile_security_projections does when the store answers.
use ragz.Prelude.{
  ℕ, ◌≤◌, ◌≡◌, refl, sym, ap, ◌∙◌, true, false, List, [], ◌∷◌, map, ◌==◌, arith, inl, inr,
  Bool-cases, select_where, id_elem, All, All-map, All-update_where, All-select_where,
  All-unselected, update_where-All, length, take, take-length, ==_iff,
}
use ragz.Documents.State.{Document, DocDb}
use ragz.Documents.Projection.{acl_payload, activate, is_stale}
use ragz.Documents.AclChange.{
  write_document, project_document_security, project_all, reconcile_security_projections,
}
use ragz.Retrieval.Points.{Point, Qdrant}
use ragz.Retrieval.Filter.{update_document_acl}
use ragz.Retrieval.Maintenance.{is_point_of, points-update_document_acl}
use ragz.Documents.Stale.{
  IsKeyed, IsOrdering, AgreeOn, keyed-AgreeOn, SameRevision, same_revision, IsDue, activated-IsDue,
  listed_self,
}

module _ {Score : Type 0} (q : Qdrant Score) where
  -- The points of a row carry its list.
  abbrev pub Carries : q.Store → Document → Type 0
  Carries s d =
      All (λ p. is_point_of d.org_id d.id p ≡ true → p.acl_groups ≡ acl_payload d.acl_group_ids)
        (q.points s)

  written-Carries :
      (l : Document) (s : q.Store)
      → Carries (update_document_acl q l.org_id l.id l.acl_group_ids s) l
  written-Carries l s = rw (points-update_document_acl q l.org_id l.id s l.acl_group_ids) (
      update_where-All
        (λ p. is_point_of l.org_id l.id p ≡ true → p.acl_groups ≡ acl_payload l.acl_group_ids)
        (is_point_of l.org_id l.id) (λ p. record p { acl_groups = acl_payload l.acl_group_ids })
        (q.points s) (λ p hit _. refl) (λ p miss is. absurd (ground (arith, miss, is))))

  point_ids :
      (l l' : Document) (p : Point)
      → is_point_of l'.org_id l'.id p ≡ true
      → is_point_of l.org_id l.id p ≡ true
      → (l'.id == l.id) ≡ true
  point_ids l l' p h k =
      let there : (p.document_id == l'.id) ≡ true = ground (arith, h) in
      let here : (p.document_id == l.id) ≡ true = ground (arith, k) in
      (==_iff l'.id l.id).1
        (sym ((==_iff p.document_id l'.id).0 there) ∙ (==_iff p.document_id l.id).0 here)

  -- A later write is of another document, or writes the same list.
  kept-Carries :
      (l l' : Document) (s : q.Store)
      → ((l'.id == l.id) ≡ true → l' ≡ l)
      → Carries s l
      → Carries (update_document_acl q l'.org_id l'.id l'.acl_group_ids s) l
  kept-Carries l l' s agree carries =
      rw (points-update_document_acl q l'.org_id l'.id s l'.acl_group_ids) (
        All-update_where
          (λ p. is_point_of l.org_id l.id p ≡ true → p.acl_groups ≡ acl_payload l.acl_group_ids)
          (λ p. is_point_of l.org_id l.id p ≡ true → p.acl_groups ≡ acl_payload l.acl_group_ids)
          (is_point_of l'.org_id l'.id)
          (λ p. record p { acl_groups = acl_payload l'.acl_group_ids }) (q.points s)
          (λ p hit _ is. ap (λ d. acl_payload d.acl_group_ids) (agree (point_ids l l' p hit is)))
          (λ p miss h. h) carries)

  -- Where the store answers, a step of the sweep.
  abbrev swept : Document → DocDb → DocDb
  swept l = write_document l.id (activate l.security_revision)

  project_all-step :
      (l : Document) (ls : List Document) (db : DocDb) (s : q.Store)
      → project_all q (λ _. true) (l ∷ ls) db s
        ≡ project_all q
            (λ _. true)
            ls
            (swept l db)
            (update_document_acl q l.org_id l.id l.acl_group_ids s)
  unfolding project_all project_document_security
  project_all-step l ls db s = refl

  project_all-kept :
      (l : Document) (ls : List Document) (db : DocDb) (s : q.Store)
      → AgreeOn ls l
      → Carries s l
      → Carries (project_all q (λ _. true) ls db s).1 l
  unfolding project_all
  project_all-kept l [] db s agree carries = carries
  project_all-kept l (l' ∷ ls) db s agree carries = rw (project_all-step l' ls db s) (
      project_all-kept l ls (swept l' db) (update_document_acl q l'.org_id l'.id l'.acl_group_ids s)
        agree.1 (kept-Carries l l' s agree.0 carries))

  project_all-Carries :
      (ls : List Document) (db : DocDb) (s : q.Store)
      → All (AgreeOn ls) ls
      → All (Carries (project_all q (λ _. true) ls db s).1) ls
  unfolding project_all
  project_all-Carries [] db s agree = tt
  project_all-Carries (l ∷ ls) db s (here, agree) = rw (project_all-step l ls db s) (
    project_all-kept l ls (swept l db) (update_document_acl q l.org_id l.id l.acl_group_ids s)
        here.1 (written-Carries l s),
    project_all-Carries ls (swept l db) (update_document_acl q l.org_id l.id l.acl_group_ids s)
        (All-map (AgreeOn (l ∷ ls)) (AgreeOn ls) ls (λ d h. h.1) agree),
  )

  project_all-settles :
      (ls : List Document) (db : DocDb) (s : q.Store)
      → IsDue ls db.documents
      → All (λ d. is_stale d ≡ false) (project_all q (λ _. true) ls db s).0.documents
  unfolding project_all write_document id_elem
  project_all-settles [] db s (listed, _) =
      All-map (λ d. is_stale d ≡ true → id_elem d.id [] ≡ true) (λ d. is_stale d ≡ false)
        db.documents
        (λ d h. elim (Bool-cases (is_stale d)) [
          | inl stale ↦ absurd (ground (arith, h stale))
          | inr settled ↦ settled
        ])
        listed
  project_all-settles (l ∷ ls) db s due = rw (project_all-step l ls db s) (
      project_all-settles ls (swept l db) (update_document_acl q l.org_id l.id l.acl_group_ids s)
        (activated-IsDue l ls db.documents due))

  -- A sweep while the store answers and that takes every stale row: afterwards no row is stale, and
  -- the points of each row that was carry the list that is committed on it.
  pub reconcile_security_projections-settles :
      (by_update : List Document → List Document) (limit : ℕ) (db : DocDb) (s : q.Store)
      → IsOrdering by_update
      → IsKeyed db.documents
      → length (select_where is_stale db.documents) ≤ limit
      → let (db', s') = reconcile_security_projections q by_update (λ _. true) limit db s in
        All (λ d. is_stale d ≡ false) db'.documents
        × All (λ d. is_stale d ≡ true → Carries s' d) db.documents
  unfolding reconcile_security_projections
  reconcile_security_projections-settles by_update limit db s order keyed few =
      let stale = select_where is_stale db.documents in
      let ls = by_update stale in
      let whole : take limit ls ≡ ls = take-length limit ls (rw (order.same_length stale) few) in
      let agree = keyed-AgreeOn db.documents keyed in
      rw whole (
        project_all-settles ls db s (
          All-unselected (λ d. id_elem d.id (map (λ l. l.id) ls) ≡ true) is_stale db.documents
              (order.back (λ d. id_elem d.id (map (λ l. l.id) ls) ≡ true) stale (listed_self ls)),
          order.into (SameRevision db.documents) stale (
              All-select_where (SameRevision db.documents) is_stale db.documents (
                All-map (AgreeOn db.documents) (SameRevision db.documents) db.documents
                  (same_revision db.documents) agree)),
        ),
        All-unselected (Carries (project_all q (λ _. true) ls db s).1) is_stale db.documents (
            order.back (Carries (project_all q (λ _. true) ls db s).1) stale (
              project_all-Carries ls db s (
                order.into (AgreeOn ls) stale (
                  All-select_where (AgreeOn ls) is_stale db.documents (
                    All-map (AgreeOn db.documents) (AgreeOn ls) db.documents
                      (λ l h.
                        order.into (λ d. (d.id == l.id) ≡ true → d ≡ l) stale
                          (All-select_where (λ d. (d.id == l.id) ≡ true → d ≡ l) is_stale
                            db.documents h))
                      agree))))),
      )
