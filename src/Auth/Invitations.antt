-- ===== src/Auth/Invitations.antt =====
-- What an invitation gives: modules/auth/service.py, `accept_invitation`.
use ragz.Prelude.{
  ℕ, ◌≡◌, refl, not, ◌||◌, some, [], ◌∷◌, ◌++◌, inl, inr, ◌∙◌, authentication, ok, err, arith,
  Bool-cases, find, find-update_where, is_none, ◌==◌, ltb, update_where, ap,
}
use ragz.Auth.State.{User, Invitation, AuthDb, Crypto}
use ragz.Auth.Accounts.{accept_invitation, has_invitation_hash, mark_accepted, new_user, is_taken}

module _ (crypto : Crypto) where
  -- The database after an acceptance.
  accept_done :
      (now user_id raw password : ℕ) (i : Invitation) (u : User) (db : AuthDb)
      → find (has_invitation_hash (crypto.hash raw)) db.invitations ≡ some i
      → (accept_invitation crypto now user_id raw password db).0 ≡ ok u
      → let db' = (accept_invitation crypto now user_id raw password db).1 in
        (u ≡ new_user user_id i.org_id i.email (crypto.hash_password password) i.role)
        × (db'.users ≡ db.users ++ (u ∷ []))
        × (db'.invitations ≡ update_where (λ j. j.id == i.id) (mark_accepted now) db.invitations)
  unfolding accept_invitation
  accept_done now user_id raw password i u db found h =
      elim (Bool-cases (not (is_none i.accepted_at) || ltb i.expires_at now)) [
        | inl over ↦ absurd (ground arith)
        | inr open_still ↦
            elim (Bool-cases (
              is_taken (new_user user_id i.org_id i.email (crypto.hash_password password) i.role)
                db)) [
                  | inl taken ↦ absurd (ground arith)
                  | inr free ↦ (ground arith, ground arith, ground arith)
                ]
      ]

  accepted_is_refused :
      (now later user_id raw password : ℕ) (i : Invitation) (db : AuthDb)
      → find (has_invitation_hash (crypto.hash raw)) db.invitations ≡ some (mark_accepted now i)
      → accept_invitation crypto later user_id raw password db ≡ (err authentication, db)
  unfolding accept_invitation mark_accepted
  accepted_is_refused now later user_id raw password i db found = ground arith

  -- An invitation works once: the account that it gives has the email, the organisation and the role
  -- that it was made for, and using it again is refused and changes nothing.
  pub accept_invitation_once :
      (now later user_id again raw password other : ℕ) (i : Invitation) (u : User) (db : AuthDb)
      → find (has_invitation_hash (crypto.hash raw)) db.invitations ≡ some i
      → (accept_invitation crypto now user_id raw password db).0 ≡ ok u
      → let db' = (accept_invitation crypto now user_id raw password db).1 in
        (db'.users ≡ db.users ++ (u ∷ []))
        × (u.email ≡ i.email)
        × (u.org_id ≡ i.org_id)
        × (u.role ≡ i.role)
        × (accept_invitation crypto later again raw other db' ≡ (err authentication, db'))
  accept_invitation_once now later user_id again raw password other i u db found h =
      let (made, users, invitations) = accept_done now user_id raw password i u db found h in
      let marked : find (has_invitation_hash (crypto.hash raw))
            (accept_invitation crypto now user_id raw password db).1.invitations
          ≡ some (mark_accepted now i) =
        rw invitations (
          find-update_where (has_invitation_hash (crypto.hash raw)) (λ j. j.id == i.id)
            (mark_accepted now) db.invitations
            (λ j. unfold has_invitation_hash mark_accepted in refl)
          ∙ rw found (ground arith)) in
      (
        users,
        ap (λ v. v.email) made ∙ unfold new_user in refl,
        ap (λ v. v.org_id) made ∙ unfold new_user in refl,
        ap (λ v. v.role) made ∙ unfold new_user in refl,
        accepted_is_refused now later again raw other i _ marked,
      )
