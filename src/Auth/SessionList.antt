-- ===== src/Auth/SessionList.antt =====
-- Which sessions the list shows: modules/auth/service.py, `list_sessions`.
use ragz.Prelude.{
  ℕ, ◌≡◌, refl, Bool, true, not, ◌&&◌, ◌||◌, Option, none, some, List, [], ◌∷◌, ◌==◌, ==_iff,
  is_none, is_id, any, select_where, delete_where, id_elem, arith, ◌∙◌, ap, sym, Bool-cases,
  Option-cases, inl, inr, update_where,
}
use ragz.Auth.State.{RefreshToken, AuthDb, is_in_family, is_live, set_revoked}
use ragz.Auth.Refresh.{revoke_other_sessions, is_other_session}
use ragz.Auth.Sessions.{
  SessionInfo, family_ids, has_rows, session_of, sessions_of, insert_session, sort_sessions,
  list_sessions,
}

-- The list has a session of the family.
abbrev pub is_listed : ℕ → List SessionInfo → Bool
is_listed f ss = any (λ s. s.family_id == f) ss

any-insert_session :
    (f : ℕ) (s : SessionInfo) (xs : List SessionInfo)
    → is_listed f (insert_session s xs) ≡ (s.family_id == f) || is_listed f xs
unfolding any insert_session
any-insert_session f s [] = refl
any-insert_session f s (x ∷ xs) = ground (arith, any-insert_session f s xs)

any-sort_sessions :
    (f : ℕ) (xs : List SessionInfo) → is_listed f (sort_sessions xs) ≡ is_listed f xs
unfolding any sort_sessions
any-sort_sessions f [] = refl
any-sort_sessions f (x ∷ xs) =
    any-insert_session f x (sort_sessions xs)
    ∙ ap (λ b. (x.family_id == f) || b) (any-sort_sessions f xs)

-- A session is of the family that it was made for.
session_family :
    (now g : ℕ) (rows : List RefreshToken) (s : SessionInfo)
    → session_of now rows g ≡ some s
    → s.family_id ≡ g
unfolding session_of
session_family now g rows s h =
    elim (Bool-cases (has_rows (select_where (is_live now) (select_where (is_in_family g) rows)))) [
      | inl live ↦ ground arith
      | inr dead ↦ absurd (ground arith)
    ]

same_session :
    (now f g : ℕ) (rows : List RefreshToken)
    → (f == g) ≡ true
    → session_of now rows f ≡ session_of now rows g
same_session now f g rows h = ap (session_of now rows) ((==_iff f g).0 h)

any-sessions_of :
    (now f : ℕ) (rows : List RefreshToken) (fs : List ℕ)
    → is_listed f (sessions_of now rows fs)
      ≡ (id_elem f fs && not (is_none (session_of now rows f)))
unfolding any sessions_of id_elem
any-sessions_of now f rows [] = refl
any-sessions_of now f rows (g ∷ fs) = elim (Option-cases (session_of now rows g)) [
  | inl missing ↦ ground (arith, any-sessions_of now f rows fs, same_session now f g rows)
  | inr (s, e) ↦ ground (
    arith,
    any-sessions_of now f rows fs,
    same_session now f g rows,
    session_family now g rows s e,
  )
]

id_elem-delete_where :
    (f k : ℕ) (ks : List ℕ)
    → id_elem f (delete_where (λ j. j == k) ks) ≡ (id_elem f ks && not (f == k))
unfolding id_elem delete_where
id_elem-delete_where f k [] = refl
id_elem-delete_where f k (j ∷ ks) = ground (arith, id_elem-delete_where f k ks)

id_elem-family_ids :
    (f : ℕ) (rows : List RefreshToken) → id_elem f (family_ids rows) ≡ any (is_in_family f) rows
unfolding id_elem family_ids any is_in_family
id_elem-family_ids f [] = refl
id_elem-family_ids f (t ∷ rows) =
    ground (arith, id_elem-family_ids f rows, id_elem-delete_where f t.family_id (family_ids rows))

module _ (p q : RefreshToken → Bool) where
  any-select_where : (ts : List RefreshToken) → any p (select_where q ts) ≡ any (λ t. q t && p t) ts
  unfolding any select_where
  any-select_where [] = refl
  any-select_where (t ∷ ts) = ground (arith, any-select_where ts)

  any_both :
      (ts : List RefreshToken) → (any q ts && any (λ t. q t && p t) ts) ≡ any (λ t. q t && p t) ts
  unfolding any
  any_both [] = refl
  any_both (t ∷ ts) = ground (arith, any_both ts)

has_rows-select_where :
    (p : RefreshToken → Bool) (ts : List RefreshToken) → has_rows (select_where p ts) ≡ any p ts
unfolding has_rows select_where any
has_rows-select_where p [] = refl
has_rows-select_where p (t ∷ ts) = ground (arith, has_rows-select_where p ts)

is_session :
    (now f : ℕ) (rows : List RefreshToken)
    → not (is_none (session_of now rows f)) ≡ any (λ t. is_in_family f t && is_live now t) rows
unfolding session_of
is_session now f rows = ground (
  arith,
  has_rows-select_where (is_live now) (select_where (is_in_family f) rows),
  any-select_where (is_live now) (is_in_family f) rows,
)

-- The list shows a session exactly where the user has a token of the family that is neither revoked
-- nor expired.
pub list_sessions_shows :
    (now user_id f : ℕ) (db : AuthDb)
    → is_listed f (list_sessions now user_id db)
      ≡ any (λ t. t.user_id == user_id && (is_in_family f t && is_live now t)) db.refresh_tokens
unfolding list_sessions
list_sessions_shows now user_id f db =
    let rows = select_where (λ t. t.user_id == user_id) db.refresh_tokens in
    any-sort_sessions f (sessions_of now rows (family_ids rows))
    ∙ any-sessions_of now f rows (family_ids rows)
    ∙ ap (λ b. id_elem f (family_ids rows) && b) (is_session now f rows)
    ∙ ap (λ b. b && any (λ t. is_in_family f t && is_live now t) rows) (id_elem-family_ids f rows)
    ∙ any_both (is_live now) (is_in_family f) rows
    ∙ any-select_where (λ t. is_in_family f t && is_live now t) (λ t. t.user_id == user_id)
        db.refresh_tokens

-- What a revocation of the other sessions leaves live.
spared :
    (now later user_id f : ℕ) (keep : Option ℕ) (ts : List RefreshToken)
    → any
        (λ t. t.user_id == user_id && (is_in_family f t && is_live later t))
        (update_where (is_other_session user_id keep) (set_revoked now) ts)
      ≡ (is_id keep f
          && any (λ t. t.user_id == user_id && (is_in_family f t && is_live later t)) ts)
unfolding any update_where is_other_session set_revoked is_in_family is_live
spared now later user_id f none [] = refl
spared now later user_id f (some k) [] = ground arith
spared now later user_id f none (t ∷ ts) = ground (arith, spared now later user_id f none ts)
spared now later user_id f (some k) (t ∷ ts) =
    ground (arith, spared now later user_id f (some k) ts)

-- After signing out everywhere else the list shows the session that is kept, if it was shown, and no
-- other; where none is kept it shows none.
pub revoke_other_sessions_lists :
    (now later user_id f : ℕ) (keep : Option ℕ) (db : AuthDb)
    → is_listed f (list_sessions later user_id (revoke_other_sessions now user_id keep db).1)
      ≡ (is_id keep f && is_listed f (list_sessions later user_id db))
revoke_other_sessions_lists now later user_id f keep db =
    list_sessions_shows later user_id f (revoke_other_sessions now user_id keep db).1
    ∙ unfold revoke_other_sessions in
      spared now later user_id f keep db.refresh_tokens
      ∙ ap (λ b. is_id keep f && b) (sym (list_sessions_shows later user_id f db))
