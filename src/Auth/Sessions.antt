-- ===== src/Auth/Sessions.antt =====
-- modules/auth/service.py: `resolve_session_family` and `list_sessions`, a session being a family of
-- refresh tokens.
use ragz.Prelude.{
  ℕ, Bool, true, false, not, Option, none, some, List, [], ◌∷◌, map, ltb, ◌==◌, min, max,
  if◌then◌else◌, find, select_where, delete_where,
}
use ragz.Auth.State.{RefreshToken, AuthDb, Crypto, has_hash, is_in_family, is_live}

pub record SessionInfo : Type 0 where
  pub family_id : ℕ
  pub created_at : ℕ
  pub last_used_at : ℕ
  pub expires_at : ℕ

unfoldable pub resolve_session_family : Crypto → ℕ → AuthDb → Option ℕ
resolve_session_family crypto raw db = elim (find (has_hash (crypto.hash raw)) db.refresh_tokens) [
  | none ↦ none
  | some t ↦ some t.family_id
]

-- The keys of `families`, in the order in which the rows bring them up.
unfoldable pub family_ids : List RefreshToken → List ℕ
family_ids [] = []
family_ids (t ∷ ts) = t.family_id ∷ delete_where (λ k. k == t.family_id) (family_ids ts)

-- `min` and `max` of a list that is not empty.
unfoldable pub least : List ℕ → ℕ
least [] = 0
least (n ∷ []) = n
least (n ∷ m ∷ ns) = min n (least (m ∷ ns))

unfoldable pub greatest : List ℕ → ℕ
greatest [] = 0
greatest (n ∷ []) = n
greatest (n ∷ m ∷ ns) = max n (greatest (m ∷ ns))

unfoldable pub has_rows : List RefreshToken → Bool
has_rows [] = false
has_rows (_ ∷ _) = true

-- A family with no live token is no session.
unfoldable pub session_of : ℕ → List RefreshToken → ℕ → Option SessionInfo
unfolding least greatest has_rows
session_of now rows family =
    let tokens = select_where (is_in_family family) rows in
    let live = select_where (is_live now) tokens in
    if not (has_rows live)
    then none
    else some (record {
      family_id = family;
      created_at = least (map (λ t. t.created_at) tokens);
      last_used_at = greatest (map (λ t. t.created_at) tokens);
      expires_at = greatest (map (λ t. t.expires_at) live);
    })

unfoldable pub sessions_of : ℕ → List RefreshToken → List ℕ → List SessionInfo
sessions_of now rows [] = []
sessions_of now rows (f ∷ fs) =
    let rest = sessions_of now rows fs in
    elim (session_of now rows f) [ none ↦ rest | some s ↦ s ∷ rest ]

-- `sort(key=last_used_at, reverse=True)`, which keeps the order of equals.
unfoldable pub insert_session : SessionInfo → List SessionInfo → List SessionInfo
insert_session s [] = s ∷ []
insert_session s (x ∷ xs) =
    if ltb s.last_used_at x.last_used_at then x ∷ insert_session s xs else s ∷ x ∷ xs

unfoldable pub sort_sessions : List SessionInfo → List SessionInfo
unfolding insert_session
sort_sessions [] = []
sort_sessions (s ∷ ss) = insert_session s (sort_sessions ss)

unfoldable pub list_sessions : ℕ → ℕ → AuthDb → List SessionInfo
unfolding sort_sessions sessions_of family_ids
list_sessions now user_id db =
    let rows = select_where (λ t. t.user_id == user_id) db.refresh_tokens in
    sort_sessions (sessions_of now rows (family_ids rows))
