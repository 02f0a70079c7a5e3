-- ===== src/Accounts/Logins.antt =====
-- Which sessions a token opens.
use xdev.Prelude.{
  ℕ, ◌*◌, ◌/◌, ◌≡◌, ◌≢◌, refl, true, false, not, List, [], ◌∷◌, ◌++◌, none, some, ltb, ◌==◌,
  if◌then◌else◌, arith, inl, inr, Bool-cases, Text, text_eq, text_eq_refl, find, filter, any,
}
use xdev.Prelude.Result.{ok, err}
use xdev.Store.Schema.{not_found}
use xdev.Accounts.{
  Accounts, Session, second, create_session, session_by_token, delete_session, delete_user,
}

find-absent :
    (token : Text) (rows : List Session) (n : Session)
    → any (λ s. text_eq s.token token) rows ≡ false
    → text_eq n.token token ≡ true
    → find (λ s. text_eq s.token token) (rows ++ n ∷ []) ≡ some n
unfolding any find
find-absent token [] n h e = ground arith
find-absent token (s ∷ rows) n h e = ground (arith, find-absent token rows n)

find-filtered :
    (token : Text) (rows : List Session)
    → find (λ s. text_eq s.token token) (filter (λ s. not (text_eq s.token token)) rows) ≡ none
unfolding find filter
find-filtered token [] = refl
find-filtered token (s ∷ rows) = ground (arith, find-filtered token rows)

-- Where CreateSession succeeds, the token opens that very session until its expiry, counted in whole
-- seconds, and nothing afterwards.
pub create_session-lookup :
    (now : ℕ) (token : Text) (user : ℕ) (csrf : Text) (expires : ℕ) (a : Accounts)
    → (create_session token user csrf expires a).0 ≡ ok tt
    → (session_by_token now token (create_session token user csrf expires a).1).0 ≡ (
        if ltb (expires / second * second) now
        then err not_found
        else ok (record {
          token = token;
          user_id = user;
          csrf_token = csrf;
          expires_at = expires / second;
        }))
unfolding create_session session_by_token
create_session-lookup now token user csrf expires a h = ground (
  arith,
  text_eq_refl token,
  find-absent token a.sessions
      (record { token = token; user_id = user; csrf_token = csrf; expires_at = expires / second }),
)

-- A token that SessionByToken has refused once is refused at every later and earlier time.
pub session_by_token-refused :
    (now again : ℕ) (token : Text) (a : Accounts)
    → (session_by_token now token a).0 ≡ err not_found
    → (session_by_token again token (session_by_token now token a).1).0 ≡ err not_found
unfolding session_by_token delete_session
session_by_token-refused now again token a h = ground (arith, find-filtered token a.sessions)

find-user :
    (token : Text) (id : ℕ) (rows : List Session) (s : Session)
    → find (λ s. text_eq s.token token) (filter (λ s. not (s.user_id == id)) rows) ≡ some s
    → s.user_id ≢ id
unfolding find filter
find-user token id [] s h = cc
find-user token id (r ∷ rows) s h = ground (arith, find-user token id rows s)

-- After DeleteUser has succeeded, no token opens a session of that user.
pub delete_user-logs_out :
    (now id : ℕ) (token : Text) (a : Accounts) (s : Session)
    → (delete_user id a).0 ≡ ok tt
    → (session_by_token now token (delete_user id a).1).0 ≡ ok s
    → s.user_id ≢ id
unfolding delete_user session_by_token
delete_user-logs_out now id token a s done opened =
    elim (Bool-cases (any (λ u. u.id == id) a.users)) [
      | inl e ↦ grind (arith, find-user token id a.sessions, e)
      | inr e ↦ absurd (ground arith)
    ]

-- A token whose session was deleted is refused.
pub delete_session-refused :
    (now : ℕ) (token : Text) (a : Accounts)
    → (session_by_token now token (delete_session token a)).0 ≡ err not_found
unfolding session_by_token delete_session
delete_session-refused now token a = rw (session_by_token, find-filtered token a.sessions) refl
