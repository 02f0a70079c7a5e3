-- ===== src/Auth/Guard.antt =====
-- Which requests RequireAuth lets through.
use xdev.Prelude.{
  ℕ, ◌+◌, ◌*◌, ◌/◌, ◌≤◌, ◌≡◌, refl, ap, sym, ◌∙◌, ◌⊎◌, inl, inr, ◌||◌, Bool, true, false, List, [],
  ◌∷◌, some, ltb, if◌then◌else◌, arith, Bool-cases, Option-cases, Text, text_eq, text_eq_sound,
  find, In,
}
use xdev.Prelude.Result.{Result, ok, err, Result-cases}
use xdev.Store.Schema.{StoreError, not_found}
use xdev.Accounts.{
  Accounts, User, Session, second, user_by_id, create_session, session_by_token, delete_session,
}
use xdev.Accounts.Logins.{create_session-lookup, delete_session-refused}
use xdev.Auth.{
  Request, to_login, forbidden, handled, session_ttl, start_session, with_csrf, end_session,
  is_safe_method, check_csrf, require_session, require_auth,
}

-- What stands behind a request that reaches its handler.
pub record Admitted (now : ℕ) (r : Request) (a : Accounts) (u : User) (s : Session) : Type 0 where
  pub carried : r.cookie ≡ some s.token
  pub stored : In s a.sessions
  pub alive : now ≤ s.expires_at * second
  pub owner : user_by_id s.user_id a ≡ ok u
  pub checked : (is_safe_method r.method ≡ true) ⊎ (r.csrf_field ≡ s.csrf_token)

find-token :
    (token : Text) (rows : List Session) (s : Session)
    → find (λ s. text_eq s.token token) rows ≡ some s
    → (In s rows) × (text_eq s.token token ≡ true)
unfolding find
find-token token [] s h = absurd (ground (arith, h))
find-token token (r ∷ rows) s h = elim (Bool-cases (text_eq r.token token)) [
  | inl e ↦ (inl (ground (arith, h, e)), ground (arith, h, e))
  | inr e ↦ let rest = find-token token rows s (ground (arith, h, e)) in (inr rest.0, rest.1)
]

session_by_token-ok :
    (now : ℕ) (token : Text) (a : Accounts) (s : Session)
    → (session_by_token now token a).0 ≡ ok s
    → (find (λ s. text_eq s.token token) a.sessions ≡ some s)
      × (now ≤ s.expires_at * second)
      × ((session_by_token now token a).1 ≡ a)
unfolding session_by_token
session_by_token-ok now token a s h =
    elim (Option-cases (find (λ s. text_eq s.token token) a.sessions)) [
      | inl e ↦ absurd (ground (arith, h, e))
      | inr (x, e) ↦ elim (Bool-cases (ltb (x.expires_at * second) now)) [
        | inl late ↦ absurd (ground (arith, h, e, late))
        | inr live ↦ (
          ground (arith, h, e, live),
          ground (arith, h, e, live),
          rw (session_by_token, e, live) refl,
        )
      ]
    ]

check_csrf-handled :
    (r : Request) (u v : User) (s t : Session)
    → check_csrf r u s ≡ handled v t
    → (u ≡ v) × (s ≡ t) × ((is_safe_method r.method ≡ true) ⊎ (r.csrf_field ≡ s.csrf_token))
unfolding check_csrf
check_csrf-handled r u v s t h = elim (Bool-cases (is_safe_method r.method)) [
  | inl safe ↦ (ground (arith, h, safe), ground (arith, h, safe), inl safe)
  | inr unsafe ↦ elim (Bool-cases (text_eq r.csrf_field s.csrf_token)) [
    | inl same ↦ (
      ground (arith, h, unsafe, same),
      ground (arith, h, unsafe, same),
      inr (text_eq_sound r.csrf_field s.csrf_token same),
    )
    | inr other ↦ absurd (ground (arith, h, unsafe, other))
  ]
]

require_session-handled :
    (r : Request) (res : Result StoreError Session) (a : Accounts) (u : User) (s : Session)
    → (require_session r (res, a)).0 ≡ handled u s
    → (res ≡ ok s)
      × (user_by_id s.user_id a ≡ ok u)
      × ((is_safe_method r.method ≡ true) ⊎ (r.csrf_field ≡ s.csrf_token))
unfolding require_session
require_session-handled r (err e) a u s h = absurd (ground (arith, h))
require_session-handled r (ok t) a u s h = elim (Result-cases (user_by_id t.user_id a)) [
  | inl (v, e) ↦
      let admitted = check_csrf-handled r v u t s (ground (arith, h, e)) in
      (
        ap ok admitted.1,
        ground (arith, e, admitted.0, admitted.1),
        ground (arith, admitted.1, admitted.2),
      )
  | inr (f, e) ↦ absurd (ground (arith, h, e))
]

-- A request that reaches a handler carries the token of a session that the store holds and that
-- has not expired; the user given to the handler is the session's; and the method is safe or the
-- form has the session's CSRF token.
pub require_auth-Admitted :
    (now : ℕ) (r : Request) (a : Accounts) (u : User) (s : Session)
    → (require_auth now r a).0 ≡ handled u s
    → Admitted now r a u s
unfolding require_auth
require_auth-Admitted now r a u s h = elim (Option-cases (r.cookie)) [
  | inl e ↦ absurd (ground (arith, h, e))
  | inr (token, e) ↦
      let opened =
        require_session-handled r (session_by_token now token a).0 (session_by_token now token a).1
          u s (ground (arith, h, e)) in
      let found = session_by_token-ok now token a s opened.0 in
      let row = find-token token a.sessions s found.0 in
      record {
        carried = rw (text_eq_sound s.token token row.1) e;
        stored = row.0;
        alive = found.1;
        owner = rw (sym found.2) opened.1;
        checked = opened.2;
      }
]

with_csrf-ok :
    (csrf c : Text) (res : Result StoreError (Unit {0})) (a : Accounts)
    → (with_csrf csrf (res, a)).0 ≡ ok c
    → (res ≡ ok tt) × (c ≡ csrf) × ((with_csrf csrf (res, a)).1 ≡ a)
unfolding with_csrf
with_csrf-ok csrf c (ok tt) a h = (refl, ground (arith, h), refl)
with_csrf-ok csrf c (err e) a h = absurd (ground (arith, h))

create_session-keeps_users :
    (token : Text) (user : ℕ) (csrf : Text) (expires id : ℕ) (a : Accounts)
    → user_by_id id (create_session token user csrf expires a).1 ≡ user_by_id id a
unfolding create_session user_by_id
create_session-keeps_users token user csrf expires id a = ground arith

session_by_token-keeps_users :
    (now : ℕ) (token : Text) (id : ℕ) (a : Accounts)
    → user_by_id id (session_by_token now token a).1 ≡ user_by_id id a
unfolding session_by_token user_by_id delete_session
session_by_token-keeps_users now token id a = ground arith

-- What the guard makes of a token whose session is there until it is late.
require_auth-owned :
    (now : ℕ) (token : Text) (late : Bool) (r : Request) (a : Accounts) (u : User) (s : Session)
    → r.cookie ≡ some token
    → (session_by_token now token a).0 ≡ (if late then err not_found else ok s)
    → user_by_id s.user_id a ≡ ok u
    → (require_auth now r a).0 ≡ (
        if late
        then to_login
        else if is_safe_method r.method || text_eq r.csrf_field s.csrf_token
        then handled u s
        else forbidden)
unfolding require_auth require_session check_csrf
require_auth-owned now token true r a u s carried found owner = ground (arith, carried, found)
require_auth-owned now token false r a u s carried found owner =
    ground (arith, carried, found, owner, session_by_token-keeps_users now token s.user_id a)

-- Where StartSession succeeds for a user of the store, a request with the session's cookie goes to
-- the login page once the expiry, in whole seconds, is over; until then it reaches its handler as
-- that user, except that an unsafe method without the CSRF token that StartSession gave is forbidden.
pub start_session-require_auth :
    (now later : ℕ) (token csrf c : Text) (user : ℕ) (a : Accounts) (u : User) (r : Request)
    → (start_session now token csrf user a).0 ≡ ok c
    → user_by_id user a ≡ ok u
    → r.cookie ≡ some token
    → (require_auth later r (start_session now token csrf user a).1).0 ≡ (
        if ltb ((now + session_ttl) / second * second) later
        then to_login
        else if is_safe_method r.method || text_eq r.csrf_field c
        then handled u (record {
          token = token;
          user_id = user;
          csrf_token = c;
          expires_at = (now + session_ttl) / second;
        })
        else forbidden)
unfolding start_session
start_session-require_auth now later token csrf c user a u r h owner carried =
    let made =
      with_csrf-ok csrf c (create_session token user csrf (now + session_ttl) a).0
        (create_session token user csrf (now + session_ttl) a).1 h in
    rw (made.2, made.1)
      (require_auth-owned later token (ltb ((now + session_ttl) / second * second) later) r
        (create_session token user csrf (now + session_ttl) a).1 u
        (record {
          token = token;
          user_id = user;
          csrf_token = csrf;
          expires_at = (now + session_ttl) / second;
        })
        carried (create_session-lookup later token user csrf (now + session_ttl) a made.0)
        (create_session-keeps_users token user csrf (now + session_ttl) user a ∙ owner))

-- After EndSession a request with the same cookie goes to the login page.
pub end_session-require_auth :
    (now : ℕ) (token : Text) (a : Accounts) (r : Request)
    → r.cookie ≡ some token
    → (require_auth now r (end_session (some token) a)).0 ≡ to_login
unfolding require_auth require_session end_session
end_session-require_auth now token a r carried =
    ground (arith, carried, delete_session-refused now token a)
