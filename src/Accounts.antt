-- ===== src/Accounts.antt =====
-- internal/store/users.go and internal/store/sessions.go: the admins and their login sessions.
-- Times are in nanoseconds; a session's expiry is stored in whole seconds (RFC3339).
pub mod Logins
mod Examples
use xdev.Prelude.{
  ℕ, suc, ◌*◌, ◌/◌, Bool, true, false, not, List, ◌++◌, ◌∷◌, [], Option, none, some, ltb, leb, ◌==◌,
  if◌then◌else◌, length, Text, text_eq, find, filter, any,
}
use xdev.Prelude.Result.{Result, ok, err}
use xdev.Store.Schema.{StoreError, not_found, constraint}
use xdev.Store.Table.{order_by, update_where}

pub record User : Type 0 where
  pub id : ℕ
  pub email : Text
  pub password_hash : Text
  pub created_at : ℕ

-- A row of the table sessions; `expires_at` is in seconds.
pub record Session : Type 0 where
  pub token : Text
  pub user_id : ℕ
  pub csrf_token : Text
  pub expires_at : ℕ

-- The tables users and sessions; `last_user` is the AUTOINCREMENT counter.
pub record Accounts : Type 0 where
  pub users : List User
  pub last_user : ℕ
  pub sessions : List Session

abbrev pub second : ℕ
second = 1000000000

unfoldable pub user_count : Accounts → ℕ
user_count a = length a.users

unfoldable pub found_user : Option User → Result StoreError User
found_user none = err not_found
found_user (some u) = ok u

unfoldable pub user_by_id : ℕ → Accounts → Result StoreError User
unfolding found_user find
user_by_id id a = found_user (find (λ u. u.id == id) a.users)

unfoldable pub user_by_email : Text → Accounts → Result StoreError User
unfolding found_user find
user_by_email email a = found_user (find (λ u. text_eq u.email email) a.users)

-- The INSERT fails on an email that is taken (UNIQUE).
unfoldable pub create_user : ℕ → Text → Text → Accounts → Result StoreError User × Accounts
unfolding any
create_user now email hash a =
    if any (λ u. text_eq u.email email) a.users
    then (err constraint, a)
    else let a' = record a {
      users =
          a.users
          ++ record { id = suc a.last_user; email = email; password_hash = hash; created_at = now }
            ∷ [];
      last_user = suc a.last_user;
    } in
      (user_by_id (suc a.last_user) a', a')

-- ORDER BY created_at, id
unfoldable pub user_before : User → User → Bool
user_before a b =
    if ltb a.created_at b.created_at
    then true
    else if ltb b.created_at a.created_at
    then false
    else leb a.id b.id

unfoldable pub list_users : Accounts → List User
unfolding order_by user_before
list_users a = order_by user_before a.users

unfoldable pub update_password : Text → Text → Accounts → Result StoreError (Unit {0}) × Accounts
unfolding any update_where
update_password email hash a =
    if any (λ u. text_eq u.email email) a.users
    then (
      ok tt,
      record a {
        users =
            update_where (λ u. text_eq u.email email) (λ u. record u { password_hash = hash })
              a.users;
      },
    )
    else (err not_found, a)

-- ON DELETE CASCADE takes the sessions of the user.
unfoldable pub delete_user : ℕ → Accounts → Result StoreError (Unit {0}) × Accounts
unfolding any filter
delete_user id a =
    if any (λ u. u.id == id) a.users
    then (
      ok tt,
      record a {
        users = filter (λ u. not (u.id == id)) a.users;
        sessions = filter (λ s. not (s.user_id == id)) a.sessions;
      },
    )
    else (err not_found, a)

-- The INSERT fails on a token that is there (PRIMARY KEY) and on a user that is not.
unfoldable pub create_session :
    Text → ℕ → Text → ℕ → Accounts → Result StoreError (Unit {0}) × Accounts
unfolding any
create_session token user csrf expires a =
    if any (λ s. text_eq s.token token) a.sessions
    then (err constraint, a)
    else if not (any (λ u. u.id == user) a.users)
    then (err constraint, a)
    else (
      ok tt,
      record a {
        sessions =
            a.sessions
            ++ record {
              token = token;
              user_id = user;
              csrf_token = csrf;
              expires_at = expires / second;
            }
              ∷ [];
      },
    )

unfoldable pub delete_session : Text → Accounts → Accounts
unfolding filter
delete_session token a = record a {
  sessions = filter (λ s. not (text_eq s.token token)) a.sessions;
}

-- A session that has expired is deleted and reported as missing.
unfoldable pub session_by_token : ℕ → Text → Accounts → Result StoreError Session × Accounts
unfolding find delete_session
session_by_token now token a = elim (find (λ s. text_eq s.token token) a.sessions) [
  | none ↦ (err not_found, a)
  | some s ↦
      if ltb (s.expires_at * second) now then (err not_found, delete_session token a) else (ok s, a)
]
