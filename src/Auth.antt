-- ===== src/Auth.antt =====
-- internal/auth/auth.go: logins, sessions and the guard of the handlers. Time is in nanoseconds.
-- A bcrypt call is a function that gives a hash, or a test; `lower` is strings.ToLower, and the
-- random tokens are arguments.
pub mod Guard
pub mod Passwords
mod Examples
use xdev.Prelude.{
  ℕ, ◌+◌, ◌*◌, ◌==◌, ◌||◌, Bool, true, false, not, Option, none, some, if◌then◌else◌, ltb, is_empty,
  Text, codes, text_eq, trim_space, byte_length,
}
use xdev.Prelude.Result.{Result, ok, err}
use xdev.Store.Schema.{StoreError}
use xdev.Accounts.{
  Accounts, User, Session, second, user_count, user_by_id, user_by_email, create_user,
  update_password, create_session, delete_session, session_by_token,
}

abbrev pub session_ttl : ℕ
session_ttl = 7 * 24 * 3600 * second

pub data AuthError : Type 0 where
  admin_exists weak_account weak_password unhashable invalid_credentials : AuthError
  stored : StoreError → AuthError

unfoldable pub normalize_email : (Text → Text) → Text → Text
unfolding trim_space
normalize_email lower email = trim_space (lower email)

unfoldable pub needs_setup : Accounts → Bool
unfolding user_count
needs_setup a = user_count a == 0

-- The errors of the store, passed on.
unfoldable pub pass_error {ℓ} :
    {A : Type ℓ} → Result StoreError A × Accounts → Result AuthError A × Accounts
pass_error (ok x, a) = (ok x, a)
pass_error (err e, a) = (err (stored e), a)

unfoldable pub new_account :
    (Text → Text)
    → (Text → Option Text)
    → ℕ
    → Text
    → Text
    → Accounts
    → Result AuthError User × Accounts
unfolding normalize_email byte_length pass_error
new_account lower generate now email password a =
    let email' = normalize_email lower email in
    if is_empty email' || ltb (byte_length password) 8
    then (err weak_account, a)
    else elim (generate password) [
      | none ↦ (err unhashable, a)
      | some hash ↦ pass_error (create_user now email' hash a)
    ]

unfoldable pub create_admin :
    (Text → Text)
    → (Text → Option Text)
    → ℕ
    → Text
    → Text
    → Accounts
    → Result AuthError User × Accounts
unfolding needs_setup
create_admin lower generate now email password a =
    if not (needs_setup a)
    then (err admin_exists, a)
    else new_account lower generate now email password a

unfoldable pub set_password :
    (Text → Text)
    → (Text → Option Text)
    → Text
    → Text
    → Accounts
    → Result AuthError (Unit {0}) × Accounts
unfolding normalize_email byte_length pass_error
set_password lower generate email password a =
    if ltb (byte_length password) 8 then (err weak_password, a) else elim (generate password) [
      | none ↦ (err unhashable, a)
      | some hash ↦ pass_error (update_password (normalize_email lower email) hash a)
    ]

-- `matches hash password` is bcrypt.CompareHashAndPassword.
unfoldable pub authenticate :
    (Text → Text) → (Text → Text → Bool) → Text → Text → Accounts → Result AuthError User
unfolding normalize_email
authenticate lower matches email password a = elim (user_by_email (normalize_email lower email) a) [
  | err e ↦ err invalid_credentials
  | ok u ↦ if not (matches u.password_hash password) then err invalid_credentials else ok u
]

unfoldable pub with_csrf :
    Text → Result StoreError (Unit {0}) × Accounts → Result StoreError Text × Accounts
with_csrf csrf (err e, a) = (err e, a)
with_csrf csrf (ok _, a) = (ok csrf, a)

-- The token goes into the cookie, and the CSRF token comes back.
unfoldable pub start_session : ℕ → Text → Text → ℕ → Accounts → Result StoreError Text × Accounts
unfolding with_csrf
start_session now token csrf user a =
    with_csrf csrf (create_session token user csrf (now + session_ttl) a)

unfoldable pub end_session : Option Text → Accounts → Accounts
end_session none a = a
end_session (some token) a = delete_session token a

-- What a request carries: the session cookie, the method and the form's csrf_token.
pub record Request : Type 0 where
  pub cookie : Option Text
  pub method : Text
  pub csrf_field : Text

-- What the guard does with a request.
pub data Verdict : Type 0 where
  to_login forbidden : Verdict
  handled : User → Session → Verdict

unfoldable pub is_safe_method : Text → Bool
is_safe_method m =
    text_eq m (codes "GET") || text_eq m (codes "HEAD") || text_eq m (codes "OPTIONS")

unfoldable pub check_csrf : Request → User → Session → Verdict
check_csrf r u s =
    if not (is_safe_method r.method)
    then (if not (text_eq r.csrf_field s.csrf_token) then forbidden else handled u s)
    else handled u s

unfoldable pub require_session : Request → Result StoreError Session × Accounts → Verdict × Accounts
unfolding check_csrf
require_session r (err e, a) = (to_login, a)
require_session r (ok s, a) = elim (user_by_id s.user_id a) [
  | err e ↦ (to_login, a)
  | ok u ↦ (check_csrf r u s, a)
]

unfoldable pub require_auth : ℕ → Request → Accounts → Verdict × Accounts
unfolding require_session
require_auth now r a = elim (r.cookie) [
  | none ↦ (to_login, a)
  | some token ↦ require_session r (session_by_token now token a)
]
