-- ===== src/Auth/Examples.antt =====
-- Runs of internal/auth.
use xdev.Prelude.{
  ℕ, ◌+◌, ◌*◌, ◌/◌, ◌||◌, ◌≡◌, refl, true, false, List, [], ◌∷◌, Option, none, some, inl, inr,
  if◌then◌else◌, ltb, is_empty, arith, map, Text, codes, text_eq, is_space, trim_left, trim_right,
  trim, trim_space, lower_rune, byte_length, find, any, cut_prefix, Bool,
}
use xdev.Prelude.Result.{ok, err}
use xdev.Accounts.{
  Accounts, User, Session, second, user_by_id, create_session, session_by_token, update_password,
  user_by_email,
}
use xdev.Auth.{
  Request, to_login, forbidden, handled, session_ttl, create_admin, set_password, authenticate,
  start_session, end_session, require_auth, is_safe_method, weak_account, admin_exists,
  invalid_credentials,
}
use xdev.Auth.Guard.{
  Admitted, require_auth-Admitted, start_session-require_auth, end_session-require_auth,
}
use xdev.Auth.Passwords.{create_admin-authenticate, set_password-authenticate}

abbrev nobody : Accounts
nobody = record { users = []; last_user = 0; sessions = [] }

-- A hash that is the password itself stands for bcrypt.
abbrev generate : Text → Option Text
generate p = some p

abbrev lower : Text → Text
lower s = map (lower_rune (λ c. c)) s

generate_accepts : (p hash : Text) → generate p ≡ some hash → text_eq hash p ≡ true
generate_accepts p hash h = ground (arith, h, xdev.Prelude.text_eq_refl p)

abbrev ada : Accounts
ada = (create_admin lower generate 7 (codes " Ada@x.io") (codes "long enough") nobody).1

abbrev ada_user : User
ada_user = record {
  id = 1;
  email = codes "ada@x.io";
  password_hash = codes "long enough";
  created_at = 7;
}

create_admin-authenticate_example :
    authenticate lower text_eq (codes " Ada@x.io") (codes "long enough") ada ≡ ok ada_user
unfolding create_admin xdev.Auth.new_account lower_rune xdev.Accounts.create_user user_by_id
create_admin-authenticate_example =
    create_admin-authenticate lower generate text_eq 7 (codes " Ada@x.io") (codes "long enough")
      nobody ada_user generate_accepts refl

short_password :
    (create_admin lower generate 7 (codes "a@x.io") (codes "short") nobody).0 ≡ err weak_account
unfolding create_admin xdev.Auth.new_account lower_rune
short_password = refl

second_admin :
    (create_admin lower generate 8 (codes "b@x.io") (codes "long enough") ada).0 ≡ err admin_exists
unfolding create_admin xdev.Auth.new_account lower_rune xdev.Accounts.create_user user_by_id
second_admin = refl

wrong_password :
    authenticate lower text_eq (codes "ada@x.io") (codes "wrong one") ada ≡ err invalid_credentials
unfolding authenticate user_by_email create_admin xdev.Auth.new_account lower_rune
    xdev.Accounts.create_user user_by_id text_eq
wrong_password = refl

set_password-authenticate_example :
    (u : User) × (authenticate lower text_eq
        (codes "ada@x.io")
        (codes "another one")
        (set_password lower generate (codes "ada@x.io") (codes "another one") ada).1
      ≡ ok u)
    × (generate (codes "another one") ≡ some u.password_hash)
unfolding set_password update_password create_admin xdev.Auth.new_account lower_rune
    xdev.Accounts.create_user user_by_id text_eq
set_password-authenticate_example =
    set_password-authenticate lower generate text_eq (codes "ada@x.io") (codes "another one") ada
      generate_accepts refl

abbrev post : Request
post = record { cookie = some (codes "tok"); method = codes "POST"; csrf_field = codes "csrf" }

abbrev logged_in : Accounts
logged_in = (start_session 0 (codes "tok") (codes "csrf") 1 ada).1

start_session-require_auth_example :
    (require_auth 5 post (start_session 0 (codes "tok") (codes "csrf") 1 ada).1).0 ≡ (
      if ltb ((0 + session_ttl) / second * second) 5
      then to_login
      else if is_safe_method (codes "POST") || text_eq (codes "csrf") (codes "csrf")
      then handled ada_user (record {
        token = codes "tok";
        user_id = 1;
        csrf_token = codes "csrf";
        expires_at = (0 + session_ttl) / second;
      })
      else forbidden)
unfolding start_session create_session create_admin xdev.Auth.new_account lower_rune
    xdev.Accounts.create_user user_by_id
start_session-require_auth_example =
    start_session-require_auth 0 5 (codes "tok") (codes "csrf") (codes "csrf") 1 ada ada_user post
      refl refl refl

require_auth-Admitted_example :
    Admitted 5 post logged_in ada_user
      (record { token = codes "tok"; user_id = 1; csrf_token = codes "csrf"; expires_at = 604800 })
unfolding require_auth session_by_token start_session create_session create_admin
    xdev.Auth.new_account lower_rune xdev.Accounts.create_user user_by_id text_eq is_safe_method
require_auth-Admitted_example =
    require_auth-Admitted 5 post logged_in ada_user
      (record { token = codes "tok"; user_id = 1; csrf_token = codes "csrf"; expires_at = 604800 })
      refl

without_token : (require_auth 5 (record post { csrf_field = [] }) logged_in).0 ≡ forbidden
unfolding require_auth session_by_token start_session create_session create_admin
    xdev.Auth.new_account lower_rune xdev.Accounts.create_user user_by_id text_eq is_safe_method
without_token = refl

end_session-require_auth_example :
    (require_auth 5 post (end_session (some (codes "tok")) logged_in)).0 ≡ to_login
end_session-require_auth_example = end_session-require_auth 5 (codes "tok") logged_in post refl
