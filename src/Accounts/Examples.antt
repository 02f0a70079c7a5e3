-- ===== src/Accounts/Examples.antt =====
-- Runs of internal/store/users.go and sessions.go.
use xdev.Prelude.{ℕ, ◌*◌, ◌/◌, ◌≡◌, ◌≢◌, refl, List, [], ◌∷◌, ltb, if◌then◌else◌, Text, codes}
use xdev.Prelude.Result.{ok, err}
use xdev.Store.Schema.{not_found}
use xdev.Accounts.{Accounts, User, Session, create_session, session_by_token, delete_user}
use xdev.Accounts.Logins.{delete_user-logs_out}

abbrev admin : ℕ → Text → User
admin id email = record { id = id; email = email; password_hash = codes "hash"; created_at = 1 }

abbrev accounts : Accounts
accounts = record {
  users = admin 1 (codes "a@x") ∷ admin 2 (codes "b@x") ∷ [];
  last_user = 2;
  sessions =
      record { token = codes "t1"; user_id = 1; csrf_token = codes "c1"; expires_at = 5 }
      ∷ record { token = codes "t2"; user_id = 2; csrf_token = codes "c2"; expires_at = 5 }
      ∷ [];
}

logged_in : (create_session (codes "t3") 1 (codes "c3") 7500000000 accounts).0 ≡ ok tt
unfolding create_session xdev.Prelude.text_eq
logged_in = refl

expired : (session_by_token 6000000000 (codes "t1") accounts).0 ≡ err not_found
unfolding session_by_token xdev.Prelude.text_eq
expired = refl

first_deleted : (delete_user 1 accounts).0 ≡ ok tt
unfolding delete_user
first_deleted = refl

abbrev second_session : Session
second_session = record { token = codes "t2"; user_id = 2; csrf_token = codes "c2"; expires_at = 5 }

second_opened :
    (session_by_token 3000000000 (codes "t2") (delete_user 1 accounts).1).0 ≡ ok second_session
unfolding delete_user session_by_token xdev.Prelude.text_eq
second_opened = refl

delete_user-logs_out_example : second_session.user_id ≢ 1
delete_user-logs_out_example =
    delete_user-logs_out 3000000000 1 (codes "t2") accounts second_session first_deleted
      second_opened
