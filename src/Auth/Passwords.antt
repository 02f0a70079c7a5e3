-- ===== src/Auth/Passwords.antt =====
-- The accounts of CreateAdmin and SetPassword can log in.
use xdev.Prelude.{
  ℕ, suc, ◌≡◌, refl, ap, sym, ◌∙◌, ◌||◌, Bool, true, false, List, [], ◌∷◌, Option, some, inl, inr,
  ltb, ◌==◌, ==_refl, text_eq_complete, arith, Bool-cases, Option-cases, length, is_empty, Text,
  text_eq, byte_length, find, any,
}
use xdev.Prelude.Result.{Result, ok, err}
use xdev.Store.Schema.{StoreError}
use xdev.Store.Table.{update_where}
use xdev.Accounts.{
  Accounts, User, user_count, user_by_id, user_by_email, found_user, create_user, update_password,
}
use xdev.Auth.{
  normalize_email, needs_setup, pass_error, new_account, create_admin, set_password, authenticate,
}

find-updated :
    (email hash : Text) (rows : List User)
    → any (λ u. text_eq u.email email) rows ≡ true
    → (u : User) × (find
          (λ u. text_eq u.email email)
          (update_where (λ u. text_eq u.email email) (λ u. record u { password_hash = hash }) rows)
        ≡ some u)
      × (u.password_hash ≡ hash)
unfolding find any update_where
find-updated email hash [] h = absurd (ground arith)
find-updated email hash (v ∷ rows) h = elim (Bool-cases (text_eq v.email email)) [
  | inl e ↦ (record v { password_hash = hash }, rw (e, e) refl, refl)
  | inr e ↦
      let rest = find-updated email hash rows (ground (arith, e, h)) in
      (rest.0, rw (e, e) rest.1, rest.2)
]

-- The login that a stored hash allows.
authenticate-matching :
    (lower : Text → Text) (matches : Text → Text → Bool) (email password : Text) (a : Accounts)
    (u : User)
    → user_by_email (normalize_email lower email) a ≡ ok u
    → matches u.password_hash password ≡ true
    → authenticate lower matches email password a ≡ ok u
unfolding authenticate
authenticate-matching lower matches email password a u h m = ground (arith, h, m)

update_password-found :
    (email hash : Text) (a : Accounts)
    → (update_password email hash a).0 ≡ ok tt
    → (u : User) × (user_by_email email (update_password email hash a).1 ≡ ok u)
      × (u.password_hash ≡ hash)
unfolding update_password user_by_email found_user
update_password-found email hash a h =
    elim (Bool-cases (any (λ u. text_eq u.email email) a.users)) [
      | inl e ↦ let row = find-updated email hash a.users e in (row.0, rw (e, row.1) refl, row.2)
      | inr e ↦ absurd (ground (arith, e, h))
    ]

pass_error-ok {ℓ} :
    {A : Type ℓ} (res : Result StoreError A) (a : Accounts) (x : A)
    → (pass_error (res, a)).0 ≡ ok x
    → res ≡ ok x
unfolding pass_error
pass_error-ok (ok y) a x h = ground (arith, h)
pass_error-ok (err e) a x h = absurd (ground (arith, h))

pass_error-state {ℓ} :
    {A : Type ℓ} (res : Result StoreError A) (a : Accounts) → (pass_error (res, a)).1 ≡ a
unfolding pass_error
pass_error-state (ok y) a = refl
pass_error-state (err e) a = refl

-- What a successful SetPassword has done.
set_password-updates :
    (lower : Text → Text) (generate : Text → Option Text) (email password : Text) (a : Accounts)
    → (set_password lower generate email password a).0 ≡ ok tt
    → (hash : Text) × (generate password ≡ some hash)
      × ((update_password (normalize_email lower email) hash a).0 ≡ ok tt)
      × ((set_password lower generate email password a).1
          ≡ (update_password (normalize_email lower email) hash a).1)
unfolding set_password
set_password-updates lower generate email password a h =
    elim (Bool-cases (ltb (byte_length password) 8)) [
      | inl weak ↦ absurd (ground (arith, h, weak))
      | inr strong ↦ elim (Option-cases (generate password)) [
        | inl e ↦ absurd (ground (arith, h, strong, e))
        | inr (hash, e) ↦
            let stored = update_password (normalize_email lower email) hash a in
            (
              hash,
              e,
              pass_error-ok stored.0 stored.1 tt (ground (arith, h, strong, e)),
              rw (strong, e) (pass_error-state stored.0 stored.1),
            )
      ]
    ]

-- After SetPassword has succeeded, the same email and the new password log in as an account that
-- has the new hash; bcrypt accepts a password against a hash that it made of it.
pub set_password-authenticate :
    (lower : Text → Text) (generate : Text → Option Text) (matches : Text → Text → Bool)
    (email password : Text) (a : Accounts)
    → ((p hash : Text) → generate p ≡ some hash → matches hash p ≡ true)
    → (set_password lower generate email password a).0 ≡ ok tt
    → (u : User) × (authenticate lower matches email password
          (set_password lower generate email password a).1
        ≡ ok u)
      × (generate password ≡ some u.password_hash)
set_password-authenticate lower generate matches email password a bcrypt h =
    let set = set_password-updates lower generate email password a h in
    let row = update_password-found (normalize_email lower email) set.0 a set.2 in
    (
      row.0,
      rw (set.3) (
          authenticate-matching lower matches email password _ row.0 row.1
            (rw (row.2) (bcrypt password set.0 set.1))),
      rw (row.2) set.1,
    )

no_users : (rows : List User) → (length rows == 0) ≡ true → rows ≡ []
no_users [] h = refl
no_users (u ∷ rows) h = absurd (ground (arith, h))

abbrev first_user : ℕ → Text → Text → Accounts → User
first_user now email hash a = record {
  id = suc a.last_user;
  email = email;
  password_hash = hash;
  created_at = now;
}

create_user-first :
    (now : ℕ) (email hash : Text) (a : Accounts)
    → a.users ≡ []
    → create_user now email hash a ≡ (
      ok (first_user now email hash a),
      record a { users = first_user now email hash a ∷ []; last_user = suc a.last_user },
    )
unfolding create_user any user_by_id found_user find
create_user-first now email hash a e = rw (e, ==_refl (suc a.last_user)) refl

user_by_email-first :
    (u : User) (email : Text) (last : ℕ) (a : Accounts)
    → u.email ≡ email
    → user_by_email email (record a { users = u ∷ []; last_user = last }) ≡ ok u
unfolding user_by_email found_user find
user_by_email-first u email last a e = ground (arith, text_eq_complete u.email email e)

-- An account that passes the checks goes to the store.
new_account-stores :
    (lower : Text → Text) (generate : Text → Option Text) (now : ℕ) (email password hash : Text)
    (a : Accounts)
    → (is_empty (normalize_email lower email) || ltb (byte_length password) 8) ≡ false
    → generate password ≡ some hash
    → new_account lower generate now email password a
      ≡ pass_error (create_user now (normalize_email lower email) hash a)
unfolding new_account
new_account-stores lower generate now email password hash a checked e =
    rw (new_account, checked, e) refl

-- What a successful CreateUser has done where there was no user.
new_account-first :
    (lower : Text → Text) (generate : Text → Option Text) (now : ℕ) (email password : Text)
    (a : Accounts) (u : User)
    → a.users ≡ []
    → (new_account lower generate now email password a).0 ≡ ok u
    → (hash : Text) × (generate password ≡ some hash)
      × (first_user now (normalize_email lower email) hash a ≡ u)
      × ((new_account lower generate now email password a).1 ≡ record a {
        users = first_user now (normalize_email lower email) hash a ∷ [];
        last_user = suc a.last_user;
      })
unfolding new_account pass_error
new_account-first lower generate now email password a u none_yet h =
    elim (Bool-cases (is_empty (normalize_email lower email) || ltb (byte_length password) 8)) [
      | inl refused ↦ absurd (ground (arith, h, refused))
      | inr checked ↦ elim (Option-cases (generate password)) [
        | inl e ↦ absurd (ground (arith, h, checked, e))
        | inr (hash, e) ↦
            let stored =
              new_account-stores lower generate now email password hash a checked e
              ∙ ap pass_error
                  (create_user-first now (normalize_email lower email) hash a none_yet) in
            (hash, e, ground (arith, ap (λ r. r.0) stored, h), ap (λ r. r.1) stored)
      ]
    ]

-- Where CreateAdmin succeeds, its email and its password log in as the user it returned; bcrypt
-- accepts a password against a hash that it made of it.
pub create_admin-authenticate :
    (lower : Text → Text) (generate : Text → Option Text) (matches : Text → Text → Bool) (now : ℕ)
    (email password : Text) (a : Accounts) (u : User)
    → ((p hash : Text) → generate p ≡ some hash → matches hash p ≡ true)
    → (create_admin lower generate now email password a).0 ≡ ok u
    → authenticate lower matches email password (create_admin lower generate now email password a).1
      ≡ ok u
unfolding create_admin needs_setup user_count
create_admin-authenticate lower generate matches now email password a u bcrypt h =
    elim (Bool-cases (needs_setup a)) [
      | inr again ↦ absurd (ground (arith, h, again))
      | inl first ↦
          let made =
            new_account-first lower generate now email password a u (no_users a.users first)
              (ground (arith, h, first)) in
          rw (first, made.3, sym made.2)
            (authenticate-matching lower matches email password _ _
              (user_by_email-first (first_user now (normalize_email lower email) made.0 a)
                (normalize_email lower email) (suc a.last_user) a refl)
              (bcrypt password made.0 made.1))
    ]
