-- ===== src/Store/Endpoints/Hook.antt =====
-- A webhook id leads to the app that it was given to.
use xdev.Prelude.{
  ℕ, ◌≡◌, refl, ◌&&◌, true, false, not, List, [], ◌∷◌, some, arith, ◌==◌, Bool-cases, inl, inr,
  is_empty, any, find, Text, text_eq, text_eq_refl,
}
use xdev.Prelude.Result.{ok}
use xdev.Store.Table.{update_where}
use xdev.Store.Schema.{Db, App}
use xdev.Store.Apps.{update_app_row, or_not_found}
use xdev.Store.Endpoints.{set_app_hook, app_by_hook_id}

find-hooked :
    (now id : ℕ) (hook secret : Text) (rows : List App)
    → any (λ a. a.id == id) rows ≡ true
    → any (λ a. not (a.id == id) && text_eq a.hook_id hook) rows ≡ false
    → (a : App) × (find
          (λ a. text_eq a.hook_id hook)
          (update_where
            (λ a. a.id == id)
            (λ r. record r { hook_id = hook; hook_secret = secret; updated_at = now })
            rows)
        ≡ some a)
      × (a.id ≡ id)
      × (a.hook_secret ≡ secret)
unfolding any find update_where
find-hooked now id hook secret [] h f = absurd (cc)
find-hooked now id hook secret (r ∷ rows) h f = elim (Bool-cases (r.id == id)) [
  | inl e ↦ (
    record r { hook_id = hook; hook_secret = secret; updated_at = now },
    rw (e, text_eq_refl hook) refl,
    ground arith,
    refl,
  )
  | inr e ↦
      let free : text_eq r.hook_id hook ≡ false = ground arith in
      let (a, found, same, kept) =
        find-hooked now id hook secret rows (ground arith) (ground arith) in
      (a, rw (e, free) found, same, kept)
]

-- Where SetAppHook gives a webhook id that is not empty to an app of the database and succeeds,
-- AppByHookID finds that very app under it, with the secret that was set.
pub set_app_hook-lookup :
    (now id : ℕ) (hook secret : Text) (db : Db)
    → is_empty hook ≡ false
    → any (λ a. a.id == id) db.apps ≡ true
    → (set_app_hook now id hook secret db).0 ≡ ok tt
    → (a : App) × (app_by_hook_id hook (set_app_hook now id hook secret db).1 ≡ ok a)
      × (a.id ≡ id)
      × (a.hook_secret ≡ secret)
unfolding set_app_hook app_by_hook_id or_not_found update_app_row
set_app_hook-lookup now id hook secret db named here done =
    elim (Bool-cases (any (λ a. not (a.id == id) && text_eq a.hook_id hook) db.apps)) [
      | inl clash ↦ absurd (ground arith)
      | inr free ↦
          let (a, found, same, kept) = find-hooked now id hook secret db.apps here free in
          (a, rw (named, here, free, found) refl, same, kept)
    ]
