-- ===== src/Store/Apps/Order.antt =====
-- SetAppOrder, as ListAppsByProject shows it.
use xdev.Prelude.{
  ◌⊎◌, ℕ, suc, ◌≡◌, ◌≢◌, ap, ◌∙◌, refl, ◌↔◌, Bool, true, false, List, [], ◌∷◌, map, Option, none,
  some, inl, inr, arith, Option-cases, Bool-cases, ◌&&◌, if◌then◌else◌, ◌==◌, filter, All,
}
use xdev.Prelude.Int.{◌≤ℤ◌}
use xdev.Prelude.Result.{ok, err}
use xdev.Store.Ranking.{Refusal, check_order, Distinct, Arranges, renumber, check_order-Arranges}
use xdev.Store.Ranking.Accepts.{Arranges-check_order}
use xdev.Store.Ranking.Arranged.{renumber-order}
use xdev.Store.Rows.{Distinct-filter, filter-update}
use xdev.Store.Schema.{stale_order, Db, App}
use xdev.Store.Apps.{
  app_before, app_ranked, app_ids_of, set_app_order, save_order, list_apps_by_project,
}
use xdev.Store.Table.{IsOrder, order_by}

app_before-IsOrder : IsOrder app_before
unfolding app_before
app_before-IsOrder = record { total = λ a b h. ground arith; trans = λ a b c h k. ground arith }

app_before-place : (a b : App) → app_before a b ≡ true → a.position ≤ℤ b.position
unfolding app_before
app_before-place a b h = ground arith

-- SetAppOrder accepts a list exactly if it names every app of the project once and no other id; a list
-- that it refuses leaves the database as it was.
pub set_app_order-accepts :
    (project : ℕ) (ids : List ℕ) (db : Db)
    → (Arranges (app_ids_of project db) ids × ((set_app_order project ids db).0 ≡ ok tt))
      ⊎ ((¬ Arranges (app_ids_of project db) ids)
          × (why : Refusal) × (set_app_order project ids db ≡ (err (stale_order why), db)))
unfolding set_app_order save_order
set_app_order-accepts project ids db =
    elim (Option-cases (check_order (app_ids_of project db) ids)) [
      | inl e ↦ inl (check_order-Arranges (app_ids_of project db) ids e, rw e)
      | inr (why, e) ↦
          inr ((λ a. cc (e, Arranges-check_order (app_ids_of project db) ids a)), why, rw e)
    ]

set_app_order-Arranges :
    (project : ℕ) (ids : List ℕ) (db : Db)
    → (set_app_order project ids db).0 ≡ ok tt
    → Arranges (app_ids_of project db) ids
set_app_order-Arranges project ids db h = elim (set_app_order-accepts project ids db) [
  | inl (a, _) ↦ a
  | inr (_, why, e) ↦ absurd (cc)
]

-- Where app ids are unique: after SetAppOrder has accepted a list, ListAppsByProject shows the apps
-- in exactly that order.
pub set_app_order-list :
    (project : ℕ) (ids : List ℕ) (db : Db)
    → Distinct (map (λ a. a.id) db.apps)
    → (set_app_order project ids db).0 ≡ ok tt
    → map (λ a. a.id) (list_apps_by_project project (set_app_order project ids db).1) ≡ ids
unfolding set_app_order save_order list_apps_by_project app_ids_of
set_app_order-list project ids db pk accepted =
    let a : Arranges (app_ids_of project db) ids = set_app_order-Arranges project ids db accepted in
    rw (Arranges-check_order (app_ids_of project db) ids a) (
      renumber-order (app_ranked project) app_before ids db.apps app_before-IsOrder app_before-place
        (Distinct-filter (λ x. x.id) _ db.apps pk) a)

other_rows :
    (project other i : ℕ) (ids : List ℕ) (rows : List App)
    → (other == project) ≡ false
    → filter (λ a. a.project_id == other) (renumber (app_ranked project) i ids rows)
      ≡ filter (λ a. a.project_id == other) rows
unfolding renumber
other_rows project other i [] rows ne = refl
other_rows project other i (id ∷ ids) rows ne =
    other_rows project other (suc i) ids _ ne
    ∙ filter-update (λ a. a.project_id == other) (λ r. (r.id == id) && (r.project_id == project))
        (λ a. record a { position = xdev.Prelude.Int.ℤ.pos i }) rows (λ a h. ground arith)
        (λ a h. ground arith)

-- SetAppOrder on one project leaves the list of every other project as it was.
pub set_app_order-elsewhere :
    (project other : ℕ) (ids : List ℕ) (db : Db)
    → other ≢ project
    → list_apps_by_project other (set_app_order project ids db).1 ≡ list_apps_by_project other db
unfolding set_app_order save_order list_apps_by_project
set_app_order-elsewhere project other ids db ne =
    elim (Option-cases (check_order (app_ids_of project db) ids)) [
      | inl e ↦
          rw e (ap (order_by app_before) (other_rows project other 1 ids db.apps (ground arith)))
      | inr (why, e) ↦ rw e
    ]
