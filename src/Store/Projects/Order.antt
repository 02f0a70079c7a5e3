-- ===== src/Store/Projects/Order.antt =====
-- SetProjectOrder and CreateProject, as ListProjects shows them.
use xdev.Prelude.{
  ◌⊎◌, ℕ, ◌≡◌, refl, ◌∙◌, true, List, [], ◌∷◌, map, inl, inr, arith, Option-cases, filter,
}
use xdev.Prelude.Int.{◌≤ℤ◌}
use xdev.Prelude.Result.{ok, err}
use xdev.Store.Ranking.{Refusal, check_order, Distinct, Arranges, check_order-Arranges}
use xdev.Store.Ranking.Accepts.{Arranges-check_order}
use xdev.Store.Ranking.Arranged.{renumber-order}
use xdev.Store.Schema.{stale_order, Db, ProjectRow, App}
use xdev.Store.Projects.{
  project_before, project_ids, project_ranked, set_project_order, save_order, list_projects,
  counted, scan_project,
}
use xdev.Store.Table.{IsOrder}

project_before-IsOrder : IsOrder project_before
unfolding project_before
project_before-IsOrder = record { total = λ a b h. ground arith; trans = λ a b c h k. ground arith }

project_before-place : (a b : ProjectRow) → project_before a b ≡ true → a.position ≤ℤ b.position
unfolding project_before
project_before-place a b h = ground arith

filter-all : (rows : List ProjectRow) → filter (λ r. true) rows ≡ rows
unfolding filter
filter-all [] = refl
filter-all (r ∷ rows) = rw (filter-all rows)

ids-counted :
    (apps : List App) (rows : List ProjectRow)
    → map (λ p. p.id) (map (counted apps) rows) ≡ map (λ r. r.id) rows
unfolding counted scan_project
ids-counted apps [] = refl
ids-counted apps (r ∷ rows) = rw (ids-counted apps rows)

-- SetProjectOrder accepts a list exactly if it names every project once and no other id; a list
-- that it refuses leaves the database as it was.
pub set_project_order-accepts :
    (ids : List ℕ) (db : Db)
    → (Arranges (project_ids db) ids × ((set_project_order ids db).0 ≡ ok tt))
      ⊎ ((¬ Arranges (project_ids db) ids)
          × (why : Refusal) × (set_project_order ids db ≡ (err (stale_order why), db)))
unfolding set_project_order save_order
set_project_order-accepts ids db = elim (Option-cases (check_order (project_ids db) ids)) [
  | inl e ↦ inl (check_order-Arranges (project_ids db) ids e, rw e)
  | inr (why, e) ↦ inr ((λ a. cc (e, Arranges-check_order (project_ids db) ids a)), why, rw e)
]

set_project_order-Arranges :
    (ids : List ℕ) (db : Db) → (set_project_order ids db).0 ≡ ok tt → Arranges (project_ids db) ids
set_project_order-Arranges ids db h = elim (set_project_order-accepts ids db) [
  | inl (a, _) ↦ a
  | inr (_, why, e) ↦ absurd (cc)
]

-- Where project ids are unique: after SetProjectOrder has accepted a list, ListProjects shows the
-- projects in exactly that order.
pub set_project_order-list :
    (ids : List ℕ) (db : Db)
    → Distinct (project_ids db)
    → (set_project_order ids db).0 ≡ ok tt
    → map (λ p. p.id) (list_projects (set_project_order ids db).1) ≡ ids
unfolding set_project_order save_order list_projects
set_project_order-list ids db pk accepted =
    let a : Arranges (project_ids db) ids = set_project_order-Arranges ids db accepted in
    let arranged =
      renumber-order project_ranked project_before ids db.projects project_before-IsOrder
        project_before-place (rw filter-all pk) (rw filter-all a) in
    rw (Arranges-check_order (project_ids db) ids a)
      (ids-counted db.apps _ ∙ rw filter-all at arranged)
