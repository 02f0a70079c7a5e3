-- ===== src/Store/Projects/Front.antt =====
-- A new project comes first in ListProjects, and a refused one changes nothing.
use xdev.Prelude.{
  ℕ, suc, ◌≤◌, ◌≡◌, refl, ap, true, false, List, [], ◌∷◌, ◌++◌, map, some, arith, ◌==◌, find, count,
  All,
}
use xdev.Prelude.Int.{◌≤ℤ◌, sub-one-lt}
use xdev.Prelude.Result.{ok}
use xdev.Store.Schema.{Db, ProjectRow, Project, App}
use xdev.Store.Ranking.{member}
use xdev.Store.Rows.{All-map, member-le}
use xdev.Store.Consistent.{IsConsistent}
use xdev.Store.Projects.{
  project_before, list_projects, counted, scan_project, create_project, new_project, min_position,
  project_slug_exists, project_by_id, or_not_found,
}
use xdev.Store.Table.{order_by, order_by-first}

min_position-le : (rows : List ProjectRow) → All (λ r. min_position rows ≤ℤ r.position) rows
unfolding min_position
min_position-le [] = tt
min_position-le (r ∷ []) = (omega arith, tt)
min_position-le (r ∷ s ∷ rows) = (
  ground arith,
  All-map (λ q. min_position (s ∷ rows) ≤ℤ q.position)
      (λ q. min_position (r ∷ s ∷ rows) ≤ℤ q.position) (s ∷ rows)
      (λ q h. unfold min_position in ground arith) (min_position-le (s ∷ rows)),
)

new_before :
    (now : ℕ) (p : Project) (db : Db)
    → All (λ r. project_before r (new_project now p db) ≡ false) db.projects
unfolding new_project project_before
new_before now p db =
    All-map (λ r. min_position db.projects ≤ℤ r.position)
      (λ r. project_before r (new_project now p db) ≡ false) db.projects
      (λ r h. ground (arith, sub-one-lt (min_position db.projects))) (min_position-le db.projects)

find_new :
    (rows : List ProjectRow) (r : ProjectRow) (last : ℕ)
    → All (λ q. q.id ≤ last) rows
    → r.id ≡ suc last
    → find (λ q. q.id == suc last) (rows ++ r ∷ []) ≡ some r
unfolding find
find_new [] r last h e = ground arith
find_new (q ∷ rows) r last h e = ground (arith, find_new rows r last h.1 e)

no_apps :
    (apps : List App) (projects : List ProjectRow) (last : ℕ)
    → All (λ q. q.id ≤ last) projects
    → All (λ a. member a.project_id (map (λ r. r.id) projects) ≡ true) apps
    → count (λ a. a.project_id == suc last) apps ≡ 0
unfolding count
no_apps [] projects last b h = refl
no_apps (a ∷ apps) projects last b h = ground (
  arith,
  no_apps apps projects last b h.1,
  member-le (λ r. r.id) a.project_id last projects b h.0,
)

list-front :
    (now : ℕ) (p : Project) (db : Db)
    → IsConsistent db
    → list_projects (record db {
      projects = db.projects ++ new_project now p db ∷ [];
      last_project = suc db.last_project;
    })
      ≡ scan_project (new_project now p db) ∷ list_projects db
unfolding list_projects counted scan_project
list-front now p db c =
    let new = new_project now p db in
    let none_yet : count (λ a. a.project_id == new.id) db.apps ≡ 0 =
      unfold new_project in
      no_apps db.apps db.projects db.last_project c.projects.bound c.apps.parents in
    rw (order_by-first project_before new db.projects (new_before now p db)) (
      ap
        (λ n.
          record (scan_project new) { app_count = n }
          ∷ map (counted db.apps) (order_by project_before db.projects))
        none_yet)

-- On a consistent database where its slug is free, CreateProject returns a project with that slug and no apps, and
-- ListProjects then shows it at the front, before the others in their old order.
pub create_project-first :
    (now : ℕ) (p : Project) (db : Db)
    → IsConsistent db
    → project_slug_exists p.slug db ≡ false
    → (q : Project) × ((create_project now p db).0 ≡ ok q)
      × (q.slug ≡ p.slug)
      × (q.app_count ≡ 0)
      × (list_projects (create_project now p db).1 ≡ q ∷ list_projects db)
unfolding create_project project_by_id or_not_found scan_project
create_project-first now p db c free =
    let new = new_project now p db in
    let found =
      find_new db.projects new db.last_project c.projects.bound (unfold new_project in refl) in
    (
      scan_project new,
      rw (free, found),
      unfold new_project in refl,
      refl,
      rw free (list-front now p db c),
    )
