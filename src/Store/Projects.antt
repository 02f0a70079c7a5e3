-- ===== src/Store/Projects.antt =====
-- internal/store/projects.go
pub mod Order
pub mod Front
use xdev.Prelude.{
  ℕ, suc, refl, ◌&&◌, Bool, true, false, not, List, [], ◌∷◌, ◌++◌, map, Option, none, some, ltb,
  leb, ◌==◌, if◌then◌else◌, Text, text_eq, find, filter, any, count,
}
use xdev.Prelude.Int.{ℤ, pos, ◌-ℤ◌, lt_int}
use xdev.Prelude.Result.{Result, ok, err}
use xdev.Store.Ranking.{Refusal, check_order, Ranked, renumber}
use xdev.Store.Schema.{
  Db, Write, StoreError, not_found, constraint, stale_order, ProjectRow, Project, App,
}
use xdev.Store.Table.{order_by, update_where}

-- What scanProject reads from a row; AppCount stays 0.
unfoldable pub scan_project : ProjectRow → Project
scan_project r = record {
  id = r.id;
  name = r.name;
  slug = r.slug;
  base_domain = r.base_domain;
  environment = r.environment;
  network_name = r.network_name;
  engine = r.engine;
  dir = r.dir;
  created_at = r.created_at;
  app_count = 0;
}

unfoldable pub or_not_found : Option ProjectRow → Result StoreError Project
unfolding scan_project
or_not_found none = err not_found
or_not_found (some r) = ok (scan_project r)

unfoldable pub project_by_id : ℕ → Db → Result StoreError Project
unfolding or_not_found find
project_by_id id db = or_not_found (find (λ r. r.id == id) db.projects)

unfoldable pub project_by_slug : Text → Db → Result StoreError Project
unfolding or_not_found find
project_by_slug slug db = or_not_found (find (λ r. text_eq r.slug slug) db.projects)

unfoldable pub project_slug_exists : Text → Db → Bool
unfolding any
project_slug_exists slug db = any (λ r. text_eq r.slug slug) db.projects

-- SELECT COALESCE(MIN(position), 1)
pub min_position : List ProjectRow → ℤ
min_position [] = pos 1
min_position (r ∷ []) = r.position
min_position (r ∷ s ∷ rows) =
    let least = min_position (s ∷ rows) in if lt_int r.position least then r.position else least

-- The row that the INSERT of CreateProject adds.
unfoldable pub new_project : ℕ → Project → Db → ProjectRow
unfolding min_position ◌-ℤ◌
new_project now p db = record {
  id = suc db.last_project;
  name = p.name;
  slug = p.slug;
  base_domain = p.base_domain;
  environment = p.environment;
  network_name = p.network_name;
  engine = p.engine;
  dir = p.dir;
  created_at = now;
  position = min_position db.projects -ℤ pos 1;
}

-- The INSERT fails on a slug that is taken (UNIQUE).
unfoldable pub create_project : ℕ → Project → Write Project
create_project now p db =
    if project_slug_exists p.slug db
    then (err constraint, db)
    else let db' = record db {
      projects = db.projects ++ new_project now p db ∷ [];
      last_project = suc db.last_project;
    } in
      (project_by_id (suc db.last_project) db', db')

unfoldable pub rename_project : ℕ → Text → Write (Unit {0})
unfolding update_where
rename_project id name db = (
  ok tt,
  record db {
    projects = update_where (λ r. r.id == id) (λ r. record r { name = name }) db.projects;
  },
)

-- app_id IN (SELECT id FROM apps WHERE project_id = ?)
unfoldable pub app_in_project : List App → ℕ → ℕ → Bool
unfolding any
app_in_project apps project app = any (λ a. (a.id == app) && (a.project_id == project)) apps

-- Two UPDATEs in one transaction.
unfoldable pub set_project_config : ℕ → Text → Text → Bool → Text → Write (Unit {0})
unfolding app_in_project update_where
set_project_config id base_domain environment is_local ssl_mode db = (
  ok tt,
  record db {
    projects =
        update_where (λ r. r.id == id)
          (λ r. record r { base_domain = base_domain; environment = environment }) db.projects;
    domains =
        update_where (λ d. app_in_project db.apps id d.app_id)
          (λ d. record d { is_local = is_local; ssl_mode = ssl_mode }) db.domains;
  },
)

-- ON DELETE CASCADE takes the project's apps, and their domains and deployments.
unfoldable pub delete_project : ℕ → Write (Unit {0})
unfolding app_in_project filter
delete_project id db = (
  ok tt,
  record db {
    projects = filter (λ r. not (r.id == id)) db.projects;
    apps = filter (λ a. not (a.project_id == id)) db.apps;
    domains = filter (λ d. not (app_in_project db.apps id d.app_id)) db.domains;
    deployments = filter (λ d. not (app_in_project db.apps id d.app_id)) db.deployments;
  },
)

-- ORDER BY p.position ASC, p.created_at DESC, p.id DESC
unfoldable pub project_before : ProjectRow → ProjectRow → Bool
project_before a b =
    if lt_int a.position b.position
    then true
    else if lt_int b.position a.position
    then false
    else if ltb b.created_at a.created_at
    then true
    else if ltb a.created_at b.created_at
    then false
    else leb b.id a.id

pub counted : List App → ProjectRow → Project
unfolding scan_project count
counted apps r = record (scan_project r) { app_count = count (λ a. a.project_id == r.id) apps }

unfoldable pub list_projects : Db → List Project
unfolding counted order_by project_before
list_projects db = map (counted db.apps) (order_by project_before db.projects)

abbrev pub project_ids : Db → List ℕ
project_ids db = map (λ r. r.id) db.projects

abbrev pub project_ranked : Ranked ProjectRow
project_ranked = record {
  ident = λ r. r.id;
  place = λ r. r.position;
  move = λ p r. record r { position = p };
  scope = λ r. true;
  ident-move = λ p r. refl;
  place-move = λ p r. refl;
  scope-move = λ p r. refl;
}

unfoldable pub save_order : Option Refusal → List ℕ → Write (Unit {0})
unfolding renumber
save_order (some why) ids db = (err (stale_order why), db)
save_order none ids db = (ok tt, record db { projects = renumber project_ranked 1 ids db.projects })

unfoldable pub set_project_order : List ℕ → Write (Unit {0})
unfolding check_order save_order
set_project_order ids db = save_order (check_order (project_ids db) ids) ids db
