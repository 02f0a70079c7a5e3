-- ===== src/Store/Apps.antt =====
-- internal/store/apps.go, with the app columns that internal/store/deployments.go writes
pub mod Order
use xdev.Prelude.{
  ℕ, suc, refl, ◌&&◌, ◌||◌, Bool, true, false, not, List, [], ◌∷◌, ◌++◌, map, Option, none, some,
  leb, ◌==◌, if◌then◌else◌, is_empty, Text, codes, text_eq, find, filter, any,
}
use xdev.Prelude.Int.{ℤ, pos, ◌+ℤ◌, lt_int}
use xdev.Prelude.Result.{Result, ok, err}
use xdev.Store.Ranking.{Refusal, check_order, Ranked, renumber, member}
use xdev.Store.Schema.{
  Db, Write, StoreError, not_found, constraint, stale_order, App, status_stopped, status_running,
  type_static, type_go, type_proxy, type_compose, serve_command, wp_shared,
}
use xdev.Store.Projects.{project_ids}
use xdev.Store.Table.{order_by, update_where}

-- LaravelServerOr
pub laravel_server_or : Text → Text
laravel_server_or v = if text_eq v (codes "fpm") then codes "fpm" else codes "swoole"

unfoldable pub is_host_proc : App → Bool
is_host_proc a = text_eq a.type type_static || text_eq a.type type_go

unfoldable pub is_external_dir : App → Bool
is_external_dir a = not (is_empty a.source_dir)

unfoldable pub is_git : App → Bool
is_git a = not (is_empty a.git_url)

unfoldable pub has_endpoints : App → Bool
has_endpoints a = not (is_empty a.hook_id) || not (is_empty a.push_token_hash)

pub is_proxy : App → Bool
is_proxy a = text_eq a.type type_proxy

unfoldable pub is_compose : App → Bool
is_compose a = text_eq a.type type_compose

pub is_shared_wp : App → Bool
is_shared_wp a = text_eq a.type (codes "wordpress") && text_eq a.wp_mode wp_shared

pub status_or : Text → Text
status_or s = if is_empty s then status_stopped else s

unfoldable pub or_not_found : Option App → Result StoreError App
or_not_found none = err not_found
or_not_found (some a) = ok a

unfoldable pub app_by_id : ℕ → Db → Result StoreError App
unfolding or_not_found find
app_by_id id db = or_not_found (find (λ a. a.id == id) db.apps)

unfoldable pub app_slug_exists : ℕ → Text → Db → Bool
unfolding any
app_slug_exists project slug db =
    any (λ a. (a.project_id == project) && text_eq a.slug slug) db.apps

-- SELECT COALESCE(MAX(position), 0) FROM apps WHERE project_id = ?, over the selected rows
pub max_position : List App → ℤ
max_position [] = pos 0
max_position (a ∷ []) = a.position
max_position (a ∷ b ∷ rows) =
    let most = max_position (b ∷ rows) in if lt_int most a.position then a.position else most

unfoldable pub apps_of : ℕ → Db → List App
unfolding filter
apps_of project db = filter (λ a. a.project_id == project) db.apps

-- The row that the INSERT of CreateApp adds; the columns it does not name take their defaults.
unfoldable pub new_app : ℕ → App → Db → App
unfolding status_or max_position ◌+ℤ◌ apps_of
new_app now a db = record a {
  id = suc db.last_app;
  status = status_or a.status;
  deployed_sha = [];
  deployed_at = none;
  hook_id = [];
  hook_secret = [];
  push_token_hash = [];
  push_token_hint = [];
  skip_db_dump = false;
  position = max_position (apps_of a.project_id db) +ℤ pos 1;
  created_at = now;
  updated_at = now;
}

-- The INSERT fails on a (project_id, slug) that is taken, and on a project that is not there.
unfoldable pub create_app : ℕ → App → Write App
create_app now a db =
    if app_slug_exists a.project_id a.slug db || not (member a.project_id (project_ids db))
    then (err constraint, db)
    else let db' = record db {
      apps = db.apps ++ new_app now a db ∷ [];
      last_app = suc db.last_app;
    } in
      (app_by_id (suc db.last_app) db', db')

-- ORDER BY position ASC, id ASC
unfoldable pub app_before : App → App → Bool
app_before a b =
    if lt_int a.position b.position
    then true
    else if lt_int b.position a.position
    then false
    else leb a.id b.id

unfoldable pub list_apps_by_project : ℕ → Db → List App
unfolding order_by app_before apps_of
list_apps_by_project project db = order_by app_before (apps_of project db)

-- UPDATE apps SET f WHERE id = ?
unfoldable pub update_app_row : ℕ → (App → App) → Write (Unit {0})
unfolding update_where
update_app_row id f db = (ok tt, record db { apps = update_where (λ a. a.id == id) f db.apps })

unfoldable pub update_app : ℕ → App → Write (Unit {0})
unfolding update_app_row
update_app now a = update_app_row a.id λ r. record r {
  name = a.name;
  domain = a.domain;
  cpu_limit = a.cpu_limit;
  mem_limit = a.mem_limit;
  port = a.port;
  serve_mode = a.serve_mode;
  root_dir = a.root_dir;
  build_cmd = a.build_cmd;
  start_cmd = a.start_cmd;
  upstream = a.upstream;
  source_dir = a.source_dir;
  git_url = a.git_url;
  git_ref = a.git_ref;
  git_subdir = a.git_subdir;
  updated_at = now;
}

unfoldable pub set_app_status : ℕ → ℕ → Text → Write (Unit {0})
unfolding update_app_row
set_app_status now id status = update_app_row id λ r. record r { status = status; updated_at = now }

unfoldable pub set_app_port : ℕ → ℕ → ℕ → Write (Unit {0})
unfolding update_app_row
set_app_port now id port = update_app_row id λ r. record r { port = port; updated_at = now }

unfoldable pub set_deployed : ℕ → ℕ → Text → Write (Unit {0})
unfolding update_app_row
set_deployed now id sha =
    update_app_row id λ r. record r { deployed_sha = sha; deployed_at = some now; updated_at = now }

abbrev pub app_ranked : ℕ → Ranked App
app_ranked project = record {
  ident = λ a. a.id;
  place = λ a. a.position;
  move = λ p a. record a { position = p };
  scope = λ a. a.project_id == project;
  ident-move = λ p a. refl;
  place-move = λ p a. refl;
  scope-move = λ p a. refl;
}

unfoldable pub app_ids_of : ℕ → Db → List ℕ
unfolding apps_of
app_ids_of project db = map (λ a. a.id) (apps_of project db)

unfoldable pub save_order : Option Refusal → ℕ → List ℕ → Write (Unit {0})
unfolding renumber
save_order (some why) project ids db = (err (stale_order why), db)
save_order none project ids db =
    (ok tt, record db { apps = renumber (app_ranked project) 1 ids db.apps })

unfoldable pub set_app_order : ℕ → List ℕ → Write (Unit {0})
unfolding check_order save_order
set_app_order project ids db = save_order (check_order (app_ids_of project db) ids) project ids db

-- ON DELETE CASCADE takes the app's domains and deployments.
unfoldable pub delete_app : ℕ → Write (Unit {0})
unfolding filter
delete_app id db = (
  ok tt,
  record db {
    apps = filter (λ a. not (a.id == id)) db.apps;
    domains = filter (λ d. not (d.app_id == id)) db.domains;
    deployments = filter (λ d. not (d.app_id == id)) db.deployments;
  },
)

unfoldable pub resumable_static_apps : Db → List App
unfolding filter
resumable_static_apps db =
    filter
      (λ a.
        (text_eq a.type type_static || text_eq a.type type_go)
        && text_eq a.serve_mode serve_command
        && text_eq a.status status_running)
      db.apps
