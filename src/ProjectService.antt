-- ===== src/ProjectService.antt =====
-- internal/projects/projects.go: creating, renaming, configuring and deleting projects.
-- What the file system and the container engine answer in one call is a parameter of the call.
pub mod Create
pub mod Change
pub mod Configure
pub mod Stamp
mod Examples
use xdev.Prelude.{
  ℕ, suc, ◌+◌, ◌&&◌, ◌||◌, Bool, true, false, not, List, [], ◌∷◌, ◌++◌, map, Option, none, some,
  ltb, leb, ◌==◌, if◌then◌else◌, is_empty, length, filter, Text, codes, text_eq, trim_space,
  lower_rune, contains, has_prefix, has_suffix, any,
}
use xdev.Prelude.Paths.{join_path}
use xdev.Prelude.Result.{Result, ok, err}
use xdev.Naming.{unique}
use xdev.Store.Schema.{Db, Project, StoreError}
use xdev.Store.Projects.{
  project_slug_exists, project_by_id, create_project, rename_project, set_project_config,
  delete_project,
}

-- Why an operation is refused; `no_fuel` stands for a search of Unique that does not end.
pub data ServiceError : Type 0 where
  name_required name_too_long unknown_environment mkdir_failed network_failed no_fuel : ServiceError
  domain_too_long domain_not_bare domain_dots domain_characters : ServiceError
  store_failed : StoreError → ServiceError

-- The database, the directories of the projects and the (engine, network) pairs.
pub record World : Type 0 where
  pub db : Db
  pub dirs : List Text
  pub networks : List (Text × Text)

-- What MkdirAll, NetworkCreate, RemoveAll and NetworkRemove answer.
pub record Answers : Type 0 where
  pub makes_dir : Bool
  pub makes_network : Bool
  pub removes_dir : Bool
  pub removes_network : Bool

pub record Settings : Type 0 where
  pub projects_dir : Text
  pub engine : Text

abbrev pub Outcome : Type 0
Outcome = Result ServiceError Project × World

unfoldable pub remove_dir : Answers → Text → World → World
unfolding filter
remove_dir ans dir w =
    if ans.removes_dir then record w { dirs = filter (λ d. not (text_eq d dir)) w.dirs } else w

unfoldable pub remove_network : Answers → Text → Text → World → World
unfolding filter
remove_network ans engine name w =
    if ans.removes_network
    then record w {
      networks = filter (λ n. not (text_eq n.0 engine && text_eq n.1 name)) w.networks;
    }
    else w

abbrev pub or_local : Text → Text
or_local [] = codes "local"
or_local (c ∷ s) = c ∷ s

abbrev pub or_localhost : Text → Text → Text
or_localhost [] slug = slug ++ codes ".localhost"
or_localhost (c ∷ s) slug = c ∷ s

-- The project that Create hands to the store.
unfoldable pub draft : Settings → Text → Text → Text → Text → Project
unfolding join_path
draft cfg name base environment slug = record {
  id = 0;
  name = name;
  slug = slug;
  base_domain = or_localhost base slug;
  environment = or_local environment;
  network_name = codes "xdev_" ++ slug;
  engine = cfg.engine;
  dir = join_path (cfg.projects_dir ∷ slug ∷ []);
  created_at = 0;
  app_count = 0;
}

-- After the INSERT: what a failure of it takes back.
unfoldable pub settle : Answers → Project → World → Result StoreError Project × Db → Outcome
settle ans p w (ok q, db) = (ok q, record w { db = db })
settle ans p w (err e, db) = (
  err (store_failed e),
  remove_network ans p.engine p.network_name (remove_dir ans p.dir (record w { db = db })),
)

-- Create, once the slug is chosen.
unfoldable pub provision : Answers → ℕ → Project → World → Outcome
provision ans now p w =
    if not ans.makes_dir
    then (err mkdir_failed, w)
    else let with_dir : World = record w { dirs = p.dir ∷ w.dirs } in
      if not ans.makes_network
      then (err network_failed, remove_dir ans p.dir with_dir)
      else let with_network : World = record with_dir {
        networks = (p.engine, p.network_name) ∷ w.networks;
      } in
        settle ans p with_network (create_project now p w.db)

unfoldable pub create : (ℕ → ℕ) → Settings → Answers → ℕ → Text → Text → Text → World → Outcome
create fold cfg ans now name base environment w =
    if is_empty (trim_space name)
    then (err name_required, w)
    else elim (unique (suc (length w.db.projects)) fold (trim_space name)
        (λ t. project_slug_exists t w.db)) [
          | none ↦ (err no_fuel, w)
          | some slug ↦ provision ans now (draft cfg (trim_space name) base environment slug) w
        ]

abbrev pub max_project_name : ℕ
max_project_name = 80

unfoldable pub from_store : Result StoreError Project → World → Outcome
from_store (ok p) w = (ok p, w)
from_store (err e) w = (err (store_failed e), w)

unfoldable pub rename_found : ℕ → Text → Result StoreError Project → World → Outcome
unfolding rename_project
rename_found id name (err e) w = (err (store_failed e), w)
rename_found id name (ok p) w =
    let renamed = (rename_project id name w.db).1 in
    if text_eq p.name name
    then (ok p, w)
    else from_store (project_by_id id renamed) (record w { db = renamed })

unfoldable pub rename : ℕ → Text → World → Outcome
rename id name w =
    if is_empty (trim_space name)
    then (err name_required, w)
    else if ltb max_project_name (length (trim_space name))
    then (err name_too_long, w)
    else rename_found id (trim_space name) (project_by_id id w.db) w

abbrev pub or_engine : Text → Text → Text
or_engine [] current = current
or_engine (c ∷ s) current = c ∷ s

unfoldable pub delete_found :
    Settings
    → Answers
    → ℕ
    → Result StoreError Project
    → World
    → Result ServiceError (Unit {0}) × World
unfolding delete_project
delete_found cfg ans id (err e) w = (err (store_failed e), w)
delete_found cfg ans id (ok p) w =
    let w' = remove_network ans (or_engine p.engine cfg.engine) p.network_name w in
    let w'' = if is_empty p.dir then w' else remove_dir ans p.dir w' in
    (ok tt, record w'' { db = (delete_project id w''.db).1 })

unfoldable pub delete : Settings → Answers → ℕ → World → Result ServiceError (Unit {0}) × World
delete cfg ans id w = delete_found cfg ans id (project_by_id id w.db) w
