-- ===== src/Store/Schema.antt =====
-- The tables of internal/store/migrations/*.sql as the program reads and writes them, and the
-- errors of package store (internal/store).
-- A time is a number of seconds: `datetime('now')` texts order alike. `cpu_limit` is in thousandths
-- of a core; the store only copies it.
use xdev.Prelude.{ℕ, Bool, List, [], Option, Text, codes}
use xdev.Prelude.Int.{ℤ}
use xdev.Prelude.Result.{Result}
use xdev.Store.Ranking.{Refusal}

pub data StoreError : Type 0 where
  not_found constraint : StoreError
  stale_order : Refusal → StoreError

pub record ProjectRow : Type 0 where
  pub id : ℕ
  pub name : Text
  pub slug : Text
  pub base_domain : Text
  pub environment : Text
  pub network_name : Text
  pub engine : Text
  pub dir : Text
  pub created_at : ℕ
  pub position : ℤ

-- type Project: a row without its position, with the count that ListProjects adds.
pub record Project : Type 0 where
  pub id : ℕ
  pub name : Text
  pub slug : Text
  pub base_domain : Text
  pub environment : Text
  pub network_name : Text
  pub engine : Text
  pub dir : Text
  pub created_at : ℕ
  pub app_count : ℕ

pub record App : Type 0 where
  pub id : ℕ
  pub project_id : ℕ
  pub name : Text
  pub slug : Text
  pub type : Text
  pub runtime : Text
  pub status : Text
  pub domain : Text
  pub cpu_limit : ℕ
  pub mem_limit : ℕ
  pub port : ℕ
  pub compose_path : Text
  pub serve_mode : Text
  pub root_dir : Text
  pub build_cmd : Text
  pub start_cmd : Text
  pub source_dir : Text
  pub git_url : Text
  pub git_ref : Text
  pub git_subdir : Text
  pub deployed_sha : Text
  pub deployed_at : Option ℕ
  pub hook_id : Text
  pub hook_secret : Text
  pub push_token_hash : Text
  pub push_token_hint : Text
  pub skip_db_dump : Bool
  pub laravel_server : Text
  pub position : ℤ
  pub upstream : Text
  pub db_mode : Text
  pub wp_mode : Text
  pub created_at : ℕ
  pub updated_at : ℕ

-- A row of the table domains.
pub record DomainRow : Type 0 where
  pub id : ℕ
  pub app_id : ℕ
  pub hostname : Text
  pub is_local : Bool
  pub ssl_mode : Text
  pub port : ℕ

pub record Deployment : Type 0 where
  pub id : ℕ
  pub app_id : ℕ
  pub trigger : Text
  pub status : Text
  pub sha : Text
  pub message : Text
  pub log : Text
  pub created_at : ℕ
  pub finished_at : Option ℕ

-- The database. A table is the list of its rows in the order of insertion; `last_…` is the
-- sqlite_sequence entry of an AUTOINCREMENT key, the largest id ever given.
pub record Db : Type 0 where
  pub projects : List ProjectRow
  pub last_project : ℕ
  pub apps : List App
  pub last_app : ℕ
  pub domains : List DomainRow
  pub last_domain : ℕ
  pub deployments : List Deployment
  pub last_deployment : ℕ
  pub settings : List (Text × Text)

abbrev pub empty_db : Db
empty_db = record {
  projects = [];
  last_project = 0;
  apps = [];
  last_app = 0;
  domains = [];
  last_domain = 0;
  deployments = [];
  last_deployment = 0;
  settings = [];
}

-- A statement or a method that writes: the error, if any, and the database after it.
abbrev pub Write : Type 0 → Type 0
Write A = Db → Result StoreError A × Db

-- App statuses, types and modes (internal/store/apps.go).
abbrev pub status_stopped : Text
status_stopped = codes "stopped"

abbrev pub status_running : Text
status_running = codes "running"

abbrev pub type_static : Text
type_static = codes "static"

abbrev pub type_go : Text
type_go = codes "go"

abbrev pub type_proxy : Text
type_proxy = codes "proxy"

abbrev pub type_compose : Text
type_compose = codes "compose"

abbrev pub serve_static : Text
serve_static = codes "serve"

abbrev pub serve_command : Text
serve_command = codes "command"

abbrev pub wp_shared : Text
wp_shared = codes "shared"
