-- ===== src/Store/Consistent.antt =====
-- What the constraints of internal/store/migrations/*.sql promise of the database: keys, UNIQUE
-- columns and foreign keys, with the ids below their AUTOINCREMENT counters.
pub mod Tables
pub mod ProjectWrites
pub mod AppWrites
pub mod DomainWrites
pub mod DeploymentWrites
pub mod Reachable
use xdev.Prelude.{ℕ, ◌≤◌, ◌≡◌, ◌&&◌, Bool, true, not, List, map, ◌==◌, All, is_empty, Text, text_eq}
use xdev.Store.Ranking.{member, Distinct}
use xdev.Store.Rows.{Unique}
use xdev.Store.Schema.{Db, ProjectRow, App, DomainRow, Deployment}
use xdev.Store.Projects.{project_ids}

unfoldable pub same_slug : ProjectRow → ProjectRow → Bool
same_slug a b = text_eq a.slug b.slug

unfoldable pub same_app_slug : App → App → Bool
same_app_slug a b = (a.project_id == b.project_id) && text_eq a.slug b.slug

-- The unique index on hook_id leaves out the empty ones.
unfoldable pub same_hook : App → App → Bool
same_hook a b = not (is_empty a.hook_id) && text_eq a.hook_id b.hook_id

unfoldable pub same_host : DomainRow → DomainRow → Bool
same_host a b = text_eq a.hostname b.hostname

unfoldable pub same_key : Text × Text → Text × Text → Bool
same_key a b = text_eq a.0 b.0

pub record ProjectsOk (rows : List ProjectRow) (last : ℕ) : Type 0 where
  pub keys : Distinct (map (λ r. r.id) rows)
  pub bound : All (λ r. r.id ≤ last) rows
  pub slugs : Unique same_slug rows

pub record AppsOk (projects : List ℕ) (rows : List App) (last : ℕ) : Type 0 where
  pub keys : Distinct (map (λ a. a.id) rows)
  pub bound : All (λ a. a.id ≤ last) rows
  pub slugs : Unique same_app_slug rows
  pub hooks : Unique same_hook rows
  pub parents : All (λ a. member a.project_id projects ≡ true) rows

pub record DomainsOk (apps : List ℕ) (rows : List DomainRow) (last : ℕ) : Type 0 where
  pub keys : Distinct (map (λ d. d.id) rows)
  pub bound : All (λ d. d.id ≤ last) rows
  pub hosts : Unique same_host rows
  pub parents : All (λ d. member d.app_id apps ≡ true) rows

pub record DeploymentsOk (apps : List ℕ) (rows : List Deployment) (last : ℕ) : Type 0 where
  pub keys : Distinct (map (λ d. d.id) rows)
  pub bound : All (λ d. d.id ≤ last) rows
  pub parents : All (λ d. member d.app_id apps ≡ true) rows

abbrev pub app_ids : Db → List ℕ
app_ids db = map (λ a. a.id) db.apps

pub record IsConsistent (db : Db) : Type 0 where
  pub projects : ProjectsOk db.projects db.last_project
  pub apps : AppsOk (project_ids db) db.apps db.last_app
  pub domains : DomainsOk (app_ids db) db.domains db.last_domain
  pub deployments : DeploymentsOk (app_ids db) db.deployments db.last_deployment
  pub settings : Unique same_key db.settings
