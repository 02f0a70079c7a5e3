-- ===== src/Store/Consistent/Reachable.antt =====
-- The writes of the store as steps: every database that they reach from an empty one is consistent.
use xdev.Prelude.{
  ℕ, ◌≡◌, ◌∙◌, arith, [], ◌∷◌, ◌++◌, if◌then◌else◌, refl, inl, inr, Bool, not, ◌&&◌, List,
  Bool-cases, ◌==◌, any, is_empty, text_eq, Text,
}
use xdev.Store.Schema.{Db, Project, App, empty_db}
use xdev.Store.Rows.{Unique, Unique-update, Unique-snoc}
use xdev.Store.Table.{update_where}
use xdev.Store.Consistent.{IsConsistent, same_key}
use xdev.Store.Consistent.ProjectWrites.{
  create_project-IsConsistent, rename_project-IsConsistent, set_project_config-IsConsistent,
  set_project_order-IsConsistent, delete_project-IsConsistent,
}
use xdev.Store.Consistent.AppWrites.{
  create_app-IsConsistent, update_app_row-IsConsistent, same_hooks, set_app_order-IsConsistent,
  delete_app-IsConsistent,
}
use xdev.Store.Consistent.DomainWrites.{
  replace_app_domains-IsConsistent, create_domain-IsConsistent,
}
use xdev.Store.Consistent.DeploymentWrites.{
  start_deployment-IsConsistent, update_deployments-IsConsistent, delete_deployments-IsConsistent,
  set_hook-Unique,
}
use xdev.Store.Projects
use xdev.Store.Apps
use xdev.Store.Endpoints
use xdev.Store.Domains
use xdev.Store.Domains.{ServiceDomain}
use xdev.Store.Deployments
use xdev.Store.Settings

-- One call of a writing method, whether it succeeds or is refused.
pub data Step (db : Db) : Db → Type 0 where
  create_project : (now : ℕ) (p : Project) → Step db (Projects.create_project now p db).1
  rename_project : (id : ℕ) (name : Text) → Step db (Projects.rename_project id name db).1
  set_project_config :
      (id : ℕ) (base env : Text) (local : Bool) (ssl : Text)
      → Step db (Projects.set_project_config id base env local ssl db).1
  set_project_order : (ids : List ℕ) → Step db (Projects.set_project_order ids db).1
  delete_project : (id : ℕ) → Step db (Projects.delete_project id db).1
  create_app : (now : ℕ) (a : App) → Step db (Apps.create_app now a db).1
  update_app : (now : ℕ) (a : App) → Step db (Apps.update_app now a db).1
  set_app_status : (now id : ℕ) (status : Text) → Step db (Apps.set_app_status now id status db).1
  set_app_port : (now id port : ℕ) → Step db (Apps.set_app_port now id port db).1
  set_deployed : (now id : ℕ) (sha : Text) → Step db (Apps.set_deployed now id sha db).1
  set_app_order : (project : ℕ) (ids : List ℕ) → Step db (Apps.set_app_order project ids db).1
  delete_app : (id : ℕ) → Step db (Apps.delete_app id db).1
  set_app_hook :
      (now id : ℕ) (hook secret : Text) → Step db (Endpoints.set_app_hook now id hook secret db).1
  set_app_push_token :
      (now id : ℕ) (hash hint : Text) → Step db (Endpoints.set_app_push_token now id hash hint db).1
  set_skip_db_dump :
      (now id : ℕ) (skip : Bool) → Step db (Endpoints.set_skip_db_dump now id skip db).1
  set_app_domain : (now id : ℕ) (host : Text) → Step db (Domains.set_app_domain now id host db).1
  replace_app_domains :
      (app : ℕ) (hosts : List Text) (svc : List ServiceDomain) (local : Bool) (ssl : Text)
      → Step db (Domains.replace_app_domains app hosts svc local ssl db).1
  create_domain :
      (app : ℕ) (host : Text) (local : Bool) (ssl : Text) (port : ℕ)
      → Step db (Domains.create_domain app host local ssl port db).1
  start_deployment :
      (now app : ℕ) (trigger : Text) → Step db (Deployments.start_deployment now app trigger db).1
  finish_deployment :
      (now id : ℕ) (status sha message log : Text)
      → Step db (Deployments.finish_deployment now id status sha message log db).1
  prune_deployments : (app : ℕ) → Step db (Deployments.prune_deployments app db).1
  clear_deployments : (app : ℕ) → Step db (Deployments.clear_deployments app db).1
  reap_running_deployments : (now : ℕ) → Step db (Deployments.reap_running_deployments now db).1
  set_setting : (key value : Text) → Step db (Settings.set_setting key value db).1

pub data Reach (db : Db) : Db → Type 0 where
  here : Reach db db
  next : {db' db'' : Db} → Reach db db' → Step db' db'' → Reach db db''

-- An UPDATE of one app that leaves id, project, slug and webhook alone.
plain_update :
    (id : ℕ) (f : App → App) (db : Db)
    → ((a : App) → (f a).id ≡ a.id)
    → ((a : App) → (f a).project_id ≡ a.project_id)
    → ((a : App) → (f a).slug ≡ a.slug)
    → ((a : App) → (f a).hook_id ≡ a.hook_id)
    → IsConsistent db
    → IsConsistent (Apps.update_app_row id f db).1
plain_update id f db ids projects slugs hooks c =
    update_app_row-IsConsistent id f db ids projects slugs
      (same_hooks f _ db.apps hooks c.apps.hooks) c

set_app_hook-IsConsistent :
    (now id : ℕ) (hook secret : Text) (db : Db)
    → IsConsistent db
    → IsConsistent (Endpoints.set_app_hook now id hook secret db).1
unfolding Endpoints.set_app_hook
set_app_hook-IsConsistent now id hook secret db c =
    elim (Bool-cases (
      not (is_empty hook)
      && any (λ a. a.id == id) db.apps
      && any (λ a. not (a.id == id) && text_eq a.hook_id hook) db.apps)) [
        | inl refused ↦ rw refused c
        | inr free ↦ rw free (
            update_app_row-IsConsistent id _ db (λ r. refl) (λ r. refl) (λ r. refl)
              (set_hook-Unique id hook _ (λ r. refl) db.apps c.apps.keys free c.apps.hooks) c)
      ]

-- The test of the UPSERT: no row has the key of a new one.
any-same_key :
    (key value : Text) (rows : List (Text × Text))
    → any (λ s. same_key s (key, value)) rows ≡ any (λ s. text_eq s.0 key) rows
unfolding any same_key
any-same_key key value [] = refl
any-same_key key value (s ∷ rows) = ground (arith, any-same_key key value rows)

set_setting-Unique :
    (key value : Text) (rows : List (Text × Text))
    → Unique same_key rows
    → Unique same_key (
        if any (λ s. text_eq s.0 key) rows
        then update_where (λ s. text_eq s.0 key) (λ s. (s.0, value)) rows
        else rows ++ (key, value) ∷ [])
unfolding same_key
set_setting-Unique key value rows u = elim (Bool-cases (any (λ s. text_eq s.0 key) rows)) [
  | inl e ↦ rw e (Unique-update same_key _ _ rows (λ a b. refl) (λ a b. refl) u)
  | inr e ↦ rw e (Unique-snoc same_key rows (key, value) (any-same_key key value rows ∙ e) u)
]

set_setting-IsConsistent :
    (key value : Text) (db : Db)
    → IsConsistent db
    → IsConsistent (Settings.set_setting key value db).1
unfolding Settings.set_setting
set_setting-IsConsistent key value db c = record {
  projects = c.projects;
  apps = c.apps;
  domains = c.domains;
  deployments = c.deployments;
  settings = set_setting-Unique key value db.settings c.settings;
}

pub Step-IsConsistent : {db db' : Db} → Step db db' → IsConsistent db → IsConsistent db'
Step-IsConsistent {db} (create_project now p) c = create_project-IsConsistent now p db c
Step-IsConsistent {db} (rename_project id name) c = rename_project-IsConsistent id name db c
Step-IsConsistent {db} (set_project_config id base env local ssl) c =
    set_project_config-IsConsistent id base env local ssl db c
Step-IsConsistent {db} (set_project_order ids) c = set_project_order-IsConsistent ids db c
Step-IsConsistent {db} (delete_project id) c = delete_project-IsConsistent id db c
Step-IsConsistent {db} (create_app now a) c = create_app-IsConsistent now a db c
Step-IsConsistent {db} (update_app now a) c =
    unfold Apps.update_app in
    plain_update a.id _ db (λ r. refl) (λ r. refl) (λ r. refl) (λ r. refl) c
Step-IsConsistent {db} (set_app_status now id status) c =
    unfold Apps.set_app_status in
    plain_update id _ db (λ r. refl) (λ r. refl) (λ r. refl) (λ r. refl) c
Step-IsConsistent {db} (set_app_port now id port) c =
    unfold Apps.set_app_port in
    plain_update id _ db (λ r. refl) (λ r. refl) (λ r. refl) (λ r. refl) c
Step-IsConsistent {db} (set_deployed now id sha) c =
    unfold Apps.set_deployed in
    plain_update id _ db (λ r. refl) (λ r. refl) (λ r. refl) (λ r. refl) c
Step-IsConsistent {db} (set_app_order project ids) c = set_app_order-IsConsistent project ids db c
Step-IsConsistent {db} (delete_app id) c = delete_app-IsConsistent id db c
Step-IsConsistent {db} (set_app_hook now id hook secret) c =
    set_app_hook-IsConsistent now id hook secret db c
Step-IsConsistent {db} (set_app_push_token now id hash hint) c =
    unfold Endpoints.set_app_push_token in
    plain_update id _ db (λ r. refl) (λ r. refl) (λ r. refl) (λ r. refl) c
Step-IsConsistent {db} (set_skip_db_dump now id skip) c =
    unfold Endpoints.set_skip_db_dump in
    plain_update id _ db (λ r. refl) (λ r. refl) (λ r. refl) (λ r. refl) c
Step-IsConsistent {db} (set_app_domain now id host) c =
    unfold Domains.set_app_domain in
    plain_update id _ db (λ r. refl) (λ r. refl) (λ r. refl) (λ r. refl) c
Step-IsConsistent {db} (replace_app_domains app hosts svc local ssl) c =
    replace_app_domains-IsConsistent app hosts svc local ssl db c
Step-IsConsistent {db} (create_domain app host local ssl port) c =
    create_domain-IsConsistent app host local ssl port db c
Step-IsConsistent {db} (start_deployment now app trigger) c =
    start_deployment-IsConsistent now app trigger db c
Step-IsConsistent {db} (finish_deployment now id status sha message log) c =
    unfold Deployments.finish_deployment in
    update_deployments-IsConsistent _ _ db (λ d. refl) (λ d. refl) c
Step-IsConsistent {db} (prune_deployments app) c =
    unfold Deployments.prune_deployments in delete_deployments-IsConsistent _ db c
Step-IsConsistent {db} (clear_deployments app) c =
    unfold Deployments.clear_deployments in delete_deployments-IsConsistent _ db c
Step-IsConsistent {db} (reap_running_deployments now) c =
    unfold Deployments.reap_running_deployments in
    update_deployments-IsConsistent _ _ db (λ d. refl) (λ d. refl) c
Step-IsConsistent {db} (set_setting key value) c = set_setting-IsConsistent key value db c

pub empty_db-IsConsistent : IsConsistent empty_db
empty_db-IsConsistent = record {
  projects = record { keys = tt; bound = tt; slugs = tt };
  apps = record { keys = tt; bound = tt; slugs = tt; hooks = tt; parents = tt };
  domains = record { keys = tt; bound = tt; hosts = tt; parents = tt };
  deployments = record { keys = tt; bound = tt; parents = tt };
  settings = tt;
}

-- Whatever writes run, in any order and with any arguments, from a consistent database: ids and
-- slugs and hostnames and webhook ids and the keys of settings stay unique, ids stay below their counters, and every app,
-- domain and deployment belongs to a row that is there.
pub Reach-IsConsistent : {db db' : Db} → IsConsistent db → Reach db db' → IsConsistent db'
Reach-IsConsistent c here = c
Reach-IsConsistent c (next r s) = Step-IsConsistent s (Reach-IsConsistent c r)
