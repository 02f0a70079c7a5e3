-- ===== src/Store/Examples.antt =====
-- Runs of internal/store on the sample database.
use xdev.Prelude.{
  any, ℕ, ◌≡◌, refl, ◌⊎◌, true, false, not, ◌+◌, List, [], ◌∷◌, map, arith, if◌then◌else◌, ◌==◌,
  take, length, Text, codes, is_empty, text_eq, filter,
}
use xdev.Prelude.Result.{ok, err}
use xdev.Store.Schema.{Db, Project, stale_order, constraint}
use xdev.Store.Ranking.{Arranges, Refusal}
use xdev.Store.Projects.{
  project_ids, project_slug_exists, create_project, list_projects, set_project_order,
}
use xdev.Store.Projects.Order.{set_project_order-accepts, set_project_order-list}
use xdev.Store.Projects.Front.{create_project-first}
use xdev.Store.Apps.{app_ids_of, set_app_order, list_apps_by_project}
use xdev.Store.Apps.Order.{set_app_order-accepts, set_app_order-list}
use xdev.Store.Domains.{
  ServiceDomain, replace_app_domains, app_hostnames, app_service_domains, app_exists,
}
use xdev.Store.Domains.Replace.{replace_app_domains-reads}
use xdev.Store.Domains.Accepts.{written, held_elsewhere, replace_app_domains-accepts}
use xdev.Store.DeployKeys.{Keys, bind_deploy_key, not_available}
use xdev.Store.Endpoints.{set_app_hook}
use xdev.Store.DeployKeys.Binding.{bind_deploy_key-once}
use xdev.Store.Rows.{Unique}
use xdev.Store.Deployments.{keep_deployments, history, prune_deployments}
use xdev.Store.Deployments.History.{prune_deployments-history}
use xdev.Store.Consistent.{IsConsistent}
use xdev.Store.Sample.{sample, sample-IsConsistent}
use xdev.Store.Consistent.Reachable.{here, next, Step, Reach-IsConsistent}

set_project_order-accepts_example :
    (Arranges (project_ids sample) (2 ∷ 2 ∷ [])
      × ((set_project_order (2 ∷ 2 ∷ []) sample).0 ≡ ok tt))
    ⊎ ((¬ Arranges (project_ids sample) (2 ∷ 2 ∷ []))
        × (why : Refusal) × (set_project_order (2 ∷ 2 ∷ []) sample
            ≡ (err (stale_order why), sample)))
set_project_order-accepts_example = set_project_order-accepts (2 ∷ 2 ∷ []) sample

swap_accepted : (set_project_order (2 ∷ 1 ∷ []) sample).0 ≡ ok tt
unfolding set_project_order project_ids
swap_accepted = refl

set_project_order-list_example :
    map (λ p. p.id) (list_projects (set_project_order (2 ∷ 1 ∷ []) sample).1) ≡ 2 ∷ 1 ∷ []
set_project_order-list_example =
    set_project_order-list (2 ∷ 1 ∷ []) sample
      (unfold project_ids in sample-IsConsistent.projects.keys) swap_accepted

abbrev draft : Project
draft = record {
  id = 0;
  name = codes "Docs";
  slug = codes "docs";
  base_domain = [];
  environment = codes "production";
  network_name = codes "docs-net";
  engine = codes "podman";
  dir = codes "docs";
  created_at = 0;
  app_count = 0;
}

draft_is_free : project_slug_exists draft.slug sample ≡ false
unfolding project_slug_exists text_eq
draft_is_free = refl

create_project-first_example :
    (q : Project) × ((create_project 10 draft sample).0 ≡ ok q)
    × (q.slug ≡ draft.slug)
    × (q.app_count ≡ 0)
    × (list_projects (create_project 10 draft sample).1 ≡ q ∷ list_projects sample)
create_project-first_example =
    create_project-first 10 draft sample sample-IsConsistent draft_is_free

set_app_order-accepts_example :
    (Arranges (app_ids_of 1 sample) (2 ∷ 3 ∷ [])
      × ((set_app_order 1 (2 ∷ 3 ∷ []) sample).0 ≡ ok tt))
    ⊎ ((¬ Arranges (app_ids_of 1 sample) (2 ∷ 3 ∷ []))
        × (why : Refusal) × (set_app_order 1 (2 ∷ 3 ∷ []) sample ≡ (err (stale_order why), sample)))
set_app_order-accepts_example = set_app_order-accepts 1 (2 ∷ 3 ∷ []) sample

apps_accepted : (set_app_order 1 (2 ∷ 1 ∷ []) sample).0 ≡ ok tt
unfolding set_app_order app_ids_of
apps_accepted = refl

set_app_order-list_example :
    map (λ a. a.id) (list_apps_by_project 1 (set_app_order 1 (2 ∷ 1 ∷ []) sample).1) ≡ 2 ∷ 1 ∷ []
set_app_order-list_example =
    set_app_order-list 1 (2 ∷ 1 ∷ []) sample sample-IsConsistent.apps.keys apps_accepted

abbrev new_hosts : List Text
new_hosts = codes "www.test" ∷ [] ∷ codes "api.test" ∷ []

abbrev new_services : List ServiceDomain
new_services = record { host = codes "mail.test"; port = 8025 } ∷ []

replace_app_domains-reads_example :
    (replace_app_domains 1 new_hosts new_services true (codes "local") sample
      ≡ (err constraint, sample))
    ⊎ ((db' : Db) × (replace_app_domains 1 new_hosts new_services true (codes "local") sample
          ≡ (ok tt, db'))
        × ((other : ℕ)
            → app_hostnames other db' ≡ (
                if 1 == other
                then filter (λ h. not (is_empty h)) new_hosts
                else app_hostnames other sample))
        × ((other : ℕ)
            → app_service_domains other db'
              ≡ (if 1 == other then new_services else app_service_domains other sample)))
replace_app_domains-reads_example =
    replace_app_domains-reads 1 new_hosts new_services true (codes "local") sample
      sample-IsConsistent (omega arith, tt)

app_is_there : app_exists 1 sample ≡ true
unfolding app_exists
app_is_there = refl

names_differ : Unique text_eq (written new_hosts new_services)
unfolding text_eq filter xdev.Prelude.any
names_differ = (refl, (refl, (refl, tt)))

names_are_free : held_elsewhere 1 (written new_hosts new_services) sample ≡ false
unfolding text_eq xdev.Prelude.any filter
names_are_free = refl

replace_app_domains-accepts_example :
    (replace_app_domains 1 new_hosts new_services true (codes "local") sample).0 ≡ ok tt
replace_app_domains-accepts_example =
    replace_app_domains-accepts 1 new_hosts new_services true (codes "local") sample app_is_there
      names_differ names_are_free

abbrev keys : Keys
keys = record {
  rows =
      record {
        id = 1;
        app_id = 0;
        public_key = codes "pub";
        private_key = codes "priv";
        fingerprint = codes "fp";
        created_at = 3;
      }
      ∷ [];
  last = 1;
}

first_bind : (bind_deploy_key 1 4 keys).0 ≡ ok tt
unfolding bind_deploy_key
first_bind = refl

bind_deploy_key-once_example :
    bind_deploy_key 1 5 (bind_deploy_key 1 4 keys).1
    ≡ (err not_available, (bind_deploy_key 1 4 keys).1)
bind_deploy_key-once_example = bind_deploy_key-once 1 4 5 keys (λ e. omega arith) first_bind

prune_deployments-history_example : history 1 (prune_deployments 1 sample).1.deployments ≡ (
    if 1 == 1
    then take keep_deployments (history 1 sample.deployments)
    else history 1 sample.deployments)
prune_deployments-history_example =
    prune_deployments-history 1 1 sample sample-IsConsistent.deployments.keys

app_1_there : any (λ a. a.id == 1) sample.apps ≡ true
unfolding any
app_1_there = refl

hook_is_set : (set_app_hook 20 1 (codes "k9") (codes "s9") sample).0 ≡ ok tt
unfolding set_app_hook text_eq
hook_is_set = refl

abbrev after_project : Db
after_project = (create_project 10 draft sample).1

abbrev after_order : Db
after_order = (set_app_order 1 (2 ∷ 1 ∷ []) after_project).1

Reach-IsConsistent_example : IsConsistent after_order
Reach-IsConsistent_example =
    Reach-IsConsistent sample-IsConsistent
      (next (next here (Step.create_project 10 draft)) (Step.set_app_order 1 (2 ∷ 1 ∷ [])))
