-- ===== src/AppService/Examples.antt =====
-- Runs of internal/apps.
use xdev.Prelude.{
  ℕ, suc, ◌+◌, ◌-◌, ◌||◌, ◌≤◌, ◌<◌, ◌==◌, ◌≡◌, refl, true, false, not, List, [], ◌∷◌, ◌++◌, map,
  Option, none, some, inl, inr, ◌⊎◌, Bool, arith, if◌then◌else◌, length, Text, codes, text_eq, any,
  find, fields_func, All,
}
use xdev.Prelude.Int.{ℤ, pos}
use xdev.Prelude.Result.{ok, err}
use xdev.Store.Rows.{Unique}
use xdev.Store.Schema.{App, Db, Deployment}
use xdev.Store.Sample.{sample, app, deployment}
use xdev.Store.Deployments.{is_running, deploy_running}
use xdev.AppService.Hostnames.{
  HostError, parse_hosts, valid_host, normalize_host, is_separator, listed_twice,
}
use xdev.AppService.Hostnames.Parse.{parse_hosts-accepts}
use xdev.AppService.Ports.{app_ports, used_by_app}
use xdev.AppService.Ports.Alloc.{Allotted, app_ports-Allotted}
use xdev.AppService.Deploys.{in_progress, no_repository, first_line, tail_log}
use xdev.AppService.Deploys.Steps.{
  Service, boot, begin_first_build, deploy_async, refused, Reachable, started, goes_on, deploys,
}
use xdev.AppService.Deploys.Claims.{of_create}
use xdev.AppService.Deploys.Overlap.{running_of, deploy_async-overlaps}
use xdev.AppService.Deploys.OnePerApp.{Reachable-one_deploy, deploy_async-refuses}

abbrev cast : Text → ℤ
cast t = pos 0

-- Two ports, the first chosen by the user; 20000 is busy on the host.
abbrev free_from : ℕ → Bool
free_from p = not (p == 20000)

two_ports : app_ports cast free_from 2 8080 (20001 ∷ []) sample ≡ ok (8080 ∷ 20002 ∷ [])
unfolding app_ports xdev.AppService.Ports.check_chosen_port xdev.AppService.Ports.port_taken
    xdev.Store.Routes.used_ports xdev.AppService.Ports.alloc_ports xdev.AppService.Ports.pick_ports
    xdev.AppService.Ports.pick_from
two_ports = refl

app_ports-Allotted_example : Allotted cast free_from 2 (20001 ∷ []) sample (8080 ∷ 20002 ∷ [])
app_ports-Allotted_example =
    app_ports-Allotted cast free_from 2 8080 (20001 ∷ []) sample (8080 ∷ 20002 ∷ []) (omega arith)
      two_ports

abbrev two_names : Text
two_names = codes "A.test, b.test"

abbrev fold : ℕ → ℕ
fold c = c

parse_hosts-accepts_example :
    ((All
          (λ h. valid_host h ≡ none)
          (map (normalize_host fold) (fields_func is_separator [] two_names))
        × Unique text_eq (map (normalize_host fold) (fields_func is_separator [] two_names)))
      × (parse_hosts fold two_names
          ≡ ok (map (normalize_host fold) (fields_func is_separator [] two_names))))
    ⊎ ((¬ (
          All
            (λ h. valid_host h ≡ none)
            (map (normalize_host fold) (fields_func is_separator [] two_names))
          × Unique text_eq (map (normalize_host fold) (fields_func is_separator [] two_names))))
        × (e : HostError) × (parse_hosts fold two_names ≡ err e))
parse_hosts-accepts_example = parse_hosts-accepts fold two_names

two_hosts : parse_hosts fold two_names ≡ ok (codes "a.test" ∷ codes "b.test" ∷ [])
unfolding parse_hosts xdev.AppService.Hostnames.parse_fields fields_func is_separator valid_host
    normalize_host xdev.Prelude.one_of text_eq
two_hosts = refl

same_host_twice : parse_hosts fold (codes "a.test A.test") ≡ err (listed_twice (codes "a.test"))
unfolding parse_hosts xdev.AppService.Hostnames.parse_fields fields_func is_separator valid_host
    normalize_host xdev.Prelude.one_of text_eq
same_host_twice = refl

abbrev git_app : App
git_app = record (app 1 1 (codes "api") 1) { git_url = codes "https://github.com/leyume/xdev" }

abbrev one_git_app : Db
one_git_app = record sample { apps = git_app ∷ [] }

abbrev idle : Service
idle = boot 5 one_git_app

abbrev busy : Service
busy = (deploy_async 6 1 (codes "manual") idle).1

busy-Reachable : Reachable busy
busy-Reachable = goes_on idle busy (started 5 one_git_app) (deploys 6 1 (codes "manual"))

-- The row that the deploy has made.
abbrev row : Deployment
row = record (deployment 4 1 deploy_running) { created_at = 6 }

Reachable-one_deploy_example : row.id ≡ row.id
unfolding deploy_async xdev.Store.Apps.app_by_id boot
    xdev.Store.Deployments.reap_running_deployments xdev.Store.Apps.is_git
    xdev.AppService.Deploys.claim xdev.Store.Deployments.start_deployment text_eq of_create
Reachable-one_deploy_example =
    Reachable-one_deploy busy row row busy-Reachable (inr (inr (inr (inl refl))))
      (inr (inr (inr (inl refl)))) refl refl refl refl refl

deploy_async-refuses_example :
    deploy_async 7 1 (codes "webhook") busy ≡ (err (refused in_progress), busy)
unfolding deploy_async xdev.Store.Apps.app_by_id boot
    xdev.Store.Deployments.reap_running_deployments xdev.Store.Apps.is_git
    xdev.AppService.Deploys.claim xdev.Store.Deployments.start_deployment text_eq of_create
deploy_async-refuses_example =
    deploy_async-refuses 7 (codes "webhook") busy row git_app busy-Reachable
      (inr (inr (inr (inl refl)))) refl refl refl refl

-- A git app in containers, while its first build runs.
abbrev container_app : App
container_app = record git_app { type = codes "laravel" }

abbrev containers : Service
containers = boot 5 (record sample { apps = container_app ∷ [] })

deploy_async-overlaps_example :
    (r : ℕ) × (first second : Deployment) × ((deploy_async 7 1
        (codes "push")
        (begin_first_build 6 container_app containers)).0
      ≡ ok r)
    × (running_of 1
          (deploy_async 7 1
            (codes "push")
            (begin_first_build 6 container_app containers)).1.db.deployments
        ≡ running_of 1 containers.db.deployments ++ first ∷ second ∷ [])
unfolding xdev.Store.Apps.app_by_id boot xdev.Store.Deployments.reap_running_deployments
    xdev.Store.Apps.is_git text_eq xdev.Store.Ranking.member
deploy_async-overlaps_example =
    deploy_async-overlaps 6 7 (codes "push") containers container_app refl refl refl

no_git : (deploy_async 6 1 (codes "manual") (boot 5 sample)).0 ≡ err (refused no_repository)
unfolding deploy_async xdev.Store.Apps.app_by_id boot
    xdev.Store.Deployments.reap_running_deployments xdev.Store.Apps.is_git
no_git = refl

first_line_of_two : first_line (λ s. s) (codes "exit status 128\nfatal") ≡ codes "exit status 128"
unfolding first_line xdev.Prelude.before
first_line_of_two = refl

log_of_failure : tail_log (codes "building") (some (codes "boom")) ≡ codes "boom\n\nbuilding"
unfolding tail_log
log_of_failure = refl
