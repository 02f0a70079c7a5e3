-- ===== src/AppService/Deploys/Steps.antt =====
-- The service over time: requests for deploys, the goroutines that carry them out, and what else
-- touches their rows, the first build that Create of internal/apps/apps.go runs among them. A
-- goroutine is known by its app and its row.
use xdev.Prelude.{
  ℕ, ◌==◌, ◌&&◌, Bool, not, List, [], ◌∷◌, Option, none, some, if◌then◌else◌, Text, filter,
  get_elem?,
}
use xdev.Prelude.Result.{Result, ok, err}
use xdev.Store.Schema.{Db, App, StoreError}
use xdev.Store.Table.{update_where}
use xdev.Store.Apps.{app_by_id, delete_app, is_git}
use xdev.Store.Projects.{delete_project}
use xdev.Store.Deployments.{
  start_deployment, finish_deployment, prune_deployments, clear_deployments,
  reap_running_deployments,
}
use xdev.AppService.Deploys.Creation.{
  FirstBuild, deploy_create, made_row, first_report, finish_made, fail_first, without,
}
use xdev.AppService.Deploys.{
  DeployError, no_repository, in_progress, stored, Host, Report, claim, release, deploy_now,
  deploy_report, push_now, push_report, PushError, push_target,
}

-- How far a goroutine is: it deploys, it has something to report, or its row is finished.
pub data Phase : Type 0 where
  building : Phase
  built : Report → Phase
  finished : Phase

-- `target` is the directory of a pushed build; a deploy from git has none.
pub record DeployJob : Type 0 where
  pub target : Option Text
  pub app : App
  pub row : ℕ
  pub phase : Phase

-- The ids that are claimed, the goroutines at work, the first builds at work, and the store.
pub record Service : Type 0 where
  pub deploying : List ℕ
  pub jobs : List DeployJob
  pub first_builds : List FirstBuild
  pub db : Db

pub data AskError : Type 0 where
  refused : DeployError → AskError
  no_target : PushError → AskError

-- StartDeployment after the claim, which goes back if the row cannot be made.
unfoldable pub begin :
    Option Text → App → List ℕ → Service → Result StoreError ℕ × Db → Result AskError ℕ × Service
unfolding release
begin target app claimed s (err e, db) =
    (err (refused (stored e)), record s { deploying = release app.id claimed; db = db })
begin target app claimed s (ok row, db) = (
  ok row,
  record {
    deploying = claimed;
    first_builds = s.first_builds;
    jobs = record { target = target; app = app; row = row; phase = building } ∷ s.jobs;
    db = db;
  },
)

unfoldable pub claim_and_begin :
    ℕ → Text → Option Text → App → Service → Result AskError ℕ × Service
unfolding begin
claim_and_begin now trigger target app s = elim (claim app.id s.deploying) [
  | none ↦ (err (refused in_progress), s)
  | some claimed ↦ begin target app claimed s (start_deployment now app.id trigger s.db)
]

-- DeployAsync, up to the start of its goroutine.
unfoldable pub deploy_async : ℕ → ℕ → Text → Service → Result AskError ℕ × Service
unfolding claim_and_begin
deploy_async now id trigger s = elim (app_by_id id s.db) [
  | err e ↦ (err (refused (stored e)), s)
  | ok app ↦
      if not (is_git app)
      then (err (refused no_repository), s)
      else claim_and_begin now trigger none app s
]

-- PushDeploy, up to the unpacking; `dir` is the app's directory.
unfoldable pub push_deploy : ℕ → ℕ → Text → Text → Service → Result AskError ℕ × Service
unfolding claim_and_begin
push_deploy now id trigger dir s = elim (app_by_id id s.db) [
  | err e ↦ (err (refused (stored e)), s)
  | ok app ↦ elim (push_target dir app) [
    | err e ↦ (err (no_target e), s)
    | ok target ↦ claim_and_begin now trigger (some target) app s
  ]
]

unfoldable pub is_job : ℕ → ℕ → DeployJob → Bool
is_job app row j = (j.app.id == app) && (j.row == row)

unfoldable pub set_phase : ℕ → ℕ → Phase → List DeployJob → List DeployJob
unfolding update_where is_job
set_phase app row phase jobs = update_where (is_job app row) (λ j. record j { phase = phase }) jobs

-- The work of a goroutine, and what it has to report.
unfoldable pub work :
    (DeployError → Text) → (Text → Text) → ℕ → Host → Option Text → DeployJob → Db → Report × Db
unfolding deploy_report push_report
work say trim now h unpack j db = elim (j.target) [
  | none ↦ let out = deploy_now now h j.app db in (deploy_report say trim out.0, out.1)
  | some target ↦
      let out = push_now now h unpack j.app db in (push_report say trim target out.0, out.1)
]

unfoldable pub carry_out :
    (DeployError → Text) → (Text → Text) → ℕ → Host → Option Text → DeployJob → Service → Service
unfolding set_phase work
carry_out say trim now h unpack j s =
    let out = work say trim now h unpack j s.db in
    record s { jobs = set_phase j.app.id j.row (built out.0) s.jobs; db = out.1 }

-- FinishDeployment and PruneDeployments.
unfoldable pub finish_row : ℕ → DeployJob → Report → Service → Service
unfolding set_phase
finish_row now j r s =
    let done = (finish_deployment now j.row r.status r.sha r.message r.log s.db).1 in
    record s {
      jobs = set_phase j.app.id j.row finished s.jobs;
      db = (prune_deployments j.app.id done).1;
    }

-- The deferred release, and the end of the goroutine.
unfoldable pub leave : DeployJob → Service → Service
unfolding release filter is_job
leave j s = record s {
  deploying = release j.app.id s.deploying;
  jobs = filter (λ k. not (is_job j.app.id j.row k)) s.jobs;
}

-- A start of xdev: nothing is claimed, and the rows that were left running are closed.
unfoldable pub boot : ℕ → Db → Service
boot now db = record {
  deploying = [];
  jobs = [];
  first_builds = [];
  db = (reap_running_deployments now db).1;
}

-- Create, from the StartDeployment of its first build to the build: it takes no claim.
unfoldable pub begin_first_build : ℕ → App → Service → Service
unfolding made_row
begin_first_build now fresh s =
    let made = start_deployment now fresh.id deploy_create s.db in
    record s {
      first_builds = record { fresh = fresh; row = made_row made.0 } ∷ s.first_builds;
      db = made.1;
    }

-- The end of the first build at place `n`.
unfoldable pub end_first_build : (Text → Text) → ℕ → Host → ℕ → FirstBuild → Service → Service
unfolding first_report finish_made fail_first without
end_first_build trim now h n f s = record s {
  first_builds = without n s.first_builds;
  db = fail_first now h f.fresh (finish_made now (first_report trim h f.fresh) f.row s.db);
}

-- The first build at a place of the list, if there is one, ends.
unfoldable pub advance_first : (Text → Text) → ℕ → Host → ℕ → Service → Service
unfolding end_first_build
advance_first trim now h n s = elim (get_elem? s.first_builds n) [
  | none ↦ s
  | some f ↦ end_first_build trim now h n f s
]

-- A goroutine's next step.
unfoldable pub advance_job :
    (DeployError → Text) → (Text → Text) → ℕ → Host → Option Text → DeployJob → Service → Service
unfolding carry_out finish_row leave
advance_job say trim now h unpack j s = elim (j.phase) [
  | building ↦ carry_out say trim now h unpack j s
  | built r ↦ finish_row now j r s
  | finished ↦ leave j s
]

-- The goroutine at a place of the list takes its next step.
unfoldable pub advance :
    (DeployError → Text) → (Text → Text) → ℕ → Host → Option Text → ℕ → Service → Service
unfolding advance_job
advance say trim now h unpack n s = elim (get_elem? s.jobs n) [
  | none ↦ s
  | some j ↦ advance_job say trim now h unpack j s
]

-- What happens to a running service; `elsewhere` is any write that leaves the deploy rows alone.
pub data Step (s : Service) : Service → Type 0 where
  deploys : (now id : ℕ) (trigger : Text) → Step s (deploy_async now id trigger s).1
  pushes : (now id : ℕ) (trigger dir : Text) → Step s (push_deploy now id trigger dir s).1
  advances :
      (say : DeployError → Text) (trim : Text → Text) (now : ℕ) (h : Host) (unpack : Option Text)
      (n : ℕ)
      → Step s (advance say trim now h unpack n s)
  creates : (now : ℕ) (fresh : App) → Step s (begin_first_build now fresh s)
  created :
      (trim : Text → Text) (now : ℕ) (h : Host) (n : ℕ) → Step s (advance_first trim now h n s)
  clears : (app : ℕ) → Step s (record s { db = (clear_deployments app s.db).1 })
  deletes : (app : ℕ) → Step s (record s { db = (delete_app app s.db).1 })
  deletes_project : (id : ℕ) → Step s (record s { db = (delete_project id s.db).1 })
  elsewhere :
      (others : Db) → Step s (record s { db = record others { deployments = s.db.deployments } })

-- What a service can come to from a start of xdev, on any database.
pub data Reachable : Service → Type 0 where
  started : (now : ℕ) (db : Db) → Reachable (boot now db)
  goes_on : (s t : Service) → Reachable s → Step s t → Reachable t
