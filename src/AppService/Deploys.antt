-- ===== src/AppService/Deploys.antt =====
-- internal/apps/deploy.go, with startStatic of internal/apps/apps.go: the deploys of apps.
-- What the host answers to a deploy is a `Host`; `say` is err.Error(). Messages and logs are byte
-- strings, and `trim` is strings.TrimSpace on them.
pub mod Creation
pub mod Steps
pub mod Claims
pub mod Rows
pub mod Sound
pub mod Advance
pub mod FirstBuilds
pub mod Overlap
pub mod OnePerApp
use xdev.Prelude.{
  ℕ, ◌+◌, ◌-◌, ◌*◌, ◌==◌, ◌&&◌, ◌||◌, Bool, true, false, not, List, [], ◌∷◌, ◌++◌, Option, none,
  some, if◌then◌else◌, ltb, length, take, drop, is_empty, filter, Text, codes, text_eq, trim_space,
  before, itoa,
}
use xdev.Prelude.Paths.{join_path}
use xdev.Prelude.Result.{Result, ok, err}
use xdev.Store.Ranking.{member}
use xdev.Store.Schema.{Db, App, Write, StoreError, status_running, serve_static, serve_command}
use xdev.Store.Projects.{project_by_id}
use xdev.Store.Apps.{app_by_id, set_app_status, set_deployed, is_git, is_host_proc, is_external_dir}
use xdev.Store.Deployments.{start_deployment, deploy_ok, deploy_failed}

abbrev pub max_log_bytes : ℕ
max_log_bytes = 16 * 1024

abbrev pub app_error : Text
app_error = codes "error"

pub data DeployError : Type 0 where
  no_repository in_progress not_a_checkout no_tool : DeployError
  stored : StoreError → DeployError
  port_in_use : ℕ → DeployError
  from_host : Text → DeployError

-- What the host answers while an app is deployed: git, the container's deploy, and the
-- supervisor of the processes. `none` is no error.
pub record Host : Type 0 where
  pub is_repo : Bool
  pub no_source : Option Text
  pub update : Result Text Text
  pub container : Text × Option Text
  pub build : Text × Option Text
  pub has_tool : Bool
  pub rebuild : Option Text
  pub port_free : ℕ → Bool
  pub start : Option Text

-- The ids of inflight; a claim that is refused gives nothing.
unfoldable pub claim : ℕ → List ℕ → Option (List ℕ)
unfolding member
claim id ids = if member id ids then none else some (id ∷ ids)

unfoldable pub release : ℕ → List ℕ → List ℕ
unfolding filter
release id ids = filter (λ i. not (i == id)) ids

-- A write of the app's status, and the error that goes with it.
unfoldable pub fail_app : ℕ → ℕ → DeployError → Db → Option DeployError × Db
fail_app now id e db = (some e, (set_app_status now id app_error db).1)

unfoldable pub store_error {ℓ} : {A : Type ℓ} → Result StoreError A × Db → Option DeployError × Db
store_error (ok _, db) = (none, db)
store_error (err e, db) = (some (stored e), db)

-- The end of startStatic: the command, if the app runs one, and the status.
unfoldable pub launch : ℕ → Host → App → Db → Option DeployError × Db
unfolding fail_app store_error
launch now h app db =
    let served = store_error (set_app_status now app.id status_running db) in
    if not (text_eq app.serve_mode serve_command)
    then served
    else if ltb 0 app.port && not (h.port_free app.port)
    then fail_app now app.id (port_in_use app.port) db
    else elim (h.start) [ some e ↦ fail_app now app.id (from_host e) db | none ↦ served ]

-- TrimSpace(BuildCmd) != ""
unfoldable pub has_build : App → Bool
has_build app = not (is_empty (trim_space app.build_cmd))

-- The failure of a build that startStatic runs.
unfoldable pub build_fails : Host → App → Option Text
unfolding has_build
build_fails h app = if has_build app then h.rebuild else none

unfoldable pub start_static : ℕ → Host → App → Db → Option DeployError × Db
unfolding launch has_build build_fails fail_app
start_static now h app db = elim (project_by_id app.project_id db) [
  | err e ↦ (some (stored e), db)
  | ok p ↦
      if (text_eq app.serve_mode serve_command || has_build app) && not h.has_tool
      then fail_app now app.id no_tool db
      else elim (build_fails h app) [
        | some e ↦ fail_app now app.id (from_host e) db
        | none ↦ launch now h app db
      ]
]

-- What a deploy leaves: the commit, the build's output, and the error if it failed.
pub record DeployOutcome : Type 0 where
  pub sha : Text
  pub log : Text
  pub failure : Option DeployError

-- SetDeployed, unless what came before it failed.
unfoldable pub record_deployed :
    ℕ → App → Text → Text → Option DeployError × Db → DeployOutcome × Db
unfolding store_error
record_deployed now app sha log (some e, db) =
    (record { sha = sha; log = log; failure = some e }, db)
record_deployed now app sha log (none, db) =
    let done = store_error (set_deployed now app.id sha db) in
    (record { sha = sha; log = log; failure = done.0 }, done.1)

-- Serving the new build: a running command restarts, and static files are running as they are.
unfoldable pub serve_new : ℕ → Host → App → Db → Option DeployError × Db
serve_new now h app db =
    if text_eq app.serve_mode serve_command && text_eq app.status status_running
    then start_static now h app db
    else if text_eq app.serve_mode serve_static
    then (none, (set_app_status now app.id status_running db).1)
    else (none, db)

unfoldable pub deploy_container : ℕ → Host → App → Text → Db → DeployOutcome × Db
unfolding record_deployed fail_app
deploy_container now h app sha db = elim (h.container.1) [
  | some e ↦ record_deployed now app sha h.container.0 (fail_app now app.id (from_host e) db)
  | none ↦ record_deployed now app sha h.container.0 (none, db)
]

unfoldable pub deploy_host : ℕ → Host → App → Text → Db → DeployOutcome × Db
unfolding record_deployed fail_app serve_new has_build
deploy_host now h app sha db =
    if not (has_build app)
    then record_deployed now app sha [] (serve_new now h app db)
    else elim (h.build.1) [
      | some e ↦ record_deployed now app sha h.build.0 (fail_app now app.id (from_host e) db)
      | none ↦ record_deployed now app sha h.build.0 (serve_new now h app db)
    ]

unfoldable pub failed_outcome : DeployError → DeployOutcome
failed_outcome e = record { sha = []; log = []; failure = some e }

unfoldable pub deploy_now : ℕ → Host → App → Db → DeployOutcome × Db
unfolding failed_outcome
deploy_now now h app db =
    if not h.is_repo then (failed_outcome not_a_checkout, db) else elim (h.no_source) [
      | some e ↦ (failed_outcome (from_host e), db)
      | none ↦ elim (h.update) [
        | err e ↦ (failed_outcome (from_host e), db)
        | ok sha ↦
            if not (is_host_proc app)
            then deploy_container now h app sha db
            else deploy_host now h app sha db
      ]
    ]

-- The bytes of "…".
abbrev pub ellipsis : Text
ellipsis = 0xE2 ∷ 0x80 ∷ 0xA6 ∷ []

unfoldable pub tail_log : Text → Option Text → Text
tail_log log failure =
    let out =
      if ltb max_log_bytes (length log)
      then (ellipsis ++ codes "(trimmed)" ++ ellipsis ++ codes "\n")
        ++ drop (length log - max_log_bytes) log
      else log in
    elim failure [ none ↦ out | some e ↦ if is_empty out then e else e ++ codes "\n\n" ++ out ]

unfoldable pub short_sha : Text → Text
short_sha sha = if ltb 7 (length sha) then take 7 sha else sha

unfoldable pub first_line : (Text → Text) → Text → Text
first_line trim s =
    let line = before b'\n' s in
    trim (if ltb 300 (length line) then take 300 line ++ ellipsis else line)

-- What FinishDeployment is told of a deploy.
pub record Report : Type 0 where
  pub status : Text
  pub sha : Text
  pub message : Text
  pub log : Text

unfoldable pub deploy_report : (DeployError → Text) → (Text → Text) → DeployOutcome → Report
unfolding short_sha first_line tail_log
deploy_report say trim o = elim (o.failure) [
  | none ↦ record {
    status = deploy_ok;
    sha = o.sha;
    message = codes "deployed " ++ short_sha o.sha;
    log = tail_log o.log none;
  }
  | some e ↦ record {
    status = deploy_failed;
    sha = o.sha;
    message = first_line trim (say e);
    log = tail_log o.log (some (say e));
  }
]

pub data PushError : Type 0 where
  not_host_proc external_dir no_root_dir : PushError

-- The directory that a pushed build replaces; `dir` is the app's directory.
unfoldable pub push_target : Text → App → Result PushError Text
push_target dir app =
    if not (is_host_proc app)
    then err not_host_proc
    else if is_external_dir app
    then err external_dir
    else if is_empty app.root_dir
    then (if is_git app then err no_root_dir else ok dir)
    else ok (join_path (dir ∷ app.root_dir ∷ []))

unfoldable pub push_report :
    (DeployError → Text) → (Text → Text) → Text → Option DeployError → Report
unfolding first_line
push_report say trim target none = record {
  status = deploy_ok;
  sha = [];
  message = codes "uploaded build published to " ++ target;
  log = [];
}
push_report say trim target (some e) = record {
  status = deploy_failed;
  sha = [];
  message = first_line trim (say e);
  log = [];
}

-- PushDeploy once its row is there; `unpack` is what replacing the target answers.
unfoldable pub push_now : ℕ → Host → Option Text → App → Db → Option DeployError × Db
unfolding serve_new
push_now now h (some e) app db = (some (from_host e), db)
push_now now h none app db = serve_new now h app db
