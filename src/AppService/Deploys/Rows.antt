-- ===== src/AppService/Deploys/Rows.antt =====
-- What the work of a goroutine leaves alone: the deploy rows.
use xdev.Prelude.{
  ℕ, ◌≡◌, refl, ◌∙◌, inl, inr, true, Option, none, some, arith, [], Bool-cases, Option-cases, Text,
  text_eq,
}
use xdev.Prelude.Result.{Result, ok, err, Result-cases}
use xdev.Store.Schema.{Db, App, StoreError, status_running}
use xdev.Store.Apps.{set_app_status, set_deployed, update_app_row}
use xdev.AppService.Deploys.{
  DeployError, DeployOutcome, Host, app_error, fail_app, store_error, launch, start_static,
  record_deployed, serve_new, deploy_container, deploy_host, deploy_now, push_now, has_build,
  from_host, deploy_report, push_report,
}
use xdev.AppService.Deploys.Steps.{DeployJob, work, built}
use xdev.AppService.Deploys.Claims.{settled}

set_app_status-rows :
    (now id : ℕ) (status : Text) (db : Db)
    → (set_app_status now id status db).1.deployments ≡ db.deployments
unfolding set_app_status update_app_row
set_app_status-rows now id status db = refl

set_deployed-rows :
    (now id : ℕ) (sha : Text) (db : Db)
    → (set_deployed now id sha db).1.deployments ≡ db.deployments
unfolding set_deployed update_app_row
set_deployed-rows now id sha db = refl

store_error-state {ℓ} :
    {A : Type ℓ} (res : Result StoreError A) (db : Db) → (store_error (res, db)).1 ≡ db
unfolding store_error
store_error-state (ok x) db = refl
store_error-state (err e) db = refl

launch-rows :
    (now : ℕ) (h : Host) (app : App) (db : Db)
    → (launch now h app db).1.deployments ≡ db.deployments
unfolding launch fail_app store_error set_app_status update_app_row
launch-rows now h app db = ground arith

start_static-rows :
    (now : ℕ) (h : Host) (app : App) (db : Db)
    → (start_static now h app db).1.deployments ≡ db.deployments
unfolding start_static fail_app
start_static-rows now h app db =
    ground (arith, launch-rows now h app db, set_app_status-rows now app.id app_error db)

serve_new-rows :
    (now : ℕ) (h : Host) (app : App) (db : Db)
    → (serve_new now h app db).1.deployments ≡ db.deployments
unfolding serve_new
serve_new-rows now h app db =
    ground (arith, start_static-rows now h app db, set_app_status-rows now app.id status_running db)

record_deployed-rows :
    (now : ℕ) (app : App) (sha log : Text) (failure : Option DeployError) (db : Db)
    → (record_deployed now app sha log (failure, db)).1.deployments ≡ db.deployments
unfolding record_deployed store_error set_deployed update_app_row
record_deployed-rows now app sha log none db = refl
record_deployed-rows now app sha log (some e) db = refl

deploy_container-rows :
    (now : ℕ) (h : Host) (app : App) (sha : Text) (db : Db)
    → (deploy_container now h app sha db).1.deployments ≡ db.deployments
unfolding deploy_container fail_app
deploy_container-rows now h app sha db = elim (Option-cases (h.container.1)) [
  | inl e ↦ rw (deploy_container, e) (record_deployed-rows now app sha h.container.0 none db)
  | inr (x, e) ↦
      rw (deploy_container, e)
        (record_deployed-rows now app sha h.container.0 (some (from_host x))
            (set_app_status now app.id app_error db).1
          ∙ set_app_status-rows now app.id app_error db)
]

deploy_host-rows :
    (now : ℕ) (h : Host) (app : App) (sha : Text) (db : Db)
    → (deploy_host now h app sha db).1.deployments ≡ db.deployments
unfolding deploy_host fail_app
deploy_host-rows now h app sha db = elim (Bool-cases (has_build app)) [
  | inr e ↦
      rw (deploy_host, e)
        (record_deployed-rows now app sha [] (serve_new now h app db).0 (serve_new now h app db).1
          ∙ serve_new-rows now h app db)
  | inl b ↦ elim (Option-cases (h.build.1)) [
    | inl e ↦
        rw (deploy_host, b, e)
          (record_deployed-rows now app sha h.build.0 (serve_new now h app db).0
              (serve_new now h app db).1
            ∙ serve_new-rows now h app db)
    | inr (x, e) ↦
        rw (deploy_host, b, e)
          (record_deployed-rows now app sha h.build.0 (some (from_host x))
              (set_app_status now app.id app_error db).1
            ∙ set_app_status-rows now app.id app_error db)
  ]
]

deploy_now-rows :
    (now : ℕ) (h : Host) (app : App) (db : Db)
    → (deploy_now now h app db).1.deployments ≡ db.deployments
unfolding deploy_now
deploy_now-rows now h app db = elim (Bool-cases (h.is_repo)) [
  | inr e ↦ rw (deploy_now, e) refl
  | inl repo ↦ elim (Option-cases (h.no_source)) [
    | inr (x, e) ↦ rw (deploy_now, repo, e) refl
    | inl source ↦ elim (Result-cases (h.update)) [
      | inr (x, e) ↦ rw (deploy_now, repo, source, e) refl
      | inl (sha, e) ↦ ground (
        arith,
        repo,
        source,
        e,
        deploy_container-rows now h app sha db,
        deploy_host-rows now h app sha db,
      )
    ]
  ]
]

push_now-rows :
    (now : ℕ) (h : Host) (unpack : Option Text) (app : App) (db : Db)
    → (push_now now h unpack app db).1.deployments ≡ db.deployments
unfolding push_now
push_now-rows now h (some e) app db = refl
push_now-rows now h none app db = serve_new-rows now h app db

-- What a goroutine does before it reports leaves the deploy rows alone.
pub work-rows :
    (say : DeployError → Text) (trim : Text → Text) (now : ℕ) (h : Host) (unpack : Option Text)
    (j : DeployJob) (db : Db)
    → (work say trim now h unpack j db).1.deployments ≡ db.deployments
unfolding work
work-rows say trim now h unpack j db =
    ground (arith, deploy_now-rows now h j.app db, push_now-rows now h unpack j.app db)

deploy_report-settled :
    (say : DeployError → Text) (trim : Text → Text) (o : DeployOutcome)
    → settled (built (deploy_report say trim o)) ≡ true
unfolding settled deploy_report text_eq
deploy_report-settled say trim o = elim (Option-cases (o.failure)) [
  | inl e ↦ rw (deploy_report, e) refl
  | inr (x, e) ↦ rw (deploy_report, e) refl
]

push_report-settled :
    (say : DeployError → Text) (trim : Text → Text) (to : Text) (failure : Option DeployError)
    → settled (built (push_report say trim to failure)) ≡ true
unfolding settled push_report text_eq
push_report-settled say trim to none = refl
push_report-settled say trim to (some e) = refl

-- What a goroutine reports is an end.
pub work-settled :
    (say : DeployError → Text) (trim : Text → Text) (now : ℕ) (h : Host) (unpack : Option Text)
    (j : DeployJob) (db : Db)
    → settled (built (work say trim now h unpack j db).0) ≡ true
unfolding work
work-settled say trim now h unpack j db = elim (Option-cases (j.target)) [
  | inl e ↦ rw (work, e) (deploy_report-settled say trim (deploy_now now h j.app db).0)
  | inr (to, e) ↦ rw (work, e) (push_report-settled say trim to (push_now now h unpack j.app db).0)
]
