-- ===== src/AppService/Deploys/Sound.antt =====
-- The invariant of the deploys, from the start of xdev to the start of a deploy.
use xdev.Prelude.{
  ℕ, suc, ◌≡◌, refl, sym, ◌∙◌, ◌⊎◌, inl, inr, ◌==◌, ==_refl, ◌&&◌, Bool, true, false, List, [], ◌∷◌,
  ◌++◌, map, Option, none, some, arith, Bool-cases, Text, text_eq, filter, any, all,
}
use xdev.Prelude.Result.{Result, ok, err, Result-cases}
use xdev.Store.Schema.{Db, App, Deployment, StoreError, constraint}
use xdev.Store.Table.{update_where}
use xdev.Store.Ranking.{member, Distinct}
use xdev.Store.Apps.{app_by_id, is_git}
use xdev.Store.Deployments.{
  is_running, interrupted, deploy_failed, deploy_running, start_deployment,
  reap_running_deployments,
}
use xdev.Store.Domains.{app_exists}
use xdev.AppService.Deploys.{claim, release, push_target}
use xdev.AppService.Deploys.Creation.{FirstBuild}
use xdev.AppService.Deploys.Steps.{
  DeployJob, building, Service, begin, claim_and_begin, deploy_async, push_deploy, boot,
}
use xdev.AppService.Deploys.Claims.{
  is_open, settled, app_id, drives, backed, of_create, held, all-implies, release-absent,
}

-- The claims are those of the goroutines, one for each app; each running row has its goroutine;
-- and what a goroutine has to report is an end.
pub record IsSound (s : Service) : Type 0 where
  pub claims : s.deploying ≡ map app_id s.jobs
  pub distinct : Distinct (map app_id s.jobs)
  pub rows : all (held s.first_builds s.jobs) s.db.deployments ≡ true
  pub ends : all (λ j. settled j.phase) s.jobs ≡ true

-- A start of xdev leaves no row running.
closed-backed :
    (now : ℕ) (rows : List Deployment)
    → all (held [] []) (
        update_where is_running
          (λ d. record d { status = deploy_failed; message = interrupted; finished_at = some now })
          rows)
      ≡ true
unfolding all any update_where is_running held of_create backed text_eq
closed-backed now [] = refl
closed-backed now (d ∷ rows) = ground (arith, closed-backed now rows)

pub boot-IsSound : (now : ℕ) (db : Db) → IsSound (boot now db)
unfolding boot reap_running_deployments all
boot-IsSound now db = record {
  claims = refl;
  distinct = tt;
  rows = closed-backed now db.deployments;
  ends = refl;
}

pub all-append :
    {A : Type 0} (p : A → Bool) (xs ys : List A) → all p (xs ++ ys) ≡ (all p xs && all p ys)
unfolding all
all-append p [] ys = refl
all-append p (x ∷ xs) ys = ground (arith, all-append p xs ys)

backed-more :
    (j : DeployJob) (jobs : List DeployJob) (d : Deployment)
    → backed jobs d ≡ true
    → backed (j ∷ jobs) d ≡ true
unfolding backed any
backed-more j jobs d h = ground (arith, h)

held-more :
    (firsts : List FirstBuild) (j : DeployJob) (jobs : List DeployJob) (d : Deployment)
    → held firsts jobs d ≡ true
    → held firsts (j ∷ jobs) d ≡ true
unfolding held
held-more firsts j jobs d h = ground (arith, h, backed-more j jobs d)

-- A new goroutine stands behind its new row.
new-backed :
    (j : DeployJob) (jobs : List DeployJob) (d : Deployment)
    → (j.app.id == d.app_id) ≡ true
    → (j.row == d.id) ≡ true
    → is_open j.phase ≡ true
    → backed (j ∷ jobs) d ≡ true
unfolding backed any drives
new-backed j jobs d a r o = ground (arith, a, r, o)

-- What StartDeployment does to the rows.
pub start_deployment-cases :
    (now app : ℕ) (trigger : Text) (db : Db)
    → ((e : StoreError) × ((start_deployment now app trigger db).0 ≡ err e)
        × ((start_deployment now app trigger db).1 ≡ db))
      ⊎ ((d : Deployment) × (d.app_id ≡ app)
          × ((start_deployment now app trigger db).0 ≡ ok d.id)
          × ((start_deployment now app trigger db).1.deployments ≡ db.deployments ++ d ∷ []))
unfolding start_deployment
start_deployment-cases now app trigger db = elim (Bool-cases (app_exists app db)) [
  | inr e ↦ inl (constraint, rw (start_deployment, e) refl, rw (start_deployment, e) refl)
  | inl e ↦ inr (
    record {
      id = suc db.last_deployment;
      app_id = app;
      trigger = trigger;
      status = deploy_running;
      sha = [];
      message = [];
      log = [];
      created_at = now;
      finished_at = none;
    },
    refl,
    rw (start_deployment, e) refl,
    rw (start_deployment, e) refl,
  )
]

-- A claim that is given back at once changes nothing.
release-claimed : (id : ℕ) (ids : List ℕ) → member id ids ≡ false → release id (id ∷ ids) ≡ ids
unfolding release filter
release-claimed id ids m = rw (==_refl id) (release-absent id ids m)

begun-IsSound :
    (app : App) (j : DeployJob) (s : Service) (db : Db) (d : Deployment)
    → IsSound s
    → member app.id s.deploying ≡ false
    → j.app.id ≡ app.id
    → d.app_id ≡ app.id
    → j.row ≡ d.id
    → j.phase ≡ building
    → db.deployments ≡ s.db.deployments ++ d ∷ []
    → IsSound (record {
      deploying = app.id ∷ s.deploying;
      jobs = j ∷ s.jobs;
      first_builds = s.first_builds;
      db = db;
    })
unfolding all settled held
begun-IsSound app j s db d i m ja da row open_ rows = record {
  claims = rw (i.claims, ja) refl;
  distinct = (rw (sym i.claims, ja) m, i.distinct);
  rows = rw (rows) (
      all-append (held s.first_builds (j ∷ s.jobs)) s.db.deployments (d ∷ [])
      ∙ ground (
        arith,
        all-implies (held s.first_builds s.jobs) (held s.first_builds (j ∷ s.jobs)) s.db.deployments
            (held-more s.first_builds j s.jobs) i.rows,
        new-backed j s.jobs d (ground (arith, ja, da)) (ground (arith, row)) (rw open_ refl),
      ));
  ends = rw open_ i.ends;
}

begin-IsSound :
    (target : Option Text) (app : App) (s : Service) (res : Result StoreError ℕ) (db : Db)
    → IsSound s
    → member app.id s.deploying ≡ false
    → ((e : StoreError) × (res ≡ err e) × (db ≡ s.db))
      ⊎ ((d : Deployment) × (d.app_id ≡ app.id)
          × (res ≡ ok d.id)
          × (db.deployments ≡ s.db.deployments ++ d ∷ []))
    → IsSound (begin target app (app.id ∷ s.deploying) s (res, db)).1
unfolding begin
begin-IsSound target app s res db i m (inl (e, r, h)) =
    rw (r, h, release-claimed app.id s.deploying m) i
begin-IsSound target app s res db i m (inr (d, a, r, h)) = rw r (
    begun-IsSound app (record { target = target; app = app; row = d.id; phase = building }) s db d i
      m refl a refl refl h)

claim_and_begin-IsSound :
    (now : ℕ) (trigger : Text) (target : Option Text) (app : App) (s : Service)
    → IsSound s
    → IsSound (claim_and_begin now trigger target app s).1
unfolding claim_and_begin claim
claim_and_begin-IsSound now trigger target app s i = elim (Bool-cases (member app.id s.deploying)) [
  | inl e ↦ rw (claim_and_begin, claim, e) i
  | inr e ↦
      rw (claim_and_begin, claim, e)
        (begin-IsSound target app s (start_deployment now app.id trigger s.db).0
          (start_deployment now app.id trigger s.db).1 i e
          (start_deployment-cases now app.id trigger s.db))
]

pub deploy_async-IsSound :
    (now id : ℕ) (trigger : Text) (s : Service)
    → IsSound s
    → IsSound (deploy_async now id trigger s).1
unfolding deploy_async
deploy_async-IsSound now id trigger s i = elim (Result-cases (app_by_id id s.db)) [
  | inr (x, e) ↦ rw (deploy_async, e) i
  | inl (app, e) ↦ elim (Bool-cases (is_git app)) [
    | inr none_git ↦ rw (deploy_async, e, none_git) i
    | inl git ↦ rw (deploy_async, e, git) (claim_and_begin-IsSound now trigger none app s i)
  ]
]

pub push_deploy-IsSound :
    (now id : ℕ) (trigger dir : Text) (s : Service)
    → IsSound s
    → IsSound (push_deploy now id trigger dir s).1
unfolding push_deploy
push_deploy-IsSound now id trigger dir s i = elim (Result-cases (app_by_id id s.db)) [
  | inr (x, e) ↦ rw (push_deploy, e) i
  | inl (app, e) ↦ elim (Result-cases (push_target dir app)) [
    | inr (x, f) ↦ rw (push_deploy, e, f) i
    | inl (to, f) ↦ rw (push_deploy, e, f) (claim_and_begin-IsSound now trigger (some to) app s i)
  ]
]
