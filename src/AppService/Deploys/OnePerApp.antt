-- ===== src/AppService/Deploys/OnePerApp.antt =====
-- The deploys of one app do not overlap.
use xdev.Prelude.{
  ℕ, ◌≡◌, refl, ap, inl, inr, ◌==◌, Bool, true, false, List, [], ◌∷◌, some, arith, Bool-cases,
  Option-cases, Text, filter, find, In,
}
use xdev.Prelude.Result.{ok, err}
use xdev.Store.Schema.{Db, App, Deployment}
use xdev.Store.Ranking.{member}
use xdev.Store.Apps.{app_by_id, or_not_found, is_git, delete_app}
use xdev.Store.Projects.{delete_project}
use xdev.Store.Deployments.{is_running, clear_deployments}
use xdev.AppService.Deploys.{claim, in_progress}
use xdev.AppService.Deploys.Steps.{
  DeployJob, Service, refused, claim_and_begin, deploy_async, Step, deploys, pushes, advances,
  creates, created, clears, deletes, deletes_project, elsewhere, Reachable, started, goes_on,
}
use xdev.AppService.Deploys.Claims.{
  drives, backed, of_create, held, all-filter, all-In, any-In, In-member_app, Distinct-one,
}
use xdev.AppService.Deploys.Sound.{IsSound, boot-IsSound, deploy_async-IsSound, push_deploy-IsSound}
use xdev.AppService.Deploys.Advance.{advance-IsSound}
use xdev.AppService.Deploys.FirstBuilds.{begin_first_build-IsSound, advance_first-IsSound}

-- A write that only takes deploy rows away.
fewer-IsSound :
    (q : Deployment → Bool) (db : Db) (s : Service)
    → db.deployments ≡ filter q s.db.deployments
    → IsSound s
    → IsSound (record s { db = db })
fewer-IsSound q db s e i = record {
  claims = i.claims;
  distinct = i.distinct;
  rows = rw e (all-filter (held s.first_builds s.jobs) q s.db.deployments i.rows);
  ends = i.ends;
}

step-IsSound : (s t : Service) → Step s t → IsSound s → IsSound t
unfolding clear_deployments delete_app delete_project
step-IsSound s _ (deploys now id trigger) i = deploy_async-IsSound now id trigger s i
step-IsSound s _ (pushes now id trigger dir) i = push_deploy-IsSound now id trigger dir s i
step-IsSound s _ (advances say trim now h unpack n) i = advance-IsSound say trim now h unpack n s i
step-IsSound s _ (creates now fresh) i = begin_first_build-IsSound now fresh s i
step-IsSound s _ (created trim now h n) i = advance_first-IsSound trim now h n s i
step-IsSound s _ (clears app) i = fewer-IsSound _ _ s refl i
step-IsSound s _ (deletes app) i = fewer-IsSound _ _ s refl i
step-IsSound s _ (deletes_project id) i = fewer-IsSound _ _ s refl i
step-IsSound s _ (elsewhere others) i = record {
  claims = i.claims;
  distinct = i.distinct;
  rows = i.rows;
  ends = i.ends;
}

Reachable-IsSound : (s : Service) → Reachable s → IsSound s
Reachable-IsSound _ (started now db) = boot-IsSound now db
Reachable-IsSound _ (goes_on s t r step) = step-IsSound s t step (Reachable-IsSound s r)

-- The goroutine behind a running row.
driver :
    (s : Service) (d : Deployment)
    → IsSound s
    → In d s.db.deployments
    → is_running d ≡ true
    → of_create s.first_builds d ≡ false
    → (j : DeployJob) × (In j s.jobs) × (drives d j ≡ true)
unfolding backed held
driver s d i m running apart = any-In (drives d) s.jobs (
    ground (arith, running, apart, all-In (held s.first_builds s.jobs) s.db.deployments d i.rows m))

-- In whatever order requests, pushes, goroutines, first builds, deletions and restarts follow one
-- another, at most one deploy of an app that was asked for or pushed is running: two running rows of
-- one app are the same row, unless one of them is the row of a first build of Create.
pub Reachable-one_deploy :
    (s : Service) (d e : Deployment)
    → Reachable s
    → In d s.db.deployments
    → In e s.db.deployments
    → is_running d ≡ true
    → is_running e ≡ true
    → of_create s.first_builds d ≡ false
    → of_create s.first_builds e ≡ false
    → d.app_id ≡ e.app_id
    → d.id ≡ e.id
unfolding drives
Reachable-one_deploy s d e r md me rd re fd fe same =
    let i = Reachable-IsSound s r in
    let j = driver s d i md rd fd in
    let k = driver s e i me re fe in
    let one = Distinct-one j.0 k.0 s.jobs i.distinct j.1 k.1 (ground (arith, j.2, k.2, same)) in
    ground (arith, j.2, k.2, ap (λ x. x.row) one)

find-id :
    (id : ℕ) (rows : List App) (app : App) → find (λ a. a.id == id) rows ≡ some app → app.id ≡ id
unfolding find
find-id id [] app h = absurd (ground (arith, h))
find-id id (a ∷ rows) app h = elim (Bool-cases (a.id == id)) [
  | inl e ↦ ground (arith, h, e)
  | inr e ↦ find-id id rows app (ground (arith, h, e))
]

app_by_id-id : (id : ℕ) (db : Db) (app : App) → app_by_id id db ≡ ok app → app.id ≡ id
unfolding app_by_id or_not_found
app_by_id-id id db app h = elim (Option-cases (find (λ a. a.id == id) db.apps)) [
  | inl e ↦ absurd (ground (arith, h, e))
  | inr (a, e) ↦ find-id id db.apps app (ground (arith, h, e))
]

claimed-app :
    (s : Service) (j : DeployJob) (app : App)
    → IsSound s
    → In j s.jobs
    → (j.app.id == app.id) ≡ true
    → member app.id s.deploying ≡ true
claimed-app s j app i m e = rw (i.claims) (ground (arith, e, In-member_app j s.jobs m))

-- While a deploy of a git app is running that is not a first build of Create, DeployAsync refuses another one and changes nothing.
pub deploy_async-refuses :
    (now : ℕ) (trigger : Text) (s : Service) (d : Deployment) (app : App)
    → Reachable s
    → In d s.db.deployments
    → is_running d ≡ true
    → of_create s.first_builds d ≡ false
    → app_by_id d.app_id s.db ≡ ok app
    → is_git app ≡ true
    → deploy_async now d.app_id trigger s ≡ (err (refused in_progress), s)
unfolding deploy_async claim_and_begin claim drives
deploy_async-refuses now trigger s d app r m running apart found git =
    let i = Reachable-IsSound s r in
    let j = driver s d i m running apart in
    let held =
      claimed-app s j.0 app i j.1 (ground (arith, app_by_id-id d.app_id s.db app found, j.2)) in
    ground (arith, found, git, held)
