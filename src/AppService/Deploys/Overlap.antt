-- ===== src/AppService/Deploys/Overlap.antt =====
-- A deploy next to the first build of its app.
use xdev.Prelude.{
  ℕ, suc, none, ◌≡◌, refl, inl, inr, ◌==◌, ==_refl, ◌&&◌, Bool, true, false, List, [], ◌∷◌, ◌++◌,
  some, arith, Option-cases, Text, text_eq, filter, find, any,
}
use xdev.Prelude.Result.{ok}
use xdev.Store.Schema.{Db, App, Deployment}
use xdev.Store.Ranking.{member}
use xdev.Store.Apps.{app_by_id, or_not_found, is_git}
use xdev.Store.Domains.{app_exists}
use xdev.Store.Deployments.{is_running, deploy_running, start_deployment}
use xdev.AppService.Deploys.{claim}
use xdev.AppService.Deploys.Creation.{deploy_create}
use xdev.AppService.Deploys.Steps.{Service, begin, claim_and_begin, deploy_async, begin_first_build}

-- The running rows of an app.
abbrev pub running_of : ℕ → List Deployment → List Deployment
running_of app rows = filter (λ d. is_running d && (d.app_id == app)) rows

find-any :
    (p : App → Bool) (rows : List App) (app : App) → find p rows ≡ some app → any p rows ≡ true
unfolding find any
find-any p [] app h = absurd (ground (arith, h))
find-any p (a ∷ rows) app h = ground (arith, h, find-any p rows app)

app_by_id-exists :
    (app : App) (db : Db) → app_by_id app.id db ≡ ok app → app_exists app.id db ≡ true
unfolding app_by_id or_not_found app_exists
app_by_id-exists app db h = elim (Option-cases (find (λ a. a.id == app.id) db.apps)) [
  | inl e ↦ absurd (ground (arith, h, e))
  | inr (a, e) ↦ find-any (λ a. a.id == app.id) db.apps a e
]

abbrev new_row : ℕ → ℕ → Text → Db → Deployment
new_row now app trigger db = record {
  id = suc db.last_deployment;
  app_id = app;
  trigger = trigger;
  status = deploy_running;
  sha = [];
  message = [];
  log = [];
  created_at = now;
  finished_at = none;
}

abbrev opened : ℕ → ℕ → Text → Db → Db
opened now app trigger db = record db {
  deployments = db.deployments ++ new_row now app trigger db ∷ [];
  last_deployment = suc db.last_deployment;
}

start_deployment-opened :
    (now app : ℕ) (trigger : Text) (db : Db)
    → app_exists app db ≡ true
    → start_deployment now app trigger db ≡ (ok (suc db.last_deployment), opened now app trigger db)
unfolding start_deployment
start_deployment-opened now app trigger db e = rw (start_deployment, e) refl

running_of-two :
    (app : ℕ) (rows : List Deployment) (d e : Deployment)
    → (is_running d && (d.app_id == app)) ≡ true
    → (is_running e && (e.app_id == app)) ≡ true
    → running_of app ((rows ++ d ∷ []) ++ e ∷ []) ≡ running_of app rows ++ d ∷ e ∷ []
unfolding filter
running_of-two app [] d e hd he = ground (arith, hd, he)
running_of-two app (r ∷ rows) d e hd he = ground (arith, running_of-two app rows d e hd he)

-- A deploy that is not refused.
deploy_async-begins :
    (now : ℕ) (trigger : Text) (s : Service) (app : App)
    → app_by_id app.id s.db ≡ ok app
    → is_git app ≡ true
    → member app.id s.deploying ≡ false
    → app_exists app.id s.db ≡ true
    → deploy_async now app.id trigger s
      ≡ begin none app
          (app.id ∷ s.deploying)
          s
          (ok (suc s.db.last_deployment), opened now app.id trigger s.db)
unfolding deploy_async claim_and_begin claim
deploy_async-begins now trigger s app found git free there =
    rw
      (
        deploy_async,
        found,
        git,
        claim_and_begin,
        claim,
        free,
        start_deployment-opened now app.id trigger s.db there,
      )
      refl

-- While Create runs the first build of a git app that nothing else deploys, DeployAsync accepts a
-- deploy of the same app: then the app has two more running rows than before.
pub deploy_async-overlaps :
    (now later : ℕ) (trigger : Text) (s : Service) (app : App)
    → app_by_id app.id s.db ≡ ok app
    → is_git app ≡ true
    → member app.id s.deploying ≡ false
    → (row : ℕ) × (first second : Deployment) × ((deploy_async later app.id trigger
          (begin_first_build now app s)).0
        ≡ ok row)
      × (running_of app.id
            (deploy_async later app.id trigger (begin_first_build now app s)).1.db.deployments
          ≡ running_of app.id s.db.deployments ++ first ∷ second ∷ [])
unfolding begin begin_first_build app_exists app_by_id is_running text_eq
deploy_async-overlaps now later trigger s app found git free =
    let there = app_by_id-exists app s.db found in
    let first = start_deployment-opened now app.id deploy_create s.db there in
    let second =
      deploy_async-begins later trigger (begin_first_build now app s) app
        (rw (begin_first_build, first) found) git free (rw (begin_first_build, first) there) in
    let db = opened now app.id deploy_create s.db in
    (
      suc db.last_deployment,
      new_row now app.id deploy_create s.db,
      new_row later app.id trigger db,
      rw second (rw (begin_first_build, first) refl),
      rw second (
          rw (begin_first_build, first)
            (running_of-two app.id s.db.deployments _ _ (==_refl app.id) (==_refl app.id))),
    )
