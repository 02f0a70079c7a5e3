-- ===== src/Store/Deployments.antt =====
-- The deploy records of internal/store/deployments.go
pub mod History
use xdev.Prelude.{
  ℕ, suc, ◌&&◌, Bool, not, List, [], ◌∷◌, ◌++◌, map, none, some, leb, ◌==◌, if◌then◌else◌, take,
  length, Text, codes, text_eq, filter,
}
use xdev.Prelude.Result.{ok, err}
use xdev.Store.Schema.{Db, Write, constraint, Deployment}
use xdev.Store.Table.{order_by, update_where}
use xdev.Store.Domains.{app_exists}
use xdev.Store.Ranking.{member}

abbrev pub deploy_running : Text
deploy_running = codes "running"

abbrev pub deploy_failed : Text
deploy_failed = codes "failed"

abbrev pub deploy_ok : Text
deploy_ok = codes "ok"

abbrev pub keep_deployments : ℕ
keep_deployments = 20

unfoldable pub is_running : Deployment → Bool
is_running d = text_eq d.status deploy_running

-- The INSERT fails on an app that is not there; the other columns take their defaults.
unfoldable pub start_deployment : ℕ → ℕ → Text → Write ℕ
unfolding app_exists
start_deployment now app trigger db = if not (app_exists app db) then (err constraint, db) else (
  ok (suc db.last_deployment),
  record db {
    deployments =
        db.deployments
        ++ record {
          id = suc db.last_deployment;
          app_id = app;
          trigger = trigger;
          status = deploy_running;
          sha = [];
          message = [];
          log = [];
          created_at = now;
          finished_at = none;
        }
          ∷ [];
    last_deployment = suc db.last_deployment;
  },
)

unfoldable pub finish_deployment : ℕ → ℕ → Text → Text → Text → Text → Write (Unit {0})
unfolding update_where
finish_deployment now id status sha message log db = (
  ok tt,
  record db {
    deployments =
        update_where (λ d. d.id == id)
          (λ d. record d {
            status = status;
            sha = sha;
            message = message;
            log = log;
            finished_at = some now;
          })
          db.deployments;
  },
)

-- ORDER BY id DESC
unfoldable pub newer : Deployment → Deployment → Bool
newer a b = leb b.id a.id

-- SELECT … WHERE app_id = ? ORDER BY id DESC
unfoldable pub history : ℕ → List Deployment → List Deployment
unfolding order_by newer filter
history app rows = order_by newer (filter (λ d. d.app_id == app) rows)

unfoldable pub app_deployments : ℕ → ℕ → Db → List Deployment
unfolding history
app_deployments app limit db = take (if limit == 0 then 10 else limit) (history app db.deployments)

-- The ids of the subquery of PruneDeployments.
unfoldable pub kept_ids : ℕ → List Deployment → List ℕ
unfolding history
kept_ids app rows = map (λ d. d.id) (take keep_deployments (history app rows))

unfoldable pub prune_deployments : ℕ → Write (Unit {0})
unfolding kept_ids member filter
prune_deployments app db = (
  ok tt,
  record db {
    deployments =
        filter (λ d. not ((d.app_id == app) && not (member d.id (kept_ids app db.deployments))))
          db.deployments;
  },
)

-- A history that can go: the app's, and not running.
unfoldable pub clearable : ℕ → Deployment → Bool
unfolding is_running
clearable app d = (d.app_id == app) && not (text_eq d.status deploy_running)

-- The number of rows that went comes back.
unfoldable pub clear_deployments : ℕ → Write ℕ
unfolding clearable filter
clear_deployments app db = (
  ok (length (filter (clearable app) db.deployments)),
  record db { deployments = filter (λ d. not (clearable app d)) db.deployments },
)

abbrev pub interrupted : Text
interrupted = codes "interrupted — xdev restarted while this deploy was running"

unfoldable pub reap_running_deployments : ℕ → Write (Unit {0})
unfolding update_where is_running
reap_running_deployments now db = (
  ok tt,
  record db {
    deployments =
        update_where is_running
          (λ d. record d { status = deploy_failed; message = interrupted; finished_at = some now })
          db.deployments;
  },
)
