-- ===== src/Store/Deployments/History.antt =====
-- What pruning, clearing and reaping leave of an app's deploy history.
use xdev.Prelude.{
  some, ==_refl, ℕ, suc, zero, ◌≡◌, refl, sym, ap, ◌∙◌, ◌+◌, inl, inr, Bool, true, false, not, ◌&&◌,
  List, [], ◌∷◌, map, arith, Bool-cases, if◌then◌else◌, ◌==◌, ==_iff, filter, take, length, text_eq,
}
use xdev.Prelude.Result.{ok}
use xdev.Store.Ranking.{member, Distinct}
use xdev.Store.Ranking.Keys.{Distinct-order}
use xdev.Store.Rows.{Distinct-filter}
use xdev.Store.Schema.{Db, Deployment}
use xdev.Store.Deployments.{
  newer, history, kept_ids, keep_deployments, prune_deployments, clearable, clear_deployments,
  deploy_running, deploy_failed, interrupted, reap_running_deployments, is_running,
}
use xdev.Store.Table.{update_where, order_by, IsOrder, length-order_by}
use xdev.Store.Table.Select.{filter-order_by}

newer-IsOrder : IsOrder newer
unfolding newer
newer-IsOrder = record { total = λ a b h. ground arith; trans = λ a b c h k. ground arith }

-- Two filters over a table, where their tests agree row by row.
filter-filter :
    (p q r s : Deployment → Bool) (rows : List Deployment)
    → ((d : Deployment) → (q d && p d) ≡ (s d && r d))
    → filter p (filter q rows) ≡ filter r (filter s rows)
unfolding filter
filter-filter p q r s [] h = refl
filter-filter p q r s (d ∷ rows) h = ground (arith, h d, filter-filter p q r s rows h)

-- Selecting more rows of a history, in either order.
history-filter :
    (app : ℕ) (q r : Deployment → Bool) (rows : List Deployment)
    → ((d : Deployment) → (q d && (d.app_id == app)) ≡ ((d.app_id == app) && r d))
    → history app (filter q rows) ≡ filter r (history app rows)
unfolding history
history-filter app q r rows h =
    ap (order_by newer) (filter-filter (λ d. d.app_id == app) q r (λ d. d.app_id == app) rows h)
    ∙ sym (filter-order_by newer newer-IsOrder r (filter (λ d. d.app_id == app) rows))

filter-none : (rows : List Deployment) → filter (λ d. false) rows ≡ []
unfolding filter
filter-none [] = refl
filter-none (d ∷ rows) = filter-none rows

filter-all : (rows : List Deployment) → filter (λ d. true) rows ≡ rows
unfolding filter
filter-all [] = refl
filter-all (d ∷ rows) = rw (filter-all rows)

skip_other :
    (a : ℕ) (ids : List ℕ) (rows : List Deployment)
    → member a (map (λ d. d.id) rows) ≡ false
    → filter (λ d. member d.id (a ∷ ids)) rows ≡ filter (λ d. member d.id ids) rows
unfolding filter member
skip_other a ids [] h = refl
skip_other a ids (d ∷ rows) h = ground (arith, skip_other a ids rows)

first_hit :
    (d : Deployment) (ids : List ℕ) (rows : List Deployment)
    → filter (λ e. member e.id (d.id ∷ ids)) (d ∷ rows)
      ≡ d ∷ filter (λ e. member e.id (d.id ∷ ids)) rows
unfolding filter member
first_hit d ids rows = ground arith

-- The rows with the ids of the first `n` rows are the first `n` rows.
filter-take :
    (n : ℕ) (rows : List Deployment)
    → Distinct (map (λ d. d.id) rows)
    → filter (λ d. member d.id (map (λ e. e.id) (take n rows))) rows ≡ take n rows
filter-take zero rows h = unfold member in filter-none rows
filter-take (suc n) [] h = unfold filter in refl
filter-take (suc n) (d ∷ rows) h =
    first_hit d (map (λ e. e.id) (take n rows)) rows
    ∙ ap (λ l. d ∷ l)
        (skip_other d.id (map (λ e. e.id) (take n rows)) rows h.0 ∙ filter-take n rows h.1)

history-Distinct :
    (app : ℕ) (rows : List Deployment)
    → Distinct (map (λ d. d.id) rows)
    → Distinct (map (λ d. d.id) (history app rows))
unfolding history
history-Distinct app rows h =
    Distinct-order (λ d. d.id) newer (filter (λ d. d.app_id == app) rows)
      (Distinct-filter (λ d. d.id) (λ d. d.app_id == app) rows h)

-- Where deploy ids are unique: PruneDeployments leaves the app its newest keepDeployments rows, in the order they had, and
-- leaves the history of every other app as it was.
pub prune_deployments-history :
    (app other : ℕ) (db : Db)
    → Distinct (map (λ d. d.id) db.deployments)
    → history other (prune_deployments app db).1.deployments ≡ (
        if other == app
        then take keep_deployments (history other db.deployments)
        else history other db.deployments)
unfolding prune_deployments kept_ids
prune_deployments-history app other db pk =
    let kept = map (λ e. e.id) (take keep_deployments (history app db.deployments)) in
    elim (Bool-cases (other == app)) [
      | inl e ↦
          let same : other ≡ app = (==_iff other app).0 e in
          rw (e, same)
            (history-filter app _ (λ d. member d.id kept) db.deployments (λ d. ground arith)
              ∙ filter-take keep_deployments (history app db.deployments)
                  (history-Distinct app db.deployments pk))
      | inr e ↦ rw e (
          history-filter other _ (λ d. true) db.deployments (λ d. ground arith)
          ∙ filter-all (history other db.deployments))
    ]

-- ClearDeployments leaves the app its running deploys, in the order they had, and leaves the
-- history of every other app as it was.
pub clear_deployments-history :
    (app other : ℕ) (db : Db)
    → history other (clear_deployments app db).1.deployments ≡ (
        if other == app
        then filter is_running (history other db.deployments)
        else history other db.deployments)
unfolding clear_deployments clearable is_running
clear_deployments-history app other db = elim (Bool-cases (other == app)) [
  | inl e ↦ rw e (
      history-filter other _ (λ d. text_eq d.status deploy_running) db.deployments
        (λ d. ground arith))
  | inr e ↦ rw e (
      history-filter other _ (λ d. true) db.deployments (λ d. ground arith)
      ∙ filter-all (history other db.deployments))
]

cleared_count :
    (app : ℕ) (rows : List Deployment)
    → length (filter (clearable app) rows)
        + length (filter (λ d. d.app_id == app) (filter (λ d. not (clearable app d)) rows))
      ≡ length (filter (λ d. d.app_id == app) rows)
unfolding filter clearable
cleared_count app [] = refl
cleared_count app (d ∷ rows) = ground (arith, cleared_count app rows)

-- The number that ClearDeployments returns is how much shorter the app's history got.
pub clear_deployments-count :
    (app : ℕ) (db : Db)
    → (n : ℕ) × ((clear_deployments app db).0 ≡ ok n)
      × (n + length (history app (clear_deployments app db).1.deployments)
          ≡ length (history app db.deployments))
unfolding clear_deployments history
clear_deployments-count app db = (
  length (filter (clearable app) db.deployments),
  refl,
  omega (
    arith,
    cleared_count app db.deployments,
    length-order_by newer (filter (λ d. d.app_id == app) db.deployments),
    length-order_by newer
        (filter (λ d. d.app_id == app) (filter (λ d. not (clearable app d)) db.deployments)),
  ),
)

reaped_running :
    (now : ℕ) (rows : List Deployment)
    → filter is_running (
        update_where is_running
          (λ d. record d { status = deploy_failed; message = interrupted; finished_at = some now })
          rows)
      ≡ []
unfolding filter update_where is_running text_eq
reaped_running now [] = refl
reaped_running now (d ∷ rows) = ground (arith, reaped_running now rows)

-- After ReapRunningDeployments no deploy is running, so that ClearDeployments leaves an app no history.
pub reap_running_deployments-clear :
    (now app : ℕ) (db : Db)
    → (filter is_running (reap_running_deployments now db).1.deployments ≡ [])
      × (history app (clear_deployments app (reap_running_deployments now db).1).1.deployments ≡ [])
unfolding reap_running_deployments
reap_running_deployments-clear now app db =
    let reaped = (reap_running_deployments now db).1 in
    let none_runs : filter is_running reaped.deployments ≡ [] = reaped_running now db.deployments in
    let left : filter is_running (history app reaped.deployments) ≡ history app [] =
      sym (history-filter app is_running is_running reaped.deployments (λ d. ground arith))
      ∙ ap (history app) none_runs in
    let cleared : history app (clear_deployments app reaped).1.deployments
        ≡ filter is_running (history app reaped.deployments) =
      clear_deployments-history app app reaped ∙ rw (==_refl app) refl in
    (none_runs, cleared ∙ left ∙ unfold history in refl)
