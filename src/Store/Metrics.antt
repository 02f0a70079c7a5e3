-- ===== src/Store/Metrics.antt =====
-- internal/store/metrics.go, host_metrics.go and db_metrics.go: samples over time. A time comes in
-- nanoseconds and is stored in whole seconds (RFC3339); `F` is the type of the REAL columns. The
-- app of a sample is the id of a row of apps, whose deletion is left out here.
pub mod Retention
mod Examples
use xdev.Prelude.{
  ℕ, ◌+◌, ◌/◌, ◌==◌, ◌&&◌, ◌||◌, Bool, true, false, not, List, [], ◌∷◌, ◌++◌, map, Option, none,
  some, if◌then◌else◌, leb, ltb, is_empty, filter, find, any, count, length, Text, codes, text_eq,
  one_of,
}
use xdev.Prelude.Result.{Result, ok, err}
use xdev.Store.Schema.{
  Db, StoreError, constraint, App, ProjectRow, DomainRow, type_static, type_go, type_proxy,
  wp_shared,
}
use xdev.Store.Table.{order_by}
use xdev.Store.Domains.{app_exists}

abbrev pub ns : ℕ
ns = 1000000000

-- A sample of an app, of the host or of a database container: `K` is what it is about.
pub record Metric (K F : Type 0) : Type 0 where
  pub about : K
  pub ts : ℕ
  pub cpu : F
  pub mem : F

-- The order of texts in SQLite, by code points.
unfoldable pub text_le : Text → Text → Bool
text_le [] t = true
text_le (a ∷ s) [] = false
text_le (a ∷ s) (b ∷ t) = let rest = text_le s t in if a == b then rest else leb a b

-- The three tables.
pub record Samples (F : Type 0) : Type 0 where
  pub of_apps : List (Metric ℕ F)
  pub of_host : List (Metric (Unit {0}) F)
  pub of_databases : List (Metric Text F)

module _ {K F : Type 0} where
  unfoldable pub earlier : Metric K F → Metric K F → Bool
  earlier a b = leb a.ts b.ts

  -- WHERE ts >= ? ORDER BY ts
  unfoldable pub since_sorted : ℕ → List (Metric K F) → List (Metric K F)
  unfolding filter order_by earlier
  since_sorted since rows = order_by earlier (filter (λ m. leb since m.ts) rows)

  -- DELETE … WHERE ts < ?
  unfoldable pub drop_before : ℕ → List (Metric K F) → List (Metric K F)
  unfolding filter
  drop_before t rows = filter (λ m. not (ltb m.ts t)) rows

module _ {F : Type 0} where
  -- The foreign key refuses a sample of an app that is not there.
  unfoldable pub insert_metric :
      ℕ → ℕ → F → F → Db → Samples F → Result StoreError (Unit {0}) × Samples F
  insert_metric app ts cpu mem db s = if not (app_exists app db) then (err constraint, s) else (
    ok tt,
    record s {
      of_apps = s.of_apps ++ record { about = app; ts = ts / ns; cpu = cpu; mem = mem } ∷ [];
    },
  )

  unfoldable pub recent_metrics : ℕ → ℕ → Samples F → List (Metric ℕ F)
  unfolding since_sorted filter
  recent_metrics app since s = since_sorted (since / ns) (filter (λ m. m.about == app) s.of_apps)

  unfoldable pub prune_metrics_before : ℕ → Samples F → Samples F
  unfolding drop_before
  prune_metrics_before t s = record s { of_apps = drop_before (t / ns) s.of_apps }

  unfoldable pub insert_host_metric : ℕ → F → F → Samples F → Samples F
  insert_host_metric ts cpu mem s = record s {
    of_host = s.of_host ++ record { about = tt; ts = ts / ns; cpu = cpu; mem = mem } ∷ [];
  }

  unfoldable pub recent_host_metrics : ℕ → Samples F → List (Metric (Unit {0}) F)
  unfolding since_sorted
  recent_host_metrics since s = since_sorted (since / ns) s.of_host

  unfoldable pub prune_host_metrics_before : ℕ → Samples F → Samples F
  unfolding drop_before
  prune_host_metrics_before t s = record s { of_host = drop_before (t / ns) s.of_host }

  unfoldable pub insert_db_metric : Text → ℕ → F → F → Samples F → Samples F
  insert_db_metric container ts cpu mem s = record s {
    of_databases =
        s.of_databases ++ record { about = container; ts = ts / ns; cpu = cpu; mem = mem } ∷ [];
  }

  unfoldable pub recent_db_metrics : Text → ℕ → Samples F → List (Metric Text F)
  unfolding since_sorted filter
  recent_db_metrics container since s =
      since_sorted (since / ns) (filter (λ m. text_eq m.about container) s.of_databases)

  -- ORDER BY container, ts
  unfoldable pub container_before : Metric Text F → Metric Text F → Bool
  container_before a b = if text_eq a.about b.about then leb a.ts b.ts else text_le a.about b.about

  -- The map that the loop builds: the last sample written for a key.
  unfoldable pub last_write : Text → List (Metric Text F) → Option (Metric Text F)
  last_write container [] = none
  last_write container (m ∷ rows) = elim (last_write container rows) [
    | some later ↦ some later
    | none ↦ if text_eq m.about container then some m else none
  ]

  unfoldable pub latest_db_metrics : ℕ → Samples F → Text → Option (Metric Text F)
  unfolding last_write order_by container_before filter
  latest_db_metrics since s container =
      last_write container
        (order_by container_before (filter (λ m. leb (since / ns) m.ts) s.of_databases))

  unfoldable pub prune_db_metrics_before : ℕ → Samples F → Samples F
  unfolding drop_before
  prune_db_metrics_before t s = record s { of_databases = drop_before (t / ns) s.of_databases }

-- The container names of an app's services start with this.
pub record AppPrefix : Type 0 where
  pub id : ℕ
  pub prefix : Text

unfoldable pub has_containers : App → Bool
has_containers a =
    not (text_eq a.type type_static || text_eq a.type type_go || text_eq a.type type_proxy)
    && not (text_eq a.wp_mode wp_shared)

-- The join of an app with its project.
unfoldable pub prefix_of : List ProjectRow → App → List AppPrefix
unfolding find
prefix_of projects a = elim (find (λ p. p.id == a.project_id) projects) [
  | none ↦ []
  | some p ↦ record { id = a.id; prefix = p.slug ++ codes "_" ++ a.slug } ∷ []
]

unfoldable pub prefixes_of : List ProjectRow → List App → List AppPrefix
unfolding prefix_of has_containers
prefixes_of projects [] = []
prefixes_of projects (a ∷ apps) =
    let rest = prefixes_of projects apps in
    if has_containers a then prefix_of projects a ++ rest else rest

unfoldable pub app_prefixes : Db → List AppPrefix
unfolding prefixes_of
app_prefixes db = prefixes_of db.projects db.apps

unfoldable pub count_tls_domains : Db → ℕ
unfolding count
count_tls_domains db = count (λ d. not (is_empty d.ssl_mode)) db.domains
