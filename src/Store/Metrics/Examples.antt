-- ===== src/Store/Metrics/Examples.antt =====
-- Runs of the metrics of internal/store on the sample database.
use xdev.Prelude.{ℕ, ◌≡◌, refl, List, [], ◌∷◌, codes}
use xdev.Prelude.Result.{err}
use xdev.Store.Schema.{constraint}
use xdev.Store.Metrics.{
  Samples, insert_metric, recent_metrics, prune_metrics_before, app_prefixes, count_tls_domains,
}
use xdev.Store.Sample.{sample}

abbrev none_yet : Samples ℕ
none_yet = record { of_apps = []; of_host = []; of_databases = [] }

abbrev two : Samples ℕ
two =
    (insert_metric 1 5000000000 10 20 sample (insert_metric 1 9000000000 11 21 sample none_yet).1).1

oldest_first :
    recent_metrics 1 1000000000 two
    ≡ record { about = 1; ts = 5; cpu = 10; mem = 20 }
      ∷ record { about = 1; ts = 9; cpu = 11; mem = 21 }
      ∷ []
unfolding recent_metrics insert_metric xdev.Store.Domains.app_exists
oldest_first = refl

pruned :
    recent_metrics 1 1000000000 (prune_metrics_before 6000000000 two)
    ≡ record { about = 1; ts = 9; cpu = 11; mem = 21 } ∷ []
unfolding recent_metrics prune_metrics_before insert_metric xdev.Store.Domains.app_exists
pruned = refl

no_app : (insert_metric 7 5 1 1 sample none_yet).0 ≡ err constraint
unfolding insert_metric xdev.Store.Domains.app_exists
no_app = refl

no_containers : app_prefixes sample ≡ []
unfolding app_prefixes xdev.Prelude.text_eq
no_containers = refl

all_certified : count_tls_domains sample ≡ 2
unfolding count_tls_domains
all_certified = refl
