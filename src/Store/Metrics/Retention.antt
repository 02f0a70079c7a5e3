-- ===== src/Store/Metrics/Retention.antt =====
-- What pruning keeps.
use xdev.Prelude.{ℕ, ◌/◌, ◌≤◌, ◌≡◌, refl, ap, not, List, [], ◌∷◌, arith, leb, ltb, filter, ◌==◌}
use xdev.Store.Table.{order_by}
use xdev.Store.Metrics.{
  Metric, Samples, ns, earlier, since_sorted, drop_before, recent_metrics, prune_metrics_before,
}

filter-dropped :
    {F : Type 0} (app t since : ℕ) (rows : List (Metric ℕ F))
    → t ≤ since
    → filter
        (λ m. leb since m.ts)
        (filter (λ m. m.about == app) (filter (λ m. not (ltb m.ts t)) rows))
      ≡ filter (λ m. leb since m.ts) (filter (λ m. m.about == app) rows)
unfolding filter
filter-dropped app t since [] h = refl
filter-dropped app t since (m ∷ rows) h = ground (arith, h, filter-dropped app t since rows h)

-- Pruning the samples before a time leaves every series from that time on as it was.
pub prune_metrics_before-recent :
    {F : Type 0} (app t since : ℕ) (s : Samples F)
    → t / ns ≤ since / ns
    → recent_metrics app since (prune_metrics_before t s) ≡ recent_metrics app since s
unfolding recent_metrics prune_metrics_before since_sorted drop_before
prune_metrics_before-recent app t since s h =
    ap (order_by earlier) (filter-dropped app (t / ns) (since / ns) s.of_apps h)
