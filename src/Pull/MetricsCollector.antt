-- ===== src/Pull/MetricsCollector.antt =====
-- pull/src/metrics_collector.cc, and the cleanup that the handler makes of the same list.
pub mod Cleanup
pub mod Returns
mod Tests
use prometheus_cpp.Common.{
  ℕ, Bool, true, false, not, List, [], ◌∷◌, ◌++◌, Option, none, some, ◌>>=?◌, remove_if,
  if◌then◌else◌,
}
use prometheus_cpp.Core.ClientMetric.{MetricFamily}
use prometheus_cpp.Core.Collectable.{Collectables}

module _ {W D : Type 0} (c : Collectables W D) where
  unfoldable pub collect_metrics : List ℕ → W → Option (List (MetricFamily D) × W)
  collect_metrics [] w = some ([], w)
  collect_metrics (i ∷ is) w = elim (c.alive i w) [
    | false ↦ collect_metrics is w
    | true ↦ c.collect i w >>=? λ (ms, w').
        collect_metrics is w' >>=? λ (rest, w''). some (ms ++ rest, w'')
  ]

  -- `CleanupStalePointers`.
  abbrev pub cleanup_stale_pointers : List ℕ → W → List ℕ
  cleanup_stale_pointers is w = remove_if (λ i. not (c.alive i w)) is
