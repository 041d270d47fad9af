-- ===== src/Pull/MetricsCollector/Returns.antt =====
-- A walk through the handler's weak pointers to registries returns.
use prometheus_cpp.Common.{
  ℕ, ◌≡◌, refl, ◌∙◌, List, [], ◌∷◌, ◌++◌, some, arith, Bool-cases, inl, inr,
}
use prometheus_cpp.Double.{Double}
use prometheus_cpp.Core.ClientMetric.{MetricFamily}
use prometheus_cpp.Core.Summary.Returns.{IsSteady, IsLater}
use prometheus_cpp.Core.Collectable.Registries.{Registries, lives, collect_shared, registries}
use prometheus_cpp.Core.Collectable.Returns.{AllReady, shape_at, collect_at-AllReady}
use prometheus_cpp.Pull.MetricsCollector.{collect_metrics}

module _ {D : Type 0} ⦃d : Double D⦄ where
  -- The same of a walk through a list of weak pointers.
  pub collect_metrics-AllReady :
      (is : List ℕ) (w : Registries D)
      → IsSteady w.clock
      → AllReady w.shared (w.clock 0)
      → (y : List (MetricFamily D) × Registries D) × (collect_metrics registries is w ≡ some y)
        × AllReady y.1.shared (y.1.clock 0)
        × ((other : ℕ) → shape_at other y.1.shared ≡ shape_at other w.shared)
        × IsLater w.clock y.1.clock
  unfolding collect_metrics collect_shared
  collect_metrics-AllReady [] w s r = (([], w), refl, r, λ other. refl, (s, omega arith))
  collect_metrics-AllReady (i ∷ is) w s r = elim (Bool-cases (lives i w.shared)) [
    | inr a ↦
        let (y, e, r', same, l) = collect_metrics-AllReady is w s r in
        (y, rw (a, collect_metrics) e, r', same, l)
    | inl a ↦
        let (x, e, r1, same1, (s1, l1)) = collect_at-AllReady i w.shared w.clock s r a in
        let (y, f, r2, same2, (s2, l2)) =
          collect_metrics-AllReady is (record { shared = x.1; clock = x.2 }) s1 r1 in
        (
          (x.0 ++ y.0, y.1),
          rw (a, collect_metrics, collect_shared, e, f) refl,
          r2,
          λ other. same2 other ∙ same1 other,
          (s2, omega arith),
        )
  ]
