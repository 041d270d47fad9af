-- ===== src/Core/Family/Ready.antt =====
-- `Collect` of a family returns on a clock that does not go back, and leaves its metrics where they are.
use prometheus_cpp.Common.{
  map, ℕ, ◌≤◌, ◌≡◌, refl, ap, List, [], ◌∷◌, ◌++◌, some, Bool-cases, inl, inr, is_empty, All, arith,
}
use prometheus_cpp.Double.{Double}
use prometheus_cpp.Core.Summary.{Clock}
use prometheus_cpp.Core.Summary.Returns.{IsSteady, IsLater, collect-IsReady}
use prometheus_cpp.Core.TimeWindow.Ready.{IsReady}
use prometheus_cpp.Core.Labels.{Labels}
use prometheus_cpp.Core.ClientMetric.{ClientMetric, MetricFamily}
use prometheus_cpp.Core.Metric.{
  Kind, counters, gauges, histograms, infos, summaries, Object, metric_type,
}
use prometheus_cpp.Core.Metric
use prometheus_cpp.Core.Family.{Entry, Family, label_pair, collect_metric, collect_metrics}
use prometheus_cpp.Core.Family

-- The addresses of the metrics of a family.
abbrev pub addresses : {T : Type 0} → List (Entry T) → List ℕ
addresses es = map (λ e. e.address) es

module _ (D : Type 0) ⦃d : Double D⦄ where
  -- A summary's time window is ready; the other metrics need nothing.
  abbrev pub MetricReady : (k : Kind) → ℕ → Object k D → Type 0
  MetricReady counters now x = Unit
  MetricReady gauges now x = Unit
  MetricReady histograms now x = Unit
  MetricReady infos now x = Unit
  MetricReady summaries now x = IsReady x.quantile_values now

  abbrev pub EntriesReady : (k : Kind) → ℕ → List (Entry (Object k D)) → Type 0
  EntriesReady k now es = All (λ e. MetricReady k now e.object) es

  MetricReady-later :
      (k : Kind) (now now' : ℕ) (x : Object k D)
      → now ≤ now'
      → MetricReady k now x
      → MetricReady k now' x
  MetricReady-later counters now now' x l r = tt
  MetricReady-later gauges now now' x l r = tt
  MetricReady-later histograms now now' x l r = tt
  MetricReady-later infos now now' x l r = tt
  MetricReady-later summaries now now' x l r = record {
    positive = r.positive;
    past = let p = r.past in omega arith;
    in_bounds = r.in_bounds;
  }

  pub EntriesReady-later :
      (k : Kind) (now now' : ℕ) (es : List (Entry (Object k D)))
      → now ≤ now'
      → EntriesReady k now es
      → EntriesReady k now' es
  EntriesReady-later k now now' [] l r = tt
  EntriesReady-later k now now' (e ∷ es) l r =
      (MetricReady-later k now now' e.object l r.0, EntriesReady-later k now now' es l r.1)

module _ {D : Type 0} ⦃d : Double D⦄ where
  Metric_collect-Ready :
      (k : Kind) (x : Object k D) (clock : Clock)
      → IsSteady clock
      → MetricReady D k (clock 0) x
      → (y : ClientMetric D × Object k D × Clock) × (Metric.collect k x clock ≡ some y)
        × MetricReady D k (y.2 0) y.1
        × IsLater clock y.2
  unfolding Metric.collect
  Metric_collect-Ready counters x clock s r = (_, refl, tt, (s, omega arith))
  Metric_collect-Ready gauges x clock s r = (_, refl, tt, (s, omega arith))
  Metric_collect-Ready histograms x clock s r = (_, refl, tt, (s, omega arith))
  Metric_collect-Ready infos x clock s r = (_, refl, tt, (s, omega arith))
  Metric_collect-Ready summaries x clock s r = collect-IsReady x clock s r

  collect_metrics-Ready :
      (k : Kind) (cs : Labels) (es : List (Entry (Object k D))) (clock : Clock)
      → IsSteady clock
      → EntriesReady D k (clock 0) es
      → (y : List (ClientMetric D) × List (Entry (Object k D)) × Clock) × (collect_metrics k cs es
            clock
          ≡ some y)
        × EntriesReady D k (y.2 0) y.1
        × (addresses y.1 ≡ addresses es)
        × IsLater clock y.2
  unfolding collect_metrics collect_metric
  collect_metrics-Ready k cs [] clock s r = (([], [], clock), refl, tt, refl, (s, omega arith))
  collect_metrics-Ready k cs (e ∷ es) clock s r =
      let (x, q, r1, (s1, l1)) = Metric_collect-Ready k e.object clock s r.0 in
      let (y, p, r2, a, (s2, l2)) =
        collect_metrics-Ready k cs es x.2 s1 (EntriesReady-later D k (clock 0) (x.2 0) es l1 r.1) in
      let m : ClientMetric D = record x.0 {
        label = x.0.label ++ (map label_pair cs ++ map label_pair e.labels);
      } in
      (
        (m ∷ y.0, record e { object = x.1 } ∷ y.1, y.2),
        rw (collect_metrics, collect_metric, q, p) refl,
        (MetricReady-later D k (x.2 0) (y.2 0) x.1 l2 r1, r2),
        ap (◌∷◌ e.address) a,
        (s2, omega arith),
      )

  pub Family_collect-Ready :
      (k : Kind) (f : Family (Object k D)) (clock : Clock)
      → IsSteady clock
      → EntriesReady D k (clock 0) f.metrics
      → (y : List (MetricFamily D) × Family (Object k D) × Clock) × (Family.collect k f clock
          ≡ some y)
        × EntriesReady D k (y.2 0) y.1.metrics
        × (addresses y.1.metrics ≡ addresses f.metrics)
        × IsLater clock y.2
  unfolding Family.collect
  Family_collect-Ready k f clock s r = elim (Bool-cases (is_empty f.metrics)) [
    | inl h ↦ (([], f, clock), rw (Family.collect, h) refl, r, refl, (s, omega arith))
    | inr h ↦
        let (y, q, r', a, l) = collect_metrics-Ready k f.constant_labels f.metrics clock s r in
        (
          (
            record { name = f.name; help = f.help; type = metric_type k; metric = y.0 } ∷ [],
            record f { metrics = y.1 },
            y.2,
          ),
          rw (Family.collect, h, q) refl,
          r',
          a,
          l,
        )
  ]
