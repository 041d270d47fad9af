-- ===== src/Core/Registry/Returns.antt =====
-- `Collect` of a registry returns where no summary's time window is rotated.
use prometheus_cpp.Common.{
  ◌≡◌, refl, List, [], ◌∷◌, ◌++◌, Option, some, ◌>>=?◌, Bool-cases, inl, inr, is_empty,
}
use prometheus_cpp.Double.{Double}
use prometheus_cpp.Core.Summary.{Clock}
use prometheus_cpp.Core.Labels.{Labels}
use prometheus_cpp.Core.ClientMetric.{MetricFamily}
use prometheus_cpp.Core.Metric.{Kind, counters, gauges, histograms, infos, summaries, Object}
use prometheus_cpp.Core.Metric
use prometheus_cpp.Core.Family.{Entry, Family, collect_metric, collect_metrics}
use prometheus_cpp.Core.Family
use prometheus_cpp.Core.Registry.{
  Owned, Registry, get_families, set_families, collect_all, collect_kind, collect,
}

-- The call returned.
abbrev Returned {ℓ} : {A : Type ℓ} → Option A → Type ℓ
Returned {A = A} o = (a : A) × (o ≡ some a)

-- A chain returns where its steps do.
chain {ℓ κ} :
    {A : Type ℓ} {B : Type κ} (o : Option A) (f : A → Option B)
    → Returned o
    → ((a : A) → Returned (f a))
    → Returned (o >>=? f)
chain o f (a, h) rest = rw (h) (rest a)

-- A metric type whose objects collect without a rotation.
abbrev Steady : Kind → Type 0
Steady counters = Unit
Steady gauges = Unit
Steady histograms = Unit
Steady infos = Unit
Steady summaries = ⊥

module _ {D : Type 0} ⦃d : Double D⦄ where
  Metric_collect-Returned :
      (k : Kind) (x : Object k D) (clock : Clock) → Steady k → Returned (Metric.collect k x clock)
  unfolding Metric.collect
  Metric_collect-Returned counters x clock s = (_, refl)
  Metric_collect-Returned gauges x clock s = (_, refl)
  Metric_collect-Returned histograms x clock s = (_, refl)
  Metric_collect-Returned infos x clock s = (_, refl)
  Metric_collect-Returned summaries x clock s = absurd s

  collect_metrics-Returned :
      (k : Kind) (cs : Labels) (es : List (Entry (Object k D))) (clock : Clock)
      → Steady k
      → Returned (collect_metrics k cs es clock)
  unfolding collect_metrics collect_metric
  collect_metrics-Returned k cs [] clock s = (_, refl)
  collect_metrics-Returned k cs (e ∷ es) clock s =
      chain _ _ (chain _ _ (Metric_collect-Returned k e.object clock s) (λ r. (_, refl)))
        (λ r. chain _ _ (collect_metrics-Returned k cs es r.2 s) (λ q. (_, refl)))

  Family_collect-Returned :
      (k : Kind) (f : Family (Object k D)) (clock : Clock)
      → Steady k
      → Returned (Family.collect k f clock)
  unfolding Family.collect
  Family_collect-Returned k f clock s = elim (Bool-cases (is_empty f.metrics)) [
    | inl h ↦ rw (Family.collect, h) (_, refl)
    | inr h ↦
        rw (Family.collect, h)
          (chain _ _ (collect_metrics-Returned k f.constant_labels f.metrics clock s)
            (λ r. (_, refl)))
  ]

  collect_all-Returned :
      (k : Kind) (es : List (Owned (Object k D))) (clock : Clock)
      → Steady k
      → Returned (collect_all k es clock)
  unfolding collect_all
  collect_all-Returned k [] clock s = (_, refl)
  collect_all-Returned k (e ∷ es) clock s =
      chain _ _ (Family_collect-Returned k e.family clock s)
        (λ r. chain _ _ (collect_all-Returned k es r.2 s) (λ q. (_, refl)))

  -- The lists of the other types are as they were.
  collect_kind-Returned :
      (k : Kind) (r : Registry D) (clock : Clock)
      → Steady k
      → (ms : List (MetricFamily D)) × (es : List (Owned (Object k D))) × (clock' : Clock)
        × (collect_kind k r clock ≡ some (ms, set_families k es r, clock'))
  unfolding collect_kind
  collect_kind-Returned k r clock s =
      let (x, h) = collect_all-Returned k (get_families k r) clock s in (x.0, x.1, x.2, rw (h) refl)

  no_summaries-Returned :
      (r : Registry D) (clock : Clock)
      → r.summary_families ≡ []
      → Returned (collect_kind summaries r clock)
  unfolding collect_kind collect_all
  no_summaries-Returned r clock h = rw (collect_kind, h) (_, refl)

  -- `Collect` of a registry that has no family of summaries returns, whatever the clock reads. (A summary's
  -- collection rotates its time window, which may not end.)
  collect-Returned :
      (r : Registry D) (clock : Clock)
      → r.summary_families ≡ []
      → (result : List (MetricFamily D) × Registry D × Clock) × (collect r clock ≡ some result)
  unfolding collect
  collect-Returned r clock h =
      let (cs, ec, c1, h1) = collect_kind-Returned counters r clock tt in
      let r1 = set_families counters ec r in
      let (gs, eg, c2, h2) = collect_kind-Returned gauges r1 c1 tt in
      let r2 = set_families gauges eg r1 in
      let (hs, eh, c3, h3) = collect_kind-Returned histograms r2 c2 tt in
      let r3 = set_families histograms eh r2 in
      let (is, ei, c4, h4) = collect_kind-Returned infos r3 c3 tt in
      let r4 = set_families infos ei r3 in
      let (x, h5) = no_summaries-Returned r4 c4 h in
      ((cs ++ gs ++ hs ++ is ++ x.0, x.1, x.2), rw (collect, h1, h2, h3, h4, h5) refl)
