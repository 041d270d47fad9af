-- ===== src/Core/Registry/Ready.antt =====
-- `Collect` of a registry returns, scrape after scrape, on a clock that does not go back.
use prometheus_cpp.Common.{
  map, ℕ, zero, suc, ◌≤◌, ◌≡◌, refl, List, [], ◌∷◌, ◌++◌, Option, some, ◌>>=?◌, All, arith,
}
use prometheus_cpp.Double.{Double}
use prometheus_cpp.Core.Summary.{Clock}
use prometheus_cpp.Core.Summary.Returns.{IsSteady, IsLater}
use prometheus_cpp.Core.ClientMetric.{MetricFamily}
use prometheus_cpp.Core.Metric.{Kind, counters, gauges, histograms, infos, summaries, Object}
use prometheus_cpp.Core.Family.{Entry}
use prometheus_cpp.Core.Family.Ready.{
  addresses, MetricReady, EntriesReady, EntriesReady-later, Family_collect-Ready,
}
use prometheus_cpp.Core.Registry.{
  Owned, Registry, get_families, set_families, collect_all, collect_kind, collect,
}

-- The addresses of the families, each with those of its metrics.
abbrev pub shape : {T : Type 0} → List (Owned T) → List (ℕ × List ℕ)
shape es = map (λ e. (e.address, addresses e.family.metrics)) es

module _ (D : Type 0) ⦃d : Double D⦄ where
  abbrev pub FamiliesReady : (k : Kind) → ℕ → List (Owned (Object k D)) → Type 0
  FamiliesReady k now es = All (λ e. EntriesReady D k now e.family.metrics) es

  pub FamiliesReady-later :
      (k : Kind) (now now' : ℕ) (es : List (Owned (Object k D)))
      → now ≤ now'
      → FamiliesReady k now es
      → FamiliesReady k now' es
  FamiliesReady-later k now now' [] l r = tt
  FamiliesReady-later k now now' (e ∷ es) l r = (
    EntriesReady-later D k now now' e.family.metrics l r.0,
    FamiliesReady-later k now now' es l r.1,
  )

  -- Families of a type whose metrics need nothing are ready.
  families_ready :
      (k : Kind) (now : ℕ) (es : List (Owned (Object k D)))
      → ((x : Object k D) → MetricReady D k now x)
      → FamiliesReady k now es
  families_ready k now [] all = tt
  families_ready k now (e ∷ es) all = (entries e.family.metrics, families_ready k now es all)
    where
      entries : (xs : List (Entry (Object k D))) → EntriesReady D k now xs
      entries [] = tt
      entries (x ∷ xs) = (all x.object, entries xs)

module _ {D : Type 0} ⦃d : Double D⦄ where
  collect_all-Ready :
      (k : Kind) (es : List (Owned (Object k D))) (clock : Clock)
      → IsSteady clock
      → FamiliesReady D k (clock 0) es
      → (y : List (MetricFamily D) × List (Owned (Object k D)) × Clock) × (collect_all k es clock
          ≡ some y)
        × FamiliesReady D k (y.2 0) y.1
        × (shape y.1 ≡ shape es)
        × IsLater clock y.2
  unfolding collect_all
  collect_all-Ready k [] clock s r = (([], [], clock), refl, tt, refl, (s, omega arith))
  collect_all-Ready k (e ∷ es) clock s r =
      let (x, q, r1, a1, (s1, l1)) = Family_collect-Ready k e.family clock s r.0 in
      let (y, p, r2, a2, (s2, l2)) =
        collect_all-Ready k es x.2 s1 (FamiliesReady-later D k (clock 0) (x.2 0) es l1 r.1) in
      (
        (x.0 ++ y.0, record e { family = x.1 } ∷ y.1, y.2),
        rw (collect_all, q, p) refl,
        (EntriesReady-later D k (x.2 0) (y.2 0) x.1.metrics l2 r1, r2),
        (λ i. (e.address, a1 i) ∷ a2 i),
        (s2, omega arith),
      )

  collect_kind-Ready :
      (k : Kind) (r : Registry D) (clock : Clock)
      → IsSteady clock
      → FamiliesReady D k (clock 0) (get_families k r)
      → (ms : List (MetricFamily D)) × (es : List (Owned (Object k D))) × (clock' : Clock)
        × (collect_kind k r clock ≡ some (ms, set_families k es r, clock'))
        × FamiliesReady D k (clock' 0) es
        × (shape es ≡ shape (get_families k r))
        × IsLater clock clock'
  unfolding collect_kind
  collect_kind-Ready k r clock s ready =
      let (y, q, r', a, l) = collect_all-Ready k (get_families k r) clock s ready in
      (y.0, y.1, y.2, rw (q) refl, r', a, l)

  -- Every summary of the registry has a window that is ready.
  abbrev pub IsReadyRegistry : Registry D → ℕ → Type 0
  IsReadyRegistry r now = FamiliesReady D summaries now r.summary_families

  pub collect-IsReadyRegistry :
      (r : Registry D) (clock : Clock)
      → IsSteady clock
      → IsReadyRegistry r (clock 0)
      → (y : List (MetricFamily D) × Registry D × Clock) × (collect r clock ≡ some y)
        × IsReadyRegistry y.1 (y.2 0)
        × (shape y.1.summary_families ≡ shape r.summary_families)
        × IsLater clock y.2
  unfolding collect
  collect-IsReadyRegistry r clock s ready =
      let (cs, ec, c1, h1, _, _, (s1, l1)) =
        collect_kind-Ready counters r clock s
          (families_ready D counters (clock 0) (get_families counters r) (λ x. tt)) in
      let r1 = set_families counters ec r in
      let (gs, eg, c2, h2, _, _, (s2, l2)) =
        collect_kind-Ready gauges r1 c1 s1
          (families_ready D gauges (c1 0) (get_families gauges r1) (λ x. tt)) in
      let r2 = set_families gauges eg r1 in
      let (hs, eh, c3, h3, _, _, (s3, l3)) =
        collect_kind-Ready histograms r2 c2 s2
          (families_ready D histograms (c2 0) (get_families histograms r2) (λ x. tt)) in
      let r3 = set_families histograms eh r2 in
      let (is, ei, c4, h4, _, _, (s4, l4)) =
        collect_kind-Ready infos r3 c3 s3
          (families_ready D infos (c3 0) (get_families infos r3) (λ x. tt)) in
      let r4 = set_families infos ei r3 in
      let later =
        FamiliesReady-later D summaries (clock 0) (c4 0) r.summary_families (omega arith) ready in
      let (ss, es, c5, h5, ready', same, (s5, l5)) = collect_kind-Ready summaries r4 c4 s4 later in
      (
        (cs ++ gs ++ hs ++ is ++ ss, set_families summaries es r4, c5),
        rw (collect, h1, h2, h3, h4, h5) refl,
        ready',
        same,
        (s5, omega arith),
      )

  -- A number of collections, one after the other.
  unfoldable pub collect_times : ℕ → Registry D → Clock → Option (Registry D × Clock)
  unfolding collect
  collect_times zero r clock = some (r, clock)
  collect_times (suc n) r clock = collect r clock >>=? λ (ms, r', clock'). collect_times n r' clock'

  -- A registry is collected any number of times, and each `Collect` returns: where the clock does not go back, and the
  -- window of every summary has an interval above zero, a last rotation that is not in the future and a current bucket in
  -- bounds, which is so again after each of them.
  pub collect_times-returns :
      (n : ℕ) (r : Registry D) (clock : Clock)
      → IsSteady clock
      → IsReadyRegistry r (clock 0)
      → (y : Registry D × Clock) × (collect_times n r clock ≡ some y) × IsReadyRegistry y.0 (y.1 0)
  unfolding collect_times
  collect_times-returns zero r clock s ready = ((r, clock), refl, ready)
  collect_times-returns (suc n) r clock s ready =
      let (x, e, ready', _, (s', l)) = collect-IsReadyRegistry r clock s ready in
      let (y, f, ready'') = collect_times-returns n x.1 x.2 s' ready' in
      (y, rw (collect_times, e) f, ready'')
