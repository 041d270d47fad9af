-- ===== src/Core/Registry/Collected.antt =====
-- What `Collect` of a registry gives: no family name stands in it twice.
use prometheus_cpp.Common.{
  ℕ, suc, ◌+◌, ◌≤◌, ◌≡◌, refl, sym, ap, List, [], ◌∷◌, ◌++◌, Option, some, Bytes, bytes_eq,
  if◌then◌else◌, arith,
}
use prometheus_cpp.Core.Metric.{Kind, counters, gauges, histograms, infos, summaries, Object}
use prometheus_cpp.Core.Family.{Family}
use prometheus_cpp.Core.Family
use prometheus_cpp.Core.Registry.{InsertBehavior, Owned, Registry, make, get_families, set_families}
use prometheus_cpp.Core.Registry.Unique.{count, occurrences}
use prometheus_cpp.Core.Registry.Calls.{Call, run, run-IsUnique}
use prometheus_cpp.Common.{returned}
use prometheus_cpp.Double.{Double}
use prometheus_cpp.Core.Summary.{Clock}
use prometheus_cpp.Core.ClientMetric.{MetricFamily}
use prometheus_cpp.Core.Registry.{collect_all, collect_kind, collect}

module _ {D : Type 0} where
  -- How many of the collected families have the name.
  abbrev pub collected_count : Bytes → List (MetricFamily D) → ℕ
  collected_count name [] = 0
  collected_count name (m ∷ ms) =
      if bytes_eq name m.name then suc (collected_count name ms) else collected_count name ms

  collected_count-append :
      (name : Bytes) (ms ns : List (MetricFamily D))
      → collected_count name (ms ++ ns) ≡ collected_count name ms + collected_count name ns
  collected_count-append name [] ns = omega arith
  collected_count-append name (m ∷ ms) ns = ground (arith, collected_count-append name ms ns)

module _ {D : Type 0} ⦃d : Double D⦄ where
  -- One family gives at most one result, under its name, and keeps the name.
  family_count :
      (k : Kind) (name : Bytes) (f f' : Family (Object k D)) (clock clock' : Clock)
      (ms : List (MetricFamily D))
      → Family.collect k f clock ≡ some (ms, f', clock')
      → (f'.name ≡ f.name) × (collected_count name ms ≤ (if bytes_eq name f.name then 1 else 0))
  unfolding Family.collect
  family_count k name f f' clock clock' ms h = ground arith

  joined_count :
      (k : Kind) (name : Bytes) (e : Owned (Object k D)) (f : Family (Object k D))
      (es es' all : List (Owned (Object k D))) (clock clock' : Clock)
      (ms ns rs : List (MetricFamily D))
      → (f.name ≡ e.family.name)
        × (collected_count name ms ≤ (if bytes_eq name e.family.name then 1 else 0))
      → (collected_count name ns ≤ count name es) × (count name es' ≡ count name es)
      → ◌≡◌ {A = Option (List (MetricFamily D) × List (Owned (Object k D)) × Clock)}
          (some (ms ++ ns, record e { family = f } ∷ es', clock))
          (some (rs, all, clock'))
      → (collected_count name rs ≤ count name (e ∷ es)) × (count name all ≡ count name (e ∷ es))
  joined_count k name e f es es' all clock clock' ms ns rs first others h =
      let both = collected_count-append name ms ns in
      let named = ap (bytes_eq name) first.0 in ground arith

  collect_all-count :
      (k : Kind) (name : Bytes) (es es' : List (Owned (Object k D))) (clock clock' : Clock)
      (ms : List (MetricFamily D))
      → collect_all k es clock ≡ some (ms, es', clock')
      → (collected_count name ms ≤ count name es) × (count name es' ≡ count name es)
  unfolding collect_all
  collect_all-count k name [] es' clock clock' ms h = ground arith
  collect_all-count k name (e ∷ es) es' clock clock' ms h =
      let (x, one, rest) = returned _ _ _ h in
      let (y, all, end) = returned _ _ _ rest in
      let first = family_count k name e.family x.1 clock x.2 x.0 one in
      let others = collect_all-count k name es y.1 x.2 y.2 y.0 all in
      joined_count k name e x.1 es y.1 es' y.2 clock' x.0 y.0 ms first others end

  -- The names of the second registry's lists are those of the first, list by list.
  abbrev SameCounts : Bytes → Registry D → Registry D → Type 0
  SameCounts name r' r =
      (count name r'.counter_families ≡ count name r.counter_families)
      × (count name r'.gauge_families ≡ count name r.gauge_families)
      × (count name r'.histogram_families ≡ count name r.histogram_families)
      × (count name r'.info_families ≡ count name r.info_families)
      × (count name r'.summary_families ≡ count name r.summary_families)

  set_families-SameCounts :
      (k : Kind) (name : Bytes) (es : List (Owned (Object k D))) (r : Registry D)
      → count name es ≡ count name (get_families k r)
      → SameCounts name (set_families k es r) r
  set_families-SameCounts counters name es r h = (h, refl, refl, refl, refl)
  set_families-SameCounts gauges name es r h = (refl, h, refl, refl, refl)
  set_families-SameCounts histograms name es r h = (refl, refl, h, refl, refl)
  set_families-SameCounts infos name es r h = (refl, refl, refl, h, refl)
  set_families-SameCounts summaries name es r h = (refl, refl, refl, refl, h)

  collect_kind-count :
      (k : Kind) (name : Bytes) (r r' : Registry D) (clock clock' : Clock)
      (ms : List (MetricFamily D))
      → collect_kind k r clock ≡ some (ms, r', clock')
      → (collected_count name ms ≤ count name (get_families k r)) × SameCounts name r' r
  unfolding collect_kind
  collect_kind-count k name r r' clock clock' ms h =
      let (x, all, end) = returned _ _ _ h in
      let counts = collect_all-count k name (get_families k r) x.1 clock x.2 x.0 all in
      let same = set_families-SameCounts k name x.1 r counts.1 in
      let (ms_same, r_same) : (x.0 ≡ ms) × (set_families k x.1 r ≡ r') = ground arith in
      (rw (sym ms_same) counts.0, rw (sym r_same) same)

  appended_count :
      (name : Bytes) (a b c e f ms : List (MetricFamily D)) (x r' : Registry D)
      (clock clock' : Clock)
      → ◌≡◌ {A = Option (List (MetricFamily D) × Registry D × Clock)}
          (some (a ++ b ++ c ++ e ++ f, x, clock))
          (some (ms, r', clock'))
      → collected_count name ms
        ≡ collected_count name a
          + collected_count name b
          + collected_count name c
          + collected_count name e
          + collected_count name f
  appended_count name a b c e f ms x r' clock clock' h =
      let same : a ++ b ++ c ++ e ++ f ≡ ms = ground arith in
      rw
        (
          sym same,
          collected_count-append name _ f,
          collected_count-append name _ e,
          collected_count-append name _ c,
          collected_count-append name a b,
        )
        refl

  collect-count :
      (name : Bytes) (r r' : Registry D) (clock clock' : Clock) (ms : List (MetricFamily D))
      → collect r clock ≡ some (ms, r', clock')
      → collected_count name ms ≤ occurrences name r
  unfolding collect
  collect-count name r r' clock clock' ms h =
      let (a, ha, ra) = returned (collect_kind counters r clock) _ _ h in
      let (b, hb, rb) = returned (collect_kind gauges a.1 a.2) _ _ ra in
      let (c, hc, rc) = returned (collect_kind histograms b.1 b.2) _ _ rb in
      let (e, he, re) = returned (collect_kind infos c.1 c.2) _ _ rc in
      let (f, hf, rf) = returned (collect_kind summaries e.1 e.2) _ _ re in
      let a_le = collect_kind-count counters name r a.1 clock a.2 a.0 ha in
      let b_le = collect_kind-count gauges name a.1 b.1 a.2 b.2 b.0 hb in
      let c_le = collect_kind-count histograms name b.1 c.1 b.2 c.2 c.0 hc in
      let e_le = collect_kind-count infos name c.1 e.1 c.2 e.2 e.0 he in
      let f_le = collect_kind-count summaries name e.1 f.1 e.2 f.2 f.0 hf in
      let total = appended_count name a.0 b.0 c.0 e.0 f.0 ms f.1 r' f.2 clock' rf in
      omega (arith, a_le, b_le, c_le, e_le, f_le, total)

  -- The families that `Collect` gives, from a registry that any calls of its builders, of `Remove`, and of its
  -- families' `Add` and `Remove` have left, have different names: no name stands twice, in whichever of the
  -- five lists. The hypotheses: the registry was new, and `Collect` returned.
  pub collect-run :
      (behavior : InsertBehavior) (calls : List (Call D)) (clock clock' : Clock) (r' : Registry D)
      (ms : List (MetricFamily D))
      → collect (run calls (make behavior)) clock ≡ some (ms, r', clock')
      → (name : Bytes) → collected_count name ms ≤ 1
  collect-run behavior calls clock clock' r' ms h name =
      let unique = run-IsUnique calls (make behavior) (λ n. omega arith) name in
      let counts = collect-count name (run calls (make behavior)) r' clock clock' ms h in
      omega (arith, unique, counts)
