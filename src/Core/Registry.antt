-- ===== src/Core/Registry.antt =====
-- core/src/registry.cc, core/include/prometheus/registry.h and the builders of core/src/detail/builder.cc. A
-- call holds the mutex throughout, so calls are whole steps. A family is known by its address, which the
-- allocator chooses and `add` takes as an argument. The exceptions that differ only in their text are one.
pub mod Unique
pub mod Calls
pub mod Collected
mod Returns
pub mod Ready
pub mod Merge
mod Tests
use prometheus_cpp.Common.{
  ℕ, Bool, true, false, ◌||◌, List, [], ◌∷◌, ◌++◌, Option, none, some, Bytes, bytes_eq, ◌==◌,
  if◌then◌else◌, find_if, any_of, erase_first, Result, ok, err, invalid_argument, ◌>>=?◌,
}
use prometheus_cpp.Double.{Double}
use prometheus_cpp.Core.Labels.{Labels, labels_eq}
use prometheus_cpp.Core.ClientMetric.{MetricFamily}
use prometheus_cpp.Core.Metric.{Kind, counters, gauges, histograms, infos, summaries, Object}
use prometheus_cpp.Core.Counter.{Counter}
use prometheus_cpp.Core.Gauge.{Gauge}
use prometheus_cpp.Core.Histogram.{Histogram}
use prometheus_cpp.Core.Info.{Info}
use prometheus_cpp.Core.Summary.{Summary, Clock}
use prometheus_cpp.Core.Family.{Family}
use prometheus_cpp.Core.Family

pub data InsertBehavior : Type 0 where
  merge throw : InsertBehavior

-- What a `std::unique_ptr<Family<T>>` points to, with its address.
pub record Owned (T : Type 0) : Type 0 where
  pub address : ℕ
  pub family : Family T

pub record Registry (D : Type 0) : Type 0 where
  pub insert_behavior : InsertBehavior
  pub counter_families : List (Owned (Counter D))
  pub gauge_families : List (Owned (Gauge D))
  pub histogram_families : List (Owned (Histogram D))
  pub info_families : List (Owned Info)
  pub summary_families : List (Owned (Summary D))

pub record Builder : Type 0 where
  pub labels : Labels
  pub name : Bytes
  pub help : Bytes

module _ {T : Type 0} where
  -- One family list of `FamilyNameExists`.
  abbrev pub family_name_exists : Bytes → List (Owned T) → Bool
  family_name_exists name families = any_of (λ e. bytes_eq name e.family.name) families

  unfoldable pub find_family : Bytes → List (Owned T) → Option (Owned T)
  find_family name families = find_if (λ e. bytes_eq name e.family.name) families

  -- `Add` where a family of this name and type is there.
  unfoldable pub add_existing : InsertBehavior → Labels → Owned T → Result ℕ
  add_existing merge labels e =
      if labels_eq e.family.constant_labels labels then ok e.address else err invalid_argument
  add_existing throw labels e = err invalid_argument

module _ {D : Type 0} where
  abbrev pub make : InsertBehavior → Registry D
  make behavior = record {
    insert_behavior = behavior;
    counter_families = [];
    gauge_families = [];
    histogram_families = [];
    info_families = [];
    summary_families = [];
  }

  abbrev pub get_families : (k : Kind) → Registry D → List (Owned (Object k D))
  get_families counters r = r.counter_families
  get_families gauges r = r.gauge_families
  get_families histograms r = r.histogram_families
  get_families infos r = r.info_families
  get_families summaries r = r.summary_families

  -- A write through the reference that `GetFamilies` returns.
  abbrev pub set_families : (k : Kind) → List (Owned (Object k D)) → Registry D → Registry D
  set_families counters families r = record r { counter_families = families }
  set_families gauges families r = record r { gauge_families = families }
  set_families histograms families r = record r { histogram_families = families }
  set_families infos families r = record r { info_families = families }
  set_families summaries families r = record r { summary_families = families }

  abbrev pub name_exists_in_other_type : Kind → Bytes → Registry D → Bool
  name_exists_in_other_type counters name r =
      family_name_exists name r.gauge_families
      || family_name_exists name r.histogram_families
      || family_name_exists name r.info_families
      || family_name_exists name r.summary_families
  name_exists_in_other_type gauges name r =
      family_name_exists name r.counter_families
      || family_name_exists name r.histogram_families
      || family_name_exists name r.info_families
      || family_name_exists name r.summary_families
  name_exists_in_other_type histograms name r =
      family_name_exists name r.counter_families
      || family_name_exists name r.gauge_families
      || family_name_exists name r.info_families
      || family_name_exists name r.summary_families
  name_exists_in_other_type infos name r =
      family_name_exists name r.counter_families
      || family_name_exists name r.gauge_families
      || family_name_exists name r.histogram_families
      || family_name_exists name r.summary_families
  name_exists_in_other_type summaries name r =
      family_name_exists name r.counter_families
      || family_name_exists name r.gauge_families
      || family_name_exists name r.histogram_families
      || family_name_exists name r.info_families

  -- `Add` where there is none: the constructor may throw.
  unfoldable pub add_made :
      (k : Kind) → ℕ → Result (Family (Object k D)) → Registry D → Registry D × Result ℕ
  add_made k address (err e) r = (r, err e)
  add_made k address (ok family) r = (
    set_families k (get_families k r ++ record { address = address; family = family } ∷ []) r,
    ok address,
  )

  unfoldable pub add : (k : Kind) → Bytes → Bytes → Labels → ℕ → Registry D → Registry D × Result ℕ
  unfolding add_existing add_made
  add k name help labels address r =
      if name_exists_in_other_type k name r
      then (r, err invalid_argument)
      else elim (find_family name (get_families k r)) [
        | some e ↦ (r, add_existing r.insert_behavior labels e)
        | none ↦ add_made k address (Family.make k D name help labels) r
      ]

  unfoldable pub remove : (k : Kind) → ℕ → Registry D → Registry D × Bool
  remove k family r =
      if any_of (λ e. e.address == family) (get_families k r)
      then (set_families k (erase_first (λ e. e.address == family) (get_families k r)) r, true)
      else (r, false)

  -- The builder's `Register`.
  unfoldable pub register : (k : Kind) → Builder → ℕ → Registry D → Registry D × Result ℕ
  unfolding add
  register k b address r = add k b.name b.help b.labels address r

abbrev pub build : Builder
build = record { labels = []; name = []; help = [] }

abbrev pub with_labels : Labels → Builder → Builder
with_labels labels b = record b { labels = labels }

abbrev pub with_name : Bytes → Builder → Builder
with_name name b = record b { name = name }

abbrev pub with_help : Bytes → Builder → Builder
with_help help b = record b { help = help }

module _ {D : Type 0} ⦃d : Double D⦄ where
  unfoldable pub collect_all :
      (k : Kind)
      → List (Owned (Object k D))
      → Clock
      → Option (List (MetricFamily D) × List (Owned (Object k D)) × Clock)
  unfolding Family.collect
  collect_all k [] clock = some ([], [], clock)
  collect_all k (e ∷ es) clock = Family.collect k e.family clock >>=? λ (metrics, family, clock').
      collect_all k es clock' >>=? λ (results, es', clock'').
      some (metrics ++ results, record e { family = family } ∷ es', clock'')

  -- `CollectAll` on one of the registry's lists, with the families as they are afterwards.
  unfoldable pub collect_kind :
      (k : Kind) → Registry D → Clock → Option (List (MetricFamily D) × Registry D × Clock)
  unfolding collect_all
  collect_kind k r clock =
      collect_all k (get_families k r) clock >>=? λ (results, families, clock').
      some (results, set_families k families r, clock')

  unfoldable pub collect : Registry D → Clock → Option (List (MetricFamily D) × Registry D × Clock)
  unfolding collect_kind
  collect r clock = collect_kind counters r clock >>=? λ (cs, r1, c1).
      collect_kind gauges r1 c1 >>=? λ (gs, r2, c2).
      collect_kind histograms r2 c2 >>=? λ (hs, r3, c3).
      collect_kind infos r3 c3 >>=? λ (is, r4, c4).
      collect_kind summaries r4 c4 >>=? λ (ss, r5, c5). some (cs ++ gs ++ hs ++ is ++ ss, r5, c5)
