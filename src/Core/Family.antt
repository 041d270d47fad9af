-- ===== src/Core/Family.antt =====
-- core/src/family.cc and core/include/prometheus/family.h. A call holds the mutex throughout, so calls are
-- whole steps. A metric object is known by its address, which the allocator chooses and `add` takes
-- as an argument. `metrics_` keeps its entries in an order of its own, here that of insertion.
pub mod Invariant
pub mod Contents
pub mod Reordered
pub mod Order
pub mod Ready
mod Tests
use prometheus_cpp.Common.{
  ℕ, Bool, true, false, not, ◌||◌, List, [], ◌∷◌, ◌++◌, map, Option, none, some, Bytes, ◌==◌,
  if◌then◌else◌, find_if, any_of, erase_first, is_empty, Result, ok, err, invalid_argument, ◌>>=?◌,
}
use prometheus_cpp.Double.{Double}
use prometheus_cpp.Core.Labels.{Label, Labels, has_name, labels_eq}
use prometheus_cpp.Core.MetricType.{MetricType}
use prometheus_cpp.Core.CheckNames.{check_metric_name, check_label_name}
use prometheus_cpp.Core.ClientMetric.{ClientMetric, LabelPair, MetricFamily}
use prometheus_cpp.Core.Metric.{Kind, Object, metric_type}
use prometheus_cpp.Core.Metric
use prometheus_cpp.Core.Summary.{Clock}

-- An entry of `metrics_`: the labels, the object's address, and the object.
pub record Entry (T : Type 0) : Type 0 where
  pub labels : Labels
  pub address : ℕ
  pub object : T

pub record Family (T : Type 0) : Type 0 where
  pub metrics : List (Entry T)
  pub name : Bytes
  pub help : Bytes
  pub constant_labels : Labels

-- The loop over the constant labels in the constructor.
unfoldable pub labels_valid : Labels → MetricType → Bool
labels_valid [] type = true
labels_valid ((label_name, _) ∷ labels) type =
    if check_label_name label_name type then labels_valid labels type else false

unfoldable pub make :
    (k : Kind) → (D : Type 0) → Bytes → Bytes → Labels → Result (Family (Object k D))
make k D name help constant_labels =
    if check_metric_name name
    then if labels_valid constant_labels (metric_type k)
      then ok (record { metrics = []; name = name; help = help; constant_labels = constant_labels })
      else err invalid_argument
    else err invalid_argument

-- The loop over the labels of a new metric: whether it throws.
unfoldable pub labels_rejected : Labels → MetricType → Labels → Bool
labels_rejected [] type constant_labels = false
labels_rejected ((label_name, _) ∷ labels) type constant_labels =
    if not (check_label_name label_name type)
    then true
    else if has_name label_name constant_labels
    then true
    else labels_rejected labels type constant_labels

module _ {T : Type 0} where
  unfoldable pub find_labels : Labels → List (Entry T) → Option (Entry T)
  find_labels labels entries = find_if (λ e. labels_eq e.labels labels) entries

  -- `Add`: the address of the stored object, or the exception, with the family afterwards. `emplace` does
  -- nothing where the labels are there; a new entry that is rejected is erased again.
  unfoldable pub add : MetricType → Labels → ℕ → T → Family T → Family T × Result ℕ
  add type labels address object f = elim (find_labels labels f.metrics) [
    | some e ↦ (f, ok e.address)
    | none ↦ if labels_rejected labels type f.constant_labels then (f, err invalid_argument) else (
      record f {
        metrics = f.metrics ++ record { labels = labels; address = address; object = object } ∷ [];
      },
      ok address,
    )
  ]

  unfoldable pub remove : ℕ → Family T → Family T
  remove metric f = record f { metrics = erase_first (λ e. e.address == metric) f.metrics }

  unfoldable pub has : Labels → Family T → Bool
  has labels f = any_of (λ e. labels_eq e.labels labels) f.metrics

pub label_pair : Label → LabelPair
label_pair (name, value) = record { name = name; value = value }

module _ {D : Type 0} ⦃d : Double D⦄ where
  unfoldable pub collect_metric :
      (k : Kind)
      → Labels
      → Entry (Object k D)
      → Clock
      → Option (ClientMetric D × Entry (Object k D) × Clock)
  unfolding Metric.collect label_pair
  collect_metric k constant_labels e clock =
      Metric.collect k e.object clock >>=? λ (collected, object, clock'). some (
        record collected {
          label = collected.label ++ (map label_pair constant_labels ++ map label_pair e.labels);
        },
        record e { object = object },
        clock',
      )

  unfoldable pub collect_metrics :
      (k : Kind)
      → Labels
      → List (Entry (Object k D))
      → Clock
      → Option (List (ClientMetric D) × List (Entry (Object k D)) × Clock)
  unfolding collect_metric
  collect_metrics k constant_labels [] clock = some ([], [], clock)
  collect_metrics k constant_labels (e ∷ es) clock =
      collect_metric k constant_labels e clock >>=? λ (m, e', clock').
      collect_metrics k constant_labels es clock' >>=? λ (ms, es', clock'').
      some (m ∷ ms, e' ∷ es', clock'')

  unfoldable pub collect :
      (k : Kind)
      → Family (Object k D)
      → Clock
      → Option (List (MetricFamily D) × Family (Object k D) × Clock)
  unfolding collect_metrics
  collect k f clock =
      if is_empty f.metrics
      then some ([], f, clock)
      else (collect_metrics k f.constant_labels f.metrics clock >>=? λ (ms, entries, clock'). some (
        record { name = f.name; help = f.help; type = metric_type k; metric = ms } ∷ [],
        record f { metrics = entries },
        clock',
      ))
