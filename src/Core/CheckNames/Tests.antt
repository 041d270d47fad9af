-- ===== src/Core/CheckNames/Tests.antt =====
-- Runs of the name checks, after core/tests/check_label_name_test.cc, and the theorems at inputs.
use prometheus_cpp.Common.{◌≡◌, refl, ◌↔◌, true, false, codes}
use prometheus_cpp.Core.MetricType.{counter, histogram, summary}
use prometheus_cpp.Core.CheckNames.{check_metric_name, check_label_name}
use prometheus_cpp.Core.CheckNames.Regex.{
  Matches, metric_first, metric_later, label_first, label_later, StartsReserved, AddedLabel,
  check_metric_name_iff, check_label_name_iff,
}

metric_names :
    (check_metric_name (codes "prometheus_notifications_total") ≡ true)
    × (check_metric_name (codes "job:x9") ≡ true)
    × (check_metric_name (codes "") ≡ false)
    × (check_metric_name (codes "9ab") ≡ false)
    × (check_metric_name (codes "a-b") ≡ false)
    × (check_metric_name (codes "__some_reserved_metric") ≡ false)
unfolding check_metric_name
metric_names = (refl, refl, refl, refl, refl, refl)

label_names :
    (check_label_name (codes "type") histogram ≡ true)
    × (check_label_name (codes "le") histogram ≡ false)
    × (check_label_name (codes "le") summary ≡ true)
    × (check_label_name (codes "quantile") summary ≡ false)
    × (check_label_name (codes "a:b") counter ≡ false)
unfolding check_label_name
label_names = (refl, refl, refl, refl, refl)

check_metric_name_iff_example :
    (check_metric_name (codes "a:b") ≡ true)
    ↔ (Matches metric_first metric_later (codes "a:b") × ¬ StartsReserved (codes "a:b"))
check_metric_name_iff_example = check_metric_name_iff (codes "a:b")

check_label_name_iff_example : (check_label_name (codes "le") histogram ≡ true) ↔ (
    Matches label_first label_later (codes "le")
    × (¬ StartsReserved (codes "le"))
    × (¬ AddedLabel histogram (codes "le")))
check_label_name_iff_example = check_label_name_iff (codes "le") histogram
