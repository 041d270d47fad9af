-- ===== src/Core/Summary.antt =====
-- core/src/summary.cc. `none` means that a call does not return: see TimeWindow. A call that reads the clock
-- takes the readings that are still to come, and gives back those that are left.
pub mod Returns
mod Tests
use prometheus_cpp.Common.{ℕ, suc, ◌+◌, ◌%◌, ◌^◌, List, [], ◌∷◌, Option, some, ◌>>=?◌}
use prometheus_cpp.Double.{Double, zero_value}
use prometheus_cpp.Core.Ckms.{Quantile}
use prometheus_cpp.Core.ClientMetric.{ClientMetric, empty_metric}
use prometheus_cpp.Core.ClientMetric
use prometheus_cpp.Core.TimeWindow.{TimeWindow}
use prometheus_cpp.Core.TimeWindow

-- The readings of the steady clock from now on.
abbrev pub Clock : Type 0
Clock = ℕ → ℕ

abbrev pub later : Clock → Clock
later clock n = clock (suc n)

pub record Summary (D : Type 0) : Type 0 where
  pub quantiles : List (Quantile D)
  pub count : ℕ
  pub sum : D
  pub quantile_values : TimeWindow D

module _ {D : Type 0} ⦃d : Double D⦄ where
  -- Both constructors.
  unfoldable pub make : List (Quantile D) → ℕ → ℕ → Clock → Summary D × Clock
  unfolding TimeWindow.make
  make quantiles max_age age_buckets clock = (
    record {
      quantiles = quantiles;
      count = 0;
      sum = zero_value;
      quantile_values = TimeWindow.make quantiles max_age age_buckets (clock 0);
    },
    later clock,
  )

  unfoldable pub observe : D → Summary D → Clock → Option (Summary D × Clock)
  unfolding TimeWindow.insert
  observe value s clock = TimeWindow.insert value (clock 0) s.quantile_values >>=? λ t. some (
    record s { count = (s.count + 1) % 2 ^ 64; sum = d.add s.sum value; quantile_values = t },
    later clock,
  )

  -- The loop of `Collect`: each quantile reads the clock.
  unfoldable pub collect_quantiles :
      List (Quantile D)
      → TimeWindow D
      → Clock
      → Option (List (ClientMetric.Quantile D) × TimeWindow D × Clock)
  unfolding TimeWindow.get
  collect_quantiles [] t clock = some ([], t, clock)
  collect_quantiles (q ∷ qs) t clock = TimeWindow.get q.quantile (clock 0) t >>=? λ (x, t').
      collect_quantiles qs t' (later clock) >>=? λ (rest, t'', clock').
      some (record { quantile = q.quantile; value = x } ∷ rest, t'', clock')

  unfoldable pub collect : Summary D → Clock → Option (ClientMetric D × Summary D × Clock)
  unfolding collect_quantiles
  collect s clock =
      collect_quantiles s.quantiles s.quantile_values clock >>=? λ (values, t, clock'). some (
        record empty_metric {
          summary = record { sample_count = s.count; sample_sum = s.sum; quantile = values };
        },
        record s { quantile_values = t },
        clock',
      )
