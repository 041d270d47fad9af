-- ===== src/Core/Gauge.antt =====
-- core/src/gauge.cc and core/include/prometheus/gauge.h, one call at a time. Concurrent calls are in
-- Gauge/Concurrent.
pub mod Concurrent
mod Tests
use prometheus_cpp.Common.{ℕ, ℤ, negsuc, List}
use prometheus_cpp.Double.{Double, zero_value}
use prometheus_cpp.Core.ClientMetric.{ClientMetric, empty_metric}

pub record Gauge (D : Type 0) : Type 0 where
  pub value : D

module _ {D : Type 0} ⦃d : Double D⦄ where
  -- `Gauge()`, and `Gauge(value)`.
  abbrev pub new_gauge : Gauge D
  new_gauge = record { value = zero_value }

  unfoldable pub set : D → Gauge D → Gauge D
  set value g = record { value = value }

  -- `fetch_add`, or the compare-and-swap loop, as one step.
  unfoldable pub change : D → Gauge D → Gauge D
  change value g = record { value = d.add g.value value }

  unfoldable pub increment_by : D → Gauge D → Gauge D
  unfolding change
  increment_by value g = change value g

  unfoldable pub increment : Gauge D → Gauge D
  unfolding increment_by
  increment g = increment_by (d.of_uint 1) g

  unfoldable pub decrement_by : D → Gauge D → Gauge D
  unfolding change
  decrement_by value g = change (d.mul (d.of_int (negsuc 0)) value) g

  unfoldable pub decrement : Gauge D → Gauge D
  unfolding decrement_by
  decrement g = decrement_by (d.of_uint 1) g

  -- `time` is what `std::time` returns.
  unfoldable pub set_to_current_time : ℤ → Gauge D → Gauge D
  unfolding set
  set_to_current_time time g = set (d.of_int time) g

  unfoldable pub collect : Gauge D → ClientMetric D
  collect g = record empty_metric { gauge = g.value }
