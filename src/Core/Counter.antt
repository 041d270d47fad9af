-- ===== src/Core/Counter.antt =====
-- core/src/counter.cc and core/include/prometheus/counter.h.
pub mod Monotone
mod Tests
use prometheus_cpp.Common.{ℕ, Bool, true, false, if◌then◌else◌}
use prometheus_cpp.Double.{Double, zero_value}
use prometheus_cpp.Core.ClientMetric.{ClientMetric, empty_metric}
use prometheus_cpp.Core.Gauge.{Gauge, new_gauge}
use prometheus_cpp.Core.Gauge

pub record Counter (D : Type 0) : Type 0 where
  pub gauge : Gauge D

module _ {D : Type 0} ⦃d : Double D⦄ where
  abbrev pub new_counter : Counter D
  new_counter = record { gauge = new_gauge }

  unfoldable pub increment : Counter D → Counter D
  unfolding Gauge.increment
  increment c = record { gauge = Gauge.increment c.gauge }

  unfoldable pub increment_by : D → Counter D → Counter D
  unfolding Gauge.increment_by
  increment_by val c =
      if d.lt val zero_value then c else record { gauge = Gauge.increment_by val c.gauge }

  abbrev pub value : Counter D → D
  value c = c.gauge.value

  unfoldable pub reset : Counter D → Counter D
  unfolding Gauge.set
  reset c = record { gauge = Gauge.set zero_value c.gauge }

  unfoldable pub collect : Counter D → ClientMetric D
  collect c = record empty_metric { counter = value c }
