-- ===== src/Core/Info.antt =====
-- core/src/info.cc and core/include/prometheus/info.h.
use prometheus_cpp.Double.{Double}
use prometheus_cpp.Core.ClientMetric.{ClientMetric, empty_metric}

pub record Info : Type 0 where

module _ {D : Type 0} ⦃d : Double D⦄ where
  unfoldable pub collect : Info → ClientMetric D
  collect i = record empty_metric { info = d.of_uint 1 }
