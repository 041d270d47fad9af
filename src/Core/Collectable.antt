-- ===== src/Core/Collectable.antt =====
-- core/include/prometheus/collectable.h, as its callers know it. A `std::weak_ptr<Collectable>` is the number of its
-- control block, which is never used again; the objects themselves are in a state `W`.
pub mod Registries
pub mod Sample
pub mod Returns
use prometheus_cpp.Common.{ℕ, Bool, List, Option, ◌≡◌, some}
use prometheus_cpp.Core.ClientMetric.{MetricFamily}

pub record Collectables (W D : Type 0) : Type 0 where
  -- Whether `lock()` gives an object.
  pub alive : ℕ → W → Bool
  -- The object's `Collect`; `none` means that it does not return.
  pub collect : ℕ → W → Option (List (MetricFamily D) × W)

-- A collection ends the life of no object.
pub record IsStable {W D : Type 0} (c : Collectables W D) : Type 0 where
  pub kept :
      (i j : ℕ) (w w' : W) (ms : List (MetricFamily D))
      → c.collect i w ≡ some (ms, w')
      → c.alive j w' ≡ c.alive j w
