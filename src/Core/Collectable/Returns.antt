-- ===== src/Core/Collectable/Returns.antt =====
-- The collections of a program's registries return, and leave what is registered where it is.
use prometheus_cpp.Common.{
  ℕ, ◌≤◌, ◌≡◌, refl, ap, true, List, [], ◌∷◌, Option, none, some, ◌==◌, if◌then◌else◌, All, arith,
  Bool-cases, inl, inr,
}
use prometheus_cpp.Double.{Double}
use prometheus_cpp.Core.ClientMetric.{MetricFamily}
use prometheus_cpp.Core.Metric.{summaries}
use prometheus_cpp.Core.Summary.{Clock}
use prometheus_cpp.Core.Summary.Returns.{IsSteady, IsLater}
use prometheus_cpp.Core.Registry.Ready.{
  IsReadyRegistry, FamiliesReady-later, shape, collect-IsReadyRegistry,
}
use prometheus_cpp.Core.Collectable.Registries.{Shared, lives, collect_at}

module _ {D : Type 0} where
  -- The summaries that a registry holds under a number, by their addresses.
  abbrev pub shape_at : ℕ → List (Shared D) → Option (List (ℕ × List ℕ))
  shape_at number [] = none
  shape_at number (s ∷ shared) =
      if s.number == number
      then some (shape s.registry.summary_families)
      else shape_at number shared

module _ {D : Type 0} ⦃d : Double D⦄ where
  abbrev pub AllReady : List (Shared D) → ℕ → Type 0
  AllReady shared now = All (λ s. IsReadyRegistry s.registry now) shared

  pub AllReady-later :
      (shared : List (Shared D)) (now now' : ℕ)
      → now ≤ now'
      → AllReady shared now
      → AllReady shared now'
  AllReady-later [] now now' l r = tt
  AllReady-later (s ∷ shared) now now' l r = (
    FamiliesReady-later D summaries now now' s.registry.summary_families l r.0,
    AllReady-later shared now now' l r.1,
  )

  -- A collection returns, with every registry ready again and the same summaries in each.
  pub collect_at-AllReady :
      (number : ℕ) (shared : List (Shared D)) (clock : Clock)
      → IsSteady clock
      → AllReady shared (clock 0)
      → lives number shared ≡ true
      → (y : List (MetricFamily D) × List (Shared D) × Clock) × (collect_at number shared clock
          ≡ some y)
        × AllReady y.1 (y.2 0)
        × ((other : ℕ) → shape_at other y.1 ≡ shape_at other shared)
        × IsLater clock y.2
  unfolding collect_at
  collect_at-AllReady number [] clock s r a = ground arith
  collect_at-AllReady number (x ∷ shared) clock s r a = elim (Bool-cases (x.number == number)) [
    | inl q ↦
        let (y, e, ready, same, (s', l)) = collect-IsReadyRegistry x.registry clock s r.0 in
        (
          (y.0, record x { registry = y.1 } ∷ shared, y.2),
          rw (q, collect_at, e) refl,
          (ready, AllReady-later shared (clock 0) (y.2 0) l r.1),
          λ other. ap (λ h. if x.number == other then some h else shape_at other shared) same,
          (s', l),
        )
    | inr q ↦
        let (y, e, ready, same, (s', l)) =
          collect_at-AllReady number shared clock s r.1 (ground arith) in
        (
          (y.0, x ∷ y.1, y.2),
          rw (q, collect_at, e) refl,
          (
            FamiliesReady-later D summaries (clock 0) (y.2 0) x.registry.summary_families l r.0,
            ready,
          ),
          λ other.
              ap (λ h. if x.number == other then some (shape x.registry.summary_families) else h)
                (same other),
          (s', l),
        )
  ]
