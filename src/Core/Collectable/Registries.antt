-- ===== src/Core/Collectable/Registries.antt =====
-- The collectables that are registries, with the clock that they read.
use prometheus_cpp.Common.{
  ℕ, Bool, true, false, List, [], ◌∷◌, Option, none, some, ◌==◌, ◌>>=?◌, any_of, ◌≡◌, returned,
  arith, Bool-cases, inl, inr,
}
use prometheus_cpp.Double.{Double}
use prometheus_cpp.Core.ClientMetric.{MetricFamily}
use prometheus_cpp.Core.Summary.{Clock}
use prometheus_cpp.Core.Registry.{Registry}
use prometheus_cpp.Core.Registry
use prometheus_cpp.Core.Collectable.{Collectables, IsStable}

-- A live registry under its number.
pub record Shared (D : Type 0) : Type 0 where
  pub number : ℕ
  pub registry : Registry D

pub record Registries (D : Type 0) : Type 0 where
  pub shared : List (Shared D)
  pub clock : Clock

module _ {D : Type 0} ⦃d : Double D⦄ where
  abbrev pub lives : ℕ → List (Shared D) → Bool
  lives number shared = any_of (λ s. s.number == number) shared

  unfoldable pub collect_at :
      ℕ → List (Shared D) → Clock → Option (List (MetricFamily D) × List (Shared D) × Clock)
  unfolding Registry.collect
  collect_at number [] clock = none
  collect_at number (s ∷ shared) clock = elim (s.number == number) [
    | true ↦ Registry.collect s.registry clock >>=? λ (ms, r, clock').
        some (ms, record s { registry = r } ∷ shared, clock')
    | false ↦ collect_at number shared clock >>=? λ (ms, rest, clock'). some (ms, s ∷ rest, clock')
  ]

  unfoldable pub collect_shared : ℕ → Registries D → Option (List (MetricFamily D) × Registries D)
  unfolding collect_at
  collect_shared number w = collect_at number w.shared w.clock >>=? λ (ms, shared, clock).
      some (ms, record { shared = shared; clock = clock })

  abbrev pub registries : Collectables (Registries D) D
  registries = record { alive = λ number w. lives number w.shared; collect = collect_shared }

  collect_at-lives :
      (i j : ℕ) (shared shared' : List (Shared D)) (clock clock' : Clock)
      (ms : List (MetricFamily D))
      → collect_at i shared clock ≡ some (ms, shared', clock')
      → lives j shared' ≡ lives j shared
  unfolding collect_at
  collect_at-lives i j [] shared' clock clock' ms h = ground arith
  collect_at-lives i j (s ∷ shared) shared' clock clock' ms h = elim (Bool-cases (s.number == i)) [
    | inl q ↦
        let (x, one, end) =
          returned (Registry.collect s.registry clock) _ _ (rw (q, collect_at) at h) in
        ground arith
    | inr q ↦
        let (x, one, end) = returned (collect_at i shared clock) _ _ (rw (q, collect_at) at h) in
        let ih = collect_at-lives i j shared x.1 clock x.2 x.0 one in ground arith
  ]

  registries-IsStable : IsStable registries
  unfolding collect_shared
  registries-IsStable = record {
    kept = λ i j w w' ms h.
        let (x, one, end) = returned (collect_at i w.shared w.clock) _ _ h in
        let ih = collect_at-lives i j w.shared x.1 w.clock x.2 x.0 one in ground arith;
  }
