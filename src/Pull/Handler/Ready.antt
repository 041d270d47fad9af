-- ===== src/Pull/Handler/Ready.antt =====
-- The handler's own summary, through its reference, in a registry that is ready.
use prometheus_cpp.Common.{
  ℕ, ◌≡◌, refl, ap, Bool, true, false, List, [], ◌∷◌, some, ◌>>=?◌, ◌==◌, any_of, if◌then◌else◌,
  arith, Bool-cases, inl, inr,
}
use prometheus_cpp.Double.{Double}
use prometheus_cpp.Core.Metric.{summaries}
use prometheus_cpp.Core.Summary.{Summary}
use prometheus_cpp.Core.TimeWindow.Ready.{IsReady}
use prometheus_cpp.Core.Family.{Entry}
use prometheus_cpp.Core.Registry.{Owned}
use prometheus_cpp.Core.Family.Ready.{EntriesReady, addresses}
use prometheus_cpp.Core.Registry.Ready.{FamiliesReady, shape}
use prometheus_cpp.Pull.Handler.Own.{Reference, at_metric, at_family, family_at, metric_at}

-- Whether a reference leads to a metric, by the addresses alone.
abbrev pub listed : Reference → List (ℕ × List ℕ) → Bool
listed x [] = false
listed x ((family, metrics) ∷ rest) =
    if family == x.family then any_of (λ m. m == x.metric) metrics else listed x rest

module _ {D : Type 0} ⦃d : Double D⦄ where
  metric_at-Ready :
      (address now : ℕ) (es : List (Entry (Summary D)))
      → any_of (λ m. m == address) (addresses es) ≡ true
      → EntriesReady D summaries now es
      → (s : Summary D) × (metric_at address es ≡ some s) × IsReady s.quantile_values now
  unfolding metric_at
  metric_at-Ready address now [] a r = ground arith
  metric_at-Ready address now (e ∷ es) a r = elim (Bool-cases (e.address == address)) [
    | inl q ↦ (e.object, rw (metric_at, q) refl, r.0)
    | inr q ↦
        let (s, f, ready) = metric_at-Ready address now es (ground arith) r.1 in
        (s, rw (metric_at, q) f, ready)
  ]

  pub read-Ready :
      (x : Reference) (now : ℕ) (es : List (Owned (Summary D)))
      → listed x (shape es) ≡ true
      → FamiliesReady D summaries now es
      → (s : Summary D) × ((family_at x.family es >>=? λ fam. metric_at x.metric fam.metrics)
          ≡ some s)
        × IsReady s.quantile_values now
  unfolding family_at
  read-Ready x now [] a r = ground arith
  read-Ready x now (e ∷ es) a r = elim (Bool-cases (e.address == x.family)) [
    | inl q ↦
        let (s, f, ready) = metric_at-Ready x.metric now e.family.metrics (ground arith) r.0 in
        (s, rw (family_at, q) f, ready)
    | inr q ↦
        let (s, f, ready) = read-Ready x now es (ground arith) r.1 in
        (s, rw (family_at, q) f, ready)
  ]

  at_metric-Ready :
      (address now : ℕ) (s : Summary D) (es : List (Entry (Summary D)))
      → IsReady s.quantile_values now
      → EntriesReady D summaries now es
      → EntriesReady D summaries now (at_metric address (λ _. s) es)
        × (addresses (at_metric address (λ _. s) es) ≡ addresses es)
  unfolding at_metric
  at_metric-Ready address now s [] h r = (tt, refl)
  at_metric-Ready address now s (e ∷ es) h r =
      let (ready, same) = at_metric-Ready address now s es h r.1 in
      elim (Bool-cases (e.address == address)) [
        | inl q ↦ rw (at_metric, q) ((h, ready), ap (◌∷◌ e.address) same)
        | inr q ↦ rw (at_metric, q) ((r.0, ready), ap (◌∷◌ e.address) same)
      ]

  pub at_family-Ready :
      (x : Reference) (now : ℕ) (s : Summary D) (es : List (Owned (Summary D)))
      → IsReady s.quantile_values now
      → FamiliesReady D summaries now es
      → let es' =
          at_family x.family
            (λ fam. record fam { metrics = at_metric x.metric (λ _. s) fam.metrics })
            es in
        FamiliesReady D summaries now es' × (shape es' ≡ shape es)
  unfolding at_family
  at_family-Ready x now s [] h r = (tt, refl)
  at_family-Ready x now s (e ∷ es) h r =
      let (ready, same) = at_family-Ready x now s es h r.1 in
      let (first, kept) = at_metric-Ready x.metric now s e.family.metrics h r.0 in
      elim (Bool-cases (e.address == x.family)) [
        | inl q ↦ rw (at_family, q) ((first, ready), λ i. (e.address, kept i) ∷ same i)
        | inr q ↦
            rw (at_family, q) ((r.0, ready), ap (◌∷◌ (e.address, addresses e.family.metrics)) same)
      ]
