-- ===== src/Core/Registry/Calls.antt =====
-- The calls that change a registry or one of its families, and what every sequence of them keeps.
use prometheus_cpp.Common.{
  ℕ, ◌≡◌, refl, inl, inr, List, [], ◌∷◌, Bytes, Bool-cases, Option-cases, arith,
}
use prometheus_cpp.Core.Labels.{Labels}
use prometheus_cpp.Core.Metric.{Kind, Object, metric_type}
use prometheus_cpp.Core.Family.{Family}
use prometheus_cpp.Core.Family
use prometheus_cpp.Core.Registry.{Registry, get_families, set_families, add, remove}
use prometheus_cpp.Core.Registry.Unique.{
  update_at, count-update_at, IsUnique, occurrences-set_families, add-IsUnique, remove-IsUnique,
}

-- The calls on a registry: of a builder, of `Remove`, and of `Add` and `Remove` on one of its families.
pub data Call (D : Type 0) : Type 0 where
  registers : Kind → Bytes → Bytes → Labels → ℕ → Call D
  removes : Kind → ℕ → Call D
  adds_metric : (k : Kind) → ℕ → Labels → ℕ → Object k D → Call D
  removes_metric : Kind → ℕ → ℕ → Call D

add-name :
    {T : Type 0}
    → (k : Kind) (labels : Labels) (address : ℕ) (object : T) (f : Family T)
    → (Family.add (metric_type k) labels address object f).0.name ≡ f.name
unfolding Family.add
add-name k labels address object f = elim (Option-cases (Family.find_labels labels f.metrics)) [
  | inr (e, q) ↦ rw (Family.add, q) refl
  | inl q ↦ elim (Bool-cases (Family.labels_rejected labels (metric_type k) f.constant_labels)) [
    | inl r ↦ rw (Family.add, q, r) refl
    | inr r ↦ rw (Family.add, q, r) refl
  ]
]

module _ {D : Type 0} where
  unfoldable pub perform : Call D → Registry D → Registry D
  unfolding add remove Family.add Family.remove
  perform (registers k name help labels address) r = (add k name help labels address r).0
  perform (removes k address) r = (remove k address r).0
  perform (adds_metric k family labels address object) r =
      set_families k
        (update_at family (λ f. (Family.add (metric_type k) labels address object f).0)
          (get_families k r))
        r
  perform (removes_metric k family metric) r =
      set_families k (update_at family (Family.remove metric) (get_families k r)) r

  abbrev pub run : List (Call D) → Registry D → Registry D
  run [] r = r
  run (call ∷ calls) r = run calls (perform call r)

  update-IsUnique :
      (k : Kind) (address : ℕ) (f : Family (Object k D) → Family (Object k D)) (r : Registry D)
      → ((x : Family (Object k D)) → (f x).name ≡ x.name)
      → IsUnique r
      → IsUnique (set_families k (update_at address f (get_families k r)) r)
  update-IsUnique k address f r h u m =
      let sets = occurrences-set_families k m (update_at address f (get_families k r)) r in
      let same = count-update_at m address f (get_families k r) h in
      let before = u m in ground arith

  perform-IsUnique : (call : Call D) (r : Registry D) → IsUnique r → IsUnique (perform call r)
  unfolding perform Family.remove
  perform-IsUnique (registers k name help labels address) r u =
      add-IsUnique k name help labels address r u
  perform-IsUnique (removes k address) r u = remove-IsUnique k address r u
  perform-IsUnique (adds_metric k family labels address object) r u =
      update-IsUnique k family _ r (add-name k labels address object) u
  perform-IsUnique (removes_metric k family metric) r u =
      update-IsUnique k family (Family.remove metric) r (λ x. refl) u

  pub run-IsUnique : (calls : List (Call D)) (r : Registry D) → IsUnique r → IsUnique (run calls r)
  run-IsUnique [] r u = u
  run-IsUnique (call ∷ calls) r u = run-IsUnique calls (perform call r) (perform-IsUnique call r u)
