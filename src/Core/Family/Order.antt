-- ===== src/Core/Family/Order.antt =====
-- Calls of a family whose hash table may put the entries of `metrics_` in any other order at each of them.
use mathlib.Core.List.{Permᴰ}
use mathlib.Core.List.Permᴰ
use prometheus_cpp.Common.{
  ℕ, ◌≡◌, inl, inr, refl, sym, ap, ◌∙◌, Bool, List, ◌∷◌, Bytes, ok, Bool-cases, Option-cases,
}
use prometheus_cpp.Core.Labels.{Labels}
use prometheus_cpp.Core.MetricType.{MetricType}
use prometheus_cpp.Core.Metric.{Kind, Object, metric_type}
use prometheus_cpp.Core.Family.{Family, make, labels_rejected, find_labels, add, remove, has}
use prometheus_cpp.Core.Family.Contents.{add-found, add-rejected, add-new, stored}
use prometheus_cpp.Core.Family.Invariant.{
  Unique, IsWellFormed, Call, adds, removes, asks, perform, run, AllAllocate, perform-IsWellFormed,
  make-IsWellFormed,
}
use prometheus_cpp.Core.Family.Reordered.{
  Answer, added, present, done, call, answer, answers, IsReordered, Shuffled, any_of-Permᴰ,
  find_labels-Permᴰ, erased-Permᴰ,
}

module _ {T : Type 0} where
  stored-IsReordered :
      (labels : Labels) (address : ℕ) (object : T) (f g : Family T)
      → IsReordered f g
      → IsReordered (stored labels address object f) (stored labels address object g)
  stored-IsReordered labels address object f g r = record {
    metrics = Permᴰ.append_right _ r.metrics;
    name = r.name;
    help = r.help;
    constant_labels = r.constant_labels;
  }

  -- `Add` to two families that are the same up to the order of their entries.
  add-IsReordered :
      (type : MetricType) (labels : Labels) (address : ℕ) (object : T) (f g : Family T)
      → Unique f.metrics
      → IsReordered f g
      → ((add type labels address object f).1 ≡ (add type labels address object g).1)
        × IsReordered (add type labels address object f).0 (add type labels address object g).0
  add-IsReordered type labels address object f g u r =
      let same = find_labels-Permᴰ labels r.metrics u in
      elim (Option-cases (find_labels labels f.metrics)) [
        | inr (e, q) ↦
            rw
              (
                add-found type labels address object f e q,
                add-found type labels address object g e (sym same ∙ q),
              )
              (refl, r)
        | inl q ↦ elim (Bool-cases (labels_rejected labels type f.constant_labels)) [
          | inl l ↦
              rw
                (
                  add-rejected type labels address object f q l,
                  add-rejected type labels address object g (sym same ∙ q)
                      (constants r.constant_labels l),
                )
                (refl, r)
          | inr l ↦
              rw
                (
                  add-new type labels address object f q l,
                  add-new type labels address object g (sym same ∙ q)
                      (constants r.constant_labels l),
                )
                (refl, stored-IsReordered labels address object f g r)
        ]
      ]
    where
      constants :
          {b : Bool} {cs ds : Labels}
          → cs ≡ ds
          → labels_rejected labels type cs ≡ b
          → labels_rejected labels type ds ≡ b
      constants e l = ap (labels_rejected labels type) (sym e) ∙ l

  perform-IsReordered :
      (type : MetricType) (c : Call T) (f g : Family T)
      → Unique f.metrics
      → IsReordered f g
      → (answer type c f ≡ answer type c g) × IsReordered (perform type c f) (perform type c g)
  unfolding answer has remove
  perform-IsReordered type (adds labels address object) f g u r =
      let (a, r') = add-IsReordered type labels address object f g u r in (ap added a, r')
  perform-IsReordered type (removes metric) f g u r = (
    refl,
    record {
      metrics = erased-Permᴰ metric r.metrics u;
      name = r.name;
      help = r.help;
      constant_labels = r.constant_labels;
    },
  )
  perform-IsReordered type (asks labels) f g u r = (ap present (any_of-Permᴰ _ r.metrics), r)

  IsReordered-trans : (f g h : Family T) → IsReordered f g → IsReordered g h → IsReordered f h
  IsReordered-trans f g h r s = record {
    metrics = Permᴰ.trans r.metrics s.metrics;
    name = r.name ∙ s.name;
    help = r.help ∙ s.help;
    constant_labels = r.constant_labels ∙ s.constant_labels;
  }

  Shuffled-run :
      (type : MetricType) (f g h : Family T) (calls : List (Call T)) (results : List Answer)
      → IsWellFormed type f
      → AllAllocate type calls f
      → IsReordered f g
      → Shuffled type g calls results h
      → (results ≡ answers type calls f) × IsReordered (run type calls f) h
  unfolding answers run
  Shuffled-run type f g h _ _ w a r (done _ _ s) = (refl, IsReordered-trans f g h r s)
  Shuffled-run type f g h _ _ w a r (call _ m _ c cs results s rest) =
      let (same, next) = perform-IsReordered type c f m w.unique (IsReordered-trans f g m r s) in
      let (tail, end) =
        Shuffled-run type (perform type c f) (perform type c m) h cs results
          (perform-IsWellFormed type c f a.0 w) a.1 next rest in
      (λ i. sym same i ∷ tail i, end)

-- From a family that the constructor made, in whatever order the table stands at each call, the calls of `Add`,
-- `Remove` and `Has` return what they return where the entries stay in the order of insertion, and leave the same entries
-- in some order, with the same name, help and constant labels. The hypotheses: the constructor returned, and each new
-- object stands at an address that no stored object has.
pub Shuffled-make :
    (k : Kind) (D : Type 0) (name help : Bytes) (labels : Labels) (f h : Family (Object k D))
    (calls : List (Call (Object k D))) (results : List Answer)
    → make k D name help labels ≡ ok f
    → AllAllocate (metric_type k) calls f
    → Shuffled (metric_type k) f calls results h
    → (results ≡ answers (metric_type k) calls f) × IsReordered (run (metric_type k) calls f) h
Shuffled-make k D name help labels f h calls results e a s =
    Shuffled-run (metric_type k) f f h calls results (make-IsWellFormed k D name help labels f e) a
      (record { metrics = Permᴰ.refl f.metrics; name = refl; help = refl; constant_labels = refl })
      s
