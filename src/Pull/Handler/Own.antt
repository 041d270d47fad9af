-- ===== src/Pull/Handler/Own.antt =====
-- The handler's own metrics: references to them in a registry, and the calls through these.
use prometheus_cpp.Common.{
  ℕ, List, [], ◌∷◌, Option, none, some, ◌>>=?◌, Bytes, ◌==◌, if◌then◌else◌, Result, ok, err,
  invalid_argument,
}
use prometheus_cpp.Core.Labels.{Labels}
use prometheus_cpp.Core.Metric.{Kind, Object, metric_type}
use prometheus_cpp.Core.Family.{Family, Entry}
use prometheus_cpp.Core.Family
use prometheus_cpp.Core.Registry.{
  Registry, Owned, build, with_name, with_help, register, get_families, set_families,
}

-- The addresses of a metric's family and of the metric.
pub record Reference : Type 0 where
  pub family : ℕ
  pub metric : ℕ

module _ {T : Type 0} where
  -- A change of the objects at an address, of which there is one at most.
  unfoldable pub at_metric : ℕ → (T → T) → List (Entry T) → List (Entry T)
  at_metric address f [] = []
  at_metric address f (e ∷ es) =
      (if e.address == address then record e { object = f e.object } else e)
      ∷ at_metric address f es

  unfoldable pub at_family : ℕ → (Family T → Family T) → List (Owned T) → List (Owned T)
  at_family address f [] = []
  at_family address f (e ∷ es) =
      (if e.address == address then record e { family = f e.family } else e)
      ∷ at_family address f es

  unfoldable pub family_at : ℕ → List (Owned T) → Option (Family T)
  family_at address [] = none
  family_at address (e ∷ es) = if e.address == address then some e.family else family_at address es

  unfoldable pub metric_at : ℕ → List (Entry T) → Option T
  metric_at address [] = none
  metric_at address (e ∷ es) = if e.address == address then some e.object else metric_at address es

module _ {D : Type 0} where
  -- A method of a metric through a reference to it.
  unfoldable pub update_metric :
      (k : Kind) → Reference → (Object k D → Object k D) → Registry D → Registry D
  unfolding at_family at_metric
  update_metric k x f r =
      set_families k
        (at_family x.family (λ fam. record fam { metrics = at_metric x.metric f fam.metrics })
          (get_families k r))
        r

  unfoldable pub read_metric : (k : Kind) → Reference → Registry D → Option (Object k D)
  unfolding family_at metric_at
  read_metric k x r =
      family_at x.family (get_families k r) >>=? λ fam. metric_at x.metric fam.metrics

  -- `Add` on a registered family, through the reference that `Register` returned: the family is changed in its place.
  abbrev pub put_family :
      (k : Kind) → ℕ → Registry D → Family (Object k D) × Result ℕ → Registry D × Result ℕ
  unfolding at_family
  put_family k family r (fam, result) =
      (set_families k (at_family family (λ _. fam) (get_families k r)) r, result)

  unfoldable pub add_metric :
      (k : Kind) → ℕ → Labels → ℕ → Object k D → Registry D → Registry D × Result ℕ
  unfolding family_at at_family Family.add
  add_metric k family labels address object r = elim (family_at family (get_families k r)) [
    | none ↦ (r, err invalid_argument)
    | some fam ↦ put_family k family r (Family.add (metric_type k) labels address object fam)
  ]

  -- A builder's `Register` and the family's `Add({}, …)`; an exception of the one or of the other ends it.
  abbrev pub refer : ℕ → Registry D × Result ℕ → Registry D × Result Reference
  refer family (r, err e) = (r, err e)
  refer family (r, ok metric) = (r, ok (record { family = family; metric = metric }))

  unfoldable pub add_to :
      (k : Kind) → ℕ → Object k D → Registry D × Result ℕ → Registry D × Result Reference
  unfolding add_metric
  add_to k address object (r, err e) = (r, err e)
  add_to k address object (r, ok family) = refer family (add_metric k family [] address object r)

  unfoldable pub register_and_add :
      (k : Kind)
      → Bytes
      → Bytes
      → Reference
      → Object k D
      → Registry D
      → Registry D × Result Reference
  unfolding register add_to
  register_and_add k name help x object r =
      add_to k x.metric object (register k (with_help help (with_name name build)) x.family r)
