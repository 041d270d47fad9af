-- ===== src/Core/Family/Invariant.antt =====
-- What every call on a family keeps: valid names, and no two metrics with the same labels or address.
use prometheus_cpp.Common.{
  ℕ, ◌≡◌, ◌≢◌, inl, inr, sym, ◌∙◌, Bool, true, false, List, [], ◌∷◌, ◌++◌, none, Bytes, erase_first,
  ok, All, All-append, arith, Bool-cases, Option-cases,
}
use prometheus_cpp.Core.Labels.{Label, Labels, has_name, labels_eq, labels_eq_comm}
use prometheus_cpp.Core.MetricType.{MetricType}
use prometheus_cpp.Core.CheckNames.{check_metric_name, check_label_name}
use prometheus_cpp.Core.Metric.{Kind, Object, metric_type}
use prometheus_cpp.Core.Family.{
  Entry, Family, make, labels_valid, labels_rejected, find_labels, add, remove,
}

-- A label name of a metric: valid for the type, and no constant label's.
abbrev pub ValidName : MetricType → Labels → Label → Type 0
ValidName type constant_labels l =
    (check_label_name l.0 type ≡ true) × (has_name l.0 constant_labels ≡ false)

pub accepted :
    (labels : Labels) (type : MetricType) (cs : Labels)
    → labels_rejected labels type cs ≡ false
    → All (ValidName type cs) labels
unfolding labels_rejected
accepted [] type cs h = tt
accepted ((n, v) ∷ labels) type cs h = ground (arith, accepted labels type cs)

module _ {T : Type 0} where
  -- The second entry has neither the labels nor the address of the first.
  abbrev pub Differs : Entry T → Entry T → Type 0
  Differs e x = (labels_eq x.labels e.labels ≡ false) × (x.address ≢ e.address)

  abbrev pub Unique : List (Entry T) → Type 0
  Unique [] = Unit
  Unique (e ∷ es) = All (Differs e) es × Unique es

  pub record IsWellFormed (type : MetricType) (f : Family T) : Type 0 where
    pub name_valid : check_metric_name f.name ≡ true
    pub constants_valid : All (λ l. check_label_name l.0 type ≡ true) f.constant_labels
    pub labels_valid : All (λ e. All (ValidName type f.constant_labels) e.labels) f.metrics
    pub unique : Unique f.metrics

  -- No entry stands at the address, as for one that the allocator has just given out.
  abbrev pub IsFresh : ℕ → Family T → Type 0
  IsFresh address f = All (λ e. e.address ≢ address) f.metrics

  not_found :
      (labels : Labels) (es : List (Entry T))
      → find_labels labels es ≡ none
      → All (λ e. labels_eq e.labels labels ≡ false) es
  unfolding find_labels
  not_found labels [] h = tt
  not_found labels (e ∷ es) h = ground (arith, not_found labels es)

  Unique-append :
      (es : List (Entry T)) (n : Entry T)
      → Unique es
      → All (λ e. labels_eq e.labels n.labels ≡ false) es
      → All (λ e. e.address ≢ n.address) es
      → Unique (es ++ n ∷ [])
  Unique-append [] n u l a = (tt, tt)
  Unique-append (e ∷ es) n u l a = (
    All-append (Differs e) es (n ∷ []) u.0
        ((labels_eq_comm n.labels e.labels ∙ l.0, λ q. a.0 (sym q)), tt),
    Unique-append es n u.1 l.1 a.1,
  )

  All-erase_first :
      (P : Entry T → Type 0) (p : Entry T → Bool) (es : List (Entry T))
      → All P es
      → All P (erase_first p es)
  All-erase_first P p [] h = tt
  All-erase_first P p (e ∷ es) h = ground (arith, All-erase_first P p es h.1)

  Unique-erase_first :
      (p : Entry T → Bool) (es : List (Entry T)) → Unique es → Unique (erase_first p es)
  Unique-erase_first p [] u = tt
  Unique-erase_first p (e ∷ es) u =
      ground (arith, All-erase_first (Differs e) p es u.0, Unique-erase_first p es u.1)

  -- `Add` of an object at a fresh address, also where it throws or finds the labels there, and `Remove` keep
  -- the family well-formed.
  add-IsWellFormed :
      (type : MetricType) (labels : Labels) (address : ℕ) (object : T) (f : Family T)
      → IsFresh address f
      → IsWellFormed type f
      → IsWellFormed type (add type labels address object f).0
  unfolding add
  add-IsWellFormed type labels address object f fresh w =
      elim (Option-cases (find_labels labels f.metrics)) [
        | inr (e, q) ↦ rw (q, add) w
        | inl q ↦ elim (Bool-cases (labels_rejected labels type f.constant_labels)) [
          | inl r ↦ rw (q, add, r) w
          | inr r ↦
              rw (q, add, r)
                (record {
                  name_valid = w.name_valid;
                  constants_valid = w.constants_valid;
                  labels_valid =
                      All-append _ f.metrics _ w.labels_valid
                        (accepted labels type f.constant_labels r, tt);
                  unique = Unique-append f.metrics _ w.unique (not_found labels f.metrics q) fresh;
                })
        ]
      ]

  remove-IsWellFormed :
      (type : MetricType) (metric : ℕ) (f : Family T)
      → IsWellFormed type f
      → IsWellFormed type (remove metric f)
  unfolding remove
  remove-IsWellFormed type metric f w = record {
    name_valid = w.name_valid;
    constants_valid = w.constants_valid;
    labels_valid = All-erase_first _ _ f.metrics w.labels_valid;
    unique = Unique-erase_first _ f.metrics w.unique;
  }

-- The calls of a family: `Add`, `Remove` and `Has`.
pub data Call (T : Type 0) : Type 0 where
  adds : Labels → ℕ → T → Call T
  removes : ℕ → Call T
  asks : Labels → Call T

module _ {T : Type 0} where
  abbrev pub perform : MetricType → Call T → Family T → Family T
  perform type (adds labels address object) f = (add type labels address object f).0
  perform type (removes metric) f = remove metric f
  perform type (asks labels) f = f

  unfoldable pub run : MetricType → List (Call T) → Family T → Family T
  run type [] f = f
  run type (call ∷ calls) f = run type calls (perform type call f)

  -- Each new object stands at an address that no stored object has.
  abbrev pub Allocates : Call T → Family T → Type 0
  Allocates (adds labels address object) f = IsFresh address f
  Allocates (removes metric) f = Unit
  Allocates (asks labels) f = Unit

  abbrev pub AllAllocate : MetricType → List (Call T) → Family T → Type 0
  AllAllocate type [] f = Unit
  AllAllocate type (call ∷ calls) f =
      Allocates call f × AllAllocate type calls (perform type call f)

  pub perform-IsWellFormed :
      (type : MetricType) (call : Call T) (f : Family T)
      → Allocates call f
      → IsWellFormed type f
      → IsWellFormed type (perform type call f)
  perform-IsWellFormed type (adds labels address object) f a w =
      add-IsWellFormed type labels address object f a w
  perform-IsWellFormed type (removes metric) f a w = remove-IsWellFormed type metric f w
  perform-IsWellFormed type (asks labels) f a w = w

  run-IsWellFormed :
      (type : MetricType) (calls : List (Call T)) (f : Family T)
      → AllAllocate type calls f
      → IsWellFormed type f
      → IsWellFormed type (run type calls f)
  unfolding run
  run-IsWellFormed type [] f a w = w
  run-IsWellFormed type (call ∷ calls) f a w =
      run-IsWellFormed type calls (perform type call f) a.1 (perform-IsWellFormed type call f a.0 w)

constants_accepted :
    (labels : Labels) (type : MetricType)
    → labels_valid labels type ≡ true
    → All (λ l. check_label_name l.0 type ≡ true) labels
unfolding labels_valid
constants_accepted [] type h = tt
constants_accepted ((n, v) ∷ labels) type h = ground (arith, constants_accepted labels type)

made :
    (k : Kind) (D : Type 0) (name help : Bytes) (labels : Labels) (f : Family (Object k D))
    → make k D name help labels ≡ ok f
    → (check_metric_name name ≡ true)
      × (labels_valid labels (metric_type k) ≡ true)
      × (record { metrics = []; name = name; help = help; constant_labels = labels } ≡ f)
unfolding make
made k D name help labels f e = ground arith

pub make-IsWellFormed :
    (k : Kind) (D : Type 0) (name help : Bytes) (labels : Labels) (f : Family (Object k D))
    → make k D name help labels ≡ ok f
    → IsWellFormed (metric_type k) f
make-IsWellFormed k D name help labels f e =
    let m = made k D name help labels f e in
    rw (sym m.2) (record {
      name_valid = m.0;
      constants_valid = constants_accepted labels (metric_type k) m.1;
      labels_valid = tt;
      unique = tt;
    })

-- A family that the constructor made, with metric objects added and removed by any calls since, has a valid
-- name and valid constant labels; each metric's label names are valid and none is a constant label's; and no
-- two metrics have the same labels or the same address. The hypotheses: the constructor returned, and each
-- new object stands at an address that no stored object has.
pub run-make-IsWellFormed :
    (k : Kind) (D : Type 0) (name help : Bytes) (labels : Labels) (f : Family (Object k D))
    → make k D name help labels ≡ ok f
    → (calls : List (Call (Object k D))) → AllAllocate (metric_type k) calls f
    → IsWellFormed (metric_type k) (run (metric_type k) calls f)
run-make-IsWellFormed k D name help labels f e calls a =
    run-IsWellFormed (metric_type k) calls f a (make-IsWellFormed k D name help labels f e)
