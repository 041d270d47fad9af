-- ===== src/Core/Registry/Unique.antt =====
-- A family name stands at most once in a registry, over all five lists together.
use prometheus_cpp.Common.{
  ℕ, suc, ◌+◌, ◌≤◌, ◌≡◌, refl, ap, ◌∙◌, inl, inr, Bool, false, List, [], ◌∷◌, ◌++◌, none, Bytes,
  bytes_eq, bytes_eq_sound, ◌==◌, if◌then◌else◌, erase_first, Result, ok, err, Bool-cases,
  Option-cases, arith,
}
use prometheus_cpp.Core.Labels.{Labels}
use prometheus_cpp.Core.Metric.{Kind, counters, gauges, histograms, infos, summaries, Object}
use prometheus_cpp.Core.Family.{Family}
use prometheus_cpp.Core.Family
use prometheus_cpp.Core.Registry.{
  Owned, Registry, family_name_exists, find_family, get_families, set_families,
  name_exists_in_other_type, add, add_made, remove,
}

module _ {T : Type 0} where
  -- How many families have the name.
  abbrev pub count : Bytes → List (Owned T) → ℕ
  count name [] = 0
  count name (e ∷ es) = if bytes_eq name e.family.name then suc (count name es) else count name es

  count-append :
      (name : Bytes) (es : List (Owned T)) (e : Owned T)
      → count name (es ++ e ∷ []) ≡ count name es + count name (e ∷ [])
  count-append name [] e = omega arith
  count-append name (x ∷ es) e = ground (arith, count-append name es e)

  count-absent :
      (name : Bytes) (es : List (Owned T)) → family_name_exists name es ≡ false → count name es ≡ 0
  count-absent name [] h = refl
  count-absent name (e ∷ es) h = ground (arith, count-absent name es)

  count-not_found :
      (name : Bytes) (es : List (Owned T)) → find_family name es ≡ none → count name es ≡ 0
  unfolding find_family
  count-not_found name [] h = refl
  count-not_found name (e ∷ es) h = ground (arith, count-not_found name es)

  count-erase_first :
      (name : Bytes) (p : Owned T → Bool) (es : List (Owned T))
      → count name (erase_first p es) ≤ count name es
  count-erase_first name p [] = omega arith
  count-erase_first name p (e ∷ es) = ground (arith, count-erase_first name p es)

  -- The families with one of them, at the address, replaced by what the function makes of it.
  abbrev pub update_at : ℕ → (Family T → Family T) → List (Owned T) → List (Owned T)
  update_at address f [] = []
  update_at address f (e ∷ es) =
      (if e.address == address then record e { family = f e.family } else e)
      ∷ update_at address f es

  pub count-update_at :
      (name : Bytes) (address : ℕ) (f : Family T → Family T) (es : List (Owned T))
      → ((x : Family T) → (f x).name ≡ x.name)
      → count name (update_at address f es) ≡ count name es
  count-update_at name address f [] h = refl
  count-update_at name address f (e ∷ es) h =
      ground (arith, count-update_at name address f es h, h e.family)

made_name :
    (D : Type 0) (k : Kind) (name help : Bytes) (labels : Labels) (f : Family (Object k D))
    → Family.make k D name help labels ≡ ok f
    → f.name ≡ name
unfolding Family.make
made_name D k name help labels f h = ground arith

module _ {D : Type 0} where
  abbrev pub occurrences : Bytes → Registry D → ℕ
  occurrences name r =
      count name r.counter_families
      + count name r.gauge_families
      + count name r.histogram_families
      + count name r.info_families
      + count name r.summary_families

  abbrev pub IsUnique : Registry D → Type 0
  IsUnique r = (name : Bytes) → occurrences name r ≤ 1

  pub occurrences-set_families :
      (k : Kind) (name : Bytes) (es : List (Owned (Object k D))) (r : Registry D)
      → occurrences name (set_families k es r) + count name (get_families k r)
        ≡ occurrences name r + count name es
  occurrences-set_families counters name es r = omega arith
  occurrences-set_families gauges name es r = omega arith
  occurrences-set_families histograms name es r = omega arith
  occurrences-set_families infos name es r = omega arith
  occurrences-set_families summaries name es r = omega arith

  none_elsewhere :
      (k : Kind) (name : Bytes) (r : Registry D)
      → name_exists_in_other_type k name r ≡ false
      → occurrences name r ≡ count name (get_families k r)
  none_elsewhere counters name r h = ground (
    arith,
    count-absent name r.gauge_families,
    count-absent name r.histogram_families,
    count-absent name r.info_families,
    count-absent name r.summary_families,
  )
  none_elsewhere gauges name r h = ground (
    arith,
    count-absent name r.counter_families,
    count-absent name r.histogram_families,
    count-absent name r.info_families,
    count-absent name r.summary_families,
  )
  none_elsewhere histograms name r h = ground (
    arith,
    count-absent name r.counter_families,
    count-absent name r.gauge_families,
    count-absent name r.info_families,
    count-absent name r.summary_families,
  )
  none_elsewhere infos name r h = ground (
    arith,
    count-absent name r.counter_families,
    count-absent name r.gauge_families,
    count-absent name r.histogram_families,
    count-absent name r.summary_families,
  )
  none_elsewhere summaries name r h = ground (
    arith,
    count-absent name r.counter_families,
    count-absent name r.gauge_families,
    count-absent name r.histogram_families,
    count-absent name r.info_families,
  )

  grown :
      (k : Kind) (name m : Bytes) (e : Owned (Object k D)) (r : Registry D)
      → e.family.name ≡ name
      → name_exists_in_other_type k name r ≡ false
      → count name (get_families k r) ≡ 0
      → occurrences m r ≤ 1
      → occurrences m (set_families k (get_families k r ++ e ∷ []) r) ≤ 1
  grown k name m e r en other zero u =
      let sets = occurrences-set_families k m (get_families k r ++ e ∷ []) r in
      let adds = count-append m (get_families k r) e in
      let all = none_elsewhere k name r other in
      elim (Bool-cases (bytes_eq m e.family.name)) [
        | inl q ↦
            let same = bytes_eq_sound m e.family.name q ∙ en in
            let there = ap (λ x. occurrences x r) same in
            let here = ap (λ x. count x (get_families k r)) same in ground arith
        | inr q ↦ ground arith
      ]

  add_made-IsUnique :
      (k : Kind) (name help : Bytes) (labels : Labels) (address : ℕ) (r : Registry D)
      (m : Result (Family (Object k D)))
      → Family.make k D name help labels ≡ m
      → name_exists_in_other_type k name r ≡ false
      → count name (get_families k r) ≡ 0
      → IsUnique r
      → IsUnique (add_made k address m r).0
  unfolding add_made
  add_made-IsUnique k name help labels address r (err e) h other zero u = u
  add_made-IsUnique k name help labels address r (ok f) h other zero u =
      λ m. grown k name m _ r (made_name D k name help labels f h) other zero (u m)

  pub add-IsUnique :
      (k : Kind) (name help : Bytes) (labels : Labels) (address : ℕ) (r : Registry D)
      → IsUnique r
      → IsUnique (add k name help labels address r).0
  unfolding add
  add-IsUnique k name help labels address r u =
      elim (Bool-cases (name_exists_in_other_type k name r)) [
        | inl h ↦ rw (add, h) u
        | inr h ↦ elim (Option-cases (find_family name (get_families k r))) [
          | inr (e, q) ↦ rw (add, h, q) u
          | inl q ↦
              rw (add, h, q)
                (add_made-IsUnique k name help labels address r _ refl h
                  (count-not_found name (get_families k r) q) u)
        ]
      ]

  pub remove-IsUnique :
      (k : Kind) (address : ℕ) (r : Registry D) → IsUnique r → IsUnique (remove k address r).0
  unfolding remove
  remove-IsUnique k address r u m =
      let sets =
        occurrences-set_families k m (erase_first (λ e. e.address == address) (get_families k r))
          r in
      let less = count-erase_first m (λ e. e.address == address) (get_families k r) in
      let before = u m in ground arith
