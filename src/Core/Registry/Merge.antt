-- ===== src/Core/Registry/Merge.antt =====
-- What the two insert behaviours answer where a name is registered again.
use prometheus_cpp.Common.{
  ℕ, ◌≡◌, refl, sym, ap, ◌∙◌, inl, inr, true, false, List, [], ◌∷◌, ◌++◌, none, some, Bytes,
  bytes_eq, Result, ok, err, invalid_argument, Bool-cases, Option-cases, arith,
}
use prometheus_cpp.Core.Labels.{Labels}
use prometheus_cpp.Core.Metric.{Kind, counters, gauges, histograms, infos, summaries, Object}
use prometheus_cpp.Core.Family.{Family}
use prometheus_cpp.Core.Family
use prometheus_cpp.Core.Registry.{
  InsertBehavior, Owned, Registry, find_family, add_existing, get_families, set_families,
  name_exists_in_other_type, add, add_made,
}
use prometheus_cpp.Core.Labels.{labels_eq_refl}
use prometheus_cpp.Common.{bytes_eq_refl}
use prometheus_cpp.Core.Registry.{merge, throw}

module _ {T : Type 0} where
  find_family-append :
      (name : Bytes) (es : List (Owned T)) (e : Owned T)
      → find_family name es ≡ none
      → bytes_eq name e.family.name ≡ true
      → find_family name (es ++ e ∷ []) ≡ some e
  unfolding find_family
  find_family-append name [] e h q = ground arith
  find_family-append name (x ∷ es) e h q = ground (arith, find_family-append name es e)

made_fields :
    (D : Type 0) (k : Kind) (name help : Bytes) (labels : Labels) (f : Family (Object k D))
    → Family.make k D name help labels ≡ ok f
    → (f.name ≡ name) × (f.constant_labels ≡ labels)
unfolding Family.make
made_fields D k name help labels f h = ground arith

-- What registering the name again with the same labels answers.
abbrev pub repeated : InsertBehavior → ℕ → Result ℕ
repeated merge x = ok x
repeated throw x = err invalid_argument

existing-repeated :
    (behavior : InsertBehavior) (labels : Labels) (x : ℕ) (T : Type 0) (e : Owned T)
    → add_existing behavior labels e ≡ ok x
    → add_existing behavior labels e ≡ repeated behavior x
unfolding add_existing
existing-repeated merge labels x T e h = h
existing-repeated throw labels x T e h = ground arith

new-repeated :
    (behavior : InsertBehavior) (labels : Labels) (T : Type 0) (e : Owned T)
    → e.family.constant_labels ≡ labels
    → add_existing behavior labels e ≡ repeated behavior e.address
unfolding add_existing
new-repeated merge labels T e h = rw (h, labels_eq_refl labels) refl
new-repeated throw labels T e h = refl

module _ {D : Type 0} where
  get-set_families :
      (k : Kind) (es : List (Owned (Object k D))) (r : Registry D)
      → get_families k (set_families k es r) ≡ es
  get-set_families counters es r = refl
  get-set_families gauges es r = refl
  get-set_families histograms es r = refl
  get-set_families infos es r = refl
  get-set_families summaries es r = refl

  other-set_families :
      (k : Kind) (name : Bytes) (es : List (Owned (Object k D))) (r : Registry D)
      → name_exists_in_other_type k name (set_families k es r) ≡ name_exists_in_other_type k name r
  other-set_families counters name es r = refl
  other-set_families gauges name es r = refl
  other-set_families histograms name es r = refl
  other-set_families infos name es r = refl
  other-set_families summaries name es r = refl

  behavior-set_families :
      (k : Kind) (es : List (Owned (Object k D))) (r : Registry D)
      → (set_families k es r).insert_behavior ≡ r.insert_behavior
  behavior-set_families counters es r = refl
  behavior-set_families gauges es r = refl
  behavior-set_families histograms es r = refl
  behavior-set_families infos es r = refl
  behavior-set_families summaries es r = refl

  add-other :
      (k : Kind) (name help : Bytes) (labels : Labels) (address : ℕ) (r : Registry D)
      → name_exists_in_other_type k name r ≡ true
      → add k name help labels address r ≡ (r, err invalid_argument)
  unfolding add
  add-other k name help labels address r o = rw (add, o) refl

  add-there :
      (k : Kind) (name help : Bytes) (labels : Labels) (address : ℕ) (r : Registry D)
      (e : Owned (Object k D))
      → name_exists_in_other_type k name r ≡ false
      → find_family name (get_families k r) ≡ some e
      → add k name help labels address r ≡ (r, add_existing r.insert_behavior labels e)
  unfolding add
  add-there k name help labels address r e o q = rw (add, o, q) refl

  add-missing :
      (k : Kind) (name help : Bytes) (labels : Labels) (address : ℕ) (r : Registry D)
      → name_exists_in_other_type k name r ≡ false
      → find_family name (get_families k r) ≡ none
      → add k name help labels address r ≡ add_made k address (Family.make k D name help labels) r
  unfolding add
  add-missing k name help labels address r o q = rw (add, o, q) refl

  made-again :
      (k : Kind) (name help help' : Bytes) (labels : Labels) (address again x : ℕ)
      (r r' : Registry D) (m : Result (Family (Object k D)))
      → Family.make k D name help labels ≡ m
      → name_exists_in_other_type k name r ≡ false
      → find_family name (get_families k r) ≡ none
      → add_made k address m r ≡ (r', ok x)
      → add k name help' labels again r' ≡ (r', repeated r'.insert_behavior x)
  unfolding add_made
  made-again k name help help' labels address again x r r' (err e) m o q h = ground arith
  made-again k name help help' labels address again x r r' (ok f) m o q h =
      let e : Owned (Object k D) = record { address = address; family = f } in
      let (named, constant) = made_fields D k name help labels f m in
      let same : set_families k (get_families k r ++ e ∷ []) r ≡ r' = ap (λ p. p.0) h in
      let there : find_family name (get_families k r') ≡ some e =
        rw (sym same, get-set_families k (get_families k r ++ e ∷ []) r)
          (find_family-append name (get_families k r) e q (rw (named) (bytes_eq_refl name))) in
      let other : name_exists_in_other_type k name r' ≡ false =
        rw (sym same, other-set_families k name (get_families k r ++ e ∷ []) r) o in
      let at : address ≡ x = ground arith in
      rw (sym at) (
        add-there k name help' labels again r' e other there
        ∙ ap (λ a. (r', a)) (new-repeated r'.insert_behavior labels (Object k D) e constant))

  -- Registering a name again with the same labels and any help text, after a call that registered it: the
  -- registry is unchanged, and the answer is the address of the family that the first call gave if the insert
  -- behaviour is `Merge`, and `std::invalid_argument` if it is `Throw`. The hypothesis: the first call returned.
  add-again :
      (k : Kind) (name help help' : Bytes) (labels : Labels) (address again x : ℕ)
      (r r' : Registry D)
      → add k name help labels address r ≡ (r', ok x)
      → add k name help' labels again r' ≡ (r', repeated r'.insert_behavior x)
  add-again k name help help' labels address again x r r' h =
      elim (Bool-cases (name_exists_in_other_type k name r)) [
        | inl o ↦ let p = sym (add-other k name help labels address r o) ∙ h in ground arith
        | inr o ↦ elim (Option-cases (find_family name (get_families k r))) [
          | inl q ↦
              made-again k name help help' labels address again x r r' _ refl o q
                (sym (add-missing k name help labels address r o q) ∙ h)
          | inr (e, q) ↦
              let p = sym (add-there k name help labels address r e o q) ∙ h in
              let same : r ≡ r' = ap (λ p. p.0) p in
              let answer =
                existing-repeated r.insert_behavior labels x (Object k D) e (ap (λ p. p.1) p) in
              rw (sym same) (add-there k name help' labels again r e o q ∙ ap (λ a. (r, a)) answer)
        ]
      ]
