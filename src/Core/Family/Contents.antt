-- ===== src/Core/Family/Contents.antt =====
-- What `Add`, `Remove` and `Has` of a family answer, against the table of labels that it stands for.
use prometheus_cpp.Common.{
  ℕ, ◌≡◌, ◌≢◌, ◌⊎◌, inl, inr, refl, sym, ap, ◌∙◌, true, false, ◌||◌, List, [], ◌∷◌, ◌++◌, none,
  some, ◌==◌, any_of, erase_first, ok, err, invalid_argument, All, arith, Bool-cases, Option-cases,
}
use prometheus_cpp.Core.Labels.{Labels, labels_eq, labels_eq_refl, labels_eq_sound}
use prometheus_cpp.Core.MetricType.{MetricType}
use prometheus_cpp.Core.Family.{Entry, Family, labels_rejected, find_labels, add, remove, has}

module _ {T : Type 0} where
  has-append :
      (labels : Labels) (es : List (Entry T)) (n : Entry T)
      → any_of (λ e. labels_eq e.labels labels) (es ++ n ∷ [])
        ≡ (any_of (λ e. labels_eq e.labels labels) es || labels_eq n.labels labels)
  has-append labels [] n = ground arith
  has-append labels (e ∷ es) n = ground (arith, has-append labels es n)

  found-has :
      (labels : Labels) (es : List (Entry T)) (e : Entry T)
      → find_labels labels es ≡ some e
      → (any_of (λ e. labels_eq e.labels labels) es ≡ true) × (labels_eq e.labels labels ≡ true)
  unfolding find_labels
  found-has labels [] e h = ground arith
  found-has labels (x ∷ es) e h = ground (arith, found-has labels es e)

  not_found-has :
      (labels : Labels) (es : List (Entry T))
      → find_labels labels es ≡ none
      → any_of (λ e. labels_eq e.labels labels) es ≡ false
  unfolding find_labels
  not_found-has labels [] h = refl
  not_found-has labels (e ∷ es) h = ground (arith, not_found-has labels es)

  find_labels-append :
      (labels : Labels) (es : List (Entry T)) (n : Entry T)
      → find_labels labels es ≡ none
      → labels_eq n.labels labels ≡ true
      → find_labels labels (es ++ n ∷ []) ≡ some n
  unfolding find_labels
  find_labels-append labels [] n h e = ground arith
  find_labels-append labels (x ∷ es) n h e = ground (arith, find_labels-append labels es n)

  -- The three branches of `add`.
  pub add-found :
      (type : MetricType) (labels : Labels) (address : ℕ) (object : T) (f : Family T) (e : Entry T)
      → find_labels labels f.metrics ≡ some e
      → add type labels address object f ≡ (f, ok e.address)
  unfolding add
  add-found type labels address object f e q = rw (q, add) refl

  pub add-rejected :
      (type : MetricType) (labels : Labels) (address : ℕ) (object : T) (f : Family T)
      → find_labels labels f.metrics ≡ none
      → labels_rejected labels type f.constant_labels ≡ true
      → add type labels address object f ≡ (f, err invalid_argument)
  unfolding add
  add-rejected type labels address object f q r = rw (q, add, r) refl

  abbrev pub stored : Labels → ℕ → T → Family T → Family T
  stored labels address object f = record f {
    metrics = f.metrics ++ record { labels = labels; address = address; object = object } ∷ [];
  }

  pub add-new :
      (type : MetricType) (labels : Labels) (address : ℕ) (object : T) (f : Family T)
      → find_labels labels f.metrics ≡ none
      → labels_rejected labels type f.constant_labels ≡ false
      → add type labels address object f ≡ (stored labels address object f, ok address)
  unfolding add
  add-new type labels address object f q r = rw (q, add, r) refl

  -- `Add` answers with the same address when it is called again with the same labels, whatever object the
  -- second call brings, and the second call changes nothing. The hypothesis: the first call returned.
  add-add :
      (type : MetricType) (labels : Labels) (address again x : ℕ) (object second : T)
      (f g : Family T)
      → add type labels address object f ≡ (g, ok x)
      → add type labels again second g ≡ (g, ok x)
  add-add type labels address again x object second f g h =
      elim (Option-cases (find_labels labels f.metrics)) [
        | inr (e, q) ↦
            let p = sym (add-found type labels address object f e q) ∙ h in
            let found = add-found type labels again second f e q in cc
        | inl q ↦ elim (Bool-cases (labels_rejected labels type f.constant_labels)) [
          | inl r ↦ let p = sym (add-rejected type labels address object f q r) ∙ h in cc
          | inr r ↦
              let p = sym (add-new type labels address object f q r) ∙ h in
              let there = find_labels-append labels f.metrics _ q (labels_eq_refl labels) in
              let found =
                add-found type labels again second (stored labels address object f) _ there in
              cc
        ]
      ]

  -- The three outcomes of `Add`. Where the labels are there, the family is unchanged and the answer is the
  -- address of an entry with these labels; where a label name of a new metric is rejected, the family is
  -- unchanged and the call throws `std::invalid_argument`; else the answer is the new object's address and
  -- the family has the labels it had and the new ones, and no others.
  add_lem :
      (type : MetricType) (labels : Labels) (address : ℕ) (object : T) (f : Family T)
      → ((has labels f ≡ true)
          × (e : Entry T) × (e.labels ≡ labels)
          × (add type labels address object f ≡ (f, ok e.address)))
        ⊎ ((has labels f ≡ false)
            × (labels_rejected labels type f.constant_labels ≡ true)
            × (add type labels address object f ≡ (f, err invalid_argument)))
        ⊎ ((has labels f ≡ false)
            × (labels_rejected labels type f.constant_labels ≡ false)
            × ((add type labels address object f).1 ≡ ok address)
            × ((ks : Labels)
                → has ks (add type labels address object f).0 ≡ (has ks f || labels_eq labels ks)))
  unfolding has
  add_lem type labels address object f = elim (Option-cases (find_labels labels f.metrics)) [
    | inr (e, q) ↦
        let there = found-has labels f.metrics e q in
        inl (
          there.0,
          e,
          labels_eq_sound e.labels labels there.1,
          add-found type labels address object f e q,
        )
    | inl q ↦
        let missing = not_found-has labels f.metrics q in
        elim (Bool-cases (labels_rejected labels type f.constant_labels)) [
          | inl r ↦ inr (inl (missing, r, add-rejected type labels address object f q r))
          | inr r ↦
              let new = add-new type labels address object f q r in
              inr (
                inr (
                  missing,
                  r,
                  ap (λ p. p.1) new,
                  λ ks. ap (λ p. has ks p.0) new ∙ has-append ks f.metrics _,
                ))
        ]
  ]

  erase_first-append :
      (es : List (Entry T)) (n : Entry T)
      → All (λ e. e.address ≢ n.address) es
      → erase_first (λ e. e.address == n.address) (es ++ n ∷ []) ≡ es
  erase_first-append [] n h = ground arith
  erase_first-append (e ∷ es) n h = ground (arith, erase_first-append es n h.1)

  -- `Remove` of an object that `Add` has just put at a fresh address gives back the family there was before.
  -- The hypotheses: the labels were not there, no entry stood at the address, and `Add` returned.
  remove-add :
      (type : MetricType) (labels : Labels) (address x : ℕ) (object : T) (f g : Family T)
      → has labels f ≡ false
      → All (λ e. e.address ≢ address) f.metrics
      → add type labels address object f ≡ (g, ok x)
      → remove x g ≡ f
  unfolding has remove
  remove-add type labels address x object f g missing fresh h =
      elim (Option-cases (find_labels labels f.metrics)) [
        | inr (e, q) ↦ let there = (found-has labels f.metrics e q).0 in ground arith
        | inl q ↦ elim (Bool-cases (labels_rejected labels type f.constant_labels)) [
          | inl r ↦ let p = sym (add-rejected type labels address object f q r) ∙ h in cc
          | inr r ↦
              let p = sym (add-new type labels address object f q r) ∙ h in
              let erased =
                erase_first-append f.metrics
                  (record { labels = labels; address = address; object = object }) fresh in
              let same = ap (λ p. p.0) p in
              let at : address ≡ x = ground arith in rw (sym same, sym at, remove, erased) refl
        ]
      ]
