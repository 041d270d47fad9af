-- ===== src/Core/Family/Reordered.antt =====
-- Families whose entries stand in another order, as a hash table may keep them, and what does not depend on it.
use mathlib.Core.List.{Permᴰ}
use mathlib.Core.Path.{subst}
use mathlib.Core.Bool.{true≢false}
use mathlib.Core.List.Permᴰ
use prometheus_cpp.Common.{
  ℕ, ◌≡◌, inl, inr, refl, sym, ap, ◌∙◌, Bool, true, List, [], ◌∷◌, ◌==◌, any_of, erase_first,
  Result, All, arith, Bool-cases,
}
use prometheus_cpp.Core.Labels.{Labels, labels_eq, labels_eq_comm, labels_eq_sound, labels_eq_refl}
use prometheus_cpp.Core.MetricType.{MetricType}
use prometheus_cpp.Core.Family.{Entry, Family, find_labels, add, has}
use prometheus_cpp.Core.Family.Invariant.{Differs, Unique, Call, adds, removes, asks, perform}

-- What a call returns.
pub data Answer : Type 0 where
  added : Result ℕ → Answer
  removed : Answer
  present : Bool → Answer

module _ {T : Type 0} where
  unfoldable pub answer : MetricType → Call T → Family T → Answer
  answer type (adds labels address object) f = added (add type labels address object f).1
  answer type (removes metric) f = removed
  answer type (asks labels) f = present (has labels f)

  unfoldable pub answers : MetricType → List (Call T) → Family T → List Answer
  answers type [] f = []
  answers type (call ∷ calls) f = answer type call f ∷ answers type calls (perform type call f)

  -- The same entries in another order, and the same other members.
  pub record IsReordered (f g : Family T) : Type 0 where
    pub metrics : Permᴰ f.metrics g.metrics
    pub name : f.name ≡ g.name
    pub help : f.help ≡ g.help
    pub constant_labels : f.constant_labels ≡ g.constant_labels

  -- Calls of a family whose entries are put in any other order before each of them, with what the calls return.
  pub data Shuffled (type : MetricType)
      : Family T → List (Call T) → List Answer → Family T → Type 0 where
    done : (f g : Family T) → IsReordered f g → Shuffled type f [] [] g
    call :
        (f g h : Family T) (c : Call T) (cs : List (Call T)) (results : List Answer)
        → IsReordered f g
        → Shuffled type (perform type c g) cs results h
        → Shuffled type f (c ∷ cs) (answer type c g ∷ results) h

  Differs-sym : (e x : Entry T) → Differs e x → Differs x e
  Differs-sym e x d = (labels_eq_comm e.labels x.labels ∙ d.0, λ q. d.1 (sym q))

  All-Permᴰ : (P : Entry T → Type 0) {es fs : List (Entry T)} → Permᴰ es fs → All P es → All P fs
  All-Permᴰ P Permᴰ.nil a = a
  All-Permᴰ P (Permᴰ.cons e p) a = (rw (sym e) a.0, All-Permᴰ P p a.1)
  All-Permᴰ P (Permᴰ.swap d e) a = (rw (sym e) a.1.0, (rw (sym d) a.0, a.1.1))
  All-Permᴰ P (Permᴰ.trans p q) a = All-Permᴰ P q (All-Permᴰ P p a)

  pub any_of-Permᴰ :
      (p : Entry T → Bool) {es fs : List (Entry T)} → Permᴰ es fs → any_of p es ≡ any_of p fs
  any_of-Permᴰ p Permᴰ.nil = refl
  any_of-Permᴰ p (Permᴰ.cons e q) = rw (e, any_of-Permᴰ p q) refl
  any_of-Permᴰ p (Permᴰ.swap d e) = rw (d, e) (ground arith)
  any_of-Permᴰ p (Permᴰ.trans q r) = any_of-Permᴰ p q ∙ any_of-Permᴰ p r

  Unique-swap : (a b : Entry T) (l : List (Entry T)) → Unique (a ∷ b ∷ l) → Unique (b ∷ a ∷ l)
  Unique-swap a b l (d, e) = ((Differs-sym a b d.0, e.0), (d.1, e.1))

  Unique-Permᴰ : {es fs : List (Entry T)} → Permᴰ es fs → Unique es → Unique fs
  Unique-Permᴰ Permᴰ.nil u = u
  Unique-Permᴰ (Permᴰ.cons {l₁ = es} e p) (d, u) =
      (All-Permᴰ _ p (subst (λ x. All (Differs x) es) e d), Unique-Permᴰ p u)
  Unique-Permᴰ (Permᴰ.swap {a} {b} {b' = b'} {l = l} d e) u =
      subst (λ x. Unique (x ∷ b' ∷ l)) e (subst (λ x. Unique (b ∷ x ∷ l)) d (Unique-swap a b l u))
  Unique-Permᴰ (Permᴰ.trans p q) u = Unique-Permᴰ q (Unique-Permᴰ p u)

  -- No two entries have the same labels, so the one that is found does not depend on the order.
  find_labels-swap :
      (labels : Labels) (a b : Entry T) (l : List (Entry T))
      → Differs a b
      → find_labels labels (a ∷ b ∷ l) ≡ find_labels labels (b ∷ a ∷ l)
  unfolding find_labels
  find_labels-swap labels a b l d = elim (Bool-cases (labels_eq a.labels labels)) [
    | inr p ↦ rw (p) refl
    | inl p ↦ elim (Bool-cases (labels_eq b.labels labels)) [
      | inr q ↦ rw (p, q) refl
      | inl q ↦
          let same : b.labels ≡ a.labels =
            labels_eq_sound b.labels labels q ∙ sym (labels_eq_sound a.labels labels p) in
          let both : labels_eq b.labels a.labels ≡ true =
            ap (λ ls. labels_eq b.labels ls) (sym same) ∙ labels_eq_refl b.labels in
          absurd (true≢false (sym both ∙ d.0))
    ]
  ]

  pub find_labels-Permᴰ :
      (labels : Labels) {es fs : List (Entry T)}
      → Permᴰ es fs
      → Unique es
      → find_labels labels es ≡ find_labels labels fs
  unfolding find_labels
  find_labels-Permᴰ labels Permᴰ.nil u = refl
  find_labels-Permᴰ labels (Permᴰ.cons {b = b} e p) (d, u) =
      rw (e, find_labels-Permᴰ labels p u) refl
  find_labels-Permᴰ labels (Permᴰ.swap {a} {b} {l = l} d e) u =
      find_labels-swap labels a b l u.0.0 ∙ (λ i. find_labels labels (e i ∷ d i ∷ l))
  find_labels-Permᴰ labels (Permᴰ.trans p q) u =
      find_labels-Permᴰ labels p u ∙ find_labels-Permᴰ labels q (Unique-Permᴰ p u)

  abbrev erased : ℕ → List (Entry T) → List (Entry T)
  erased metric es = erase_first (λ e. e.address == metric) es

  erased-swap :
      (metric : ℕ) (a b : Entry T) (l : List (Entry T))
      → Differs a b
      → Permᴰ (erased metric (a ∷ b ∷ l)) (erased metric (b ∷ a ∷ l))
  erased-swap metric a b l d = elim (Bool-cases (a.address == metric)) [
    | inl p ↦ elim (Bool-cases (b.address == metric)) [
      | inl q ↦ absurd (ground arith)
      | inr q ↦ rw (p, q) (Permᴰ.refl (b ∷ l))
    ]
    | inr p ↦ elim (Bool-cases (b.address == metric)) [
      | inl q ↦ rw (p, q) (Permᴰ.refl (a ∷ l))
      | inr q ↦ rw (p, q) (Permᴰ.swap refl refl)
    ]
  ]

  erased-cons :
      (metric : ℕ) (a : Entry T) {es fs : List (Entry T)}
      → Permᴰ es fs
      → Permᴰ (erased metric es) (erased metric fs)
      → Permᴰ (erased metric (a ∷ es)) (erased metric (a ∷ fs))
  erased-cons metric a p q = elim (Bool-cases (a.address == metric)) [
    | inl e ↦ rw (e) p
    | inr e ↦ rw (e) (Permᴰ.cons refl q)
  ]

  pub erased-Permᴰ :
      (metric : ℕ) {es fs : List (Entry T)}
      → Permᴰ es fs
      → Unique es
      → Permᴰ (erased metric es) (erased metric fs)
  erased-Permᴰ metric Permᴰ.nil u = Permᴰ.nil
  erased-Permᴰ metric (Permᴰ.cons {a} {l₁ = es} {l₂ = fs} e p) (d, u) =
      subst (λ x. Permᴰ (erased metric (a ∷ es)) (erased metric (x ∷ fs))) e
        (erased-cons metric a p (erased-Permᴰ metric p u))
  erased-Permᴰ metric (Permᴰ.swap {a} {b} {l = l} d e) u =
      subst (Permᴰ (erased metric (a ∷ b ∷ l))) (λ i. erased metric (e i ∷ d i ∷ l))
        (erased-swap metric a b l u.0.0)
  erased-Permᴰ metric (Permᴰ.trans p q) u =
      Permᴰ.trans (erased-Permᴰ metric p u) (erased-Permᴰ metric q (Unique-Permᴰ p u))
