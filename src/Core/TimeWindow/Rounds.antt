-- ===== src/Core/TimeWindow/Rounds.antt =====
-- The rounds of the loop in `rotate`.
use native.Mathlib.Nat.{add-zero, mod-eq_of_lt, mod-add-mod, mod_self}
use mathlib.Core.Option
use prometheus_cpp.Common.{
  ℕ, zero, suc, ◌+◌, ◌-◌, ◌*◌, ◌%◌, ◌≤◌, ◌<◌, ◌≡◌, ◌≢◌, ◌⊎◌, inl, inr, refl, sym, ap, ◌∙◌, List, [],
  ◌∷◌, some, length, get_elem?, leb, ltb, if◌then◌else◌, arith, Bool-cases,
}
use prometheus_cpp.Double.{Double}
use prometheus_cpp.Core.Ckms.{Ckms}
use prometheus_cpp.Core.Ckms
use prometheus_cpp.Core.TimeWindow.{TimeWindow, update, rotate_once, rotate_loop}

module _ {ℓ} {A : Type ℓ} where
  pub length-update : (f : A → A) (i : ℕ) (xs : List A) → length (update f i xs) ≡ length xs
  unfolding update
  length-update f i [] = refl
  length-update f zero (x ∷ xs) = refl
  length-update f (suc i) (x ∷ xs) = ap suc (length-update f i xs)

  pub get-update_self :
      (f : A → A) (i : ℕ) (xs : List A)
      → get_elem? (update f i xs) i ≡ Option.map f (get_elem? xs i)
  unfolding update
  get-update_self f i [] = refl
  get-update_self f zero (x ∷ xs) = refl
  get-update_self f (suc i) (x ∷ xs) = get-update_self f i xs

  pub get-update_ne :
      (f : A → A) (i j : ℕ) (xs : List A) → i ≢ j → get_elem? (update f i xs) j ≡ get_elem? xs j
  unfolding update
  get-update_ne f i j [] h = refl
  get-update_ne f zero zero (x ∷ xs) h = absurd (h refl)
  get-update_ne f zero (suc j) (x ∷ xs) h = refl
  get-update_ne f (suc i) zero (x ∷ xs) h = refl
  get-update_ne f (suc i) (suc j) (x ∷ xs) h = get-update_ne f i j xs (λ e. h (ap suc e))

pub earlier : (j k : ℕ) → j < suc k → j ≢ k → j < k
earlier j k h n = omega arith

pub not_ahead :
    (k x last now m : ℕ) → last ≤ now → m ≡ last + k * x → (k ≡ 0) ⊎ (k * x < now - last) → m ≤ now
not_ahead k x last now m l e (inl z) = omega (arith, ap (λ j. j * x) z)
not_ahead k x last now m l e (inr h) = omega arith

round_upper : (k x delta : ℕ) → x < delta → delta - x ≤ (k + 1) * x → delta ≤ (suc k + 1) * x
round_upper k x delta h u = omega arith

round_lower : (k x delta : ℕ) → x < delta → (k ≡ 0) ⊎ (k * x < delta - x) → suc k * x < delta
round_lower k x delta h (inl e) = rw e (omega arith)
round_lower k x delta h (inr l) = omega arith

-- The step of `current_bucket_` is one modulo the number of buckets.
next : ℕ → ℕ → ℕ
next n i = if leb n (i + 1) then 0 else i + 1

next-mod : (n i : ℕ) → i < n → next n i ≡ (i + 1) % n
unfolding next
next-mod n i h = ground (arith, mod_self n, mod-eq_of_lt {n = i + 1} {m = n})

next-lt : (n i : ℕ) → i < n → next n i < n
unfolding next
next-lt n i h = ground arith

next-add : (n i k : ℕ) → i < n → (next n i + k) % n ≡ (i + suc k) % n
next-add n i k h = rw (next-mod n i h) (mod-add-mod (i + 1) n k ∙ ap (λ x. x % n) (omega arith))

module _ {D : Type 0} ⦃d : Double D⦄ where
  -- `k` rounds of the loop.
  unfoldable pub rounds : ℕ → TimeWindow D → TimeWindow D
  rounds zero t = t
  rounds (suc k) t = rounds k (rotate_once t)

  pub rounds_last : (k : ℕ) (t : TimeWindow D) → rounds (suc k) t ≡ rotate_once (rounds k t)
  unfolding rounds
  rounds_last zero t = refl
  rounds_last (suc k) t = rounds_last k (rotate_once t)

  -- With a positive interval and fuel above the time that passed the loop ends after some rounds: the last
  -- that were due.
  pub loop_ends :
      (fuel delta : ℕ) (t : TimeWindow D)
      → 0 < t.rotation_interval
      → delta < fuel
      → (k : ℕ) × (rotate_loop fuel delta t ≡ some (rounds k t))
        × (delta ≤ (k + 1) * t.rotation_interval)
        × ((k ≡ 0) ⊎ (k * t.rotation_interval < delta))
  unfolding rotate_loop rounds
  loop_ends zero delta t h f = absurd (omega arith)
  loop_ends (suc fuel) delta t h f = elim (Bool-cases (ltb t.rotation_interval delta)) [
    | inl e ↦
        let late : t.rotation_interval < delta = ground arith in
        let (k, r, upper, lower) =
          loop_ends fuel (delta - t.rotation_interval) (rotate_once t) h (omega arith) in
        (
          suc k,
          rw (e, rotate_loop) r,
          round_upper k t.rotation_interval delta late upper,
          inr (round_lower k t.rotation_interval delta late lower),
        )
    | inr e ↦ (0, rw (e, rotate_loop), ground arith, inl refl)
  ]

  pub once_bound :
      (t : TimeWindow D)
      → t.current_bucket < length t.ckms_quantiles
      → (rotate_once t).current_bucket < length (rotate_once t).ckms_quantiles
  unfolding rotate_once next
  once_bound t h =
      rw (length-update Ckms.reset t.current_bucket t.ckms_quantiles)
        (next-lt (length t.ckms_quantiles) t.current_bucket h)

  -- What `k` rounds change.
  pub rounds_lem :
      (k : ℕ) (t : TimeWindow D)
      → t.current_bucket < length t.ckms_quantiles
      → let t' = rounds k t in
        (t'.last_rotation ≡ t.last_rotation + k * t.rotation_interval)
        × (t'.rotation_interval ≡ t.rotation_interval)
        × (length t'.ckms_quantiles ≡ length t.ckms_quantiles)
        × (t'.current_bucket ≡ (t.current_bucket + k) % length t.ckms_quantiles)
  unfolding rounds rotate_once next
  rounds_lem zero t h = (omega arith, refl, refl, rw (add-zero) (sym (mod-eq_of_lt h)))
  rounds_lem (suc k) t h =
      let n = length-update Ckms.reset t.current_bucket t.ckms_quantiles in
      let (last, interval, size, current) = rounds_lem k (rotate_once t) (once_bound t h) in
      (
        omega (arith, last),
        interval,
        size ∙ n,
        current
            ∙ ap (λ m. ((rotate_once t).current_bucket + k) % m) n
            ∙ next-add (length t.ckms_quantiles) t.current_bucket k h,
      )

  -- The buckets that follow the current one, after a round.
  pub once_index :
      (t : TimeWindow D) (j : ℕ)
      → t.current_bucket < length t.ckms_quantiles
      → ((rotate_once t).current_bucket + j) % length t.ckms_quantiles
        ≡ (t.current_bucket + suc j) % length t.ckms_quantiles
  unfolding rotate_once next
  once_index t j h = next-add (length t.ckms_quantiles) t.current_bucket j h
