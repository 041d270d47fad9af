-- ===== src/Core/TimeWindow/Window.antt =====
-- The values that a read of the time window sees: those of the last `max_age`.
use mathlib.Core.Path.{subst}
use mathlib.Core.Option
use native.Mathlib.Nat.{add-mod_right, mod-eq_of_lt, mod-eq-sub-mod, add-zero}
use native.Mathlib.Decide.{dec_lt}
use prometheus_cpp.Common.{
  ℕ, zero, suc, ◌+◌, ◌-◌, ◌*◌, ◌%◌, ◌≤◌, ◌<◌, ◌≡◌, ◌≢◌, refl, sym, ap, ◌∙◌, List, [], ◌++◌, map,
  Option, none, some, length, get_elem?, All, All-mono, some-injective, arith,
}
use prometheus_cpp.Double.{Double}
use prometheus_cpp.Core.Ckms.{Ckms, Quantile}
use prometheus_cpp.Core.Ckms
use prometheus_cpp.Core.Ckms.Values.{Keeps, Keeps-reset}
use prometheus_cpp.Core.TimeWindow.{TimeWindow, update, rotate_once}
use prometheus_cpp.Core.TimeWindow.Rounds.{
  length-update, get-update_self, get-update_ne, rounds, once_bound, once_index,
}

-- A value that was inserted, and when.
pub record Observation (D : Type 0) : Type 0 where
  pub time : ℕ
  pub value : D

age_next : (n j x : ℕ) → suc j < n → (n - suc (suc j)) * x + x ≡ (n - suc j) * x
age_next n j x h =
    let e : n - suc j ≡ suc (n - suc (suc j)) = omega arith in omega (arith, ap (λ m. m * x) e)

-- What a function was applied to.
pub mapped :
    {A B : Type 0} (f : A → B) (o : Option A) (b : B)
    → Option.map f o ≡ some b
    → (a : A) × (o ≡ some a) × (f a ≡ b)
mapped f none b e = ground arith
mapped f (some a) b e = (a, refl, some-injective _ _ e)

turned : (n i m : ℕ) → i < n → m < n → 0 < m → (i + m) % n ≢ i
turned n i m a b c e = elim (dec_lt (i + m) n) [
  | yes h ↦ omega (arith, e, mod-eq_of_lt h)
  | no h ↦
      let s : (i + m) % n ≡ (i + m - n) % n = mod-eq-sub-mod (omega arith) in
      let r : (i + m - n) % n ≡ i + m - n = mod-eq_of_lt (omega arith) in omega (arith, e, s, r)
]

module _ {D : Type 0} ⦃d : Double D⦄ where
  abbrev pub values : List (Observation D) → List D
  values log = map (λ o. o.value) log

  -- A bucket has the newest observations of the log: those of at most an age before a time, and not those that are older.
  pub record HasRecent (log : List (Observation D)) (last age : ℕ) (c : Ckms D) : Type 0 where
    pub recent : List (Observation D)
    pub old : List (Observation D)
    pub parts : log ≡ recent ++ old
    pub young : All (λ o. last ≤ o.time + age) recent
    pub aged : All (λ o. o.time + age ≤ last) old
    pub keeps : Keeps (values recent) c

  -- The bucket at a distance from the current one is as many intervals younger than the oldest one.
  abbrev pub age_at : TimeWindow D → ℕ → ℕ
  age_at t j = (length t.ckms_quantiles - suc j) * t.rotation_interval

  abbrev pub index_at : TimeWindow D → ℕ → ℕ
  index_at t j = (t.current_bucket + j) % length t.ckms_quantiles

  pub record IsWindow (log : List (Observation D)) (t : TimeWindow D) : Type 0 where
    pub in_bounds : t.current_bucket < length t.ckms_quantiles
    pub logged : All (λ o. o.time ≤ t.last_rotation + t.rotation_interval) log
    pub buckets :
        (j : ℕ) (c : Ckms D)
        → j < length t.ckms_quantiles
        → get_elem? t.ckms_quantiles (index_at t j) ≡ some c
        → HasRecent log t.last_rotation (age_at t j) c

  -- The bucket that a round resets.
  reset-HasRecent :
      (log : List (Observation D)) (before last age : ℕ) (c : Ckms D)
      → All (λ o. o.time ≤ last) log
      → HasRecent log before age c
      → HasRecent log last 0 (Ckms.reset c)
  reset-HasRecent log before last age c l h = record {
    recent = [];
    old = log;
    parts = refl;
    young = tt;
    aged = All-mono _ _ log (λ o m. omega arith) l;
    keeps = Keeps-reset (values h.recent) c h.keeps;
  }

  -- Another bucket is an interval older.
  older-HasRecent :
      (log : List (Observation D)) (last age interval : ℕ) (c : Ckms D)
      → HasRecent log last age c
      → HasRecent log (last + interval) (age + interval) c
  older-HasRecent log last age interval c h = record {
    recent = h.recent;
    old = h.old;
    parts = h.parts;
    young = All-mono _ _ h.recent (λ o m. omega arith) h.young;
    aged = All-mono _ _ h.old (λ o m. omega arith) h.aged;
    keeps = h.keeps;
  }

  once_bucket :
      (log : List (Observation D)) (t : TimeWindow D)
      → IsWindow log t
      → (j : ℕ) (c : Ckms D) → j < length (rotate_once t).ckms_quantiles
      → get_elem? (rotate_once t).ckms_quantiles (index_at (rotate_once t) j) ≡ some c
      → HasRecent log (rotate_once t).last_rotation (age_at (rotate_once t) j) c
  unfolding rotate_once
  once_bucket log t w j c l e =
      let size = length-update Ckms.reset t.current_bucket t.ckms_quantiles in
      let l' : j < length t.ckms_quantiles = omega (arith, size) in
      let same = once_index t j w.in_bounds in
      let e' : get_elem? (update Ckms.reset t.current_bucket t.ckms_quantiles) (index_at t (suc j))
          ≡ some c =
        ap (get_elem? (rotate_once t).ckms_quantiles)
          (sym (ap (λ m. ((rotate_once t).current_bucket + j) % m) size ∙ same))
        ∙ e in
      elim (dec_lt (suc j) (length t.ckms_quantiles)) [
        | yes h ↦
            let k =
              get-update_ne Ckms.reset t.current_bucket (index_at t (suc j)) t.ckms_quantiles (λ q.
                turned (length t.ckms_quantiles) t.current_bucket (suc j) w.in_bounds h
                  (omega arith) (sym q)) in
            let r =
              older-HasRecent log t.last_rotation (age_at t (suc j)) t.rotation_interval c
                (w.buckets (suc j) c h (sym k ∙ e')) in
            subst (λ a. HasRecent log (t.last_rotation + t.rotation_interval) a c)
              (age_next (length t.ckms_quantiles) j t.rotation_interval h
                ∙ ap (λ n. (n - suc j) * t.rotation_interval) (sym size))
              r
        | no h ↦
            let n = length t.ckms_quantiles in
            let whole : suc j ≡ n = omega arith in
            let at_cur : index_at t (suc j) ≡ t.current_bucket =
              ap (λ m. (t.current_bucket + m) % n) whole
              ∙ add-mod_right t.current_bucket n
              ∙ mod-eq_of_lt w.in_bounds in
            let (b, found, q) = mapped Ckms.reset (get_elem? t.ckms_quantiles t.current_bucket) c (
              sym (get-update_self Ckms.reset t.current_bucket t.ckms_quantiles)
              ∙ ap (get_elem? (rotate_once t).ckms_quantiles) (sym at_cur)
              ∙ e') in
            let first : index_at t 0 ≡ t.current_bucket =
              ap (λ m. m % n) (add-zero t.current_bucket) ∙ mod-eq_of_lt w.in_bounds in
            let h0 = w.buckets 0 b (omega arith) (ap (get_elem? t.ckms_quantiles) first ∙ found) in
            let none_left : 0 ≡ age_at (rotate_once t) j =
              let z : 0 ≡ length (rotate_once t).ckms_quantiles - suc j =
                omega (arith, size, whole) in
              omega (arith, ap (λ m. m * t.rotation_interval) z) in
            let r =
              reset-HasRecent log t.last_rotation (t.last_rotation + t.rotation_interval) _ b
                w.logged h0 in
            subst (λ a. HasRecent log (t.last_rotation + t.rotation_interval) a c) none_left
              (subst (HasRecent log (t.last_rotation + t.rotation_interval) 0) q r)
      ]

  once-IsWindow :
      (log : List (Observation D)) (t : TimeWindow D)
      → IsWindow log t
      → IsWindow log (rotate_once t)
  unfolding rotate_once
  once-IsWindow log t w = record {
    in_bounds = once_bound t w.in_bounds;
    logged = All-mono _ _ log (λ o m. omega arith) w.logged;
    buckets = once_bucket log t w;
  }

  pub rounds-IsWindow :
      (k : ℕ) (log : List (Observation D)) (t : TimeWindow D)
      → IsWindow log t
      → IsWindow log (rounds k t)
  unfolding rounds
  rounds-IsWindow zero log t w = w
  rounds-IsWindow (suc k) log t w = rounds-IsWindow k log (rotate_once t) (once-IsWindow log t w)

  -- Buckets that are changed in place, each by what keeps its observations in step with the log.
  pub changed-IsWindow :
      (log log' : List (Observation D)) (t : TimeWindow D) (cs : List (Ckms D))
      → length cs ≡ length t.ckms_quantiles
      → All (λ o. o.time ≤ t.last_rotation + t.rotation_interval) log'
      → ((i : ℕ) (c' : Ckms D)
          → get_elem? cs i ≡ some c'
          → (c : Ckms D) × (get_elem? t.ckms_quantiles i ≡ some c)
            × ((age : ℕ)
                → HasRecent log t.last_rotation age c
                → HasRecent log' t.last_rotation age c'))
      → IsWindow log t
      → IsWindow log' (record t { ckms_quantiles = cs })
  changed-IsWindow log log' t cs size logged change w = record {
    in_bounds = rw (size) w.in_bounds;
    logged = logged;
    buckets = λ j c' l e.
        let (c, found, step) = change ((t.current_bucket + j) % length cs) c' e in
        let h =
          w.buckets j c (rw (sym size) l) (
            ap (λ n. get_elem? t.ckms_quantiles ((t.current_bucket + j) % n)) (sym size) ∙ found) in
        subst (λ n. HasRecent log' t.last_rotation ((n - suc j) * t.rotation_interval) c')
          (sym size) (step (age_at t j) h);
  }
