-- ===== src/Core/TimeWindow/Recent.antt =====
-- The calls of a time window in sequence, and what a read of it sees.
use mathlib.Core.Path.{subst}
use native.Mathlib.Nat.{add-zero, mod-eq_of_lt, le-div_iff_mul-le, div-mul-le_self}
use native.Mathlib.Decide.{ℕ_discrete}
use prometheus_cpp.Common.{
  ℕ, suc, ◌+◌, ◌-◌, ◌*◌, ◌/◌, ◌%◌, ◌≤◌, ◌<◌, ◌≡◌, ◌⊎◌, inl, inr, refl, sym, ap, ◌∙◌, List, [], ◌∷◌,
  ◌++◌, some, length, length-replicate, replicate, get_elem?, All, All-mono, arith,
}
use prometheus_cpp.Double.{Double}
use prometheus_cpp.Core.Ckms.{Ckms, Quantile}
use prometheus_cpp.Core.Ckms
use prometheus_cpp.Core.Ckms.Values.{In, Keeps, Keeps-make, read_of-Keeps}
use prometheus_cpp.Core.TimeWindow.{TimeWindow, update, get_at, get, make}
use prometheus_cpp.Core.TimeWindow.Rounds.{length-update, get-update_self, get-update_ne}
use prometheus_cpp.Core.TimeWindow.Window.{
  Observation, values, HasRecent, index_at, age_at, mapped, changed-IsWindow,
}
use prometheus_cpp.Core.TimeWindow.Calls.{
  Call, inserts, gets, get-replicate, get-lt, perform, run, time_of, InOrder, observed,
  observed-cons, get_at_list, get_at_value, get-HasRecent, IsTracking, rotate-IsTracking,
  changed-IsTracking, insert-IsTracking,
}

module _ {D : Type 0} ⦃d : Double D⦄ where
  -- What a read does to a bucket.
  read_bucket :
      (log : List (Observation D)) (t : TimeWindow D) (q : D) (i : ℕ) (c' : Ckms D)
      → get_elem? (get_at q t.current_bucket t.ckms_quantiles).1 i ≡ some c'
      → (c : Ckms D) × (get_elem? t.ckms_quantiles i ≡ some c)
        × ((age : ℕ) → HasRecent log t.last_rotation age c → HasRecent log t.last_rotation age c')
  read_bucket log t q i c' found =
      let f = λ (c : Ckms D). (Ckms.get q c).1 in
      let e = ap (λ cs. get_elem? cs i) (get_at_list q t.current_bucket t.ckms_quantiles) in
      elim (ℕ_discrete t.current_bucket i) [
        | yes same ↦
            let (c, there, p) = mapped f (get_elem? t.ckms_quantiles i) c' (
              sym (get-update_self f i t.ckms_quantiles)
              ∙ ap (λ j. get_elem? (update f j t.ckms_quantiles) i) (sym same)
              ∙ sym e
              ∙ found) in
            (
              c,
              there,
              λ age h.
                  subst (HasRecent log t.last_rotation age) p
                    (get-HasRecent log t.last_rotation age q c h),
            )
        | no other ↦ (
          c',
          sym (get-update_ne f t.current_bucket i t.ckms_quantiles other) ∙ sym e ∙ found,
          λ age h. h,
        )
      ]

  -- What the current bucket gives.
  read_current :
      (x n : ℕ) (log : List (Observation D)) (t : TimeWindow D) (now : ℕ) (q : D)
      → IsTracking x n log t now
      → now ≤ t.last_rotation + t.rotation_interval
      → (c : Ckms D) × (get_elem? t.ckms_quantiles t.current_bucket ≡ some c)
        × (recent : List (Observation D)) × (old : List (Observation D)) × (log ≡ recent ++ old)
        × All (λ o. now ≤ o.time + n * x) recent
        × All (λ o. o.time + (n - 1) * x ≤ now) old
        × (((recent ≡ []) × ((get_at q t.current_bucket t.ckms_quantiles).0 ≡ d.quiet_nan))
            ⊎ In (get_at q t.current_bucket t.ckms_quantiles).0 (values recent))
  read_current x n log t now q k upper =
      let (c, there) = get-lt t.ckms_quantiles t.current_bucket k.ready.in_bounds in
      let first : index_at t 0 ≡ t.current_bucket =
        ap (λ m. m % length t.ckms_quantiles) (add-zero t.current_bucket)
        ∙ mod-eq_of_lt k.ready.in_bounds in
      let h =
        k.window.buckets 0 c (let b = k.ready.in_bounds in omega arith)
          (ap (get_elem? t.ckms_quantiles) first ∙ there) in
      let age : age_at t 0 ≡ (n - 1) * x = λ i. (k.size i - 1) * k.interval i in
      let sizes : n ≡ suc (n - 1) = let b = k.ready.in_bounds in omega (arith, k.size) in
      let p = k.ready.past in
      let product : n * x ≡ suc (n - 1) * x = ap (λ m. m * x) sizes in
      let interval = k.interval in
      (
        c,
        there,
        h.recent,
        h.old,
        h.parts,
        All-mono _ _ h.recent (λ o m. omega (arith, age, product, interval)) h.young,
        All-mono _ _ h.old (λ o m. omega (arith, age)) h.aged,
        subst (λ v. ((h.recent ≡ []) × (v ≡ d.quiet_nan)) ⊎ In v (values h.recent))
            (sym (get_at_value q t.current_bucket t.ckms_quantiles c there))
            (empty_or (read_of-Keeps q (values h.recent) c h.keeps)),
      )
    where
      empty_or :
          {v : D} {log' : List (Observation D)}
          → ((values log' ≡ []) × (v ≡ d.quiet_nan)) ⊎ In v (values log')
          → ((log' ≡ []) × (v ≡ d.quiet_nan)) ⊎ In v (values log')
      empty_or {log' = []} (inl (e, f)) = inl (refl, f)
      empty_or {log' = o ∷ log'} (inl (e, f)) = ground arith
      empty_or {log' = log'} (inr i) = inr i

  -- A read, and the observations that it sees.
  get-IsTracking :
      (x n : ℕ) (log : List (Observation D)) (t : TimeWindow D) (before now : ℕ) (q : D)
      → before ≤ now
      → IsTracking x n log t before
      → (r : D × TimeWindow D) × (get q now t ≡ some r)
        × IsTracking x n log r.1 now
        × (recent : List (Observation D)) × (old : List (Observation D)) × (log ≡ recent ++ old)
        × All (λ o. now ≤ o.time + n * x) recent
        × All (λ o. o.time + (n - 1) * x ≤ now) old
        × (((recent ≡ []) × (r.0 ≡ d.quiet_nan)) ⊎ In r.0 (values recent))
  unfolding get
  get-IsTracking x n log t before now q l k =
      let (t1, e, k1, upper) = rotate-IsTracking x n log t before now l k in
      let cs = (get_at q t1.current_bucket t1.ckms_quantiles).1 in
      let list = get_at_list q t1.current_bucket t1.ckms_quantiles in
      let size : length cs ≡ length t1.ckms_quantiles =
        ap length list
        ∙ length-update (λ c. (Ckms.get q c).1) t1.current_bucket t1.ckms_quantiles in
      let w =
        changed-IsWindow log log t1 cs size k1.window.logged (read_bucket log t1 q) k1.window in
      let (c, there, recent, old, parts, young, aged, value) =
        read_current x n log t1 now q k1 upper in
      (
        ((get_at q t1.current_bucket t1.ckms_quantiles).0, record t1 { ckms_quantiles = cs }),
        rw (get, e) refl,
        changed-IsTracking x n log log t1 now cs size w k1,
        recent,
        old,
        parts,
        young,
        aged,
        value,
      )

  make-IsTracking :
      (quantiles : List (Quantile D)) (max_age age_buckets start : ℕ)
      → 0 < age_buckets
      → age_buckets ≤ max_age
      → IsTracking
          (max_age / age_buckets)
          age_buckets
          []
          (make quantiles max_age age_buckets start)
          start
  unfolding make
  make-IsTracking quantiles max_age age_buckets start b a =
      let size = length-replicate age_buckets (Ckms.make quantiles) in
      let bound : 0 < length (replicate age_buckets (Ckms.make quantiles)) = rw (size) b in
      record {
        ready = record {
          positive = (le-div_iff_mul-le b).1 (omega arith);
          past = omega arith;
          in_bounds = bound;
        };
        window = record {
          in_bounds = bound;
          logged = tt;
          buckets = λ j c l e. record {
            recent = [];
            old = [];
            parts = refl;
            young = tt;
            aged = tt;
            keeps = subst (Keeps []) (get-replicate age_buckets _ _ c e) (Keeps-make quantiles);
          };
        };
        interval = refl;
        size = size;
      }

  perform-IsTracking :
      (x n : ℕ) (log : List (Observation D)) (call : Call D) (t : TimeWindow D) (before : ℕ)
      → before ≤ time_of call
      → IsTracking x n log t before
      → (t' : TimeWindow D) × (perform call t ≡ some t')
        × IsTracking x n (observed log (call ∷ [])) t' (time_of call)
  unfolding perform
  perform-IsTracking x n log (inserts time v) t before l k =
      insert-IsTracking x n log t before time v l k
  perform-IsTracking x n log (gets time q) t before l k =
      let (r, e, k', _, _, _, _, _, _) = get-IsTracking x n log t before time q l k in
      (r.1, rw (e) refl, k')

  run-IsTracking :
      (x n : ℕ) (log : List (Observation D)) (calls : List (Call D)) (t : TimeWindow D)
      (before now : ℕ)
      → InOrder before calls now
      → IsTracking x n log t before
      → (t' : TimeWindow D) × (run calls t ≡ some t')
        × (last : ℕ) × (last ≤ now)
        × IsTracking x n (observed log calls) t' last
  unfolding run
  run-IsTracking x n log [] t before now o k = (t, refl, before, o, k)
  run-IsTracking x n log (call ∷ calls) t before now o k =
      let (t1, e, k1) = perform-IsTracking x n log call t before o.0 k in
      let (t2, f, last, l, k2) =
        run-IsTracking x n (observed log (call ∷ [])) calls t1 (time_of call) now o.1 k1 in
      (
        t2,
        rw (run, e) f,
        last,
        l,
        subst (λ log'. IsTracking x n log' t2 last) (observed-cons log call calls) k2,
      )

  -- Where the calls are in order, each of them returns; and a read that follows at `now` sees the newest observations: the
  -- log is cut in two, what is in front was inserted at most `max_age` before `now`, and what is behind it is older by all
  -- but one of the intervals; the read gives NaN if nothing is in front, and otherwise a value of those.
  pub get-recent :
      (quantiles : List (Quantile D)) (max_age age_buckets start now : ℕ) (calls : List (Call D))
      (q : D)
      → 0 < age_buckets
      → age_buckets ≤ max_age
      → InOrder start calls now
      → (t : TimeWindow D) × (run calls (make quantiles max_age age_buckets start) ≡ some t)
        × (r : D × TimeWindow D) × (get q now t ≡ some r)
        × (recent : List (Observation D)) × (old : List (Observation D)) × (observed [] calls
            ≡ recent ++ old)
        × All (λ o. now ≤ o.time + max_age) recent
        × All (λ o. o.time + (age_buckets - 1) * (max_age / age_buckets) ≤ now) old
        × (((recent ≡ []) × (r.0 ≡ d.quiet_nan)) ⊎ In r.0 (values recent))
  get-recent quantiles max_age age_buckets start now calls q b a o =
      let x = max_age / age_buckets in
      let (t, e, last, l, k) =
        run-IsTracking x age_buckets [] calls (make quantiles max_age age_buckets start) start now o
          (make-IsTracking quantiles max_age age_buckets start b a) in
      let (r, f, _, recent, old, parts, young, aged, value) =
        get-IsTracking x age_buckets (observed [] calls) t last now q l k in
      let whole : max_age / age_buckets * age_buckets ≤ max_age =
        div-mul-le_self max_age age_buckets in
      (t, e, r, f, recent, old, parts, All-mono _ _ recent (λ i m. omega arith) young, aged, value)
