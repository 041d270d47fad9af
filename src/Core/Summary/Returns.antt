-- ===== src/Core/Summary/Returns.antt =====
-- A summary's calls return, on a clock that does not go back.
use native.Mathlib.Nat.{le-div_iff_mul-le}
use prometheus_cpp.Common.{
  ℕ, zero, suc, ◌+◌, ◌%◌, ◌^◌, ◌≤◌, ◌<◌, ◌≡◌, refl, ap, List, [], ◌∷◌, map, Option, some, ◌>>=?◌,
  length, length-map, length-replicate, arith,
}
use prometheus_cpp.Double.{Double}
use prometheus_cpp.Core.Ckms.{Ckms, Quantile}
use prometheus_cpp.Core.Ckms
use prometheus_cpp.Core.ClientMetric
use prometheus_cpp.Core.ClientMetric.{empty_metric}
use prometheus_cpp.Core.TimeWindow.{TimeWindow, get_at, rotate}
use prometheus_cpp.Core.TimeWindow
use prometheus_cpp.Core.TimeWindow.Ready.{IsReady, rotate-IsReady}
use prometheus_cpp.Core.Summary.{Clock, later, Summary, make, observe, collect_quantiles, collect}

-- A clock that does not go back.
abbrev pub IsSteady : Clock → Type 0
IsSteady clock = (n : ℕ) → clock n ≤ clock (suc n)

-- The rest of a clock that does not go back.
abbrev pub IsLater : Clock → Clock → Type 0
IsLater clock clock' = IsSteady clock' × (clock 0 ≤ clock' 0)

-- A call of `Observe` or of `Collect`.
pub data Call (D : Type 0) : Type 0 where
  observes : D → Call D
  collects : Call D

module _ {D : Type 0} ⦃d : Double D⦄ where
  -- The calls in sequence; `none` means that one of them does not return.
  unfoldable pub perform : Call D → Summary D → Clock → Option (Summary D × Clock)
  unfolding observe collect
  perform (observes value) s clock = observe value s clock
  perform collects s clock = collect s clock >>=? λ (m, s', clock'). some (s', clock')

  unfoldable pub run : List (Call D) → Summary D → Clock → Option (Summary D × Clock)
  unfolding perform
  run [] s clock = some (s, clock)
  run (call ∷ calls) s clock = perform call s clock >>=? λ (s', clock'). run calls s' clock'

  length-get_at : (q : D) (i : ℕ) (cs : List (Ckms D)) → length (get_at q i cs).1 ≡ length cs
  unfolding get_at
  length-get_at q i [] = refl
  length-get_at q zero (c ∷ cs) = refl
  length-get_at q (suc i) (c ∷ cs) = ap suc (length-get_at q i cs)

  -- A window at a later time.
  IsReady-later :
      (t : TimeWindow D) (clock : Clock)
      → IsSteady clock
      → IsReady t (clock 0)
      → IsReady t (clock 1)
  IsReady-later t clock s r = record {
    positive = r.positive;
    past = let l = s 0 in let p = r.past in omega arith;
    in_bounds = r.in_bounds;
  }

  get-IsReady :
      (q : D) (clock : Clock) (t : TimeWindow D)
      → IsSteady clock
      → IsReady t (clock 0)
      → (x : D × TimeWindow D) × (TimeWindow.get q (clock 0) t ≡ some x) × IsReady x.1 (clock 1)
  unfolding TimeWindow.get
  get-IsReady q clock t s r =
      let (t', e, r') = rotate-IsReady (clock 0) t r in
      let l = length-get_at q t'.current_bucket t'.ckms_quantiles in
      let (x, cs) = get_at q t'.current_bucket t'.ckms_quantiles in
      let u : TimeWindow D = record t' { ckms_quantiles = cs } in
      (
        (x, u),
        rw (TimeWindow.get, e) refl,
        IsReady-later u clock s
            (record { positive = r'.positive; past = r'.past; in_bounds = rw (l) r'.in_bounds }),
      )

  insert-IsReady :
      (value : D) (clock : Clock) (t : TimeWindow D)
      → IsSteady clock
      → IsReady t (clock 0)
      → (t' : TimeWindow D) × (TimeWindow.insert value (clock 0) t ≡ some t') × IsReady t' (clock 1)
  unfolding TimeWindow.insert
  insert-IsReady value clock t s r =
      let (t', e, r') = rotate-IsReady (clock 0) t r in
      let l = length-map t'.ckms_quantiles (Ckms.insert value) in
      let u : TimeWindow D = record t' {
        ckms_quantiles = map (Ckms.insert value) t'.ckms_quantiles;
      } in
      (
        u,
        rw (TimeWindow.insert, e) refl,
        IsReady-later u clock s
            (record { positive = r'.positive; past = r'.past; in_bounds = rw (l) r'.in_bounds }),
      )

  collect_quantiles-IsReady :
      (qs : List (Quantile D)) (t : TimeWindow D) (clock : Clock)
      → IsSteady clock
      → IsReady t (clock 0)
      → (x : List (ClientMetric.Quantile D) × TimeWindow D × Clock) × (collect_quantiles qs t clock
          ≡ some x)
        × IsReady x.1 (x.2 0)
        × IsLater clock x.2
  unfolding collect_quantiles
  collect_quantiles-IsReady [] t clock s r = (([], t, clock), refl, r, (s, omega arith))
  collect_quantiles-IsReady (q ∷ qs) t clock s r =
      let (x, e, r1) = get-IsReady q.quantile clock t s r in
      let (y, f, r2, (s2, l)) =
        collect_quantiles-IsReady qs x.1 (later clock) (λ n. s (suc n)) r1 in
      (
        (record { quantile = q.quantile; value = x.0 } ∷ y.0, y.1, y.2),
        rw (collect_quantiles, e, f) refl,
        r2,
        (s2, let m = s 0 in omega arith),
      )

  -- `Collect` of a summary whose window is ready returns, and leaves it ready.
  pub collect-IsReady :
      (m : Summary D) (clock : Clock)
      → IsSteady clock
      → IsReady m.quantile_values (clock 0)
      → (x : ClientMetric.ClientMetric D × Summary D × Clock) × (collect m clock ≡ some x)
        × IsReady x.1.quantile_values (x.2 0)
        × IsLater clock x.2
  unfolding collect
  collect-IsReady m clock s r =
      let (x, e, r', l) = collect_quantiles-IsReady m.quantiles m.quantile_values clock s r in
      (
        _,
        ap
            (λ o. o >>=? λ (values, t, clock'). some (
              record empty_metric {
                summary = record { sample_count = m.count; sample_sum = m.sum; quantile = values };
              },
              record m { quantile_values = t },
              clock',
            ))
            e,
        r',
        l,
      )

  pub observe-IsReady :
      (value : D) (m : Summary D) (clock : Clock)
      → IsSteady clock
      → IsReady m.quantile_values (clock 0)
      → (m' : Summary D) × (observe value m clock ≡ some (m', later clock))
        × IsReady m'.quantile_values (clock 1)
  unfolding observe
  observe-IsReady value m clock s r =
      let (t, e, r') = insert-IsReady value clock m.quantile_values s r in
      (
        record m { count = (m.count + 1) % 2 ^ 64; sum = d.add m.sum value; quantile_values = t },
        rw (observe, e) refl,
        r',
      )

  perform-IsReady :
      (call : Call D) (m : Summary D) (clock : Clock)
      → IsSteady clock
      → IsReady m.quantile_values (clock 0)
      → (x : Summary D × Clock) × (perform call m clock ≡ some x)
        × IsReady x.0.quantile_values (x.1 0)
        × IsSteady x.1
  unfolding perform observe collect
  perform-IsReady (observes value) m clock s r =
      let (m', e, r') = observe-IsReady value m clock s r in
      ((m', later clock), e, r', λ n. s (suc n))
  perform-IsReady collects m clock s r =
      let (x, e, r', (s', l)) = collect-IsReady m clock s r in ((x.1, x.2), rw (e) refl, r', s')

  run-IsReady :
      (calls : List (Call D)) (m : Summary D) (clock : Clock)
      → IsSteady clock
      → IsReady m.quantile_values (clock 0)
      → (x : Summary D × Clock) × (run calls m clock ≡ some x)
        × IsReady x.0.quantile_values (x.1 0)
        × IsSteady x.1
  unfolding run
  run-IsReady [] m clock s r = (_, refl, r, s)
  run-IsReady (call ∷ calls) m clock s r =
      let (x, e, r1, s1) = perform-IsReady call m clock s r in
      let (y, f, r2, s2) = run-IsReady calls x.0 x.1 s1 r1 in (y, rw (run, e) f, r2, s2)

  -- A summary whose constructor is given at least one age bucket, and a maximal age of a tick for each at least, answers
  -- every sequence of observations and collections on a clock that does not go back: each call returns. The window's
  -- interval stays positive, its last rotation is never in the future, and its current bucket is always in bounds.
  pub run-returns :
      (quantiles : List (Quantile D)) (max_age age_buckets : ℕ) (clock : Clock)
      (calls : List (Call D))
      → 0 < age_buckets
      → age_buckets ≤ max_age
      → IsSteady clock
      → let (m, clock1) = make quantiles max_age age_buckets clock in
        (x : Summary D × Clock) × (run calls m clock1 ≡ some x)
        × IsReady x.0.quantile_values (x.1 0)
  unfolding make TimeWindow.make
  run-returns quantiles max_age age_buckets clock calls b a s =
      let (m, clock1) = make quantiles max_age age_buckets clock in
      let start : IsReady m.quantile_values (clock1 0) = record {
        positive = (le-div_iff_mul-le b).1 (omega arith);
        past = s 0;
        in_bounds = rw (length-replicate age_buckets (Ckms.make quantiles)) b;
      } in
      let (x, e, r, _) = run-IsReady calls m clock1 (λ n. s (suc n)) start in (x, e, r)
