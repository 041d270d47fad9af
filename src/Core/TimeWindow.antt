-- ===== src/Core/TimeWindow.antt =====
-- core/src/detail/time_window_quantiles.cc. Times and durations are whole ticks of the steady clock, which
-- does not go back; a reading of the clock is an argument.
pub mod Rounds
pub mod Rotate
pub mod Ready
pub mod Window
pub mod Calls
pub mod Recent
mod Tests
use prometheus_cpp.Common.{
  ℕ, zero, suc, ◌+◌, ◌-◌, ◌*◌, ◌/◌, ◌≤◌, Bool, true, false, List, [], ◌∷◌, map, Option, none, some,
  length, replicate, leb, ltb, if◌then◌else◌, ◌>>=?◌,
}
use prometheus_cpp.Double.{Double}
use prometheus_cpp.Core.Ckms.{Quantile, Ckms}
use prometheus_cpp.Core.Ckms

pub record TimeWindow (D : Type 0) : Type 0 where
  pub quantiles : List (Quantile D)
  pub ckms_quantiles : List (Ckms D)
  pub current_bucket : ℕ
  pub last_rotation : ℕ
  pub rotation_interval : ℕ

-- The element at an index, changed.
pub update {ℓ} : {A : Type ℓ} → (A → A) → ℕ → List A → List A
update f i [] = []
update f zero (x ∷ xs) = f x ∷ xs
update f (suc i) (x ∷ xs) = x ∷ update f i xs

module _ {D : Type 0} ⦃d : Double D⦄ where
  unfoldable pub make : List (Quantile D) → ℕ → ℕ → ℕ → TimeWindow D
  unfolding Ckms.make
  make quantiles max_age age_buckets now = record {
    quantiles = quantiles;
    ckms_quantiles = replicate age_buckets (Ckms.make quantiles);
    current_bucket = 0;
    last_rotation = now;
    rotation_interval = max_age / age_buckets;
  }

  -- The body of the loop in `rotate`, but for `delta -= rotation_interval_`.
  pub rotate_once : TimeWindow D → TimeWindow D
  unfolding Ckms.reset update
  rotate_once t = record t {
    ckms_quantiles = update Ckms.reset t.current_bucket t.ckms_quantiles;
    current_bucket =
        if leb (length t.ckms_quantiles) (t.current_bucket + 1) then 0 else t.current_bucket + 1;
    last_rotation = t.last_rotation + t.rotation_interval;
  }

  -- The loop with fuel; `none` means that the fuel ran out.
  pub rotate_loop : ℕ → ℕ → TimeWindow D → Option (TimeWindow D)
  unfolding rotate_once
  rotate_loop zero delta t = none
  rotate_loop (suc fuel) delta t = elim (ltb t.rotation_interval delta) [
    | true ↦ rotate_loop fuel (delta - t.rotation_interval) (rotate_once t)
    | false ↦ some t
  ]

  -- Enough fuel wherever the interval is positive, since each round takes a tick off `delta` at least.
  unfoldable pub rotate : ℕ → TimeWindow D → Option (TimeWindow D)
  unfolding rotate_loop
  rotate now t = let delta = now - t.last_rotation in rotate_loop (delta + 1) delta t

  unfoldable pub insert : D → ℕ → TimeWindow D → Option (TimeWindow D)
  unfolding rotate Ckms.insert
  insert value now t = rotate now t >>=? λ t'.
      some (record t' { ckms_quantiles = map (Ckms.insert value) t'.ckms_quantiles })

  -- `get` on the bucket at an index. An index out of bounds, which the code never has, gives NaN.
  unfoldable pub get_at : D → ℕ → List (Ckms D) → D × List (Ckms D)
  unfolding Ckms.get
  get_at q i [] = (d.quiet_nan, [])
  get_at q zero (c ∷ cs) = let (x, c') = Ckms.get q c in (x, c' ∷ cs)
  get_at q (suc i) (c ∷ cs) = let (x, cs') = get_at q i cs in (x, c ∷ cs')

  unfoldable pub get : D → ℕ → TimeWindow D → Option (D × TimeWindow D)
  unfolding rotate get_at
  get q now t = rotate now t >>=? λ t'.
      let (x, cs) = get_at q t'.current_bucket t'.ckms_quantiles in
      some (x, record t' { ckms_quantiles = cs })
