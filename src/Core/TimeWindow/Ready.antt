-- ===== src/Core/TimeWindow/Ready.antt =====
-- A time window whose rotation ends.
use prometheus_cpp.Common.{ℕ, zero, suc, ◌+◌, ◌-◌, ◌≤◌, ◌<◌, ◌≡◌, some, length, arith}
use prometheus_cpp.Double.{Double}
use prometheus_cpp.Core.TimeWindow.{TimeWindow, rotate_once, rotate}
use prometheus_cpp.Core.TimeWindow.Rounds.{not_ahead, rounds, loop_ends, once_bound, rounds_lem}

module _ {D : Type 0} ⦃d : Double D⦄ where
  -- A time window with an interval, a last rotation that is past and a current bucket that is there.
  pub record IsReady (t : TimeWindow D) (now : ℕ) : Type 0 where
    pub positive : 0 < t.rotation_interval
    pub past : t.last_rotation ≤ now
    pub in_bounds : t.current_bucket < length t.ckms_quantiles

  rounds_bound :
      (k : ℕ) (t : TimeWindow D)
      → t.current_bucket < length t.ckms_quantiles
      → (rounds k t).current_bucket < length (rounds k t).ckms_quantiles
  unfolding rounds
  rounds_bound zero t h = h
  rounds_bound (suc k) t h = rounds_bound k (rotate_once t) (once_bound t h)

  -- A rotation of such a window ends after some rounds, at most an interval behind the clock.
  pub rotate-rounds :
      (now : ℕ) (t : TimeWindow D)
      → IsReady t now
      → (k : ℕ) × (rotate now t ≡ some (rounds k t))
        × IsReady (rounds k t) now
        × (now ≤ (rounds k t).last_rotation + (rounds k t).rotation_interval)
        × ((rounds k t).rotation_interval ≡ t.rotation_interval)
        × (length (rounds k t).ckms_quantiles ≡ length t.ckms_quantiles)
  unfolding rotate
  rotate-rounds now t r =
      let delta = now - t.last_rotation in
      let (k, e, upper, lower) = loop_ends (delta + 1) delta t r.positive (omega arith) in
      let (last, interval, size, current) = rounds_lem k t r.in_bounds in
      let p = r.past in
      (
        k,
        e,
        record {
          positive = rw (interval) r.positive;
          past = not_ahead k t.rotation_interval t.last_rotation now _ r.past last lower;
          in_bounds = rounds_bound k t r.in_bounds;
        },
        omega (arith, last, upper, interval),
        interval,
        size,
      )

  pub rotate-IsReady :
      (now : ℕ) (t : TimeWindow D)
      → IsReady t now
      → (t' : TimeWindow D) × (rotate now t ≡ some t') × IsReady t' now
  rotate-IsReady now t r = let (k, e, r', _, _, _) = rotate-rounds now t r in (rounds k t, e, r')
