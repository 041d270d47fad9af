-- ===== src/Core/TimeWindow/Rotate.antt =====
-- The rotation of the time window: it ends, and clears exactly the buckets whose turn has come.
use native.Mathlib.Decide.{ℕ_discrete}
use mathlib.Core.Option
use prometheus_cpp.Common.{
  ℕ, zero, suc, ◌+◌, ◌-◌, ◌*◌, ◌%◌, ◌≤◌, ◌<◌, ◌≡◌, ◌≢◌, refl, sym, ap, ◌∙◌, [], Option, none, some,
  length, get_elem?, arith,
}
use prometheus_cpp.Double.{Double}
use prometheus_cpp.Core.Ckms.{Ckms}
use prometheus_cpp.Core.Ckms
use prometheus_cpp.Core.TimeWindow.{TimeWindow, update, rotate_once, rotate_loop, rotate}
use prometheus_cpp.Core.TimeWindow.Rounds.{
  get-update_self, get-update_ne, earlier, not_ahead, rounds, rounds_last, loop_ends, rounds_lem,
}

module _ {D : Type 0} ⦃d : Double D⦄ where
  -- A bucket with no value.
  abbrev pub IsCleared : Ckms D → Type 0
  IsCleared c = (c.count ≡ 0) × (c.sample ≡ []) × (c.buffer_count ≡ 0)

  some-IsCleared :
      (o : Option (Ckms D)) (c : Ckms D) → Option.map Ckms.reset o ≡ some c → IsCleared c
  unfolding Ckms.reset
  some-IsCleared none c e = ground arith
  some-IsCleared (some b) c e = ground arith

  -- The bucket that was current before round `j` of `k` rounds is cleared.
  rounds_clear :
      (k j : ℕ) (t : TimeWindow D) (c : Ckms D)
      → t.current_bucket < length t.ckms_quantiles
      → j < k
      → get_elem? (rounds k t).ckms_quantiles ((t.current_bucket + j) % length t.ckms_quantiles)
        ≡ some c
      → IsCleared c
  rounds_clear zero j t c h l e = absurd (omega arith)
  rounds_clear (suc k) j t c h l e =
      let i = (t.current_bucket + j) % length t.ckms_quantiles in
      let here = (rounds_lem k t h).3 in
      let buckets = (rounds k t).ckms_quantiles in
      let e' : get_elem? (update Ckms.reset (rounds k t).current_bucket buckets) i ≡ some c =
        unfold rotate_once in rw (rounds_last k t) at e in
      elim (ℕ_discrete (rounds k t).current_bucket i) [
        | yes same ↦ some-IsCleared (get_elem? buckets i) c (
            sym (get-update_self Ckms.reset i buckets)
            ∙ ap (λ x. get_elem? (update Ckms.reset x buckets) i) (sym same)
            ∙ e')
        | no other ↦
            rounds_clear k j t c h
              (earlier j k l (λ q.
                other (here ∙ ap (λ x. (t.current_bucket + x) % length t.ckms_quantiles) (sym q))))
              (sym (get-update_ne Ckms.reset (rounds k t).current_bucket i buckets other) ∙ e')
      ]

  -- Any other bucket is as it was.
  rounds_keep :
      (k i : ℕ) (t : TimeWindow D)
      → t.current_bucket < length t.ckms_quantiles
      → ((j : ℕ) → j < k → i ≢ (t.current_bucket + j) % length t.ckms_quantiles)
      → get_elem? (rounds k t).ckms_quantiles i ≡ get_elem? t.ckms_quantiles i
  unfolding rotate_once
  rounds_keep zero i t h n = unfold rounds in refl
  rounds_keep (suc k) i t h n = rw (rounds_last k t) (
      get-update_ne Ckms.reset (rounds k t).current_bucket i (rounds k t).ckms_quantiles
        (λ q. n k (omega arith) (sym q ∙ (rounds_lem k t h).3))
      ∙ rounds_keep k i t h (λ j l. n j (omega arith)))

  -- With a positive interval the loop of `rotate` ends, and exactly the rounds that are due have been made:
  -- afterwards at most one interval has passed since the last rotation, which is not in the future. Each round
  -- moves the last rotation on by an interval and the current bucket on by one, cyclically. Every bucket
  -- that was current before one of the rounds is empty, and every other bucket is unchanged.
  pub rotate_lem :
      (now : ℕ) (t : TimeWindow D)
      → 0 < t.rotation_interval
      → t.last_rotation ≤ now
      → t.current_bucket < length t.ckms_quantiles
      → (k : ℕ) × (t' : TimeWindow D) × (rotate now t ≡ some t')
        × (t'.last_rotation ≤ now)
        × (now ≤ t'.last_rotation + t.rotation_interval)
        × (t'.last_rotation ≡ t.last_rotation + k * t.rotation_interval)
        × (t'.current_bucket ≡ (t.current_bucket + k) % length t.ckms_quantiles)
        × ((j : ℕ) (c : Ckms D)
            → j < k
            → get_elem? t'.ckms_quantiles ((t.current_bucket + j) % length t.ckms_quantiles)
              ≡ some c
            → IsCleared c)
        × ((i : ℕ)
            → ((j : ℕ) → j < k → i ≢ (t.current_bucket + j) % length t.ckms_quantiles)
            → get_elem? t'.ckms_quantiles i ≡ get_elem? t.ckms_quantiles i)
  unfolding rotate
  rotate_lem now t h l b =
      let delta = now - t.last_rotation in
      let (k, r, upper, lower) = loop_ends (delta + 1) delta t h (omega arith) in
      let (last, _, _, current) = rounds_lem k t b in
      (
        k,
        rounds k t,
        r,
        not_ahead k t.rotation_interval t.last_rotation now _ l last lower,
        omega (arith, last, upper),
        last,
        current,
        λ j c. rounds_clear k j t c b,
        λ i. rounds_keep k i t b,
      )

  -- With an interval of no ticks (a `max_age` below `age_buckets` ticks, such as zero) the loop never ends once
  -- a tick has passed: whatever the fuel, it runs out.
  pub rotate_diverges :
      (fuel delta : ℕ) (t : TimeWindow D)
      → t.rotation_interval ≡ 0
      → 0 < delta
      → rotate_loop fuel delta t ≡ none
  unfolding rotate_loop
  rotate_diverges zero delta t z h = refl
  rotate_diverges (suc fuel) delta t z h =
      ground (arith, rotate_diverges fuel (delta - t.rotation_interval) (rotate_once t))
