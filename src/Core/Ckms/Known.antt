-- ===== src/Core/Ckms/Known.antt =====
-- The values that are in the samples, beside those in the buffer, through every call.
use native.Mathlib.Numerals.{add-one}
use prometheus_cpp.Common.{
  ◌+◌, ◌<◌, ◌≡◌, refl, List, [], ◌∷◌, ◌++◌, length, set, take, drop, All, arith, ◌==◌, Bool-cases,
  inl, inr,
}
use prometheus_cpp.Double.{Double, IsNumber, IsOrdered}
use prometheus_cpp.Core.Ckms.{
  Quantile, Ckms, make, insert_value, insert_values, sort, insert_batch, compress, insert, get,
  reset,
}
use prometheus_cpp.Core.Ckms.History.{Call, inserts, gets, resets, perform, run, seen}
use prometheus_cpp.Core.Ckms.Total.{insert_first-insert_values}
use prometheus_cpp.Core.Ckms.Weight.{Holds, run-Holds, make-IsWeighted, get-IsWeighted}
use prometheus_cpp.Core.Ckms.Values.{take-set, All-sort, live_write}
use prometheus_cpp.Core.Ckms.Sorted.{
  IsSorted, IsSorted-insert_at, Live, Ordered, Ordered-perform, HasNumber,
}
use prometheus_cpp.Core.Ckms.Rank.{
  rank, rank-append, rank-sort, Ranked, Ranked-insert_at, Ranked-compress,
}

module _ {D : Type 0} ⦃d : Double D⦄ where
  Ranked-insert_values :
      IsOrdered D
      → (values vs : List D) (c : Ckms D) → All IsNumber values
      → IsSorted c.sample
      → Ranked vs 0 c.sample
      → (ws : List D) × Ranked ws 0 (insert_values values c).sample
        × ((x : D) → rank x ws ≡ rank x values + rank x vs)
  unfolding insert_values insert_value
  Ranked-insert_values o [] vs c n s k = (vs, k, λ x. omega arith)
  Ranked-insert_values o (v ∷ values) vs c n s k =
      let (ws, k', e) =
        Ranked-insert_values o values (v ∷ vs) _ n.1 (IsSorted-insert_at o _ c.sample n.0 s)
          (Ranked-insert_at o _ vs 0 c.sample n.0 refl s (omega arith) k) in
      (ws, k', λ x. omega (arith, e x))

  -- The values that are in the samples, beside those that are still in the buffer.
  pub record HasRanks (before : List D) (c : Ckms D) : Type 0 where
    pub known : List D
    pub ranked : Ranked known 0 c.sample
    pub split : (x : D) → rank x before ≡ rank x known + rank x (take c.buffer_count c.buffer)

  HasRanks-insert_batch :
      IsOrdered D
      → (before : List D) (c : Ckms D) → Live c
      → IsSorted c.sample
      → HasRanks before c
      → HasRanks before (insert_batch c).0
  unfolding insert_batch
  HasRanks-insert_batch o before c l s h = elim (Bool-cases (c.buffer_count == 0)) [
    | inl e ↦ rw e h
    | inr e ↦
        let values = sort (take c.buffer_count c.buffer) in
        let c' = record c { buffer = values ++ drop c.buffer_count c.buffer } in
        let (ws, k, r) =
          Ranked-insert_values o values h.known c' (All-sort IsNumber _ l) s h.ranked in
        rw (e, insert_first-insert_values values c')
          (record {
            known = ws;
            ranked = k;
            split = λ x. omega (arith, r x, h.split x, rank-sort x (take c.buffer_count c.buffer));
          })
  ]

  HasRanks-compress :
      (before : List D) (c : Ckms D) → HasRanks before c → HasRanks before (compress c)
  unfolding compress
  HasRanks-compress before c h = record {
    known = h.known;
    ranked = Ranked-compress h.known c.quantiles c.sample h.ranked;
    split = h.split;
  }

  rank-live :
      (x v : D) (c : Ckms D)
      → c.buffer_count < length c.buffer
      → rank x (take (c.buffer_count + 1) (set c.buffer c.buffer_count v))
        ≡ rank x (v ∷ []) + rank x (take c.buffer_count c.buffer)
  rank-live x v c room =
      rw (add-one, take-set c.buffer_count c.buffer v room)
        (omega (arith, rank-append x (take c.buffer_count c.buffer) (v ∷ [])))

  HasRanks-insert :
      IsOrdered D
      → (v : D) (before : List D) (c : Ckms D) → IsNumber v
      → Ordered c
      → HasRanks before c
      → HasRanks (v ∷ before) (insert v c)
  unfolding insert
  HasRanks-insert o v before c n (w, a, s) h =
      let c' = record c {
        buffer = set c.buffer c.buffer_count v;
        buffer_count = c.buffer_count + 1;
      } in
      let room : c.buffer_count < length c.buffer = omega (arith, w.room, w.size) in
      let h' : HasRanks (v ∷ before) c' = record {
        known = h.known;
        ranked = h.ranked;
        split = λ x. omega (arith, h.split x, rank-live x v c room);
      } in
      elim (Bool-cases (c'.buffer_count == length c'.buffer)) [
        | inl e ↦ rw e (
            HasRanks-compress (v ∷ before) (insert_batch c').0
              (HasRanks-insert_batch o (v ∷ before) c' (live_write IsNumber v c room n a.1) s h'))
        | inr e ↦ rw e h'
      ]

  HasRanks-get :
      IsOrdered D
      → (q : D) (before : List D) (c : Ckms D) → Ordered c
      → HasRanks before c
      → HasRanks before (get q c).1
  unfolding get
  HasRanks-get o q before c (w, a, s) h =
      HasRanks-compress before (insert_batch c).0 (HasRanks-insert_batch o before c a.1 s h)

  HasRanks-run :
      IsOrdered D
      → (calls : List (Call D)) (before : List D) (c : Ckms D) → All HasNumber calls
      → Ordered c
      → HasRanks before c
      → HasRanks (seen before calls) (run calls c) × Ordered (run calls c)
  unfolding run perform
  HasRanks-run o [] before c n k h = (h, k)
  HasRanks-run o (inserts v ∷ calls) before c n k h =
      HasRanks-run o calls (v ∷ before) _ n.1 (Ordered-perform o (inserts v) c n.0 k)
        (HasRanks-insert o v before c n.0 k h)
  HasRanks-run o (gets q ∷ calls) before c n k h =
      HasRanks-run o calls before _ n.1 (Ordered-perform o (gets q) c n.0 k)
        (HasRanks-get o q before c k h)
  HasRanks-run o (resets ∷ calls) before c n k h =
      HasRanks-run o calls [] _ n.1 (Ordered-perform o resets c n.0 k)
        (unfold reset in record { known = []; ranked = tt; split = λ x. refl })

  pub get-HasRanks :
      IsOrdered D
      → (qs : List (Quantile D)) (calls : List (Call D)) (q : D) → All HasNumber calls
      → HasRanks (seen [] calls) (get q (run calls (make qs))).1
        × Holds (length (seen [] calls)) (get q (run calls (make qs))).1
        × ((get q (run calls (make qs))).1.buffer_count ≡ 0)
  get-HasRanks o qs calls q n =
      let new : Ordered (make qs) = unfold make in (make-IsWeighted qs, (tt, tt), tt) in
      let (h, k) =
        HasRanks-run o calls [] (make qs) n new
          (unfold make in record { known = []; ranked = tt; split = λ x. refl }) in
      let (w, counted, empty) = get-IsWeighted q k.0 in
      (
        HasRanks-get o q (seen [] calls) (run calls (make qs)) k h,
        (w, omega (arith, counted, empty, (run-Holds qs calls).1)),
        empty,
      )
