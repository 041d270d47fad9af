-- ===== src/Core/Ckms.antt =====
-- core/src/detail/ckms_quantiles.cc: a stream's quantiles from weighted samples. An `int` is an
-- unbounded number: weights and ranks are at most the count of values, so this is the code up to 2^31 - 1 values
-- between two resets, and beyond them an `int` of the code overflows. A `size_t` wraps where the code subtracts a
-- rank from a size.
pub mod History
pub mod Total
pub mod Weight
pub mod Values
pub mod Sorted
pub mod Rank
pub mod Known
pub mod Read
mod Tests
use prometheus_cpp.Common.{
  ℕ, zero, suc, ◌+◌, ◌-◌, ◌%◌, ◌^◌, Bool, true, false, ◌&&◌, List, [], ◌∷◌, ◌++◌, length, set, take,
  drop, replicate, ltb, ◌==◌, if◌then◌else◌, is_empty, ℤ, pos, ◌+ℤ◌, to_size,
}
use prometheus_cpp.Double.{Double, zero_value}

pub record Quantile (D : Type 0) : Type 0 where
  pub quantile : D
  pub error : D
  pub u : D
  pub v : D

pub record Item (D : Type 0) : Type 0 where
  pub value : D
  pub g : ℕ
  pub delta : ℤ

-- The array `buffer_` is a list of 500 values; those from `buffer_count` on are stale.
pub record Ckms (D : Type 0) : Type 0 where
  pub quantiles : List (Quantile D)
  pub count : ℕ
  pub sample : List (Item D)
  pub buffer : List D
  pub buffer_count : ℕ

abbrev pub buffer_size : ℕ
buffer_size = 500

-- `emplace` in front of the element at an index.
pub insert_at {ℓ} : {A : Type ℓ} → ℕ → A → List A → List A
insert_at zero x xs = x ∷ xs
insert_at (suc i) x [] = x ∷ []
insert_at (suc i) x (y ∷ ys) = y ∷ insert_at i x ys

module _ {D : Type 0} ⦃d : Double D⦄ where
  unfoldable pub make_quantile : D → D → Quantile D
  make_quantile quantile error = record {
    quantile = quantile;
    error = error;
    u = d.div (d.mul (d.of_uint 2) error) (d.sub (d.of_uint 1) quantile);
    v = d.div (d.mul (d.of_uint 2) error) quantile;
  }

  unfoldable pub make : List (Quantile D) → Ckms D
  make quantiles = record {
    quantiles = quantiles;
    count = 0;
    sample = [];
    buffer = replicate buffer_size zero_value;
    buffer_count = 0;
  }

  -- A round of the loop; `size - rank` is in `size_t`.
  pub error_of : Quantile D → ℤ → ℕ → D
  error_of q rank size =
      if d.le (d.of_int rank) (d.mul q.quantile (d.of_uint size))
      then d.mul q.u (d.of_uint ((size + 2 ^ 64 - to_size rank) % 2 ^ 64))
      else d.mul q.v (d.of_int rank)

  pub min_error : List (Quantile D) → ℤ → ℕ → D → D
  unfolding error_of
  min_error [] rank size least = least
  min_error (q ∷ qs) rank size least =
      let error = error_of q rank size in
      min_error qs rank size (if d.lt error least then error else least)

  pub allowable_error : List (Quantile D) → ℤ → ℕ → D
  unfolding min_error
  allowable_error quantiles rank size = min_error quantiles rank size (d.of_uint (size + 1))

  -- `std::sort`: the values in ascending order. With NaN among them `<` is no strict weak order, and what `std::sort` does
  -- is undefined, and the definition gives one order of many.
  pub insert_sorted : D → List D → List D
  insert_sorted x [] = x ∷ []
  insert_sorted x (y ∷ ys) = if d.lt y x then y ∷ insert_sorted x ys else x ∷ y ∷ ys

  pub sort : List D → List D
  unfolding insert_sorted
  sort [] = []
  sort (x ∷ xs) = insert_sorted x (sort xs)

  -- The index that `std::lower_bound` finds in the samples.
  pub lower_bound : List (Item D) → D → ℕ
  lower_bound [] val = 0
  lower_bound (item ∷ items) val = if d.lt item.value val then suc (lower_bound items val) else 0

  -- The uncertainty of a new sample, for an index strictly between the ends.
  pub new_delta : List (Quantile D) → ℕ → ℕ → ℤ
  unfolding allowable_error ◌+ℤ◌
  new_delta quantiles idx size =
      if ltb 0 idx && ltb idx size
      then d.to_int (d.floor (allowable_error quantiles (pos (idx + 1)) size)) +ℤ pos 1
      else pos 0

  pub insert_value : List (Quantile D) → D → List (Item D) → List (Item D)
  unfolding lower_bound new_delta insert_at
  insert_value quantiles value sample =
      let idx = lower_bound sample value in
      insert_at idx
        (record { value = value; g = 1; delta = new_delta quantiles idx (length sample) }) sample

  -- The loop over the sorted buffer.
  pub insert_values : List D → Ckms D → Ckms D
  unfolding insert_value
  insert_values [] c = c
  insert_values (value ∷ values) c =
      insert_values values
        (record c { sample = insert_value c.quantiles value c.sample; count = c.count + 1 })

  -- The first value goes into an empty sample set as it is.
  pub insert_first : List D → Ckms D → Ckms D
  unfolding insert_values
  insert_first [] c = c
  insert_first (value ∷ values) c = elim c.sample [
    | [] ↦ insert_values values (record c {
      sample = record { value = value; g = 1; delta = pos 0 } ∷ [];
      count = c.count + 1;
    })
    | item ∷ items ↦ insert_values (value ∷ values) c
  ]

  -- The result tells whether there was anything to insert.
  unfoldable pub insert_batch : Ckms D → Ckms D × Bool
  unfolding insert_first sort
  insert_batch c =
      if c.buffer_count == 0
      then (c, false)
      else (let values = sort (take c.buffer_count c.buffer) in
          (
            record (insert_first values
                (record c { buffer = values ++ drop c.buffer_count c.buffer })) {
                  buffer_count = 0;
                },
            true,
          ))

  -- The loop: `front` and `last` are `compressed_samples`, and the last argument is the rest of `sample_`.
  pub compress_loop : List (Quantile D) → List (Item D) → Item D → ℕ → List (Item D) → List (Item D)
  unfolding allowable_error ◌+ℤ◌
  compress_loop quantiles front last logical_size [] = front ++ last ∷ []
  compress_loop quantiles front last logical_size (current ∷ rest) =
      elim (d.le (d.of_int (pos (last.g + current.g) +ℤ current.delta))
        (allowable_error quantiles (pos (length front + 1)) logical_size)) [
          | true ↦
              compress_loop quantiles front (record current { g = last.g + current.g })
                (logical_size - 1) rest
          | false ↦ compress_loop quantiles (front ++ last ∷ []) current logical_size rest
        ]

  pub compress_samples : List (Quantile D) → List (Item D) → List (Item D)
  unfolding compress_loop
  compress_samples quantiles [] = []
  compress_samples quantiles (item ∷ []) = item ∷ []
  compress_samples quantiles (first ∷ second ∷ rest) =
      compress_loop quantiles [] first (length (first ∷ second ∷ rest)) (second ∷ rest)

  unfoldable pub compress : Ckms D → Ckms D
  unfolding compress_samples
  compress c = record c { sample = compress_samples c.quantiles c.sample }

  unfoldable pub insert : D → Ckms D → Ckms D
  unfolding insert_batch compress
  insert value c =
      let c' = record c {
        buffer = set c.buffer c.buffer_count value;
        buffer_count = c.buffer_count + 1;
      } in
      if c'.buffer_count == length c'.buffer then compress (insert_batch c').0 else c'

  -- The `while` loop of `get`, with the rank of `prev` and the samples from `cur` on.
  pub scan : D → Item D → ℕ → List (Item D) → D
  unfolding ◌+ℤ◌
  scan bound prev rank_min [] = prev.value
  scan bound prev rank_min (cur ∷ rest) =
      let rank = rank_min + prev.g in
      if d.lt bound (d.of_int (pos (rank + cur.g) +ℤ cur.delta))
      then prev.value
      else scan bound cur rank rest

  pub read : D → Ckms D → D
  unfolding scan allowable_error
  read q c = elim c.sample [
    | [] ↦ d.quiet_nan
    | first ∷ rest ↦
        let desired = d.to_int (d.mul q (d.of_uint c.count)) in
        let bound =
          d.add (d.of_int desired)
            (d.div (allowable_error c.quantiles desired (length c.sample)) (d.of_uint 2)) in
        scan bound first 0 rest
  ]

  unfoldable pub get : D → Ckms D → D × Ckms D
  unfolding insert_batch compress read
  get q c = let c' = compress (insert_batch c).0 in (read q c', c')

  unfoldable pub reset : Ckms D → Ckms D
  reset c = record c { count = 0; sample = []; buffer_count = 0 }
