-- ===== src/Pull/Response/Gzip.antt =====
-- What `GZipCompress` returns, and that it does.
use prometheus_cpp.Common.{
  ℕ, zero, suc, ◌<◌, ◌≤◌, [], ◌++◌, none, some, some-injective, Bytes, length, take, ◌%◌, ◌^◌, ◌≡◌,
  ◌⊎◌, inl, inr, refl, sym, Option-cases, arith,
}
use prometheus_cpp.Pull.Response.{
  DeflateResult, z_ok, z_stream_end, z_error, Zlib, deflate_loop, gzip_compress,
}

DeflateResult-cases :
    (ret : DeflateResult) → (ret ≡ z_ok) ⊎ ((ret ≡ z_stream_end) ⊎ (ret ≡ z_error))
DeflateResult-cases z_ok = inl refl
DeflateResult-cases z_stream_end = inr (inl refl)
DeflateResult-cases z_error = inr (inr refl)

-- The part of the text that zlib is given.
abbrev pub given : Bytes → Bytes
given input = take (length input % 2 ^ 32) input

-- zlib's documentation: what is left to write has a bound that the input sets, and a round that asks for more has written
-- some of it.
pub record Ends {Z : Type 0} (zlib : Zlib Z) : Type 0 where
  pub left : Z → ℕ
  pub bound : Bytes → ℕ
  pub falls : (zs : Z) → (zlib.deflate zs).0 ≡ z_ok → left (zlib.deflate zs).2 < left zs
  pub bounded :
      (bits level : ℕ) (input : Bytes) (zs : Z)
      → zlib.deflate_init bits level input ≡ some zs
      → left zs ≤ bound input

module _ {Z : Type 0} (zlib : Zlib Z) where
  -- The rounds on a stream, behind some output, up to the first that does not ask for more.
  pub data Rounds : Z → Bytes → Bytes → Type 0 where
    ended :
        (zs : Z) (output result : Bytes)
        → (zlib.deflate zs).0 ≡ z_stream_end
        → result ≡ output ++ (zlib.deflate zs).1
        → Rounds zs output result
    failed : (zs : Z) (output : Bytes) → (zlib.deflate zs).0 ≡ z_error → Rounds zs output []
    more :
        (zs : Z) (output result : Bytes)
        → (zlib.deflate zs).0 ≡ z_ok
        → Rounds (zlib.deflate zs).2 (output ++ (zlib.deflate zs).1) result
        → Rounds zs output result

  -- Nothing where the stream cannot be made, and else what its rounds write.
  pub Compresses : Bytes → Bytes → Type 0
  Compresses input result =
      ((zlib.deflate_init 31 9 (given input) ≡ none) × (result ≡ []))
      ⊎ ((zs : Z) × (zlib.deflate_init 31 9 (given input) ≡ some zs) × Rounds zs [] result)

  deflate_loop-Rounds :
      (fuel : ℕ) (zs : Z) (output result : Bytes)
      → deflate_loop zlib fuel zs output ≡ some result
      → Rounds zs output result
  unfolding deflate_loop
  deflate_loop-Rounds zero zs output result h = ground arith
  deflate_loop-Rounds (suc fuel) zs output result h =
      elim (DeflateResult-cases (zlib.deflate zs).0) [
        | inl q ↦ more zs output result q (
            deflate_loop-Rounds fuel (zlib.deflate zs).2 (output ++ (zlib.deflate zs).1) result
              (rw (deflate_loop, q) at h))
        | inr (inl q) ↦
            ended zs output result q (sym (some-injective _ _ (rw (deflate_loop, q) at h)))
        | inr (inr q) ↦
            let e : [] ≡ result = some-injective _ _ (rw (deflate_loop, q) at h) in
            rw (sym e) (failed zs output q)
      ]

  pub gzip_compress-Compresses :
      (fuel : ℕ) (input result : Bytes)
      → gzip_compress zlib fuel input ≡ some result
      → Compresses input result
  unfolding gzip_compress Compresses
  gzip_compress-Compresses fuel input result h =
      elim (Option-cases (zlib.deflate_init 31 9 (given input))) [
        | inl q ↦ inl (q, sym (some-injective _ _ (rw (gzip_compress, q) at h)))
        | inr (zs, q) ↦
            inr (zs, q, deflate_loop-Rounds fuel zs [] result (rw (gzip_compress, q) at h))
      ]

  -- The loop ends, with fuel above what is left to write.
  deflate_loop-returns :
      (ends : Ends zlib) (fuel : ℕ) (zs : Z) (output : Bytes)
      → ends.left zs < fuel
      → (result : Bytes) × (deflate_loop zlib fuel zs output ≡ some result)
  unfolding deflate_loop
  deflate_loop-returns ends zero zs output h = absurd (omega arith)
  deflate_loop-returns ends (suc fuel) zs output h =
      elim (DeflateResult-cases (zlib.deflate zs).0) [
        | inl q ↦
            rw (deflate_loop, q)
              (deflate_loop-returns ends fuel (zlib.deflate zs).2 (output ++ (zlib.deflate zs).1)
                (let d = ends.falls zs q in omega arith))
        | inr (inl q) ↦ rw (deflate_loop, q) (_, refl)
        | inr (inr q) ↦ rw (deflate_loop, q) (_, refl)
      ]

  pub gzip_compress-returns :
      (ends : Ends zlib) (fuel : ℕ) (input : Bytes)
      → ends.bound (given input) < fuel
      → (result : Bytes) × (gzip_compress zlib fuel input ≡ some result)
  unfolding gzip_compress
  gzip_compress-returns ends fuel input h =
      elim (Option-cases (zlib.deflate_init 31 9 (given input))) [
        | inl q ↦ ([], rw (gzip_compress, q) refl)
        | inr (zs, q) ↦
            let (result, e) =
              deflate_loop-returns ends fuel zs []
                (let b = ends.bounded 31 9 (given input) zs q in omega arith) in
            (result, rw (gzip_compress, q) e)
      ]

  -- The compression returns, and gives what zlib's rounds write for the text one after the other, up to the round that ends
  -- the stream; nothing where the stream cannot be made, or where a round fails. Zlib is given the first bytes of the text,
  -- as many as its length modulo 2^32. The hypotheses: what is left to write has a bound, which a round that asks for more
  -- lowers; and the fuel of the loop is above it.
  pub gzip_compress_lem :
      (ends : Ends zlib) (fuel : ℕ) (input : Bytes)
      → ends.bound (given input) < fuel
      → (result : Bytes) × (gzip_compress zlib fuel input ≡ some result) × Compresses input result
  gzip_compress_lem ends fuel input h =
      let (result, e) = gzip_compress-returns ends fuel input h in
      (result, e, gzip_compress-Compresses fuel input result e)
