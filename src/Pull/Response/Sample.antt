-- ===== src/Pull/Response/Sample.antt =====
-- A stand-in for zlib that writes the text as it is, a byte a round.
use prometheus_cpp.Common.{
  ℕ, suc, ◌<◌, ◌≡◌, ap, [], ◌∷◌, Bytes, some, some-injective, length, arith,
}
use prometheus_cpp.Pull.Response.{z_ok, z_stream_end, Zlib}
use prometheus_cpp.Pull.Response.Gzip.{Ends, given}

abbrev pub storing : Zlib Bytes
storing = record {
  deflate_init = λ bits level input. some input;
  deflate = λ zs. elim zs [ [] ↦ (z_stream_end, [], []) | c ∷ rest ↦ (z_ok, c ∷ [], rest) ];
}

pub lowers :
    (zs : Bytes) → (storing.deflate zs).0 ≡ z_ok → length (storing.deflate zs).2 < length zs
lowers [] e = ground arith
lowers (c ∷ rest) e = omega arith

abbrev pub storing-Ends : Ends storing
storing-Ends = record {
  left = length;
  bound = length;
  falls = lowers;
  bounded =
      λ bits level input zs e. let same = some-injective _ _ e in omega (arith, ap length same);
}

-- A round more than there are bytes.
abbrev pub rounds : Bytes → ℕ
rounds text = suc (length (given text))
