-- ===== src/Util/Base64/Tests.antt =====
-- Runs after util/tests/unit/base64_test.cc.
use prometheus_cpp.Common.{
  ◌≡◌, ◌↔◌, ◌%◌, refl, codes, [], ◌∷◌, ok, err, runtime_error, arith, length,
}
use prometheus_cpp.Util.Base64.{base64_encode, base64url_encode, base64_decode}
use prometheus_cpp.Util.Base64.RoundTrip.{decode-encode}
use prometheus_cpp.Util.Base64.Errors.{IsOk, WellPadded, decode_accepts}

encodings :
    (base64_encode [] ≡ [])
    × (base64_encode (codes "f") ≡ codes "Zg==")
    × (base64_encode (codes "fo") ≡ codes "Zm8=")
    × (base64_encode (codes "foobar") ≡ codes "Zm9vYmFy")
    × (base64url_encode (0xFF ∷ 0xEF ∷ []) ≡ codes "_-8=")
unfolding base64_encode base64url_encode
encodings = (refl, refl, refl, refl, refl)

decodings :
    (base64_decode (codes "Zm9vYg==") ≡ ok (codes "foob"))
    × (base64_decode (codes "A") ≡ err runtime_error)
    × (base64_decode (codes "A===") ≡ err runtime_error)
    × (base64_decode (codes "?AA=") ≡ err runtime_error)
    × (base64_decode (codes "QQ=A") ≡ ok (codes "A"))
unfolding base64_decode
decodings = (refl, refl, refl, refl, refl)

decode-encode_example : base64_decode (base64_encode (codes "foob")) ≡ ok (codes "foob")
decode-encode_example = decode-encode (codes "foob") (omega arith)

decode_accepts_example :
    IsOk (base64_decode (codes "QQ=A"))
    ↔ ((length (codes "QQ=A") % 4 ≡ 0) × WellPadded (codes "QQ=A"))
decode_accepts_example = decode_accepts (codes "QQ=A")
