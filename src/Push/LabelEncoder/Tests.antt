-- ===== src/Push/LabelEncoder/Tests.antt =====
-- Runs after push/tests/internal/label_encoder_test.cc.
use prometheus_cpp.Common.{◌≡◌, refl, codes, [], ◌∷◌}
use prometheus_cpp.Util.Base64.{base64url_encode}
use prometheus_cpp.Push.LabelEncoder.{encode_label}

encodings :
    (encode_label (codes "foo", codes "bar") ≡ codes "/foo/bar")
    × (encode_label (codes "foo", codes "a-b.c_d~e") ≡ codes "/foo/a-b.c_d~e")
    × (encode_label (codes "first_label", []) ≡ codes "/first_label@base64/=")
    × (encode_label (codes "path", codes "/var/tmp") ≡ codes "/path@base64/L3Zhci90bXA=")
    × (encode_label (
      codes "name",
      0xce ∷ 0xa0 ∷ 0xcf ∷ 0x81 ∷ 0xce ∷ 0xbf ∷ 0xce ∷ 0xbc ∷ 0xce ∷ 0xb7 ∷ 0xce ∷ 0xb8 ∷ 0xce
          ∷ 0xb5 ∷ 0xcf ∷ 0x8d ∷ 0xcf ∷ 0x82 ∷ [],
    )
        ≡ codes "/name@base64/zqDPgc6_zrzOt864zrXPjc-C")
unfolding encode_label base64url_encode
encodings = (refl, refl, refl, refl, refl)
