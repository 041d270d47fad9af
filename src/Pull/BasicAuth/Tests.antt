-- ===== src/Pull/BasicAuth/Tests.antt =====
-- The header of pull/src/basic_auth.cc's comment.
use prometheus_cpp.Common.{
  has_prefix, split_at, ◌≡◌, ◌↔◌, ◌⊎◌, refl, true, false, [], ◌∷◌, ◌++◌, ◌&&◌, none, some, codes,
  Option, Bytes, bytes_eq, arith,
}
use prometheus_cpp.Util.Base64.{base64_encode, base64_decode}
use prometheus_cpp.Pull.BasicAuth.{BasicAuthHandler, prefix, authorize, write_unauthorized_response}
use prometheus_cpp.Pull.BasicAuth.Accepts.{Admits, response_401, authorize_iff, authorize-encode}

abbrev handler : BasicAuthHandler
handler = record {
  callback = λ username password.
      bytes_eq username (codes "username") && bytes_eq password (codes "password");
  realm = codes "Prometheus-cpp Exporter";
}

answers :
    ((authorize handler (some (codes "Basic dXNlcm5hbWU6cGFzc3dvcmQ="))).0 ≡ true)
    × ((authorize handler (some (codes "Basic dXNlcm5hbWU="))).0 ≡ false)
    × ((authorize handler (some (codes "Basic ?"))).0 ≡ false)
    × ((authorize handler (some (codes "Digest x"))).0 ≡ false)
    × (authorize handler none ≡ (false, write_unauthorized_response handler))
unfolding authorize base64_decode has_prefix split_at
answers = (refl, refl, refl, refl, refl)

abbrev client : Option Bytes
client = some (codes "Basic dXNlcm5hbWU6cGFzc3dvcmQ=")

authorize_iff_example :
    (((authorize handler client).0 ≡ true) ↔ Admits handler client)
    × ((authorize handler client ≡ (true, []))
        ⊎ (authorize handler client ≡ (false, response_401 handler)))
authorize_iff_example = authorize_iff handler client

authorize-encode_example :
    (authorize handler (some (prefix ++ base64_encode (codes "username" ++ b':' ∷ codes "pass")))).0
    ≡ false
authorize-encode_example =
    authorize-encode handler (codes "username") (codes "pass") (omega arith) (omega arith)
