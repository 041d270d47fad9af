-- ===== src/Pull/BasicAuth.antt =====
-- pull/src/basic_auth.cc. Of the connection the code uses the header's value, which `mg_get_header` gives, and
-- `mg_printf`: a call gives the text that it prints.
pub mod Accepts
mod Tests
use prometheus_cpp.Common.{
  Bool, true, false, not, ◌++◌, [], Option, none, some, Bytes, codes, length, drop, has_prefix,
  split_at, c_str, if◌then◌else◌, ok, err,
}
use prometheus_cpp.Util.Base64.{base64_decode}

pub record BasicAuthHandler : Type 0 where
  pub callback : Bytes → Bytes → Bool
  pub realm : Bytes

abbrev pub prefix : Bytes
prefix = codes "Basic "

-- The part of `AuthorizeInner` behind the decoding: the text up to the first colon, and behind it.
unfoldable pub check_decoded : BasicAuthHandler → Bytes → Bool
check_decoded handler decoded = elim (split_at b':' decoded) [
  | none ↦ false
  | some (username, password) ↦ handler.callback username password
]

-- `AuthorizeInner`, of the value of the `Authorization` header. A failed decoding is caught.
unfoldable pub authorize_inner : BasicAuthHandler → Option Bytes → Bool
unfolding check_decoded
authorize_inner handler none = false
authorize_inner handler (some header) =
    if not (has_prefix prefix header)
    then false
    else elim (base64_decode (drop (length prefix) header)) [
      | err e ↦ false
      | ok decoded ↦ check_decoded handler decoded
    ]

unfoldable pub write_unauthorized_response : BasicAuthHandler → Bytes
write_unauthorized_response handler =
    codes "HTTP/1.1 401 Unauthorized\r\n"
    ++ (codes "WWW-Authenticate: Basic realm=\""
        ++ (c_str handler.realm
            ++ (codes "\"\r\n"
                ++ (codes "Connection: close\r\n"
                    ++ (codes "Content-Length: 0\r\n" ++ codes "\r\n")))))

-- The answer, and what is printed.
unfoldable pub authorize : BasicAuthHandler → Option Bytes → Bool × Bytes
unfolding authorize_inner write_unauthorized_response
authorize handler header =
    if not (authorize_inner handler header)
    then (false, write_unauthorized_response handler)
    else (true, [])
