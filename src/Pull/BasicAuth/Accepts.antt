-- ===== src/Pull/BasicAuth/Accepts.antt =====
-- Which requests the handler lets through.
use prometheus_cpp.Common.{
  [], ◌≡◌, ◌⊎◌, Error, refl, sym, ap, ◌∙◌, ◌↔◌, true, false, ◌++◌, ◌∷◌, Option, none, some, Bytes,
  length, drop, has_prefix, has_prefix-append, append_of_has_prefix, split_at, split_at-append,
  split_at-some, ok, err, Result, Lacks, All, codes, c_str, inl, inr, Bool-cases, Option-cases,
  arith,
}
use prometheus_cpp.Util.Base64.{base64_encode, base64_decode}
use prometheus_cpp.Util.Base64.RoundTrip.{IsByte, decode-encode}
use prometheus_cpp.Pull.BasicAuth.{
  BasicAuthHandler, prefix, check_decoded, authorize_inner, authorize, write_unauthorized_response,
}

-- A header that names a user and a password that the callback accepts.
pub record Admits (handler : BasicAuthHandler) (header : Option Bytes) : Type 0 where
  pub username : Bytes
  pub password : Bytes
  pub encoded : Bytes
  pub given : header ≡ some (prefix ++ encoded)
  pub decodes : base64_decode encoded ≡ ok (username ++ b':' ∷ password)
  pub no_colon : Lacks b':' username
  pub accepted : handler.callback username password ≡ true

inner-decoded :
    (handler : BasicAuthHandler) (encoded decoded : Bytes)
    → base64_decode encoded ≡ ok decoded
    → authorize_inner handler (some (prefix ++ encoded)) ≡ check_decoded handler decoded
unfolding authorize_inner
inner-decoded handler encoded decoded h = rw (has_prefix-append prefix encoded, h) refl

check_decoded-split :
    (handler : BasicAuthHandler) (username password : Bytes)
    → Lacks b':' username
    → check_decoded handler (username ++ b':' ∷ password) ≡ handler.callback username password
unfolding check_decoded
check_decoded-split handler username password h =
    rw (split_at-append b':' username password h, check_decoded) refl

check_decoded-true :
    (handler : BasicAuthHandler) (decoded : Bytes)
    → check_decoded handler decoded ≡ true
    → (username : Bytes) × (password : Bytes) × (decoded ≡ username ++ b':' ∷ password)
      × Lacks b':' username
      × (handler.callback username password ≡ true)
unfolding check_decoded
check_decoded-true handler decoded h = elim (Option-cases (split_at b':' decoded)) [
  | inl q ↦ ground arith
  | inr ((u, p), q) ↦
      let parts = split_at-some b':' decoded u p q in
      (u, p, parts.0, parts.1, rw (q, check_decoded) at h)
]

result_cases : (r : Result Bytes) → ((b : Bytes) × (r ≡ ok b)) ⊎ ((e : Error) × (r ≡ err e))
result_cases (ok b) = inl (b, refl)
result_cases (err e) = inr (e, refl)

inner-no_prefix :
    (handler : BasicAuthHandler) (s : Bytes)
    → has_prefix prefix s ≡ false
    → authorize_inner handler (some s) ≡ false
unfolding authorize_inner
inner-no_prefix handler s h = rw (h, authorize_inner) refl

inner_undecoded :
    (handler : BasicAuthHandler) (encoded : Bytes) (e : Error)
    → base64_decode encoded ≡ err e
    → authorize_inner handler (some (prefix ++ encoded)) ≡ false
unfolding authorize_inner
inner_undecoded handler encoded e h = rw (has_prefix-append prefix encoded, h) refl

prefixed-Admits :
    (handler : BasicAuthHandler) (encoded : Bytes)
    → authorize_inner handler (some (prefix ++ encoded)) ≡ true
    → Admits handler (some (prefix ++ encoded))
prefixed-Admits handler encoded h = elim (result_cases (base64_decode encoded)) [
  | inr (e, q) ↦ let no = sym (inner_undecoded handler encoded e q) ∙ h in cc
  | inl (decoded, q) ↦
      let (u, p, parts, colon, yes_) =
        check_decoded-true handler decoded (sym (inner-decoded handler encoded decoded q) ∙ h) in
      record {
        username = u;
        password = p;
        encoded = encoded;
        given = refl;
        decodes = q ∙ ap ok parts;
        no_colon = colon;
        accepted = yes_;
      }
]

inner-Admits :
    (handler : BasicAuthHandler) (header : Option Bytes)
    → authorize_inner handler header ≡ true
    → Admits handler header
unfolding authorize_inner
inner-Admits handler none h = ground arith
inner-Admits handler (some s) h = elim (Bool-cases (has_prefix prefix s)) [
  | inl q ↦
      let whole = append_of_has_prefix prefix s q in
      rw (sym whole) (prefixed-Admits handler (drop (length prefix) s) (rw (sym whole) at h))
  | inr q ↦ let no = sym (inner-no_prefix handler s q) ∙ h in cc
]

Admits-inner :
    (handler : BasicAuthHandler) (header : Option Bytes)
    → Admits handler header
    → authorize_inner handler header ≡ true
Admits-inner handler header a = rw (a.given) (
    inner-decoded handler a.encoded _ a.decodes
    ∙ check_decoded-split handler a.username a.password a.no_colon
    ∙ a.accepted)

-- The response that asks for a user name and a password.
abbrev pub response_401 : BasicAuthHandler → Bytes
response_401 handler =
    codes "HTTP/1.1 401 Unauthorized\r\nWWW-Authenticate: Basic realm=\""
    ++ (c_str handler.realm ++ codes "\"\r\nConnection: close\r\nContent-Length: 0\r\n\r\n")

-- The answer is that of the inner call, and with it comes what is printed.
authorize-inner :
    (handler : BasicAuthHandler) (header : Option Bytes)
    → ((authorize handler header).0 ≡ authorize_inner handler header)
      × ((authorize handler header ≡ (true, []))
          ⊎ (authorize handler header ≡ (false, response_401 handler)))
unfolding authorize write_unauthorized_response
authorize-inner handler header = elim (Bool-cases (authorize_inner handler header)) [
  | inl q ↦ rw (q) (refl, inl refl)
  | inr q ↦ rw (q) (refl, inr refl)
]

-- The answer to a request is `true` exactly when it has an `Authorization` header `Basic` with a valid base64 text that
-- decodes to a user name without a colon, a colon, and a password, and the callback accepts this name and this password. With
-- the answer `true` nothing is printed, and with the only other answer, `false`, the response 401 with the realm.
pub authorize_iff :
    (handler : BasicAuthHandler) (header : Option Bytes)
    → (((authorize handler header).0 ≡ true) ↔ Admits handler header)
      × ((authorize handler header ≡ (true, []))
          ⊎ (authorize handler header ≡ (false, response_401 handler)))
authorize_iff handler header =
    let (same, printed) = authorize-inner handler header in
    (
      (λ h. inner-Admits handler header (sym same ∙ h), λ a. same ∙ Admits-inner handler header a),
      printed,
    )

-- A client that sends the base64 encoding of its name, a colon and its password gets the callback's answer about
-- just these. The hypotheses: they are texts of bytes, and the name has no colon.
pub authorize-encode :
    (handler : BasicAuthHandler) (username password : Bytes)
    → Lacks b':' username
    → All IsByte (username ++ b':' ∷ password)
    → (authorize handler (some (prefix ++ base64_encode (username ++ b':' ∷ password)))).0
      ≡ handler.callback username password
unfolding authorize
authorize-encode handler username password h b =
    let inner =
      inner-decoded handler (base64_encode (username ++ b':' ∷ password)) _
        (decode-encode (username ++ b':' ∷ password) b)
      ∙ check_decoded-split handler username password h in
    ground arith
