-- ===== src/Pull/Response/Framed.antt =====
-- What a client reads of a response.
use prometheus_cpp.Common.{
  ◌∷◌, true, [], ◌++◌, Option, none, some, some-injective, Bytes, ℕ, codes, length, is_empty,
  show_uint, has_prefix, has_prefix-append, append_of_has_prefix, Bool-cases, ◌≡◌, ◌≢◌, ◌⊎◌, ◌↔◌,
  inl, inr, refl, sym, ap, ◌∙◌, arith,
}
use prometheus_cpp.Pull.Response.{contains, is_encoding_accepted, write_response}

-- The header's value holds the word `gzip`.
pub record NamesGzip (accept_encoding : Option Bytes) : Type 0 where
  pub before : Bytes
  pub after : Bytes
  pub names : accept_encoding ≡ some (before ++ (codes "gzip" ++ after))

contains-parts :
    (part s : Bytes)
    → contains part s ≡ true
    → (before : Bytes) × (after : Bytes) × (s ≡ before ++ (part ++ after))
unfolding contains
contains-parts part [] h = ([], _, sym (append_of_has_prefix part [] h))
contains-parts part (c ∷ s) h = elim (Bool-cases (has_prefix part (c ∷ s))) [
  | inl q ↦ ([], _, sym (append_of_has_prefix part (c ∷ s) q))
  | inr q ↦
      let (before, after, e) = contains-parts part s (rw (contains, q) at h) in
      (c ∷ before, after, ap (◌∷◌ c) e)
]

contains-append : (part before after : Bytes) → contains part (before ++ (part ++ after)) ≡ true
unfolding contains
contains-append part [] after = starts (part ++ after) (has_prefix-append part after)
  where
    starts : (s : Bytes) → has_prefix part s ≡ true → contains part s ≡ true
    starts [] h = h
    starts (c ∷ s) h = rw (contains, h) refl
contains-append part (c ∷ before) after = ground (arith, contains-append part before after)

pub accepted_iff :
    (accept_encoding : Option Bytes)
    → (is_encoding_accepted accept_encoding (codes "gzip") ≡ true) ↔ NamesGzip accept_encoding
unfolding is_encoding_accepted
accepted_iff none = (λ h. ground arith, λ n. let e = n.names in ground arith)
accepted_iff (some s) = (
  λ h.
      let (before, after, e) = contains-parts (codes "gzip") s h in
      record { before = before; after = after; names = ap some e },
  λ n. rw (some-injective _ _ n.names) (contains-append (codes "gzip") n.before n.after),
)

-- A response: the status, the type of the content, its length, and behind a blank line as much as this length says: the text
-- itself, where the client does not name `gzip` or there is no compressed text; or else, with the line that says so, the
-- compressed text.
pub record IsResponse (accept_encoding : Option Bytes) (text packed sent : Bytes) (size : ℕ)
    : Type 0 where
  pub payload : Bytes
  pub encoding : Bytes
  pub framed :
      sent
      ≡ codes "HTTP/1.1 200 OK\r\nContent-Type: text/plain; charset=utf-8\r\n"
        ++ (encoding
            ++ (codes "Content-Length: "
                ++ (show_uint (length payload) ++ (codes "\r\n\r\n" ++ payload))))
  pub counted : size ≡ length payload
  pub content :
      ((payload ≡ text) × (encoding ≡ []) × ((NamesGzip accept_encoding → packed ≡ [])))
      ⊎ ((payload ≡ packed)
          × (encoding ≡ codes "Content-Encoding: gzip\r\n")
          × (packed ≢ [])
          × NamesGzip accept_encoding)

no_bytes : (s : Bytes) → is_empty s ≡ true → s ≡ []
no_bytes [] e = refl
no_bytes (c ∷ s) e = ground arith

write_response-IsResponse :
    (accept_encoding : Option Bytes) (packed text : Bytes)
    → let response = write_response accept_encoding packed text in
      IsResponse accept_encoding text packed response.0 response.1
unfolding write_response
write_response-IsResponse accept_encoding packed text =
    elim (Bool-cases (is_encoding_accepted accept_encoding (codes "gzip"))) [
      | inr q ↦ record {
        payload = text;
        encoding = [];
        framed = rw (write_response, q) refl;
        counted = rw (write_response, q) refl;
        content = inl (refl, refl, λ n. let y = (accepted_iff accept_encoding).1 n in ground arith);
      }
      | inl q ↦ elim (Bool-cases (is_empty packed)) [
        | inl e ↦ record {
          payload = text;
          encoding = [];
          framed = rw (write_response, q, e) refl;
          counted = rw (write_response, q, e) refl;
          content = inl (refl, refl, λ n. no_bytes packed e);
        }
        | inr e ↦ record {
          payload = packed;
          encoding = codes "Content-Encoding: gzip\r\n";
          framed = rw (write_response, q, e) refl;
          counted = rw (write_response, q, e) refl;
          content = inr (
            refl,
            refl,
            (λ z. let t : is_empty packed ≡ true = ap is_empty z in cc),
            (accepted_iff accept_encoding).0 q,
          );
        }
      ]
    ]

pub sent-IsResponse :
    (accept_encoding : Option Bytes) (packed text sent : Bytes)
    → sent ≡ (write_response accept_encoding packed text).0
    → IsResponse accept_encoding text packed sent (write_response accept_encoding packed text).1
sent-IsResponse accept_encoding packed text sent e =
    let answer = write_response-IsResponse accept_encoding packed text in
    record {
      payload = answer.payload;
      encoding = answer.encoding;
      framed = e ∙ answer.framed;
      counted = answer.counted;
      content = answer.content;
    }
