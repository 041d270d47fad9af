-- ===== src/Push/Gateway/Uri.antt =====
-- The URIs of requests are read back, as the push gateway documents them: behind `metrics`, the job and the labels as
-- pairs of path segments.
use prometheus_cpp.Common.{
  ℕ, not, ◌&&◌, List, [], ◌∷◌, ◌++◌, append_assoc, append-nil, Option, none, some, ◌>>=?◌, Bytes,
  codes, is_empty, ◌==◌, if◌then◌else◌, Result, ok, err, ◌≡◌, ◌⊎◌, inl, inr, refl, sym, ap, ◌∙◌,
  Lacks, All, All-append, arith,
}
use prometheus_cpp.Core.Labels.{Label, Labels}
use prometheus_cpp.Util.Base64.RoundTrip.{IsByte}
use prometheus_cpp.Push.LabelEncoder.{encode_label}
use prometheus_cpp.Push.LabelEncoder.RoundTrip.{
  label_of, decode_label, decode_path, decode-encode_label, InPath, encode_label-InPath,
}
use prometheus_cpp.Push.CurlWrapper.{Curl, CurlWrapper}
use prometheus_cpp.Push.CurlWrapper
use prometheus_cpp.Push.Gateway.{
  Gateway, encode_labels, job_uri_of, ends_in_slash, get_uri, make, make_gateway,
}

-- The pieces of a text between slashes.
abbrev cons_first : ℕ → List Bytes → List Bytes
cons_first c [] = (c ∷ []) ∷ []
cons_first c (s ∷ rest) = (c ∷ s) ∷ rest

unfoldable pub segments : Bytes → List Bytes
segments [] = [] ∷ []
segments (c ∷ s) = if c == b'/' then [] ∷ segments s else cons_first c (segments s)

unfoldable pub read_pairs : List Bytes → Option Labels
unfolding label_of
read_pairs [] = some []
read_pairs (key ∷ []) = none
read_pairs (key ∷ value ∷ rest) =
    label_of key value >>=? λ label. read_pairs rest >>=? λ labels. some (label ∷ labels)

-- The labels of a path.
unfoldable pub read_path : Bytes → Option Labels
unfolding segments read_pairs
read_path [] = some []
read_path (c ∷ s) = if c == b'/' then read_pairs (segments s) else none

-- A label that a path can hold: its name has no slash and no `@`.
abbrev pub IsEncodable : Label → Type 0
IsEncodable l = Lacks b'/' l.0 × Lacks b'@' l.0 × All IsByte l.1

segments-append : (a s : Bytes) → Lacks b'/' a → segments (a ++ b'/' ∷ s) ≡ a ∷ segments s
unfolding segments
segments-append [] s h = refl
segments-append (c ∷ a) s h = ground (arith, segments-append a s h.1)

segments-Lacks : (a : Bytes) → Lacks b'/' a → segments a ≡ a ∷ []
unfolding segments
segments-Lacks [] h = refl
segments-Lacks (c ∷ a) h = ground (arith, segments-Lacks a h.1)

no_slash : (s : Bytes) → All InPath s → Lacks b'/' s
no_slash [] h = tt
no_slash (c ∷ s) h = ground (arith, no_slash s h.1)

-- A label's path, taken apart.
record Encoded (l : Label) : Type 0 where
  key : Bytes
  segment : Bytes
  whole : encode_label l ≡ b'/' ∷ (key ++ b'/' ∷ segment)
  key_plain : Lacks b'/' key
  segment_plain : Lacks b'/' segment
  read : label_of key segment ≡ some l

key-Lacks :
    (name key : Bytes)
    → Lacks b'/' name
    → (key ≡ name) ⊎ (key ≡ name ++ codes "@base64")
    → Lacks b'/' key
key-Lacks name key h (inl e) = rw (e) h
key-Lacks name key h (inr e) = rw (e) (All-append _ name (codes "@base64") h (omega arith))

encode_label-Encoded : (l : Label) → IsEncodable l → Encoded l
encode_label-Encoded (name, value) h =
    let (key, segment, whole, marked, plain) = encode_label-InPath name value in
    let key_plain = key-Lacks name key h.0 marked in
    record {
      key = key;
      segment = segment;
      whole = whole;
      key_plain = key_plain;
      segment_plain = no_slash segment plain;
      read =
          sym (decode_path key segment key_plain)
          ∙ ap decode_label (sym whole)
          ∙ (decode-encode_label name value h.0 h.1 h.2).0;
    }

read_path-slash : (s : Bytes) → read_path (b'/' ∷ s) ≡ read_pairs (segments s)
unfolding read_path
read_path-slash s = refl

-- In front of more labels, or of nothing.
segments-encode_labels :
    (segment : Bytes) (labels : Labels)
    → All IsEncodable labels
    → Lacks b'/' segment
    → read_path (encode_labels labels) ≡ some labels
    → (rest : List Bytes) × (segments (segment ++ encode_labels labels) ≡ segment ∷ rest)
      × (read_pairs rest ≡ some labels)
unfolding encode_labels
segments-encode_labels segment [] a h r =
    ([], rw (append-nil segment) (segments-Lacks segment h), unfold read_pairs in refl)
segments-encode_labels segment (l ∷ labels) a h r =
    let e = encode_label-Encoded l a.0 in
    let path = (e.key ++ b'/' ∷ e.segment) ++ encode_labels labels in
    let starts : encode_labels (l ∷ labels) ≡ b'/' ∷ path =
      ap (λ s. s ++ encode_labels labels) e.whole in
    (
      segments path,
      ap (λ s. segments (segment ++ s)) starts ∙ segments-append segment path h,
      sym (read_path-slash path) ∙ ap read_path (sym starts) ∙ r,
    )

read_pairs-found :
    (key value : Bytes) (rest : List Bytes) (label : Label) (labels : Labels)
    → label_of key value ≡ some label
    → read_pairs rest ≡ some labels
    → read_pairs (key ∷ value ∷ rest) ≡ some (label ∷ labels)
unfolding read_pairs
read_pairs-found key value rest label labels h r = rw (read_pairs, h, r) refl

read_path-encode_labels :
    (labels : Labels) → All IsEncodable labels → read_path (encode_labels labels) ≡ some labels
unfolding encode_labels
read_path-encode_labels [] a = unfold read_path in refl
read_path-encode_labels (l ∷ labels) a =
    let ih = read_path-encode_labels labels a.1 in
    let e = encode_label-Encoded l a.0 in
    let (rest, cut, later) = segments-encode_labels e.segment labels a.1 e.segment_plain ih in
    let whole : encode_label l ++ encode_labels labels
        ≡ b'/' ∷ (e.key ++ b'/' ∷ (e.segment ++ encode_labels labels)) =
      ap (λ s. s ++ encode_labels labels) e.whole
      ∙ ap (◌∷◌ b'/') (append_assoc e.key (b'/' ∷ e.segment) (encode_labels labels)) in
    let pieces : segments (e.key ++ b'/' ∷ (e.segment ++ encode_labels labels))
        ≡ e.key ∷ e.segment ∷ rest =
      segments-append e.key (e.segment ++ encode_labels labels) e.key_plain ∙ ap (◌∷◌ e.key) cut in
    ap read_path whole
    ∙ read_path-slash (e.key ++ b'/' ∷ (e.segment ++ encode_labels labels))
    ∙ ap read_pairs pieces
    ∙ read_pairs-found e.key e.segment rest l labels e.read later

encode_labels-append : (a b : Labels) → encode_labels (a ++ b) ≡ encode_labels a ++ encode_labels b
unfolding encode_labels
encode_labels-append [] b = refl
encode_labels-append (l ∷ a) b =
    ap (λ s. encode_label l ++ s) (encode_labels-append a b)
    ∙ sym (append_assoc (encode_label l) (encode_labels a) (encode_labels b))

regroup :
    (a b m j l e : Bytes) → (a ++ (b ++ (m ++ j))) ++ (l ++ e) ≡ (a ++ b) ++ (m ++ (j ++ (l ++ e)))
regroup a b m j l e = simp append_assoc

-- The URL in front of `metrics`: with a slash at its end, unless it is empty.
abbrev pub base : Bytes → Bytes
base url = url ++ (if not (is_empty url) && not (ends_in_slash url) then codes "/" else [])

joined :
    (url jobname : Bytes) (labels extra : Labels)
    → job_uri_of url jobname ++ (encode_labels labels ++ encode_labels extra)
      ≡ base url ++ (codes "metrics" ++ encode_labels ((codes "job", jobname) ∷ (labels ++ extra)))
unfolding job_uri_of encode_labels
joined url jobname labels extra =
    regroup url (if not (is_empty url) && not (ends_in_slash url) then codes "/" else [])
      (codes "metrics") (encode_label (codes "job", jobname)) (encode_labels labels)
      (encode_labels extra)
    ∙ ap (λ s. base url ++ (codes "metrics" ++ (encode_label (codes "job", jobname) ++ s)))
        (sym (encode_labels-append labels extra))

module _ {H : Type 0} (curl : Curl H) where
  made :
      (r : Result (CurlWrapper H) × H) (url jobname : Bytes) (labels : Labels) (g : Gateway H)
      (h' : H)
      → make_gateway curl r url jobname labels ≡ (ok g, h')
      → (g.job_uri ≡ job_uri_of url jobname) × (g.labels ≡ encode_labels labels)
  unfolding make_gateway
  made (ok w, h) url jobname labels g h' q = ground arith
  made (err e, h) url jobname labels g h' q = ground arith

  -- The URI to which a gateway sends a collectable's text is the URL, `metrics`, and a path from which the job, the
  -- gateway's labels and the labels of the registration are read back, in this order, whatever bytes their values
  -- hold. The hypotheses: the constructor returned; the names of all these labels have no slash and no `@` (as no valid
  -- label name does), and the values and the job's name are texts of bytes.
  pub read_path-get_uri :
      (presetup_curl : Option (H → H)) (url jobname : Bytes) (labels extra : Labels) (h h' : H)
      (g : Gateway H) (collectable : ℕ)
      → make curl url presetup_curl jobname labels h ≡ (ok g, h')
      → All IsByte jobname
      → All IsEncodable labels
      → All IsEncodable extra
      → (path : Bytes) × (get_uri g
            (record { collectable = collectable; path = encode_labels extra })
          ≡ base url ++ (codes "metrics" ++ path))
        × (read_path path ≡ some ((codes "job", jobname) ∷ (labels ++ extra)))
  unfolding make
  read_path-get_uri presetup_curl url jobname labels extra h h' g collectable q j l e =
      let (job, of_labels) =
        made (CurlWrapper.make curl presetup_curl h) url jobname labels g h' q in
      let all : Labels = (codes "job", jobname) ∷ (labels ++ extra) in
      (
        encode_labels all,
        ap (λ s. s ++ (g.labels ++ encode_labels extra)) job
            ∙ ap (λ s. job_uri_of url jobname ++ (s ++ encode_labels extra)) of_labels
            ∙ joined url jobname labels extra,
        read_path-encode_labels all ((omega arith, omega arith, j), All-append _ labels extra l e),
      )
