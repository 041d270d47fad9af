-- ===== src/Push/LabelEncoder.antt =====
-- push/src/detail/label_encoder.cc: a label as a segment of the push gateway's URL.
pub mod RoundTrip
mod Tests
use prometheus_cpp.Common.{
  ℕ, Bool, true, false, ◌&&◌, ◌||◌, ◌++◌, Bytes, codes, leb, ◌==◌, if◌then◌else◌, is_empty, any_of,
}
use prometheus_cpp.Core.Labels.{Label}
use prometheus_cpp.Util.Base64.{base64url_encode}

pub needs_encoding : ℕ → Bool
needs_encoding c =
    if leb b'a' c && leb c b'z'
    then false
    else if leb b'A' c && leb c b'Z'
    then false
    else if leb b'0' c && leb c b'9'
    then false
    else if c == b'-' || c == b'.' || c == b'_' || c == b'~'
    then false
    else true

-- What is written to the stream.
unfoldable pub encode_label : Label → Bytes
unfolding needs_encoding
encode_label (name, value) =
    if is_empty value
    then codes "/" ++ (name ++ codes "@base64/=")
    else if any_of needs_encoding value
    then codes "/" ++ (name ++ (codes "@base64/" ++ base64url_encode value))
    else codes "/" ++ (name ++ (codes "/" ++ value))
