-- ===== src/Push/Gateway.antt =====
-- push/src/gateway.cc and push/include/prometheus/gateway.h, over the curl wrapper and the label encoder. A call that
-- walks through the collectables holds the mutex throughout.
pub mod Uri
pub mod Sent
pub mod Async
pub mod Calls
mod Tests
use prometheus_cpp.Common.{
  ℕ, Bool, true, false, not, ◌&&◌, ◌||◌, List, [], ◌∷◌, ◌++◌, Option, none, some, ◌>>=?◌, Bytes,
  codes, c_str, is_empty, if◌then◌else◌, ◌==◌, remove_if, ℤ, pos, ltb_ℤ, leb_ℤ, Result, ok, err,
}
use prometheus_cpp.Double.{Double}
use prometheus_cpp.Core.Labels.{Label, Labels}
use prometheus_cpp.Core.ClientMetric.{MetricFamily}
use prometheus_cpp.Core.Collectable.{Collectables}
use prometheus_cpp.Core.TextSerializer.{serialize}
use prometheus_cpp.Push.LabelEncoder.{encode_label}
use prometheus_cpp.Push.CurlWrapper.{
  HttpMethod, post, put, delete, Setting, http_auth_basic, user_pwd, timeout, Curl, CurlWrapper,
  perform_http_request, add_http_header,
}
use prometheus_cpp.Push.CurlWrapper

-- `CollectableEntry`: a weak pointer and the path of its labels.
pub record CollectableEntry : Type 0 where
  pub collectable : ℕ
  pub path : Bytes

pub record Gateway (H : Type 0) : Type 0 where
  pub job_uri : Bytes
  pub labels : Bytes
  pub curl_wrapper : CurlWrapper H
  pub collectables : List CollectableEntry

-- `SetupAdapter`: its constructor's `auth_`, and its call.
abbrev pub auth : Bytes → Bytes → Bytes
auth username password = if not (is_empty username) then username ++ (codes ":" ++ password) else []

unfoldable pub setup_adapter : {H : Type 0} → Curl H → Bytes → Bytes → ℕ → H → H
setup_adapter curl username password seconds h =
    let authorized =
      if not (is_empty (auth username password))
      then curl.setopt (user_pwd (c_str (auth username password))) (curl.setopt http_auth_basic h)
      else h in
    curl.setopt (timeout seconds) authorized

abbrev pub concatenate : Bytes → Bytes → Bytes
concatenate host port = host ++ (codes ":" ++ port)

-- Whether the last byte is a slash.
abbrev pub ends_in_slash : Bytes → Bool
ends_in_slash [] = false
ends_in_slash (c ∷ []) = c == b'/'
ends_in_slash (c ∷ e ∷ s) = ends_in_slash (e ∷ s)

-- The loop that encodes labels into a stream.
unfoldable pub encode_labels : Labels → Bytes
encode_labels [] = []
encode_labels (label ∷ labels) = encode_label label ++ encode_labels labels

unfoldable pub job_uri_of : Bytes → Bytes → Bytes
job_uri_of url jobname =
    url
    ++ ((if not (is_empty url) && not (ends_in_slash url) then codes "/" else [])
        ++ (codes "metrics" ++ encode_label (codes "job", jobname)))

abbrev pub get_instance_label : Bytes → Labels
get_instance_label hostname = if is_empty hostname then [] else (codes "instance", hostname) ∷ []

-- `getUri`.
abbrev pub get_uri : {H : Type 0} → Gateway H → CollectableEntry → Bytes
get_uri g entry = g.job_uri ++ (g.labels ++ entry.path)

-- A status that is no success.
abbrev pub is_failure : ℤ → Bool
is_failure status_code = ltb_ℤ status_code (pos 100) || leb_ℤ (pos 400) status_code

module _ {H : Type 0} (curl : Curl H) where
  -- The third constructor; the first two build the URL and the set-up for it.
  unfoldable pub make_gateway :
      Result (CurlWrapper H) × H → Bytes → Bytes → Labels → Result (Gateway H) × H
  unfolding job_uri_of encode_labels
  make_gateway (err e, h) url jobname labels = (err e, h)
  make_gateway (ok w, h) url jobname labels = (
    ok (record {
      job_uri = job_uri_of url jobname;
      labels = encode_labels labels;
      curl_wrapper = w;
      collectables = [];
    }),
    h,
  )

  unfoldable pub make : Bytes → Option (H → H) → Bytes → Labels → H → Result (Gateway H) × H
  unfolding make_gateway
  make url presetup_curl jobname labels h =
      make_gateway (CurlWrapper.make curl presetup_curl h) url jobname labels

  abbrev pub make_host :
      Bytes → Bytes → Option (H → H) → Bytes → Labels → H → Result (Gateway H) × H
  make_host host port presetup_curl jobname labels h =
      make (concatenate host port) presetup_curl jobname labels h

  abbrev pub make_login :
      Bytes → Bytes → Bytes → Labels → Bytes → Bytes → ℕ → H → Result (Gateway H) × H
  make_login host port jobname labels username password seconds h =
      make_host host port (some (setup_adapter curl username password seconds)) jobname labels h

  unfoldable pub delete_job : Gateway H → H → ℤ × H
  delete_job g h = perform_http_request curl delete g.job_uri [] g.curl_wrapper h

  unfoldable pub delete_for_instance : Gateway H → H → ℤ × H
  delete_for_instance g h =
      perform_http_request curl delete (g.job_uri ++ g.labels) [] g.curl_wrapper h

  -- `AddHttpHeader`.
  unfoldable pub add_header : Bytes → Gateway H → H → Bool × Gateway H × H
  add_header header g h =
      let (added, w, h') = add_http_header curl header g.curl_wrapper h in
      (added, record g { curl_wrapper = w }, h')

module _ {W D : Type 0} (c : Collectables W D) where
  abbrev pub cleanup_stale_pointers : List CollectableEntry → W → List CollectableEntry
  cleanup_stale_pointers entries w = remove_if (λ e. not (c.alive e.collectable w)) entries

module _ {W D H : Type 0} ⦃d : Double D⦄ (c : Collectables W D) where
  -- A null pointer to labels is the empty list of them.
  unfoldable pub register_collectable : ℕ → Labels → Gateway H → W → Gateway H
  unfolding encode_labels
  register_collectable collectable labels g w = record g {
    collectables =
        cleanup_stale_pointers c g.collectables w
        ++ record { collectable = collectable; path = encode_labels labels } ∷ [];
  }

  module _ (print : D → Bytes) (curl : Curl H) (method : HttpMethod) (g : Gateway H) where
    abbrev pub request : CollectableEntry → List (MetricFamily D) → H → ℤ × H
    request e metrics h =
        perform_http_request curl method (get_uri g e) (serialize print metrics) g.curl_wrapper h

    -- The loop of `push`.
    unfoldable pub push_loop : List CollectableEntry → W → H → Option (ℤ × W × H)
    push_loop [] w h = some (pos 200, w, h)
    push_loop (e ∷ entries) w h = elim (c.alive e.collectable w) [
      | false ↦ push_loop entries w h
      | true ↦ c.collect e.collectable w >>=? λ (metrics, w').
          let (status_code, h') = request e metrics h in
          let rest = push_loop entries w' h' in
          if is_failure status_code then some (status_code, w', h') else rest
    ]

    abbrev pub push : W → H → Option (ℤ × W × H)
    push w h = push_loop g.collectables w h
