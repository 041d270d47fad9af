-- ===== src/Push/CurlWrapper/Tests.antt =====
-- Two requests and a constructor without memory, of the recording libcurl.
use prometheus_cpp.Common.{
  true, false, [], ◌∷◌, ◌++◌, none, some, codes, c_str, pos, negsuc, ◌≡◌, refl,
}
use prometheus_cpp.Push.CurlWrapper.{
  put, CurlWrapper, url, http_header, timeout, content_type, prepare, perform_http_request, make,
}
use prometheus_cpp.Push.CurlWrapper.Isolated.{body_settings, method_settings, prepare-options}
use prometheus_cpp.Push.CurlWrapper.Held.{Outcome, make-Outcome}
use prometheus_cpp.Push.CurlWrapper.Sample.{
  Recorder, recorder, recorder_with, recorder-Remembers, recorder-Tracks,
}

abbrev wrapper : CurlWrapper Recorder
wrapper = record {
  opt_http_header = content_type ∷ [];
  presetup_curl = some (recorder.setopt (timeout 5));
}

-- The first request is answered with 202; there is no answer to the second one.
two_requests :
    let (status, h) =
      perform_http_request recorder put
        (codes "u")
        (codes "b")
        wrapper
        (recorder_with true (202 ∷ [])) in
    (status ≡ pos 202) × ((perform_http_request recorder put (codes "v") [] wrapper h).0 ≡ negsuc 6)
unfolding perform_http_request prepare
two_requests = (refl, refl)

prepare-options_example :
    (prepare recorder put (codes "u") (codes "b") wrapper (recorder_with true [])).settings
    ≡ (url (codes "u") ∷ http_header (content_type ∷ []) ∷ timeout 5 ∷ [])
      ++ (body_settings (codes "b") ++ method_settings put)
unfolding c_str
prepare-options_example =
    prepare-options recorder (λ h. h.settings) recorder-Remembers put (codes "u") (codes "b")
      wrapper (recorder_with true []) (timeout 5 ∷ []) (λ k. refl)

make-Outcome_example :
    Outcome recorder
      (λ h. h.held)
      recorder-Tracks
      none
      (recorder_with false [])
      (make recorder none (recorder_with false []))
make-Outcome_example =
    make-Outcome recorder (λ h. h.held) recorder-Tracks none (recorder_with false []) (λ k. refl)
