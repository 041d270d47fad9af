-- ===== src/Push/Gateway/Tests.antt =====
-- A gateway with three collectables, of which the second one is expired.
use prometheus_cpp.Common.{
  ℕ, ℤ, length, true, List, [], ◌∷◌, ◌++◌, Option, some, none, codes, Bytes, pos, ok, ◌≡◌, ◌↔◌, ◌⊎◌,
  refl, arith,
}
use prometheus_cpp.Double.Sample.{number_double}
use prometheus_cpp.Core.Collectable.Registries.{registries, collect_shared}
use prometheus_cpp.Core.Collectable.Sample.{program, print_number}
use prometheus_cpp.Core.TextSerializer.{serialize}
use prometheus_cpp.Push.LabelEncoder.{encode_label}
use prometheus_cpp.Push.CurlWrapper.{put, content_type}
use prometheus_cpp.Push.CurlWrapper
use prometheus_cpp.Push.CurlWrapper.Sample.{Recorder, recorder, recorder_with}
use prometheus_cpp.Push.Gateway.{
  CollectableEntry, Gateway, make, get_uri, push, push_loop, encode_labels,
}
use prometheus_cpp.Push.Gateway.Sent.{Sent, StopsAt, push_iff}
use prometheus_cpp.Push.Gateway.Async.{Request, State, started, Reach, future_value, async_push}
use prometheus_cpp.Push.Gateway.Async.Agrees.{push-async}
use prometheus_cpp.Push.Gateway.Uri.{base, read_path, read_path-get_uri}

abbrev entry : ℕ → CollectableEntry
entry n = record { collectable = n; path = [] }

-- As its constructor makes it.
abbrev new_gateway : Gateway Recorder
new_gateway = record {
  job_uri = codes "h:1/metrics/job/j";
  labels = [];
  curl_wrapper = record { opt_http_header = content_type ∷ []; presetup_curl = none };
  collectables = [];
}

abbrev gateway : Gateway Recorder
gateway = record new_gateway { collectables = entry 1 ∷ entry 2 ∷ entry 3 ∷ [] }

made : (make recorder (codes "h:1") none (codes "j") [] (recorder_with true [])).0 ≡ ok new_gateway
unfolding make CurlWrapper.make encode_label
made = refl

-- The status of a push and the number of requests, where the second request fails, and where both succeed.
abbrev pushed : List ℕ → Option (ℤ × ℕ)
unfolding push_loop
pushed responses =
    elim (push registries print_number recorder put gateway program
      (recorder_with true responses)) [
        | none ↦ none
        | some (status, w, h) ↦ some (status, length h.performed)
      ]

statuses :
    (pushed (200 ∷ 500 ∷ []) ≡ some (pos 500, 2))
    × (pushed (500 ∷ 200 ∷ []) ≡ some (pos 500, 1))
    × (pushed (200 ∷ 202 ∷ []) ≡ some (pos 200, 2))
unfolding pushed push_loop collect_shared CurlWrapper.perform_http_request CurlWrapper.prepare
    serialize
statuses = (refl, refl, refl)

-- The states of a push with two successes.
abbrev both_sent : Recorder
unfolding push_loop
both_sent =
    elim (push registries print_number recorder put gateway program
      (recorder_with true (200 ∷ 202 ∷ []))) [
        | none ↦ recorder_with true []
        | some (status, w, h) ↦ h
      ]

push_iff_example :
    (push registries print_number recorder put gateway program (recorder_with true (200 ∷ 202 ∷ []))
      ≡ some (pos 200, program, both_sent))
    ↔ (((pos 200 ≡ pos 200)
          × Sent registries print_number recorder put gateway
              (entry 1 ∷ entry 2 ∷ entry 3 ∷ [])
              program
              (recorder_with true (200 ∷ 202 ∷ []))
              program
              both_sent)
        ⊎ StopsAt registries print_number recorder put gateway
            (entry 1 ∷ entry 2 ∷ entry 3 ∷ [])
            program
            (recorder_with true (200 ∷ 202 ∷ []))
            (pos 200)
            program
            both_sent)
push_iff_example =
    push_iff registries print_number recorder put gateway program program
      (recorder_with true (200 ∷ 202 ∷ [])) both_sent (pos 200)

read_path-get_uri_example :
    (path : Bytes) × (get_uri new_gateway
        (record { collectable = 1; path = encode_labels ((codes "k", codes "a/b") ∷ []) })
      ≡ base (codes "h:1") ++ (codes "metrics" ++ path))
    × (read_path path ≡ some ((codes "job", codes "j") ∷ (codes "k", codes "a/b") ∷ []))
unfolding make CurlWrapper.make encode_label
read_path-get_uri_example =
    read_path-get_uri recorder none (codes "h:1") (codes "j") [] ((codes "k", codes "a/b") ∷ [])
      (recorder_with true [])
      (make recorder (codes "h:1") none (codes "j") [] (recorder_with true [])).1 new_gateway 1 refl
      (omega arith) tt (omega arith)

push-async_example :
    (requests : List Request) × (async_push registries print_number put gateway program
        (recorder_with true (200 ∷ 202 ∷ []))
      ≡ some (started requests (recorder_with true (200 ∷ 202 ∷ [])), program))
    × (t : State Recorder) × Reach recorder gateway
        (started requests (recorder_with true (200 ∷ 202 ∷ [])))
        (length requests)
        t
    × (t.curl_state ≡ both_sent)
    × (future_value t ≡ some (pos 200))
unfolding push_loop collect_shared CurlWrapper.perform_http_request CurlWrapper.prepare serialize
push-async_example =
    push-async registries print_number recorder put gateway program program
      (recorder_with true (200 ∷ 202 ∷ [])) both_sent refl
