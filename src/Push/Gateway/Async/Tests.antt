-- ===== src/Push/Gateway/Async/Tests.antt =====
-- Two requests, of which the second one is made first and fails.
use prometheus_cpp.Common.{true, List, [], ◌∷◌, map, codes, none, ℤ, pos, ◌≡◌, refl}
use mathlib.Core.List.{Perm}
use prometheus_cpp.Push.CurlWrapper.{put}
use prometheus_cpp.Push.CurlWrapper.Sample.{Recorder, recorder, recorder_with}
use prometheus_cpp.Push.Gateway.{Gateway}
use prometheus_cpp.Push.Gateway.Async.{
  Request, waiting, finished, State, started, perform, at, Reach, here, next, reduce_futures,
}
use prometheus_cpp.Push.Gateway.Async.Complete.{
  answers, statuses, Performed, LastFailure, Reach-complete,
}

abbrev gateway : Gateway Recorder
gateway = record {
  job_uri = [];
  labels = [];
  curl_wrapper = record { opt_http_header = []; presetup_curl = none };
  collectables = [];
}

abbrev first : Request
first = record { method = put; uri = codes "u"; body = codes "b" }

abbrev second : Request
second = record { method = put; uri = codes "v"; body = codes "c" }

abbrev start : Recorder
start = recorder_with true (500 ∷ 200 ∷ [])

abbrev middle : State Recorder
middle = record {
  tasks = waiting first ∷ finished second (perform recorder gateway second start).0 ∷ [];
  curl_state = (perform recorder gateway second start).1;
}

abbrev end : State Recorder
end = record {
  tasks =
      finished first (perform recorder gateway first middle.curl_state).0
      ∷ finished second (perform recorder gateway second start).0
      ∷ [];
  curl_state = (perform recorder gateway first middle.curl_state).1;
}

run : Reach recorder gateway (started (first ∷ second ∷ []) start) 2 end
run =
    next (next here (at (waiting first ∷ []) [] second refl refl))
      (at [] (finished second (perform recorder gateway second start).0 ∷ []) first refl refl)

Reach-complete_example :
    (log : List (Request × ℤ)) × Performed recorder gateway start log end.curl_state
    × Perm log (answers end.tasks)
    × (map (λ a. a.0) (answers end.tasks) ≡ first ∷ second ∷ [])
    × LastFailure (pos 200) (statuses end.tasks) (reduce_futures (statuses end.tasks))
Reach-complete_example =
    Reach-complete recorder gateway (first ∷ second ∷ []) start run (tt, (tt, tt))
