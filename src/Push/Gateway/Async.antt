-- ===== src/Push/Gateway/Async.antt =====
-- `async_push` in push/src/gateway.cc: the requests of its loop, the tasks of `std::async` as a step relation (the curl
-- wrapper's mutex makes each request a whole step), and `reduceFutures`.
pub mod Complete
pub mod Agrees
mod Tests
use prometheus_cpp.Common.{
  ℕ, zero, suc, Bool, true, false, List, [], ◌∷◌, ◌++◌, map, Option, none, some, ◌>>=?◌, Bytes,
  if◌then◌else◌, ℤ, pos, ◌≡◌,
}
use prometheus_cpp.Double.{Double}
use prometheus_cpp.Core.Collectable.{Collectables}
use prometheus_cpp.Core.TextSerializer.{serialize}
use prometheus_cpp.Push.CurlWrapper.{HttpMethod, Curl, perform_http_request}
use prometheus_cpp.Push.Gateway.{Gateway, CollectableEntry, get_uri, is_failure}

-- What the λ of a task captures.
pub record Request : Type 0 where
  pub method : HttpMethod
  pub uri : Bytes
  pub body : Bytes

-- A task of `std::async`, and its future's value.
pub data Task : Type 0 where
  waiting : Request → Task
  finished : Request → ℤ → Task

-- The tasks, in the order of the futures, and the state of libcurl.
pub record State (H : Type 0) : Type 0 where
  pub tasks : List Task
  pub curl_state : H

module _ {W D H : Type 0} ⦃d : Double D⦄ (c : Collectables W D) (print : D → Bytes)
    (method : HttpMethod) (g : Gateway H) where
  -- The loop of `async_push`: the requests that it starts.
  unfoldable pub async_requests : List CollectableEntry → W → Option (List Request × W)
  async_requests [] w = some ([], w)
  async_requests (e ∷ entries) w = elim (c.alive e.collectable w) [
    | false ↦ async_requests entries w
    | true ↦ c.collect e.collectable w >>=? λ (metrics, w').
        async_requests entries w' >>=? λ (rest, w'').
        some (
          record { method = method; uri = get_uri g e; body = serialize print metrics } ∷ rest,
          w'',
        )
  ]

-- The futures as `async_push` leaves them.
abbrev pub started : {H : Type 0} → List Request → H → State H
started requests h = record { tasks = map waiting requests; curl_state = h }

module _ {H : Type 0} (curl : Curl H) (g : Gateway H) where
  abbrev pub perform : Request → H → ℤ × H
  perform r h = perform_http_request curl r.method r.uri r.body g.curl_wrapper h

  -- One waiting task, at any place, makes its request.
  pub data Step (s t : State H) : Type 0 where
    at :
        (before after : List Task) (r : Request)
        → s.tasks ≡ before ++ waiting r ∷ after
        → t ≡ record {
          tasks = before ++ finished r (perform r s.curl_state).0 ∷ after;
          curl_state = (perform r s.curl_state).1;
        }
        → Step s t

  -- The state after a number of steps.
  pub data Reach (s : State H) : ℕ → State H → Type 0 where
    here : Reach s zero s
    next : {n : ℕ} {t u : State H} → Reach s n t → Step t u → Reach s (suc n) u

-- The loop of `reduceFutures`, over the values of the futures.
unfoldable pub reduce_loop : ℤ → List ℤ → ℤ
reduce_loop final_status_code [] = final_status_code
reduce_loop final_status_code (status_code ∷ rest) =
    reduce_loop (if is_failure status_code then status_code else final_status_code) rest

unfoldable pub reduce_futures : List ℤ → ℤ
unfolding reduce_loop
reduce_futures statuses = reduce_loop (pos 200) statuses

-- The values of the futures, once all of them have one.
unfoldable pub values : List Task → Option (List ℤ)
values [] = some []
values (waiting r ∷ tasks) = none
values (finished r status_code ∷ tasks) = values tasks >>=? λ rest. some (status_code ∷ rest)

-- The value of the future that `async_push` returns, as soon as `reduceFutures` has got all others.
unfoldable pub future_value : {H : Type 0} → State H → Option ℤ
unfolding values
future_value t = values t.tasks >>=? λ statuses. some (reduce_futures statuses)

-- What `async_push` leaves when it returns its future.
unfoldable pub async_push :
    {W D H : Type 0} ⦃d : Double D⦄
    → Collectables W D
    → (D → Bytes)
    → HttpMethod
    → Gateway H
    → W
    → H
    → Option (State H × W)
unfolding async_requests
async_push c print method g w h =
    async_requests c print method g g.collectables w >>=? λ (requests, w').
    some (started requests h, w')
