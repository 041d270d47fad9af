-- ===== src/Push/Gateway/Async/Agrees.antt =====
-- An asynchronous push beside one that waits for each request.
use prometheus_cpp.Common.{
  ℕ, suc, false, length, List, [], ◌∷◌, ◌++◌, map, some, ℤ, pos, ◌≡◌, inl, inr, refl, append_assoc,
  Bytes,
}
use mathlib.Core.Path.{subst}
use mathlib.Core.Bool.{false≢true}
use prometheus_cpp.Double.{Double}
use prometheus_cpp.Core.Collectable.{Collectables}
use prometheus_cpp.Core.TextSerializer.{serialize}
use prometheus_cpp.Push.CurlWrapper.{HttpMethod, Curl}
use prometheus_cpp.Push.Gateway.{Gateway, CollectableEntry, get_uri, push, is_failure}
use prometheus_cpp.Push.Gateway.Sent.{Sent, done, left_out, sent, push_iff}
use prometheus_cpp.Push.Gateway.Async.{
  Request, Task, waiting, finished, State, started, perform, Step, at, Reach, here, next,
  async_requests, reduce_loop, reduce_futures, values, future_value, async_push,
}

module _ {H : Type 0} (curl : Curl H) (g : Gateway H) where
  -- The tasks and libcurl when the requests have been made in their order.
  abbrev serve : List Request → H → List Task × H
  serve [] h = ([], h)
  serve (r ∷ rs) h =
      let (status, h') = perform curl g r h in
      let (tasks, h'') = serve rs h' in (finished r status ∷ tasks, h'')

  -- All answers to them are successes.
  abbrev Succeeds : List Request → H → Type 0
  Succeeds [] h = Unit
  Succeeds (r ∷ rs) h =
      (is_failure (perform curl g r h).0 ≡ false) × Succeeds rs (perform curl g r h).1

  Reach-first :
      (s t u : State H) {n : ℕ} → Step curl g s t → Reach curl g t n u → Reach curl g s (suc n) u
  Reach-first s t u step here = next here step
  Reach-first s t u step (next {t = m} r last) = next (Reach-first s t m step r) last

  state : List Task → H → State H
  state tasks h = record { tasks = tasks; curl_state = h }

  -- From the left to the right is one of the ways in which the tasks can run.
  Reach-serve :
      (before : List Task) (rs : List Request) (h : H)
      → Reach curl g
          (state (before ++ map waiting rs) h)
          (length rs)
          (state (before ++ (serve rs h).0) (serve rs h).1)
  unfolding state
  Reach-serve before [] h = here
  Reach-serve before (r ∷ rs) h =
      let a = perform curl g r h in
      let front = λ (tasks : List Task). append_assoc before (finished r a.0 ∷ []) tasks in
      let rest = Reach-serve (before ++ finished r a.0 ∷ []) rs a.1 in
      let from =
        subst
          (λ tasks.
            Reach curl g (state tasks a.1) (length rs)
              (state ((before ++ finished r a.0 ∷ []) ++ (serve rs a.1).0) (serve rs a.1).1))
          (front (map waiting rs)) rest in
      Reach-first _ (state (before ++ finished r a.0 ∷ map waiting rs) a.1) _
        (at before (map waiting rs) r refl refl)
        (subst
          (λ tasks.
            Reach curl g (state (before ++ finished r a.0 ∷ map waiting rs) a.1) (length rs)
              (state tasks (serve rs a.1).1))
          (front (serve rs a.1).0) from)

  values-serve :
      (rs : List Request) (h : H)
      → Succeeds rs h
      → (statuses : List ℤ) × (values (serve rs h).0 ≡ some statuses)
        × ((final : ℤ) → reduce_loop final statuses ≡ final)
  unfolding values reduce_loop
  values-serve [] h s = ([], refl, λ final. refl)
  values-serve (r ∷ rs) h (f, s) =
      let a = perform curl g r h in
      let (statuses, e, same) = values-serve rs a.1 s in
      (a.0 ∷ statuses, rw (e) refl, λ final. rw (f) (same final))

module _ {W D H : Type 0} ⦃d : Double D⦄ (c : Collectables W D) (print : D → Bytes) (curl : Curl H)
    (method : HttpMethod) (g : Gateway H) where
  Sent-serve :
      (es : List CollectableEntry) (w w' : W) (h h' : H)
      → Sent c print curl method g es w h w' h'
      → (rs : List Request) × (async_requests c print method g es w ≡ some (rs, w'))
        × Succeeds curl g rs h
        × ((serve curl g rs h).1 ≡ h')
  unfolding async_requests
  Sent-serve _ _ _ _ _ (done w h) = ([], refl, tt, refl)
  Sent-serve _ _ _ _ _ (left_out e es w w' h h' a s) =
      let (rs, q, ok, end) = Sent-serve es w w' h h' s in (rs, rw (a, async_requests) q, ok, end)
  Sent-serve _ _ _ _ _ (sent e es ms w w1 w' h h' a q f s) =
      let r : Request = record { method = method; uri = get_uri g e; body = serialize print ms } in
      let (rs, p, ok, end) = Sent-serve es w1 w' (perform curl g r h).1 h' s in
      (r ∷ rs, rw (a, async_requests, q, p) refl, (f, ok), end)

  -- Where a push that waits for its requests returns 200, an asynchronous one from the same state makes the same
  -- collections and returns its future; there is a run of its tasks in which all finish and which leaves libcurl as the
  -- waiting push leaves it; and the future's value is then 200 as well.
  pub push-async :
      (w w' : W) (h h' : H)
      → push c print curl method g w h ≡ some (pos 200, w', h')
      → (requests : List Request) × (async_push c print method g w h
          ≡ some (started requests h, w'))
        × (t : State H) × Reach curl g (started requests h) (length requests) t
        × (t.curl_state ≡ h')
        × (future_value t ≡ some (pos 200))
  unfolding async_push future_value reduce_futures state
  push-async w w' h h' q = elim ((push_iff c print curl method g w w' h h' (pos 200)).0 q) [
    | inr s ↦ absurd (false≢true s.failed)
    | inl (e, s) ↦
        let (rs, p, ok, end) = Sent-serve g.collectables w w' h h' s in
        let (statuses, v, same) = values-serve curl g rs h ok in
        (rs, rw (p) refl, _, Reach-serve curl g [] rs h, end, rw (v, same (pos 200)) refl)
  ]
