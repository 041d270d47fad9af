-- ===== src/Push/Gateway/Async/Complete.antt =====
-- What an asynchronous push has sent when its future has a value, and what this value is.
use mathlib.Core.Path.{subst}
use mathlib.Core.List.{Perm, perm_append_singleton, perm_middle}
use mathlib.Core.List.Perm
use prometheus_cpp.Common.{
  ℕ, true, false, List, [], ◌∷◌, ◌++◌, map, ℤ, pos, ◌≡◌, ◌⊎◌, inl, inr, refl, sym, ap, ◌∙◌, All,
  Bool-cases, if◌then◌else◌,
}
use prometheus_cpp.Push.CurlWrapper.{Curl}
use prometheus_cpp.Push.Gateway.{Gateway, is_failure}
use prometheus_cpp.Push.Gateway.Async.{
  Request, Task, waiting, finished, State, started, perform, Step, at, Reach, here, next,
  reduce_loop, reduce_futures,
}

abbrev pub IsFinished : Task → Type 0
IsFinished (waiting r) = ⊥
IsFinished (finished r s) = Unit

-- The requests of the finished tasks with their statuses, in the order of the futures.
abbrev pub answers : List Task → List (Request × ℤ)
answers [] = []
answers (waiting r ∷ ts) = answers ts
answers (finished r s ∷ ts) = (r, s) ∷ answers ts

abbrev pub request_of : Task → Request
request_of (waiting r) = r
request_of (finished r s) = r

abbrev pub statuses : List Task → List ℤ
statuses ts = map (λ a. a.1) (answers ts)

answers-append : (ts us : List Task) → answers (ts ++ us) ≡ answers ts ++ answers us
answers-append [] us = refl
answers-append (waiting r ∷ ts) us = answers-append ts us
answers-append (finished r s ∷ ts) us = ap (◌∷◌ (r, s)) (answers-append ts us)

same_requests :
    (before after : List Task) (r : Request) (s : ℤ)
    → map request_of (before ++ finished r s ∷ after) ≡ map request_of (before ++ waiting r ∷ after)
same_requests [] after r s = refl
same_requests (t ∷ before) after r s = ap (◌∷◌ (request_of t)) (same_requests before after r s)

module _ {H : Type 0} (curl : Curl H) (g : Gateway H) where
  -- The requests of the log, made one after the other, are answered as it says.
  abbrev pub Performed : H → List (Request × ℤ) → H → Type 0
  Performed h [] h' = h ≡ h'
  Performed h (a ∷ log) h' =
      ((perform curl g a.0 h).0 ≡ a.1) × Performed (perform curl g a.0 h).1 log h'

  Performed-append :
      (h m : H) (log : List (Request × ℤ)) (r : Request)
      → Performed h log m
      → Performed h (log ++ (r, (perform curl g r m).0) ∷ []) (perform curl g r m).1
  Performed-append h m [] r p = rw (p) (refl, refl)
  Performed-append h m (a ∷ log) r p = (p.0, Performed-append (perform curl g a.0 h).1 m log r p.1)

  record IsSerial (s t : State H) : Type 0 where
    log : List (Request × ℤ)
    exact : Performed s.curl_state log t.curl_state
    each : Perm log (answers t.tasks)
    kept : map request_of t.tasks ≡ map request_of s.tasks

  Step-IsSerial : (s t u : State H) → Step curl g t u → IsSerial s t → IsSerial s u
  Step-IsSerial s t u (at before after r e f) i =
      let a : Request × ℤ = (r, (perform curl g r t.curl_state).0) in
      let tasks : Perm i.log (answers before ++ answers after) =
        subst (Perm i.log) (ap answers e ∙ answers-append before (waiting r ∷ after)) i.each in
      subst (IsSerial s) (sym f) (record {
        log = i.log ++ a ∷ [];
        exact = Performed-append s.curl_state t.curl_state i.log r i.exact;
        each =
            subst (Perm (i.log ++ a ∷ [])) (sym (answers-append before (finished r a.1 ∷ after))) (
              Perm.trans (perm_append_singleton a i.log) (
                Perm.trans (Perm.cons a tasks)
                  (Perm.symm (perm_middle (answers before) (answers after)))));
        kept = same_requests before after r a.1 ∙ sym (ap (map request_of) e) ∙ i.kept;
      })

  answers-waiting : (requests : List Request) → answers (map waiting requests) ≡ []
  answers-waiting [] = refl
  answers-waiting (r ∷ requests) = answers-waiting requests

  requests-waiting : (requests : List Request) → map request_of (map waiting requests) ≡ requests
  requests-waiting [] = refl
  requests-waiting (r ∷ requests) = ap (◌∷◌ r) (requests-waiting requests)

  Reach-IsSerial :
      (requests : List Request) (h : H) {n : ℕ} {t : State H}
      → Reach curl g (started requests h) n t
      → IsSerial (started requests h) t
  Reach-IsSerial requests h here = record {
    log = [];
    exact = refl;
    each = rw (answers-waiting requests) (Perm.refl []);
    kept = refl;
  }
  Reach-IsSerial requests h {t} (next {t = m} r step) =
      Step-IsSerial (started requests h) m t step (Reach-IsSerial requests h r)

  requests_answered :
      (ts : List Task) → All IsFinished ts → map (λ a. a.0) (answers ts) ≡ map request_of ts
  requests_answered [] f = refl
  requests_answered (waiting r ∷ ts) f = absurd f.0
  requests_answered (finished r s ∷ ts) f = ap (◌∷◌ r) (requests_answered ts f.1)

abbrev pub IsSuccess : ℤ → Type 0
IsSuccess s = is_failure s ≡ false

-- The last of the failed statuses, or the given one if none failed.
abbrev pub LastFailure : ℤ → List ℤ → ℤ → Type 0
LastFailure none_failed ss status =
    (All IsSuccess ss × (status ≡ none_failed))
    ⊎ ((before : List ℤ) × (after : List ℤ) × (ss ≡ before ++ status ∷ after)
        × (is_failure status ≡ true)
        × All IsSuccess after)

failed_first :
    (final s : ℤ) (ss : List ℤ) {status : ℤ}
    → is_failure s ≡ true
    → LastFailure s ss status
    → LastFailure final (s ∷ ss) status
failed_first final s ss f (inl (all, e)) = rw (e) (inr ([], ss, refl, f, all))
failed_first final s ss f (inr (before, after, e, b, all)) =
    inr (s ∷ before, after, ap (◌∷◌ s) e, b, all)

succeeded_first :
    (final s : ℤ) (ss : List ℤ) {status : ℤ}
    → is_failure s ≡ false
    → LastFailure final ss status
    → LastFailure final (s ∷ ss) status
succeeded_first final s ss f (inl (all, e)) = inl ((f, all), e)
succeeded_first final s ss f (inr (before, after, e, b, all)) =
    inr (s ∷ before, after, ap (◌∷◌ s) e, b, all)

reduce_loop-LastFailure : (final : ℤ) (ss : List ℤ) → LastFailure final ss (reduce_loop final ss)
unfolding reduce_loop
reduce_loop-LastFailure final [] = inl (tt, refl)
reduce_loop-LastFailure final (s ∷ ss) = elim (Bool-cases (is_failure s)) [
  | inl f ↦
      subst (LastFailure final (s ∷ ss)) (ap (λ b. reduce_loop (if b then s else final) ss) (sym f))
        (failed_first final s ss f (reduce_loop-LastFailure s ss))
  | inr f ↦
      subst (LastFailure final (s ∷ ss)) (ap (λ b. reduce_loop (if b then s else final) ss) (sym f))
        (succeeded_first final s ss f (reduce_loop-LastFailure final ss))
]

module _ {H : Type 0} (curl : Curl H) (g : Gateway H) where
  -- However the tasks of an asynchronous push interleave, once all have finished there is an order in which just the
  -- requests that the push started were made, each once, one after the other, with the statuses that the futures
  -- hold; and the answer is 200 if all these are successes, and the failed status of the last future that failed if
  -- not.
  pub Reach-complete :
      (requests : List Request) (h : H) {n : ℕ} {t : State H}
      → Reach curl g (started requests h) n t
      → All IsFinished t.tasks
      → (log : List (Request × ℤ)) × Performed curl g h log t.curl_state
        × Perm log (answers t.tasks)
        × (map (λ a. a.0) (answers t.tasks) ≡ requests)
        × LastFailure (pos 200) (statuses t.tasks) (reduce_futures (statuses t.tasks))
  unfolding reduce_futures
  Reach-complete requests h {t} r f =
      let i = Reach-IsSerial curl g requests h r in
      (
        i.log,
        i.exact,
        i.each,
        requests_answered curl g t.tasks f ∙ i.kept ∙ requests-waiting curl g requests,
        reduce_loop-LastFailure (pos 200) (statuses t.tasks),
      )
