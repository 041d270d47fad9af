-- ===== src/Push/Gateway/Sent.antt =====
-- What `push` has sent when it returns.
use prometheus_cpp.Common.{
  true, false, List, [], ◌∷◌, ◌++◌, Option, some, returned, Bytes, ℤ, pos, ◌≡◌, ◌⊎◌, ◌↔◌, inl, inr,
  refl, sym, ap, ◌∙◌, append-nil, arith, Bool-cases,
}
use prometheus_cpp.Double.{Double}
use prometheus_cpp.Core.ClientMetric.{MetricFamily}
use prometheus_cpp.Core.Collectable.{Collectables}
use prometheus_cpp.Push.CurlWrapper.{HttpMethod, Curl}
use prometheus_cpp.Push.Gateway.{Gateway, CollectableEntry, is_failure, request, push_loop, push}

module _ {W D H : Type 0} ⦃d : Double D⦄ (c : Collectables W D) (print : D → Bytes) (curl : Curl H)
    (method : HttpMethod) (g : Gateway H) where
  -- Every live collectable of the list has been collected and sent, in the order of the list, each with success; the
  -- expired ones have been left out.
  pub data Sent : List CollectableEntry → W → H → W → H → Type 0 where
    done : (w : W) (h : H) → Sent [] w h w h
    left_out :
        (e : CollectableEntry) (es : List CollectableEntry) (w w' : W) (h h' : H)
        → c.alive e.collectable w ≡ false
        → Sent es w h w' h'
        → Sent (e ∷ es) w h w' h'
    sent :
        (e : CollectableEntry) (es : List CollectableEntry) (ms : List (MetricFamily D))
        (w w1 w' : W) (h h' : H)
        → c.alive e.collectable w ≡ true
        → c.collect e.collectable w ≡ some (ms, w1)
        → is_failure (request c print curl method g e ms h).0 ≡ false
        → Sent es w1 (request c print curl method g e ms h).1 w' h'
        → Sent (e ∷ es) w h w' h'

  -- The request of one live entry has failed with the status; all live entries in front of it have been sent, and
  -- nothing behind it has been collected.
  pub record StopsAt (es : List CollectableEntry) (w : W) (h : H) (status : ℤ) (w' : W) (h' : H)
      : Type 0 where
    pub before : List CollectableEntry
    pub entry : CollectableEntry
    pub after : List CollectableEntry
    pub metrics : List (MetricFamily D)
    pub w1 : W
    pub h1 : H
    pub parts : es ≡ before ++ entry ∷ after
    pub all_sent : Sent before w h w1 h1
    pub lives : c.alive entry.collectable w1 ≡ true
    pub collected : c.collect entry.collectable w1 ≡ some (metrics, w')
    pub answered : request c print curl method g entry metrics h1 ≡ (status, h')
    pub failed : is_failure status ≡ true

  abbrev push_at : W → H → List CollectableEntry → Option (ℤ × W × H)
  push_at w h es = push_loop c print curl method g es w h

  Outcome : List CollectableEntry → W → H → ℤ → W → H → Type 0
  Outcome es w h status w' h' =
      ((status ≡ pos 200) × Sent es w h w' h') ⊎ StopsAt es w h status w' h'

  skip-Outcome :
      (e : CollectableEntry) (es : List CollectableEntry) (w w' : W) (h h' : H) (status : ℤ)
      → c.alive e.collectable w ≡ false
      → Outcome es w h status w' h'
      → Outcome (e ∷ es) w h status w' h'
  unfolding Outcome
  skip-Outcome e es w w' h h' status a (inl (s, all)) = inl (s, left_out e es w w' h h' a all)
  skip-Outcome e es w w' h h' status a (inr s) = inr (record {
    before = e ∷ s.before;
    entry = s.entry;
    after = s.after;
    metrics = s.metrics;
    w1 = s.w1;
    h1 = s.h1;
    parts = ap (λ t. e ∷ t) s.parts;
    all_sent = left_out e s.before w s.w1 h s.h1 a s.all_sent;
    lives = s.lives;
    collected = s.collected;
    answered = s.answered;
    failed = s.failed;
  })

  send-Outcome :
      (e : CollectableEntry) (es : List CollectableEntry) (ms : List (MetricFamily D)) (w w1 w' : W)
      (h h' : H) (status : ℤ)
      → c.alive e.collectable w ≡ true
      → c.collect e.collectable w ≡ some (ms, w1)
      → is_failure (request c print curl method g e ms h).0 ≡ false
      → Outcome es w1 (request c print curl method g e ms h).1 status w' h'
      → Outcome (e ∷ es) w h status w' h'
  unfolding Outcome
  send-Outcome e es ms w w1 w' h h' status a q f (inl (s, all)) =
      inl (s, sent e es ms w w1 w' h h' a q f all)
  send-Outcome e es ms w w1 w' h h' status a q f (inr s) = inr (record {
    before = e ∷ s.before;
    entry = s.entry;
    after = s.after;
    metrics = s.metrics;
    w1 = s.w1;
    h1 = s.h1;
    parts = ap (λ t. e ∷ t) s.parts;
    all_sent = sent e s.before ms w w1 s.w1 h s.h1 a q f s.all_sent;
    lives = s.lives;
    collected = s.collected;
    answered = s.answered;
    failed = s.failed;
  })

  push_loop-expired :
      (e : CollectableEntry) (es : List CollectableEntry) (w : W) (h : H)
      → c.alive e.collectable w ≡ false
      → push_loop c print curl method g (e ∷ es) w h ≡ push_loop c print curl method g es w h
  unfolding push_loop
  push_loop-expired e es w h a = rw (a, push_loop) refl

  push_loop-success :
      (e : CollectableEntry) (es : List CollectableEntry) (ms : List (MetricFamily D)) (w w1 : W)
      (h : H)
      → c.alive e.collectable w ≡ true
      → c.collect e.collectable w ≡ some (ms, w1)
      → is_failure (request c print curl method g e ms h).0 ≡ false
      → push_loop c print curl method g (e ∷ es) w h
        ≡ push_loop c print curl method g es w1 (request c print curl method g e ms h).1
  unfolding push_loop
  push_loop-success e es ms w w1 h a q f = rw (a, push_loop, q, f) refl

  push_loop-failure :
      (e : CollectableEntry) (es : List CollectableEntry) (ms : List (MetricFamily D)) (w w1 : W)
      (h : H)
      → c.alive e.collectable w ≡ true
      → c.collect e.collectable w ≡ some (ms, w1)
      → is_failure (request c print curl method g e ms h).0 ≡ true
      → push_loop c print curl method g (e ∷ es) w h
        ≡ some
            ((request c print curl method g e ms h).0, w1, (request c print curl method g e ms h).1)
  unfolding push_loop
  push_loop-failure e es ms w w1 h a q f = rw (a, push_loop, q, f) refl

  push_loop-collects :
      (e : CollectableEntry) (es : List CollectableEntry) (w : W) (h : H) (r : ℤ × W × H)
      → c.alive e.collectable w ≡ true
      → push_loop c print curl method g (e ∷ es) w h ≡ some r
      → (x : List (MetricFamily D) × W) × (c.collect e.collectable w ≡ some x)
  unfolding push_loop
  push_loop-collects e es w h r a q =
      let (x, one, rest) = returned (c.collect e.collectable w) _ _ (rw (a, push_loop) at q) in
      (x, one)

  none-Outcome :
      (w w' : W) (h h' : H) (status : ℤ)
      → ◌≡◌ {A = Option (ℤ × W × H)} (some (pos 200, w, h)) (some (status, w', h'))
      → Outcome [] w h status w' h'
  unfolding Outcome
  none-Outcome w w' h h' status q =
      let (s, ww, hh) : (pos 200 ≡ status) × (w ≡ w') × (h ≡ h') = ground arith in
      inl (sym s, rw (sym ww, sym hh) (done w h))

  stop-Outcome :
      (e : CollectableEntry) (es : List CollectableEntry) (ms : List (MetricFamily D)) (w w1 w' : W)
      (h h' : H) (status : ℤ)
      → c.alive e.collectable w ≡ true
      → c.collect e.collectable w ≡ some (ms, w1)
      → is_failure (request c print curl method g e ms h).0 ≡ true
      → ◌≡◌ {A = Option (ℤ × W × H)}
          (some (
            (request c print curl method g e ms h).0,
            w1,
            (request c print curl method g e ms h).1,
          ))
          (some (status, w', h'))
      → Outcome (e ∷ es) w h status w' h'
  unfolding Outcome
  stop-Outcome e es ms w w1 w' h h' status a q f r =
      let (s, ww, hh) : ((request c print curl method g e ms h).0 ≡ status)
          × (w1 ≡ w')
          × ((request c print curl method g e ms h).1 ≡ h') =
        ground arith in
      inr (record {
        before = [];
        entry = e;
        after = es;
        metrics = ms;
        w1 = w;
        h1 = h;
        parts = refl;
        all_sent = done w h;
        lives = a;
        collected = q ∙ ap (λ v. some (ms, v)) ww;
        answered = λ i. (s i, hh i);
        failed = rw (sym s) f;
      })

  push_loop-Outcome :
      (es : List CollectableEntry) (w w' : W) (h h' : H) (status : ℤ)
      → push_loop c print curl method g es w h ≡ some (status, w', h')
      → Outcome es w h status w' h'
  push_loop-Outcome [] w w' h h' status q = none-Outcome w w' h h' status (unfold push_loop in q)
  push_loop-Outcome (e ∷ es) w w' h h' status q = elim (Bool-cases (c.alive e.collectable w)) [
    | inr a ↦
        skip-Outcome e es w w' h h' status a
          (push_loop-Outcome es w w' h h' status (sym (push_loop-expired e es w h a) ∙ q))
    | inl a ↦
        let ((ms, w1), one) = push_loop-collects e es w h (status, w', h') a q in
        elim (Bool-cases (is_failure (request c print curl method g e ms h).0)) [
          | inl f ↦
              stop-Outcome e es ms w w1 w' h h' status a one f
                (sym (push_loop-failure e es ms w w1 h a one f) ∙ q)
          | inr f ↦ send-Outcome e es ms w w1 w' h h' status a one f (
              push_loop-Outcome es w1 w' (request c print curl method g e ms h).1 h' status
                (sym (push_loop-success e es ms w w1 h a one f) ∙ q))
        ]
  ]

  -- Entries that have been sent are done with: the loop goes on behind them.
  push_loop-Sent :
      (es rest : List CollectableEntry) (w w' : W) (h h' : H)
      → Sent es w h w' h'
      → push_loop c print curl method g (es ++ rest) w h
        ≡ push_loop c print curl method g rest w' h'
  push_loop-Sent _ rest _ _ _ _ (done w h) = refl
  push_loop-Sent _ rest _ _ _ _ (left_out e es w w' h h' a s) =
      push_loop-expired e (es ++ rest) w h a ∙ push_loop-Sent es rest w w' h h' s
  push_loop-Sent _ rest _ _ _ _ (sent e es ms w w1 w' h h' a q f s) =
      push_loop-success e (es ++ rest) ms w w1 h a q f
      ∙ push_loop-Sent es rest w1 w' (request c print curl method g e ms h).1 h' s

  Outcome-push_loop :
      (es : List CollectableEntry) (w w' : W) (h h' : H) (status : ℤ)
      → Outcome es w h status w' h'
      → push_loop c print curl method g es w h ≡ some (status, w', h')
  unfolding Outcome
  Outcome-push_loop es w w' h h' status (inl (q, s)) =
      ap (push_at w h) (sym (append-nil es))
      ∙ push_loop-Sent es [] w w' h h' s
      ∙ (unfold push_loop in ap (λ t. some (t, w', h')) (sym q))
  Outcome-push_loop es w w' h h' status (inr s) =
      let ended =
        push_loop-failure s.entry s.after s.metrics s.w1 w' s.h1 s.lives s.collected
          (ap (λ r. is_failure r.0) s.answered ∙ s.failed) in
      ap (push_at w h) s.parts
      ∙ push_loop-Sent s.before (s.entry ∷ s.after) w s.w1 h s.h1 s.all_sent
      ∙ ended
      ∙ ap (λ r. some (r.0, w', r.1)) s.answered

  -- `Push` and `PushAdd` return a status exactly in these two ways: with 200 after every live collectable has been
  -- collected and its text sent to its own URI, each once, in the order of registration and with success; or with the
  -- status of the first request that failed, after all live collectables in front of it have been sent, and with none
  -- behind it collected or sent. Expired collectables are left out.
  pub push_iff :
      (w w' : W) (h h' : H) (status : ℤ)
      → (push c print curl method g w h ≡ some (status, w', h')) ↔ (
          ((status ≡ pos 200) × Sent g.collectables w h w' h')
          ⊎ StopsAt g.collectables w h status w' h')
  unfolding Outcome
  push_iff w w' h h' status = (
    push_loop-Outcome g.collectables w w' h h' status,
    λ o. Outcome-push_loop g.collectables w w' h h' status o,
  )
