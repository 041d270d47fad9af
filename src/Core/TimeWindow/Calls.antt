-- ===== src/Core/TimeWindow/Calls.antt =====
-- The calls of a time window in sequence, and what a rotation and an insert keep of what the buckets show.
use mathlib.Core.Path.{subst}
use mathlib.Core.Option
use prometheus_cpp.Common.{
  ℕ, zero, suc, ◌+◌, ◌≤◌, ◌<◌, ◌≡◌, refl, sym, ap, ◌∙◌, List, [], ◌∷◌, map, Option, some,
  some-injective, ◌>>=?◌, length, length-map, replicate, get_elem?, arith,
}
use prometheus_cpp.Double.{Double}
use prometheus_cpp.Core.Ckms.{Ckms, Quantile}
use prometheus_cpp.Core.Ckms
use prometheus_cpp.Core.Ckms.Values.{Keeps-insert, Keeps-get}
use prometheus_cpp.Core.TimeWindow.{TimeWindow, update, rotate, get_at, get, insert}
use prometheus_cpp.Core.TimeWindow.Rounds.{rounds}
use prometheus_cpp.Core.TimeWindow.Ready.{IsReady, rotate-rounds}
use prometheus_cpp.Core.TimeWindow.Window.{
  Observation, values, HasRecent, IsWindow, mapped, rounds-IsWindow, changed-IsWindow,
}

-- A call of `insert` or of `get`, at a time.
pub data Call (D : Type 0) : Type 0 where
  inserts : ℕ → D → Call D
  gets : ℕ → D → Call D

module _ {A : Type 0} where
  get-map :
      {B : Type 0} (f : A → B) (xs : List A) (i : ℕ)
      → get_elem? (map f xs) i ≡ Option.map f (get_elem? xs i)
  get-map f [] i = refl
  get-map f (x ∷ xs) zero = refl
  get-map f (x ∷ xs) (suc i) = get-map f xs i

  pub get-replicate : (n i : ℕ) (x y : A) → get_elem? (replicate n x) i ≡ some y → x ≡ y
  get-replicate zero i x y e = ground arith
  get-replicate (suc n) zero x y e = some-injective _ _ e
  get-replicate (suc n) (suc i) x y e = get-replicate n i x y e

pub get-lt :
    {A : Type 0} (xs : List A) (i : ℕ) → i < length xs → (x : A) × (get_elem? xs i ≡ some x)
get-lt [] i h = absurd (omega arith)
get-lt (x ∷ xs) zero h = (x, refl)
get-lt (x ∷ xs) (suc i) h = get-lt xs i (omega arith)

module _ {D : Type 0} ⦃d : Double D⦄ where
  unfoldable pub perform : Call D → TimeWindow D → Option (TimeWindow D)
  unfolding insert get
  perform (inserts time value) t = insert value time t
  perform (gets time q) t = get q time t >>=? λ (x, t'). some t'

  unfoldable pub run : List (Call D) → TimeWindow D → Option (TimeWindow D)
  unfolding perform
  run [] t = some t
  run (call ∷ calls) t = perform call t >>=? λ t'. run calls t'

  abbrev pub time_of : Call D → ℕ
  time_of (inserts time value) = time
  time_of (gets time q) = time

  -- The calls are made one after the other, none before the first time, and none behind the second one.
  abbrev pub InOrder : ℕ → List (Call D) → ℕ → Type 0
  InOrder start [] now = start ≤ now
  InOrder start (call ∷ calls) now = (start ≤ time_of call) × InOrder (time_of call) calls now

  -- What the calls insert, on top of a log with the newest in front.
  abbrev pub observed : List (Observation D) → List (Call D) → List (Observation D)
  observed log [] = log
  observed log (inserts time value ∷ calls) =
      observed (record { time = time; value = value } ∷ log) calls
  observed log (gets time q ∷ calls) = observed log calls

  pub observed-cons :
      (log : List (Observation D)) (call : Call D) (calls : List (Call D))
      → observed (observed log (call ∷ [])) calls ≡ observed log (call ∷ calls)
  observed-cons log (inserts time value) calls = refl
  observed-cons log (gets time q) calls = refl

  pub get_at_list :
      (q : D) (i : ℕ) (cs : List (Ckms D)) → (get_at q i cs).1 ≡ update (λ c. (Ckms.get q c).1) i cs
  unfolding get_at update
  get_at_list q i [] = refl
  get_at_list q zero (c ∷ cs) = refl
  get_at_list q (suc i) (c ∷ cs) = ap (◌∷◌ c) (get_at_list q i cs)

  pub get_at_value :
      (q : D) (i : ℕ) (cs : List (Ckms D)) (c : Ckms D)
      → get_elem? cs i ≡ some c
      → (get_at q i cs).0 ≡ (Ckms.get q c).0
  unfolding get_at
  get_at_value q i [] c e = ground arith
  get_at_value q zero (b ∷ cs) c e = ap (λ x. (Ckms.get q x).0) (some-injective _ _ e)
  get_at_value q (suc i) (b ∷ cs) c e = get_at_value q i cs c e

  pub get-HasRecent :
      (log : List (Observation D)) (last age : ℕ) (q : D) (c : Ckms D)
      → HasRecent log last age c
      → HasRecent log last age (Ckms.get q c).1
  get-HasRecent log last age q c h = record {
    recent = h.recent;
    old = h.old;
    parts = h.parts;
    young = h.young;
    aged = h.aged;
    keeps = Keeps-get q (values h.recent) c h.keeps;
  }

  insert-HasRecent :
      (log : List (Observation D)) (last age now : ℕ) (v : D) (c : Ckms D)
      → last ≤ now
      → HasRecent log last age c
      → HasRecent (record { time = now; value = v } ∷ log) last age (Ckms.insert v c)
  insert-HasRecent log last age now v c l h = record {
    recent = record { time = now; value = v } ∷ h.recent;
    old = h.old;
    parts = ap (◌∷◌ (record { time = now; value = v })) h.parts;
    young = (omega arith, h.young);
    aged = h.aged;
    keeps = Keeps-insert v (values h.recent) c h.keeps;
  }

  -- The time window between two calls.
  pub record IsTracking (x n : ℕ) (log : List (Observation D)) (t : TimeWindow D) (now : ℕ)
      : Type 0 where
    pub ready : IsReady t now
    pub window : IsWindow log t
    pub interval : t.rotation_interval ≡ x
    pub size : length t.ckms_quantiles ≡ n

  -- The rotation that a call begins with.
  pub rotate-IsTracking :
      (x n : ℕ) (log : List (Observation D)) (t : TimeWindow D) (before now : ℕ)
      → before ≤ now
      → IsTracking x n log t before
      → (t' : TimeWindow D) × (rotate now t ≡ some t')
        × IsTracking x n log t' now
        × (now ≤ t'.last_rotation + t'.rotation_interval)
  rotate-IsTracking x n log t before now l k =
      let p = k.ready.past in
      let r : IsReady t now = record {
        positive = k.ready.positive;
        past = omega arith;
        in_bounds = k.ready.in_bounds;
      } in
      let (m, e, r', upper, interval, size) = rotate-rounds now t r in
      (
        rounds m t,
        e,
        record {
          ready = r';
          window = rounds-IsWindow m log t k.window;
          interval = interval ∙ k.interval;
          size = size ∙ k.size;
        },
        upper,
      )

  -- Buckets that are changed in place.
  pub changed-IsTracking :
      (x n : ℕ) (log log' : List (Observation D)) (t : TimeWindow D) (now : ℕ) (cs : List (Ckms D))
      → length cs ≡ length t.ckms_quantiles
      → IsWindow log' (record t { ckms_quantiles = cs })
      → IsTracking x n log t now
      → IsTracking x n log' (record t { ckms_quantiles = cs }) now
  changed-IsTracking x n log log' t now cs size w k = record {
    ready = record {
      positive = k.ready.positive;
      past = k.ready.past;
      in_bounds = rw (size) k.ready.in_bounds;
    };
    window = w;
    interval = k.interval;
    size = size ∙ k.size;
  }

  pub insert-IsTracking :
      (x n : ℕ) (log : List (Observation D)) (t : TimeWindow D) (before now : ℕ) (v : D)
      → before ≤ now
      → IsTracking x n log t before
      → (t' : TimeWindow D) × (insert v now t ≡ some t')
        × IsTracking x n (record { time = now; value = v } ∷ log) t' now
  unfolding insert
  insert-IsTracking x n log t before now v l k =
      let (t1, e, k1, upper) = rotate-IsTracking x n log t before now l k in
      let cs = map (Ckms.insert v) t1.ckms_quantiles in
      let size = length-map t1.ckms_quantiles (Ckms.insert v) in
      let w =
        changed-IsWindow log (record { time = now; value = v } ∷ log) t1 cs size
          (upper, k1.window.logged)
          (λ i c' found.
            let (c, there, q) =
              mapped (Ckms.insert v) (get_elem? t1.ckms_quantiles i) c'
                (sym (get-map (Ckms.insert v) t1.ckms_quantiles i) ∙ found) in
            (
              c,
              there,
              λ age h.
                  subst (HasRecent (record { time = now; value = v } ∷ log) t1.last_rotation age) q
                    (insert-HasRecent log t1.last_rotation age now v c k1.ready.past h),
            ))
          k1.window in
      (
        record t1 { ckms_quantiles = cs },
        rw (insert, e) refl,
        changed-IsTracking x n log _ t1 now cs size w k1,
      )
