-- ===== src/Core/TimeWindow/Tests.antt =====
-- A window of two buckets, ten ticks each.
use mathlib.Core.Option
use prometheus_cpp.Common.{
  ℕ, ◌+◌, ◌-◌, ◌*◌, ◌/◌, ◌%◌, ◌≤◌, ◌<◌, ◌≡◌, ◌≢◌, ◌⊎◌, refl, List, [], ◌∷◌, ◌++◌, none, some,
  get_elem?, All, arith, pos,
}
use prometheus_cpp.Double.Sample.{Number, nan, fin, number_double}
use prometheus_cpp.Core.Ckms.{Ckms}
use prometheus_cpp.Core.Ckms
use prometheus_cpp.Core.Ckms.Values.{In}
use prometheus_cpp.Core.TimeWindow.{TimeWindow, rotate, rotate_loop, get}
use prometheus_cpp.Core.TimeWindow
use prometheus_cpp.Core.TimeWindow.Window.{Observation, values}
use prometheus_cpp.Core.TimeWindow.Calls.{Call, inserts, gets, run, observed}
use prometheus_cpp.Core.TimeWindow.Recent.{get-recent}
use prometheus_cpp.Core.TimeWindow.Rotate.{IsCleared, rotate_lem, rotate_diverges}

bucket : Ckms Number
unfolding Ckms.insert Ckms.make
bucket = Ckms.insert (fin (pos 6)) (Ckms.make [])

window : TimeWindow Number
window = record {
  quantiles = [];
  ckms_quantiles = bucket ∷ bucket ∷ [];
  current_bucket = 1;
  last_rotation = 100;
  rotation_interval = 10;
}

stuck : TimeWindow Number
stuck = record window { rotation_interval = 0 }

-- At tick 115 one round is due: the second bucket is cleared.
one_round : Option.map (λ x. x.0) (get (fin (pos 1)) 115 window) ≡ some (fin (pos 6))
unfolding window bucket get
one_round = refl

-- At tick 125 both are.
two_rounds : Option.map (λ x. x.0) (get (fin (pos 1)) 125 window) ≡ some nan
unfolding window bucket get
two_rounds = refl

rotate_lem_example :
    (k : ℕ) × (t' : TimeWindow Number) × (rotate 125 window ≡ some t')
    × (t'.last_rotation ≤ 125)
    × (125 ≤ t'.last_rotation + 10)
    × (t'.last_rotation ≡ 100 + k * 10)
    × (t'.current_bucket ≡ (1 + k) % 2)
    × ((j : ℕ) (c : Ckms Number)
        → j < k
        → get_elem? t'.ckms_quantiles ((1 + j) % 2) ≡ some c
        → IsCleared c)
    × ((i : ℕ)
        → ((j : ℕ) → j < k → i ≢ (1 + j) % 2)
        → get_elem? t'.ckms_quantiles i ≡ get_elem? (bucket ∷ bucket ∷ []) i)
unfolding window
rotate_lem_example = rotate_lem 125 window (omega arith) (omega arith) (omega arith)

rotate_diverges_example : rotate_loop 1000 5 stuck ≡ none
unfolding stuck
rotate_diverges_example = rotate_diverges 1000 5 stuck refl (omega arith)

-- Two inserts with a read between them, in a window of ten ticks; at 112 the first one is out of it.
calls : List (Call Number)
calls = inserts 101 (fin (pos 1)) ∷ gets 105 (fin (pos 1)) ∷ inserts 109 (fin (pos 2)) ∷ []

get-recent_example :
    (t : TimeWindow Number) × (run calls (TimeWindow.make [] 10 2 100) ≡ some t)
    × (r : Number × TimeWindow Number) × (get (fin (pos 1)) 112 t ≡ some r)
    × (recent : List (Observation Number)) × (old : List (Observation Number)) × (observed [] calls
        ≡ recent ++ old)
    × All (λ o. 112 ≤ o.time + 10) recent
    × All (λ o. o.time + (2 - 1) * (10 / 2) ≤ 112) old
    × (((recent ≡ []) × (r.0 ≡ nan)) ⊎ In r.0 (values recent))
unfolding calls
get-recent_example =
    get-recent [] 10 2 100 112 calls (fin (pos 1)) (omega arith) (omega arith)
      (omega arith, (omega arith, (omega arith, omega arith)))
