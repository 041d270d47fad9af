-- ===== src/Core/Ckms/History.antt =====
-- Series of calls on a stream of quantiles.
use prometheus_cpp.Common.{List, [], ◌∷◌}
use prometheus_cpp.Double.{Double}
use prometheus_cpp.Core.Ckms.{Ckms, insert, get, reset}

pub data Call (D : Type 0) : Type 0 where
  inserts : D → Call D
  gets : D → Call D
  resets : Call D

module _ {D : Type 0} ⦃d : Double D⦄ where
  unfoldable pub perform : Call D → Ckms D → Ckms D
  unfolding insert get reset
  perform (inserts v) c = insert v c
  perform (gets q) c = (get q c).1
  perform resets c = reset c

  unfoldable pub run : List (Call D) → Ckms D → Ckms D
  unfolding perform
  run [] c = c
  run (call ∷ calls) c = run calls (perform call c)

-- The values inserted since the last reset, the latest first, behind those of `before`.
abbrev pub seen : {D : Type 0} → List D → List (Call D) → List D
seen before [] = before
seen before (inserts v ∷ calls) = seen (v ∷ before) calls
seen before (gets q ∷ calls) = seen before calls
seen before (resets ∷ calls) = seen [] calls
