-- ===== src/Push/Gateway/Calls.antt =====
-- The calls of a gateway in push/src/gateway.cc that only choose a method or start a task. A call that starts tasks gives
-- their state.
use prometheus_cpp.Common.{Option, [], ◌∷◌, ◌++◌, Bytes, ℤ}
use prometheus_cpp.Double.{Double}
use prometheus_cpp.Core.Collectable.{Collectables}
use prometheus_cpp.Push.CurlWrapper.{Curl, post, put, delete}
use prometheus_cpp.Push.Gateway.{Gateway}
use prometheus_cpp.Push.Gateway
use prometheus_cpp.Push.Gateway.Async.{State, started, Reach}
use prometheus_cpp.Push.Gateway.Async

module _ {W D H : Type 0} ⦃d : Double D⦄ (c : Collectables W D) (print : D → Bytes) (curl : Curl H)
    (g : Gateway H) where
  abbrev pub push : W → H → Option (ℤ × W × H)
  push w h = Gateway.push c print curl post g w h

  abbrev pub push_add : W → H → Option (ℤ × W × H)
  push_add w h = Gateway.push c print curl put g w h

  abbrev pub async_push : W → H → Option (State H × W)
  async_push w h = Async.async_push c print post g w h

  abbrev pub async_push_add : W → H → Option (State H × W)
  async_push_add w h = Async.async_push c print put g w h

module _ {H : Type 0} (g : Gateway H) where
  abbrev pub async_delete : H → State H
  async_delete h = started (record { method = delete; uri = g.job_uri; body = [] } ∷ []) h

  abbrev pub async_delete_for_instance : H → State H
  async_delete_for_instance h =
      started (record { method = delete; uri = g.job_uri ++ g.labels; body = [] } ∷ []) h
