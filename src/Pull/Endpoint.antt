-- ===== src/Pull/Endpoint.antt =====
-- pull/src/endpoint.cc and pull/src/endpoint.h. CivetWeb's server is a parameter, `S` its state: it knows a handler by
-- the address of the object. An endpoint's registry is a collectable of the program, under a number that was not used.
use prometheus_cpp.Common.{
  ℕ, Bool, List, ◌∷◌, Option, none, some, Bytes, ◌==◌, remove_if, Result, ok, err,
}
use prometheus_cpp.Double.{Double}
use prometheus_cpp.Core.Registry.{Registry, merge}
use prometheus_cpp.Core.Registry
use prometheus_cpp.Core.Summary.{Clock}
use prometheus_cpp.Core.Collectable.Registries.{Shared, Registries}
use prometheus_cpp.Pull.BasicAuth.{BasicAuthHandler}
use prometheus_cpp.Pull.Handler.Own.{Reference}
use prometheus_cpp.Pull.Handler.{MetricsHandler}
use prometheus_cpp.Pull.Handler

-- The calls of `CivetServer`.
pub record CivetServer (S : Type 0) : Type 0 where
  pub add_handler : Bytes → ℕ → S → S
  pub remove_handler : Bytes → S → S
  pub add_auth_handler : Bytes → ℕ → S → S
  pub remove_auth_handler : Bytes → S → S

-- An object behind a `std::unique_ptr`, with its address.
pub record Pointer (A : Type 0) : Type 0 where
  pub address : ℕ
  pub object : A

pub record Endpoint : Type 0 where
  pub uri : Bytes
  -- The number of `endpoint_registry_`.
  pub registry : ℕ
  pub metrics_handler : Pointer MetricsHandler
  pub auth_handler : Option (Pointer BasicAuthHandler)

-- What the allocator gives to one constructor: the registry's number, the handler's address, and the addresses of the
-- handler's metrics.
pub record Addresses : Type 0 where
  pub registry : ℕ
  pub handler : ℕ
  pub bytes : Reference
  pub scrapes : Reference
  pub latencies : Reference

module _ {D : Type 0} ⦃d : Double D⦄ where
  abbrev pub register_collectable : ℕ → Endpoint → Registries D → Endpoint
  register_collectable collectable e w = record e {
    metrics_handler = record e.metrics_handler {
      object = Handler.register_collectable collectable e.metrics_handler.object w;
    };
  }

  abbrev pub remove_collectable : ℕ → Endpoint → Registries D → Endpoint
  remove_collectable collectable e w = record e {
    metrics_handler = record e.metrics_handler {
      object = Handler.remove_collectable collectable e.metrics_handler.object w;
    };
  }

module _ {D : Type 0} where
  -- What is left of a program's registries when one is released.
  abbrev pub release : ℕ → List (Shared D) → List (Shared D)
  release number shared = remove_if (λ x. x.number == number) shared

module _ {D S : Type 0} ⦃d : Double D⦄ (server : CivetServer S) where
  -- The constructor behind its initialisers. Where the handler's constructor throws, the registry is released and the
  -- server is not called.
  abbrev pub make_behind :
      Addresses
      → Bytes
      → Registries D
      → S
      → Registry D × Result MetricsHandler × Clock
      → Result Endpoint × Registries D × S
  make_behind a uri w s (r, err e, clock) = (err e, record w { clock = clock }, s)
  make_behind a uri w s (r, ok handler, clock) =
      let w' : Registries D = record {
        shared = record { number = a.registry; registry = r } ∷ w.shared;
        clock = clock;
      } in
      let e : Endpoint = record {
        uri = uri;
        registry = a.registry;
        metrics_handler = record { address = a.handler; object = handler };
        auth_handler = none;
      } in
      (ok (register_collectable a.registry e w'), w', server.add_handler uri a.handler s)

  unfoldable pub make : Addresses → Bytes → Registries D → S → Result Endpoint × Registries D × S
  unfolding Handler.make
  make a uri w s =
      make_behind a uri w s
        (Handler.make a.registry a.bytes a.scrapes a.latencies (Registry.make merge) w.clock)

module _ {D S : Type 0} (server : CivetServer S) where
  -- The destructor, with the members it destroys; nothing else owns the registry.
  unfoldable pub destroy : Endpoint → Registries D → S → Registries D × S
  destroy e w s =
      let s' = server.remove_handler e.uri s in
      (
        record w { shared = release e.registry w.shared },
        elim e.auth_handler [ none ↦ s' | some p ↦ server.remove_auth_handler e.uri s' ],
      )

module _ {S : Type 0} (server : CivetServer S) where
  -- The new handler stands at an address of its own, and the server knows it before the old one is destroyed.
  unfoldable pub register_auth : ℕ → (Bytes → Bytes → Bool) → Bytes → Endpoint → S → Endpoint × S
  register_auth address callback realm e s = (
    record e {
      auth_handler =
          some
            (record { address = address; object = record { callback = callback; realm = realm } });
    },
    server.add_auth_handler e.uri address s,
  )
