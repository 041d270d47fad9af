-- ===== src/Pull/Exposer.antt =====
-- pull/src/exposer.cc and pull/include/prometheus/exposer.h. A call holds the mutex throughout, so calls are whole
-- steps. A call that creates an endpoint takes the addresses that the allocator gives.
pub mod Routes
pub mod Calls
mod Tests
use prometheus_cpp.Common.{
  ℕ, Bool, List, [], ◌∷◌, ◌++◌, Option, none, some, Bytes, codes, bytes_eq, show_uint,
  if◌then◌else◌, Result, ok, err, Error, invalid_argument,
}
use prometheus_cpp.Double.{Double}
use prometheus_cpp.Core.Collectable.Registries.{Registries}
use prometheus_cpp.Pull.Endpoint.{CivetServer, Endpoint, Addresses}
use prometheus_cpp.Pull.Endpoint

-- The exposer, with the program's registries and the server.
pub record Exposer (D S : Type 0) : Type 0 where
  pub endpoints : List Endpoint
  pub world : Registries D
  pub server : S

-- The options that the second constructor builds.
abbrev pub options_for : Bytes → ℕ → List Bytes
options_for bind_address num_threads =
    codes "listening_ports" ∷ bind_address ∷ codes "num_threads" ∷ show_uint num_threads ∷ []

-- The first constructor, of a shared pointer to a server, which may be null.
unfoldable pub make : {D S : Type 0} → Option S → Registries D → Result (Exposer D S)
make none w = err invalid_argument
make (some s) w = ok (record { endpoints = []; world = w; server = s })

-- `GetURI() == uri`, the test of `std::find_if`.
unfoldable pub find_endpoint : Bytes → List Endpoint → Option Endpoint
find_endpoint uri [] = none
find_endpoint uri (e ∷ es) = if bytes_eq e.uri uri then some e else find_endpoint uri es

-- A change of the endpoint that `find_endpoint` finds.
unfoldable pub change_endpoint : Bytes → Endpoint → List Endpoint → List Endpoint
change_endpoint uri e' [] = []
change_endpoint uri e' (e ∷ es) =
    if bytes_eq e.uri uri then e' ∷ es else e ∷ change_endpoint uri e' es

module _ {D S : Type 0} where
  -- A new endpoint is at the end of the list; an exception leaves the list as it is.
  abbrev pub emplace_back :
      Exposer D S → Result Endpoint × Registries D × S → Exposer D S × Result Endpoint
  emplace_back x (err e, w, s) = (record x { world = w; server = s }, err e)
  emplace_back x (ok e, w, s) =
      (record { endpoints = x.endpoints ++ e ∷ []; world = w; server = s }, ok e)

module _ {D S : Type 0} ⦃d : Double D⦄ (server : CivetServer S) where
  unfoldable pub get_endpoint_for_uri :
      Addresses → Bytes → Exposer D S → Exposer D S × Result Endpoint
  unfolding find_endpoint Endpoint.make
  get_endpoint_for_uri a uri x = elim (find_endpoint uri x.endpoints) [
    | some e ↦ (x, ok e)
    | none ↦ emplace_back x (Endpoint.make server a uri x.world x.server)
  ]

module _ {D S : Type 0} where
  -- The rest of a method, on the endpoint it has; an exception ends it.
  abbrev pub on_endpoint :
      Bytes
      → (Endpoint → Registries D → S → Endpoint × S)
      → Exposer D S × Result Endpoint
      → Exposer D S × Result Endpoint
  unfolding change_endpoint
  on_endpoint uri f (x, err e) = (x, err e)
  on_endpoint uri f (x, ok e) =
      let (e', s) = f e x.world x.server in
      (record x { endpoints = change_endpoint uri e' x.endpoints; server = s }, ok e')

module _ {D S : Type 0} ⦃d : Double D⦄ (server : CivetServer S) where
  unfoldable pub register_collectable :
      Addresses → ℕ → Bytes → Exposer D S → Exposer D S × Result Endpoint
  unfolding get_endpoint_for_uri change_endpoint
  register_collectable a collectable uri x =
      on_endpoint uri (λ e w s. (Endpoint.register_collectable collectable e w, s))
        (get_endpoint_for_uri server a uri x)

  unfoldable pub register_auth :
      Addresses
      → ℕ
      → (Bytes → Bytes → Bool)
      → Bytes
      → Bytes
      → Exposer D S
      → Exposer D S × Result Endpoint
  unfolding get_endpoint_for_uri change_endpoint Endpoint.register_auth
  register_auth a address callback realm uri x =
      on_endpoint uri (λ e w s. Endpoint.register_auth server address callback realm e s)
        (get_endpoint_for_uri server a uri x)

  unfoldable pub remove_collectable :
      Addresses → ℕ → Bytes → Exposer D S → Exposer D S × Result Endpoint
  unfolding get_endpoint_for_uri change_endpoint
  remove_collectable a collectable uri x =
      on_endpoint uri (λ e w s. (Endpoint.remove_collectable collectable e w, s))
        (get_endpoint_for_uri server a uri x)

module _ {D S : Type 0} (server : CivetServer S) where
  -- The destructor: the endpoints are destroyed one after the other.
  unfoldable pub destroy : List Endpoint → Registries D → S → Registries D × S
  unfolding Endpoint.destroy
  destroy [] w s = (w, s)
  destroy (e ∷ es) w s = let (w', s') = Endpoint.destroy server e w s in destroy es w' s'
