-- ===== src/Pull/Exposer/Tests.antt =====
-- An exposer with two endpoints, after pull/tests/integration/integration_test.cc.
use prometheus_cpp.Common.{
  ℕ, suc, true, List, [], ◌∷◌, Option, some, none, Bytes, codes, bytes_eq, if◌then◌else◌, ◌≡◌, refl,
}
use prometheus_cpp.Double.Sample.{Number, number_double}
use prometheus_cpp.Core.Collectable.Sample.{program}
use prometheus_cpp.Pull.Endpoint.{CivetServer, Addresses}
use prometheus_cpp.Pull.Exposer.{Exposer, find_endpoint, destroy}
use prometheus_cpp.Pull.Exposer.Routes.{Tables, Routed}
use prometheus_cpp.Pull.Exposer.Routes.Find.{Separate}
use prometheus_cpp.Pull.Exposer.Calls.{
  Call, registers, registers_auth, removes, run, run-Routed, destroy-cleared,
}

-- A server that is its two tables.
record Server : Type 0 where
  handlers : Bytes → Option ℕ
  auths : Bytes → Option ℕ

abbrev put : Bytes → Option ℕ → (Bytes → Option ℕ) → Bytes → Option ℕ
put uri h table u = if bytes_eq uri u then h else table u

abbrev server : CivetServer Server
server = record {
  add_handler = λ uri h s. record s { handlers = put uri (some h) s.handlers };
  remove_handler = λ uri s. record s { handlers = put uri none s.handlers };
  add_auth_handler = λ uri h s. record s { auths = put uri (some h) s.auths };
  remove_auth_handler = λ uri s. record s { auths = put uri none s.auths };
}

tables : Tables server
tables = record {
  handler_of = λ u s. s.handlers u;
  auth_of = λ u s. s.auths u;
  handler_added = λ uri u h s. refl;
  handler_removed = λ uri u s. refl;
  auth_added = λ uri u h s. refl;
  auth_removed = λ uri u s. refl;
  handler_added_auth = λ uri u h s. refl;
  handler_removed_auth = λ uri u s. refl;
  auth_added_handler = λ uri u h s. refl;
  auth_removed_handler = λ uri u s. refl;
}

abbrev empty : Exposer Number Server
empty = record {
  endpoints = [];
  world = program;
  server = record { handlers = λ u. none; auths = λ u. none };
}

-- The addresses from a number on.
abbrev addresses : ℕ → Addresses
addresses n = record {
  registry = n;
  handler = n;
  bytes = record { family = n; metric = n };
  scrapes = record { family = suc n; metric = suc n };
  latencies = record { family = n; metric = n };
}

abbrev calls : List Call
calls =
    registers (addresses 100) 1 (codes "/metrics")
    ∷ registers_auth (addresses 200) 300 (λ username password. true) (codes "realm")
        (codes "/metrics")
    ∷ removes (addresses 400) 1 (codes "/other")
    ∷ []

run-Routed_example :
    Routed tables (run server calls empty).endpoints (run server calls empty).server
unfolding tables Separate find_endpoint
run-Routed_example =
    run-Routed tables calls empty
      (record { separate = tt; handlers = λ u. refl; auths = λ u. refl })

destroy-cleared_example :
    let x' = run server calls empty in
    let s' = (destroy server x'.endpoints x'.world x'.server).1 in
    (tables.handler_of (codes "/metrics") s' ≡ none) × (tables.auth_of (codes "/metrics") s' ≡ none)
unfolding tables
destroy-cleared_example =
    destroy-cleared tables calls empty refl (λ u. (refl, refl)) (codes "/metrics")
