-- ===== src/Pull/Exposer/Routes.antt =====
-- The server's routes and the exposer's endpoints.
pub mod Find
use prometheus_cpp.Common.{
  ℕ, Bool, true, false, List, [], ◌∷◌, ◌++◌, Option, none, some, Bytes, bytes_eq, bytes_eq_refl,
  if◌then◌else◌, Result, ok, err, Error, ◌≡◌, refl, sym, ap, ◌∙◌, ◌⊎◌, inl, inr, Option-cases,
  Result-cases, ok-injective, arith,
}
use prometheus_cpp.Double.{Double}
use prometheus_cpp.Core.Summary.{Clock}
use prometheus_cpp.Core.Collectable.Registries.{Registries}
use prometheus_cpp.Pull.Endpoint.{CivetServer, Pointer, Endpoint, Addresses}
use prometheus_cpp.Pull.Endpoint
use prometheus_cpp.Pull.Handler
use prometheus_cpp.Pull.Handler.{MetricsHandler}
use prometheus_cpp.Core.Registry.{Registry, merge}
use prometheus_cpp.Core.Registry
use prometheus_cpp.Pull.Exposer.{
  Exposer, find_endpoint, emplace_back, change_endpoint, get_endpoint_for_uri, on_endpoint,
  register_collectable, register_auth, remove_collectable, destroy,
}
use prometheus_cpp.Pull.Exposer.Routes.Find.{
  Separate, find_endpoint-append, find_endpoint-change, append-Separate, change-Separate,
  find_endpoint-uri, bytes_eq_cases,
}

-- What CivetWeb documents of its tables of handlers, seen through the handler and the authorization of a URI.
pub record Tables {S : Type 0} (server : CivetServer S) : Type 0 where
  pub handler_of : Bytes → S → Option ℕ
  pub auth_of : Bytes → S → Option ℕ
  pub handler_added :
      (uri u : Bytes) (h : ℕ) (s : S)
      → handler_of u (server.add_handler uri h s)
        ≡ (if bytes_eq uri u then some h else handler_of u s)
  pub handler_removed :
      (uri u : Bytes) (s : S)
      → handler_of u (server.remove_handler uri s)
        ≡ (if bytes_eq uri u then none else handler_of u s)
  pub auth_added :
      (uri u : Bytes) (h : ℕ) (s : S)
      → auth_of u (server.add_auth_handler uri h s)
        ≡ (if bytes_eq uri u then some h else auth_of u s)
  pub auth_removed :
      (uri u : Bytes) (s : S)
      → auth_of u (server.remove_auth_handler uri s)
        ≡ (if bytes_eq uri u then none else auth_of u s)
  pub handler_added_auth :
      (uri u : Bytes) (h : ℕ) (s : S) → auth_of u (server.add_handler uri h s) ≡ auth_of u s
  pub handler_removed_auth :
      (uri u : Bytes) (s : S) → auth_of u (server.remove_handler uri s) ≡ auth_of u s
  pub auth_added_handler :
      (uri u : Bytes) (h : ℕ) (s : S)
      → handler_of u (server.add_auth_handler uri h s) ≡ handler_of u s
  pub auth_removed_handler :
      (uri u : Bytes) (s : S) → handler_of u (server.remove_auth_handler uri s) ≡ handler_of u s

abbrev pub handler_address : Option Endpoint → Option ℕ
handler_address none = none
handler_address (some e) = some e.metrics_handler.address

abbrev pub pointer_address : {A : Type 0} → Option (Pointer A) → Option ℕ
pointer_address none = none
pointer_address (some p) = some p.address

abbrev pub auth_address : Option Endpoint → Option ℕ
auth_address none = none
auth_address (some e) = pointer_address e.auth_handler

module _ {S : Type 0} {server : CivetServer S} (t : Tables server) where
  -- No two endpoints have one URI, and the server knows of every URI the handler and the authorization of its endpoint.
  pub record Routed (es : List Endpoint) (s : S) : Type 0 where
    pub separate : Separate es
    pub handlers : (u : Bytes) → t.handler_of u s ≡ handler_address (find_endpoint u es)
    pub auths : (u : Bytes) → t.auth_of u s ≡ auth_address (find_endpoint u es)

  -- An endpoint's change that the server is told of.
  pub changed-Routed :
      (uri : Bytes) (es : List Endpoint) (e e' : Endpoint) (s s' : S)
      → Routed es s
      → find_endpoint uri es ≡ some e
      → e'.uri ≡ uri
      → e'.metrics_handler.address ≡ e.metrics_handler.address
      → ((u : Bytes) → t.handler_of u s' ≡ t.handler_of u s)
      → ((u : Bytes)
          → t.auth_of u s'
            ≡ (if bytes_eq uri u then pointer_address e'.auth_handler else t.auth_of u s))
      → Routed (change_endpoint uri e' es) s'
  changed-Routed uri es e e' s s' r h k m hs auths = record {
    separate = change-Separate uri es e e' h k r.separate;
    handlers = λ u.
        rw (find_endpoint-change uri es e e' h k u, hs u, r.handlers u)
          (elim (bytes_eq_cases uri u) [
            | inl (q, p) ↦ rw (p, sym q, h, m) refl
            | inr (p, _) ↦ rw (p) refl
          ]);
    auths = λ u.
        rw (find_endpoint-change uri es e e' h k u, auths u, r.auths u)
          (elim (bytes_eq_cases uri u) [ inl (q, p) ↦ rw (p) refl | inr (p, _) ↦ rw (p) refl ]);
  }

  pub created-Routed :
      (es : List Endpoint) (e : Endpoint) (s : S)
      → Routed es s
      → find_endpoint e.uri es ≡ none
      → e.auth_handler ≡ none
      → Routed (es ++ e ∷ []) (server.add_handler e.uri e.metrics_handler.address s)
  created-Routed es e s r h k = record {
    separate = append-Separate es e h r.separate;
    handlers = λ u.
        rw
          (
            find_endpoint-append es e h u,
            t.handler_added e.uri u e.metrics_handler.address s,
            r.handlers u,
          )
          (elim (bytes_eq_cases e.uri u) [ inl (q, p) ↦ rw (p) refl | inr (p, _) ↦ rw (p) refl ]);
    auths = λ u.
        rw
          (
            find_endpoint-append es e h u,
            t.handler_added_auth e.uri u e.metrics_handler.address s,
            r.auths u,
          )
          (elim (bytes_eq_cases e.uri u) [
            | inl (q, p) ↦ rw (p, sym q, h, k) refl
            | inr (p, _) ↦ rw (p) refl
          ]);
  }

  destroyed-Routed :
      {D : Type 0} (e : Endpoint) (es : List Endpoint) (w : Registries D) (s : S)
      → Routed (e ∷ es) s
      → Routed es (Endpoint.destroy server e w s).1
  unfolding Endpoint.destroy Separate find_endpoint
  destroyed-Routed e es w s r = elim (Option-cases e.auth_handler) [
    | inl n ↦
        rw (Endpoint.destroy, n)
          (record {
            separate = r.separate.1;
            handlers = handlers_left;
            auths = λ u.
                rw (t.handler_removed_auth e.uri u s, r.auths u)
                  (elim (bytes_eq_cases e.uri u) [
                    | inl (q, p) ↦
                        let o : find_endpoint u es ≡ none = rw (sym q) r.separate.0 in
                        rw (find_endpoint, p, n, o) refl
                    | inr (p, _) ↦ rw (find_endpoint, p) refl
                  ]);
          })
    | inr (a, n) ↦
        rw (Endpoint.destroy, n)
          (record {
            separate = r.separate.1;
            handlers = λ u.
                t.auth_removed_handler e.uri u (server.remove_handler e.uri s) ∙ handlers_left u;
            auths = λ u.
                rw (t.auth_removed e.uri u (server.remove_handler e.uri s))
                  (elim (bytes_eq_cases e.uri u) [
                    | inl (q, p) ↦ rw (p, sym q, r.separate.0) refl
                    | inr (p, _) ↦
                        rw (t.handler_removed_auth e.uri u s, r.auths u, find_endpoint, p) refl
                  ]);
          })
  ]
    where
      handlers_left :
          (u : Bytes)
          → t.handler_of u (server.remove_handler e.uri s) ≡ handler_address (find_endpoint u es)
      handlers_left u =
          rw (t.handler_removed e.uri u s, r.handlers u)
            (elim (bytes_eq_cases e.uri u) [
              | inl (q, p) ↦ rw (p, sym q, r.separate.0) refl
              | inr (p, _) ↦ rw (find_endpoint, p) refl
            ])

  pub destroy-Routed :
      {D : Type 0} (es : List Endpoint) (w : Registries D) (s : S)
      → Routed es s
      → Routed [] (destroy server es w s).1
  unfolding destroy
  destroy-Routed [] w s r = r
  destroy-Routed (e ∷ es) w s r =
      let p = Endpoint.destroy server e w s in
      destroy-Routed es p.0 p.1 (destroyed-Routed e es w s r)
