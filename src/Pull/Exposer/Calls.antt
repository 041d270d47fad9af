-- ===== src/Pull/Exposer/Calls.antt =====
-- The exposer's calls in sequence.
use prometheus_cpp.Common.{
  ℕ, Bool, List, [], ◌∷◌, none, some, Bytes, bytes_eq, bytes_eq_refl, if◌then◌else◌, Result, ok,
  err, ◌≡◌, refl, sym, inl, inr, Option-cases, ok-injective, arith,
}
use prometheus_cpp.Double.{Double}
use prometheus_cpp.Core.Summary.{Clock}
use prometheus_cpp.Core.Collectable.Registries.{Registries}
use prometheus_cpp.Pull.Endpoint.{CivetServer, Pointer, Endpoint, Addresses}
use prometheus_cpp.Pull.Endpoint
use prometheus_cpp.Pull.Handler
use prometheus_cpp.Pull.Handler.{MetricsHandler}
use prometheus_cpp.Core.Registry.{Registry, merge}
use prometheus_cpp.Core.Registry
use prometheus_cpp.Pull.Exposer.{
  Exposer, find_endpoint, emplace_back, change_endpoint, get_endpoint_for_uri, on_endpoint,
  register_collectable, register_auth, remove_collectable, destroy,
}
use prometheus_cpp.Pull.Exposer.Routes.Find.{
  Separate, find_endpoint-append, find_endpoint-uri, bytes_eq_cases,
}
use prometheus_cpp.Pull.Exposer.Routes.{
  Tables, pointer_address, Routed, changed-Routed, created-Routed, destroy-Routed,
}

-- A call of one of the three methods, with what the allocator would give to it.
pub data Call : Type 0 where
  registers : Addresses → ℕ → Bytes → Call
  registers_auth : Addresses → ℕ → (Bytes → Bytes → Bool) → Bytes → Bytes → Call
  removes : Addresses → ℕ → Bytes → Call

module _ {D S : Type 0} ⦃d : Double D⦄ (server : CivetServer S) where
  unfoldable pub perform : Call → Exposer D S → Exposer D S
  unfolding register_collectable register_auth remove_collectable
  perform (registers a collectable uri) x = (register_collectable server a collectable uri x).0
  perform (registers_auth a address callback realm uri) x =
      (register_auth server a address callback realm uri x).0
  perform (removes a collectable uri) x = (remove_collectable server a collectable uri x).0

  unfoldable pub run : List Call → Exposer D S → Exposer D S
  unfolding perform
  run [] x = x
  run (call ∷ calls) x = run calls (perform call x)

module _ {D S : Type 0} ⦃d : Double D⦄ {server : CivetServer S} (t : Tables server) where
  -- A constructor's call: an exception without a call of the server, or an endpoint that the server knows.
  Outcome : Bytes → S → Result Endpoint × Registries D × S → Type 0
  Outcome uri s (err e, w, s') = s' ≡ s
  Outcome uri s (ok e, w, s') =
      (e.uri ≡ uri)
      × (e.auth_handler ≡ none)
      × (s' ≡ server.add_handler e.uri e.metrics_handler.address s)

  make_behind-Outcome :
      (a : Addresses) (uri : Bytes) (w : Registries D) (s : S)
      (m : Registry D × Result MetricsHandler × Clock)
      → Outcome uri s (Endpoint.make_behind server a uri w s m)
  unfolding Outcome
  make_behind-Outcome a uri w s (r, err e, clock) = refl
  make_behind-Outcome a uri w s (r, ok handler, clock) = (refl, refl, refl)

  emplace_back-Routed :
      (uri : Bytes) (x : Exposer D S) (made : Result Endpoint × Registries D × S)
      → Routed t x.endpoints x.server
      → find_endpoint uri x.endpoints ≡ none
      → Outcome uri x.server made
      → let (x', result) = emplace_back x made in
        Routed t x'.endpoints x'.server
        × ((e : Endpoint)
            → result ≡ ok e
            → (e.uri ≡ uri) × (find_endpoint uri x'.endpoints ≡ some e))
  unfolding Outcome
  emplace_back-Routed uri x (err e, w, s) r h o = (rw (o) r, λ e' k. ground arith)
  emplace_back-Routed uri x (ok e, w, s) r h (k, n, o) =
      let h' : find_endpoint e.uri x.endpoints ≡ none = rw (k) h in
      (
        rw (o) (created-Routed t x.endpoints e x.server r h' n),
        λ e' q.
            let q' = ok-injective e e' q in
            rw (sym q')
              (k, rw (find_endpoint-append x.endpoints e h' uri, sym k, bytes_eq_refl e.uri) refl),
      )

  get_endpoint_for_uri-Routed :
      (a : Addresses) (uri : Bytes) (x : Exposer D S)
      → Routed t x.endpoints x.server
      → let (x', result) = get_endpoint_for_uri server a uri x in
        Routed t x'.endpoints x'.server
        × ((e : Endpoint)
            → result ≡ ok e
            → (e.uri ≡ uri) × (find_endpoint uri x'.endpoints ≡ some e))
  unfolding get_endpoint_for_uri Endpoint.make
  get_endpoint_for_uri-Routed a uri x r = elim (Option-cases (find_endpoint uri x.endpoints)) [
    | inr (e, h) ↦
        rw (get_endpoint_for_uri, h)
          (
            r,
            λ e' k.
                let q = ok-injective e e' k in
                rw (sym q) (find_endpoint-uri uri x.endpoints e h, h),
          )
    | inl h ↦
        rw (get_endpoint_for_uri, h)
          (emplace_back-Routed uri x _ r h (
            make_behind-Outcome a uri x.world x.server (
              Handler.make a.registry a.bytes a.scrapes a.latencies (Registry.make merge)
                x.world.clock)))
  ]

  -- A method's work on an endpoint, after which the server knows its authorization.
  Told : Bytes → (Endpoint → Registries D → S → Endpoint × S) → Type 0
  Told uri f =
      (e : Endpoint) (w : Registries D) (s : S)
      → e.uri ≡ uri
      → t.auth_of uri s ≡ pointer_address e.auth_handler
      → let (e', s') = f e w s in
        (e'.uri ≡ uri)
        × (e'.metrics_handler.address ≡ e.metrics_handler.address)
        × ((u : Bytes) → t.handler_of u s' ≡ t.handler_of u s)
        × ((u : Bytes)
            → t.auth_of u s'
              ≡ (if bytes_eq uri u then pointer_address e'.auth_handler else t.auth_of u s))

  on_endpoint-Routed :
      (uri : Bytes) (f : Endpoint → Registries D → S → Endpoint × S) (x : Exposer D S)
      (result : Result Endpoint)
      → Told uri f
      → Routed t x.endpoints x.server
      → ((e : Endpoint) → result ≡ ok e → (e.uri ≡ uri) × (find_endpoint uri x.endpoints ≡ some e))
      → let x' = (on_endpoint uri f (x, result)).0 in Routed t x'.endpoints x'.server
  unfolding Told on_endpoint change_endpoint
  on_endpoint-Routed uri f x (err e) told r found = r
  on_endpoint-Routed uri f x (ok e) told r found =
      let (k, h) = found e refl in
      let known : t.auth_of uri x.server ≡ pointer_address e.auth_handler =
        rw (r.auths uri, h) refl in
      let (u, m, hs, auths) = told e x.world x.server k known in
      changed-Routed t uri x.endpoints e (f e x.world x.server).0 x.server (f e x.world x.server).1
        r h u m hs auths

  -- What does not touch the server nor the authorization.
  unchanged-Told :
      (uri : Bytes) (f : Endpoint → Registries D → MetricsHandler)
      → Told uri
          (λ e w s. (record e { metrics_handler = record e.metrics_handler { object = f e w } }, s))
  unfolding Told
  unchanged-Told uri f e w s k known = (
    k,
    refl,
    λ u. refl,
    λ u. elim (bytes_eq_cases uri u) [
      | inl (q, p) ↦ rw (p, sym q) known
      | inr (p, _) ↦ rw (p) refl
    ],
  )

  method-Routed :
      (a : Addresses) (uri : Bytes) (f : Endpoint → Registries D → S → Endpoint × S)
      (x : Exposer D S)
      → Told uri f
      → Routed t x.endpoints x.server
      → let x' = (on_endpoint uri f (get_endpoint_for_uri server a uri x)).0 in
        Routed t x'.endpoints x'.server
  method-Routed a uri f x told r =
      let g = get_endpoint_for_uri server a uri x in
      let (r', found) = get_endpoint_for_uri-Routed a uri x r in
      on_endpoint-Routed uri f g.0 g.1 told r' found

  perform-Routed :
      (call : Call) (x : Exposer D S)
      → Routed t x.endpoints x.server
      → let x' = perform server call x in Routed t x'.endpoints x'.server
  unfolding perform register_collectable register_auth remove_collectable Told
      Endpoint.register_auth
  perform-Routed (registers a collectable uri) x r =
      method-Routed a uri (λ e w s. (Endpoint.register_collectable collectable e w, s)) x
        (unchanged-Told uri
          (λ e w. Handler.register_collectable collectable e.metrics_handler.object w))
        r
  perform-Routed (removes a collectable uri) x r =
      method-Routed a uri (λ e w s. (Endpoint.remove_collectable collectable e w, s)) x
        (unchanged-Told uri
          (λ e w. Handler.remove_collectable collectable e.metrics_handler.object w))
        r
  perform-Routed (registers_auth a address callback realm uri) x r =
      method-Routed a uri (λ e w s. Endpoint.register_auth server address callback realm e s) x
        (λ e w s k known. (
          k,
          refl,
          λ u. t.auth_added_handler e.uri u address s,
          λ u. rw (sym k) (t.auth_added e.uri u address s),
        ))
        r

  -- The calls of an exposer, whatever endpoints they create, find or fail to create, keep this: no two endpoints have
  -- one URI, and the server knows of each URI the handler and the authorization of the endpoint that the URI finds, and
  -- of another URI none. (A new exposer on a server without handlers has it.)
  pub run-Routed :
      (calls : List Call) (x : Exposer D S)
      → Routed t x.endpoints x.server
      → let x' = run server calls x in Routed t x'.endpoints x'.server
  unfolding run
  run-Routed [] x r = r
  run-Routed (call ∷ calls) x r = run-Routed calls (perform server call x) (perform-Routed call x r)

  -- An exposer that is made on a server without handlers and authorizations, used by any calls and destroyed leaves none
  -- of them on the server: no URI leads to an object that is gone.
  pub destroy-cleared :
      (calls : List Call) (x : Exposer D S)
      → x.endpoints ≡ []
      → ((u : Bytes) → (t.handler_of u x.server ≡ none) × (t.auth_of u x.server ≡ none))
      → (u : Bytes)
      → let x' = run server calls x in
        let s' = (destroy server x'.endpoints x'.world x'.server).1 in
        (t.handler_of u s' ≡ none) × (t.auth_of u s' ≡ none)
  unfolding find_endpoint Separate
  destroy-cleared calls x h clear u =
      let start : Routed t x.endpoints x.server =
        rw (h) (record { separate = tt; handlers = λ v. (clear v).0; auths = λ v. (clear v).1 }) in
      let x' = run server calls x in
      let r = destroy-Routed t x'.endpoints x'.world x'.server (run-Routed calls x start) in
      (r.handlers u, r.auths u)
