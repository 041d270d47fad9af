-- ===== src/Pull/Handler/Made.antt =====
-- The handler's constructor on a registry that is new, as an endpoint calls it.
use prometheus_cpp.Common.{
  ℕ, ◌*◌, ◌^◌, some, ◌∙◌, ◌==◌, true, false, List, [], ◌∷◌, Bytes, codes, map, ok, ◌≡◌, ◌≢◌, refl,
  ap, ==_iff, Bool-cases, inl, inr,
}
use prometheus_cpp.Double.{Double}
use prometheus_cpp.Core.Metric.{Kind, Object, counters, summaries}
use prometheus_cpp.Core.Summary.{Summary, Clock}
use prometheus_cpp.Core.Summary
use prometheus_cpp.Core.Registry.{
  Registry, set_families, build, with_name, with_help, merge, register, find_family, get_families,
  Owned,
}
use prometheus_cpp.Core.Registry
use prometheus_cpp.Core.Counter.{Counter, new_counter}
use prometheus_cpp.Core.Family
use prometheus_cpp.Core.Family.{Family, Entry}
use prometheus_cpp.Core.CheckNames.{check_metric_name, check_label_name}
use prometheus_cpp.Pull.Handler.Own.{
  Reference, register_and_add, at_family, family_at, add_metric, add_to,
}
use prometheus_cpp.Pull.Handler.{make, with_bytes, with_scrapes, with_latencies, latency_quantiles}

-- The name of a family at an address.
abbrev names : {T : Type 0} → List (Owned T) → List (ℕ × Bytes)
names es = map (λ e. (e.address, e.family.name)) es

==_refl : (n : ℕ) → (n == n) ≡ true
==_refl n = (==_iff n n).1 refl

-- A family with its metrics.
abbrev family_with : {T : Type 0} → Bytes → Bytes → List (Entry T) → Family T
family_with name help metrics = record {
  metrics = metrics;
  name = name;
  help = help;
  constant_labels = [];
}

abbrev entry : {T : Type 0} → ℕ → T → Entry T
entry address object = record { labels = []; address = address; object = object }

-- A family with one metric, under the addresses of a reference.
abbrev one_metric : {T : Type 0} → Bytes → Bytes → Reference → T → Owned T
one_metric name help x object = record {
  address = x.family;
  family = family_with name help (entry x.metric object ∷ []);
}

module _ {D : Type 0} where
  -- A registration that makes a family, and its first metric.
  register_and_add-new :
      (k : Kind) (name help : Bytes) (x : Reference) (object : Object k D) (r r1 : Registry D)
      → register k (with_help help (with_name name build)) x.family r ≡ (r1, ok x.family)
      → family_at x.family (get_families k r1) ≡ some (family_with name help [])
      → register_and_add k name help x object r ≡ (
        set_families k
            (at_family x.family
              (λ _. family_with name help (entry x.metric object ∷ []))
              (get_families k r1))
            r1,
        ok x,
      )
  unfolding register_and_add add_to add_metric Family.add Family.find_labels Family.labels_rejected
  register_and_add-new k name help x object r r1 made found =
      ap (add_to k x.metric object) made ∙ rw (add_to, add_metric, found) refl

module _ {D : Type 0} ⦃d : Double D⦄ where
  abbrev pub bytes_family : Reference → Owned (Counter D)
  bytes_family x =
      one_metric (codes "exposer_transferred_bytes_total")
        (codes "Transferred bytes to metrics services") x new_counter

  abbrev pub scrapes_family : Reference → Owned (Counter D)
  scrapes_family x =
      one_metric (codes "exposer_scrapes_total") (codes "Number of times metrics were scraped") x
        new_counter

module _ {D : Type 0} where
  abbrev pub latencies_family : Reference → Summary D → Owned (Summary D)
  latencies_family x object =
      one_metric (codes "exposer_request_latencies")
        (codes "Latencies of serving scrape requests, in microseconds") x object

  -- The registry that the constructor leaves, of the families that are there.
  abbrev pub made : List (Owned (Counter D)) → List (Owned (Summary D)) → Registry D
  made cs ss = record (Registry.make merge) { counter_families = cs; summary_families = ss }

module _ {D : Type 0} ⦃d : Double D⦄ (bytes scrapes latencies : Reference) where
  add_bytes :
      register_and_add counters
        (codes "exposer_transferred_bytes_total")
        (codes "Transferred bytes to metrics services")
        bytes
        (new_counter {D = D})
        (Registry.make merge)
      ≡ (made (bytes_family bytes ∷ []) [], ok bytes)
  unfolding register find_family family_at at_family check_metric_name check_label_name Family.make
      Family.labels_valid
  add_bytes =
      let b = ==_refl bytes.family in
      register_and_add-new counters _ _ bytes (new_counter {D = D}) (Registry.make merge)
        (made
          (record (bytes_family bytes) {
            family =
                family_with (codes "exposer_transferred_bytes_total")
                  (codes "Transferred bytes to metrics services") [];
          }
            ∷ [])
          [])
        refl (rw (b) refl)
      ∙ rw (b) refl

  add_scrapes :
      (bytes.family == scrapes.family) ≡ false
      → register_and_add counters
          (codes "exposer_scrapes_total")
          (codes "Number of times metrics were scraped")
          scrapes
          (new_counter {D = D})
          (made (bytes_family bytes ∷ []) [])
        ≡ (made (bytes_family bytes ∷ scrapes_family scrapes ∷ []) [], ok scrapes)
  unfolding register find_family family_at at_family check_metric_name check_label_name Family.make
      Family.labels_valid
  add_scrapes q =
      let b = ==_refl scrapes.family in
      register_and_add-new counters _ _ scrapes (new_counter {D = D})
        (made (bytes_family bytes ∷ []) [])
        (made
          ((bytes_family bytes)
            ∷ record (scrapes_family scrapes) {
              family =
                  family_with (codes "exposer_scrapes_total")
                    (codes "Number of times metrics were scraped") [];
            }
            ∷ [])
          [])
        refl (rw (q, b) refl)
      ∙ rw (q, b) refl

  add_latencies :
      (object : Summary D)
      → register_and_add summaries
          (codes "exposer_request_latencies")
          (codes "Latencies of serving scrape requests, in microseconds")
          latencies
          object
          (made (bytes_family bytes ∷ scrapes_family scrapes ∷ []) [])
        ≡ (
          made
              (bytes_family bytes ∷ scrapes_family scrapes ∷ [])
              (latencies_family latencies object ∷ []),
          ok latencies,
        )
  unfolding register find_family family_at at_family check_metric_name check_label_name Family.make
      Family.labels_valid
  add_latencies object =
      let b = ==_refl latencies.family in
      register_and_add-new summaries _ _ latencies object
        (made (bytes_family bytes ∷ scrapes_family scrapes ∷ []) [])
        (made (bytes_family bytes ∷ scrapes_family scrapes ∷ []) (
          record (latencies_family latencies object) {
            family =
                family_with (codes "exposer_request_latencies")
                  (codes "Latencies of serving scrape requests, in microseconds") [];
          }
          ∷ []))
        refl (rw (b) refl)
      ∙ rw (b) refl

  -- The constructor on an empty registry throws nothing where the allocator gives the two families of counters two
  -- addresses: the handler has no collectables and its three references, and the registry has the two families of
  -- counters and the family of summaries under these addresses, each with one metric, and no other family.
  pub make-returns :
      (number : ℕ) (clock : Clock)
      → bytes.family ≢ scrapes.family
      → let (object, clock') = Summary.make {D = D} latency_quantiles (60 * 10 ^ 9) 5 clock in
        make number bytes scrapes latencies (Registry.make merge) clock ≡ (
          made
              (bytes_family bytes ∷ scrapes_family scrapes ∷ [])
              (latencies_family latencies object ∷ []),
          ok (record {
            collectables = [];
            registry = number;
            bytes_transferred = bytes;
            num_scrapes = scrapes;
            request_latencies = latencies;
          }),
          clock',
        )
  unfolding make with_bytes with_scrapes
  make-returns number clock h = elim (Bool-cases (bytes.family == scrapes.family)) [
    | inl q ↦ absurd (h ((==_iff bytes.family scrapes.family).0 q))
    | inr q ↦
        ap (with_bytes number scrapes latencies clock) add_bytes
        ∙ (ap (with_scrapes number bytes latencies clock) (add_scrapes q)
            ∙ ap (with_latencies number bytes scrapes _) (add_latencies _))
  ]
