-- ===== src/Pull/Handler/Scrape.antt =====
-- What a scrape leaves in the handler's own metrics.
use prometheus_cpp.Common.{
  ℕ, ◌-◌, ◌/◌, ◌==◌, ==_iff, List, [], ◌∷◌, Option, none, some, Bytes, returned, Option-cases,
  some-injective, ◌≡◌, ◌≢◌, refl, sym, ap, ◌∙◌, Bool-cases, inl, inr, arith,
}
use prometheus_cpp.Double.{Double}
use prometheus_cpp.Core.ClientMetric.{MetricFamily}
use prometheus_cpp.Core.Metric.{counters, summaries}
use prometheus_cpp.Core.Counter
use prometheus_cpp.Core.Counter.{Counter}
use prometheus_cpp.Core.Summary.{Clock, later}
use prometheus_cpp.Core.Summary
use prometheus_cpp.Core.Family.{Family, Entry}
use prometheus_cpp.Core.Registry.{Registry, Owned}
use prometheus_cpp.Core.Collectable.Registries.{Shared, Registries, registries}
use prometheus_cpp.Core.TextSerializer.{serialize}
use prometheus_cpp.Pull.MetricsCollector.{collect_metrics}
use prometheus_cpp.Pull.Response.{Zlib, write_response}
use prometheus_cpp.Pull.Response.Framed.{NamesGzip, accepted_iff, IsResponse, sent-IsResponse}
use prometheus_cpp.Pull.Response.Gzip.{Compresses, gzip_compress-Compresses}
use prometheus_cpp.Pull.Handler.Own.{
  Reference, at_metric, at_family, family_at, metric_at, update_metric, read_metric,
}
use prometheus_cpp.Pull.Handler.{
  MetricsHandler, registry_at, set_registry, count_scrape, compressed, handle_get,
}

-- A function on what is there.
abbrev pub on_some : {A B : Type 0} → (A → B) → Option A → Option B
on_some f none = none
on_some f (some a) = some (f a)

module _ {T : Type 0} where
  metric_at-at_metric :
      (address : ℕ) (f : T → T) (es : List (Entry T))
      → metric_at address (at_metric address f es) ≡ on_some f (metric_at address es)
  unfolding metric_at at_metric
  metric_at-at_metric address f [] = refl
  metric_at-at_metric address f (e ∷ es) = elim (Bool-cases (e.address == address)) [
    | inl q ↦ rw (at_metric, metric_at, q, metric_at, q) refl
    | inr q ↦ rw (at_metric, metric_at, q, metric_at, q) (metric_at-at_metric address f es)
  ]

  family_at-at_family :
      (address : ℕ) (f : Family T → Family T) (es : List (Owned T))
      → family_at address (at_family address f es) ≡ on_some f (family_at address es)
  unfolding family_at at_family
  family_at-at_family address f [] = refl
  family_at-at_family address f (e ∷ es) = elim (Bool-cases (e.address == address)) [
    | inl q ↦ rw (at_family, family_at, q, family_at, q) refl
    | inr q ↦ rw (at_family, family_at, q, family_at, q) (family_at-at_family address f es)
  ]

  family_at-other :
      (address other : ℕ) (f : Family T → Family T) (es : List (Owned T))
      → address ≢ other
      → family_at other (at_family address f es) ≡ family_at other es
  unfolding family_at at_family
  family_at-other address other f [] h = refl
  family_at-other address other f (e ∷ es) h = elim (Bool-cases (e.address == address)) [
    | inl q ↦ elim (Bool-cases (e.address == other)) [
      | inl p ↦ absurd (h (sym ((==_iff e.address address).0 q) ∙ (==_iff e.address other).0 p))
      | inr p ↦ rw (at_family, family_at, q, p) (family_at-other address other f es h)
    ]
    | inr q ↦ let ih = family_at-other address other f es h in rw (at_family, family_at, q, ih) refl
  ]

module _ {D : Type 0} where
  read-update :
      (x : Reference) (f : Counter D → Counter D) (r : Registry D)
      → read_metric counters x (update_metric counters x f r) ≡ on_some f (read_metric counters x r)
  unfolding read_metric update_metric
  read-update x f r = elim (Option-cases (family_at x.family r.counter_families)) [
    | inl h ↦
        rw
          (
            family_at-at_family x.family
                (λ fam. record fam { metrics = at_metric x.metric f fam.metrics })
                r.counter_families,
            h,
          )
          refl
    | inr (fam, h) ↦
        rw
          (
            family_at-at_family x.family
                (λ fam. record fam { metrics = at_metric x.metric f fam.metrics })
                r.counter_families,
            h,
          )
          (metric_at-at_metric x.metric f fam.metrics)
  ]

  read-other :
      (x y : Reference) (f : Counter D → Counter D) (r : Registry D)
      → x.family ≢ y.family
      → read_metric counters y (update_metric counters x f r) ≡ read_metric counters y r
  unfolding read_metric update_metric
  read-other x y f r h =
      rw
        (family_at-other x.family y.family
          (λ fam. record fam { metrics = at_metric x.metric f fam.metrics }) r.counter_families h)
        refl

  registry_at-set_registry :
      (number : ℕ) (r r' : Registry D) (shared : List (Shared D))
      → registry_at number shared ≡ some r
      → registry_at number (set_registry number r' shared) ≡ some r'
  registry_at-set_registry number r r' [] h = ground arith
  registry_at-set_registry number r r' (s ∷ shared) h = elim (Bool-cases (s.number == number)) [
    | inl q ↦ rw (q, q) refl
    | inr q ↦ rw (q, q) (registry_at-set_registry number r r' shared (rw (q) at h))
  ]

module _ {D : Type 0} ⦃d : Double D⦄ where
  count_scrape-counts :
      (handler : MetricsHandler) (duration body_size : ℕ) (r r' : Registry D) (clock clock' : Clock)
      → handler.bytes_transferred.family ≢ handler.num_scrapes.family
      → count_scrape handler duration body_size r clock ≡ some (r', clock')
      → (read_metric counters handler.bytes_transferred r'
          ≡ on_some
              (Counter.increment_by (d.of_uint body_size))
              (read_metric counters handler.bytes_transferred r))
        × (read_metric counters handler.num_scrapes r'
            ≡ on_some Counter.increment (read_metric counters handler.num_scrapes r))
  unfolding count_scrape
  count_scrape-counts handler duration body_size r r' clock clock' apart run =
      let (latencies, one, run1) =
        returned (read_metric summaries handler.request_latencies r) _ _ run in
      let (observed, two, run2) =
        returned (Summary.observe (d.of_uint (duration / 1000)) latencies clock) _ _ run1 in
      let r1 = update_metric summaries handler.request_latencies (λ _. observed.0) r in
      let r2 =
        update_metric counters handler.bytes_transferred
          (Counter.increment_by (d.of_uint body_size)) r1 in
      let end = ap (λ p. p.0) (some-injective _ _ run2) in
      (
        rw (sym end) (
            read-other handler.num_scrapes handler.bytes_transferred Counter.increment r2
              (λ e. apart (sym e))
            ∙ read-update handler.bytes_transferred (Counter.increment_by (d.of_uint body_size))
                r1),
        rw (sym end) (
            read-update handler.num_scrapes Counter.increment r2
            ∙ ap (on_some Counter.increment) (
                read-other handler.bytes_transferred handler.num_scrapes
                  (Counter.increment_by (d.of_uint body_size)) r1 apart)),
      )

module _ {D : Type 0} where
  -- A state whose registry under the number is replaced is the one afterwards.
  after_scrape :
      (number : ℕ) (response sent : Bytes) (r r' : Registry D) (shared : List (Shared D))
      (clock : Clock) (w' : Registries D)
      → registry_at number shared ≡ some r
      → Path
          (Option (Bytes × Registries D))
          (some (response, record { shared = set_registry number r' shared; clock = clock }))
          (some (sent, w'))
      → (sent ≡ response) × (registry_at number w'.shared ≡ some r')
  after_scrape number response sent r r' shared clock w' h e =
      let end = some-injective _ _ e in
      (
        sym (ap (λ p. p.0) end),
        ap (λ p. registry_at number p.1.shared) (sym end)
            ∙ registry_at-set_registry number r r' shared h,
      )

module _ {D Z : Type 0} ⦃d : Double D⦄ (print : D → Bytes) (zlib : Zlib Z) (fuel : Bytes → ℕ) where
  -- Where the client names `gzip`, the text is compressed by the rounds of zlib.
  compressed-Compresses :
      (accept_encoding : Option Bytes) (text packed : Bytes)
      → compressed zlib fuel accept_encoding text ≡ some packed
      → NamesGzip accept_encoding
      → Compresses zlib text packed
  unfolding compressed
  compressed-Compresses accept_encoding text packed h n =
      let accepted = (accepted_iff accept_encoding).1 n in
      gzip_compress-Compresses zlib (fuel text) text packed (rw (compressed, accepted) at h)

  -- A scrape that is answered has collected the handler's collectables first, and has sent a response whose content is the
  -- text of what they gave; or, where the client names `gzip` and the compression of this text has a result, that result: it
  -- is what the rounds of zlib write for the text, and empty where one of them fails. Then, in its own registry, the counter
  -- of scrapes is what the collection left and one more, and the counter of transferred bytes what it left and the length of
  -- the content that was sent, where the counters stand there. (They stand in two families, as the constructor makes them.)
  pub handle_get-counts :
      (handler : MetricsHandler) (accept_encoding : Option Bytes) (w w' : Registries D)
      (sent : Bytes)
      → handler.bytes_transferred.family ≢ handler.num_scrapes.family
      → handle_get print zlib fuel handler accept_encoding w ≡ some (sent, w')
      → (metrics : List (MetricFamily D)) × (w1 : Registries D) × (packed : Bytes) × (size : ℕ) × (r
          r' : Registry D)
        × (collect_metrics registries handler.collectables (record w { clock = later w.clock })
            ≡ some (metrics, w1))
        × (NamesGzip accept_encoding → Compresses zlib (serialize print metrics) packed)
        × IsResponse accept_encoding (serialize print metrics) packed sent size
        × (registry_at handler.registry w1.shared ≡ some r)
        × (registry_at handler.registry w'.shared ≡ some r')
        × (read_metric counters handler.num_scrapes r'
            ≡ on_some Counter.increment (read_metric counters handler.num_scrapes r))
        × (read_metric counters handler.bytes_transferred r'
            ≡ on_some
                (Counter.increment_by (d.of_uint size))
                (read_metric counters handler.bytes_transferred r))
  unfolding handle_get count_scrape
  handle_get-counts handler accept_encoding w w' sent apart run =
      let (collected, one, run1) =
        returned
          (collect_metrics registries handler.collectables (record w { clock = later w.clock })) _ _
          run in
      let text = serialize print collected.0 in
      let (packed, two, run2) = returned (compressed zlib fuel accept_encoding text) _ _ run1 in
      let (r, three, run3) = returned (registry_at handler.registry collected.1.shared) _ _ run2 in
      let response = write_response accept_encoding packed text in
      let (counted, four, run4) =
        returned
          (count_scrape handler (collected.1.clock 0 - w.clock 0) response.1 r
            (later collected.1.clock))
          _ _ run3 in
      let (size, scrapes) =
        count_scrape-counts handler (collected.1.clock 0 - w.clock 0) response.1 r counted.0
          (later collected.1.clock) counted.1 apart four in
      let (same, kept) =
        after_scrape handler.registry _ sent r counted.0 collected.1.shared counted.1 w' three
          run4 in
      let answer : IsResponse accept_encoding text packed sent response.1 =
        sent-IsResponse accept_encoding packed text sent same in
      (
        collected.0,
        collected.1,
        packed,
        response.1,
        r,
        counted.0,
        one,
        compressed-Compresses accept_encoding text packed two,
        answer,
        three,
        kept,
        scrapes,
        size,
      )
