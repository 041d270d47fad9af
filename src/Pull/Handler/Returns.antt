-- ===== src/Pull/Handler/Returns.antt =====
-- A handler answers every scrape, one after the other, on a clock that does not go back.
use prometheus_cpp.Common.{
  ℕ, suc, ◌-◌, ◌/◌, ◌<◌, ◌≡◌, refl, ap, ◌∙◌, true, List, [], ◌∷◌, Option, some, some-injective,
  codes, length, ◌>>=?◌, ◌==◌, Bytes, arith, Bool-cases, inl, inr,
}
use prometheus_cpp.Double.{Double}
use prometheus_cpp.Core.Metric.{counters, summaries}
use prometheus_cpp.Core.Counter
use prometheus_cpp.Core.Counter.{Counter}
use prometheus_cpp.Core.Summary.{Clock, later}
use prometheus_cpp.Core.Summary.Returns.{IsSteady, observe-IsReady}
use prometheus_cpp.Core.Registry.{Registry}
use prometheus_cpp.Core.Registry.Ready.{IsReadyRegistry, FamiliesReady-later, shape}
use prometheus_cpp.Core.Collectable.Registries.{Shared, Registries}
use prometheus_cpp.Core.Collectable.Returns.{AllReady, AllReady-later, shape_at}
use prometheus_cpp.Core.TextSerializer.{serialize}
use prometheus_cpp.Pull.MetricsCollector.Returns.{collect_metrics-AllReady}
use prometheus_cpp.Pull.Response.{Zlib, write_response, is_encoding_accepted}
use prometheus_cpp.Pull.Response.Gzip.{Ends, given, gzip_compress-returns}
use prometheus_cpp.Pull.Handler.Own.{update_metric, read_metric}
use prometheus_cpp.Pull.Handler.{
  MetricsHandler, registry_at, set_registry, count_scrape, compressed, handle_get,
}
use prometheus_cpp.Pull.Handler.Ready.{listed, read-Ready, at_family-Ready}

module _ {D : Type 0} ⦃d : Double D⦄ where
  -- The handler's own metrics are counted, and its registry stays ready.
  count_scrape-Ready :
      (handler : MetricsHandler) (duration body_size : ℕ) (r : Registry D) (clock : Clock)
      → IsSteady clock
      → IsReadyRegistry r (clock 0)
      → listed handler.request_latencies (shape r.summary_families) ≡ true
      → (r' : Registry D) × (count_scrape handler duration body_size r clock
          ≡ some (r', later clock))
        × IsReadyRegistry r' (clock 1)
        × (shape r'.summary_families ≡ shape r.summary_families)
  unfolding count_scrape read_metric update_metric
  count_scrape-Ready handler duration body_size r clock s ready l =
      let (m, e, ready_m) =
        read-Ready handler.request_latencies (clock 0) r.summary_families l ready in
      let (m', f, ready') = observe-IsReady (d.of_uint (duration / 1000)) m clock s ready_m in
      let (all, same) =
        at_family-Ready handler.request_latencies (clock 1) m' r.summary_families ready'
          (FamiliesReady-later D summaries (clock 0) (clock 1) r.summary_families (s 0) ready) in
      let r1 = update_metric summaries handler.request_latencies (λ _. m') r in
      let r2 =
        update_metric counters handler.bytes_transferred
          (Counter.increment_by (d.of_uint body_size)) r1 in
      (update_metric counters handler.num_scrapes Counter.increment r2, rw (e, f) refl, all, same)

  registry_at-Ready :
      (number now : ℕ) (shared : List (Shared D)) (h : List (ℕ × List ℕ))
      → shape_at number shared ≡ some h
      → AllReady shared now
      → (r : Registry D) × (registry_at number shared ≡ some r)
        × (shape r.summary_families ≡ h)
        × IsReadyRegistry r now
  registry_at-Ready number now [] h e r = ground arith
  registry_at-Ready number now (x ∷ shared) h e r = elim (Bool-cases (x.number == number)) [
    | inl q ↦ (x.registry, rw (q) refl, some-injective _ _ (rw (q) at e), r.0)
    | inr q ↦
        let (y, f, same, ready) = registry_at-Ready number now shared h (rw (q) at e) r.1 in
        (y, rw (q) f, same, ready)
  ]

  set_registry-Ready :
      (number now : ℕ) (r : Registry D) (shared : List (Shared D)) (h : List (ℕ × List ℕ))
      → shape_at number shared ≡ some h
      → shape r.summary_families ≡ h
      → IsReadyRegistry r now
      → AllReady shared now
      → AllReady (set_registry number r shared) now
        × (shape_at number (set_registry number r shared) ≡ some h)
  set_registry-Ready number now r [] h e same ready a = ground arith
  set_registry-Ready number now r (x ∷ shared) h e same ready a =
      elim (Bool-cases (x.number == number)) [
        | inl q ↦ rw (q, q) ((ready, others shared a.1), ap some same)
        | inr q ↦
            let (all, kept) =
              set_registry-Ready number now r shared h (rw (q) at e) same ready a.1 in
            rw (q, q) ((a.0, all), kept)
      ]
    where
      others :
          (shared : List (Shared D))
          → AllReady shared now
          → AllReady (set_registry number r shared) now
      others [] a = tt
      others (x ∷ shared) a = elim (Bool-cases (x.number == number)) [
        | inl q ↦ rw (q) (ready, others shared a.1)
        | inr q ↦ rw (q) (a.0, others shared a.1)
      ]

  -- The clock does not go back, every registry is ready, and the handler's own summary stands in its registry.
  pub record IsServing (handler : MetricsHandler) (w : Registries D) : Type 0 where
    pub steady : IsSteady w.clock
    pub ready : AllReady w.shared (w.clock 0)
    pub own : List (ℕ × List ℕ)
    pub there : shape_at handler.registry w.shared ≡ some own
    pub latencies : listed handler.request_latencies own ≡ true

module _ {D Z : Type 0} ⦃d : Double D⦄ (print : D → Bytes) (zlib : Zlib Z) (fuel : Bytes → ℕ) where
  compressed-returns :
      (accept_encoding : Option Bytes) (body : Bytes) (ends : Ends zlib)
      → ends.bound (given body) < fuel body
      → (z : Bytes) × (compressed zlib fuel accept_encoding body ≡ some z)
  unfolding compressed
  compressed-returns accept_encoding body ends enough =
      elim (Bool-cases (is_encoding_accepted accept_encoding (codes "gzip"))) [
        | inl q ↦
            let (z, e) = gzip_compress-returns zlib ends (fuel body) body enough in
            (z, rw (compressed, q) e)
        | inr q ↦ ([], rw (compressed, q) refl)
      ]

  handle_get-IsServing :
      (handler : MetricsHandler) (accept_encoding : Option Bytes) (w : Registries D)
      (ends : Ends zlib)
      → ((text : Bytes) → ends.bound (given text) < fuel text)
      → IsServing handler w
      → (y : Bytes × Registries D) × (handle_get print zlib fuel handler accept_encoding w ≡ some y)
        × IsServing handler y.1
  unfolding handle_get
  handle_get-IsServing handler accept_encoding w ends enough h =
      let ((metrics, w1), e, ready1, same1, (steady1, l1)) =
        collect_metrics-AllReady handler.collectables (record w { clock = later w.clock })
          (λ n. h.steady (suc n))
          (AllReady-later w.shared (w.clock 0) (w.clock 1) (h.steady 0) h.ready) in
      let body = serialize print metrics in
      let (packed, f) = compressed-returns accept_encoding body ends (enough body) in
      let (sent, body_size) = write_response accept_encoding packed body in
      let there1 = same1 handler.registry ∙ h.there in
      let ready2 = AllReady-later w1.shared (w1.clock 0) (w1.clock 1) (steady1 0) ready1 in
      let (r, q, shaped, ready_r) =
        registry_at-Ready handler.registry (w1.clock 1) w1.shared h.own there1 ready2 in
      let (r', p, ready', same') =
        count_scrape-Ready handler (w1.clock 0 - w.clock 0) body_size r (later w1.clock)
          (λ n. steady1 (suc n)) ready_r
          (ap (listed handler.request_latencies) shaped ∙ h.latencies) in
      let ready3 = AllReady-later w1.shared (w1.clock 1) (w1.clock 2) (steady1 1) ready2 in
      let (all, kept) =
        set_registry-Ready handler.registry (w1.clock 2) r' w1.shared h.own there1 (same' ∙ shaped)
          ready' ready3 in
      (
        (
          sent,
          record {
            shared = set_registry handler.registry r' w1.shared;
            clock = later (later w1.clock);
          },
        ),
        rw (e, f, q, p) refl,
        record {
          steady = λ n. steady1 (suc (suc n));
          ready = all;
          own = h.own;
          there = kept;
          latencies = h.latencies;
        },
      )

  -- Scrapes, one after the other, each with the header that its client sends.
  unfoldable pub scrapes :
      MetricsHandler → List (Option Bytes) → Registries D → Option (List Bytes × Registries D)
  unfolding handle_get
  scrapes handler [] w = some ([], w)
  scrapes handler (accept_encoding ∷ rest) w =
      handle_get print zlib fuel handler accept_encoding w >>=? λ (sent, w').
      scrapes handler rest w' >>=? λ (more, w''). some (sent ∷ more, w'')

  -- A handler answers any number of scrapes, each of them: where the clock does not go back, the windows of all summaries
  -- in all registries are ready, and the handler's summary of latencies stands in its registry, all of which is so again
  -- afterwards. Of zlib it is assumed that what is left to write of a text has a bound, and that each round that asks for
  -- more lowers it; the fuel of the compression's loop is above this bound.
  pub scrapes-returns :
      (handler : MetricsHandler) (headers : List (Option Bytes)) (w : Registries D)
      (ends : Ends zlib)
      → ((text : Bytes) → ends.bound (given text) < fuel text)
      → IsServing handler w
      → (y : List Bytes × Registries D) × (scrapes handler headers w ≡ some y)
        × IsServing handler y.1
        × (length y.0 ≡ length headers)
  unfolding scrapes
  scrapes-returns handler [] w ends enough h = (([], w), refl, h, refl)
  scrapes-returns handler (accept_encoding ∷ headers) w ends enough h =
      let ((sent, w'), e, h') = handle_get-IsServing handler accept_encoding w ends enough h in
      let ((more, w''), f, h'', n) = scrapes-returns handler headers w' ends enough h' in
      ((sent ∷ more, w''), rw (e, f) refl, h'', ap suc n)
