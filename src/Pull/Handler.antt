-- ===== src/Pull/Handler.antt =====
-- pull/src/handler.cc and pull/src/handler.h: the handler of one endpoint. The collectables are the registries of a
-- program; the handler's own metrics stand in one of them, and are known by their addresses, which the allocator
-- chooses. A tick of the steady clock is a nanosecond.
pub mod Own
pub mod Scrape
pub mod Made
pub mod Ready
pub mod Returns
mod Tests
use prometheus_cpp.Common.{
  ℕ, ◌+◌, ◌-◌, ◌*◌, ◌/◌, ◌^◌, Bool, true, false, not, List, [], ◌∷◌, ◌++◌, map, Option, none, some,
  ◌>>=?◌, Bytes, codes, ◌==◌, if◌then◌else◌, remove_if, Result, ok, err, Error, invalid_argument,
}
use prometheus_cpp.Double.{Double}
use prometheus_cpp.Core.Labels.{Labels}
use prometheus_cpp.Core.ClientMetric.{MetricFamily}
use prometheus_cpp.Core.Metric.{Kind, counters, summaries, Object, metric_type}
use prometheus_cpp.Core.Counter.{Counter, new_counter}
use prometheus_cpp.Core.Counter
use prometheus_cpp.Core.Ckms.{Quantile, make_quantile}
use prometheus_cpp.Core.Summary.{Summary, Clock, later}
use prometheus_cpp.Core.Summary
use prometheus_cpp.Core.Family.{Family, Entry}
use prometheus_cpp.Core.Family
use prometheus_cpp.Core.Registry.{
  Registry, Owned, Builder, build, with_name, with_help, register, get_families, set_families,
}
use prometheus_cpp.Core.Collectable.Registries.{Shared, Registries, registries}
use prometheus_cpp.Core.TextSerializer.{serialize}
use prometheus_cpp.Pull.MetricsCollector.{collect_metrics, cleanup_stale_pointers}
use prometheus_cpp.Pull.Handler.Own.{
  Reference, at_metric, at_family, family_at, metric_at, update_metric, read_metric, put_family,
  add_metric, refer, add_to, register_and_add,
}
use prometheus_cpp.Pull.Response.{Zlib, gzip_compress, is_encoding_accepted, write_response}

-- The compression is made only where the client accepts it. The fuel of its loop may depend on the text.
unfoldable pub compressed :
    {Z : Type 0} → Zlib Z → (Bytes → ℕ) → Option Bytes → Bytes → Option Bytes
unfolding gzip_compress is_encoding_accepted
compressed zlib fuel accept_encoding body =
    if is_encoding_accepted accept_encoding (codes "gzip")
    then gzip_compress zlib (fuel body) body
    else some []

-- The handler, with the number of the registry that its metrics stand in.
pub record MetricsHandler : Type 0 where
  pub collectables : List ℕ
  pub registry : ℕ
  pub bytes_transferred : Reference
  pub num_scrapes : Reference
  pub request_latencies : Reference

module _ {D : Type 0} where
  abbrev pub registry_at : ℕ → List (Shared D) → Option (Registry D)
  registry_at number [] = none
  registry_at number (s ∷ shared) =
      if s.number == number then some s.registry else registry_at number shared

  abbrev pub set_registry : ℕ → Registry D → List (Shared D) → List (Shared D)
  set_registry number r [] = []
  set_registry number r (s ∷ shared) =
      (if s.number == number then record s { registry = r } else s) ∷ set_registry number r shared

module _ {D : Type 0} ⦃d : Double D⦄ where
  -- The literal `n / 10 ^ k`.
  abbrev pub literal : ℕ → ℕ → D
  literal n k = d.div (d.of_uint n) (d.of_uint (10 ^ k))

  -- The quantiles in the initialiser of `request_latencies_`.
  abbrev pub latency_quantiles : List (Quantile D)
  unfolding make_quantile
  latency_quantiles =
      make_quantile (literal 5 1) (literal 5 2)
      ∷ make_quantile (literal 9 1) (literal 1 2)
      ∷ make_quantile (literal 99 2) (literal 1 3)
      ∷ []

  -- The constructor, on the registry under a number, behind each of its initialisers. Behind the first exception it does
  -- nothing more.
  abbrev pub with_latencies :
      ℕ
      → Reference
      → Reference
      → Clock
      → Registry D × Result Reference
      → Registry D × Result MetricsHandler × Clock
  with_latencies number bytes_transferred num_scrapes clock (r, err e) = (r, err e, clock)
  with_latencies number bytes_transferred num_scrapes clock (r, ok request_latencies) = (
    r,
    ok (record {
      collectables = [];
      registry = number;
      bytes_transferred = bytes_transferred;
      num_scrapes = num_scrapes;
      request_latencies = request_latencies;
    }),
    clock,
  )

  unfoldable pub with_scrapes :
      ℕ
      → Reference
      → Reference
      → Clock
      → Registry D × Result Reference
      → Registry D × Result MetricsHandler × Clock
  unfolding register_and_add Summary.make
  with_scrapes number bytes_transferred latencies clock (r, err e) = (r, err e, clock)
  with_scrapes number bytes_transferred latencies clock (r, ok num_scrapes) =
      let (object, clock') = Summary.make latency_quantiles (60 * 10 ^ 9) 5 clock in
      with_latencies number bytes_transferred num_scrapes clock' (
        register_and_add summaries (codes "exposer_request_latencies")
          (codes "Latencies of serving scrape requests, in microseconds") latencies object r)

  unfoldable pub with_bytes :
      ℕ
      → Reference
      → Reference
      → Clock
      → Registry D × Result Reference
      → Registry D × Result MetricsHandler × Clock
  unfolding register_and_add with_scrapes
  with_bytes number scrapes latencies clock (r, err e) = (r, err e, clock)
  with_bytes number scrapes latencies clock (r, ok bytes_transferred) =
      with_scrapes number bytes_transferred latencies clock (
        register_and_add counters (codes "exposer_scrapes_total")
          (codes "Number of times metrics were scraped") scrapes new_counter r)

  unfoldable pub make :
      ℕ
      → Reference
      → Reference
      → Reference
      → Registry D
      → Clock
      → Registry D × Result MetricsHandler × Clock
  unfolding register_and_add with_bytes
  make number bytes scrapes latencies r clock = with_bytes number scrapes latencies clock (
      register_and_add counters (codes "exposer_transferred_bytes_total")
        (codes "Transferred bytes to metrics services") bytes new_counter r)

  abbrev pub register_collectable : ℕ → MetricsHandler → Registries D → MetricsHandler
  register_collectable collectable handler w = record handler {
    collectables = cleanup_stale_pointers registries handler.collectables w ++ collectable ∷ [];
  }

  -- `locked == candidate.lock()`: the same object, or none on either side.
  abbrev pub same_pointer : ℕ → Registries D → ℕ → Bool
  same_pointer collectable w candidate =
      if registries.alive collectable w
      then if registries.alive candidate w then candidate == collectable else false
      else not (registries.alive candidate w)

  abbrev pub remove_collectable : ℕ → MetricsHandler → Registries D → MetricsHandler
  remove_collectable collectable handler w = record handler {
    collectables = remove_if (same_pointer collectable w) handler.collectables;
  }

module _ {D : Type 0} ⦃d : Double D⦄ where
  -- The duration in microseconds is observed, and the two counters are incremented.
  unfoldable pub count_scrape :
      MetricsHandler → ℕ → ℕ → Registry D → Clock → Option (Registry D × Clock)
  unfolding read_metric update_metric Summary.observe Counter.increment Counter.increment_by
  count_scrape handler duration body_size r clock =
      read_metric summaries handler.request_latencies r >>=? λ latencies.
      Summary.observe (d.of_uint (duration / 1000)) latencies clock >>=? λ (latencies', clock').
      some (
        update_metric counters handler.num_scrapes Counter.increment (
            update_metric counters handler.bytes_transferred
              (Counter.increment_by (d.of_uint body_size))
              (update_metric summaries handler.request_latencies (λ _. latencies') r)),
        clock',
      )

  module _ {Z : Type 0} (print : D → Bytes) (zlib : Zlib Z) (fuel : Bytes → ℕ) where
    -- `handleGet`, with what is sent and the objects afterwards; the answer is always `true`.
    unfoldable pub handle_get :
        MetricsHandler → Option Bytes → Registries D → Option (Bytes × Registries D)
    unfolding collect_metrics serialize compressed write_response count_scrape
    handle_get handler accept_encoding w =
        let start = w.clock 0 in
        collect_metrics registries handler.collectables (record w { clock = later w.clock })
        >>=? λ (metrics, w1).
            let body = serialize print metrics in
            compressed zlib fuel accept_encoding body >>=? λ packed.
            let (sent, body_size) = write_response accept_encoding packed body in
            let stop = w1.clock 0 in
            registry_at handler.registry w1.shared >>=? λ r.
            count_scrape handler (stop - start) body_size r (later w1.clock) >>=? λ (r', clock').
            some
              (sent, record { shared = set_registry handler.registry r' w1.shared; clock = clock' })
