-- ===== src/Pull.antt =====
-- The directory pull/.
pub mod BasicAuth
pub mod MetricsCollector
pub mod Response
pub mod Handler
pub mod Endpoint
pub mod Exposer
