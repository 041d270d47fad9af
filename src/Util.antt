-- ===== src/Util.antt =====
-- The directory util/.
pub mod Base64
