-- ===== src/Push.antt =====
-- The directory push/.
pub mod LabelEncoder
pub mod CurlWrapper
pub mod Gateway
