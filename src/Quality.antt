-- ===== src/Quality.antt =====
-- The text measures of internal/qualityengine.
pub mod Tables
pub mod Tokens
mod Tests
