-- ===== src/Sovereignty.antt =====
-- The sovereignty engines: internal/sovereigntyengine, internal/shadowengine and
-- internal/enforcementengine.
pub mod Zones
pub mod Findings
pub mod Flows
pub mod Shadow
pub mod Decisions
mod Tests
