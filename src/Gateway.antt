-- ===== src/Gateway.antt =====
-- The mutation of gateway routes: internal/gatewayreroute.
pub mod Json
pub mod Reroute
pub mod Actuator
pub mod Refinement
mod Tests
