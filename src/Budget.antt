-- ===== src/Budget.antt =====
-- The budget of a policy: internal/budgetengine and internal/controller/budgetfallback.go.
pub mod Phases
pub mod Samples
pub mod Fallback
mod Tests
