-- ===== src/ChangeRequest.antt =====
-- The approval workflow of a change request: api/v1alpha1/aichangerequest_types.go and
-- internal/controller/aichangerequest_controller.go.
pub mod Types
pub mod Decision
pub mod Reconcile
pub mod Workflow
mod Tests
