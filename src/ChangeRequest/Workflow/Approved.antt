-- ===== src/ChangeRequest/Workflow/Approved.antt =====
-- What a round of aichangerequest_controller.go has checked when it leaves an approval on record.
use ai_finops_operator.Prelude.{◌≡◌, ◌<◌, true, ◌==◌, some}
use ai_finops_operator.ChangeRequest.Types.{Approval, Scope, Decision, Request}
use ai_finops_operator.ChangeRequest.Decision.{scope_digest_of}
use ai_finops_operator.ChangeRequest.Reconcile.{Environment}
use ai_finops_operator.ChangeRequest.Workflow.Evidence.{AreResolved, IsInForce}

-- The checks behind an approval: a reviewer approved a scope whose digest is right, the decision is in
-- force, the scope has not run out, and its references resolve.
pub record IsChecked (env : Environment) (c : Request) (scope : Scope) (d : Decision) : Type 0 where
  pub approved_by_reviewer : c.spec.approval ≡ Approval.approval_approved
  pub has_scope : c.spec.govar_route_approval ≡ some scope
  pub has_decision : c.spec.govar_decision ≡ some d
  pub scope_digested : (scope.scope_digest == scope_digest_of env.digests scope) ≡ true
  pub in_force : IsInForce env.digests c scope d (env.now 1)
  pub scope_in_time : env.now 2 < scope.valid_until
  pub resolved : AreResolved env.cluster scope

abbrev Checked : Environment → Request → Type 0
Checked env c = (scope : Scope) × (d : Decision) × IsChecked env c scope d
