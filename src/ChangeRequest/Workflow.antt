-- ===== src/ChangeRequest/Workflow.antt =====
-- The life of a request: rounds of the controller (internal/controller/aichangerequest_controller.go)
-- between edits that the API server lets through (the transition rules of
-- api/v1alpha1/aichangerequest_types.go).
pub mod Evidence
pub mod Branches
pub mod Consistent
pub mod Terminal
pub mod Approved
pub mod Failed
use ai_finops_operator.Prelude.{◌≡◌, ◌⊎◌, ℤ, String, Bool, true, false, ◌==◌, Option, none, some}
use ai_finops_operator.ChangeRequest.Types.{Approval, Phase, Scope, Decision, Spec, Status, Request}
use ai_finops_operator.ChangeRequest.Decision.{Digests, is_authorization, scope_digest_of}
use ai_finops_operator.ChangeRequest.Reconcile.{Environment, reconcile}

-- The transition rules of the spec.
pub record IsAllowed (old new : Spec) : Type 0 where
  pub same_action : new.action ≡ old.action
  pub same_scope :
      (scope : Scope)
      → old.govar_route_approval ≡ some scope
      → new.govar_route_approval ≡ some scope
  pub same_requester : (old.requested_by == "") ≡ false → new.requested_by ≡ old.requested_by
  pub same_proposal :
      (old.proposal_digest == "") ≡ false → new.proposal_digest ≡ old.proposal_digest
  pub same_decision : (d : Decision) → old.govar_decision ≡ some d → new.govar_decision ≡ some d
  pub same_approval : (old.approval ≡ Approval.approval_pending) ⊎ (new.approval ≡ old.approval)

-- The status of a request that was just created.
pub record IsNew (s : Status) : Type 0 where
  pub phase_unset : s.phase ≡ Phase.unset
  pub no_approval : s.approved_at ≡ none

abbrev pub is_approved : Phase → Bool
is_approved Phase.approved = true
is_approved _ = false

-- A status with the same phase and the same evidence.
abbrev pub Same : Status → Status → Type 0
Same s t =
    (t.phase ≡ s.phase)
    × (t.approved_at ≡ s.approved_at)
    × (t.approved_scope_digest ≡ s.approved_scope_digest)
    × (t.approved_decision_digest ≡ s.approved_decision_digest)
    × (t.approved_by ≡ s.approved_by)

module _ (digests : Digests) where
  pub data Step (c : Request) : Request → Type 0 where
    reconciled : (env : Environment) → env.digests ≡ digests → Step c (reconcile env c).request
    edited :
        (spec : Spec) (generation : ℤ)
        → IsAllowed c.spec spec
        → Step c (record c { spec = spec; generation = generation })

  pub data Reachable : Request → Type 0 where
    created : (c : Request) → IsNew c.status → Reachable c
    next : {c d : Request} → Reachable c → Step c d → Reachable d

  -- The evidence in the status is that of the scope and of the decision in the spec, and the
  -- reviewer is not the requester.
  pub record IsBacked (spec : Spec) (s : Status) (scope : Scope) (d : Decision) : Type 0 where
    pub for_route : is_authorization spec.action ≡ true
    pub has_scope : spec.govar_route_approval ≡ some scope
    pub has_decision : spec.govar_decision ≡ some d
    pub requested : (spec.requested_by == "") ≡ false
    pub same_scope : s.approved_scope_digest ≡ scope.scope_digest
    pub scope_digested : (scope.scope_digest == scope_digest_of digests scope) ≡ true
    pub same_decision : s.approved_decision_digest ≡ d.decision_digest
    pub same_reviewer : s.approved_by ≡ d.reviewer_identity
    pub other_reviewer : (d.reviewer_identity == spec.requested_by) ≡ false
    pub decided : d.outcome ≡ Approval.approval_approved

  -- No approval is on record, or one that the spec backs.
  pub data IsConsistent (spec : Spec) (s : Status) : Type 0 where
    unapproved : s.approved_at ≡ none → is_approved s.phase ≡ false → IsConsistent spec s
    backed :
        (scope : Scope) (d : Decision)
        → is_approved s.phase ≡ true
        → IsBacked spec s scope d
        → IsConsistent spec s

  -- What any number of rounds and edits make of a request.
  pub data Later (c : Request) : Request → Type 0 where
    now : Later c c
    then_on : {d e : Request} → Later c d → Step d e → Later c e
