-- ===== src/ChangeRequest/Decision.antt =====
-- The authenticated decision: `ValidateGOVARDecision` and the digests of
-- api/v1alpha1/aichangerequest_types.go.
use ai_finops_operator.Prelude.{
  ◌+◌, ltb, eqb, String, Bool, true, false, not, ◌||◌, ◌==◌, Option, none, some, trim, Result, ok,
  err, ◌>>◌, fail_if,
}
use ai_finops_operator.ChangeRequest.Types.{
  Instant, Action, Approval, Scope, Decision, Spec, Request,
}

abbrev pub govar_approval_reviewer_group : String
govar_approval_reviewer_group = "aiops.imperium.io:gov-ar-approval-reviewers"

-- SHA-256, in hexadecimal, of the JSON of a value after the domain that the code puts before it.
pub record Digests : Type 0 where
  pub scope_json_sha256 : Scope → String
  pub decision_json_sha256 : (namespace name requested_by : String) → Decision → String
  pub proposal_json_sha256 : (namespace name : String) → Spec → String

pub data DecisionError : Type 0 where
  no_scope wrong_proposal no_decision wrong_reviewer wrong_binding : DecisionError
  wrong_digest wrong_time : DecisionError

abbrev pub is_authorization : Action → Bool
is_authorization Action.authorize_govar_route = true
is_authorization Action.reroute = false

abbrev pub same_approval : Approval → Approval → Bool
same_approval Approval.undecided Approval.undecided = true
same_approval Approval.approval_pending Approval.approval_pending = true
same_approval Approval.approval_approved Approval.approval_approved = true
same_approval Approval.approval_rejected Approval.approval_rejected = true
same_approval _ _ = false

abbrev pub is_decided : Approval → Bool
is_decided Approval.approval_approved = true
is_decided Approval.approval_rejected = true
is_decided _ = false

-- The guards on a decision `d` that is there, on the scope `scope`.
unfoldable pub is_other_outcome : Request → Decision → Bool
is_other_outcome c d = not (same_approval d.outcome c.spec.approval) || not (is_decided d.outcome)

unfoldable pub is_no_reviewer : Request → Decision → Bool
is_no_reviewer c d =
    trim d.reviewer_identity == ""
    || d.reviewer_identity == c.spec.requested_by
    || not (d.reviewer_group == govar_approval_reviewer_group)

unfoldable pub is_bound_elsewhere : Request → Scope → Decision → Bool
is_bound_elsewhere c scope d =
    c.uid == ""
    || not (d.request_uid == c.uid)
    || d.admission_uid == ""
    || not (d.proposal_digest == c.spec.proposal_digest)
    || not (d.scope_digest == scope.scope_digest)
    || not (eqb d.valid_until scope.valid_until)

unfoldable pub is_out_of_time : Decision → Instant → Bool
is_out_of_time d now =
    eqb d.decided_at 0
    || ltb (now + 5_000_000_000) d.decided_at
    || not (ltb d.decided_at d.valid_until)
    || not (ltb now d.valid_until)

module _ (digests : Digests) where
  -- ComputeDigest of a scope, ComputeDigest of a decision and ComputeProposalDigest
  unfoldable pub scope_digest_of : Scope → String
  scope_digest_of s = digests.scope_json_sha256 (record s { scope_digest = "" })

  unfoldable pub decision_digest_of : (namespace name requested_by : String) → Decision → String
  decision_digest_of namespace name requested_by d =
      digests.decision_json_sha256 namespace name requested_by (record d { decision_digest = "" })

  unfoldable pub proposal_digest_of : (namespace name : String) → Spec → String
  proposal_digest_of namespace name spec =
      digests.proposal_json_sha256 namespace name
        (record spec { proposal_digest = ""; govar_decision = none; approval = Approval.undecided })

  unfoldable pub is_other_proposal : Request → Bool
  is_other_proposal c =
      trim c.spec.requested_by == ""
      || not (c.spec.proposal_digest == proposal_digest_of c.namespace c.name c.spec)

  unfoldable pub has_other_digest : Request → Decision → Bool
  has_other_digest c d =
      not (d.decision_digest == decision_digest_of c.namespace c.name c.spec.requested_by d)

  unfoldable pub check_decision :
      Request → Scope → Decision → Instant → Result DecisionError (Unit {0})
  check_decision c scope d now = do
    fail_if (is_other_outcome c d) DecisionError.no_decision
    fail_if (is_no_reviewer c d) DecisionError.wrong_reviewer
    fail_if (is_bound_elsewhere c scope d) DecisionError.wrong_binding
    fail_if (has_other_digest c d) DecisionError.wrong_digest
    fail_if (is_out_of_time d now) DecisionError.wrong_time
    ok tt

  unfoldable pub check_decided :
      Request → Scope → Option Decision → Instant → Result DecisionError (Unit {0})
  check_decided c scope none now = err DecisionError.no_decision
  check_decided c scope (some d) now = check_decision c scope d now

  unfoldable pub check_scoped : Request → Option Scope → Instant → Result DecisionError (Unit {0})
  check_scoped c none now = err DecisionError.no_scope
  check_scoped c (some scope) now = do
    fail_if (not (is_authorization c.spec.action)) DecisionError.no_scope
    fail_if (is_other_proposal c) DecisionError.wrong_proposal
    check_decided c scope c.spec.govar_decision now

  -- ValidateGOVARDecision
  unfoldable pub validate_govar_decision : Request → Instant → Result DecisionError (Unit {0})
  validate_govar_decision c now = check_scoped c c.spec.govar_route_approval now
