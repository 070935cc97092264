-- ===== src/ChangeRequest/Workflow/Evidence.antt =====
-- What the checks of a decision and of the references of a scope say when they pass
-- (aichangerequest_types.go and aichangerequest_controller.go).
use ai_finops_operator.Prelude.{
  ◌≡◌, ◌≤◌, ◌<◌, ◌+◌, eqb_ℤ, true, false, ◌==◌, Option, none, some, ok, arith, trim, fail_if-eq-ok,
  >>=-eq-ok,
}
use ai_finops_operator.Prelude.Dict.{Dict, lookup}
use ai_finops_operator.ChangeRequest.Types.{Instant, ResolvedReference, Scope, Decision, Request}
use ai_finops_operator.ChangeRequest.Decision.{
  Digests, is_authorization, decision_digest_of, proposal_digest_of, validate_govar_decision,
  check_decision, check_scoped, check_decided, is_other_outcome, is_no_reviewer, is_bound_elsewhere,
  has_other_digest, is_out_of_time, is_other_proposal, govar_approval_reviewer_group,
}
use ai_finops_operator.ChangeRequest.Reconcile.References.{
  Object, Cluster, validate_references, is_stale, found, has_empty_reference, is_other_provider,
}

-- The object that a reference names is there, with the identity that the reference has.
pub record IsResolved (objects : Dict Object) (r : ResolvedReference) (o : Object) : Type 0 where
  pub named : lookup r.name objects ≡ some o
  pub same_uid : (o.uid == r.uid) ≡ true
  pub same_generation : eqb_ℤ o.generation r.generation ≡ true

not_stale-IsResolved :
    (objects : Dict Object) (r : ResolvedReference) (o : Object)
    → lookup r.name objects ≡ some o
    → is_stale r o ≡ false
    → IsResolved objects r o
unfolding is_stale
not_stale-IsResolved objects r o h k = record {
  named = h;
  same_uid = ground arith;
  same_generation = ground arith;
}

-- The three objects that the scope names, the model being of the provider.
pub record AreResolved (cluster : Cluster) (scope : Scope) : Type 0 where
  pub policy : Object
  pub model : Object
  pub provider : Object
  pub policy_resolved : IsResolved cluster.routing_policies scope.routing_policy policy
  pub model_resolved : IsResolved cluster.models scope.model model
  pub provider_resolved : IsResolved cluster.providers scope.provider provider
  pub model_of_provider : (model.provider_ref == scope.provider.name) ≡ true

found-eq-ok : (o : Option Object) {x : Object} → found o ≡ ok x → o ≡ some x
found-eq-ok none h = cc
found-eq-ok (some y) h = cc

is_other_provider-false :
    (scope : Scope) (m p : Object)
    → is_other_provider scope m p ≡ false
    → (is_stale scope.provider p ≡ false) × ((m.provider_ref == scope.provider.name) ≡ true)
unfolding is_other_provider
is_other_provider-false scope m p h = ground arith

pub validate_references-AreResolved :
    (cluster : Cluster) (scope : Scope)
    → validate_references cluster scope ≡ ok tt
    → AreResolved cluster scope
unfolding validate_references
validate_references-AreResolved cluster scope h =
    let (e, h₁) = fail_if-eq-ok (has_empty_reference scope) _ _ h in
    let (p, fp, h₂) =
      >>=-eq-ok (found (lookup scope.routing_policy.name cluster.routing_policies)) _ h₁ in
    let (sp, h₃) = fail_if-eq-ok (is_stale scope.routing_policy p) _ _ h₂ in
    let (m, fm, h₄) = >>=-eq-ok (found (lookup scope.model.name cluster.models)) _ h₃ in
    let (sm, h₅) = fail_if-eq-ok (is_stale scope.model m) _ _ h₄ in
    let (q, fq, h₆) = >>=-eq-ok (found (lookup scope.provider.name cluster.providers)) _ h₅ in
    let (so, h₇) = fail_if-eq-ok (is_other_provider scope m q) _ _ h₆ in
    let (stale, same) = is_other_provider-false scope m q so in
    record {
      policy = p;
      model = m;
      provider = q;
      policy_resolved =
          not_stale-IsResolved cluster.routing_policies scope.routing_policy p (found-eq-ok _ fp)
            sp;
      model_resolved = not_stale-IsResolved cluster.models scope.model m (found-eq-ok _ fm) sm;
      provider_resolved =
          not_stale-IsResolved cluster.providers scope.provider q (found-eq-ok _ fq) stale;
      model_of_provider = same;
    }

-- The decision was made by another person than the requester, of the reviewers' group, for this very
-- request, proposal and scope, and it is in force at the time `now`.
pub record IsInForce (digests : Digests) (c : Request) (scope : Scope) (d : Decision)
    (now : Instant) : Type 0 where
  pub other_reviewer : (d.reviewer_identity == c.spec.requested_by) ≡ false
  pub of_reviewers : (d.reviewer_group == govar_approval_reviewer_group) ≡ true
  pub for_request : (d.request_uid == c.uid) ≡ true
  pub proposal_kept :
      (c.spec.proposal_digest == proposal_digest_of digests c.namespace c.name c.spec) ≡ true
  pub for_proposal : (d.proposal_digest == c.spec.proposal_digest) ≡ true
  pub for_scope : (d.scope_digest == scope.scope_digest) ≡ true
  pub digested :
      (d.decision_digest == decision_digest_of digests c.namespace c.name c.spec.requested_by d)
      ≡ true
  pub decided_before : d.decided_at ≤ now + 5_000_000_000
  pub still_valid : now < d.valid_until
  pub valid_as_scope : d.valid_until ≡ scope.valid_until

-- What the guards say when they let a decision pass.
check_decision-passes :
    (digests : Digests) (c : Request) (scope : Scope) (d : Decision) (now : Instant)
    → check_decision digests c scope d now ≡ ok tt
    → (is_other_outcome c d ≡ false)
      × (is_no_reviewer c d ≡ false)
      × (is_bound_elsewhere c scope d ≡ false)
      × (has_other_digest digests c d ≡ false)
      × (is_out_of_time d now ≡ false)
unfolding check_decision
check_decision-passes digests c scope d now h = ground arith

validate_govar_decision-passes :
    (digests : Digests) (c : Request) (now : Instant) {scope : Scope} {d : Decision}
    → c.spec.govar_route_approval ≡ some scope
    → c.spec.govar_decision ≡ some d
    → validate_govar_decision digests c now ≡ ok tt
    → (is_authorization c.spec.action ≡ true)
      × (is_other_proposal digests c ≡ false)
      × (check_decision digests c scope d now ≡ ok tt)
unfolding validate_govar_decision check_scoped check_decided
validate_govar_decision-passes digests c now hs hd h = ground arith

is_bound_elsewhere-false :
    (c : Request) (scope : Scope) (d : Decision)
    → is_bound_elsewhere c scope d ≡ false
    → ((d.request_uid == c.uid) ≡ true)
      × ((d.proposal_digest == c.spec.proposal_digest) ≡ true)
      × ((d.scope_digest == scope.scope_digest) ≡ true)
      × (d.valid_until ≡ scope.valid_until)
unfolding is_bound_elsewhere
is_bound_elsewhere-false c scope d h = ground arith

is_no_reviewer-false :
    (c : Request) (d : Decision)
    → is_no_reviewer c d ≡ false
    → ((d.reviewer_identity == c.spec.requested_by) ≡ false)
      × ((d.reviewer_group == govar_approval_reviewer_group) ≡ true)
unfolding is_no_reviewer
is_no_reviewer-false c d h = ground arith

is_out_of_time-false :
    (d : Decision) (now : Instant)
    → is_out_of_time d now ≡ false
    → (d.decided_at ≤ now + 5_000_000_000) × (now < d.valid_until)
unfolding is_out_of_time
is_out_of_time-false d now h = ground arith

is_other_proposal-false :
    (digests : Digests) (c : Request)
    → is_other_proposal digests c ≡ false
    → ((trim c.spec.requested_by == "") ≡ false)
      × ((c.spec.proposal_digest == proposal_digest_of digests c.namespace c.name c.spec) ≡ true)
unfolding is_other_proposal
is_other_proposal-false digests c h = ground arith

has_other_digest-false :
    (digests : Digests) (c : Request) (d : Decision)
    → has_other_digest digests c d ≡ false
    → (d.decision_digest == decision_digest_of digests c.namespace c.name c.spec.requested_by d)
      ≡ true
unfolding has_other_digest
has_other_digest-false digests c d h = ground arith

pub validate_govar_decision-IsInForce :
    (digests : Digests) (c : Request) (now : Instant) {scope : Scope} {d : Decision}
    → c.spec.govar_route_approval ≡ some scope
    → c.spec.govar_decision ≡ some d
    → validate_govar_decision digests c now ≡ ok tt
    → IsInForce digests c scope d now
validate_govar_decision-IsInForce digests c now {scope} {d} hs hd h =
    let (route, proposal, k) = validate_govar_decision-passes digests c now hs hd h in
    let (outcome, reviewer, bound, digest, time) = check_decision-passes digests c scope d now k in
    let (other, group) = is_no_reviewer-false c d reviewer in
    let (uid, same_proposal, same_scope, until) = is_bound_elsewhere-false c scope d bound in
    let (before, after) = is_out_of_time-false d now time in
    record {
      other_reviewer = other;
      of_reviewers = group;
      for_request = uid;
      proposal_kept = (is_other_proposal-false digests c proposal).1;
      for_proposal = same_proposal;
      for_scope = same_scope;
      digested = has_other_digest-false digests c d digest;
      decided_before = before;
      still_valid = after;
      valid_as_scope = until;
    }
