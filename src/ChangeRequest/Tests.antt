-- ===== src/ChangeRequest/Tests.antt =====
-- A request to authorize a route and its rounds, and the theorems applied to them.
use ai_finops_operator.Prelude.{◌≡◌, refl, pos, String, true, false, [], ◌∷◌, none, some, ltb}
use ai_finops_operator.Gateway.Json.{Unstructured, get, put, array, slice_of, string_of}
use ai_finops_operator.Gateway.Actuator.{Server}
use ai_finops_operator.ChangeRequest.Types.{
  Instant, Action, Approval, Phase, Message, ResolvedReference, Scope, Decision, Status, Request,
}
use ai_finops_operator.ChangeRequest.Decision.{Digests, govar_approval_reviewer_group}
use ai_finops_operator.ChangeRequest.Reconcile.References.{Object, Cluster}
use ai_finops_operator.ChangeRequest.Reconcile.{
  Environment, not_installed, expires_at_of, reconcile,
}
use ai_finops_operator.ChangeRequest.Workflow.{
  reconciled, Reachable, created, next, IsConsistent, Same, now, then_on,
}
use ai_finops_operator.ChangeRequest.Workflow.Consistent.{Reachable-IsConsistent}
use ai_finops_operator.ChangeRequest.Workflow.Terminal.{IsExpired, terminal-Later, Later-IsExpired}
use ai_finops_operator.ChangeRequest.Workflow.Failed.{IsCareful, failed-IsUnchanged}

abbrev digest : String
digest = "00000000000000000000000000000000000000000000000000000000000000aa"

abbrev digests : Digests
digests = record {
  scope_json_sha256 = λ scope. digest;
  decision_json_sha256 = λ namespace name requester d. digest;
  proposal_json_sha256 = λ namespace name spec. digest;
}

abbrev unstructured : Unstructured
unstructured = record {
  nested_slice = λ o k. slice_of (get k o);
  nested_string = λ o k. string_of (get k o);
  set_nested_slice = λ o xs k. put k (array xs) o;
  nested_slice_law = λ o k. refl;
  nested_string_law = λ o k. refl;
  set_nested_slice_law = λ o xs k. refl;
}

abbrev server : Server
server = record { decode = λ s. []; encode = λ m. ""; accepts = λ r. true }

abbrev object_of : String → Object
object_of uid = record { uid = uid; generation = pos 1; provider_ref = "mistral" }

abbrev cluster : Cluster
cluster = record {
  routing_policies = ("eu", object_of "u1") ∷ [];
  models = ("small", object_of "u2") ∷ [];
  providers = ("mistral", object_of "u3") ∷ [];
}

-- Clocks that stand still at `t`.
abbrev at : Instant → Environment
at t = record {
  digests = digests;
  unstructured = unstructured;
  server = server;
  now = λ k. t;
  parse_duration = λ s. none;
  cluster = cluster;
  listing = not_installed;
  accepts_expiry = true;
  lists_again = true;
  accepts_status = true;
}

abbrev reference : String → String → ResolvedReference
reference name uid = record { name = name; uid = uid; generation = pos 1 }

abbrev scope : Scope
scope = record {
  routing_policy = reference "eu" "u1";
  model = reference "small" "u2";
  provider = reference "mistral" "u3";
  route_snapshot_digest = digest;
  valid_until = 1000;
  scope_digest = digest;
}

abbrev decision : Decision
decision = record {
  outcome = Approval.approval_approved;
  reviewer_identity = "alice";
  reviewer_group = govar_approval_reviewer_group;
  decided_at = 10;
  valid_until = 1000;
  request_uid = "r1";
  admission_uid = "a1";
  proposal_digest = digest;
  scope_digest = digest;
  decision_digest = digest;
}

abbrev new_status : Status
new_status = record {
  observed_generation = pos 0;
  phase = Phase.unset;
  message = Message.no_message;
  actuated_at = none;
  approved_at = none;
  approved_scope_digest = "";
  approved_decision_digest = "";
  approved_by = "";
  expires_at = none;
  actuated_routes = [];
  ready = none;
}

abbrev request : Request
request = record {
  namespace = "team";
  name = "route";
  uid = "r1";
  generation = pos 1;
  creation_timestamp = 1;
  spec = record {
    action = Action.authorize_govar_route;
    source_model = "";
    target_model = "";
    govar_route_approval = some scope;
    requested_by = "bob";
    proposal_digest = digest;
    govar_decision = some decision;
    reason = "";
    expected_saving_eur = "";
    quality_score = "";
    latency_impact = "";
    risk_level = "";
    expires_after = "48h";
    approval = Approval.approval_approved;
  };
  status = new_status;
}

expiry_of_request : ltb ((at 1000).now 0) (expires_at_of (at 1000).parse_duration request) ≡ false
unfolding expires_at_of
expiry_of_request = refl

request-Reachable : Reachable digests (reconcile (at 20) request).request
request-Reachable =
    next (created request (record { phase_unset = refl; no_approval = refl }))
      (reconciled (at 20) refl)

Reachable-IsConsistent_example :
    IsConsistent digests
      (reconcile (at 20) request).request.spec
      (reconcile (at 20) request).request.status
Reachable-IsConsistent_example =
    Reachable-IsConsistent digests (reconcile (at 20) request).request request-Reachable

Later-IsExpired_example :
    IsExpired (reconcile (at 2000) (reconcile (at 1000) request).request).request.status
Later-IsExpired_example =
    Later-IsExpired (at 1000) request
      (reconcile (at 2000) (reconcile (at 1000) request).request).request refl expiry_of_request
      refl refl (then_on now (reconciled (at 2000) refl))

abbrev rejected_request : Request
rejected_request = record request { status = record new_status { phase = Phase.rejected } }

terminal-Later_example :
    Same rejected_request.status (reconcile (at 20) rejected_request).request.status
terminal-Later_example =
    terminal-Later digests rejected_request (reconcile (at 20) rejected_request).request refl
      (then_on now (reconciled (at 20) refl))

failed-IsUnchanged_example : IsCareful (at 20) request (reconcile (at 20) request)
failed-IsUnchanged_example = failed-IsUnchanged (at 20) request
