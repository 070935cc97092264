-- ===== src/ChangeRequest/Reconcile.antt =====
-- One reconciliation: internal/controller/aichangerequest_controller.go.
pub mod References
use ai_finops_operator.Prelude.{
  ℕ, ◌+◌, ◌-◌, ◌*◌, ltb, leb, eqb, ℤ, pos, eqb_ℤ, String, Bool, true, false, not, ◌&&◌, ◌||◌, ◌==◌,
  List, [], ◌∷◌, Option, none, some, if◌then◌else◌, Result, ok, err, ◌>>=◌, ◌>>◌, fail_if,
}
use ai_finops_operator.Prelude.Dict.{Dict, lookup}
use ai_finops_operator.Pricing.Digest.{is_sha256}
use ai_finops_operator.Gateway.Json.{Unstructured}
use ai_finops_operator.Gateway.Reroute.{is_set}
use ai_finops_operator.Gateway.Actuator.{
  Route, Server, RouteActuationResult, model_backends, actuate_route_controls,
}
use ai_finops_operator.ChangeRequest.Types.{
  Instant, Action, Approval, Phase, ResolvedReference, Scope, Decision, Spec, Message, Condition,
  Status, Request,
}
use ai_finops_operator.ChangeRequest.Decision.{
  Digests, DecisionError, is_authorization, scope_digest_of, validate_govar_decision,
}
use ai_finops_operator.ChangeRequest.Reconcile.References.{Cluster, validate_references}

abbrev pub change_request_annotation : String
change_request_annotation = "aiops.imperium.io/change-request-reroutes"

-- 48 hours, in nanoseconds, and the seconds that the code waits.
abbrev pub default_expires_after : ℕ
default_expires_after = 172_800_000_000_000

abbrev pub seconds : ℕ → ℕ
seconds n = n * 1_000_000_000

-- What listing the routes of the gateway answers.
pub data Listing : Type 0 where
  listed : List Route → Listing
  not_installed list_failed : Listing

-- Everything that one reconciliation reads from outside: the readings of the clock in their order,
-- time.ParseDuration, the objects of the namespace, the routes, whether the listings
-- after the first answer too (with the same routes), and what the API server answers to the first
-- and to the second update of the status.
pub record Environment : Type 0 where
  pub digests : Digests
  pub unstructured : Unstructured
  pub server : Server
  pub now : ℕ → Instant
  pub parse_duration : String → Option ℤ
  pub cluster : Cluster
  pub listing : Listing
  pub lists_again : Bool
  pub accepts_expiry : Bool
  pub accepts_status : Bool

-- What it leaves: the stored request, the routes if they were listed, when to come back, and whether
-- it ended with an error.
pub record Round : Type 0 where
  pub request : Request
  pub listing : Listing
  pub requeue_after : ℕ
  pub failed : Bool

-- setPhase
abbrev pub condition_status : Phase → Bool
condition_status Phase.failed = false
condition_status Phase.expired = false
condition_status Phase.rejected = false
condition_status _ = true

abbrev pub is_failed : Phase → Bool
is_failed Phase.failed = true
is_failed _ = false

unfoldable pub set_phase : ℤ → Phase → Message → Status → Status
set_phase generation phase message s = record s {
  phase = phase;
  message = message;
  ready = some (record {
    status = condition_status phase;
    is_error = is_failed phase;
    message = message;
    observed_generation = generation;
  });
}

-- The four assignments that withdraw an approval.
unfoldable pub withdrawn : Status → Status
withdrawn s = record s {
  approved_at = none;
  approved_scope_digest = "";
  approved_decision_digest = "";
  approved_by = "";
}

-- `Status().Update`: the server stores the new status, or keeps what it has.
unfoldable pub store_status : Bool → Request → Status → (requeue_after : ℕ) → Listing → Round
store_status accepts c s requeue listing = record {
  request = if accepts then record c { status = s } else c;
  listing = listing;
  requeue_after = if accepts then requeue else 0;
  failed = not accepts;
}

unfoldable pub expires_at_of : (String → Option ℤ) → Request → Instant
expires_at_of parse_duration c =
    let relative : Instant = elim (parse_duration c.spec.expires_after) [
      | some (pos n) ↦ c.creation_timestamp + (if eqb n 0 then default_expires_after else n)
      | _ ↦ c.creation_timestamp + default_expires_after
    ] in
    if is_authorization c.spec.action
    then elim c.spec.govar_route_approval [ some scope ↦ scope.valid_until | none ↦ relative ]
    else relative

abbrev pub is_terminal : Phase → Bool
is_terminal Phase.actuated = true
is_terminal Phase.rejected = true
is_terminal Phase.expired = true
is_terminal _ = false

abbrev pub is_instant : Instant → Option Instant → Bool
is_instant t none = false
is_instant t (some u) = eqb u t

-- Whether the approval on record is the one of this decision.
unfoldable pub is_same_approval : Request → Status → Scope → Decision → Bool
is_same_approval c s scope d =
    elim s.phase [ Phase.approved ↦ true | _ ↦ false ]
    && eqb_ℤ s.observed_generation c.generation
    && s.approved_scope_digest == scope.scope_digest
    && s.approved_decision_digest == d.decision_digest
    && s.approved_by == d.reviewer_identity

abbrev pub keys_of : Dict Bool → List String
keys_of [] = []
keys_of ((k, _) ∷ m) = k ∷ keys_of m

module _ (env : Environment) where
  -- The end of a round that withdraws the approval and writes a phase.
  unfoldable pub withdraw : Request → Status → Phase → Message → Round
  withdraw c s phase message =
      store_status env.accepts_status c (withdrawn (set_phase c.generation phase message s)) 0
        env.listing

  -- The status with the evidence of an approval.
  unfoldable pub approved_status : Request → Status → Scope → Decision → Status
  approved_status c s scope d =
      let at : Instant = elim s.approved_at [
        | none ↦ env.now 3
        | some old ↦ if is_same_approval c s scope d then old else env.now 3
      ] in
      set_phase c.generation Phase.approved Message.approved_message (record s {
        approved_at = some at;
        approved_scope_digest = scope.scope_digest;
        approved_decision_digest = d.decision_digest;
        approved_by = d.reviewer_identity;
      })

  -- A negative remainder, which asks for nothing, is zero here.
  unfoldable pub remaining : Scope → ℕ
  remaining scope =
      let left = scope.valid_until - env.now 4 in if ltb (seconds 30) left then seconds 30 else left

  -- approveGOVARRoute
  unfoldable pub is_valid_scope : Scope → Bool
  is_valid_scope scope =
      is_sha256 scope.route_snapshot_digest
      && is_sha256 scope.scope_digest
      && scope.scope_digest == scope_digest_of env.digests scope

  unfoldable pub approve_scope : Request → Status → Scope → Decision → Round
  approve_scope c s scope d =
      if not (ltb (env.now 2) scope.valid_until)
      then withdraw c s Phase.expired Message.scope_expired
      else elim (validate_references env.cluster scope) [
        | err e ↦ withdraw c s Phase.failed Message.invalid_references
        | ok _ ↦
            store_status env.accepts_status c (approved_status c s scope d) (remaining scope)
              env.listing
      ]

  -- Here the decision is there: `validate_govar_decision` requires it.
  unfoldable pub approve_decided : Request → Status → Scope → Option Decision → Round
  approve_decided c s scope none = withdraw c s Phase.failed Message.invalid_decision
  approve_decided c s scope (some d) = approve_scope c s scope d

  unfoldable pub approve_scoped : Request → Status → Option Scope → Round
  approve_scoped c s none = withdraw c s Phase.failed Message.invalid_scope
  approve_scoped c s (some scope) =
      if not (is_valid_scope scope)
      then withdraw c s Phase.failed Message.invalid_scope
      else elim (validate_govar_decision env.digests c (env.now 1)) [
        | err e ↦ withdraw c s Phase.failed Message.invalid_decision
        | ok _ ↦ approve_decided c s scope c.spec.govar_decision
      ]

  unfoldable pub approve_govar_route : Request → Status → Round
  approve_govar_route c s = approve_scoped c s c.spec.govar_route_approval

  -- The end of a round of actuate that does not reroute.
  unfoldable pub not_actuated : Request → Status → Message → (requeue_after : ℕ) → Listing → Round
  not_actuated c s message requeue listing =
      store_status env.accepts_status c (set_phase c.generation Phase.failed message s) requeue
        listing

  unfoldable pub actuate_on : Request → Status → List Route → (backend : String) → Round
  actuate_on c s routes backend =
      let (routes', result, stored) =
        actuate_route_controls env.unstructured env.server routes
          ((c.spec.source_model, backend) ∷ []) [] change_request_annotation in
      if not stored
      then record { request = c; listing = listed routes'; requeue_after = 0; failed = true }
      else if not (is_set result.rerouted c.spec.source_model)
      then not_actuated c s Message.no_source_route (seconds 60) (listed routes')
      else store_status env.accepts_status c
          (set_phase c.generation Phase.actuated Message.actuated_message (record s {
            actuated_at = some (env.now 5);
            actuated_routes = keys_of result.rerouted;
          }))
          (seconds 60) (listed routes')

  -- actuateRouteControlsWithAnnotation lists the routes again, which can fail too.
  unfoldable pub actuate_again : Bool → Request → Status → List Route → (backend : String) → Round
  actuate_again false c s routes backend = record {
    request = c;
    listing = listed routes;
    requeue_after = 0;
    failed = true;
  }
  actuate_again true c s routes backend = actuate_on c s routes backend

  unfoldable pub actuate_to : Request → Status → List Route → Option String → Round
  actuate_to c s routes none = not_actuated c s Message.no_target_backend (seconds 60) env.listing
  actuate_to c s routes (some backend) = actuate_again env.lists_again c s routes backend

  unfoldable pub actuate_listed : Request → Status → Listing → Round
  actuate_listed c s not_installed = not_actuated c s Message.no_route_definition 0 env.listing
  actuate_listed c s list_failed = record {
    request = c;
    listing = env.listing;
    requeue_after = 0;
    failed = true;
  }
  actuate_listed c s (listed routes) =
      actuate_to c s routes (lookup c.spec.target_model (model_backends env.unstructured routes []))

  -- actuate
  unfoldable pub actuate : Request → Status → Round
  actuate c s = actuate_listed c s env.listing

  -- The decision of the reviewer, on a request that has not expired.
  unfoldable pub reject : Request → Status → Round
  reject c s =
      if is_authorization c.spec.action
      then elim (validate_govar_decision env.digests c (env.now 1)) [
        | err e ↦ withdraw c s Phase.failed Message.invalid_rejection
        | ok _ ↦ withdraw c s Phase.rejected Message.rejected_message
      ]
      else withdraw c s Phase.rejected Message.rejected_message

  unfoldable pub wait : Request → Status → Round
  wait c s =
      store_status env.accepts_status c
        (withdrawn (set_phase c.generation Phase.pending Message.waiting_message s)) (seconds 30)
        env.listing

  unfoldable pub decide_on : Request → Status → Approval → Round
  decide_on c s Approval.approval_rejected = reject c s
  decide_on c s Approval.approval_approved =
      if is_authorization c.spec.action then approve_govar_route c s else actuate c s
  decide_on c s Approval.approval_pending = wait c s
  decide_on c s Approval.undecided = wait c s

  unfoldable pub decide : Request → Status → Round
  decide c s = decide_on c s c.spec.approval

  -- What follows the first update: `c` is stored, and `s` is its status in memory.
  unfoldable pub proceed : Request → Status → (expires_at : Instant) → Round
  proceed c s expires_at =
      if is_terminal s.phase
      then record { request = c; listing = env.listing; requeue_after = 0; failed = false }
      else if not (ltb (env.now 0) expires_at)
      then withdraw c s Phase.expired Message.expired_message
      else decide c s

  -- The first update, which stores another expiry.
  unfoldable pub save_expiry : Request → Status → (expires_at : Instant) → Bool → Round
  save_expiry c s expires_at true = proceed (record c { status = s }) s expires_at
  save_expiry c s expires_at false = record {
    request = c;
    listing = env.listing;
    requeue_after = 0;
    failed = true;
  }

  -- Reconcile, on a request that was found.
  unfoldable pub reconcile : Request → Round
  reconcile c =
      let expires_at = expires_at_of env.parse_duration c in
      let s : Status = record c.status { observed_generation = c.generation } in
      if is_instant expires_at c.status.expires_at
      then proceed c s expires_at
      else save_expiry c (record s { expires_at = some expires_at }) expires_at env.accepts_expiry
