-- ===== src/ChangeRequest/Workflow/Branches.antt =====
-- The branches of a round of aichangerequest_controller.go, and the evidence of an approval.
use ai_finops_operator.Prelude.{
  ◌≡◌, refl, inl, inr, ℤ, ℕ, String, Bool, true, false, ◌==◌, Option, none, some, ltb, Result-cases,
  eq_iff, Bool-cases, ok, arith, trim, List, [], ◌∷◌,
}
use ai_finops_operator.Prelude.Dict.{lookup}
use ai_finops_operator.Gateway.Reroute.{is_set}
use ai_finops_operator.Gateway.Actuator.{Route, model_backends, actuate_route_controls}
use ai_finops_operator.ChangeRequest.Types.{
  Instant, Approval, Phase, Message, Scope, Decision, Spec, Status, Request,
}
use ai_finops_operator.ChangeRequest.Decision.{
  Digests, is_authorization, validate_govar_decision, check_decision, check_scoped, check_decided,
  is_other_outcome, is_no_reviewer, is_other_proposal, is_out_of_time, same_approval,
}
use ai_finops_operator.ChangeRequest.Reconcile.{
  change_request_annotation, seconds, Environment, Listing, listed, not_installed, list_failed,
  set_phase, withdrawn, store_status, withdraw, approved_status, remaining, is_valid_scope,
  approve_scope, approve_decided, approve_scoped, approve_govar_route, not_actuated, actuate_on,
  actuate_again, actuate_to, actuate_listed, actuate, reject, wait, decide_on, decide, proceed,
  is_terminal,
}
use ai_finops_operator.ChangeRequest.Reconcile.References.{validate_references}
use ai_finops_operator.ChangeRequest.Workflow.{
  is_approved, IsBacked, IsConsistent, unapproved, backed,
}

-- Keeping what is stored, or storing a consistent status, is consistent.
store_status-IsConsistent :
    (digests : Digests) (accepts : Bool) (c : Request) (s : Status) (requeue : ℕ) (l : Listing)
    → IsConsistent digests c.spec c.status
    → IsConsistent digests c.spec s
    → IsConsistent digests
        (store_status accepts c s requeue l).request.spec
        (store_status accepts c s requeue l).request.status
unfolding store_status
store_status-IsConsistent digests true c s requeue l old new = new
store_status-IsConsistent digests false c s requeue l old new = old

-- What an accepted decision says.
validate_govar_decision-says :
    (digests : Digests) (c : Request) (now : Instant) {scope : Scope} {d : Decision}
    → c.spec.govar_route_approval ≡ some scope
    → c.spec.govar_decision ≡ some d
    → validate_govar_decision digests c now ≡ ok tt
    → (is_authorization c.spec.action ≡ true)
      × ((trim c.spec.requested_by == "") ≡ false)
      × ((d.reviewer_identity == c.spec.requested_by) ≡ false)
      × (same_approval d.outcome c.spec.approval ≡ true)
      × (ltb now d.valid_until ≡ true)
unfolding validate_govar_decision check_scoped check_decided check_decision is_other_outcome
    is_no_reviewer is_other_proposal is_out_of_time
validate_govar_decision-says digests c now s d h = ground arith

trim_empty : trim "" ≡ ""
unfolding trim
trim_empty = refl

trimmed-IsSet : (t : String) → (trim t == "") ≡ false → (t == "") ≡ false
trimmed-IsSet t h = ground (arith, eq_iff t "", eq_iff (trim t) "", trim_empty)

outcome_approved :
    (a b : Approval)
    → b ≡ Approval.approval_approved
    → same_approval a b ≡ true
    → a ≡ Approval.approval_approved
outcome_approved a b e h = ground arith

-- A withdrawn status of another phase records no approval.
withdrawn-IsConsistent :
    (digests : Digests) (spec : Spec) (generation : ℤ) (p : Phase) (m : Message) (s : Status)
    → is_approved p ≡ false
    → IsConsistent digests spec (withdrawn (set_phase generation p m s))
unfolding withdrawn set_phase
withdrawn-IsConsistent digests spec generation p m s h = unapproved refl h

-- What every branch keeps: the request as it is stored is consistent.
abbrev pub Kept : Digests → Request → Type 0
Kept digests c = IsConsistent digests c.spec c.status

module _ (env : Environment) (c : Request) (s : Status) (old : Kept env.digests c) where
  withdraw-Kept :
      (p : Phase) (m : Message)
      → is_approved p ≡ false
      → Kept env.digests (withdraw env c s p m).request
  unfolding withdraw
  withdraw-Kept p m h =
      store_status-IsConsistent env.digests env.accepts_status c _ 0 env.listing old
        (withdrawn-IsConsistent env.digests c.spec c.generation p m s h)

  approved_status-IsBacked :
      (scope : Scope) (d : Decision)
      → c.spec.approval ≡ Approval.approval_approved
      → c.spec.govar_route_approval ≡ some scope
      → c.spec.govar_decision ≡ some d
      → is_valid_scope env scope ≡ true
      → validate_govar_decision env.digests c (env.now 1) ≡ ok tt
      → IsBacked env.digests c.spec (approved_status env c s scope d) scope d
  unfolding approved_status set_phase is_valid_scope
  approved_status-IsBacked scope d a hs hd v h =
      let (route, asked, other, outcome, time) =
        validate_govar_decision-says env.digests c (env.now 1) hs hd h in
      record {
        for_route = route;
        has_scope = hs;
        has_decision = hd;
        requested = trimmed-IsSet c.spec.requested_by asked;
        same_scope = refl;
        scope_digested = ground arith;
        same_decision = refl;
        same_reviewer = refl;
        other_reviewer = other;
        decided = outcome_approved d.outcome c.spec.approval a outcome;
      }

  approved_status-phase :
      (scope : Scope) (d : Decision) → is_approved (approved_status env c s scope d).phase ≡ true
  unfolding approved_status set_phase
  approved_status-phase scope d = refl

  approve_scope-Kept :
      (scope : Scope) (d : Decision)
      → IsBacked env.digests c.spec (approved_status env c s scope d) scope d
      → Kept env.digests (approve_scope env c s scope d).request
  unfolding approve_scope
  approve_scope-Kept scope d b = elim (Bool-cases (ltb (env.now 2) scope.valid_until)) [
    | inr e ↦ rw e (withdraw-Kept Phase.expired Message.scope_expired refl)
    | inl e ↦ elim (Result-cases (validate_references env.cluster scope)) [
      | inr (x, f) ↦ rw (e, f) (withdraw-Kept Phase.failed Message.invalid_references refl)
      | inl (x, f) ↦
          rw (e, f)
            (store_status-IsConsistent env.digests env.accepts_status c
              (approved_status env c s scope d) (remaining env scope) env.listing old
              (backed scope d (approved_status-phase scope d) b))
    ]
  ]

  approve_decided-Kept :
      (scope : Scope)
      → c.spec.approval ≡ Approval.approval_approved
      → c.spec.govar_route_approval ≡ some scope
      → is_valid_scope env scope ≡ true
      → validate_govar_decision env.digests c (env.now 1) ≡ ok tt
      → (o : Option Decision) → c.spec.govar_decision ≡ o
      → Kept env.digests (approve_decided env c s scope o).request
  unfolding approve_decided
  approve_decided-Kept scope a hs v f none hd =
      withdraw-Kept Phase.failed Message.invalid_decision refl
  approve_decided-Kept scope a hs v f (some d) hd =
      approve_scope-Kept scope d (approved_status-IsBacked scope d a hs hd v f)

  approve_scoped-Kept :
      (o : Option Scope)
      → c.spec.approval ≡ Approval.approval_approved
      → c.spec.govar_route_approval ≡ o
      → Kept env.digests (approve_scoped env c s o).request
  unfolding approve_scoped
  approve_scoped-Kept none a hs = withdraw-Kept Phase.failed Message.invalid_scope refl
  approve_scoped-Kept (some scope) a hs = elim (Bool-cases (is_valid_scope env scope)) [
    | inr v ↦ rw v (withdraw-Kept Phase.failed Message.invalid_scope refl)
    | inl v ↦ elim (Result-cases (validate_govar_decision env.digests c (env.now 1))) [
      | inr (x, f) ↦ rw (v, f) (withdraw-Kept Phase.failed Message.invalid_decision refl)
      | inl (u, f) ↦ rw (v, f) (approve_decided-Kept scope a hs v f c.spec.govar_decision refl)
    ]
  ]

  approve_govar_route-Kept :
      c.spec.approval ≡ Approval.approval_approved
      → Kept env.digests (approve_govar_route env c s).request
  unfolding approve_govar_route
  approve_govar_route-Kept a = approve_scoped-Kept c.spec.govar_route_approval a refl

  reject-Kept : Kept env.digests (reject env c s).request
  unfolding reject
  reject-Kept = elim (Bool-cases (is_authorization c.spec.action)) [
    | inr e ↦ rw e (withdraw-Kept Phase.rejected Message.rejected_message refl)
    | inl e ↦ elim (Result-cases (validate_govar_decision env.digests c (env.now 1))) [
      | inr (x, f) ↦ rw (e, f) (withdraw-Kept Phase.failed Message.invalid_rejection refl)
      | inl (x, f) ↦ rw (e, f) (withdraw-Kept Phase.rejected Message.rejected_message refl)
    ]
  ]

  wait-Kept : Kept env.digests (wait env c s).request
  unfolding wait
  wait-Kept = store_status-IsConsistent env.digests env.accepts_status c _ _ env.listing old (
      withdrawn-IsConsistent env.digests c.spec c.generation Phase.pending Message.waiting_message s
        refl)

  -- A reroute never had an approval, and records none.
  not_actuated-Kept :
      (m : Message) (requeue : ℕ) (l : Listing)
      → s.approved_at ≡ none
      → Kept env.digests (not_actuated env c s m requeue l).request
  unfolding not_actuated set_phase
  not_actuated-Kept m requeue l h =
      store_status-IsConsistent env.digests env.accepts_status c
        (set_phase c.generation Phase.failed m s) requeue l old (unapproved h refl)

  -- A rerouted request is stored as actuated, without an approval.
  actuate_on-Kept :
      (routes : List Route) (backend : String)
      → s.approved_at ≡ none
      → Kept env.digests (actuate_on env c s routes backend).request
  unfolding actuate_on set_phase
  actuate_on-Kept routes backend h =
      let run =
        actuate_route_controls env.unstructured env.server routes
          ((c.spec.source_model, backend) ∷ []) [] change_request_annotation in
      elim (Bool-cases run.2) [
        | inr e ↦ rw e old
        | inl e ↦ elim (Bool-cases (is_set run.1.rerouted c.spec.source_model)) [
          | inr f ↦
              rw (e, f) (not_actuated-Kept Message.no_source_route (seconds 60) (listed run.0) h)
          | inl f ↦
              rw (e, f)
                (store_status-IsConsistent env.digests env.accepts_status c _ _ _ old
                  (unapproved h refl))
        ]
      ]

  actuate_again-Kept :
      (again : Bool) (routes : List Route) (backend : String)
      → s.approved_at ≡ none
      → Kept env.digests (actuate_again env again c s routes backend).request
  unfolding actuate_again
  actuate_again-Kept false routes backend h = old
  actuate_again-Kept true routes backend h = actuate_on-Kept routes backend h

  actuate_to-Kept :
      (routes : List Route) (o : Option String)
      → s.approved_at ≡ none
      → Kept env.digests (actuate_to env c s routes o).request
  unfolding actuate_to
  actuate_to-Kept routes none h =
      not_actuated-Kept Message.no_target_backend (seconds 60) env.listing h
  actuate_to-Kept routes (some backend) h = actuate_again-Kept env.lists_again routes backend h

  actuate_listed-Kept :
      (l : Listing) → s.approved_at ≡ none → Kept env.digests (actuate_listed env c s l).request
  unfolding actuate_listed
  actuate_listed-Kept not_installed h =
      not_actuated-Kept Message.no_route_definition 0 env.listing h
  actuate_listed-Kept list_failed h = old
  actuate_listed-Kept (listed routes) h =
      actuate_to-Kept routes
        (lookup c.spec.target_model (model_backends env.unstructured routes [])) h

  -- A request that is no authorization has no approval on record.
  reroute-unapproved :
      is_authorization c.spec.action ≡ false
      → IsConsistent env.digests c.spec s
      → s.approved_at ≡ none
  reroute-unapproved e (unapproved h k) = h
  reroute-unapproved e (backed scope d k b) = let r = b.for_route in cc

  decide_on-Kept :
      (a : Approval)
      → c.spec.approval ≡ a
      → IsConsistent env.digests c.spec s
      → Kept env.digests (decide_on env c s a).request
  unfolding decide_on actuate
  decide_on-Kept Approval.approval_rejected e k = reject-Kept
  decide_on-Kept Approval.approval_pending e k = wait-Kept
  decide_on-Kept Approval.undecided e k = wait-Kept
  decide_on-Kept Approval.approval_approved e k =
      elim (Bool-cases (is_authorization c.spec.action)) [
        | inl r ↦ rw r (approve_govar_route-Kept e)
        | inr r ↦ rw r (actuate_listed-Kept env.listing (reroute-unapproved r k))
      ]

  pub proceed-Kept :
      (t : Instant)
      → IsConsistent env.digests c.spec s
      → Kept env.digests (proceed env c s t).request
  unfolding proceed decide
  proceed-Kept t k = elim (Bool-cases (is_terminal s.phase)) [
    | inl e ↦ rw e old
    | inr e ↦ elim (Bool-cases (ltb (env.now 0) t)) [
      | inr f ↦ rw (e, f) (withdraw-Kept Phase.expired Message.expired_message refl)
      | inl f ↦ rw (e, f) (decide_on-Kept c.spec.approval refl k)
    ]
  ]
