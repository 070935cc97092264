-- ===== src/ChangeRequest/Workflow/Failed.antt =====
-- A round of aichangerequest_controller.go that ends with an error, and what a round does to routes.
use ai_finops_operator.Prelude.{
  ◌≡◌, refl, sym, subst, ◌⊎◌, inl, inr, ℕ, Bool, true, false, Option, none, some, String, List, [],
  ◌∷◌, ltb, Bool-cases, Result-cases,
}
use ai_finops_operator.Prelude.Dict.{lookup}
use ai_finops_operator.Gateway.Reroute.{is_set}
use ai_finops_operator.Gateway.Actuator.{Route, model_backends, actuate_route_controls}
use ai_finops_operator.ChangeRequest.Types.{
  Instant, Approval, Phase, Message, Scope, Decision, Status, Request,
}
use ai_finops_operator.ChangeRequest.Decision.{is_authorization, validate_govar_decision}
use ai_finops_operator.ChangeRequest.Reconcile.{
  change_request_annotation, seconds, approved_status, remaining, is_valid_scope, Environment,
  Listing, listed, not_installed, list_failed, Round, is_instant, set_phase, withdrawn,
  store_status, withdraw, approve_scope, approve_decided, approve_scoped, approve_govar_route,
  not_actuated, actuate_on, actuate_again, actuate_to, actuate_listed, actuate, reject, wait,
  decide_on, decide, proceed, save_expiry, reconcile, is_terminal, expires_at_of,
}
use ai_finops_operator.ChangeRequest.Reconcile.References.{validate_references}
use ai_finops_operator.ChangeRequest.Workflow.{Same}

-- If the round failed, the request is stored as it was.
abbrev Safe : Request → Round → Type 0
Safe c r = r.failed ≡ true → r.request ≡ c

-- Also it leaves the routes alone.
abbrev Quiet : Environment → Request → Round → Type 0
Quiet env c r = Safe c r × (r.listing ≡ env.listing)

store_status-Safe :
    (accepts : Bool) (c : Request) (s : Status) (requeue : ℕ) (l : Listing)
    → Safe c (store_status accepts c s requeue l)
unfolding store_status
store_status-Safe true c s requeue l h = cc
store_status-Safe false c s requeue l h = refl

module _ (env : Environment) (c : Request) (s : Status) where
  store_status-Quiet :
      (t : Status) (requeue : ℕ)
      → Quiet env c (store_status env.accepts_status c t requeue env.listing)
  unfolding store_status
  store_status-Quiet t requeue =
      (store_status-Safe env.accepts_status c t requeue env.listing, refl)

  withdraw-Quiet : (p : Phase) (m : Message) → Quiet env c (withdraw env c s p m)
  unfolding withdraw
  withdraw-Quiet p m = store_status-Quiet (withdrawn (set_phase c.generation p m s)) 0

  approve_scope-Quiet : (scope : Scope) (d : Decision) → Quiet env c (approve_scope env c s scope d)
  unfolding approve_scope
  approve_scope-Quiet scope d = elim (Bool-cases (ltb (env.now 2) scope.valid_until)) [
    | inr e ↦ rw e (withdraw-Quiet Phase.expired Message.scope_expired)
    | inl e ↦ elim (Result-cases (validate_references env.cluster scope)) [
      | inr (x, f) ↦ rw (e, f) (withdraw-Quiet Phase.failed Message.invalid_references)
      | inl (x, f) ↦
          rw (e, f) (store_status-Quiet (approved_status env c s scope d) (remaining env scope))
    ]
  ]

  approve_decided-Quiet :
      (scope : Scope) (o : Option Decision) → Quiet env c (approve_decided env c s scope o)
  unfolding approve_decided
  approve_decided-Quiet scope none = withdraw-Quiet Phase.failed Message.invalid_decision
  approve_decided-Quiet scope (some d) = approve_scope-Quiet scope d

  approve_scoped-Quiet : (o : Option Scope) → Quiet env c (approve_scoped env c s o)
  unfolding approve_scoped
  approve_scoped-Quiet none = withdraw-Quiet Phase.failed Message.invalid_scope
  approve_scoped-Quiet (some scope) = elim (Bool-cases (is_valid_scope env scope)) [
    | inr v ↦ rw v (withdraw-Quiet Phase.failed Message.invalid_scope)
    | inl v ↦ elim (Result-cases (validate_govar_decision env.digests c (env.now 1))) [
      | inr (x, f) ↦ rw (v, f) (withdraw-Quiet Phase.failed Message.invalid_decision)
      | inl (x, f) ↦ rw (v, f) (approve_decided-Quiet scope c.spec.govar_decision)
    ]
  ]

  reject-Quiet : Quiet env c (reject env c s)
  unfolding reject
  reject-Quiet = elim (Bool-cases (is_authorization c.spec.action)) [
    | inr e ↦ rw e (withdraw-Quiet Phase.rejected Message.rejected_message)
    | inl e ↦ elim (Result-cases (validate_govar_decision env.digests c (env.now 1))) [
      | inr (x, f) ↦ rw (e, f) (withdraw-Quiet Phase.failed Message.invalid_rejection)
      | inl (x, f) ↦ rw (e, f) (withdraw-Quiet Phase.rejected Message.rejected_message)
    ]
  ]

  wait-Quiet : Quiet env c (wait env c s)
  unfolding wait
  wait-Quiet =
      store_status-Quiet
        (withdrawn (set_phase c.generation Phase.pending Message.waiting_message s)) (seconds 30)

  actuate_on-Safe :
      (routes : List Route) (backend : String) → Safe c (actuate_on env c s routes backend)
  unfolding actuate_on not_actuated
  actuate_on-Safe routes backend =
      let run =
        actuate_route_controls env.unstructured env.server routes
          ((c.spec.source_model, backend) ∷ []) [] change_request_annotation in
      elim (Bool-cases run.2) [
        | inr e ↦ rw e (λ h. refl)
        | inl e ↦ elim (Bool-cases (is_set run.1.rerouted c.spec.source_model)) [
          | inr f ↦ rw (e, f) (store_status-Safe env.accepts_status c _ _ _)
          | inl f ↦ rw (e, f) (store_status-Safe env.accepts_status c _ _ _)
        ]
      ]

  actuate_again-Safe :
      (again : Bool) (routes : List Route) (backend : String)
      → Safe c (actuate_again env again c s routes backend)
  unfolding actuate_again
  actuate_again-Safe false routes backend = λ h. refl
  actuate_again-Safe true routes backend = actuate_on-Safe routes backend

  actuate_to-Safe : (routes : List Route) (o : Option String) → Safe c (actuate_to env c s routes o)
  unfolding actuate_to not_actuated
  actuate_to-Safe routes none = store_status-Safe env.accepts_status c _ _ _
  actuate_to-Safe routes (some backend) = actuate_again-Safe env.lists_again routes backend

  actuate_listed-Safe : (l : Listing) → Safe c (actuate_listed env c s l)
  unfolding actuate_listed not_actuated
  actuate_listed-Safe not_installed = store_status-Safe env.accepts_status c _ _ _
  actuate_listed-Safe list_failed = λ h. refl
  actuate_listed-Safe (listed routes) =
      actuate_to-Safe routes
        (lookup c.spec.target_model (model_backends env.unstructured routes []))

  -- Only an approved reroute may touch the routes.
  abbrev Careful : Round → Type 0
  Careful r =
      Safe c r
      × ((r.listing ≡ env.listing)
          ⊎ (c.spec.approval ≡ Approval.approval_approved)
            × (is_authorization c.spec.action ≡ false)
            × (is_terminal s.phase ≡ false))

  Quiet-Careful : (r : Round) → Quiet env c r → Careful r
  Quiet-Careful r (h, l) = (h, inl l)

  decide_on-Careful :
      (x : Approval)
      → c.spec.approval ≡ x
      → is_terminal s.phase ≡ false
      → Careful (decide_on env c s x)
  unfolding decide_on actuate approve_govar_route
  decide_on-Careful Approval.approval_rejected r k = Quiet-Careful (reject env c s) reject-Quiet
  decide_on-Careful Approval.approval_pending r k = Quiet-Careful (wait env c s) wait-Quiet
  decide_on-Careful Approval.undecided r k = Quiet-Careful (wait env c s) wait-Quiet
  decide_on-Careful Approval.approval_approved r k =
      elim (Bool-cases (is_authorization c.spec.action)) [
        | inl e ↦
            let (safe, kept) = approve_scoped-Quiet c.spec.govar_route_approval in
            (rw e safe, inl (rw e kept))
        | inr e ↦ (rw e (actuate_listed-Safe env.listing), inr (r, e, k))
      ]

  proceed-Careful : (t : Instant) → Careful (proceed env c s t)
  unfolding proceed decide
  proceed-Careful t = elim (Bool-cases (is_terminal s.phase)) [
    | inl e ↦ (rw e (λ h. refl), inl (rw e refl))
    | inr e ↦ elim (Bool-cases (ltb (env.now 0) t)) [
      | inr f ↦
          let (safe, kept) = withdraw-Quiet Phase.expired Message.expired_message in
          (rw (e, f) safe, inl (rw (e, f) kept))
      | inl f ↦
          let (safe, kept) = decide_on-Careful c.spec.approval refl e in
          (rw (e, f) safe, elim kept [ inl k ↦ inl (rw (e, f) k) | inr k ↦ inr k ])
    ]
  ]

-- The parts of the status that a failed round keeps.
abbrev pub Unchanged : Status → Status → Type 0
Unchanged s t =
    Same s t
    × (t.message ≡ s.message)
    × (t.actuated_at ≡ s.actuated_at)
    × (t.actuated_routes ≡ s.actuated_routes)
    × (t.ready ≡ s.ready)

-- What a round says of the request that it was started on.
abbrev pub IsCareful : Environment → Request → Round → Type 0
IsCareful env c r =
    (r.failed ≡ true → (r.request.spec ≡ c.spec) × Unchanged c.status r.request.status)
    × ((r.listing ≡ env.listing)
        ⊎ (c.spec.approval ≡ Approval.approval_approved)
          × (is_authorization c.spec.action ≡ false)
          × (is_terminal c.status.phase ≡ false))

kept_request :
    (c d e : Request)
    → e ≡ d
    → (d.spec ≡ c.spec) × Unchanged c.status d.status
    → (e.spec ≡ c.spec) × Unchanged c.status e.status
kept_request c d e h k = subst (λ x. (x.spec ≡ c.spec) × Unchanged c.status x.status) (sym h) k

save_expiry-IsCareful :
    (env : Environment) (c : Request) (t : Instant) (accepts : Bool)
    → IsCareful env c (
        save_expiry env c
          (record c.status { observed_generation = c.generation; expires_at = some t })
          t
          accepts)
unfolding save_expiry
save_expiry-IsCareful env c t false =
    (λ h. (refl, ((refl, refl, refl, refl, refl), refl, refl, refl, refl)), inl refl)
save_expiry-IsCareful env c t true =
    let s : Status = record c.status { observed_generation = c.generation; expires_at = some t } in
    let d : Request = record c { status = s } in
    let (safe, kept) = proceed-Careful env d s t in
    (
      (λ h.
          kept_request c d (proceed env d s t).request (safe h)
            (refl, ((refl, refl, refl, refl, refl), refl, refl, refl, refl))),
      kept,
    )

-- A round that ends with an error leaves the spec and, of the status, the phase, the message, the
-- evidence of an approval, what was actuated and the condition; and only a round on an approved
-- reroute that is not in a terminal phase touches the routes.
pub failed-IsUnchanged : (env : Environment) (c : Request) → IsCareful env c (reconcile env c)
unfolding reconcile
failed-IsUnchanged env c =
    let t = expires_at_of env.parse_duration c in
    let seen : Status = record c.status { observed_generation = c.generation } in
    elim (Bool-cases (is_instant t c.status.expires_at)) [
      | inr e ↦ rw e (save_expiry-IsCareful env c t env.accepts_expiry)
      | inl e ↦
          let (safe, kept) = proceed-Careful env c seen t in
          rw e (
            (λ h.
                kept_request c c (proceed env c seen t).request (safe h)
                  (refl, ((refl, refl, refl, refl, refl), refl, refl, refl, refl))),
            kept,
          )
    ]
