-- ===== src/ChangeRequest/Workflow/Consistent.antt =====
-- The evidence of an approval through the rounds of aichangerequest_controller.go.
use ai_finops_operator.Prelude.{
  ◌≡◌, refl, sym, subst, ap, ◌∙◌, inl, inr, String, Bool, true, false, ◌==◌, some, Bool-cases,
}
use ai_finops_operator.ChangeRequest.Types.{Instant, Scope, Decision, Spec, Status, Request}
use ai_finops_operator.ChangeRequest.Decision.{Digests, is_authorization}
use ai_finops_operator.ChangeRequest.Reconcile.{
  is_instant, Environment, save_expiry, reconcile, expires_at_of,
}
use ai_finops_operator.ChangeRequest.Workflow.{
  IsAllowed, is_approved, Step, reconciled, edited, Reachable, created, next, IsBacked,
  IsConsistent, unapproved, backed, Same,
}
use ai_finops_operator.ChangeRequest.Workflow.Branches.{Kept, proceed-Kept}

Same-IsBacked :
    (digests : Digests) (spec : Spec) (s t : Status) (scope : Scope) (d : Decision)
    → Same s t
    → IsBacked digests spec s scope d
    → IsBacked digests spec t scope d
Same-IsBacked digests spec s t scope d (p, a, e₁, e₂, e₃) b = record {
  for_route = b.for_route;
  has_scope = b.has_scope;
  has_decision = b.has_decision;
  requested = b.requested;
  same_scope = e₁ ∙ b.same_scope;
  scope_digested = b.scope_digested;
  same_decision = e₂ ∙ b.same_decision;
  same_reviewer = e₃ ∙ b.same_reviewer;
  other_reviewer = b.other_reviewer;
  decided = b.decided;
}

Same-IsConsistent :
    (digests : Digests) (spec : Spec) (s t : Status)
    → Same s t
    → IsConsistent digests spec s
    → IsConsistent digests spec t
Same-IsConsistent digests spec s t h (unapproved k l) =
    unapproved (h.1 ∙ k) (ap is_approved h.0 ∙ l)
Same-IsConsistent digests spec s t h (backed scope d k b) =
    backed scope d (ap is_approved h.0 ∙ k) (Same-IsBacked digests spec s t scope d h b)

save_expiry-Kept :
    (env : Environment) (c : Request) (s : Status) (t : Instant) (accepts : Bool)
    → Kept env.digests c
    → IsConsistent env.digests c.spec s
    → Kept env.digests (save_expiry env c s t accepts).request
unfolding save_expiry
save_expiry-Kept env c s t false old k = old
save_expiry-Kept env c s t true old k = proceed-Kept env (record c { status = s }) s k t k

reconcile-Kept :
    (env : Environment) (c : Request)
    → Kept env.digests c
    → Kept env.digests (reconcile env c).request
unfolding reconcile
reconcile-Kept env c old =
    let t = expires_at_of env.parse_duration c in
    let seen : Status = record c.status { observed_generation = c.generation } in
    let s : Status = record seen { expires_at = some t } in
    let k₀ =
      Same-IsConsistent env.digests c.spec c.status seen (refl, refl, refl, refl, refl) old in
    let k₁ = Same-IsConsistent env.digests c.spec c.status s (refl, refl, refl, refl, refl) old in
    elim (Bool-cases (is_instant t c.status.expires_at)) [
      | inl e ↦ rw e (proceed-Kept env c seen old t k₀)
      | inr e ↦ rw e (save_expiry-Kept env c s t env.accepts_expiry old k₁)
    ]

-- An edit that the server lets through keeps the evidence backed.
edited-IsBacked :
    (digests : Digests) (old new : Spec) (s : Status) (scope : Scope) (d : Decision)
    → IsAllowed old new
    → IsBacked digests old s scope d
    → IsBacked digests new s scope d
edited-IsBacked digests old new s scope d h b =
    let same : new.requested_by ≡ old.requested_by = h.same_requester b.requested in
    record {
      for_route = ap is_authorization h.same_action ∙ b.for_route;
      has_scope = h.same_scope scope b.has_scope;
      has_decision = h.same_decision d b.has_decision;
      requested = ap (λ (r : String). r == "") same ∙ b.requested;
      same_scope = b.same_scope;
      scope_digested = b.scope_digested;
      same_decision = b.same_decision;
      same_reviewer = b.same_reviewer;
      other_reviewer = ap (λ (r : String). d.reviewer_identity == r) same ∙ b.other_reviewer;
      decided = b.decided;
    }

edited-IsConsistent :
    (digests : Digests) (old new : Spec) (s : Status)
    → IsAllowed old new
    → IsConsistent digests old s
    → IsConsistent digests new s
edited-IsConsistent digests old new s h (unapproved k l) = unapproved k l
edited-IsConsistent digests old new s h (backed scope d k b) =
    backed scope d k (edited-IsBacked digests old new s scope d h b)

Step-Kept : (digests : Digests) (c d : Request) → Kept digests c → Step digests c d → Kept digests d
Step-Kept digests c _ old (reconciled env e) =
    subst (λ g. Kept g (reconcile env c).request) e
      (reconcile-Kept env c (subst (λ g. Kept g c) (sym e) old))
Step-Kept digests c _ old (edited spec generation h) =
    edited-IsConsistent digests c.spec spec c.status h old

-- In every state that rounds and edits reach from a new request, either no approval is on record and
-- the phase is not approved, or the request authorizes a route and the evidence on record is that of
-- its own scope, whose digest is right, and of its own approving decision, whose reviewer is not the
-- requester.
pub Reachable-IsConsistent :
    (digests : Digests) (c : Request) → Reachable digests c → IsConsistent digests c.spec c.status
Reachable-IsConsistent digests c (created _ h) =
    unapproved h.no_approval (ap is_approved h.phase_unset)
Reachable-IsConsistent digests d (next {c} r m) =
    Step-Kept digests c d (Reachable-IsConsistent digests c r) m
