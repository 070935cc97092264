-- ===== src/ChangeRequest/Workflow/Terminal.antt =====
-- The terminal phases of aichangerequest_controller.go, and how a request comes to one.
use ai_finops_operator.Prelude.{
  ◌≡◌, refl, ap, ◌∙◌, inl, inr, Bool, true, false, none, some, ltb, Bool-cases, arith,
}
use ai_finops_operator.ChangeRequest.Types.{Instant, Phase, Status, Request}
use ai_finops_operator.ChangeRequest.Decision.{Digests}
use ai_finops_operator.ChangeRequest.Reconcile.{
  Environment, Round, is_instant, set_phase, withdrawn, store_status, withdraw, proceed,
  save_expiry, reconcile, is_terminal, expires_at_of,
}
use ai_finops_operator.ChangeRequest.Workflow.{Step, reconciled, edited, Same, Later, now, then_on}

module _ (env : Environment) (c : Request) where
  terminal-proceed :
      (s : Status) (t : Instant)
      → is_terminal s.phase ≡ true
      → (proceed env c s t
          ≡ record { request = c; listing = env.listing; requeue_after = 0; failed = false })
  unfolding proceed
  terminal-proceed s t h = rw h refl

-- What a round leaves alone: the phase, the evidence and the routes.
abbrev Untouched : Environment → Request → Round → Type 0
Untouched env c r = Same c.status r.request.status × (r.listing ≡ env.listing)

terminal-save_expiry :
    (env : Environment) (c : Request) (t : Instant) (accepts : Bool)
    → is_terminal c.status.phase ≡ true
    → Untouched env c (
        save_expiry env c
          (record c.status { observed_generation = c.generation; expires_at = some t })
          t
          accepts)
unfolding save_expiry proceed
terminal-save_expiry env c t false h = ((refl, refl, refl, refl, refl), refl)
terminal-save_expiry env c t true h = rw h ((refl, refl, refl, refl, refl), refl)

terminal-reconcile :
    (env : Environment) (c : Request)
    → is_terminal c.status.phase ≡ true
    → Untouched env c (reconcile env c)
unfolding reconcile
terminal-reconcile env c h =
    let t = expires_at_of env.parse_duration c in
    elim (Bool-cases (is_instant t c.status.expires_at)) [
      | inr e ↦ rw e (terminal-save_expiry env c t env.accepts_expiry h)
      | inl e ↦
          rw
            (e, terminal-proceed env c (record c.status { observed_generation = c.generation }) t h)
            ((refl, refl, refl, refl, refl), refl)
    ]

Same-trans : (s t u : Status) → Same s t → Same t u → Same s u
Same-trans s t u (p, a, x, y, z) (p', a', x', y', z') = (p' ∙ p, a' ∙ a, x' ∙ x, y' ∙ y, z' ∙ z)

terminal-Step :
    (digests : Digests) (c d : Request)
    → is_terminal c.status.phase ≡ true
    → Step digests c d
    → Same c.status d.status
terminal-Step digests c _ h (reconciled env e) = (terminal-reconcile env c h).0
terminal-Step digests c _ h (edited spec generation k) = (refl, refl, refl, refl, refl)

-- A request that is actuated, rejected or expired keeps its phase and its evidence through any number
-- of later rounds and edits.
pub terminal-Later :
    (digests : Digests) (c d : Request)
    → is_terminal c.status.phase ≡ true
    → Later digests c d
    → Same c.status d.status
terminal-Later digests c _ h now = (refl, refl, refl, refl, refl)
terminal-Later digests c e h (then_on {d} l m) =
    let before = terminal-Later digests c d h l in
    Same-trans c.status d.status e.status before
      (terminal-Step digests d e (ap is_terminal before.0 ∙ h) m)

-- What the code leaves of a request whose time is over.
pub record IsExpired (s : Status) : Type 0 where
  pub phase_expired : s.phase ≡ Phase.expired
  pub no_approval : s.approved_at ≡ none
  pub no_scope : s.approved_scope_digest ≡ ""
  pub no_decision : s.approved_decision_digest ≡ ""
  pub no_reviewer : s.approved_by ≡ ""

module _ (env : Environment) (c : Request) where
  proceed-IsExpired :
      (s : Status) (t : Instant)
      → is_terminal s.phase ≡ false
      → ltb (env.now 0) t ≡ false
      → env.accepts_status ≡ true
      → IsExpired (proceed env c s t).request.status
  unfolding proceed withdraw store_status withdrawn set_phase
  proceed-IsExpired s t h k a = record {
    phase_expired = ground arith;
    no_approval = ground arith;
    no_scope = ground arith;
    no_decision = ground arith;
    no_reviewer = ground arith;
  }

save_expiry-IsExpired :
    (env : Environment) (c : Request) (s : Status) (t : Instant) (accepts : Bool)
    → accepts ≡ true
    → is_terminal s.phase ≡ false
    → ltb (env.now 0) t ≡ false
    → env.accepts_status ≡ true
    → IsExpired (save_expiry env c s t accepts).request.status
unfolding save_expiry
save_expiry-IsExpired env c s t false e h k a = let e = e in cc
save_expiry-IsExpired env c s t true e h k a =
    proceed-IsExpired env (record c { status = s }) s t h k a

reconcile-IsExpired :
    (env : Environment) (c : Request)
    → is_terminal c.status.phase ≡ false
    → ltb (env.now 0) (expires_at_of env.parse_duration c) ≡ false
    → env.accepts_expiry ≡ true
    → env.accepts_status ≡ true
    → IsExpired (reconcile env c).request.status
unfolding reconcile
reconcile-IsExpired env c h k x a =
    let t = expires_at_of env.parse_duration c in
    let seen : Status = record c.status { observed_generation = c.generation } in
    elim (Bool-cases (is_instant t c.status.expires_at)) [
      | inl e ↦ rw e (proceed-IsExpired env c seen t h k a)
      | inr e ↦ rw e (
          save_expiry-IsExpired env c (record seen { expires_at = some t }) t env.accepts_expiry x h
            k a)
    ]

Same-IsExpired : (s t : Status) → Same s t → IsExpired s → IsExpired t
Same-IsExpired s t (p, a, x, y, z) h = record {
  phase_expired = p ∙ h.phase_expired;
  no_approval = a ∙ h.no_approval;
  no_scope = x ∙ h.no_scope;
  no_decision = y ∙ h.no_decision;
  no_reviewer = z ∙ h.no_reviewer;
}

-- One round that the server accepts, at or after the expiry of a request that is not in a terminal
-- phase, makes it expired with all evidence of an approval withdrawn, and it stays so through any
-- number of later rounds and edits.
pub Later-IsExpired :
    (env : Environment) (c d : Request)
    → is_terminal c.status.phase ≡ false
    → ltb (env.now 0) (expires_at_of env.parse_duration c) ≡ false
    → env.accepts_expiry ≡ true
    → env.accepts_status ≡ true
    → Later env.digests (reconcile env c).request d
    → IsExpired d.status
Later-IsExpired env c d h k x a l =
    let expired = reconcile-IsExpired env c h k x a in
    Same-IsExpired (reconcile env c).request.status d.status
      (terminal-Later env.digests (reconcile env c).request d (ap is_terminal expired.phase_expired)
        l)
      expired
