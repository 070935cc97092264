-- ===== src/Sovereignty/Flows/Complete.antt =====
-- What the findings of `EvaluateFlows` in internal/sovereigntyengine/sovereigntyengine.go say.
use ai_finops_operator.Prelude.{
  ◌≡◌, refl, sym, subst, ◌∙◌, All, ◌⊎◌, inl, inr, String, false, List, [], ◌∷◌, none, some, arith,
  Bool-cases, Option-cases, ◌∈◌, mem-append_left, mem-sort,
}
use ai_finops_operator.Prelude.Dict.{Dict, lookup}
use ai_finops_operator.Sovereignty.Zones.{
  Policy, is_member, normalize_zone, to_set, zone_allowed, is_zone_allowed, IsCompliant, HasCode,
  is_member-to_set, is_zone_allowed_iff,
}
use ai_finops_operator.Sovereignty.Findings.{
  Finding, severity_warning, severity_critical, policy_findings,
}
use ai_finops_operator.Sovereignty.Flows.{
  Flow, key_of, Aggregation, add_all, add_flows, flow_zone_findings, flow_external_findings,
  collect, flow_before, evaluate_flows,
}
use ai_finops_operator.Sovereignty.Flows.Separated.{
  IsPlainFlow, IsSeparated, AreSeparated, IsAlike, key_of-IsAlike, zone_findings-IsSeparated,
  add_flows-AreSeparated, empty-AreSeparated,
}
use ai_finops_operator.Sovereignty.Flows.Keyed.{
  IsKept, IsKeyed, add_all-IsKeyed, add_all-IsKept, add_all_added,
}

-- The finding on the zone of a flow, as severe as the policy makes it.
abbrev pub IsFlowFinding : Policy → Flow → Finding → Type 0
IsFlowFinding policy fl f =
    (f.namespace ≡ fl.namespace)
    × (f.application ≡ fl.application)
    × (f.model ≡ fl.model)
    × (f.provider ≡ fl.provider)
    × ((HasCode policy.forbidden_zones (normalize_zone fl.zone) × (f.severity ≡ severity_critical))
        ⊎ (HasCode policy.forbidden_zones (normalize_zone fl.zone) → ⊥)
          × (f.severity ≡ severity_warning))

module _ (quote : String → String) (policy : Policy) where
  -- The findings of one flow.
  abbrev after_flow : Flow → Aggregation → Aggregation
  after_flow fl s =
      add_all quote policy (flow_external_findings quote policy fl)
        (add_all quote policy (flow_zone_findings quote policy fl) s)

  after_flow-IsKeyed : (fl : Flow) (s : Aggregation) → IsKeyed s → IsKeyed (after_flow fl s)
  after_flow-IsKeyed fl s inv =
      add_all-IsKeyed quote policy (flow_external_findings quote policy fl) _
        (add_all-IsKeyed quote policy (flow_zone_findings quote policy fl) s inv)

  add_flows-IsKept :
      (fls : List Flow) (s : Aggregation) (k : String)
      → IsKeyed s
      → IsKept k s
      → IsKept k (add_flows quote policy fls s)
  unfolding add_flows
  add_flows-IsKept [] s k inv h = h
  add_flows-IsKept (fl ∷ fls) s k inv h =
      let zoned = add_all-IsKept quote policy (flow_zone_findings quote policy fl) s k inv h in
      let keyed = add_all-IsKeyed quote policy (flow_zone_findings quote policy fl) s inv in
      add_flows-IsKept fls (after_flow fl s) k (after_flow-IsKeyed fl s inv)
        (add_all-IsKept quote policy (flow_external_findings quote policy fl) _ k keyed zoned)

  add_flows_added :
      (fls : List Flow) (s : Aggregation) (fl : Flow) (f : Finding)
      → IsKeyed s
      → fl ∈ fls
      → f ∈ flow_zone_findings quote policy fl
      → IsKept (key_of f) (add_flows quote policy fls s)
  unfolding add_flows
  add_flows_added [] s fl f inv m k = elim m [ ]
  add_flows_added (x ∷ fls) s fl f inv (inr m) k =
      add_flows_added fls (after_flow x s) fl f (after_flow-IsKeyed x s inv) m k
  add_flows_added (x ∷ fls) s fl f inv (inl e) k =
      let here = subst (λ y. f ∈ flow_zone_findings quote policy y) e k in
      let zoned = add_all_added quote policy (flow_zone_findings quote policy x) s f inv here in
      let keyed = add_all-IsKeyed quote policy (flow_zone_findings quote policy x) s inv in
      add_flows-IsKept fls (after_flow x s) (key_of f) (after_flow-IsKeyed x s inv) (
        add_all-IsKept quote policy (flow_external_findings quote policy x) _ (key_of f) keyed
          zoned)

  empty-IsKeyed : IsKeyed (record { agg = []; order = [] })
  unfolding IsKeyed lookup
  empty-IsKeyed k g h = ground arith

  mem-collect :
      (agg : Dict Finding) (ks : List String) (k : String) (g : Finding)
      → lookup k agg ≡ some g
      → k ∈ ks
      → g ∈ collect agg ks
  unfolding collect
  mem-collect agg [] k g e m = elim m [ ]
  mem-collect agg (j ∷ ks) k g e (inl q) =
      subst (λ o. g ∈ elim o [ none ↦ collect agg ks | some f ↦ f ∷ collect agg ks ])
        (sym (subst (λ x. lookup x agg ≡ some g) q e)) (inl refl)
  mem-collect agg (j ∷ ks) k g e (inr m) = elim (Option-cases (lookup j agg)) [
    | inl n ↦
        subst (λ o. g ∈ elim o [ none ↦ collect agg ks | some f ↦ f ∷ collect agg ks ]) (sym n)
          (mem-collect agg ks k g e m)
    | inr (x, n) ↦
        subst (λ o. g ∈ elim o [ none ↦ collect agg ks | some f ↦ f ∷ collect agg ks ]) (sym n)
          (inr (mem-collect agg ks k g e m))
  ]

  reported_flow :
      (fl : Flow)
      → is_zone_allowed policy fl.zone ≡ false
      → (f : Finding) × (f ∈ flow_zone_findings quote policy fl) × IsFlowFinding policy fl f
  unfolding flow_zone_findings is_zone_allowed
  reported_flow fl h =
      let code = normalize_zone fl.zone in
      let member = is_member-to_set policy.forbidden_zones code in
      elim (Bool-cases (is_member (to_set policy.forbidden_zones) code)) [
        | inl m ↦ rw m (_, inl refl, (refl, refl, refl, refl, inl (member.0 m, refl)))
        | inr m ↦
            rw (m, refused m)
              (
                _,
                inl refl,
                (refl, refl, refl, refl, inr ((λ k. ground (arith, m, member.1 k)), refl)),
              )
      ]
    where
      refused :
          is_member (to_set policy.forbidden_zones) (normalize_zone fl.zone) ≡ false
          → zone_allowed (normalize_zone fl.zone) (to_set policy.allowed_zones) ≡ false
      refused m = ground (arith, m, h)

  mem-All : (fls : List Flow) (fl : Flow) → All IsPlainFlow fls → fl ∈ fls → IsPlainFlow fl
  mem-All [] fl p m = elim m [ ]
  mem-All (x ∷ fls) fl p (inl e) = subst IsPlainFlow (sym e) p.0
  mem-All (x ∷ fls) fl p (inr m) = mem-All fls fl p.1 m

  mem-IsSeparated : (fs : List Finding) (f : Finding) → All IsSeparated fs → f ∈ fs → IsSeparated f
  mem-IsSeparated [] f p m = elim m [ ]
  mem-IsSeparated (x ∷ fs) f p (inl e) = subst IsSeparated (sym e) p.0
  mem-IsSeparated (x ∷ fs) f p (inr m) = mem-IsSeparated fs f p.1 m

  alike-IsFlowFinding :
      (fl : Flow) (f g : Finding)
      → IsAlike g f
      → IsFlowFinding policy fl f
      → IsFlowFinding policy fl g
  alike-IsFlowFinding fl f g (a, b, c, d, e) (n, o, p, q, z) = (
    b ∙ n,
    c ∙ o,
    d ∙ p,
    e ∙ q,
    elim z [ inl (k, r) ↦ inl (k, a ∙ r) | inr (k, r) ↦ inr (k, a ∙ r) ],
  )

  -- `EvaluateFlows` loses no violation, if no namespace, application, model or provider contains the
  -- character U+001F: for every flow to a zone that does not comply with the policy the result has a
  -- finding on the flow's namespace, application, model and provider, critical if the zone is
  -- forbidden and else a warning.
  pub evaluate_flows-IsComplete :
      (fls : List Flow) (fl : Flow)
      → All IsPlainFlow fls
      → fl ∈ fls
      → (IsCompliant policy (normalize_zone fl.zone) → ⊥)
      → (g : Finding) × (g ∈ evaluate_flows quote policy fls) × IsFlowFinding policy fl g
  unfolding evaluate_flows IsKept AreSeparated
  evaluate_flows-IsComplete fls fl p m h =
      let (f, k, z) = reported_flow fl refused in
      let final = add_flows quote policy fls (record { agg = []; order = [] }) in
      let (listed, (g, e, q)) =
        add_flows_added fls (record { agg = []; order = [] }) fl f empty-IsKeyed m k in
      let separated =
        add_flows-AreSeparated quote policy fls (record { agg = []; order = [] }) p
          empty-AreSeparated (key_of f) g e in
      let plain =
        mem-IsSeparated _ f (zone_findings-IsSeparated quote policy fl (mem-All fls fl p m)) k in
      (
        g,
        mem-sort g flow_before _ (
            mem-append_left g _ (policy_findings policy)
              (mem-collect final.agg final.order (key_of f) g e listed)),
        alike-IsFlowFinding fl f g (key_of-IsAlike g f separated plain q) z,
      )
    where
      refused : is_zone_allowed policy fl.zone ≡ false
      refused = elim (Bool-cases (is_zone_allowed policy fl.zone)) [
        | inl a ↦ absurd (h ((is_zone_allowed_iff policy fl.zone).0 a))
        | inr a ↦ a
      ]
