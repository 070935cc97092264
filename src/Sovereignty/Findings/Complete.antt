-- ===== src/Sovereignty/Findings/Complete.antt =====
-- What the findings of `Evaluate` in internal/sovereigntyengine/sovereigntyengine.go say.
use ai_finops_operator.Prelude.{
  ◌≡◌, refl, subst, ◌⊎◌, inl, inr, String, false, List, [], ◌∷◌, arith, Bool-cases, ◌∈◌,
  mem-append_left, mem-append_right, mem-sort,
}
use ai_finops_operator.Sovereignty.Zones.{
  Policy, is_member, normalize_zone, to_set, zone_allowed, is_zone_allowed, IsCompliant, HasCode,
  is_member-to_set, is_zone_allowed_iff,
}
use ai_finops_operator.Sovereignty.Findings.{
  Finding, ProviderInfo, severity_warning, severity_critical, zone_findings, external_findings,
  provider_findings, policy_findings, comes_before, evaluate,
}

-- A finding on the zone of a provider, as severe as the policy makes it.
abbrev pub IsZoneFinding : Policy → ProviderInfo → Finding → Type 0
IsZoneFinding policy p f =
    (f.provider ≡ p.name)
    × (f.zone ≡ normalize_zone p.zone)
    × ((HasCode policy.forbidden_zones (normalize_zone p.zone) × (f.severity ≡ severity_critical))
        ⊎ (HasCode policy.forbidden_zones (normalize_zone p.zone) → ⊥)
          × (f.severity ≡ severity_warning))

reported_zone :
    (quote : String → String) (policy : Policy) (p : ProviderInfo)
    → is_zone_allowed policy p.zone ≡ false
    → (f : Finding) × (f ∈ zone_findings quote policy p) × IsZoneFinding policy p f
unfolding zone_findings is_zone_allowed
reported_zone quote policy p h =
    let code = normalize_zone p.zone in
    let member = is_member-to_set policy.forbidden_zones code in
    elim (Bool-cases (is_member (to_set policy.forbidden_zones) code)) [
      | inl m ↦ rw m (_, inl refl, (refl, refl, inl (member.0 m, refl)))
      | inr m ↦
          rw (m, refused m)
            (_, inl refl, (refl, refl, inr ((λ k. ground (arith, m, member.1 k)), refl)))
    ]
  where
    refused :
        is_member (to_set policy.forbidden_zones) (normalize_zone p.zone) ≡ false
        → zone_allowed (normalize_zone p.zone) (to_set policy.allowed_zones) ≡ false
    refused m = ground (arith, m, h)

reported_provider :
    (quote : String → String) (policy : Policy) (ps : List ProviderInfo) (p : ProviderInfo)
    → is_zone_allowed policy p.zone ≡ false
    → p ∈ ps
    → (f : Finding) × (f ∈ provider_findings quote policy ps) × IsZoneFinding policy p f
unfolding provider_findings
reported_provider quote policy [] p h m = elim m [ ]
reported_provider quote policy (q ∷ ps) p h (inl e) =
    let (f, k, z) = reported_zone quote policy p h in
    let here = subst (λ x. f ∈ zone_findings quote policy x) e k in
    (f, mem-append_left f (zone_findings quote policy q) _ here, z)
reported_provider quote policy (q ∷ ps) p h (inr m) =
    let (f, k, z) = reported_provider quote policy ps p h m in
    (
      f,
      mem-append_right f (zone_findings quote policy q) _
          (mem-append_right f (external_findings quote policy q) _ k),
      z,
    )

-- `Evaluate` has a finding on every provider whose zone does not comply with the policy: critical if
-- the zone is forbidden, and a warning if it is only outside the allowed zones.
pub evaluate-IsComplete :
    (quote : String → String) (policy : Policy) (ps : List ProviderInfo) (p : ProviderInfo)
    → p ∈ ps
    → (IsCompliant policy (normalize_zone p.zone) → ⊥)
    → (f : Finding) × (f ∈ evaluate quote policy ps) × IsZoneFinding policy p f
unfolding evaluate
evaluate-IsComplete quote policy ps p m h =
    let (f, k, z) = reported_provider quote policy ps p refused m in
    (f, mem-sort f (comes_before quote) _ (mem-append_left f _ (policy_findings policy) k), z)
  where
    refused : is_zone_allowed policy p.zone ≡ false
    refused = elim (Bool-cases (is_zone_allowed policy p.zone)) [
      | inl a ↦ absurd (h ((is_zone_allowed_iff policy p.zone).0 a))
      | inr a ↦ a
    ]
