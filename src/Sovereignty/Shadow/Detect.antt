-- ===== src/Sovereignty/Shadow/Detect.antt =====
-- What `Detect` of internal/shadowengine/shadowengine.go finds.
use ai_finops_operator.Prelude.{
  ◌≡◌, refl, sym, ◌⊎◌, ◌↔◌, subst, ◌∙◌, inl, inr, String, Bool, false, ◌&&◌, ◌==◌, List, [], ◌∷◌,
  Option, none, some, if◌then◌else◌, arith, Bool-cases, Option-cases, ◌∈◌,
}
use ai_finops_operator.Sovereignty.Zones.{
  Policy, is_member, to_set, normalize_zone, is_zone_allowed, IsCompliant, HasCode,
  is_member-to_set, is_zone_allowed_iff,
}
use ai_finops_operator.Sovereignty.Findings.{severity_critical, severity_warning}
use ai_finops_operator.Sovereignty.Shadow.{
  Egress, ShadowFinding, ZoneResolver, shadow_finding, detect_one, detect,
}

-- The host is a known endpoint, in a zone that does not comply with the policy.
abbrev pub IsShadow : Policy → ZoneResolver → Egress → Type 0
IsShadow policy resolve e =
    (((resolve e.host).0 == "" && (resolve e.host).1 == "") ≡ false)
    × (IsCompliant policy (normalize_zone (normalize_zone (resolve e.host).0)) → ⊥)

abbrev pub finding_of : (String → String) → Policy → ZoneResolver → Egress → ShadowFinding
finding_of quote policy resolve e =
    shadow_finding quote policy e (resolve e.host).1 (normalize_zone (resolve e.host).0)

-- The severity that the policy gives to a zone.
abbrev pub IsRanked : Policy → ShadowFinding → Type 0
IsRanked policy f =
    HasCode policy.forbidden_zones f.zone × (f.severity ≡ severity_critical)
    ⊎ (HasCode policy.forbidden_zones f.zone → ⊥) × (f.severity ≡ severity_warning)

finding_of-IsRanked :
    (quote : String → String) (policy : Policy) (resolve : ZoneResolver) (e : Egress)
    → IsRanked policy (finding_of quote policy resolve e)
unfolding shadow_finding
finding_of-IsRanked quote policy resolve e =
    let code = normalize_zone (resolve e.host).0 in
    let member = is_member-to_set policy.forbidden_zones code in
    elim (Bool-cases (is_member (to_set policy.forbidden_zones) code)) [
      | inl m ↦ inl (member.0 m, rw m refl)
      | inr m ↦ inr ((λ k. ground (arith, m, member.1 k)), rw m refl)
    ]

split :
    (a b : Bool) {f g : ShadowFinding}
    → (if a then none else if b then none else some g) ≡ some f
    → (a ≡ false) × (b ≡ false) × (f ≡ g)
split a b h = ground arith

-- What one round finds.
detect_one-eq-some :
    (quote : String → String) (policy : Policy) (resolve : ZoneResolver) (e : Egress)
    {f : ShadowFinding}
    → detect_one quote policy resolve e ≡ some f
    → IsShadow policy resolve e × (f ≡ finding_of quote policy resolve e)
unfolding detect_one
detect_one-eq-some quote policy resolve e {f} h =
    let code = normalize_zone (resolve e.host).0 in
    let (known, barred, same) =
      split ((resolve e.host).0 == "" && (resolve e.host).1 == "") (is_zone_allowed policy code)
        h in
    ((known, (λ k. ground (arith, barred, (is_zone_allowed_iff policy code).1 k))), same)

detect_one-IsShadow :
    (quote : String → String) (policy : Policy) (resolve : ZoneResolver) (e : Egress)
    → IsShadow policy resolve e
    → detect_one quote policy resolve e ≡ some (finding_of quote policy resolve e)
unfolding detect_one
detect_one-IsShadow quote policy resolve e h =
    let code = normalize_zone (resolve e.host).0 in
    elim (Bool-cases (is_zone_allowed policy code)) [
      | inl a ↦ absurd (h.1 ((is_zone_allowed_iff policy code).0 a))
      | inr a ↦ ground (arith, h.0, a)
    ]

-- Some egress of the list is shadow egress that `f` describes, with its severity.
abbrev pub IsFound :
    (String → String) → Policy → ZoneResolver → List Egress → ShadowFinding → Type 0
IsFound quote policy resolve [] f = ⊥
IsFound quote policy resolve (e ∷ es) f =
    IsShadow policy resolve e × (f ≡ finding_of quote policy resolve e) × IsRanked policy f
    ⊎ IsFound quote policy resolve es f

none-some : {g : ShadowFinding} → none ≡ some g → ⊥
none-some h = ground arith

-- The findings of a list, after what the round on the egress in front of it found.
abbrev found : Option ShadowFinding → List ShadowFinding → List ShadowFinding
found o rest = elim o [ none ↦ rest | some f ↦ f ∷ rest ]

-- `Detect` with a resolver finds exactly the egress to known endpoints in zones that do not comply
-- with the policy, and describes each: critical if the zone is forbidden, and else a warning.
pub detect_iff :
    (quote : String → String) (policy : Policy) (resolve : ZoneResolver) (es : List Egress)
    (f : ShadowFinding)
    → (f ∈ detect quote policy es (some resolve)) ↔ IsFound quote policy resolve es f
unfolding detect
detect_iff quote policy resolve [] f = ((λ h. elim h [ ]), (λ h. elim h [ ]))
detect_iff quote policy resolve (e ∷ es) f =
    elim (Option-cases (detect_one quote policy resolve e)) [
      | inl n ↦
          subst
            (λ o.
              (f ∈ found o (detect quote policy es (some resolve)))
              ↔ IsFound quote policy resolve (e ∷ es) f)
            (sym n)
            (
              (λ h. inr ((detect_iff quote policy resolve es f).0 h)),
              (λ h. elim h [
                | inl k ↦
                    absurd (none-some (sym n ∙ detect_one-IsShadow quote policy resolve e k.0))
                | inr k ↦ (detect_iff quote policy resolve es f).1 k
              ]),
            )
      | inr (g, n) ↦
          let (shadow, same) = detect_one-eq-some quote policy resolve e n in
          subst
            (λ o.
              (f ∈ found o (detect quote policy es (some resolve)))
              ↔ IsFound quote policy resolve (e ∷ es) f)
            (sym n)
            (
              (λ h. elim h [
                | inl q ↦ inl (shadow, q ∙ same, ranked (q ∙ same))
                | inr q ↦ inr ((detect_iff quote policy resolve es f).0 q)
              ]),
              (λ h. elim h [
                | inl k ↦ inl (k.1 ∙ sym same)
                | inr k ↦ inr ((detect_iff quote policy resolve es f).1 k)
              ]),
            )
    ]
  where
    ranked : f ≡ finding_of quote policy resolve e → IsRanked policy f
    ranked q = subst (IsRanked policy) (sym q) (finding_of-IsRanked quote policy resolve e)
