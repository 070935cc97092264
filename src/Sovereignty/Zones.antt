-- ===== src/Sovereignty/Zones.antt =====
-- Zones and policies of internal/sovereigntyengine/sovereigntyengine.go.
use ai_finops_operator.Prelude.{
  ◌≡◌, refl, ◌↔◌, ◌⊎◌, inl, inr, String, Bool, true, false, ◌&&◌, ◌||◌, ◌==◌, List, [], ◌∷◌,
  if◌then◌else◌, to_lower, to_upper, trim, arith, eq_iff, Bool-cases, ==-cases,
}

-- The fields of a policy that the engines read.
pub record Policy : Type 0 where
  pub allowed_zones : List String
  pub forbidden_zones : List String
  pub external_providers_allowed : Bool
  pub require_anonymization : Bool

-- A set of strings; `is_member s k` is `s[k]`.
unfoldable pub is_member : List String → String → Bool
is_member [] k = false
is_member (s ∷ ss) k = s == k || is_member ss k

abbrev pub eu_countries : List String
eu_countries =
    "FR" ∷ "DE" ∷ "ES" ∷ "IT" ∷ "NL" ∷ "BE" ∷ "LU" ∷ "IE" ∷ "PT" ∷ "AT" ∷ "FI" ∷ "SE" ∷ "DK" ∷ "PL"
    ∷ "CZ" ∷ "GR" ∷ "RO" ∷ "HU" ∷ []

-- NormalizeZone after trimming, with the lower-case and the upper-case spelling.
zone_code : (lower upper : String) → String
unfolding is_member
zone_code lower upper =
    if is_member ("fr" ∷ "france" ∷ "francecentral" ∷ []) lower
    then "FR"
    else if is_member ("eu" ∷ "europe" ∷ "european union" ∷ []) lower
    then "EU"
    else if is_member ("us" ∷ "usa" ∷ "united states" ∷ "eastus" ∷ "westus" ∷ []) lower
    then "US"
    else if is_member ("cn" ∷ "china" ∷ []) lower
    then "CN"
    else if is_member ("uk" ∷ "gb" ∷ "united kingdom" ∷ []) lower
    then "GB"
    else if lower == ""
    then ""
    else upper

unfoldable pub normalize_zone : String → String
unfolding zone_code
normalize_zone z = zone_code (to_lower (trim z)) (to_upper (trim z))

-- The keys of the set that `toSet` builds, a key for each zone.
unfoldable pub to_set : List String → List String
to_set [] = []
to_set (z ∷ zs) = normalize_zone z ∷ to_set zs

abbrev pub is_empty : List String → Bool
is_empty [] = true
is_empty (_ ∷ _) = false

unfoldable pub zone_allowed : String → List String → Bool
zone_allowed zone allowed =
    if is_empty allowed
    then true
    else if is_member allowed zone
    then true
    else is_member allowed "EU" && is_member eu_countries zone

unfoldable pub is_zone_allowed : Policy → String → Bool
is_zone_allowed policy raw_zone =
    let zone = normalize_zone raw_zone in
    if is_member (to_set policy.forbidden_zones) zone
    then false
    else zone_allowed zone (to_set policy.allowed_zones)

-- Some zone of the list has the same code.
abbrev pub HasCode : List String → String → Type 0
HasCode [] code = ⊥
HasCode (z ∷ zs) code = (normalize_zone z ≡ code) ⊎ HasCode zs code

pub is_member-to_set :
    (zs : List String) (code : String) → is_member (to_set zs) code ≡ true ↔ HasCode zs code
unfolding is_member to_set
is_member-to_set [] code = ((λ h. ground arith), (λ h. elim h [ ]))
is_member-to_set (z ∷ zs) code = (
  (λ h. elim (==-cases (normalize_zone z) code) [
    | inl e ↦ inl e.0
    | inr e ↦ inr ((is_member-to_set zs code).0 (ground arith))
  ]),
  (λ h. elim h [
    | inl e ↦ ground (arith, eq_iff (normalize_zone z) code)
    | inr k ↦ ground (arith, (is_member-to_set zs code).1 k)
  ]),
)

-- The meaning of a policy for the zone with the code `code`: no forbidden zone has that code, and it
-- is the code of an allowed zone, or of a member of the EU while the EU is allowed, or nothing
-- restricts the allowed zones.
pub record IsCompliant (policy : Policy) (code : String) : Type 0 where
  pub not_forbidden : HasCode policy.forbidden_zones code → ⊥
  pub allowed :
      (policy.allowed_zones ≡ [])
      ⊎ HasCode policy.allowed_zones code
      ⊎ HasCode policy.allowed_zones "EU" × (is_member eu_countries code ≡ true)

-- The tests of `zoneAllowed` on a list that is not empty, as a sum.
either_member :
    (a b c : Bool) → (if a then true else b && c) ≡ true ↔ ((a ≡ true) ⊎ (b ≡ true) × (c ≡ true))
either_member a b c = (ground arith, ground arith)

zone_allowed_iff :
    (zs : List String) (code : String)
    → zone_allowed code (to_set zs) ≡ true
      ↔ ((zs ≡ []) ⊎ HasCode zs code ⊎ HasCode zs "EU" × (is_member eu_countries code ≡ true))
unfolding zone_allowed
zone_allowed_iff [] code = unfold to_set in ((λ h. inl refl), (λ h. refl))
zone_allowed_iff (z ∷ zs) code =
    let tests =
      either_member (is_member (to_set (z ∷ zs)) code) (is_member (to_set (z ∷ zs)) "EU")
        (is_member eu_countries code) in
    (
      (λ h. elim (tests.0 (unfold to_set in h)) [
        | inl m ↦ inr (inl ((is_member-to_set (z ∷ zs) code).0 m))
        | inr m ↦ inr (inr ((is_member-to_set (z ∷ zs) "EU").0 m.0, m.1))
      ]),
      (λ h.
          unfold to_set in
          tests.1 (elim h [
            | inl e ↦ ground arith
            | inr (inl k) ↦ inl ((is_member-to_set (z ∷ zs) code).1 k)
            | inr (inr k) ↦ inr ((is_member-to_set (z ∷ zs) "EU").1 k.0, k.1)
          ])),
    )

-- `IsZoneAllowed` accepts exactly the zones whose code complies with the policy.
pub is_zone_allowed_iff :
    (policy : Policy) (raw_zone : String)
    → is_zone_allowed policy raw_zone ≡ true ↔ IsCompliant policy (normalize_zone raw_zone)
unfolding is_zone_allowed
is_zone_allowed_iff policy raw_zone =
    let code = normalize_zone raw_zone in
    let allowed = zone_allowed_iff policy.allowed_zones code in
    elim (Bool-cases (is_member (to_set policy.forbidden_zones) code)) [
      | inl f ↦ (
        (λ h. ground (arith, f, h)),
        (λ k. absurd (k.not_forbidden ((is_member-to_set policy.forbidden_zones code).0 f))),
      )
      | inr f ↦ (
        (λ h. record {
          not_forbidden =
              λ k. ground (arith, f, (is_member-to_set policy.forbidden_zones code).1 k);
          allowed = allowed.0 (ground (arith, f, h));
        }),
        (λ k. ground (arith, f, allowed.1 k.allowed)),
      )
    ]
