-- ===== src/Sovereignty/Findings.antt =====
-- Findings on providers: `Evaluate` of internal/sovereigntyengine/sovereigntyengine.go.
pub mod Complete
use ai_finops_operator.Prelude.{
  ◌≡◌, ℕ, ◌+◌, ltb, eqb, ℤ, pos, String, Bool, true, false, not, ◌&&◌, ◌||◌, ◌==◌, List, [], ◌∷◌,
  ◌++◌, if◌then◌else◌, str_lt, join, sort,
}
use ai_finops_operator.Sovereignty.Zones.{Policy, is_member, normalize_zone, to_set, zone_allowed}

abbrev pub severity_info : String
severity_info = "info"

abbrev pub severity_warning : String
severity_warning = "warning"

abbrev pub severity_critical : String
severity_critical = "critical"

pub record Finding : Type 0 where
  pub severity : String
  pub message : String
  pub namespace : String
  pub application : String
  pub model : String
  pub provider : String
  pub zone : String
  pub requests : ℤ

pub record ProviderInfo : Type 0 where
  pub name : String
  pub zone : String
  pub managed : Bool
  pub allowed_for_sensitive_data : Bool

unfoldable pub severity_rank : String → ℕ
severity_rank s =
    if s == severity_critical
    then 3
    else if s == severity_warning
    then 2
    else if s == severity_info
    then 1
    else 0

-- The pieces of a formatted text.
abbrev pub concat : List String → String
concat pieces = join "" pieces

-- The elements of a list once each.
unfoldable pub distinct : List String → List String
unfolding is_member
distinct [] = []
distinct (s ∷ ss) = let rest = distinct ss in if is_member rest s then rest else s ∷ rest

-- sortedKeys of a set, in the format `%v`.
unfoldable pub sorted_keys : List String → List String
unfolding distinct
sorted_keys keys = sort str_lt (distinct keys)

unfoldable pub print_keys : List String → String
unfolding sorted_keys
print_keys keys = concat ("[" ∷ join " " (sorted_keys keys) ∷ "]" ∷ [])

-- A finding that is about no flow.
abbrev pub provider_finding : (severity provider zone message : String) → Finding
provider_finding severity provider zone message = record {
  severity = severity;
  message = message;
  namespace = "";
  application = "";
  model = "";
  provider = provider;
  zone = zone;
  requests = pos 0;
}

abbrev pub anonymization_finding : Finding
anonymization_finding =
    provider_finding severity_info "" ""
      "Policy requires prompt anonymization; ensure the gateway redacts sensitive fields before egress."

-- The finding that a policy adds at the end, if it requires anonymization.
unfoldable pub policy_findings : Policy → List Finding
policy_findings policy = if policy.require_anonymization then anonymization_finding ∷ [] else []

-- `quote` is fmt's `%q`.
module _ (quote : String → String) where
  unfoldable pub zone_findings : Policy → ProviderInfo → List Finding
  zone_findings policy p =
      let zone = normalize_zone p.zone in
      let allowed = to_set policy.allowed_zones in
      if is_member (to_set policy.forbidden_zones) zone
      then provider_finding severity_critical p.name zone
          (concat ("Provider " ∷ quote p.name ∷ " operates in forbidden zone " ∷ zone ∷ "." ∷ []))
        ∷ []
      else if not (zone_allowed zone allowed)
      then provider_finding severity_warning p.name zone (
          concat (
            "Provider "
            ∷ quote p.name
            ∷ " zone "
            ∷ zone
            ∷ " is outside the allowed zones "
            ∷ print_keys allowed
            ∷ "."
            ∷ []))
        ∷ []
      else []

  unfoldable pub external_findings : Policy → ProviderInfo → List Finding
  external_findings policy p =
      if not policy.external_providers_allowed && p.managed
      then provider_finding severity_warning p.name (normalize_zone p.zone) (
          concat (
            "External managed provider "
            ∷ quote p.name
            ∷ " is in use while external providers are disallowed for sensitive data."
            ∷ []))
        ∷ []
      else []

  unfoldable pub provider_findings : Policy → List ProviderInfo → List Finding
  provider_findings policy [] = []
  provider_findings policy (p ∷ ps) =
      zone_findings policy p ++ (external_findings policy p ++ provider_findings policy ps)

  -- The order of the findings.
  unfoldable pub comes_before : Finding → Finding → Bool
  comes_before a b =
      if not (eqb (severity_rank a.severity) (severity_rank b.severity))
      then ltb (severity_rank b.severity) (severity_rank a.severity)
      else str_lt a.provider b.provider

  unfoldable pub evaluate : Policy → List ProviderInfo → List Finding
  evaluate policy providers =
      sort comes_before (provider_findings policy providers ++ policy_findings policy)
