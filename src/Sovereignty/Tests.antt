-- ===== src/Sovereignty/Tests.antt =====
-- Runs of the sovereignty engines, and the theorems applied to them.
use ai_finops_operator.Prelude.{
  ◌≡◌, ◌↔◌, refl, All, arith, inl, inr, pos, String, true, false, ◌==◌, [], ◌∷◌, some,
  if◌then◌else◌, ◌∈◌, to_lower, to_upper, trim,
}
use ai_finops_operator.Sovereignty.Zones.{
  Policy, is_member, to_set, zone_allowed, normalize_zone, is_zone_allowed, IsCompliant,
  is_zone_allowed_iff,
}
use ai_finops_operator.Sovereignty.Findings.{Finding, ProviderInfo, evaluate}
use ai_finops_operator.Sovereignty.Findings.Complete.{IsZoneFinding, evaluate-IsComplete}
use ai_finops_operator.Sovereignty.Flows.{Flow, evaluate_flows}
use ai_finops_operator.Sovereignty.Flows.Separated.{IsPlainFlow}
use ai_finops_operator.Sovereignty.Flows.Complete.{IsFlowFinding, evaluate_flows-IsComplete}
use ai_finops_operator.Sovereignty.Shadow.{Egress, ZoneResolver, detect}
use ai_finops_operator.Sovereignty.Shadow.Detect.{IsFound, detect_iff, finding_of}
use ai_finops_operator.Sovereignty.Decisions.{
  Violation, decide_sovereignty, AllPairs, FollowsMode, IsAbout, decide_sovereignty-FollowsMode,
}

abbrev europe_only : Policy
europe_only = record {
  allowed_zones = "eu" ∷ [];
  forbidden_zones = "china" ∷ "usa" ∷ [];
  external_providers_allowed = true;
  require_anonymization = false;
}

abbrev quoted : String → String
quoted s = s

france-allowed : is_zone_allowed europe_only " France " ≡ true
unfolding is_zone_allowed is_member to_set normalize_zone to_lower trim zone_allowed
france-allowed = refl

is_zone_allowed_iff_example :
    is_zone_allowed europe_only "eastus" ≡ true ↔ IsCompliant europe_only (normalize_zone "eastus")
is_zone_allowed_iff_example = is_zone_allowed_iff europe_only "eastus"

same_code : normalize_zone "usa" ≡ normalize_zone "eastus"
unfolding normalize_zone trim to_lower to_upper
same_code = refl

us_not_compliant : IsCompliant europe_only (normalize_zone "eastus") → ⊥
us_not_compliant c = c.not_forbidden (inr (inl same_code))

abbrev american : ProviderInfo
american = record {
  name = "openai";
  zone = "eastus";
  managed = true;
  allowed_for_sensitive_data = false;
}

evaluate-IsComplete_example :
    (f : Finding) × (f ∈ evaluate quoted europe_only (american ∷ []))
    × IsZoneFinding europe_only american f
evaluate-IsComplete_example =
    evaluate-IsComplete quoted europe_only (american ∷ []) american (inl refl) us_not_compliant

abbrev american_flow : Flow
american_flow = record {
  namespace = "shop";
  application = "search";
  model = "gpt";
  provider = "openai";
  zone = "eastus";
  managed = true;
  provider_allows_sensitive = false;
  model_allows_sensitive = false;
  requests = pos 3;
}

american_flow-IsPlainFlow : All IsPlainFlow (american_flow ∷ [])
american_flow-IsPlainFlow = ground arith

evaluate_flows-IsComplete_example :
    (g : Finding) × (g ∈ evaluate_flows quoted europe_only (american_flow ∷ []))
    × IsFlowFinding europe_only american_flow g
evaluate_flows-IsComplete_example =
    evaluate_flows-IsComplete quoted europe_only (american_flow ∷ []) american_flow
      american_flow-IsPlainFlow (inl refl) us_not_compliant

abbrev resolve_openai : ZoneResolver
resolve_openai host = if host == "api.openai.com" then ("us", "openai") else ("", "")

abbrev direct : Egress
direct = record {
  namespace = "shop";
  application = "search";
  host = "api.openai.com";
  connections = pos 2;
}

detect_iff_example :
    (finding_of quoted europe_only resolve_openai direct
      ∈ detect quoted europe_only (direct ∷ []) (some resolve_openai))
    ↔ IsFound quoted europe_only resolve_openai
        (direct ∷ [])
        (finding_of quoted europe_only resolve_openai direct)
detect_iff_example =
    detect_iff quoted europe_only resolve_openai (direct ∷ [])
      (finding_of quoted europe_only resolve_openai direct)

abbrev exposure : Violation
exposure = record {
  namespace = "shop";
  application = "search";
  provider = "openai";
  zone = "US";
  model = "gpt";
  requests = pos 3;
}

decide_sovereignty-FollowsMode_example :
    AllPairs
      (λ v d. FollowsMode "enforce" "mistral" d × IsAbout v d)
      (exposure ∷ [])
      (decide_sovereignty quoted (λ n. "3") "enforce" (exposure ∷ []) "mistral")
decide_sovereignty-FollowsMode_example =
    decide_sovereignty-FollowsMode quoted (λ n. "3") "enforce" "mistral" (exposure ∷ [])
