-- ===== src/Sovereignty/Flows.antt =====
-- Findings on observed traffic: `EvaluateFlows` of internal/sovereigntyengine/sovereigntyengine.go.
pub mod Keyed
pub mod Separated
pub mod Complete
use ai_finops_operator.Prelude.{
  ◌≡◌, ℕ, ltb, eqb, ℤ, pos, add64, String, Bool, true, false, not, ◌&&◌, ◌||◌, ◌==◌, List, [], ◌∷◌,
  ◌++◌, Option, none, some, if◌then◌else◌, str_lt, join, sort,
}
use ai_finops_operator.Prelude.Dict.{Dict, lookup, insert}
use ai_finops_operator.Sovereignty.Zones.{Policy, is_member, normalize_zone, to_set, zone_allowed}
use ai_finops_operator.Sovereignty.Findings.{
  Finding, severity_warning, severity_critical, severity_rank, concat, print_keys, policy_findings,
}

pub record Flow : Type 0 where
  pub namespace : String
  pub application : String
  pub model : String
  pub provider : String
  pub zone : String
  pub managed : Bool
  pub provider_allows_sensitive : Bool
  pub model_allows_sensitive : Bool
  pub requests : ℤ

-- A finding on a flow.
abbrev pub flow_finding : Flow → (severity message : String) → Finding
flow_finding fl severity message = record {
  severity = severity;
  message = message;
  namespace = fl.namespace;
  application = fl.application;
  model = fl.model;
  provider = fl.provider;
  zone = normalize_zone fl.zone;
  requests = fl.requests;
}

-- What findings that are counted together share.
unfoldable pub key_of : Finding → String
key_of f =
    join "\u{1f}" (f.severity ∷ f.namespace ∷ f.application ∷ f.model ∷ f.provider ∷ f.message ∷ [])

-- `agg` and `order`.
pub record Aggregation : Type 0 where
  pub agg : Dict Finding
  pub order : List String

unfoldable pub add : Finding → Aggregation → Aggregation
add f s = elim (lookup (key_of f) s.agg) [
  | some existing ↦ record s {
    agg =
        insert (key_of f) (record existing { requests = add64 existing.requests f.requests }) s.agg;
  }
  | none ↦ record { agg = insert (key_of f) f s.agg; order = s.order ++ key_of f ∷ [] }
]

-- `quote` is fmt's `%q`.
module _ (quote : String → String) (policy : Policy) where
  unfoldable pub flow_zone_findings : Flow → List Finding
  flow_zone_findings fl =
      let zone = normalize_zone fl.zone in
      let allowed = to_set policy.allowed_zones in
      if is_member (to_set policy.forbidden_zones) zone
      then flow_finding fl severity_critical (
          concat (
            "Namespace "
            ∷ quote fl.namespace
            ∷ " app "
            ∷ quote fl.application
            ∷ " routed model "
            ∷ quote fl.model
            ∷ " to provider "
            ∷ quote fl.provider
            ∷ " in forbidden zone "
            ∷ zone
            ∷ "."
            ∷ []))
        ∷ []
      else if not (zone_allowed zone allowed)
      then flow_finding fl severity_warning (
          concat (
            "Namespace "
            ∷ quote fl.namespace
            ∷ " app "
            ∷ quote fl.application
            ∷ " routed model "
            ∷ quote fl.model
            ∷ " to provider "
            ∷ quote fl.provider
            ∷ " in zone "
            ∷ zone
            ∷ ", outside allowed zones "
            ∷ print_keys allowed
            ∷ "."
            ∷ []))
        ∷ []
      else []

  unfoldable pub flow_external_findings : Flow → List Finding
  flow_external_findings fl =
      if not policy.external_providers_allowed
        && fl.managed
        && (not fl.provider_allows_sensitive || not fl.model_allows_sensitive)
      then flow_finding fl severity_warning (
          concat (
            "Namespace "
            ∷ quote fl.namespace
            ∷ " app "
            ∷ quote fl.application
            ∷ " sent traffic (model "
            ∷ quote fl.model
            ∷ ") to external managed provider "
            ∷ quote fl.provider
            ∷ " while external providers are disallowed for sensitive data."
            ∷ []))
        ∷ []
      else []

  unfoldable pub add_all : List Finding → Aggregation → Aggregation
  add_all [] s = s
  add_all (f ∷ fs) s = add_all fs (add f s)

  -- The loop over the flows.
  unfoldable pub add_flows : List Flow → Aggregation → Aggregation
  add_flows [] s = s
  add_flows (fl ∷ fls) s =
      add_flows fls (add_all (flow_external_findings fl) (add_all (flow_zone_findings fl) s))

-- The findings in the order of their keys.
unfoldable pub collect : Dict Finding → List String → List Finding
collect agg [] = []
collect agg (k ∷ ks) = elim (lookup k agg) [ none ↦ collect agg ks | some f ↦ f ∷ collect agg ks ]

unfoldable pub flow_before : Finding → Finding → Bool
flow_before a b =
    if not (eqb (severity_rank a.severity) (severity_rank b.severity))
    then ltb (severity_rank b.severity) (severity_rank a.severity)
    else if not (a.namespace == b.namespace)
    then str_lt a.namespace b.namespace
    else if not (a.application == b.application)
    then str_lt a.application b.application
    else if not (a.provider == b.provider)
    then str_lt a.provider b.provider
    else str_lt a.model b.model

unfoldable pub evaluate_flows : (String → String) → Policy → List Flow → List Finding
evaluate_flows quote policy flows =
    let s = add_flows quote policy flows (record { agg = []; order = [] }) in
    sort flow_before (collect s.agg s.order ++ policy_findings policy)
