-- ===== src/Sovereignty/Shadow.antt =====
-- Egress that bypasses the gateway: `Detect` of internal/shadowengine/shadowengine.go.
pub mod Detect
use ai_finops_operator.Prelude.{
  ◌≡◌, refl, ◌⊎◌, ◌↔◌, subst, ◌∙◌, inl, inr, ℤ, String, Bool, true, false, not, ◌&&◌, ◌||◌, ◌==◌,
  List, [], ◌∷◌, Option, none, some, if◌then◌else◌, arith, eq_iff, Bool-cases, Option-cases, ◌∈◌,
}
use ai_finops_operator.Sovereignty.Zones.{
  Policy, is_member, normalize_zone, to_set, is_zone_allowed, IsCompliant, is_zone_allowed_iff,
}
use ai_finops_operator.Sovereignty.Findings.{severity_warning, severity_critical, concat}

pub record Egress : Type 0 where
  pub namespace : String
  pub application : String
  pub host : String
  pub connections : ℤ

pub record ShadowFinding : Type 0 where
  pub namespace : String
  pub application : String
  pub host : String
  pub provider : String
  pub zone : String
  pub severity : String
  pub message : String
  pub connections : ℤ

-- ZoneResolver: the zone and the provider of a host, both empty if it is not known.
abbrev pub ZoneResolver : Type 0
ZoneResolver = String → String × String

-- `quote` is fmt's `%q`.
module _ (quote : String → String) (policy : Policy) where
  -- The finding on an egress to a known endpoint in the zone `nz`.
  unfoldable pub shadow_finding : Egress → (provider nz : String) → ShadowFinding
  shadow_finding e provider nz =
      let forbidden = is_member (to_set policy.forbidden_zones) nz in
      record {
        namespace = e.namespace;
        application = e.application;
        host = e.host;
        provider = provider;
        zone = nz;
        severity = if forbidden then severity_critical else severity_warning;
        message = concat (
            "Shadow-AI: "
            ∷ e.namespace
            ∷ "/"
            ∷ e.application
            ∷ " connected directly to "
            ∷ quote e.host
            ∷ " ("
            ∷ provider
            ∷ (if forbidden then ") in FORBIDDEN zone " else ") in zone ")
            ∷ nz
            ∷ (if forbidden
                then ", bypassing the gateway."
                else ", outside the allowed zones, bypassing the gateway.")
            ∷ []);
        connections = e.connections;
      }

  -- One round of the loop.
  unfoldable pub detect_one : ZoneResolver → Egress → Option ShadowFinding
  detect_one resolve e =
      let (zone, provider) = resolve e.host in
      if zone == "" && provider == ""
      then none
      else if is_zone_allowed policy (normalize_zone zone)
      then none
      else some (shadow_finding e provider (normalize_zone zone))

  -- Detect; a missing resolver finds nothing.
  unfoldable pub detect : List Egress → Option ZoneResolver → List ShadowFinding
  detect [] resolve = []
  detect (e ∷ es) none = []
  detect (e ∷ es) (some resolve) = elim (detect_one resolve e) [
    | none ↦ detect es (some resolve)
    | some f ↦ f ∷ detect es (some resolve)
  ]
