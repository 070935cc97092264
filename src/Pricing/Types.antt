-- ===== src/Pricing/Types.antt =====
-- The data of internal/govarpricing/pricing.go and of the price types in
-- api/v1alpha1/aiprovider_types.go. Go's string types are texts, an int64 is an integer, a pointer to
-- a value is an option, and an instant is its count of nanoseconds since Go's zero time.
use ai_finops_operator.Prelude.{ℕ, ℤ, String, Bool, List, Option, [], ◌∷◌}

abbrev pub Basis : Type 0
Basis = String

abbrev pub Instant : Type 0
Instant = ℕ

abbrev pub all_bases : List Basis
all_bases =
    "input_tokens" ∷ "cached_input_tokens" ∷ "output_tokens" ∷ "reasoning_tokens" ∷ "request"
    ∷ "tool_call" ∷ "media_unit" ∷ "billable_second" ∷ "cancellation" ∷ "retry_attempt" ∷ []

-- What went wrong: one constructor for each kind of message.
pub data Error : Type 0 where
  invalid_operand charge_overflow sum_overflow : Error
  negative_price inexact_price price_overflow : Error
  invalid_usage duplicate_usage unlisted_usage : Error
  missing_bound unmapped_bound unknown_bound negative_quantity : Error
  duplicate_component component_mismatch : Error
  invalid_charge invalid_inclusion overlapping_detail unmapped_request unbounded_charge : Error
  invalid_inapplicable unpartitioned invalid_snapshot stale_snapshot : Error
  contradictory_inapplicable inclusion_cycle missing_parent illegal_root out_of_fuel : Error
  unsupported_provider pricing_absent legacy_categories invalid_version unsupported_currency : Error
  incomplete_evidence unattested_evidence stale_evidence stale_observation invalid_bound : Error

pub record NormalizedCharge : Type 0 where
  pub basis : Basis
  pub applicability : String
  pub price_micros_per_unit : ℤ
  pub unit_denominator : ℤ
  pub settlement_usage_field : Basis
  pub included_in : Option Basis
  pub maximum_quantity : Option ℤ
  pub request_bound_field : String
  pub disjoint_usage : Bool

pub record PricingSnapshot : Type 0 where
  pub spec_generation : ℤ
  pub version : String
  pub observed_at : Instant
  pub valid_until : Instant
  pub currency : String
  pub completeness : String
  pub snapshot_sha256 : String
  pub adapter_version : String
  pub evidence_mode : String
  pub evidence_sha256 : String
  pub source_version : String
  pub charges : List NormalizedCharge
  pub inapplicable_bases : List Basis

pub record UsageQuantity : Type 0 where
  pub basis : Basis
  pub quantity : ℤ

pub record RequestChargeContext : Type 0 where
  pub input_tokens : ℤ
  pub output_tokens : ℤ
  pub max_tool_calls : ℤ
  pub max_media_units : ℤ
  pub timeout_seconds : ℤ
  pub max_retry_attempts : ℤ
  pub cancellation_possible : Bool
  pub declared_bounds : List UsageQuantity

pub record ChargeComponent : Type 0 where
  pub basis : Basis
  pub quantity : ℤ
  pub price_micros_per_unit : ℤ
  pub unit_denominator : ℤ
  pub reserved_micros : ℤ

pub record ActualChargeComponent : Type 0 where
  pub basis : Basis
  pub quantity : ℤ
  pub price_micros_per_unit : ℤ
  pub unit_denominator : ℤ
  pub actual_micros : ℤ
  pub reserved_quantity : ℤ
  pub exceeded_bound : Bool

-- A resource.Quantity as the decimal that its `AsDec` prints: unscaled / 10^scale.
pub record Decimal : Type 0 where
  pub unscaled : ℤ
  pub scale : ℤ

pub record BillableCharge : Type 0 where
  pub basis : Basis
  pub applicability : String
  pub price : Decimal
  pub unit_denominator : ℤ
  pub settlement_usage_field : Basis
  pub included_in : Option Basis
  pub maximum_quantity : Option ℤ
  pub request_bound_field : String
  pub disjoint_usage : Bool

pub record PricingEvidence : Type 0 where
  pub mode : String
  pub source_version : String
  pub evidence_sha256 : String
  pub valid_until : Instant
  pub adapter_version : String

pub record GovarPricing : Type 0 where
  pub evidence : PricingEvidence
  pub charges : List BillableCharge
  pub inapplicable_bases : List Basis

-- Of the categories that are refused only the names are kept.
pub record ProviderPricing : Type 0 where
  pub currency : String
  pub input_token_price_per_million : Decimal
  pub output_token_price_per_million : Decimal
  pub version : String
  pub observed_at : Option Instant
  pub completeness : String
  pub billable_categories : List String

-- The part of an AIProvider that pricing reads; `govar` is `spec.govar` with its pricing.
pub record Provider : Type 0 where
  pub generation : ℤ
  pub provider_type : String
  pub pricing : ProviderPricing
  pub govar : Option (Option GovarPricing)

-- What `Normalize` returns of the evidence.
pub record Evidence : Type 0 where
  pub mode : String
  pub sha256 : String
  pub source_version : String
