-- ===== src/Pricing/Normalize.antt =====
-- The normalisation of a provider's prices: `Normalize` of internal/govarpricing/pricing.go, and the
-- adapters that it allows.
use ai_finops_operator.Prelude.{
  ◌+◌, ltb, ℤ, pos, leb_ℤ, eqb_ℤ, String, false, not, ◌&&◌, ◌||◌, ◌==◌, List, [], ◌∷◌, Option, none,
  some, Result, ok, err, ◌>>=◌, ◌>>◌, fail_if, sort, str_lt, trim, to_upper, to_lower,
  if◌then◌else◌,
}
use ai_finops_operator.Pricing.Types.{
  Basis, Instant, Error, all_bases, NormalizedCharge, PricingSnapshot, BillableCharge, GovarPricing,
  Provider, Evidence,
}
use ai_finops_operator.Pricing.Charge.{exact_micros}
use ai_finops_operator.Pricing.Usage.{
  has, is_basis, valid_applicability, valid_evidence_mode, valid_request_bound,
}
use ai_finops_operator.Pricing.Inclusion.{validate_included_charge_graph}
use ai_finops_operator.Pricing.Digest.{Primitives, is_sha256, snapshot_digest, row_before}
use ai_finops_operator.Pricing.Snapshot.{minute, day, is_some, check_partition}

-- `ForProviderType`: the family of the adapter.
unfoldable pub for_provider_type : String → Result Error String
for_provider_type provider_type =
    let family = to_lower (trim provider_type) in
    if family == "openai" || family == "azure-openai"
    then ok family
    else err Error.unsupported_provider

-- `OutputCapRequestParameter`
unfoldable pub output_cap_request_parameter : String → String → Option String
output_cap_request_parameter provider_type path_mode =
    let family = to_lower (trim provider_type) in
    if family == "openai" && path_mode == "openai-body"
      || family == "azure-openai" && path_mode == "azure-deployment-path"
    then some "max_output_tokens"
    else none

-- The checks of `Normalize` on the provider, its evidence and the time, in their order.
unfoldable pub check_provider : Provider → GovarPricing → Instant → Result Error Instant
check_provider p g now = do
  fail_if
      (leb_ℤ p.generation (pos 0)
        || trim p.pricing.version == ""
        || not (p.pricing.completeness == "complete"))
      Error.invalid_version
  fail_if (not (to_upper (trim p.pricing.currency) == "EUR")) Error.unsupported_currency
  fail_if
      (not (g.evidence.adapter_version == "govar-pricing-v1")
        || not (valid_evidence_mode g.evidence.mode)
        || not (is_sha256 g.evidence.evidence_sha256)
        || trim g.evidence.source_version == "")
      Error.incomplete_evidence
  fail_if (not (g.evidence.mode == "admin_attested")) Error.unattested_evidence
  fail_if (not (ltb now g.evidence.valid_until)) Error.stale_evidence
  elim p.pricing.observed_at [
    | none ↦ err Error.stale_observation
    | some observed ↦ do
      fail_if (ltb (now + minute) observed || ltb (observed + day) now) Error.stale_observation
      ok observed
  ]

-- The rows of the token prices.
abbrev pub token_row : Basis → String → ℤ → NormalizedCharge
token_row basis field price = record {
  basis = basis;
  applicability = "request_declared";
  price_micros_per_unit = price;
  unit_denominator = pos 1_000_000;
  settlement_usage_field = basis;
  included_in = none;
  maximum_quantity = none;
  request_bound_field = field;
  disjoint_usage = false;
}

-- The row of a charge whose price is known.
unfoldable pub normalized_row : BillableCharge → ℤ → NormalizedCharge
normalized_row c price = record {
  basis = c.basis;
  applicability = c.applicability;
  price_micros_per_unit = price;
  unit_denominator = c.unit_denominator;
  settlement_usage_field = c.settlement_usage_field;
  included_in = c.included_in;
  maximum_quantity = c.maximum_quantity;
  request_bound_field = c.request_bound_field;
  disjoint_usage = c.disjoint_usage;
}

-- One round of the loop over the charges.
unfoldable pub check_charge : List Basis → BillableCharge → Result Error NormalizedCharge
unfolding normalized_row
check_charge seen c = do
  fail_if
      (not (is_basis c.basis)
        || has c.basis seen
        || not (valid_applicability c.applicability)
        || not (c.settlement_usage_field == c.basis)
        || leb_ℤ c.unit_denominator (pos 0))
      Error.invalid_charge
  price ← exact_micros c.price
  elim c.included_in [
    | some parent ↦
        fail_if (not (is_basis parent) || parent == c.basis || not (eqb_ℤ price (pos 0)))
          Error.invalid_inclusion
    | none ↦
        fail_if (not (is_some c.maximum_quantity) && c.request_bound_field == "")
          Error.unbounded_charge
  ]
  fail_if (c.applicability == "provider_response" && not (is_some c.maximum_quantity))
      Error.unbounded_charge
  fail_if
      ((c.basis == "cached_input_tokens" || c.basis == "reasoning_tokens")
        && (not (is_some c.included_in) && not c.disjoint_usage))
      Error.overlapping_detail
  fail_if
      (c.applicability == "request_declared"
        && (not (is_some c.included_in) && c.request_bound_field == ""))
      Error.unmapped_request
  ok (normalized_row c price)

-- The rows of the charges, and the bases seen.
unfoldable pub normalize_charges :
    List Basis → List BillableCharge → Result Error (List NormalizedCharge × List Basis)
unfolding check_charge
normalize_charges seen [] = ok ([], seen)
normalize_charges seen (c ∷ cs) = do
  row ← check_charge seen c
  rest ← normalize_charges (c.basis ∷ seen) cs
  ok (row ∷ rest.0, rest.1)

unfoldable pub check_listed_inapplicable : List Basis → List Basis → Result Error (List Basis)
check_listed_inapplicable seen [] = ok seen
check_listed_inapplicable seen (b ∷ bs) = do
  fail_if (not (is_basis b) || has b seen) Error.invalid_inapplicable
  check_listed_inapplicable (b ∷ seen) bs

-- The last loop: a bound field, where there is one, belongs to its basis.
unfoldable pub check_bounds : List NormalizedCharge → Result Error (Unit {0})
check_bounds [] = ok tt
check_bounds (r ∷ rs) = do
  fail_if
      (not (r.request_bound_field == "") && not (valid_request_bound r.basis r.request_bound_field))
      Error.invalid_bound
  check_bounds rs

-- The rows of `Normalize`, before they are sorted.
unfoldable pub normalized_rows : Provider → GovarPricing → Result Error (List NormalizedCharge)
unfolding normalize_charges check_listed_inapplicable check_bounds
normalized_rows p g = do
  input ← exact_micros p.pricing.input_token_price_per_million
  output ← exact_micros p.pricing.output_token_price_per_million
  rest ← normalize_charges ("input_tokens" ∷ "output_tokens" ∷ []) g.charges
  let rows =
      token_row "input_tokens" "input_tokens" input
      ∷ token_row "output_tokens" "max_output_tokens" output
      ∷ rest.0
  seen ← check_listed_inapplicable rest.1 g.inapplicable_bases
  check_partition seen all_bases
  validate_included_charge_graph rows g.inapplicable_bases
  check_bounds rows
  ok rows

-- The snapshot of the rows, without its digest.
unfoldable pub undigested :
    Provider → GovarPricing → Instant → List NormalizedCharge → PricingSnapshot
undigested p g observed rows = record {
  spec_generation = p.generation;
  version = trim p.pricing.version;
  observed_at = observed;
  valid_until = g.evidence.valid_until;
  currency = "EUR";
  completeness = "complete";
  snapshot_sha256 = "";
  adapter_version = "govar-pricing-v1";
  evidence_mode = g.evidence.mode;
  evidence_sha256 = g.evidence.evidence_sha256;
  source_version = g.evidence.source_version;
  charges = sort row_before rows;
  inapplicable_bases = sort str_lt g.inapplicable_bases;
}

-- `Normalize`
unfoldable pub normalize :
    Primitives → Provider → Instant → Result Error (PricingSnapshot × Evidence)
unfolding for_provider_type check_provider normalized_rows undigested
normalize env p now = do
  _ ← for_provider_type p.provider_type
  elim p.govar [
    | none ↦ err Error.pricing_absent
    | some govar ↦ elim govar [
      | none ↦ err Error.pricing_absent
      | some g ↦ do
        elim p.pricing.billable_categories [ [] ↦ ok tt | ◌∷◌ _ _ ↦ err Error.legacy_categories ]
        observed ← check_provider p g now
        rows ← normalized_rows p g
        let s = undigested p g observed rows
        ok (
          record s { snapshot_sha256 = snapshot_digest env s },
          record {
            mode = g.evidence.mode;
            sha256 = g.evidence.evidence_sha256;
            source_version = g.evidence.source_version;
          },
        )
    ]
  ]
