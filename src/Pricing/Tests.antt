-- ===== src/Pricing/Tests.antt =====
-- Runs of the model of internal/govarpricing/pricing.go, and its theorems at those inputs.
use ai_finops_operator.Prelude.{
  ℕ, ◌≡◌, ◌≢◌, ◌≤◌, ◌<◌, ◌↔◌, refl, arith, pos, max_int64, List, [], ◌∷◌, map, none, some, false,
  ok, err, String, ◌-ℤ◌, ◌+ℤ◌, add64, wrap64, trim, to_upper, sort, inl, inr, All, length, ◌⊎◌, ◌∈◌,
  ◌^◌,
}
use ai_finops_operator.Prelude.Dict.{lookup, contains, insert, erase}
use ai_finops_operator.Pricing.Types.{
  Error, NormalizedCharge, PricingSnapshot, RequestChargeContext, UsageQuantity, ChargeComponent,
  ActualChargeComponent,
}
use ai_finops_operator.Pricing.Charge.{ceiling_product, sum_components, sum_actual_components}
use ai_finops_operator.Pricing.Charge.Exact.{
  IsCeiling, IsNonneg, total, ceiling_product_exact, sum_components_exact,
}
use ai_finops_operator.Pricing.Usage.{
  has, is_basis, valid_applicability, valid_evidence_mode, valid_request_bound, canonical_usage,
  request_quantity,
}
use ai_finops_operator.Pricing.Inclusion.{charged_from, climb, validate_included_charge_graph}
use ai_finops_operator.Pricing.Inclusion.Climb.{climb_terminates}
use ai_finops_operator.Pricing.Inclusion.Graph.{
  bases, IsWellIncluded, validate_included_charge_graph_iff,
}
use ai_finops_operator.Pricing.Digest.{
  Primitives, big_endian, frame, is_sha256, snapshot_digest, utf8, utf8_char,
}
use ai_finops_operator.Pricing.Digest.Framing.{frame_injective}
use ai_finops_operator.Pricing.Snapshot.{
  check_row_included, check_row_charged, check_row, check_rows, check_inapplicable, check_partition,
  check_body, has_invalid_header, validate_snapshot_integrity, validate_snapshot,
}
use ai_finops_operator.Pricing.Snapshot.Integrity.{IsSound, validate_snapshot_integrity-IsSound}
use ai_finops_operator.Pricing.Reserve.{reserve_components}
use ai_finops_operator.Pricing.Settle.{Settled, settle_components, sorted_settlement}
use ai_finops_operator.Pricing.Settle.Guarantee.{settled_within_hold}
use ai_finops_operator.Pricing.Settle.Coverage.{
  Charges, settled_usage_charged, settled_rows_decided,
}

-- A digest of thirty-two zero bytes, and one form for every instant.
abbrev zeros : List ℕ
zeros =
    0 ∷ 0 ∷ 0 ∷ 0 ∷ 0 ∷ 0 ∷ 0 ∷ 0 ∷ 0 ∷ 0 ∷ 0 ∷ 0 ∷ 0 ∷ 0 ∷ 0 ∷ 0 ∷ 0 ∷ 0 ∷ 0 ∷ 0 ∷ 0 ∷ 0 ∷ 0 ∷ 0
    ∷ 0 ∷ 0 ∷ 0 ∷ 0 ∷ 0 ∷ 0 ∷ 0 ∷ 0 ∷ []

zeros-size : (bytes : List ℕ) → length zeros ≡ 32
zeros-size bytes = refl

zeros-bytes : (bytes : List ℕ) → All (λ b. b < 256) zeros
zeros-bytes bytes = omega arith

abbrev primitives : Primitives
primitives = record {
  sha256 = λ _. zeros;
  format_time = λ _. "2026-01-01T00:00:00Z";
  sha256_size = zeros-size;
  sha256_bytes = zeros-bytes;
}

abbrev zero_digest : String
zero_digest = "0000000000000000000000000000000000000000000000000000000000000000"

abbrev input_row : NormalizedCharge
input_row = record {
  basis = "input_tokens";
  applicability = "request_declared";
  price_micros_per_unit = pos 2_500_000;
  unit_denominator = pos 1_000_000;
  settlement_usage_field = "input_tokens";
  included_in = none;
  maximum_quantity = none;
  request_bound_field = "input_tokens";
  disjoint_usage = false;
}

abbrev output_row : NormalizedCharge
output_row = record {
  basis = "output_tokens";
  applicability = "request_declared";
  price_micros_per_unit = pos 10_000_000;
  unit_denominator = pos 1_000_000;
  settlement_usage_field = "output_tokens";
  included_in = none;
  maximum_quantity = none;
  request_bound_field = "max_output_tokens";
  disjoint_usage = false;
}

-- Cached input is part of the input.
abbrev cached_row : NormalizedCharge
cached_row = record {
  basis = "cached_input_tokens";
  applicability = "request_declared";
  price_micros_per_unit = pos 0;
  unit_denominator = pos 1;
  settlement_usage_field = "cached_input_tokens";
  included_in = some "input_tokens";
  maximum_quantity = none;
  request_bound_field = "";
  disjoint_usage = false;
}

abbrev rows : List NormalizedCharge
rows = cached_row ∷ input_row ∷ output_row ∷ []

abbrev unused : List String
unused =
    "billable_second" ∷ "cancellation" ∷ "media_unit" ∷ "reasoning_tokens" ∷ "request"
    ∷ "retry_attempt" ∷ "tool_call" ∷ []

abbrev snapshot : PricingSnapshot
snapshot = record {
  spec_generation = pos 1;
  version = "2026-01";
  observed_at = 1_000_000_000_000;
  valid_until = 9_000_000_000_000;
  currency = "EUR";
  completeness = "complete";
  snapshot_sha256 = zero_digest;
  adapter_version = "govar-pricing-v1";
  evidence_mode = "admin_attested";
  evidence_sha256 = zero_digest;
  source_version = "price list 7";
  charges = rows;
  inapplicable_bases = unused;
}

abbrev context : RequestChargeContext
context = record {
  input_tokens = pos 1001;
  output_tokens = pos 500;
  max_tool_calls = pos 0;
  max_media_units = pos 0;
  timeout_seconds = pos 30;
  max_retry_attempts = pos 0;
  cancellation_possible = false;
  declared_bounds = [];
}

abbrev hold : List ChargeComponent
hold =
    record {
      basis = "input_tokens";
      quantity = pos 1001;
      price_micros_per_unit = pos 2_500_000;
      unit_denominator = pos 1_000_000;
      reserved_micros = pos 2503;
    }
    ∷ record {
      basis = "output_tokens";
      quantity = pos 500;
      price_micros_per_unit = pos 10_000_000;
      unit_denominator = pos 1_000_000;
      reserved_micros = pos 5000;
    }
    ∷ []

-- The provider reports the input, and not yet the output.
abbrev input_usage : UsageQuantity
input_usage = record { basis = "input_tokens"; quantity = pos 1000 }

abbrev settled : Settled
settled = record {
  actual =
      record {
        basis = "input_tokens";
        quantity = pos 1000;
        price_micros_per_unit = pos 2_500_000;
        unit_denominator = pos 1_000_000;
        actual_micros = pos 2500;
        reserved_quantity = pos 1001;
        exceeded_bound = false;
      }
      ∷ [];
  missing = "output_tokens" ∷ [];
  exceeded = false;
}

graph_run : validate_included_charge_graph rows unused ≡ ok tt
unfolding validate_included_charge_graph insert lookup contains has
graph_run = refl

snapshot_run : validate_snapshot_integrity primitives snapshot ≡ ok tt
unfolding validate_snapshot_integrity has_invalid_header check_body check_rows check_row
    check_row_included check_row_charged check_inapplicable check_partition
    validate_included_charge_graph trim to_upper is_sha256 snapshot_digest sort insert lookup
    contains has is_basis valid_applicability valid_evidence_mode valid_request_bound
snapshot_run = refl

snapshot_passes : validate_snapshot primitives snapshot (pos 1) 2_000_000_000_000 ≡ ok tt
unfolding validate_snapshot
snapshot_passes = rw (snapshot_run, validate_snapshot)

hold_run : reserve_components primitives snapshot context 2_000_000_000_000 ≡ ok hold
unfolding reserve_components canonical_usage request_quantity ceiling_product
hold_run = rw snapshot_passes

hold_sum : sum_components hold ≡ ok (pos 7503)
unfolding sum_components ◌-ℤ◌ add64 wrap64 ◌+ℤ◌
hold_sum = refl

settled_run : settle_components primitives snapshot hold (input_usage ∷ []) ≡ ok settled
unfolding settle_components canonical_usage is_basis has insert lookup contains erase
    ceiling_product sorted_settlement sort
settled_run = rw snapshot_run

settled_within_hold_example :
    (n : ℕ) × (sum_actual_components settled.actual ≡ ok (pos n)) × (n ≤ 7503)
settled_within_hold_example =
    settled_within_hold primitives snapshot context 2_000_000_000_000 hold (input_usage ∷ [])
      settled 7503 hold_run hold_sum settled_run refl

settled_usage_charged_example : Charges "input_tokens" (pos 1000) settled.actual
settled_usage_charged_example =
    settled_usage_charged primitives snapshot hold (input_usage ∷ []) settled input_usage
      settled_run (inl refl)

settled_rows_decided_example :
    (output_row.basis ∈ settled.missing)
    ⊎ ((c : ActualChargeComponent) × (c ∈ settled.actual) × (c.basis ≡ output_row.basis))
settled_rows_decided_example =
    settled_rows_decided primitives snapshot hold (input_usage ∷ []) settled output_row settled_run
      (inr (inr (inl refl))) refl

validate_snapshot_integrity-IsSound_example : IsSound snapshot
validate_snapshot_integrity-IsSound_example =
    validate_snapshot_integrity-IsSound primitives snapshot snapshot_run

validate_included_charge_graph_iff_example :
    (validate_included_charge_graph rows unused ≡ ok tt) ↔ (
      All (λ b. has b (bases rows) ≡ false) unused
      × All (IsWellIncluded (charged_from [] rows)) rows)
unfolding has
validate_included_charge_graph_iff_example =
    validate_included_charge_graph_iff rows unused (refl, (refl, (refl, tt)))

-- A cycle: each of two rows is included in the other.
climb_terminates_example :
    climb 3
      (("a", record cached_row { basis = "a"; included_in = some "b" })
        ∷ ("b", record cached_row { basis = "b"; included_in = some "a" })
        ∷ [])
      ("a" ∷ [])
      (record cached_row { basis = "a"; included_in = some "b" })
    ≢ err Error.out_of_fuel
climb_terminates_example =
    climb_terminates
      (("a", record cached_row { basis = "a"; included_in = some "b" })
        ∷ ("b", record cached_row { basis = "b"; included_in = some "a" })
        ∷ [])
      ("a" ∷ []) (record cached_row { basis = "a"; included_in = some "b" })

ceiling_product_exact_example :
    (ceiling_product (pos 2_500_000) (pos 1001) (pos 1_000_000) ≡ ok (pos 2503))
    ↔ (IsCeiling 2_500_000 1001 1_000_000 2503 × (2503 ≤ max_int64))
ceiling_product_exact_example = ceiling_product_exact 2_500_000 1001 1_000_000 2503 (omega arith)

sum_components_exact_example : (sum_components hold ≡ ok (pos 7503)) ↔ (
    All IsNonneg (map (λ c. c.reserved_micros) hold)
    × (7503 ≡ total (map (λ c. c.reserved_micros) hold))
    × (7503 ≤ max_int64))
sum_components_exact_example = sum_components_exact hold 7503

frames_same : frame ("USD" ∷ "1" ∷ []) ≡ frame (to_upper "usd" ∷ "1" ∷ [])
unfolding frame utf8 utf8_char big_endian to_upper
frames_same = refl

sizes_small : All (λ p. length (utf8 p) < 2 ^ 64) ("USD" ∷ "1" ∷ [])
unfolding utf8 utf8_char
sizes_small = omega arith

sizes_small_upper : All (λ p. length (utf8 p) < 2 ^ 64) (to_upper "usd" ∷ "1" ∷ [])
unfolding utf8 utf8_char to_upper
sizes_small_upper = omega arith

frame_injective_example : map utf8 ("USD" ∷ "1" ∷ []) ≡ map utf8 (to_upper "usd" ∷ "1" ∷ [])
frame_injective_example =
    frame_injective ("USD" ∷ "1" ∷ []) (to_upper "usd" ∷ "1" ∷ []) sizes_small sizes_small_upper
      frames_same
