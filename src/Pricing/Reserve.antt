-- ===== src/Pricing/Reserve.antt =====
-- The hold of a request: `ReserveComponents` of internal/govarpricing/pricing.go.
pub mod Hold
use ai_finops_operator.Prelude.{
  ℤ, pos, ltb_ℤ, Bool, List, [], ◌∷◌, Option, none, some, Result, ok, err, ◌>>=◌, ◌>>◌, fail_if,
}
use ai_finops_operator.Prelude.Dict.{Dict}
use ai_finops_operator.Pricing.Types.{
  Instant, Error, NormalizedCharge, PricingSnapshot, RequestChargeContext, ChargeComponent,
}
use ai_finops_operator.Pricing.Charge.{ceiling_product}
use ai_finops_operator.Pricing.Usage.{canonical_usage, request_quantity}
use ai_finops_operator.Pricing.Digest.{Primitives}
use ai_finops_operator.Pricing.Snapshot.{validate_snapshot}

-- The maximum of the row replaces the bound of the request.
abbrev pub get_or : Option ℤ → ℤ → ℤ
get_or none bound = bound
get_or (some m) bound = m

-- The component of a row that is charged by itself.
unfoldable pub reserve_row :
    RequestChargeContext → Dict ℤ → NormalizedCharge → Result Error ChargeComponent
reserve_row ctx declared row = do
  bound ← request_quantity row ctx declared
  let q = get_or row.maximum_quantity bound
  fail_if (ltb_ℤ q (pos 0)) Error.negative_quantity
  cost ← ceiling_product row.price_micros_per_unit q row.unit_denominator
  ok (record {
    basis = row.basis;
    quantity = q;
    price_micros_per_unit = row.price_micros_per_unit;
    unit_denominator = row.unit_denominator;
    reserved_micros = cost;
  })

-- The loop over the rows; a row that is included in another is passed over.
unfoldable pub reserve_rows :
    RequestChargeContext → Dict ℤ → List NormalizedCharge → Result Error (List ChargeComponent)
unfolding reserve_row
reserve_rows ctx declared [] = ok []
reserve_rows ctx declared (row ∷ rows) = elim row.included_in [
  | some _ ↦ reserve_rows ctx declared rows
  | none ↦ do c ← reserve_row ctx declared row; cs ← reserve_rows ctx declared rows; ok (c ∷ cs)
]

-- `ReserveComponents`
unfoldable pub reserve_components :
    Primitives
    → PricingSnapshot
    → RequestChargeContext
    → Instant
    → Result Error (List ChargeComponent)
unfolding reserve_rows
reserve_components env snapshot ctx at = do
  validate_snapshot env snapshot snapshot.spec_generation at
  declared ← canonical_usage ctx.declared_bounds
  reserve_rows ctx declared snapshot.charges
