-- ===== src/Pricing/Settle.antt =====
-- The settlement of a request: `SettleComponents` of internal/govarpricing/pricing.go.
pub mod Round
pub mod Bounds
pub mod Guarantee
pub mod Coverage
use ai_finops_operator.Prelude.{
  ℤ, pos, ltb_ℤ, eqb_ℤ, Bool, true, false, not, ◌||◌, ◌==◌, List, [], ◌∷◌, ◌++◌, Option, none, some,
  Result, ok, err, ◌>>=◌, ◌>>◌, fail_if, sort, str_lt,
}
use ai_finops_operator.Prelude.Dict.{Dict, lookup, contains, insert, erase}
use ai_finops_operator.Pricing.Types.{
  Basis, Error, NormalizedCharge, PricingSnapshot, UsageQuantity, ChargeComponent,
  ActualChargeComponent,
}
use ai_finops_operator.Pricing.Charge.{ceiling_product}
use ai_finops_operator.Pricing.Usage.{canonical_usage}
use ai_finops_operator.Pricing.Digest.{Primitives}
use ai_finops_operator.Pricing.Snapshot.{validate_snapshot_integrity}

-- The map of the reserved components by basis.
unfoldable pub reserved_from :
    Dict ChargeComponent → List ChargeComponent → Result Error (Dict ChargeComponent)
reserved_from m [] = ok m
reserved_from m (c ∷ cs) = do
  fail_if (contains c.basis m) Error.duplicate_component
  reserved_from (insert c.basis c m) cs

-- The variables of the loop over the rows.
pub record Settlement : Type 0 where
  pub actual : List ActualChargeComponent
  pub missing : List Basis
  pub exceeded : Bool
  pub quantities : Dict ℤ

-- Its start, with nothing settled.
abbrev pub start : Dict ℤ → Settlement
start quantities = record { actual = []; missing = []; exceeded = false; quantities = quantities }

-- The reserved component of a row, if it was reserved at the row's price.
unfoldable pub matching_bound :
    Dict ChargeComponent → NormalizedCharge → Result Error ChargeComponent
matching_bound reserved row = elim (lookup row.basis reserved) [
  | none ↦ err Error.component_mismatch
  | some bound ↦ do
    fail_if
        (not (eqb_ℤ bound.price_micros_per_unit row.price_micros_per_unit)
          || not (eqb_ℤ bound.unit_denominator row.unit_denominator))
        Error.component_mismatch
    ok bound
]

-- The charge of the quantity `q` of a row, against its bound.
unfoldable pub actual_component : NormalizedCharge → ChargeComponent → ℤ → ℤ → ActualChargeComponent
actual_component row bound q cost = record {
  basis = row.basis;
  quantity = q;
  price_micros_per_unit = row.price_micros_per_unit;
  unit_denominator = row.unit_denominator;
  actual_micros = cost;
  reserved_quantity = bound.quantity;
  exceeded_bound = ltb_ℤ bound.quantity q;
}

-- One round of the loop, on a row that is charged by itself.
unfoldable pub settle_row :
    Dict ChargeComponent → NormalizedCharge → Settlement → Result Error Settlement
unfolding matching_bound actual_component
settle_row reserved row s = do
  bound ← matching_bound reserved row
  elim (lookup row.settlement_usage_field s.quantities) [
    | none ↦ ok (record s { missing = s.missing ++ row.basis ∷ [] })
    | some q ↦ do
      cost ← ceiling_product row.price_micros_per_unit q row.unit_denominator
      ok (record {
        actual = s.actual ++ actual_component row bound q cost ∷ [];
        missing = s.missing;
        exceeded = s.exceeded || ltb_ℤ bound.quantity q;
        quantities = erase row.settlement_usage_field s.quantities;
      })
  ]

unfoldable pub settle_rows :
    Dict ChargeComponent → List NormalizedCharge → Settlement → Result Error Settlement
unfolding settle_row
settle_rows reserved [] s = ok s
settle_rows reserved (row ∷ rows) s = elim row.included_in [
  | some _ ↦ settle_rows reserved rows s
  | none ↦ do t ← settle_row reserved row s; settle_rows reserved rows t
]

-- `len(quantities) != 0`
unfoldable pub is_nonempty : Dict ℤ → Bool
is_nonempty [] = false
is_nonempty (_ ∷ _) = true

-- The results of `SettleComponents`.
pub record Settled : Type 0 where
  pub actual : List ActualChargeComponent
  pub missing : List Basis
  pub exceeded : Bool

-- The two lists, sorted by basis.
unfoldable pub sorted_settlement : Settlement → Settled
sorted_settlement s = record {
  actual = sort (λ a b. str_lt a.basis b.basis) s.actual;
  missing = sort str_lt s.missing;
  exceeded = s.exceeded;
}

-- `SettleComponents`
unfoldable pub settle_components :
    Primitives → PricingSnapshot → List ChargeComponent → List UsageQuantity → Result Error Settled
unfolding reserved_from settle_rows is_nonempty
settle_components env snapshot reserved usage = do
  validate_snapshot_integrity env snapshot
  quantities ← canonical_usage usage
  bounds ← reserved_from [] reserved
  s ← settle_rows bounds snapshot.charges (start quantities)
  fail_if (is_nonempty s.quantities) Error.unlisted_usage
  ok (sorted_settlement s)
