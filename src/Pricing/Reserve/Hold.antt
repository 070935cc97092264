-- ===== src/Pricing/Reserve/Hold.antt =====
-- The components that `ReserveComponents` (internal/govarpricing/pricing.go) returns.
use ai_finops_operator.Prelude.{ℤ, ◌≡◌, List, ◌∷◌, none, ok, ◌>>=◌, arith, >>=-eq-ok}
use ai_finops_operator.Prelude.Dict.{Dict}
use ai_finops_operator.Pricing.Types.{NormalizedCharge, RequestChargeContext, ChargeComponent}
use ai_finops_operator.Pricing.Charge.{ceiling_product}
use ai_finops_operator.Pricing.Reserve.{reserve_row, reserve_rows}

-- The component `c` holds the rounded-up charge of its quantity at the price of `row`.
pub record IsHoldOf (row : NormalizedCharge) (c : ChargeComponent) : Type 0 where
  pub same_basis : c.basis ≡ row.basis
  pub same_price : c.price_micros_per_unit ≡ row.price_micros_per_unit
  pub same_denominator : c.unit_denominator ≡ row.unit_denominator
  pub held :
      ceiling_product row.price_micros_per_unit c.quantity row.unit_denominator
      ≡ ok c.reserved_micros

-- A reserved component holds the rounded-up charge of its row.
pub reserve_row-IsHoldOf :
    (ctx : RequestChargeContext) (declared : Dict ℤ) (row : NormalizedCharge) (c : ChargeComponent)
    → reserve_row ctx declared row ≡ ok c
    → IsHoldOf row c
unfolding reserve_row
reserve_row-IsHoldOf ctx declared row c h = ground arith

-- The components of a list of rows, the first of which is charged by itself.
pub reserve_rows_round :
    (ctx : RequestChargeContext) (declared : Dict ℤ) (row : NormalizedCharge)
    (rows : List NormalizedCharge) (cs : List ChargeComponent)
    → row.included_in ≡ none
    → reserve_rows ctx declared (row ∷ rows) ≡ ok cs
    → (c : ChargeComponent) × (rest : List ChargeComponent) × (reserve_row ctx declared row ≡ ok c)
      × (reserve_rows ctx declared rows ≡ ok rest)
      × (cs ≡ c ∷ rest)
reserve_rows_round ctx declared row rows cs n h =
    let (c, first, h₁) =
      >>=-eq-ok (reserve_row ctx declared row)
        (λ c. reserve_rows ctx declared rows >>= λ rest. ok (c ∷ rest)) (opened n h) in
    let (rest, others, h₂) =
      >>=-eq-ok (reserve_rows ctx declared rows) (λ rest. ok (c ∷ rest)) h₁ in
    (c, rest, first, others, cc (h₂))
  where
    opened :
        row.included_in ≡ none
        → reserve_rows ctx declared (row ∷ rows) ≡ ok cs
        → (reserve_row ctx declared row >>= λ c.
            reserve_rows ctx declared rows >>= λ rest. ok (c ∷ rest))
          ≡ ok cs
    opened n h = unfold reserve_rows in ground arith
