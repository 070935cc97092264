-- ===== src/Pricing/Charge.antt =====
-- The charge arithmetic of internal/govarpricing/pricing.go: prices in micros, the charge of a
-- quantity rounded up, and the guarded sums.
pub mod Exact
use ai_finops_operator.Prelude.{
  ℕ, ◌+◌, ◌*◌, ◌/◌, ◌%◌, ◌^◌, ℤ, pos, negsuc, pos_part, neg_part, ltb, eqb, leb, ltb_ℤ, leb_ℤ, ◌-ℤ◌,
  add64, max_int64, Bool, ◌||◌, List, [], ◌∷◌, if◌then◌else◌, Result, ok, err, ◌>>=◌, ◌>>◌, fail_if,
}
use ai_finops_operator.Pricing.Types.{Error, Decimal, ChargeComponent, ActualChargeComponent}

-- `ceilingProduct`. The product and the quotient are of big.Int, so nothing wraps before `IsInt64`.
unfoldable pub ceiling_product : ℤ → ℤ → ℤ → Result Error ℤ
ceiling_product price quantity denominator =
    if ltb_ℤ price (pos 0) || ltb_ℤ quantity (pos 0) || leb_ℤ denominator (pos 0)
    then err Error.invalid_operand
    else (let n = pos_part price * pos_part quantity in
        let d = pos_part denominator in
        let q = if eqb (n % d) 0 then n / d else n / d + 1 in
        if leb q max_int64 then ok (pos q) else err Error.charge_overflow)

-- `SumComponents`, from the sum so far.
unfoldable pub sum_components_from : ℤ → List ChargeComponent → Result Error ℤ
sum_components_from sum [] = ok sum
sum_components_from sum (c ∷ cs) = do
  fail_if (ltb_ℤ c.reserved_micros (pos 0) || ltb_ℤ (pos max_int64 -ℤ c.reserved_micros) sum)
      Error.sum_overflow
  sum_components_from (add64 sum c.reserved_micros) cs

unfoldable pub sum_components : List ChargeComponent → Result Error ℤ
unfolding sum_components_from
sum_components = sum_components_from (pos 0)

-- `SumActualComponents`, from the sum so far.
unfoldable pub sum_actual_components_from : ℤ → List ActualChargeComponent → Result Error ℤ
sum_actual_components_from sum [] = ok sum
sum_actual_components_from sum (c ∷ cs) = do
  fail_if (ltb_ℤ c.actual_micros (pos 0) || ltb_ℤ (pos max_int64 -ℤ c.actual_micros) sum)
      Error.sum_overflow
  sum_actual_components_from (add64 sum c.actual_micros) cs

unfoldable pub sum_actual_components : List ActualChargeComponent → Result Error ℤ
unfolding sum_actual_components_from
sum_actual_components = sum_actual_components_from (pos 0)

-- `exactMicros`. The rational need not be in lowest terms: the quotient and whether there is a
-- remainder are the same.
unfoldable pub exact_micros : Decimal → Result Error ℤ
exact_micros d =
    if ltb_ℤ d.unscaled (pos 0)
    then err Error.negative_price
    else (let numerator = pos_part d.unscaled * 10 ^ neg_part d.scale * 1_000_000 in
        let denominator = 10 ^ pos_part d.scale in
        if eqb (numerator % denominator) 0
        then (if leb (numerator / denominator) max_int64
            then ok (pos (numerator / denominator))
            else err Error.price_overflow)
        else err Error.inexact_price)
