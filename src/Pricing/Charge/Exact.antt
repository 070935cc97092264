-- ===== src/Pricing/Charge/Exact.antt =====
-- The charge arithmetic of internal/govarpricing/pricing.go is exact.
use Prim.Native.Nat.{◌≤◌}
use Prim.Native.Nat.add
use native.Mathlib.Nat.{div-add-mod', mod-lt}
use ai_finops_operator.Prelude.{
  ℕ, ◌+◌, ◌*◌, ◌<◌, ◌≡◌, ◌≢◌, ◌↔◌, inl, inr, refl, arith, ℤ, pos, negsuc, max_int64, List, [], ◌∷◌,
  map, Result, ok, err, All, pos_part, ◌≤ℤ◌, add64, add64_fits, ◌-ℤ◌, eqb, if◌then◌else◌, ◌%◌, ◌/◌,
  leb, leb→le, ltb_ℤ, Bool-cases, true, false, fail_if, ◌>>◌, ◌||◌,
}
use ai_finops_operator.Pricing.Types.{Error, ChargeComponent, ActualChargeComponent}
use ai_finops_operator.Pricing.Charge.{
  ceiling_product, sum_components, sum_components_from, sum_actual_components,
  sum_actual_components_from,
}

-- `c` is the charge of `quantity` units at `price` for each `denominator`, rounded up.
pub record IsCeiling (price quantity denominator c : ℕ) : Type 0 where
  pub covers : price * quantity ≤ c * denominator
  pub least : c * denominator < price * quantity + denominator

-- Multiples of a positive number are ordered as their factors are.
le_of_mul : (a b d : ℕ) → a * d < b * d + d → a ≤ b
le_of_mul a b d h = grind arith

-- The quotient rounded up.
quotient_up : ℕ → ℕ → ℕ
quotient_up n d = if eqb (n % d) 0 then n / d else n / d + 1

eqb→eq : (a b : ℕ) → eqb a b ≡ true → a ≡ b
eqb→eq a b h = ground arith

eqb→ne : (a b : ℕ) → eqb a b ≡ false → a ≢ b
eqb→ne a b h = ground arith

quotient_up-IsCeiling : (p q d : ℕ) → 0 < d → IsCeiling p q d (quotient_up (p * q) d)
unfolding quotient_up
quotient_up-IsCeiling p q d h = elim (Bool-cases (eqb (p * q % d) 0)) [
  | inl e ↦ rw e (omega (arith, eqb→eq (p * q % d) 0 e, div-add-mod' (p * q) d))
  | inr e ↦ rw e (omega (arith, eqb→ne (p * q % d) 0 e, div-add-mod' (p * q) d, mod-lt (p * q) h))
]

IsCeiling-unique : (p q d b c : ℕ) → IsCeiling p q d b → IsCeiling p q d c → b ≡ c
IsCeiling-unique p q d b c e f =
    omega (arith, le_of_mul b c d (omega arith), le_of_mul c b d (omega arith))

-- What the arithmetic does on operands in range.
ceiling_product-pos :
    (p q d : ℕ)
    → 0 < d
    → ceiling_product (pos p) (pos q) (pos d) ≡ (
        if leb (quotient_up (p * q) d) max_int64
        then ok (pos (quotient_up (p * q) d))
        else err Error.charge_overflow)
unfolding ceiling_product quotient_up
ceiling_product-pos p q d h = ground arith

-- `ceilingProduct` charges the least number of micros that covers price * quantity / denominator,
-- for every price and quantity from zero and every positive denominator, exactly when that number
-- fits an int64.
pub ceiling_product_exact :
    (p q d c : ℕ)
    → 0 < d
    → (ceiling_product (pos p) (pos q) (pos d) ≡ ok (pos c)) ↔ (IsCeiling p q d c × (c ≤ max_int64))
ceiling_product_exact p q d c h = rw (ceiling_product-pos p q d h) (there, back)
  where
    up : IsCeiling p q d (quotient_up (p * q) d)
    up = quotient_up-IsCeiling p q d h

    there :
        (if leb (quotient_up (p * q) d) max_int64
            then ok (pos (quotient_up (p * q) d))
            else err Error.charge_overflow)
          ≡ ok (pos c)
        → IsCeiling p q d c × (c ≤ max_int64)
    there e = ground (arith, up)

    back :
        IsCeiling p q d c × (c ≤ max_int64)
        → (if leb (quotient_up (p * q) d) max_int64
            then ok (pos (quotient_up (p * q) d))
            else err Error.charge_overflow)
          ≡ ok (pos c)
    back e = ground (arith, IsCeiling-unique p q d (quotient_up (p * q) d) c up e.0)

-- A charge that `ceilingProduct` returns came of operands in range.
pub ceiling_product-eq-ok :
    (price quantity denominator c : ℤ)
    → ceiling_product price quantity denominator ≡ ok c
    → (p : ℕ) × (q : ℕ) × (d : ℕ) × (n : ℕ) × (price ≡ pos p)
      × (quantity ≡ pos q)
      × (denominator ≡ pos d)
      × (c ≡ pos n)
      × (0 < d)
unfolding ceiling_product
ceiling_product-eq-ok (pos p) (pos q) (pos d) (pos n) h =
    (p, q, d, n, refl, refl, refl, refl, ground arith)
ceiling_product-eq-ok (pos p) (pos q) (pos d) (negsuc n) h = absurd (ground arith)
ceiling_product-eq-ok (pos p) (pos q) (negsuc d) c h = absurd (ground arith)
ceiling_product-eq-ok (pos p) (negsuc q) d c h = absurd (ground arith)
ceiling_product-eq-ok (negsuc p) q d c h = absurd (ground arith)

-- More units at the same price never cost less.
ceiling_mono : (p m n d x y : ℕ) → m ≤ n → IsCeiling p m d x → IsCeiling p n d y → x ≤ y
ceiling_mono p m n d x y le e f = le_of_mul x y d (omega (arith, step, e.least, f.covers))
  where
    step : p * m ≤ p * n
    step = grind arith

pub ceiling_product_mono :
    (price q r denominator c e : ℤ)
    → q ≤ℤ r
    → ceiling_product price q denominator ≡ ok c
    → ceiling_product price r denominator ≡ ok e
    → c ≤ℤ e
ceiling_product_mono price q r denominator c e le hc he =
    let (p, m, d, x, ep, em, ed, ex, pd) = ceiling_product-eq-ok price q denominator c hc in
    let (p', n, d', y, ep', en, ed', ey, pd') = ceiling_product-eq-ok price r denominator e he in
    let lower = (ceiling_product_exact p m d x pd).0 (cc (hc, ep, em, ed, ex)) in
    let upper = (ceiling_product_exact p n d y pd).0 (cc (he, ep, en, ed, ey)) in
    rw (ex, ey) (omega (arith, ceiling_mono p m n d x y (ground arith) lower.0 upper.0))

-- The additions that `SumComponents` and `SumActualComponents` share.
sum_amounts : ℤ → List ℤ → Result Error ℤ
sum_amounts sum [] = ok sum
sum_amounts sum (x ∷ xs) = do
  fail_if (ltb_ℤ x (pos 0) || ltb_ℤ (pos max_int64 -ℤ x) sum) Error.sum_overflow
  sum_amounts (add64 sum x) xs

sum_components_from-eq-sum_amounts :
    (sum : ℤ) (cs : List ChargeComponent)
    → sum_components_from sum cs ≡ sum_amounts sum (map (λ c. c.reserved_micros) cs)
unfolding sum_components_from sum_amounts
sum_components_from-eq-sum_amounts sum [] = refl
sum_components_from-eq-sum_amounts sum (c ∷ cs) =
    rw (sum_components_from-eq-sum_amounts (add64 sum c.reserved_micros) cs)

sum_actual_components_from-eq-sum_amounts :
    (sum : ℤ) (cs : List ActualChargeComponent)
    → sum_actual_components_from sum cs ≡ sum_amounts sum (map (λ c. c.actual_micros) cs)
unfolding sum_actual_components_from sum_amounts
sum_actual_components_from-eq-sum_amounts sum [] = refl
sum_actual_components_from-eq-sum_amounts sum (c ∷ cs) =
    rw (sum_actual_components_from-eq-sum_amounts (add64 sum c.actual_micros) cs)

-- The mathematical sum of the amounts.
abbrev pub total : List ℤ → ℕ
total [] = 0
total (x ∷ xs) = pos_part x + total xs

abbrev pub IsNonneg : ℤ → Type 0
IsNonneg x = pos 0 ≤ℤ x

sum_amounts_fits :
    (sum n : ℕ) (xs : List ℤ)
    → sum + n ≤ max_int64
    → sum_amounts (pos sum) (pos n ∷ xs) ≡ sum_amounts (pos (sum + n)) xs
sum_amounts_fits sum n xs h = rw (← add64_fits sum n h) (passed guard)
  where
    guard : (ltb_ℤ (pos n) (pos 0) || ltb_ℤ (pos max_int64 -ℤ pos n) (pos sum)) ≡ false
    guard = unfold ◌-ℤ◌ in ground arith

    passed :
        (ltb_ℤ (pos n) (pos 0) || ltb_ℤ (pos max_int64 -ℤ pos n) (pos sum)) ≡ false
        → sum_amounts (pos sum) (pos n ∷ xs) ≡ sum_amounts (add64 (pos sum) (pos n)) xs
    passed e = unfold sum_amounts in rw e

sum_amounts_over :
    (sum n : ℕ) (xs : List ℤ)
    → max_int64 < sum + n
    → sum ≤ max_int64
    → sum_amounts (pos sum) (pos n ∷ xs) ≡ err Error.sum_overflow
sum_amounts_over sum n xs h k = passed guard
  where
    guard : (ltb_ℤ (pos n) (pos 0) || ltb_ℤ (pos max_int64 -ℤ pos n) (pos sum)) ≡ true
    guard = unfold ◌-ℤ◌ in ground arith

    passed :
        (ltb_ℤ (pos n) (pos 0) || ltb_ℤ (pos max_int64 -ℤ pos n) (pos sum)) ≡ true
        → sum_amounts (pos sum) (pos n ∷ xs) ≡ err Error.sum_overflow
    passed e = unfold sum_amounts in rw e

sum_amounts-eq :
    (sum s : ℕ) (xs : List ℤ)
    → sum ≤ max_int64
    → (sum_amounts (pos sum) xs ≡ ok (pos s))
      ↔ (All IsNonneg xs × (s ≡ sum + total xs) × (s ≤ max_int64))
sum_amounts-eq sum s [] h = unfold sum_amounts in (λ e. ground arith, λ e. ground arith)
sum_amounts-eq sum s (negsuc n ∷ xs) h =
    unfold sum_amounts in (λ e. ground arith, λ e. absurd (omega arith))
sum_amounts-eq sum s (pos n ∷ xs) h = elim (Bool-cases (leb (sum + n) max_int64)) [
  | inl fits ↦ rw (sum_amounts_fits sum n xs (leb→le (sum + n) max_int64 fits)) (
      let rest = sum_amounts-eq (sum + n) s xs (leb→le (sum + n) max_int64 fits) in
      (
        λ e. ((omega arith, (rest.0 e).0), omega (arith, (rest.0 e).1), (rest.0 e).2),
        λ e. rest.1 (e.0.1, omega (arith, e.1), e.2),
      ))
  | inr over ↦
      rw (sum_amounts_over sum n xs (ground arith) h)
        (λ e. absurd (cc e), λ e. absurd (ground arith))
]

-- `SumComponents` returns the exact sum of the reserved amounts, exactly when none is negative and
-- the sum fits an int64: its guard catches every addition that would wrap.
pub sum_components_exact :
    (cs : List ChargeComponent) (s : ℕ)
    → (sum_components cs ≡ ok (pos s)) ↔ (
        All IsNonneg (map (λ c. c.reserved_micros) cs)
        × (s ≡ total (map (λ c. c.reserved_micros) cs))
        × (s ≤ max_int64))
unfolding sum_components
sum_components_exact cs s = rw (sum_components_from-eq-sum_amounts (pos 0) cs) (
    rw (add.zero (total (map (λ c. c.reserved_micros) cs))) at
      (sum_amounts-eq 0 s (map (λ c. c.reserved_micros) cs) (omega arith)))

-- `SumActualComponents` does so for the actual amounts.
pub sum_actual_components_exact :
    (cs : List ActualChargeComponent) (s : ℕ)
    → (sum_actual_components cs ≡ ok (pos s)) ↔ (
        All IsNonneg (map (λ c. c.actual_micros) cs)
        × (s ≡ total (map (λ c. c.actual_micros) cs))
        × (s ≤ max_int64))
unfolding sum_actual_components
sum_actual_components_exact cs s = rw (sum_actual_components_from-eq-sum_amounts (pos 0) cs) (
    rw (add.zero (total (map (λ c. c.actual_micros) cs))) at
      (sum_amounts-eq 0 s (map (λ c. c.actual_micros) cs) (omega arith)))
