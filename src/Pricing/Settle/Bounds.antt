-- ===== src/Pricing/Settle/Bounds.antt =====
-- What a settlement of internal/govarpricing/pricing.go pays is covered by the hold that the request
-- reserved.
use ai_finops_operator.Prelude.{
  ℕ, ◌+◌, ◌≤◌, ◌≡◌, sym, ℤ, pos_part, ltb_ℤ, ◌≤ℤ◌, false, List, [], ◌∷◌, ◌++◌, map, ap, ◌∙◌, subst,
  ◌||◌, ||-eq-false, some, ok, arith, All, Option-cases, inl, inr, eq_iff,
}
use ai_finops_operator.Prelude.Dict.{Dict, lookup, contains, insert, lookup-insert}
use ai_finops_operator.Pricing.Types.{
  Basis, NormalizedCharge, RequestChargeContext, ChargeComponent, ActualChargeComponent,
}
use ai_finops_operator.Pricing.Charge.{ceiling_product}
use ai_finops_operator.Pricing.Charge.Exact.{
  total, IsNonneg, ceiling_product_mono, ceiling_product-eq-ok,
}
use ai_finops_operator.Pricing.Reserve.{reserve_rows}
use ai_finops_operator.Pricing.Reserve.Hold.{IsHoldOf, reserve_row-IsHoldOf, reserve_rows_round}
use ai_finops_operator.Pricing.Settle.Round.{
  IsMissing, IsCharged, Outcome, settle_row-Outcome, settle_rows_round, settle_rows_skip,
}
use ai_finops_operator.Pricing.Settle.{
  Settlement, reserved_from, settle_row, settle_rows, actual_component,
}

-- What the components of a settlement pay, and what the components of a hold hold.
abbrev pub paid : List ActualChargeComponent → ℕ
paid cs = total (map (λ c. c.actual_micros) cs)

abbrev pub held : List ChargeComponent → ℕ
held cs = total (map (λ c. c.reserved_micros) cs)

abbrev pub AllNonneg : List ActualChargeComponent → Type 0
AllNonneg cs = All IsNonneg (map (λ c. c.actual_micros) cs)

paid-append :
    (cs : List ActualChargeComponent) (c : ActualChargeComponent)
    → paid (cs ++ c ∷ []) ≡ paid cs + pos_part c.actual_micros
paid-append [] c = omega arith
paid-append (d ∷ cs) c = omega (arith, paid-append cs c)

AllNonneg-append :
    (cs : List ActualChargeComponent) (c : ActualChargeComponent)
    → AllNonneg cs
    → IsNonneg c.actual_micros
    → AllNonneg (cs ++ c ∷ [])
AllNonneg-append [] c h n = (n, tt)
AllNonneg-append (d ∷ cs) c h n = (h.0, AllNonneg-append cs c h.1 n)

reserved_from-lookup_kept :
    (m : Dict ChargeComponent) (cs : List ChargeComponent) (b : Dict ChargeComponent) (k : Basis)
    (c : ChargeComponent)
    → reserved_from m cs ≡ ok b
    → lookup k m ≡ some c
    → lookup k b ≡ some c
unfolding reserved_from contains
reserved_from-lookup_kept m [] b k c h l = ground arith
reserved_from-lookup_kept m (d ∷ ds) b k c h l = ground (
  arith,
  eq_iff d.basis k,
  lookup-insert d.basis k d m,
  reserved_from-lookup_kept (insert d.basis d m) ds b k c,
)

-- Every reserved component is found in the map under its basis.
pub reserved_from-lookup :
    (m : Dict ChargeComponent) (cs : List ChargeComponent) (b : Dict ChargeComponent)
    → reserved_from m cs ≡ ok b
    → All (λ c. lookup c.basis b ≡ some c) cs
reserved_from-lookup m [] b h = tt
reserved_from-lookup m (d ∷ ds) b h = (
  reserved_from-lookup_kept (insert d.basis d m) ds b d.basis d (rest h)
      (ground (arith, lookup-insert d.basis d.basis d m, eq_iff d.basis d.basis)),
  reserved_from-lookup (insert d.basis d m) ds b (rest h),
)
  where
    rest : reserved_from m (d ∷ ds) ≡ ok b → reserved_from (insert d.basis d m) ds ≡ ok b
    rest h = unfold reserved_from in ground arith

ceiling_product-IsNonneg :
    (price quantity denominator c : ℤ)
    → ceiling_product price quantity denominator ≡ ok c
    → IsNonneg c
ceiling_product-IsNonneg price quantity denominator c h =
    let (p, q, d, n, ep, eq, ed, en, pd) = ceiling_product-eq-ok price quantity denominator c h in
    rw en (omega arith)

-- A round in which no bound is exceeded pays at most what the row's component holds.
record IsCovered (s u : Settlement) (c : ChargeComponent) : Type 0 where
  covered : paid u.actual ≤ paid s.actual + pos_part c.reserved_micros
  nonneg : AllNonneg s.actual → AllNonneg u.actual
  before : s.exceeded ≡ false

IsMissing-IsCovered :
    {row : NormalizedCharge} (s u : Settlement) (c : ChargeComponent)
    → IsMissing row s u
    → u.exceeded ≡ false
    → IsCovered s u c
IsMissing-IsCovered s u c m x =
    let same : u.actual ≡ s.actual = ap (λ (t : Settlement). t.actual) m.noted in
    let still : u.exceeded ≡ s.exceeded = ap (λ (t : Settlement). t.exceeded) m.noted in
    record { covered = rw same (omega arith); nonneg = λ p. rw same p; before = sym still ∙ x }

-- A charge within the bound of its component costs no more than the component holds.
IsCharged-IsCovered :
    (row : NormalizedCharge) (c : ChargeComponent) (s u : Settlement) (q cost : ℤ)
    → IsHoldOf row c
    → IsCharged row c s u q cost
    → u.exceeded ≡ false
    → IsCovered s u c
IsCharged-IsCovered row c s u q cost hold m x =
    let grown : u.actual ≡ s.actual ++ actual_component row c q cost ∷ [] =
      ap (λ (t : Settlement). t.actual) m.charged in
    let flag : (s.exceeded || ltb_ℤ c.quantity q) ≡ false =
      sym (ap (λ (t : Settlement). t.exceeded) m.charged) ∙ x in
    let clear = ||-eq-false s.exceeded (ltb_ℤ c.quantity q) flag in
    let within : q ≤ℤ c.quantity = ground (arith, clear.1) in
    let cheaper : cost ≤ℤ c.reserved_micros =
      ceiling_product_mono row.price_micros_per_unit q c.quantity row.unit_denominator cost
        c.reserved_micros within m.priced hold.held in
    let from_zero : IsNonneg cost =
      ceiling_product-IsNonneg row.price_micros_per_unit q row.unit_denominator cost m.priced in
    record {
      covered =
          rw (grown, paid-append s.actual (actual_component row c q cost))
            (unfold actual_component in ground (arith, cheaper, from_zero));
      nonneg = λ p. rw grown (
          AllNonneg-append s.actual (actual_component row c q cost) p
            (unfold actual_component in from_zero));
      before = clear.0;
    }

settle_row-IsCovered :
    (bounds : Dict ChargeComponent) (row : NormalizedCharge) (c : ChargeComponent)
    (s u : Settlement)
    → lookup row.basis bounds ≡ some c
    → IsHoldOf row c
    → settle_row bounds row s ≡ ok u
    → u.exceeded ≡ false
    → IsCovered s u c
settle_row-IsCovered bounds row c s u l hold h x =
    let (bound, l', o) = settle_row-Outcome bounds row s u h in
    by_outcome (subst (λ b. Outcome row b s u) (cc (l, l')) o)
  where
    by_outcome : Outcome row c s u → IsCovered s u c
    by_outcome (inl m) = IsMissing-IsCovered s u c m x
    by_outcome (inr (q, cost, m)) = IsCharged-IsCovered row c s u q cost hold m x

-- The run over all rows, against the components that the same rows reserved.
pub settle_rows-IsCovered :
    (ctx : RequestChargeContext) (declared : Dict ℤ) (bounds : Dict ChargeComponent)
    (rows : List NormalizedCharge) (cs : List ChargeComponent) (s t : Settlement)
    → reserve_rows ctx declared rows ≡ ok cs
    → All (λ c. lookup c.basis bounds ≡ some c) cs
    → settle_rows bounds rows s ≡ ok t
    → t.exceeded ≡ false
    → (paid t.actual ≤ paid s.actual + held cs)
      × (AllNonneg s.actual → AllNonneg t.actual)
      × (s.exceeded ≡ false)
settle_rows-IsCovered ctx declared bounds [] cs s t r a h x =
    let same : s ≡ t = unfold settle_rows in cc in rw (← same) (omega arith, λ p. p, rw same x)
settle_rows-IsCovered ctx declared bounds (row ∷ rows) cs s t r a h x =
    elim (Option-cases row.included_in) [
      | inl n ↦
          let (c, rest, first, others, shape) = reserve_rows_round ctx declared row rows cs n r in
          let (u, this, later) = settle_rows_round bounds row rows s t n h in
          let found = subst (All (λ c. lookup c.basis bounds ≡ some c)) shape a in
          let hold = reserve_row-IsHoldOf ctx declared row c first in
          let (le, nonneg, before) =
            settle_rows-IsCovered ctx declared bounds rows rest u t others found.1 later x in
          let here =
            settle_row-IsCovered bounds row c s u (rw (← hold.same_basis) found.0) hold this
              before in
          rw shape (omega (arith, here.covered, le), λ p. nonneg (here.nonneg p), here.before)
      | inr (p, e) ↦
          settle_rows-IsCovered ctx declared bounds rows cs s t
            (unfold reserve_rows in ground arith) a (sym (settle_rows_skip bounds row rows s e) ∙ h)
            x
    ]
