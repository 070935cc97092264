-- ===== src/Pricing/Settle/Guarantee.antt =====
-- A settlement of internal/govarpricing/pricing.go against the hold of `ReserveComponents`.
use ai_finops_operator.Prelude.{
  ℕ, ◌≤◌, ◌≡◌, refl, sym, ℤ, pos, pos_part, Bool, false, List, [], ◌∷◌, ok, arith, All, >>=-eq-ok,
  sum_of, sum_of-sort, sort, All-sort, ap, ◌∙◌, fail_if-eq-ok, subst,
}
use ai_finops_operator.Prelude.Dict.{Dict}
use ai_finops_operator.Pricing.Types.{
  Instant, PricingSnapshot, RequestChargeContext, UsageQuantity, ChargeComponent,
  ActualChargeComponent,
}
use ai_finops_operator.Pricing.Charge.{sum_components, sum_actual_components}
use ai_finops_operator.Pricing.Charge.Exact.{
  IsNonneg, sum_components_exact, sum_actual_components_exact,
}
use ai_finops_operator.Pricing.Usage.{canonical_usage}
use ai_finops_operator.Pricing.Digest.{Primitives}
use ai_finops_operator.Pricing.Snapshot.{validate_snapshot, validate_snapshot_integrity}
use ai_finops_operator.Pricing.Reserve.{reserve_rows, reserve_components}
use ai_finops_operator.Pricing.Settle.{
  Settlement, Settled, start, reserved_from, settle_rows, is_nonempty, sorted_settlement,
  settle_components,
}
use ai_finops_operator.Pricing.Settle.Bounds.{
  paid, AllNonneg, reserved_from-lookup, settle_rows-IsCovered,
}

-- The parts of a settlement that succeeded.
pub record IsSettlement (env : Primitives) (snapshot : PricingSnapshot)
    (reserved : List ChargeComponent) (usage : List UsageQuantity) (st : Settled)
    (quantities : Dict ℤ) (bounds : Dict ChargeComponent) (s : Settlement) : Type 0 where
  pub valid : validate_snapshot_integrity env snapshot ≡ ok tt
  pub reported : canonical_usage usage ≡ ok quantities
  pub bounded : reserved_from [] reserved ≡ ok bounds
  pub run : settle_rows bounds snapshot.charges (start quantities) ≡ ok s
  pub all_used : is_nonempty s.quantities ≡ false
  pub result : st ≡ sorted_settlement s

pub settle_components-IsSettlement :
    (env : Primitives) (snapshot : PricingSnapshot) (reserved : List ChargeComponent)
    (usage : List UsageQuantity) (st : Settled)
    → settle_components env snapshot reserved usage ≡ ok st
    → (quantities : Dict ℤ) × (bounds : Dict ChargeComponent) × (s : Settlement) × IsSettlement env
        snapshot reserved usage st quantities bounds s
unfolding settle_components
settle_components-IsSettlement env snapshot reserved usage st h =
    let (u, valid, h₁) = >>=-eq-ok (validate_snapshot_integrity env snapshot) _ h in
    let (quantities, reported, h₂) = >>=-eq-ok (canonical_usage usage) _ h₁ in
    let (bounds, bounded, h₃) = >>=-eq-ok (reserved_from [] reserved) _ h₂ in
    let (s, run, h₄) = >>=-eq-ok (settle_rows bounds snapshot.charges (start quantities)) _ h₃ in
    let (used, h₅) = fail_if-eq-ok (is_nonempty s.quantities) _ _ h₄ in
    (
      quantities,
      bounds,
      s,
      record {
        valid = valid;
        reported = reported;
        bounded = bounded;
        run = run;
        all_used = used;
        result = sym (cc (h₅));
      },
    )

total-map : (cs : List ActualChargeComponent) → paid cs ≡ sum_of (λ c. pos_part c.actual_micros) cs
total-map [] = refl
total-map (c ∷ cs) = omega (arith, total-map cs)

AllNonneg-All :
    (cs : List ActualChargeComponent) → AllNonneg cs → All (λ c. IsNonneg c.actual_micros) cs
AllNonneg-All [] h = tt
AllNonneg-All (c ∷ cs) h = (h.0, AllNonneg-All cs h.1)

All-AllNonneg :
    (cs : List ActualChargeComponent) → All (λ c. IsNonneg c.actual_micros) cs → AllNonneg cs
All-AllNonneg [] h = tt
All-AllNonneg (c ∷ cs) h = (h.0, All-AllNonneg cs h.1)

paid-sort :
    (before : ActualChargeComponent → ActualChargeComponent → Bool)
    (cs : List ActualChargeComponent)
    → paid (sort before cs) ≡ paid cs
paid-sort before cs =
    total-map (sort before cs)
    ∙ (sum_of-sort (λ c. pos_part c.actual_micros) before cs ∙ sym (total-map cs))

paid-sorted_settlement : (s : Settlement) → paid (sorted_settlement s).actual ≡ paid s.actual
unfolding sorted_settlement
paid-sorted_settlement s = paid-sort _ s.actual

sorted_settlement-AllNonneg :
    (s : Settlement) → AllNonneg s.actual → AllNonneg (sorted_settlement s).actual
unfolding sorted_settlement
sorted_settlement-AllNonneg s h =
    All-AllNonneg _ (All-sort (λ c. IsNonneg c.actual_micros) _ s.actual (AllNonneg-All s.actual h))

exceeded-sorted_settlement : (s : Settlement) → (sorted_settlement s).exceeded ≡ s.exceeded
unfolding sorted_settlement
exceeded-sorted_settlement s = refl

-- The rows that a successful reservation held.
pub reserve_components-rows :
    (env : Primitives) (snapshot : PricingSnapshot) (ctx : RequestChargeContext) (at : Instant)
    (reserved : List ChargeComponent)
    → reserve_components env snapshot ctx at ≡ ok reserved
    → (declared : Dict ℤ) × (reserve_rows ctx declared snapshot.charges ≡ ok reserved)
unfolding reserve_components
reserve_components-rows env snapshot ctx at reserved h =
    let (u, valid, h₁) =
      >>=-eq-ok (validate_snapshot env snapshot snapshot.spec_generation at) _ h in
    let (declared, canonical, h₂) = >>=-eq-ok (canonical_usage ctx.declared_bounds) _ h₁ in
    (declared, h₂)

-- What is paid never passes what was held: where a request was reserved by `ReserveComponents`, the
-- hold sums to `hold`, and `SettleComponents` settles it on the same snapshot with no bound exceeded,
-- the actual charges sum without overflow to at most `hold`. The usage and the time are any.
pub settled_within_hold :
    (env : Primitives) (snapshot : PricingSnapshot) (ctx : RequestChargeContext) (at : Instant)
    (reserved : List ChargeComponent) (usage : List UsageQuantity) (st : Settled) (hold : ℕ)
    → reserve_components env snapshot ctx at ≡ ok reserved
    → sum_components reserved ≡ ok (pos hold)
    → settle_components env snapshot reserved usage ≡ ok st
    → st.exceeded ≡ false
    → (n : ℕ) × (sum_actual_components st.actual ≡ ok (pos n)) × (n ≤ hold)
settled_within_hold env snapshot ctx at reserved usage st hold hr hs hu x =
    let (declared, rows) = reserve_components-rows env snapshot ctx at reserved hr in
    let (quantities, bounds, s, p) =
      settle_components-IsSettlement env snapshot reserved usage st hu in
    let (nonneg, sum, fits) = (sum_components_exact reserved hold).0 hs in
    let flag : s.exceeded ≡ false =
      sym (exceeded-sorted_settlement s) ∙ (sym (ap (λ (t : Settled). t.exceeded) p.result) ∙ x) in
    let (le, from_zero, _) =
      settle_rows-IsCovered ctx declared bounds snapshot.charges reserved (start quantities) s rows
        (reserved_from-lookup [] reserved bounds p.bounded) p.run flag in
    let same : paid st.actual ≡ paid s.actual =
      ap (λ (t : Settled). paid t.actual) p.result ∙ paid-sorted_settlement s in
    let all : AllNonneg st.actual =
      subst (λ (t : Settled). AllNonneg t.actual) (sym p.result)
        (sorted_settlement-AllNonneg s (from_zero tt)) in
    (
      paid st.actual,
      (sum_actual_components_exact st.actual (paid st.actual)).1
          (all, refl, omega (arith, same, le, sum, fits)),
      omega (arith, same, le, sum),
    )
