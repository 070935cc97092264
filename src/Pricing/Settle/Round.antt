-- ===== src/Pricing/Settle/Round.antt =====
-- One round of the settlement loop of internal/govarpricing/pricing.go, by its outcomes.
use ai_finops_operator.Prelude.{
  ℤ, ltb_ℤ, ◌≡◌, ◌||◌, List, [], ◌∷◌, ◌++◌, none, some, ok, ◌>>=◌, arith, >>=-eq-ok, Option-cases,
  Result-cases, ◌⊎◌, inl, inr,
}
use ai_finops_operator.Prelude.Dict.{Dict, lookup, erase}
use ai_finops_operator.Pricing.Types.{Basis, NormalizedCharge, ChargeComponent}
use ai_finops_operator.Pricing.Charge.{ceiling_product}
use ai_finops_operator.Pricing.Settle.{Settlement, settle_row, settle_rows, actual_component}

-- The usage of the row was not reported: its basis is noted as missing, and nothing else changes.
pub record IsMissing (row : NormalizedCharge) (s u : Settlement) : Type 0 where
  pub absent : lookup row.settlement_usage_field s.quantities ≡ none
  pub noted : u ≡ record s { missing = s.missing ++ row.basis ∷ [] }

-- The usage `q` of the row was charged `cost`, and is taken out of the reported usage.
pub record IsCharged (row : NormalizedCharge) (bound : ChargeComponent) (s u : Settlement)
    (q cost : ℤ) : Type 0 where
  pub reported : lookup row.settlement_usage_field s.quantities ≡ some q
  pub priced : ceiling_product row.price_micros_per_unit q row.unit_denominator ≡ ok cost
  pub charged : u ≡ record {
    actual = s.actual ++ actual_component row bound q cost ∷ [];
    missing = s.missing;
    exceeded = s.exceeded || ltb_ℤ bound.quantity q;
    quantities = erase row.settlement_usage_field s.quantities;
  }

abbrev pub Outcome : NormalizedCharge → ChargeComponent → Settlement → Settlement → Type 0
Outcome row bound s u = IsMissing row s u ⊎ ((q : ℤ) × (cost : ℤ) × IsCharged row bound s u q cost)

-- A round that succeeds found the row's component, at the row's price, and has one of two outcomes.
pub settle_row-Outcome :
    (reserved : Dict ChargeComponent) (row : NormalizedCharge) (s u : Settlement)
    → settle_row reserved row s ≡ ok u
    → (bound : ChargeComponent) × (lookup row.basis reserved ≡ some bound) × Outcome row bound s u
settle_row-Outcome reserved row s u h = elim (Option-cases (lookup row.basis reserved)) [
  | inl n ↦ absurd (unfold settle_row in ground arith)
  | inr (bound, l) ↦ (bound, l, outcome l)
]
  where
    outcome :
        {bound : ChargeComponent} → lookup row.basis reserved ≡ some bound → Outcome row bound s u
    outcome {bound} l = elim (Option-cases (lookup row.settlement_usage_field s.quantities)) [
      | inl n ↦ inl (record { absent = n; noted = unfold settle_row in ground arith })
      | inr (q, f) ↦
          elim (Result-cases (ceiling_product row.price_micros_per_unit q row.unit_denominator)) [
            | inl (cost, e) ↦ inr (
              q,
              cost,
              record { reported = f; priced = e; charged = unfold settle_row in ground arith },
            )
            | inr (error, e) ↦ absurd (unfold settle_row in ground arith)
          ]
    ]

-- A run over a row that is charged by itself is one round, and the run over the rest.
pub settle_rows_round :
    (reserved : Dict ChargeComponent) (row : NormalizedCharge) (rows : List NormalizedCharge)
    (s t : Settlement)
    → row.included_in ≡ none
    → settle_rows reserved (row ∷ rows) s ≡ ok t
    → (u : Settlement) × (settle_row reserved row s ≡ ok u) × (settle_rows reserved rows u ≡ ok t)
settle_rows_round reserved row rows s t n h =
    >>=-eq-ok (settle_row reserved row s) (settle_rows reserved rows) (opened n h)
  where
    opened :
        row.included_in ≡ none
        → settle_rows reserved (row ∷ rows) s ≡ ok t
        → (settle_row reserved row s >>= settle_rows reserved rows) ≡ ok t
    opened n h = unfold settle_rows in ground arith

-- Over a row that is included in another the run goes on with the rest.
pub settle_rows_skip :
    (reserved : Dict ChargeComponent) (row : NormalizedCharge) (rows : List NormalizedCharge)
    (s : Settlement) {parent : Basis}
    → row.included_in ≡ some parent
    → settle_rows reserved (row ∷ rows) s ≡ settle_rows reserved rows s
unfolding settle_rows
settle_rows_skip reserved row rows s e = rw e
