-- ===== src/Pricing/Snapshot/Partition.antt =====
-- What the checks of `ValidateSnapshotIntegrity` (internal/govarpricing/pricing.go) establish of a
-- snapshot: every row is well formed, and the rows and the inapplicable bases partition the bases.
use ai_finops_operator.Prelude.{
  ◌≡◌, refl, ◌∙◌, ap, pos, ◌≤ℤ◌, true, false, ◌&&◌, ◌||◌, ◌==◌, List, [], ◌∷◌, none, ok, arith, All,
  >>=-eq-ok, eq_iff, ◌⊎◌, inl, inr, Bool-cases,
}
use ai_finops_operator.Pricing.Types.{Basis, NormalizedCharge}
use ai_finops_operator.Pricing.Usage.{has, is_basis, valid_applicability, valid_request_bound}
use ai_finops_operator.Pricing.Inclusion.Graph.{bases, IsDistinct}
use ai_finops_operator.Pricing.Snapshot.{
  is_some, check_row, check_row_charged, check_rows, check_inapplicable,
}

-- A row that passed: a known basis, settled by its own usage, at a price from zero for a positive
-- number of units; if it is charged by itself, a bound is known before the request is sent.
pub record IsValidRow (row : NormalizedCharge) : Type 0 where
  pub known : is_basis row.basis ≡ true
  pub applicable : valid_applicability row.applicability ≡ true
  pub settles : row.settlement_usage_field ≡ row.basis
  pub price : pos 0 ≤ℤ row.price_micros_per_unit
  pub units : pos 1 ≤ℤ row.unit_denominator
  pub bounded :
      row.included_in ≡ none
      → ((row.applicability == "request_declared") ≡ true)
          × (valid_request_bound row.basis row.request_bound_field ≡ true)
        ⊎ ((row.applicability == "request_declared") ≡ false)
          × (is_some row.maximum_quantity ≡ true)

check_row_charged-bounded :
    (row : NormalizedCharge)
    → check_row_charged row ≡ ok tt
    → ((row.applicability == "request_declared") ≡ true)
        × (valid_request_bound row.basis row.request_bound_field ≡ true)
      ⊎ ((row.applicability == "request_declared") ≡ false) × (is_some row.maximum_quantity ≡ true)
unfolding check_row_charged
check_row_charged-bounded row h = elim (Bool-cases (row.applicability == "request_declared")) [
  | inl e ↦ inl (e, ground arith)
  | inr e ↦ inr (e, ground arith)
]

check_row_parts :
    (seen : List Basis) (row : NormalizedCharge)
    → check_row seen row ≡ ok tt
    → (has row.basis seen ≡ false)
      × (is_basis row.basis ≡ true)
      × (valid_applicability row.applicability ≡ true)
      × ((row.settlement_usage_field == row.basis) ≡ true)
      × (pos 0 ≤ℤ row.price_micros_per_unit)
      × (pos 1 ≤ℤ row.unit_denominator)
      × (row.included_in ≡ none → check_row_charged row ≡ ok tt)
unfolding check_row
check_row_parts seen row h = (
  ground arith,
  ground arith,
  ground arith,
  ground arith,
  ground arith,
  ground arith,
  λ n. ground arith,
)

check_row-IsValidRow :
    (seen : List Basis) (row : NormalizedCharge)
    → check_row seen row ≡ ok tt
    → IsValidRow row × (has row.basis seen ≡ false)
check_row-IsValidRow seen row h =
    let (fresh, known, applicable, settles, price, units, charged) = check_row_parts seen row h in
    (
      record {
        known = known;
        applicable = applicable;
        settles = (eq_iff row.settlement_usage_field row.basis).0 settles;
        price = price;
        units = units;
        bounded = λ n. check_row_charged-bounded row (charged n);
      },
      fresh,
    )

-- The rows that `check_rows` accepts after `seen`, and the set that it returns.
pub record AreAccepted (seen : List Basis) (rows : List NormalizedCharge) (out : List Basis)
    : Type 0 where
  pub valid : All IsValidRow rows
  pub distinct : IsDistinct (bases rows)
  pub fresh : (b : Basis) → (has b (bases rows) && has b seen) ≡ false
  pub union : (b : Basis) → has b out ≡ (has b (bases rows) || has b seen)

check_rows_nil : (seen out : List Basis) → check_rows seen [] ≡ ok out → out ≡ seen
unfolding check_rows
check_rows_nil seen out h = cc

check_rows_cons :
    (seen : List Basis) (r : NormalizedCharge) (rs : List NormalizedCharge) (out : List Basis)
    → check_rows seen (r ∷ rs) ≡ ok out
    → (check_row seen r ≡ ok tt) × (check_rows (r.basis ∷ seen) rs ≡ ok out)
unfolding check_rows
check_rows_cons seen r rs out h =
    let (u, first, others) = >>=-eq-ok (check_row seen r) (λ _. check_rows (r.basis ∷ seen) rs) h in
    (first, others)

-- Facts about the sets of bases, at one basis.
has_fresh :
    (b r : Basis) (bs seen : List Basis)
    → (has b bs && has b (r ∷ seen)) ≡ false
    → has r seen ≡ false
    → (has b (r ∷ bs) && has b seen) ≡ false
unfolding has
has_fresh b r bs seen h n = ground (arith, eq_iff r b)

has_union :
    (b r : Basis) (bs seen : List Basis)
    → (has b bs || has b (r ∷ seen)) ≡ (has b (r ∷ bs) || has b seen)
unfolding has
has_union b r bs seen = ground arith

has_head :
    (r : Basis) (bs seen : List Basis) → (has r bs && has r (r ∷ seen)) ≡ false → has r bs ≡ false
unfolding has
has_head r bs seen h = ground (arith, eq_iff r r)

pub check_rows-AreAccepted :
    (seen : List Basis) (rows : List NormalizedCharge) (out : List Basis)
    → check_rows seen rows ≡ ok out
    → AreAccepted seen rows out
check_rows-AreAccepted seen [] out h = record {
  valid = tt;
  distinct = tt;
  fresh = λ b. unfold has in refl;
  union = λ b. unfold has in ap (has b) (check_rows_nil seen out h);
}
check_rows-AreAccepted seen (r ∷ rs) out h =
    let (first, others) = check_rows_cons seen r rs out h in
    let row = check_row-IsValidRow seen r first in
    let rest = check_rows-AreAccepted (r.basis ∷ seen) rs out others in
    record {
      valid = (row.0, rest.valid);
      distinct = (has_head r.basis (bases rs) seen (rest.fresh r.basis), rest.distinct);
      fresh = λ b. has_fresh b r.basis (bases rs) seen (rest.fresh b) row.1;
      union = λ b. rest.union b ∙ has_union b r.basis (bases rs) seen;
    }

-- The bases that `check_inapplicable` accepts after `seen`, and the set that it returns.
pub record AreInapplicable (seen bs out : List Basis) : Type 0 where
  pub known : All (λ b. is_basis b ≡ true) bs
  pub distinct : IsDistinct bs
  pub fresh : (b : Basis) → (has b bs && has b seen) ≡ false
  pub union : (b : Basis) → has b out ≡ (has b bs || has b seen)

check_inapplicable_parts :
    (seen : List Basis) (b : Basis) (bs out : List Basis)
    → check_inapplicable seen (b ∷ bs) ≡ ok out
    → (is_basis b ≡ true) × (has b seen ≡ false) × (check_inapplicable (b ∷ seen) bs ≡ ok out)
unfolding check_inapplicable
check_inapplicable_parts seen b bs out h = (ground arith, ground arith, ground arith)

check_inapplicable_nil : (seen out : List Basis) → check_inapplicable seen [] ≡ ok out → out ≡ seen
unfolding check_inapplicable
check_inapplicable_nil seen out h = cc

pub check_inapplicable-AreInapplicable :
    (seen bs out : List Basis) → check_inapplicable seen bs ≡ ok out → AreInapplicable seen bs out
check_inapplicable-AreInapplicable seen [] out h = record {
  known = tt;
  distinct = tt;
  fresh = λ b. unfold has in refl;
  union = λ b. unfold has in ap (has b) (check_inapplicable_nil seen out h);
}
check_inapplicable-AreInapplicable seen (b ∷ bs) out h =
    let (known, fresh, others) = check_inapplicable_parts seen b bs out h in
    let rest = check_inapplicable-AreInapplicable (b ∷ seen) bs out others in
    record {
      known = (known, rest.known);
      distinct = (has_head b bs seen (rest.fresh b), rest.distinct);
      fresh = λ c. has_fresh c b bs seen (rest.fresh c) fresh;
      union = λ c. rest.union c ∙ has_union c b bs seen;
    }
