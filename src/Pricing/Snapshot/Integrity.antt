-- ===== src/Pricing/Snapshot/Integrity.antt =====
-- What a snapshot that `ValidateSnapshotIntegrity` (internal/govarpricing/pricing.go) accepts is.
use ai_finops_operator.Prelude.{
  ◌≡◌, refl, sym, Bool, true, false, ◌&&◌, ◌||◌, List, [], ◌∷◌, ok, arith, All, >>=-eq-ok,
  fail_if-eq-ok, inl, inr, Bool-cases, ==-cases,
}
use ai_finops_operator.Pricing.Types.{Basis, all_bases, NormalizedCharge, PricingSnapshot}
use ai_finops_operator.Pricing.Usage.{has, is_basis}
use ai_finops_operator.Pricing.Inclusion.{charged_from}
use ai_finops_operator.Pricing.Inclusion.Graph.{
  bases, IsDistinct, IsWellIncluded, validate_included_charge_graph_iff,
}
use ai_finops_operator.Pricing.Digest.{Primitives}
use ai_finops_operator.Pricing.Snapshot.{
  check_rows, check_inapplicable, check_partition, check_body, has_invalid_header,
  validate_snapshot_integrity,
}
use ai_finops_operator.Pricing.Snapshot.Partition.{
  IsValidRow, check_rows-AreAccepted, check_inapplicable-AreInapplicable,
}

-- The rows and the inapplicable bases of a sound snapshot.
pub record IsSound (s : PricingSnapshot) : Type 0 where
  -- every row is well formed, and no basis is charged twice or listed twice as inapplicable
  pub valid : All IsValidRow s.charges
  pub charged_once : IsDistinct (bases s.charges)
  pub inapplicable_once : IsDistinct s.inapplicable_bases
  -- the two sets are disjoint, and together they are the ten bases
  pub disjoint : (b : Basis) → (has b (bases s.charges) && has b s.inapplicable_bases) ≡ false
  pub complete : (b : Basis) → (has b (bases s.charges) || has b s.inapplicable_bases) ≡ is_basis b
  -- every inclusion leads to a charged root that it may be part of
  pub included : All (IsWellIncluded (charged_from [] s.charges)) s.charges

check_partition-All :
    (seen bs : List Basis) → check_partition seen bs ≡ ok tt → All (λ b. has b seen ≡ true) bs
unfolding check_partition
check_partition-All seen [] h = tt
check_partition-All seen (b ∷ bs) h = (ground arith, check_partition-All seen bs (ground arith))

has-All :
    (P : Basis → Bool) (b : Basis) (bs : List Basis)
    → All (λ c. P c ≡ true) bs
    → has b bs ≡ true
    → P b ≡ true
unfolding has
has-All P b [] a h = cc
has-All P b (c ∷ cs) a h = elim (==-cases c b) [
  | inl e ↦ cc (a.0, e.0)
  | inr e ↦ has-All P b cs a.1 (ground arith)
]

All-known :
    (rows : List NormalizedCharge) → All IsValidRow rows → All (λ b. is_basis b ≡ true) (bases rows)
All-known [] a = tt
All-known (r ∷ rs) a = (a.0.known, All-known rs a.1)

bool_eq : (a b : Bool) → (a ≡ true → b ≡ true) → (b ≡ true → a ≡ true) → a ≡ b
bool_eq true b f g = sym (f refl)
bool_eq false true f g = g refl
bool_eq false false f g = refl

or_nil : (b : Basis) (x y : Bool) → x ≡ (y || has b []) → x ≡ y
unfolding has
or_nil b x y h = ground arith

-- A basis that is charged or inapplicable is one of the ten.
is_basis_of_listed :
    (b : Basis) (rows : List NormalizedCharge) (bs : List Basis)
    → All IsValidRow rows
    → All (λ c. is_basis c ≡ true) bs
    → (has b (bases rows) || has b bs) ≡ true
    → is_basis b ≡ true
is_basis_of_listed b rows bs v k h = elim (Bool-cases (has b (bases rows))) [
  | inl e ↦ has-All is_basis b (bases rows) (All-known rows v) e
  | inr e ↦ has-All is_basis b bs k (ground arith)
]

-- One of the ten bases is in every set that passes the check of the partition.
has_of_is_basis :
    (b : Basis) (seen : List Basis)
    → check_partition seen all_bases ≡ ok tt
    → is_basis b ≡ true
    → has b seen ≡ true
has_of_is_basis b seen h k =
    has-All (λ c. has c seen) b all_bases (check_partition-All seen all_bases h)
      (unfold is_basis in k)

check_body-IsSound : (s : PricingSnapshot) → check_body s ≡ ok tt → IsSound s
unfolding check_body
check_body-IsSound s h =
    let (charged, e₁, h₁) = >>=-eq-ok (check_rows [] s.charges) _ h in
    let (seen, e₂, h₂) = >>=-eq-ok (check_inapplicable charged s.inapplicable_bases) _ h₁ in
    let (u, e₃, e₄) = >>=-eq-ok (check_partition seen all_bases) _ h₂ in
    let rows = check_rows-AreAccepted [] s.charges charged e₁ in
    let others = check_inapplicable-AreInapplicable charged s.inapplicable_bases seen e₂ in
    let graph =
      (validate_included_charge_graph_iff s.charges s.inapplicable_bases rows.distinct).0 e₄ in
    let here : (b : Basis) → has b charged ≡ has b (bases s.charges) =
      λ b. or_nil b _ _ (rows.union b) in
    record {
      valid = rows.valid;
      charged_once = rows.distinct;
      inapplicable_once = others.distinct;
      disjoint = λ b. ground (arith, others.fresh b, here b);
      complete = λ b.
          bool_eq _ _ (is_basis_of_listed b s.charges s.inapplicable_bases rows.valid others.known)
            (λ k. ground (arith, has_of_is_basis b seen e₃ k, others.union b, here b));
      included = graph.1;
    }

-- Every snapshot that `ValidateSnapshotIntegrity` accepts is sound: each of the ten billable bases
-- is charged by one well-formed row or listed once as inapplicable, never both, no other basis
-- occurs, and every inclusion resolves to a legal charged root.
pub validate_snapshot_integrity-IsSound :
    (env : Primitives) (s : PricingSnapshot) → validate_snapshot_integrity env s ≡ ok tt → IsSound s
unfolding validate_snapshot_integrity
validate_snapshot_integrity-IsSound env s h =
    check_body-IsSound s (fail_if-eq-ok (has_invalid_header env s) _ (check_body s) h).1
