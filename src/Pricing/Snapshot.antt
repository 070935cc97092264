-- ===== src/Pricing/Snapshot.antt =====
-- The validation of a price snapshot in internal/govarpricing/pricing.go.
pub mod Partition
pub mod Integrity
use ai_finops_operator.Prelude.{
  ℕ, ◌+◌, ◌*◌, ltb, eqb, ℤ, pos, ltb_ℤ, leb_ℤ, eqb_ℤ, String, Bool, true, false, not, ◌&&◌, ◌||◌,
  ◌==◌, List, [], ◌∷◌, Option, none, some, if◌then◌else◌, Result, ok, err, ◌>>=◌, ◌>>◌, fail_if,
  trim, to_upper,
}
use ai_finops_operator.Pricing.Types.{
  Basis, Instant, Error, all_bases, NormalizedCharge, PricingSnapshot,
}
use ai_finops_operator.Pricing.Usage.{
  has, is_basis, valid_applicability, valid_evidence_mode, valid_request_bound,
}
use ai_finops_operator.Pricing.Inclusion.{validate_included_charge_graph}
use ai_finops_operator.Pricing.Digest.{Primitives, is_sha256, snapshot_digest}

-- time.Minute and 24 * time.Hour, in nanoseconds.
abbrev pub minute : ℕ
minute = 60_000_000_000

abbrev pub day : ℕ
day = 86_400_000_000_000

abbrev pub is_some : {A : Type 0} → Option A → Bool
is_some none = false
is_some (some _) = true

-- The checks of `ValidateSnapshotIntegrity` on a row that is included in another, and on one that is
-- charged by itself.
unfoldable pub check_row_included : NormalizedCharge → Basis → Result Error (Unit {0})
check_row_included row parent =
    fail_if
      (not (is_basis parent)
        || parent == row.basis
        || not (eqb_ℤ row.price_micros_per_unit (pos 0)))
      Error.invalid_inclusion

unfoldable pub check_row_charged : NormalizedCharge → Result Error (Unit {0})
check_row_charged row = do
  fail_if
      ((row.basis == "cached_input_tokens" || row.basis == "reasoning_tokens")
        && not row.disjoint_usage)
      Error.overlapping_detail
  fail_if
      (row.applicability == "request_declared"
        && not (valid_request_bound row.basis row.request_bound_field))
      Error.unmapped_request
  fail_if (not (row.applicability == "request_declared") && not (is_some row.maximum_quantity))
      Error.unbounded_charge

-- One round of the loop over the rows.
unfoldable pub check_row : List Basis → NormalizedCharge → Result Error (Unit {0})
check_row seen row = do
  fail_if
      (not (is_basis row.basis)
        || has row.basis seen
        || not (valid_applicability row.applicability)
        || not (row.settlement_usage_field == row.basis)
        || ltb_ℤ row.price_micros_per_unit (pos 0)
        || leb_ℤ row.unit_denominator (pos 0))
      Error.invalid_charge
  elim row.included_in [
    | none ↦ check_row_charged row
    | some parent ↦ check_row_included row parent
  ]

unfoldable pub check_rows : List Basis → List NormalizedCharge → Result Error (List Basis)
check_rows seen [] = ok seen
check_rows seen (r ∷ rs) = do check_row seen r; check_rows (r.basis ∷ seen) rs

unfoldable pub check_inapplicable : List Basis → List Basis → Result Error (List Basis)
check_inapplicable seen [] = ok seen
check_inapplicable seen (b ∷ bs) = do
  fail_if (not (is_basis b) || has b seen) Error.invalid_inapplicable
  check_inapplicable (b ∷ seen) bs

unfoldable pub check_partition : List Basis → List Basis → Result Error (Unit {0})
check_partition seen [] = ok tt
check_partition seen (b ∷ bs) = do
  fail_if (not (has b seen)) Error.unpartitioned
  check_partition seen bs

-- The part of `ValidateSnapshotIntegrity` below the header.
unfoldable pub check_body : PricingSnapshot → Result Error (Unit {0})
check_body s = do
  charged ← check_rows [] s.charges
  seen ← check_inapplicable charged s.inapplicable_bases
  check_partition seen all_bases
  validate_included_charge_graph s.charges s.inapplicable_bases

module _ (env : Primitives) where
  -- The first condition of `ValidateSnapshotIntegrity`.
  unfoldable pub has_invalid_header : PricingSnapshot → Bool
  has_invalid_header s =
      leb_ℤ s.spec_generation (pos 0)
      || trim s.version == ""
      || not (s.completeness == "complete")
      || not (to_upper s.currency == "EUR")
      || not (s.adapter_version == "govar-pricing-v1")
      || not (valid_evidence_mode s.evidence_mode)
      || not (is_sha256 s.evidence_sha256)
      || trim s.source_version == ""
      || not (ltb s.observed_at s.valid_until)
      || not (is_sha256 s.snapshot_sha256)
      || not (s.snapshot_sha256 == snapshot_digest env s)

  -- `ValidateSnapshotIntegrity`
  unfoldable pub validate_snapshot_integrity : PricingSnapshot → Result Error (Unit {0})
  validate_snapshot_integrity s = do
    fail_if (has_invalid_header s) Error.invalid_snapshot
    check_body s

  -- `ValidateSnapshot`
  unfoldable pub validate_snapshot : PricingSnapshot → ℤ → Instant → Result Error (Unit {0})
  validate_snapshot s generation at = elim (validate_snapshot_integrity s) [
    | err _ ↦ err Error.stale_snapshot
    | ok _ ↦
        fail_if
          (not (eqb_ℤ s.spec_generation generation)
            || eqb at 0
            || not (ltb at s.valid_until)
            || ltb (at + minute) s.observed_at)
          Error.stale_snapshot
  ]
