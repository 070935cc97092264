-- ===== src/Pricing/Inclusion.antt =====
-- The included-charge graph of internal/govarpricing/pricing.go (`validateIncludedChargeGraph`).
pub mod Climb
pub mod Graph
use ai_finops_operator.Prelude.{
  ℕ, zero, suc, String, Bool, true, ◌&&◌, ◌||◌, ◌==◌, List, [], ◌∷◌, Option, none, some, not,
  if◌then◌else◌, Result, ok, err, ◌>>=◌, ◌>>◌, fail_if, length,
}
use ai_finops_operator.Prelude.Dict.{Dict, lookup, contains, insert}
use ai_finops_operator.Pricing.Types.{Basis, Error, NormalizedCharge}
use ai_finops_operator.Pricing.Usage.{has}

-- `legalIncludedPair`
unfoldable pub legal_included_pair : Basis → Basis → Bool
legal_included_pair detail root =
    detail == "cached_input_tokens" && root == "input_tokens"
    || detail == "reasoning_tokens" && root == "output_tokens"

-- The map from a basis to its row; a later row replaces an earlier one.
unfoldable pub charged_from : Dict NormalizedCharge → List NormalizedCharge → Dict NormalizedCharge
charged_from m [] = m
charged_from m (r ∷ rs) = charged_from (insert r.basis r m) rs

-- No basis is both charged and inapplicable.
unfoldable pub check_disjoint : Dict NormalizedCharge → List Basis → Result Error (Unit {0})
check_disjoint charged [] = ok tt
check_disjoint charged (b ∷ bs) = do
  fail_if (contains b charged) Error.contradictory_inapplicable
  check_disjoint charged bs

-- The inner loop: from `current` up to the row that is included in nothing. Each round visits a basis
-- of the map for the first time, so the number of rows is fuel enough.
unfoldable pub climb :
    ℕ → Dict NormalizedCharge → List Basis → NormalizedCharge → Result Error NormalizedCharge
climb zero charged visited current = err Error.out_of_fuel
climb (suc fuel) charged visited current = elim current.included_in [
  | none ↦ ok current
  | some parent_basis ↦ elim (has parent_basis visited) [
    | true ↦ err Error.inclusion_cycle
    | _ ↦ elim (lookup parent_basis charged) [
      | none ↦ err Error.missing_parent
      | some parent ↦ climb fuel charged (parent_basis ∷ visited) parent
    ]
  ]
]

-- One round of the outer loop.
unfoldable pub check_included : Dict NormalizedCharge → NormalizedCharge → Result Error (Unit {0})
unfolding climb legal_included_pair
check_included charged row = elim row.included_in [
  | none ↦ ok tt
  | some _ ↦ do
    root ← climb (suc (length charged)) charged (row.basis ∷ []) row
    fail_if (not (legal_included_pair row.basis root.basis)) Error.illegal_root
]

unfoldable pub check_all_included :
    Dict NormalizedCharge → List NormalizedCharge → Result Error (Unit {0})
unfolding check_included
check_all_included charged [] = ok tt
check_all_included charged (r ∷ rs) = do check_included charged r; check_all_included charged rs

-- `validateIncludedChargeGraph`
unfoldable pub validate_included_charge_graph :
    List NormalizedCharge → List Basis → Result Error (Unit {0})
unfolding charged_from check_disjoint check_all_included
validate_included_charge_graph rows inapplicable = do
  let charged = charged_from [] rows
  check_disjoint charged inapplicable
  check_all_included charged rows
