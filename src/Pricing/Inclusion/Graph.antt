-- ===== src/Pricing/Inclusion/Graph.antt =====
-- What `validateIncludedChargeGraph` of internal/govarpricing/pricing.go accepts.
use ai_finops_operator.Prelude.{
  ℕ, suc, ◌≡◌, ◌↔◌, ◌⊎◌, refl, sym, ◌∙◌, true, false, List, [], ◌∷◌, none, some, Result, ok, length,
  arith, eq_iff, Option-cases, inl, inr, ◌>>=◌, ◌||◌, fail_if, not, All, map, >>=-eq-ok,
}
use ai_finops_operator.Prelude.Dict.{Dict, lookup, contains, insert, lookup-insert, contains-insert}
use ai_finops_operator.Pricing.Types.{Basis, Error, NormalizedCharge}
use ai_finops_operator.Pricing.Usage.{has}
use ai_finops_operator.Pricing.Inclusion.{
  climb, legal_included_pair, charged_from, check_disjoint, check_included, check_all_included,
  validate_included_charge_graph,
}
use ai_finops_operator.Pricing.Inclusion.Climb.{Resolves, climb_sound, climb_at_row}

abbrev pub bases : List NormalizedCharge → List Basis
bases rows = map (λ r. r.basis) rows

-- No basis is listed twice.
abbrev pub IsDistinct : List Basis → Type 0
IsDistinct [] = Unit
IsDistinct (b ∷ bs) = (has b bs ≡ false) × IsDistinct bs

-- A row is included in nothing, or the inclusions lead from it to a root that it may be part of.
abbrev pub IsWellIncluded : Dict NormalizedCharge → NormalizedCharge → Type 0
IsWellIncluded charged row =
    (row.included_in ≡ none)
    ⊎ ((n : ℕ) × (root : NormalizedCharge) × Resolves charged n row root
        × (legal_included_pair row.basis root.basis ≡ true))

lookup-charged_from_other :
    (b : Basis) (m : Dict NormalizedCharge) (rows : List NormalizedCharge)
    → has b (bases rows) ≡ false
    → lookup b (charged_from m rows) ≡ lookup b m
unfolding charged_from has
lookup-charged_from_other b m [] h = refl
lookup-charged_from_other b m (r ∷ rs) h =
    ground (arith, lookup-charged_from_other b (insert r.basis r m) rs, lookup-insert r.basis b r m)

-- In the map of rows with distinct bases every row is found under its basis.
pub lookup-charged_from :
    (m : Dict NormalizedCharge) (rows : List NormalizedCharge)
    → IsDistinct (bases rows)
    → All (λ r. lookup r.basis (charged_from m rows) ≡ some r) rows
unfolding charged_from
lookup-charged_from m [] d = tt
lookup-charged_from m (r ∷ rs) d = (here, lookup-charged_from (insert r.basis r m) rs d.1)
  where
    here : lookup r.basis (charged_from (insert r.basis r m) rs) ≡ some r
    here =
        lookup-charged_from_other r.basis (insert r.basis r m) rs d.0
        ∙ (ground (arith, lookup-insert r.basis r.basis r m, eq_iff r.basis r.basis))

-- The test of the root that the walk found.
check_root : Basis → NormalizedCharge → Result Error (Unit {0})
check_root detail root = fail_if (not (legal_included_pair detail root.basis)) Error.illegal_root

check_root_iff :
    (detail : Basis) (root : NormalizedCharge)
    → (check_root detail root ≡ ok tt) ↔ (legal_included_pair detail root.basis ≡ true)
unfolding check_root
check_root_iff detail root = (λ h. ground arith, λ h. ground arith)

check_included-some :
    (charged : Dict NormalizedCharge) (row : NormalizedCharge) {b : Basis}
    → row.included_in ≡ some b
    → check_included charged row
      ≡ (climb (suc (length charged)) charged (row.basis ∷ []) row >>= check_root row.basis)
unfolding check_included check_root
check_included-some charged row e = rw e

check_included_iff :
    (charged : Dict NormalizedCharge) (row : NormalizedCharge)
    → lookup row.basis charged ≡ some row
    → (check_included charged row ≡ ok tt) ↔ IsWellIncluded charged row
check_included_iff charged row found = elim (Option-cases row.included_in) [
  | inl n ↦ (λ h. inl n, λ h. unfold check_included in ground arith)
  | inr (b, s) ↦ (there s, back s)
]
  where
    there :
        {b : Basis}
        → row.included_in ≡ some b
        → check_included charged row ≡ ok tt
        → IsWellIncluded charged row
    there s h =
        let (root, walked, legal) =
          >>=-eq-ok (climb (suc (length charged)) charged (row.basis ∷ []) row)
            (check_root row.basis) (sym (check_included-some charged row s) ∙ h) in
        let (n, r) = climb_sound (suc (length charged)) charged (row.basis ∷ []) row root walked in
        inr (n, root, r, (check_root_iff row.basis root).0 legal)

    back :
        {b : Basis}
        → row.included_in ≡ some b
        → IsWellIncluded charged row
        → check_included charged row ≡ ok tt
    back s (inl e) = absurd (cc)
    back s (inr (n, root, r, legal)) =
        rw (check_included-some charged row s, climb_at_row charged found r)
          ((check_root_iff row.basis root).1 legal)

check_all_included_iff :
    (charged : Dict NormalizedCharge) (rows : List NormalizedCharge)
    → All (λ r. lookup r.basis charged ≡ some r) rows
    → (check_all_included charged rows ≡ ok tt) ↔ All (IsWellIncluded charged) rows
unfolding check_all_included
check_all_included_iff charged [] found = (λ h. tt, λ h. refl)
check_all_included_iff charged (r ∷ rs) found = (
  λ h.
      let (u, first, others) =
        >>=-eq-ok (check_included charged r) (λ _. check_all_included charged rs) h in
      (
        (check_included_iff charged r found.0).0 first,
        (check_all_included_iff charged rs found.1).0 others,
      ),
  λ h.
      rw ((check_included_iff charged r found.0).1 h.0)
        ((check_all_included_iff charged rs found.1).1 h.1),
)

contains-charged_from :
    (b : Basis) (m : Dict NormalizedCharge) (rows : List NormalizedCharge)
    → contains b (charged_from m rows) ≡ (has b (bases rows) || contains b m)
unfolding charged_from has
contains-charged_from b m [] = refl
contains-charged_from b m (r ∷ rs) =
    ground (arith, contains-charged_from b (insert r.basis r m) rs, contains-insert r.basis b r m)

check_disjoint_iff :
    (rows : List NormalizedCharge) (bs : List Basis)
    → (check_disjoint (charged_from [] rows) bs ≡ ok tt) ↔ All (λ b. has b (bases rows) ≡ false) bs
unfolding check_disjoint contains lookup
check_disjoint_iff rows [] = (λ h. tt, λ h. refl)
check_disjoint_iff rows (b ∷ bs) = (
  λ h. ground (arith, contains-charged_from b [] rows, check_disjoint_iff rows bs),
  λ h. ground (arith, contains-charged_from b [] rows, check_disjoint_iff rows bs),
)

-- Over rows with distinct bases `validateIncludedChargeGraph` accepts exactly the graphs in which no
-- inapplicable basis is charged, and every row that is included in another resolves, without a cycle,
-- to a charged root of which it is a legal detail.
pub validate_included_charge_graph_iff :
    (rows : List NormalizedCharge) (inapplicable : List Basis)
    → IsDistinct (bases rows)
    → (validate_included_charge_graph rows inapplicable ≡ ok tt) ↔ (
        All (λ b. has b (bases rows) ≡ false) inapplicable
        × All (IsWellIncluded (charged_from [] rows)) rows)
unfolding validate_included_charge_graph
validate_included_charge_graph_iff rows inapplicable d =
    let disjoint = check_disjoint_iff rows inapplicable in
    let included =
      check_all_included_iff (charged_from [] rows) rows (lookup-charged_from [] rows d) in
    (
      λ h.
          let (u, first, others) =
            >>=-eq-ok (check_disjoint (charged_from [] rows) inapplicable)
              (λ _. check_all_included (charged_from [] rows) rows) h in
          (disjoint.0 first, included.0 others),
      λ h. rw (disjoint.1 h.0) (included.1 h.1),
    )
