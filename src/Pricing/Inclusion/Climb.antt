-- ===== src/Pricing/Inclusion/Climb.antt =====
-- The walk of `validateIncludedChargeGraph` (internal/govarpricing/pricing.go): it ends, and what its
-- answer means in the graph of the charged rows.
use ai_finops_operator.Prelude.{
  ℕ, zero, suc, ◌+◌, ◌≤◌, ◌<◌, ◌≡◌, ◌≢◌, refl, ap, ==-cases, true, false, ◌==◌, List, [], ◌∷◌, none,
  some, if◌then◌else◌, ok, err, length, arith, eq_iff, Bool-cases, Option-cases, inl, inr, subst,
}
use ai_finops_operator.Prelude.Dict.{Dict, lookup}
use ai_finops_operator.Pricing.Types.{Basis, Error, NormalizedCharge}
use ai_finops_operator.Pricing.Usage.{has}
use ai_finops_operator.Pricing.Inclusion.{climb}

-- How many entries of the map have a key that was not visited.
unvisited : Dict NormalizedCharge → List Basis → ℕ
unvisited [] visited = 0
unvisited ((k, _) ∷ m) visited = (if has k visited then 0 else 1) + unvisited m visited

unvisited-cons_le :
    (m : Dict NormalizedCharge) (b : Basis) (visited : List Basis)
    → unvisited m (b ∷ visited) ≤ unvisited m visited
unfolding unvisited has
unvisited-cons_le [] b visited = omega arith
unvisited-cons_le ((k, _) ∷ m) b visited = ground (arith, unvisited-cons_le m b visited)

-- Visiting a key of the map for the first time lowers the count.
unvisited-cons_lt :
    (m : Dict NormalizedCharge) (b : Basis) (r : NormalizedCharge) (visited : List Basis)
    → lookup b m ≡ some r
    → has b visited ≡ false
    → unvisited m (b ∷ visited) < unvisited m visited
unfolding unvisited has lookup
unvisited-cons_lt [] b r visited h n = cc
unvisited-cons_lt ((k, v) ∷ m) b r visited h n =
    ground (
      arith,
      eq_iff k b,
      eq_iff b k,
      unvisited-cons_lt m b r visited,
      unvisited-cons_le m b visited,
    )

unvisited-le-length :
    (m : Dict NormalizedCharge) (visited : List Basis) → unvisited m visited ≤ length m
unfolding unvisited
unvisited-le-length [] visited = omega arith
unvisited-le-length ((k, _) ∷ m) visited = ground (arith, unvisited-le-length m visited)

climb_enough :
    (fuel : ℕ) (charged : Dict NormalizedCharge) (visited : List Basis) (current : NormalizedCharge)
    → unvisited charged visited < fuel
    → climb fuel charged visited current ≢ err Error.out_of_fuel
unfolding climb
climb_enough zero charged visited current h e = absurd (omega arith)
climb_enough (suc fuel) charged visited current h e = elim (Option-cases current.included_in) [
  | inl n ↦ ground arith
  | inr (b, s) ↦ elim (Bool-cases (has b visited)) [
    | inl v ↦ ground arith
    | inr v ↦ elim (Option-cases (lookup b charged)) [
      | inl l ↦ ground arith
      | inr (p, l) ↦
          climb_enough fuel charged (b ∷ visited) p
            (omega (arith, unvisited-cons_lt charged b p visited l v)) (ground arith)
    ]
  ]
]

-- The fuel that the walk is given never runs out: on every graph, cyclic or not, it ends.
pub climb_terminates :
    (charged : Dict NormalizedCharge) (visited : List Basis) (current : NormalizedCharge)
    → climb (suc (length charged)) charged visited current ≢ err Error.out_of_fuel
climb_terminates charged visited current =
    climb_enough (suc (length charged)) charged visited current
      (omega (arith, unvisited-le-length charged visited))

-- From row `r` the inclusions lead in `n` steps to the row `root`, which is included in nothing.
pub data Resolves (charged : Dict NormalizedCharge)
    : ℕ → NormalizedCharge → NormalizedCharge → Type 0 where
  at_root : (r : NormalizedCharge) → r.included_in ≡ none → Resolves charged zero r r
  step :
      {n : ℕ} {r p root : NormalizedCharge} (b : Basis)
      → r.included_in ≡ some b
      → lookup b charged ≡ some p
      → Resolves charged n p root
      → Resolves charged (suc n) r root

pub climb_sound :
    (fuel : ℕ) (charged : Dict NormalizedCharge) (visited : List Basis)
    (current root : NormalizedCharge)
    → climb fuel charged visited current ≡ ok root
    → (n : ℕ) × Resolves charged n current root
unfolding climb
climb_sound zero charged visited current root h = cc
climb_sound (suc fuel) charged visited current root h = elim (Option-cases current.included_in) [
  | inl n ↦ (zero, subst (λ r. Resolves charged zero current r) (ground arith) (at_root current n))
  | inr (b, s) ↦ elim (Bool-cases (has b visited)) [
    | inl v ↦ absurd (ground arith)
    | inr v ↦ elim (Option-cases (lookup b charged)) [
      | inl l ↦ absurd (ground arith)
      | inr (p, l) ↦
          let (n, rest) = climb_sound fuel charged (b ∷ visited) p root (ground arith) in
          (suc n, step b s l rest)
    ]
  ]
]

-- The number of steps is determined by the row.
Resolves-unique :
    {charged : Dict NormalizedCharge} {n m : ℕ} {r p q : NormalizedCharge}
    → Resolves charged n r p
    → Resolves charged m r q
    → n ≡ m
Resolves-unique (at_root r h) (at_root r' k) = refl
Resolves-unique (at_root r h) (step b k l t) = absurd (cc)
Resolves-unique (step b k l t) (at_root r h) = absurd (cc)
Resolves-unique {charged} {q} (step {p = p'} b k l t) (step {n = n'} {p = p''} b' k' l' t') =
    ap suc (Resolves-unique t (subst (λ x. Resolves charged n' x q) same t'))
  where
    parent : b ≡ b'
    parent = cc

    same : p'' ≡ p'
    same = cc

-- A row that resolves is climbed to its root, if the rows visited so far are no nearer to a root.
climb_complete :
    (fuel : ℕ) (charged : Dict NormalizedCharge) (visited : List Basis) {n : ℕ}
    {current root : NormalizedCharge}
    → unvisited charged visited < fuel
    → ((b : Basis) (p q : NormalizedCharge) (m : ℕ)
        → has b visited ≡ true
        → lookup b charged ≡ some p
        → Resolves charged m p q
        → n ≤ m)
    → Resolves charged n current root
    → climb fuel charged visited current ≡ ok root
unfolding climb
climb_complete zero charged visited h far r = absurd (omega arith)
climb_complete (suc fuel) charged visited h far (at_root r e) = ground arith
climb_complete (suc fuel) charged visited {root} h far (step {n} {p} b e l t) =
    elim (Bool-cases (has b visited)) [
      | inl v ↦ absurd (omega (arith, far b p root n v l t))
      | inr v ↦ ground (
        arith,
        climb_complete fuel charged (b ∷ visited)
            (omega (arith, unvisited-cons_lt charged b p visited l v)) (farther v) t,
      )
    ]
  where
    farther :
        has b visited ≡ false
        → (b' : Basis) (p' q : NormalizedCharge) (m : ℕ) → has b' (b ∷ visited) ≡ true
        → lookup b' charged ≡ some p'
        → Resolves charged m p' q
        → n ≤ m
    farther v b' p' q m h' l' r' = elim (==-cases b b') [
      | inl same ↦
          omega (arith, Resolves-unique t (subst (λ x. Resolves charged m x q) (cc (same.0)) r'))
      | inr other ↦ omega (arith, far b' p' q m (old other.1 h') l' r')
    ]
      where
        old : (b == b') ≡ false → has b' (b ∷ visited) ≡ true → has b' visited ≡ true
        old ne h = unfold has in ground arith

-- The walk from a row of the map, as `validateIncludedChargeGraph` starts it, returns exactly the
-- root that the row resolves to.
pub climb_at_row :
    (charged : Dict NormalizedCharge) {n : ℕ} {row root : NormalizedCharge}
    → lookup row.basis charged ≡ some row
    → Resolves charged n row root
    → climb (suc (length charged)) charged (row.basis ∷ []) row ≡ ok root
climb_at_row charged {n} {row} found r =
    climb_complete (suc (length charged)) charged (row.basis ∷ [])
      (omega (arith, unvisited-le-length charged (row.basis ∷ []))) far r
  where
    far :
        (b : Basis) (p q : NormalizedCharge) (m : ℕ)
        → has b (row.basis ∷ []) ≡ true
        → lookup b charged ≡ some p
        → Resolves charged m p q
        → n ≤ m
    far b p q m h l t = elim (==-cases row.basis b) [
      | inl same ↦
          omega (arith, Resolves-unique r (subst (λ x. Resolves charged m x q) (cc (same.0)) t))
      | inr other ↦ absurd (unfold has in ground arith)
    ]
