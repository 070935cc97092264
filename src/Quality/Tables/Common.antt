-- ===== src/Quality/Tables/Common.antt =====
-- What lcsLen of internal/qualityengine/qualityengine.go measures: how long a common subsequence of
-- two texts can be.
use ai_finops_operator.Prelude.{
  ◌≡◌, refl, subst, ℕ, ◌+◌, ◌≤◌, ◌⊎◌, Bool, true, List, [], ◌∷◌, arith, inl, inr,
}
use ai_finops_operator.Quality.Tables.{lcs_cell, lcs_len}
use ai_finops_operator.Quality.Tables.Filled.{value, reversed, reversed_twice}
use ai_finops_operator.Quality.Tables.Measures.{common, lcs_len-common}

-- What a cell chooses.
lcs_cell-cases :
    (s : Bool) (left up corner : ℕ)
    → (s ≡ true) × (lcs_cell s left up corner ≡ corner + 1)
      ⊎ (lcs_cell s left up corner ≡ up)
      ⊎ (lcs_cell s left up corner ≡ left)
lcs_cell-cases s left up corner = ground arith

module _ {A : Type 0} (same : A → A → Bool) where
  -- A common subsequence of two texts, as the elements of each that it skips or takes.
  pub data Subsequence : List A → List A → Type 0 where
    done : Subsequence [] []
    take :
        {a b : A} {x y : List A} → same a b ≡ true → Subsequence x y → Subsequence (a ∷ x) (b ∷ y)
    skip_left : {a : A} {x y : List A} → Subsequence x y → Subsequence (a ∷ x) y
    skip_right : {b : A} {x y : List A} → Subsequence x y → Subsequence x (b ∷ y)

  unfoldable pub taken : {x y : List A} → Subsequence x y → ℕ
  taken done = 0
  taken (take h s) = taken s + 1
  taken (skip_left s) = taken s
  taken (skip_right s) = taken s

  common_nil : (x : List A) → common same x [] ≡ 0
  unfolding value
  common_nil [] = refl
  common_nil (a ∷ x) = refl

  -- One more element on either side makes the value at most one more, and never less.
  IsStep : ℕ → ℕ → Type 0
  IsStep m n = (m ≤ n) × (n ≤ m + 1)

  common_steps :
      (x y : List A)
      → ((a : A) → IsStep (common same x y) (common same (a ∷ x) y))
        × ((b : A) → IsStep (common same x y) (common same x (b ∷ y)))
  unfolding value IsStep
  common_steps [] [] = ((λ a. omega arith), (λ b. omega arith))
  common_steps [] (b ∷ y) = ((λ a. ground (arith, (common_steps [] y).0 a)), (λ c. omega arith))
  common_steps (a ∷ x) [] =
      ((λ c. omega arith), (λ b. ground (arith, (common_steps x []).1 b, common_nil x)))
  common_steps (a ∷ x) (b ∷ y) = (
    (λ c. ground (arith, (common_steps (a ∷ x) y).0 c, (common_steps (a ∷ x) y).1 b)),
    (λ c. ground (arith, (common_steps x (b ∷ y)).1 c, (common_steps x (b ∷ y)).0 a)),
  )

  taken-le-common : {x y : List A} (s : Subsequence x y) → taken s ≤ common same x y
  unfolding value taken IsStep
  taken-le-common done = omega arith
  taken-le-common (take h s) = ground (arith, h, taken-le-common s)
  taken-le-common (skip_left {a} {x} {y} s) =
      omega (arith, taken-le-common s, (common_steps x y).0 a)
  taken-le-common (skip_right {b} {x} {y} s) =
      omega (arith, taken-le-common s, (common_steps x y).1 b)

  IsTaken : List A → List A → ℕ → Type 0
  IsTaken x y n = (s : Subsequence x y) × (taken s ≡ n)

  common_attained : (x y : List A) → IsTaken x y (common same x y)
  unfolding value taken IsTaken
  common_attained [] [] = (done, refl)
  common_attained [] (b ∷ y) = let (s, h) = common_attained [] y in (skip_right s, omega (arith, h))
  common_attained (a ∷ x) [] =
      let (s, h) = common_attained x [] in (skip_left s, omega (arith, h, common_nil x))
  common_attained (a ∷ x) (b ∷ y) =
      elim (lcs_cell-cases (same a b) (common same (a ∷ x) y) (common same x (b ∷ y))
        (common same x y)) [
          | inl (q, h) ↦ let (s, k) = common_attained x y in (take q s, omega (arith, h, k))
          | inr (inl h) ↦
              let (s, k) = common_attained x (b ∷ y) in (skip_left s, omega (arith, h, k))
          | inr (inr h) ↦
              let (s, k) = common_attained (a ∷ x) y in (skip_right s, omega (arith, h, k))
        ]

  -- A common subsequence read from the back, after one of what follows.
  Subsequence-back :
      {x y u v : List A} (s : Subsequence x y) (t : Subsequence u v)
      → IsTaken (reversed x u) (reversed y v) (taken s + taken t)
  unfolding taken IsTaken
  Subsequence-back done t = (t, omega arith)
  Subsequence-back (take h s) t =
      let (r, k) = Subsequence-back s (take h t) in (r, omega (arith, k))
  Subsequence-back (skip_left s) t =
      let (r, k) = Subsequence-back s (skip_left t) in (r, omega (arith, k))
  Subsequence-back (skip_right s) t =
      let (r, k) = Subsequence-back s (skip_right t) in (r, omega (arith, k))

  -- `n` is the length of a longest common subsequence.
  abbrev pub IsLongest : List A → List A → ℕ → Type 0
  IsLongest x y n = ((s : Subsequence x y) × (taken s ≡ n)) × ((s : Subsequence x y) → taken s ≤ n)

  -- `lcsLen` is the length of a longest common subsequence of the two lists of tokens: one has that
  -- length, and none is longer.
  pub lcs_len-IsLongest : (x y : List A) → IsLongest x y (lcs_len same x y)
  unfolding IsTaken taken
  lcs_len-IsLongest x y =
      let (s, h) = common_attained (reversed x []) (reversed y []) in
      let (t, k) = Subsequence-back s done in
      (
        subst (λ z. IsTaken z y (lcs_len same x y)) (reversed_twice x [])
            (subst (λ z. IsTaken (reversed (reversed x []) []) z (lcs_len same x y))
              (reversed_twice y []) (t, omega (arith, h, k, lcs_len-common same x y))),
        (λ r.
            let (b, m) = Subsequence-back r done in
            omega (arith, m, taken-le-common b, lcs_len-common same x y)),
      )
