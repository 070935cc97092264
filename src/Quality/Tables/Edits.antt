-- ===== src/Quality/Tables/Edits.antt =====
-- What EditDistance of internal/qualityengine/qualityengine.go measures: how few edits turn one text
-- into the other.
use ai_finops_operator.Prelude.{
  ◌≡◌, refl, subst, ℕ, ◌+◌, ◌≤◌, ◌⊎◌, Bool, true, List, [], ◌∷◌, arith, inl, inr,
}
use ai_finops_operator.Quality.Tables.{edit_cell, rune_distance}
use ai_finops_operator.Quality.Tables.Filled.{value, reversed, reversed_twice}
use ai_finops_operator.Quality.Tables.Measures.{
  levenshtein, levenshtein_nil, rune_distance-levenshtein,
}

-- Which of the three edits a cell chooses.
edit_cell-cases :
    (s : Bool) (left up corner : ℕ)
    → (edit_cell s left up corner ≡ left + 1)
      ⊎ (edit_cell s left up corner ≡ up + 1)
      ⊎ (s ≡ true) × (edit_cell s left up corner ≡ corner)
      ⊎ (edit_cell s left up corner ≡ corner + 1)
edit_cell-cases s left up corner = ground arith

module _ {A : Type 0} (same : A → A → Bool) where
  -- A way to turn one text into another, element by element from the front.
  pub data Edits : List A → List A → Type 0 where
    done : Edits [] []
    keep : {a b : A} {x y : List A} → same a b ≡ true → Edits x y → Edits (a ∷ x) (b ∷ y)
    substitute : {a b : A} {x y : List A} → Edits x y → Edits (a ∷ x) (b ∷ y)
    insert : {b : A} {x y : List A} → Edits x y → Edits x (b ∷ y)
    delete : {a : A} {x y : List A} → Edits x y → Edits (a ∷ x) y

  -- Keeping an element is free.
  unfoldable pub edit_count : {x y : List A} → Edits x y → ℕ
  edit_count done = 0
  edit_count (keep h e) = edit_count e
  edit_count (substitute e) = edit_count e + 1
  edit_count (insert e) = edit_count e + 1
  edit_count (delete e) = edit_count e + 1

  levenshtein-le-edit_count : {x y : List A} (e : Edits x y) → levenshtein same x y ≤ edit_count e
  unfolding value edit_count
  levenshtein-le-edit_count done = omega arith
  levenshtein-le-edit_count (keep h e) = ground (arith, h, levenshtein-le-edit_count e)
  levenshtein-le-edit_count (substitute e) = ground (arith, levenshtein-le-edit_count e)
  levenshtein-le-edit_count (insert {x = []} e) = omega (arith, levenshtein-le-edit_count e)
  levenshtein-le-edit_count (insert {x = a ∷ x} e) = ground (arith, levenshtein-le-edit_count e)
  levenshtein-le-edit_count (delete {x = x} {y = []} e) =
      omega (arith, levenshtein-le-edit_count e, levenshtein_nil same x)
  levenshtein-le-edit_count (delete {y = b ∷ y} e) = ground (arith, levenshtein-le-edit_count e)

  IsCounted : List A → List A → ℕ → Type 0
  IsCounted x y n = (e : Edits x y) × (edit_count e ≡ n)

  levenshtein_attained : (x y : List A) → IsCounted x y (levenshtein same x y)
  unfolding value edit_count IsCounted
  levenshtein_attained [] [] = (done, refl)
  levenshtein_attained [] (b ∷ y) =
      let (e, h) = levenshtein_attained [] y in (insert e, omega (arith, h))
  levenshtein_attained (a ∷ x) [] =
      let (e, h) = levenshtein_attained x [] in (delete e, omega (arith, h, levenshtein_nil same x))
  levenshtein_attained (a ∷ x) (b ∷ y) =
      elim (edit_cell-cases (same a b) (levenshtein same (a ∷ x) y) (levenshtein same x (b ∷ y))
        (levenshtein same x y)) [
          | inl h ↦ let (e, k) = levenshtein_attained (a ∷ x) y in (insert e, omega (arith, h, k))
          | inr (inl h) ↦
              let (e, k) = levenshtein_attained x (b ∷ y) in (delete e, omega (arith, h, k))
          | inr (inr (inl (q, h))) ↦
              let (e, k) = levenshtein_attained x y in (keep q e, omega (arith, h, k))
          | inr (inr (inr h)) ↦
              let (e, k) = levenshtein_attained x y in (substitute e, omega (arith, h, k))
        ]

  -- The edits of two texts, done from the back, after those of what follows.
  Edits-back :
      {x y u v : List A} (e : Edits x y) (f : Edits u v)
      → IsCounted (reversed x u) (reversed y v) (edit_count e + edit_count f)
  unfolding edit_count IsCounted
  Edits-back done f = (f, omega arith)
  Edits-back (keep h e) f = Edits-back e (keep h f)
  Edits-back (substitute e) f = let (g, k) = Edits-back e (substitute f) in (g, omega (arith, k))
  Edits-back (insert e) f = let (g, k) = Edits-back e (insert f) in (g, omega (arith, k))
  Edits-back (delete e) f = let (g, k) = Edits-back e (delete f) in (g, omega (arith, k))

  -- `n` is the least number of edits.
  abbrev pub IsLeastCount : List A → List A → ℕ → Type 0
  IsLeastCount x y n = ((e : Edits x y) × (edit_count e ≡ n)) × ((e : Edits x y) → n ≤ edit_count e)

  pub rune_distance-IsLeastCount : (x y : List A) → IsLeastCount x y (rune_distance same x y)
  unfolding IsCounted edit_count
  rune_distance-IsLeastCount x y =
      let (e, h) = levenshtein_attained (reversed x []) (reversed y []) in
      let (f, k) = Edits-back e done in
      (
        subst (λ z. IsCounted z y (rune_distance same x y)) (reversed_twice x [])
            (subst (λ z. IsCounted (reversed (reversed x []) []) z (rune_distance same x y))
              (reversed_twice y []) (f, omega (arith, h, k, rune_distance-levenshtein same x y))),
        (λ g.
            let (b, m) = Edits-back g done in
            omega (arith, m, levenshtein-le-edit_count b, rune_distance-levenshtein same x y)),
      )
