-- ===== src/Quality/Tables/Filled.antt =====
-- What the tables of internal/qualityengine/qualityengine.go hold: the value of the recursive
-- definition at each pair of beginnings.
use ai_finops_operator.Prelude.{◌≡◌, refl, ap, ◌∙◌, ℕ, ◌+◌, Bool, List, [], ◌∷◌, length, arith}
use ai_finops_operator.Quality.Tables.{Cell, fill, rows, first_row, last}

-- `xs`, reversed, before `acc`.
abbrev pub reversed : {A : Type 0} → List A → List A → List A
reversed [] acc = acc
reversed (x ∷ xs) acc = reversed xs (x ∷ acc)

pub reversed_twice :
    {A : Type 0} (xs acc : List A) → reversed (reversed xs acc) [] ≡ reversed acc xs
reversed_twice [] acc = refl
reversed_twice (x ∷ xs) acc = reversed_twice xs (x ∷ acc)

module _ {A : Type 0} (same : A → A → Bool) (cell : Cell) (edge : ℕ → ℕ) where
  -- The recursive definition, on beginnings that are written from their ends.
  unfoldable pub value : List A → List A → ℕ
  value [] y = edge (length y)
  value (a ∷ x) [] = edge (length x + 1)
  value (a ∷ x) (b ∷ y) = cell (same a b) (value (a ∷ x) y) (value x (b ∷ y)) (value x y)

  -- The row of `x` after the column of `y`, over the rest of the columns.
  entries : List A → List A → List A → List ℕ
  entries x y [] = []
  entries x y (b ∷ bs) = value x (b ∷ y) ∷ entries x (b ∷ y) bs

  fill-entries :
      (a : A) (x y bs : List A)
      → fill same cell a bs (value x y ∷ entries x y bs) (value (a ∷ x) y) ≡ entries (a ∷ x) y bs
  unfolding fill entries value
  fill-entries a x y [] = refl
  fill-entries a x y (b ∷ bs) = ap (λ r. value (a ∷ x) (b ∷ y) ∷ r) (fill-entries a x (b ∷ y) bs)

  -- The first row is the row of the empty beginning.
  first_row-entries :
      (y bs : List A) (j : ℕ) → j ≡ length y → first_row edge bs j ≡ value [] y ∷ entries [] y bs
  unfolding first_row entries value
  first_row-entries y [] j h = ap (λ n. edge n ∷ []) h
  first_row-entries y (b ∷ bs) j h = cc (h, first_row-entries (b ∷ y) bs (j + 1) (omega (arith, h)))

  first_entry : (a : A) (x : List A) (i : ℕ) → i ≡ length x → edge (i + 1) ≡ value (a ∷ x) []
  unfolding value
  first_entry a x i h = ap (λ n. edge (n + 1)) h

  -- Each round of the outer loop yields the row of the beginning that is one longer.
  rows-entries :
      (as' bs x : List A) (i : ℕ)
      → i ≡ length x
      → rows same cell edge as' bs i (value x [] ∷ entries x [] bs)
        ≡ value (reversed as' x) [] ∷ entries (reversed as' x) [] bs
  unfolding rows
  rows-entries [] bs x i h = refl
  rows-entries (a ∷ as') bs x i h =
      ap
        (λ n.
          rows same cell edge as' bs (i + 1)
            (n ∷ fill same cell a bs (value x [] ∷ entries x [] bs) n))
        (first_entry a x i h)
      ∙ ap (λ r. rows same cell edge as' bs (i + 1) (value (a ∷ x) [] ∷ r)) (fill-entries a x [] bs)
      ∙ rows-entries as' bs (a ∷ x) (i + 1) (omega (arith, h))

  last-entries : (x y bs : List A) → last (value x y ∷ entries x y bs) ≡ value x (reversed bs y)
  unfolding last entries
  last-entries x y [] = refl
  last-entries x y (b ∷ bs) = last-entries x (b ∷ y) bs

  -- The last entry of the last row is the value of the whole texts, which are reversed since a
  -- beginning is written from its end.
  pub last-rows :
      (as' bs : List A)
      → last (rows same cell edge as' bs 0 (first_row edge bs 0))
        ≡ value (reversed as' []) (reversed bs [])
  last-rows as' bs =
      ap (λ r. last (rows same cell edge as' bs 0 r)) (first_row-entries [] bs 0 refl)
      ∙ ap last (rows-entries as' bs [] 0 refl)
      ∙ last-entries (reversed as' []) [] bs
