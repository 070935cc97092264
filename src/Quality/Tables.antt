-- ===== src/Quality/Tables.antt =====
-- The two tables of internal/qualityengine/qualityengine.go: EditDistance and lcsLen, row by row.
pub mod Filled
pub mod Measures
pub mod Edits
pub mod Common
pub mod Texts
use Prim.Native.Char.{code}
use ai_finops_operator.Prelude.{
  ℕ, eqb, String, suc, ◌+◌, min, leb, Bool, ◌&&◌, List, [], ◌∷◌, if◌then◌else◌, length,
}
use ai_finops_operator.Quality.Tokens.{Unicode, normalize_text}

-- min3
abbrev pub min3 : ℕ → ℕ → ℕ → ℕ
min3 a b c = if leb a b && leb a c then a else if leb b a && leb b c then b else c

-- An entry of a table from the one on its left, the one above it and the one above that on the left,
-- and whether the two elements are the same.
abbrev pub Cell : Type 0
Cell = Bool → (left up corner : ℕ) → ℕ

abbrev pub edit_cell : Cell
edit_cell same left up corner = min3 (left + 1) (up + 1) (corner + (if same then 0 else 1))

abbrev pub lcs_cell : Cell
lcs_cell same left up corner = if same then corner + 1 else if leb left up then up else left

module _ {A : Type 0} (same : A → A → Bool) (cell : Cell) where
  -- The inner loop: the entries of a row after its first one, from the row above.
  unfoldable pub fill : A → List A → (above : List ℕ) → (left : ℕ) → List ℕ
  fill a [] above left = []
  fill a (b ∷ bs) [] left = []
  fill a (b ∷ bs) (p ∷ []) left = []
  fill a (b ∷ bs) (p ∷ q ∷ above) left =
      let v = cell (same a b) left q p in v ∷ fill a bs (q ∷ above) v

  -- The outer loop, from the row of number `i`; `edge` is the first entry of a row.
  unfoldable pub rows : (ℕ → ℕ) → List A → List A → (i : ℕ) → List ℕ → List ℕ
  rows edge [] bs i above = above
  rows edge (a ∷ as') bs i above =
      rows edge as' bs (i + 1) (edge (i + 1) ∷ fill a bs above (edge (i + 1)))

-- The first row, from the column of number `j`.
unfoldable pub first_row : {A : Type 0} → (ℕ → ℕ) → List A → (j : ℕ) → List ℕ
first_row edge [] j = edge j ∷ []
first_row edge (b ∷ bs) j = edge j ∷ first_row edge bs (j + 1)

unfoldable pub last : List ℕ → ℕ
last [] = 0
last (n ∷ []) = n
last (n ∷ m ∷ ns) = last (m ∷ ns)

module _ {A : Type 0} (same : A → A → Bool) where
  -- EditDistance after the texts are normalized.
  unfoldable pub rune_distance : List A → List A → ℕ
  rune_distance [] bs = length bs
  rune_distance (a ∷ as') [] = length (a ∷ as')
  rune_distance (a ∷ as') (b ∷ bs) =
      last (rows same edit_cell (λ n. n) (a ∷ as') (b ∷ bs) 0 (first_row (λ n. n) (b ∷ bs) 0))

  -- lcsLen
  unfoldable pub lcs_len : List A → List A → ℕ
  lcs_len as' bs = last (rows same lcs_cell (λ n. 0) as' bs 0 (first_row (λ n. 0) bs 0))

-- The characters of a text, `[]rune(s)`, as code points.
unfoldable pub runes : String → List ℕ
runes String.[] = []
runes (String.◌∷◌ c s) = code c ∷ runes s

-- EditDistance
unfoldable pub edit_distance : Unicode → String → String → ℕ
edit_distance u a b = rune_distance eqb (runes (normalize_text u a)) (runes (normalize_text u b))
