-- ===== src/Quality/Tables/Measures.antt =====
-- What EditDistance and lcsLen of internal/qualityengine/qualityengine.go measure.
use ai_finops_operator.Prelude.{
  ◌≡◌, refl, sym, ap, ◌∙◌, ℕ, ◌+◌, ◌≤◌, max, Bool, true, List, [], ◌∷◌, length, arith, Bool-cases,
  ◌↔◌, inl, inr,
}
use ai_finops_operator.Quality.Tables.{edit_cell, lcs_cell, rune_distance, lcs_len}
use ai_finops_operator.Quality.Tables.Filled.{value, reversed_twice, reversed, last-rows}

module _ {A : Type 0} (same : A → A → Bool) where
  -- The Levenshtein distance and the length of a longest common subsequence, by recursion on the
  -- ends of the texts.
  abbrev pub levenshtein : List A → List A → ℕ
  levenshtein = value same edit_cell (λ n. n)

  abbrev pub common : List A → List A → ℕ
  common = value same lcs_cell (λ n. 0)

  length-reversed : (xs acc : List A) → length (reversed xs acc) ≡ length xs + length acc
  length-reversed [] acc = omega arith
  length-reversed (x ∷ xs) acc = omega (arith, length-reversed xs (x ∷ acc))

  pub levenshtein_nil : (x : List A) → levenshtein x [] ≡ length x
  unfolding value
  levenshtein_nil [] = refl
  levenshtein_nil (a ∷ x) = omega arith

  -- `EditDistance` on the runes of two texts is their Levenshtein distance by recursion on the ends
  -- of the texts, which are therefore reversed.
  pub rune_distance-levenshtein :
      (as' bs : List A) → rune_distance same as' bs ≡ levenshtein (reversed as' []) (reversed bs [])
  unfolding rune_distance value
  rune_distance-levenshtein [] bs = omega (arith, length-reversed bs [])
  rune_distance-levenshtein (a ∷ as') [] =
      omega (arith, levenshtein_nil (reversed (a ∷ as') []), length-reversed (a ∷ as') [])
  rune_distance-levenshtein (a ∷ as') (b ∷ bs) =
      last-rows same edit_cell (λ n. n) (a ∷ as') (b ∷ bs)

  -- `lcsLen` is the length of a longest common subsequence by recursion on the ends of the texts,
  -- which are therefore reversed.
  pub lcs_len-common :
      (as' bs : List A) → lcs_len same as' bs ≡ common (reversed as' []) (reversed bs [])
  unfolding lcs_len
  lcs_len-common as' bs = last-rows same lcs_cell (λ n. 0) as' bs

  levenshtein_bounds :
      (x y : List A)
      → (levenshtein x y ≤ max (length x) (length y))
        × (length x ≤ levenshtein x y + length y)
        × (length y ≤ levenshtein x y + length x)
  unfolding value
  levenshtein_bounds [] y = ground arith
  levenshtein_bounds (a ∷ x) [] = ground arith
  levenshtein_bounds (a ∷ x) (b ∷ y) =
      ground
        (arith, levenshtein_bounds (a ∷ x) y, levenshtein_bounds x (b ∷ y), levenshtein_bounds x y)

  common_bounds : (x y : List A) → (common x y ≤ length x) × (common x y ≤ length y)
  unfolding value
  common_bounds [] y = ground arith
  common_bounds (a ∷ x) [] = ground arith
  common_bounds (a ∷ x) (b ∷ y) =
      ground (arith, common_bounds (a ∷ x) y, common_bounds x (b ∷ y), common_bounds x y)

  -- `EditDistance` is at most the length of the longer text, so that a similarity computed from it
  -- is never negative, and at least the difference of the lengths.
  pub rune_distance_bounds :
      (as' bs : List A)
      → (rune_distance same as' bs ≤ max (length as') (length bs))
        × (length as' ≤ rune_distance same as' bs + length bs)
        × (length bs ≤ rune_distance same as' bs + length as')
  rune_distance_bounds as' bs = ground (
    arith,
    rune_distance-levenshtein as' bs,
    levenshtein_bounds (reversed as' []) (reversed bs []),
    length-reversed as' [],
    length-reversed bs [],
  )

  -- `lcsLen` is at most the length of either text, so that neither the precision nor the recall
  -- computed from it is above one.
  pub lcs_len_bounds :
      (as' bs : List A) → (lcs_len same as' bs ≤ length as') × (lcs_len same as' bs ≤ length bs)
  lcs_len_bounds as' bs = ground (
    arith,
    lcs_len-common as' bs,
    common_bounds (reversed as' []) (reversed bs []),
    length-reversed as' [],
    length-reversed bs [],
  )

  levenshtein-zero : (x : List A) → ((a : A) → same a a ≡ true) → levenshtein x x ≡ 0
  unfolding value
  levenshtein-zero [] h = refl
  levenshtein-zero (a ∷ x) h = ground (arith, h a, levenshtein-zero x h)

  levenshtein_apart :
      (x y : List A) → ((a b : A) → same a b ≡ true → a ≡ b) → levenshtein x y ≡ 0 → x ≡ y
  unfolding value
  levenshtein_apart [] [] h e = refl
  levenshtein_apart [] (b ∷ y) h e = ground arith
  levenshtein_apart (a ∷ x) [] h e = ground arith
  levenshtein_apart (a ∷ x) (b ∷ y) h e = elim (Bool-cases (same a b)) [
    | inl q ↦
        let rest : levenshtein x y ≡ 0 = ground (arith, q, e) in
        cc (h a b q, levenshtein_apart x y h rest)
    | inr q ↦ ground (arith, q, e)
  ]

  reversed_injective : (xs ys : List A) → reversed xs [] ≡ reversed ys [] → xs ≡ ys
  reversed_injective xs ys h =
      sym (reversed_twice xs []) ∙ ap (λ r. reversed r []) h ∙ reversed_twice ys []

  -- If `same` decides equality, `EditDistance` is zero exactly on equal texts.
  pub rune_distance_zero_iff :
      (as' bs : List A)
      → ((a b : A) → same a b ≡ true ↔ (a ≡ b))
      → (rune_distance same as' bs ≡ 0) ↔ (as' ≡ bs)
  rune_distance_zero_iff as' bs h = (
    (λ e. reversed_injective as' bs (
        levenshtein_apart (reversed as' []) (reversed bs []) (λ a b. (h a b).0)
          (sym (rune_distance-levenshtein as' bs) ∙ e))),
    (λ e.
        rune_distance-levenshtein as' bs
        ∙ ap (λ ys. levenshtein (reversed as' []) (reversed ys [])) (sym e)
        ∙ levenshtein-zero (reversed as' []) (λ a. (h a a).1 refl)),
  )
