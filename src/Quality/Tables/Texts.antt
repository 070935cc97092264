-- ===== src/Quality/Tables/Texts.antt =====
-- EditDistance of internal/qualityengine/qualityengine.go on the texts that it is called with.
use text.Mathlib.TextEquality.{Char-path}
use ai_finops_operator.Prelude.{
  ◌≡◌, refl, ap, ℕ, ◌+◌, ◌≤◌, max, eqb, String, true, length, arith, ◌↔◌,
}
use ai_finops_operator.Quality.Tokens.{Unicode, normalize_text}
use ai_finops_operator.Quality.Tables.{runes, edit_distance}
use ai_finops_operator.Quality.Tables.Edits.{IsLeastCount, rune_distance-IsLeastCount}
use ai_finops_operator.Quality.Tables.Measures.{rune_distance_bounds, rune_distance_zero_iff}

-- The code points of a text determine it.
runes_injective : (s t : String) → runes s ≡ runes t → s ≡ t
unfolding runes
runes_injective String.[] String.[] h = refl
runes_injective String.[] (String.◌∷◌ d t) h = cc
runes_injective (String.◌∷◌ c s) String.[] h = cc
runes_injective (String.◌∷◌ c s) (String.◌∷◌ d t) h =
    cc (Char-path c d (cc h), runes_injective s t (cc h))

eqb-equal : (a b : ℕ) → eqb a b ≡ true ↔ (a ≡ b)
eqb-equal a b = (ground arith, ground arith)

module _ (u : Unicode) (a b : String) where
  -- `EditDistance` is the least number of edits that turn the first text, normalized, into the
  -- second one, normalized: some edits of that number do it, and none of fewer.
  pub edit_distance-IsLeastCount :
      IsLeastCount eqb
        (runes (normalize_text u a))
        (runes (normalize_text u b))
        (edit_distance u a b)
  unfolding edit_distance
  edit_distance-IsLeastCount = rune_distance-IsLeastCount eqb _ _

  -- `EditDistance` is at most the number of characters of the longer text, both normalized, so that
  -- a similarity computed from it is never negative, and at least the difference of the two numbers.
  pub edit_distance_bounds :
      (edit_distance u a b
        ≤ max (length (runes (normalize_text u a))) (length (runes (normalize_text u b))))
      × (length (runes (normalize_text u a))
          ≤ edit_distance u a b + length (runes (normalize_text u b)))
      × (length (runes (normalize_text u b))
          ≤ edit_distance u a b + length (runes (normalize_text u a)))
  unfolding edit_distance
  edit_distance_bounds = rune_distance_bounds eqb _ _

  -- `EditDistance` is zero exactly on texts that are normalized to the same text.
  pub edit_distance_zero_iff : (edit_distance u a b ≡ 0) ↔ (normalize_text u a ≡ normalize_text u b)
  unfolding edit_distance
  edit_distance_zero_iff =
      let zero =
        rune_distance_zero_iff eqb (runes (normalize_text u a)) (runes (normalize_text u b))
          eqb-equal in
      ((λ e. runes_injective _ _ (zero.0 e)), (λ e. zero.1 (ap runes e)))
