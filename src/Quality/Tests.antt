-- ===== src/Quality/Tests.antt =====
-- Runs of the text measures, and the theorems applied to them.
use Prim.Native.Char.{code}
use ai_finops_operator.Prelude.{
  ◌≡◌, ◌↔◌, refl, ◌+◌, ◌≤◌, max, leb, eqb, String, ◌&&◌, ◌==◌, List, [], ◌∷◌, length, All, trim,
  translate, is_space, reverse_onto, join,
}
use ai_finops_operator.Quality.Tables.{
  edit_distance, rune_distance, runes, lcs_len, rows, fill, first_row, last,
}
use ai_finops_operator.Quality.Tables.Edits.{IsLeastCount}
use ai_finops_operator.Quality.Tables.Common.{IsLongest, lcs_len-IsLongest}
use ai_finops_operator.Quality.Tables.Texts.{
  edit_distance-IsLeastCount, edit_distance_bounds, edit_distance_zero_iff,
}
use ai_finops_operator.Quality.Tables.Measures.{lcs_len_bounds}
use ai_finops_operator.Quality.Tokens.{
  Unicode, tokenize, normalize_text, lower_runes, fold_latin, collapse, fields, overlap,
  unique_tokens, coverage, is_among,
}
use ai_finops_operator.Quality.Tokens.Overlap.{overlap_bounds, IsDistinct, unique_tokens-IsDistinct}
use ai_finops_operator.Quality.Tokens.Coverage.{IsCovered, coverage_full_iff}

-- The letters of ASCII.
abbrev ascii : Unicode
ascii = record {
  to_lower_rune = λ c. c;
  is_letter = λ c. leb 97 (code c) && leb (code c) 122;
  is_digit = λ c. leb 48 (code c) && leb (code c) 57;
}

tokens-example : tokenize ascii "  cap-rate: 42%, ok" ≡ "cap" ∷ "rate" ∷ "42" ∷ "ok" ∷ []
unfolding tokenize fold_latin lower_runes trim translate fields collapse is_space reverse_onto
tokens-example = refl

abbrev kitten : String
kitten = "kitten!"

abbrev sitting : String
sitting = "sitting"

kitten-distance : edit_distance ascii kitten sitting ≡ 3
unfolding edit_distance rune_distance runes rows fill first_row last normalize_text tokenize
    fold_latin lower_runes trim translate fields collapse is_space reverse_onto join
kitten-distance = refl

edit_distance-IsLeastCount_example :
    IsLeastCount eqb
      (runes (normalize_text ascii kitten))
      (runes (normalize_text ascii sitting))
      (edit_distance ascii kitten sitting)
edit_distance-IsLeastCount_example = edit_distance-IsLeastCount ascii kitten sitting

edit_distance_bounds_example :
    (edit_distance ascii kitten sitting
      ≤ max
          (length (runes (normalize_text ascii kitten)))
          (length (runes (normalize_text ascii sitting))))
    × (length (runes (normalize_text ascii kitten))
        ≤ edit_distance ascii kitten sitting + length (runes (normalize_text ascii sitting)))
    × (length (runes (normalize_text ascii sitting))
        ≤ edit_distance ascii kitten sitting + length (runes (normalize_text ascii kitten)))
edit_distance_bounds_example = edit_distance_bounds ascii kitten sitting

edit_distance_zero_iff_example :
    (edit_distance ascii kitten "  kitten" ≡ 0)
    ↔ (normalize_text ascii kitten ≡ normalize_text ascii "  kitten")
edit_distance_zero_iff_example = edit_distance_zero_iff ascii kitten "  kitten"

-- Two texts as tokens.
abbrev letters : List String
letters = "k" ∷ "i" ∷ "t" ∷ "t" ∷ "e" ∷ "n" ∷ []

abbrev others : List String
others = "s" ∷ "i" ∷ "t" ∷ "t" ∷ "i" ∷ "n" ∷ "g" ∷ []

letters-common : lcs_len ◌==◌ letters others ≡ 4
unfolding lcs_len rows fill first_row last
letters-common = refl

lcs_len-IsLongest_example : IsLongest ◌==◌ letters others (lcs_len ◌==◌ letters others)
lcs_len-IsLongest_example = lcs_len-IsLongest ◌==◌ letters others

lcs_len_bounds_example :
    (lcs_len ◌==◌ letters others ≤ length letters) × (lcs_len ◌==◌ letters others ≤ length others)
lcs_len_bounds_example = lcs_len_bounds ◌==◌ letters others

abbrev reference : List String
reference = "rate" ∷ "rates" ∷ "limit" ∷ []

abbrev candidate : List String
candidate = "rates" ∷ "cap" ∷ []

overlap_bounds_example :
    (overlap reference candidate ≤ length reference)
    × (overlap reference candidate ≤ length candidate)
overlap_bounds_example = overlap_bounds reference candidate

unique_tokens-IsDistinct_example :
    IsDistinct (unique_tokens ("a" ∷ "b" ∷ "a" ∷ []))
    × ((k : String)
        → is_among (unique_tokens ("a" ∷ "b" ∷ "a" ∷ [])) k ≡ is_among ("a" ∷ "b" ∷ "a" ∷ []) k)
unique_tokens-IsDistinct_example = unique_tokens-IsDistinct ("a" ∷ "b" ∷ "a" ∷ [])

coverage_full_iff_example :
    (coverage candidate reference ≡ length reference) ↔ All (IsCovered candidate) reference
coverage_full_iff_example = coverage_full_iff candidate reference
