-- ===== src/Quality/Tokens/Overlap.antt =====
-- The counts of matching tokens in internal/qualityengine/qualityengine.go.
use ai_finops_operator.Prelude.{
  ◌≡◌, refl, sym, subst, ℕ, ◌+◌, ◌≤◌, String, Bool, true, false, not, ◌&&◌, List, [], ◌∷◌, length,
  arith, Bool-cases, inl, inr, eq_iff, if◌then◌else◌,
}
use ai_finops_operator.Quality.Tokens.{
  is_among, unique_from, unique_tokens, Candidates, match_token, overlap_from, unmatched, overlap,
}

-- The candidates that are still to be matched.
open_count : Candidates → ℕ
open_count [] = 0
open_count ((c, matched) ∷ cs) = (if matched then 0 else 1) + open_count cs

-- A token uses up one candidate if it counts, and none if it does not.
match_token-open_count :
    (token : String) (cs : Candidates)
    → ((match_token token cs).1 + open_count (match_token token cs).0 ≡ open_count cs)
      × ((match_token token cs).1 ≤ 1)
unfolding match_token open_count
match_token-open_count token [] = ground arith
match_token-open_count token ((c, matched) ∷ cs) = ground (arith, match_token-open_count token cs)

overlap_from_bounds :
    (ts : List String) (cs : Candidates)
    → (overlap_from ts cs ≤ length ts) × (overlap_from ts cs ≤ open_count cs)
unfolding overlap_from
overlap_from_bounds [] cs = ground arith
overlap_from_bounds (t ∷ ts) cs =
    ground (arith, match_token-open_count t cs, overlap_from_bounds ts (match_token t cs).0)

open_count-unmatched : (ts : List String) → open_count (unmatched ts) ≡ length ts
unfolding open_count unmatched
open_count-unmatched [] = refl
open_count-unmatched (t ∷ ts) = omega (arith, open_count-unmatched ts)

-- The overlap that TokenF1Score counts is at most the number of reference tokens and at most the
-- number of candidate tokens, so that neither precision nor recall is above one.
pub overlap_bounds :
    (ref cand : List String) → (overlap ref cand ≤ length ref) × (overlap ref cand ≤ length cand)
unfolding overlap
overlap_bounds ref cand =
    ground (arith, overlap_from_bounds ref (unmatched cand), open_count-unmatched cand)

-- No token stands twice.
abbrev pub IsDistinct : List String → Type 0
IsDistinct [] = Unit
IsDistinct (t ∷ ts) = (is_among ts t ≡ false) × IsDistinct ts

unique_from-is_among :
    (seen ts : List String) (k : String)
    → is_among (unique_from seen ts) k ≡ (is_among ts k && not (is_among seen k))
unfolding unique_from is_among
unique_from-is_among seen [] k = refl
unique_from-is_among seen (t ∷ ts) k =
    ground (arith, unique_from-is_among seen ts k, unique_from-is_among (t ∷ seen) ts k, eq_iff t k)

unique_from-IsDistinct : (seen ts : List String) → IsDistinct (unique_from seen ts)
unfolding unique_from is_among
unique_from-IsDistinct seen [] = tt
unique_from-IsDistinct seen (t ∷ ts) = elim (Bool-cases (is_among seen t)) [
  | inl h ↦ subst IsChosen (sym h) (unique_from-IsDistinct seen ts)
  | inr h ↦ subst IsChosen (sym h) (fresh, unique_from-IsDistinct (t ∷ seen) ts)
]
  where
    IsChosen : Bool → Type 0
    IsChosen b =
        IsDistinct (elim b [ true ↦ unique_from seen ts | false ↦ t ∷ unique_from (t ∷ seen) ts ])

    fresh : is_among (unique_from (t ∷ seen) ts) t ≡ false
    fresh = ground (arith, unique_from-is_among (t ∷ seen) ts t, eq_iff t t)

-- `uniqueTokens` keeps every token, once each, and adds none.
pub unique_tokens-IsDistinct :
    (ts : List String)
    → IsDistinct (unique_tokens ts) × ((k : String) → is_among (unique_tokens ts) k ≡ is_among ts k)
unfolding unique_tokens is_among
unique_tokens-IsDistinct ts =
    (unique_from-IsDistinct [] ts, (λ k. ground (arith, unique_from-is_among [] ts k)))
