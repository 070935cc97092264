-- ===== src/Quality/Tokens/Coverage.antt =====
-- Which tokens count as covered: containsSimilarToken and ContentTokenCoverageScore of
-- internal/qualityengine/qualityengine.go.
use Prim.Native.Char.{code}
use Prim.Native.String.{len, ◌++◌}
use text.Mathlib.TextBridge.{IsPrefix}
use text.Mathlib.TextEquality.{Char-path}
use text.Mathlib.TextLemmas.{nil-append, cons-append}
use ai_finops_operator.Prelude.{
  ◌≡◌, ◌⊎◌, ◌↔◌, refl, sym, ap, ◌∙◌, ◌≤◌, String, true, ◌==◌, List, [], ◌∷◌, length, All, ◌∈◌,
  arith, Bool-cases, inl, inr, eq_iff,
}
use ai_finops_operator.Quality.Tokens.{has_prefix, similar_token, contains_similar_token, coverage}

-- Equal, or both of at least four bytes and one of them a beginning of the other.
abbrev pub IsSimilar : String → String → Type 0
IsSimilar a b = (a ≡ b) ⊎ (4 ≤ len a) × (4 ≤ len b) × (IsPrefix b a ⊎ IsPrefix a b)

has_prefix_of : (s t : String) → has_prefix s t ≡ true → IsPrefix t s
unfolding has_prefix
has_prefix_of s String.[] h = (s, nil-append s)
has_prefix_of String.[] (String.◌∷◌ d t) h = cc
has_prefix_of (String.◌∷◌ c s) (String.◌∷◌ d t) h =
    let same : code c ≡ code d = ground (arith, h) in
    let rest : has_prefix s t ≡ true = ground (arith, h) in
    let (r, e) = has_prefix_of s t rest in (r, cons-append d t r ∙ cc (Char-path c d same, e))

has_prefix-append : (s t r : String) → t ++ r ≡ s → has_prefix s t ≡ true
unfolding has_prefix
has_prefix-append s String.[] r h = refl
has_prefix-append String.[] (String.◌∷◌ d t) r h = cc (cons-append d t r, h)
has_prefix-append (String.◌∷◌ c s) (String.◌∷◌ d t) r h =
    let whole : String.◌∷◌ d (t ++ r) ≡ String.◌∷◌ c s = sym (cons-append d t r) ∙ h in
    let same : code c ≡ code d = cc whole in
    ground (arith, same, has_prefix-append s t r (cc whole))

has_prefix_iff : (s t : String) → has_prefix s t ≡ true ↔ IsPrefix t s
has_prefix_iff s t = (has_prefix_of s t, (λ (r, e). has_prefix-append s t r e))

similar_token_iff : (a b : String) → similar_token a b ≡ true ↔ IsSimilar a b
unfolding similar_token
similar_token_iff a b = (
  (λ h. elim (Bool-cases (a == b)) [
    | inl e ↦ inl ((eq_iff a b).0 e)
    | inr e ↦ elim (Bool-cases (has_prefix a b)) [
      | inl p ↦ inr (ground (arith, e, h), ground (arith, e, h), inl ((has_prefix_iff a b).0 p))
      | inr p ↦
          let q : has_prefix b a ≡ true = ground (arith, e, h, p) in
          inr (ground (arith, e, h), ground (arith, e, h), inr ((has_prefix_iff b a).0 q))
    ]
  ]),
  (λ h. elim h [
    | inl e ↦ ground (arith, (eq_iff a b).1 e)
    | inr (m, n, inl p) ↦ ground (arith, m, n, (has_prefix_iff a b).1 p)
    | inr (m, n, inr p) ↦ ground (arith, m, n, (has_prefix_iff b a).1 p)
  ]),
)

-- Some candidate is similar to the token.
abbrev pub IsCovered : List String → String → Type 0
IsCovered cand t = (c : String) × (c ∈ cand) × IsSimilar t c

contains-IsCovered :
    (cand : List String) (t : String) → contains_similar_token cand t ≡ true → IsCovered cand t
unfolding contains_similar_token
contains-IsCovered [] t h = cc
contains-IsCovered (c ∷ cs) t h = elim (Bool-cases (similar_token t c)) [
  | inl e ↦ (c, inl refl, (similar_token_iff t c).0 e)
  | inr e ↦ let (d, m, k) = contains-IsCovered cs t (ground (arith, e, h)) in (d, inr m, k)
]

contains-similar :
    (cand : List String) (t c : String)
    → c ∈ cand
    → similar_token t c ≡ true
    → contains_similar_token cand t ≡ true
unfolding contains_similar_token
contains-similar [] t c m h = elim m [ ]
contains-similar (d ∷ ds) t c (inl e) h = ground (arith, ap (similar_token t) (sym e) ∙ h)
contains-similar (d ∷ ds) t c (inr m) h = ground (arith, contains-similar ds t c m h)

coverage_bound : (cand ts : List String) → coverage cand ts ≤ length ts
unfolding coverage
coverage_bound cand [] = ground arith
coverage_bound cand (t ∷ ts) = ground (arith, coverage_bound cand ts)

-- `ContentTokenCoverageScore` counts every reference token exactly if each of them has a similar
-- candidate token: an equal one, or, where both have at least four bytes, one that it begins or that
-- begins it.
pub coverage_full_iff :
    (cand ts : List String) → (coverage cand ts ≡ length ts) ↔ All (IsCovered cand) ts
unfolding coverage
coverage_full_iff cand [] = ((λ h. tt), (λ h. refl))
coverage_full_iff cand (t ∷ ts) = (
  (λ h.
      let one : contains_similar_token cand t ≡ true = ground (arith, h, coverage_bound cand ts) in
      let rest : coverage cand ts ≡ length ts = ground (arith, h, one) in
      (contains-IsCovered cand t one, (coverage_full_iff cand ts).0 rest)),
  (λ h.
      let (c, m, k) = h.0 in
      ground (
        arith,
        contains-similar cand t c m ((similar_token_iff t c).1 k),
        (coverage_full_iff cand ts).1 h.1,
      )),
)
