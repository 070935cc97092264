-- ===== src/Quality/Tokens.antt =====
-- Tokens and their overlap: internal/qualityengine/qualityengine.go. Whether a character is a letter
-- or a digit, and its lower case, come from Go's tables of Unicode, which are a parameter.
pub mod Overlap
pub mod Coverage
use Prim.Native.Char.{Char, code}
use Prim.Native.String.{len, ◌++◌}
use ai_finops_operator.Prelude.{
  ◌≡◌, ℕ, suc, ◌+◌, ltb, leb, eqb, String, Bool, true, false, not, ◌&&◌, ◌||◌, ◌==◌, List, [], ◌∷◌,
  if◌then◌else◌, length, trim, join, translate, is_space, reverse_onto,
}

pub record Unicode : Type 0 where
  pub to_lower_rune : Char → Char
  pub is_letter : Char → Bool
  pub is_digit : Char → Bool

unfoldable pub lower_runes : Unicode → String → String
lower_runes u String.[] = String.[]
lower_runes u (String.◌∷◌ c s) = String.◌∷◌ (u.to_lower_rune c) (lower_runes u s)

-- foldLatin
unfoldable pub fold_latin : String → String
fold_latin String.[] = String.[]
fold_latin (String.◌∷◌ c s) =
    String.◌∷◌ (translate "àâäçéèêëîïôöùûü" "aaaceeeeiioouuu" c) (fold_latin s)

-- The loop of tokenize: letters and digits stay, a run of anything else becomes one space.
unfoldable pub collapse : Unicode → (last_space : Bool) → String → String
collapse u last_space String.[] = String.[]
collapse u last_space (String.◌∷◌ c s) = elim (u.is_letter c || u.is_digit c) [
  | true ↦ String.◌∷◌ c (collapse u false s)
  | false ↦ elim last_space [ true ↦ collapse u true s | false ↦ " " ++ collapse u true s ]
]

-- A field that has ended, `current` being its characters from the last one.
abbrev pub ended : (current : String) → List String → List String
ended String.[] rest = rest
ended (String.◌∷◌ c s) rest = reverse_onto (String.◌∷◌ c s) "" ∷ rest

-- strings.Fields
unfoldable pub fields : (current : String) → String → List String
fields current String.[] = ended current []
fields current (String.◌∷◌ c s) = elim (is_space (code c)) [
  | true ↦ ended current (fields "" s)
  | false ↦ fields (String.◌∷◌ c current) s
]

unfoldable pub tokenize : Unicode → String → List String
tokenize u s =
    let folded = fold_latin (lower_runes u (trim s)) in
    if folded == "" then [] else fields "" (collapse u true folded)

unfoldable pub normalize_text : Unicode → String → String
normalize_text u s = join " " (tokenize u s)

-- `seen[token]`, and the search of a list.
unfoldable pub is_among : List String → String → Bool
is_among [] t = false
is_among (s ∷ ss) t = s == t || is_among ss t

abbrev pub stopwords : List String
stopwords =
    fields ""
      "the and for with that this from into are was were has have had should must answer mention mentions a an of to in on at by or is be as le la les des une un du de et ou est sont dans pour avec sur par que qui aux au doit mentionner"

unfoldable pub stopword : String → Bool
stopword token = is_among stopwords token

-- The number of characters.
unfoldable pub rune_count : String → ℕ
rune_count String.[] = 0
rune_count (String.◌∷◌ c s) = suc (rune_count s)

unfoldable pub content : List String → List String
content [] = []
content (t ∷ ts) =
    let rest = content ts in if leb (rune_count t) 2 || stopword t then rest else t ∷ rest

unfoldable pub content_tokens : Unicode → String → List String
content_tokens u s =
    let tokens = tokenize u s in elim (content tokens) [ [] ↦ tokens | t ∷ ts ↦ t ∷ ts ]

-- The loop of uniqueTokens.
unfoldable pub unique_from : List String → List String → List String
unique_from seen [] = []
unique_from seen (t ∷ ts) = elim (is_among seen t) [
  | true ↦ unique_from seen ts
  | false ↦ t ∷ unique_from (t ∷ seen) ts
]

unfoldable pub unique_tokens : List String → List String
unique_tokens tokens = unique_from [] tokens

-- strings.HasPrefix
unfoldable pub has_prefix : String → String → Bool
has_prefix s String.[] = true
has_prefix String.[] (String.◌∷◌ d t) = false
has_prefix (String.◌∷◌ c s) (String.◌∷◌ d t) = eqb (code c) (code d) && has_prefix s t

-- `len` counts bytes.
unfoldable pub similar_token : String → String → Bool
similar_token a b =
    if a == b
    then true
    else if ltb (len a) 4 || ltb (len b) 4
    then false
    else has_prefix a b || has_prefix b a

unfoldable pub contains_similar_token : List String → String → Bool
contains_similar_token [] want = false
contains_similar_token (t ∷ ts) want = similar_token want t || contains_similar_token ts want

-- The count of ContentTokenCoverageScore.
unfoldable pub coverage : List String → List String → ℕ
coverage cand [] = 0
coverage cand (t ∷ ts) =
    let rest = coverage cand ts in if contains_similar_token cand t then suc rest else rest

-- A candidate token, and whether it is matched.
abbrev pub Candidates : Type 0
Candidates = List (String × Bool)

-- The inner loop of TokenF1Score: the first candidate that is not matched and is similar becomes
-- matched, and counts.
unfoldable pub match_token : String → Candidates → Candidates × ℕ
match_token token [] = ([], 0)
match_token token ((c, matched) ∷ cs) = elim (matched || not (similar_token token c)) [
  | true ↦ let (rest, n) = match_token token cs in ((c, matched) ∷ rest, n)
  | false ↦ ((c, true) ∷ cs, 1)
]

-- The outer loop.
unfoldable pub overlap_from : List String → Candidates → ℕ
overlap_from [] cs = 0
overlap_from (t ∷ ts) cs = let (rest, n) = match_token t cs in n + overlap_from ts rest

unfoldable pub unmatched : List String → Candidates
unmatched [] = []
unmatched (t ∷ ts) = (t, false) ∷ unmatched ts

unfoldable pub overlap : (ref cand : List String) → ℕ
overlap ref cand = overlap_from ref (unmatched cand)
