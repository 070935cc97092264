-- ===== src/Prelude/Text.antt =====
-- The functions of Go's `strings` that the code calls, over the native texts. Letters beyond ASCII
-- have no case here: `to_lower` and `to_upper` leave them alone.
use Prim.Native.Nat.{ℕ}
use Prim.Native.Char.{Char, code}
use Prim.Native.String.{String, compare, ◌++◌}
use mathlib.Core.Path.{◌≡◌, refl}
use mathlib.Core.Bool.{Bool, ◌&&◌, ◌||◌}
use mathlib.Core.List.{List, [], ◌∷◌}
use text.Mathlib.Text.{is_lt}
use ai_finops_operator.Prelude.Tests.{eqb, leb, if◌then◌else◌}

-- Go's `<` on strings: byte order, which is code point order.
abbrev pub str_lt : String → String → Bool
str_lt s t = is_lt (compare s t)

-- The character below `c` in the second text, where the first one has `c`.
unfoldable pub translate : String → String → Char → Char
translate (String.◌∷◌ a from) (String.◌∷◌ b to) c =
    if eqb (code a) (code c) then b else translate from to c
translate _ _ c = c

abbrev upper_letters : String
upper_letters = "ABCDEFGHIJKLMNOPQRSTUVWXYZ"

abbrev lower_letters : String
lower_letters = "abcdefghijklmnopqrstuvwxyz"

-- strings.ToLower
unfoldable pub to_lower : String → String
unfolding translate
to_lower String.[] = String.[]
to_lower (String.◌∷◌ c s) = String.◌∷◌ (translate upper_letters lower_letters c) (to_lower s)

-- strings.ToUpper
unfoldable pub to_upper : String → String
unfolding translate
to_upper String.[] = String.[]
to_upper (String.◌∷◌ c s) = String.◌∷◌ (translate lower_letters upper_letters c) (to_upper s)

-- unicode.IsSpace
unfoldable pub is_space : ℕ → Bool
is_space n =
    leb 9 n && leb n 13
    || eqb n 32
    || eqb n 0x85
    || eqb n 0xa0
    || eqb n 0x1680
    || leb 0x2000 n && leb n 0x200a
    || eqb n 0x2028
    || eqb n 0x2029
    || eqb n 0x202f
    || eqb n 0x205f
    || eqb n 0x3000

drop_spaces : String → String
unfolding is_space
drop_spaces String.[] = String.[]
drop_spaces (String.◌∷◌ c s) = if is_space (code c) then drop_spaces s else String.◌∷◌ c s

unfoldable pub reverse_onto : String → String → String
reverse_onto String.[] out = out
reverse_onto (String.◌∷◌ c s) out = reverse_onto s (String.◌∷◌ c out)

-- strings.TrimSpace
unfoldable pub trim : String → String
unfolding drop_spaces reverse_onto
trim s = reverse_onto (drop_spaces (reverse_onto (drop_spaces s) "")) ""

-- strings.Join
unfoldable pub join : String → List String → String
join separator [] = ""
join separator (s ∷ []) = s
join separator (s ∷ t ∷ rest) = s ++ (separator ++ join separator (t ∷ rest))

trim-example : trim "  Azure-OpenAI\n" ≡ "Azure-OpenAI"
unfolding trim
trim-example = refl

to_lower-example : to_lower "Azure-OpenAI" ≡ "azure-openai"
unfolding to_lower
to_lower-example = refl
