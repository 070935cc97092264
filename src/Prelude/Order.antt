-- ===== src/Prelude/Order.antt =====
-- The order of strings, which the code sorts by, is linear.
use Prim.Native.Nat.{ℕ, Ordering, compare as compare_ℕ}
use Prim.Native.Char.{Char, code}
use Prim.Native.String.{String, compare, then}
use Prim.Native.String.compare
use mathlib.Core.Path.{◌≡◌, refl, sym, ap, ◌∙◌}
use mathlib.Core.Logic.{inl, inr, ◌≢◌}
use mathlib.Core.Bool.{Bool, true, false, ◌&&◌, ◌||◌, false≢true}
use native.Mathlib.Omega.{arith}
use text.Mathlib.Text.{is_lt, ◌==◌}
use text.Mathlib.TextEquality.{eq_iff, Char-path}
use text.Mathlib.TextPositions.{compare_refl}
use ai_finops_operator.Prelude.Tests.{ltb, eqb, Bool-cases}
use ai_finops_operator.Prelude.Text.{str_lt}

by_order :
    (o r : Ordering)
    → is_lt (then o r) ≡ (
        (elim o [ Ordering.lt ↦ true | _ ↦ false ])
        || (elim o [ Ordering.eq ↦ true | _ ↦ false ]) && is_lt r)
by_order Ordering.lt r = refl
by_order Ordering.eq r = refl
by_order Ordering.gt r = refl

str_lt_cons :
    (c d : Char) (s t : String)
    → str_lt (String.◌∷◌ c s) (String.◌∷◌ d t)
      ≡ (ltb (code c) (code d) || eqb (code c) (code d) && str_lt s t)
str_lt_cons c d s t =
    ap is_lt (compare.cons-cons c d s t) ∙ by_order (compare_ℕ (code c) (code d)) (compare s t)

str_lt_nil : (s : String) → str_lt s String.[] ≡ false
str_lt_nil String.[] = ap is_lt compare.nil-nil
str_lt_nil (String.◌∷◌ c s) = ap is_lt (compare.cons-nil c s)

nil_str_lt : (d : Char) (t : String) → str_lt String.[] (String.◌∷◌ d t) ≡ true
nil_str_lt d t = ap is_lt (compare.nil-cons d t)

pub str_lt_trans : (a b c : String) → str_lt a b ≡ true → str_lt b c ≡ true → str_lt a c ≡ true
str_lt_trans a b String.[] h k = let e = str_lt_nil b in cc
str_lt_trans String.[] b (String.◌∷◌ z c) h k = nil_str_lt z c
str_lt_trans (String.◌∷◌ x a) String.[] (String.◌∷◌ z c) h k =
    let e = str_lt_nil (String.◌∷◌ x a) in cc
str_lt_trans (String.◌∷◌ x a) (String.◌∷◌ y b) (String.◌∷◌ z c) h k =
    str_lt_cons x z a c
    ∙ chain (code x) (code y) (code z) (str_lt a b) (str_lt b c) (str_lt a c)
        (sym (str_lt_cons x y a b) ∙ h) (sym (str_lt_cons y z b c) ∙ k) (str_lt_trans a b c)
  where
    chain :
        (x y z : ℕ) (p q r : Bool)
        → (ltb x y || eqb x y && p) ≡ true
        → (ltb y z || eqb y z && q) ≡ true
        → (p ≡ true → q ≡ true → r ≡ true)
        → (ltb x z || eqb x z && r) ≡ true
    chain x y z p q r h k t = ground (arith, t)

linked :
    (x y : ℕ) (q r : Bool)
    → (ltb y x || eqb y x && q) ≡ false
    → (x ≡ y → q ≡ false → r ≡ true)
    → (ltb x y || eqb x y && r) ≡ true
linked x y q r h t = ground (arith, t)

before_or_after : (a b : String) → str_lt b a ≡ false → a ≢ b → str_lt a b ≡ true
before_or_after String.[] String.[] h n = absurd (n refl)
before_or_after String.[] (String.◌∷◌ d t) h n = nil_str_lt d t
before_or_after (String.◌∷◌ c s) String.[] h n = let e = nil_str_lt c s in cc
before_or_after (String.◌∷◌ c s) (String.◌∷◌ d t) h n =
    str_lt_cons c d s t
    ∙ linked (code c) (code d) (str_lt t s) (str_lt s t) (sym (str_lt_cons d c t s) ∙ h)
        (λ p q. before_or_after s t q (λ e. n (λ i. String.◌∷◌ (Char-path c d p i) (e i))))

-- Of two different strings one is before the other.
pub str_lt_total : (a b : String) → str_lt b a ≡ false → (a == b) ≡ false → str_lt a b ≡ true
str_lt_total a b h e = before_or_after a b h (λ p. absurd (false≢true (sym e ∙ (eq_iff a b).1 p)))

pub str_lt_irrefl : (a : String) → str_lt a a ≡ false
str_lt_irrefl a = ap is_lt (compare_refl a)

pub str_lt_asym : (a b : String) → str_lt a b ≡ true → str_lt b a ≡ false
str_lt_asym a b h = elim (Bool-cases (str_lt b a)) [
  | inr e ↦ e
  | inl e ↦ absurd (false≢true (sym (str_lt_irrefl a) ∙ str_lt_trans a b a h e))
]
