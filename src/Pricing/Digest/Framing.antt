-- ===== src/Pricing/Digest/Framing.antt =====
-- The bytes that `fixedHash` of internal/govarpricing/pricing.go writes.
use native.Mathlib.Nat.{pow-succ', mul_comm, div-div-eq-div-mul}
use ai_finops_operator.Prelude.{
  ◌≡◌, refl, sym, ap, ◌∙◌, ℕ, zero, suc, ◌+◌, ◌*◌, ◌/◌, ◌%◌, ◌^◌, ◌<◌, String, List, [], ◌∷◌, ◌++◌,
  map, arith, length, All,
}
use ai_finops_operator.Pricing.Digest.{big_endian, frame, utf8}

-- Texts of one length before what follows are equal, and so is what follows.
pub same_length_ends :
    (v w r s : List ℕ) → length v ≡ length w → v ++ r ≡ w ++ s → (v ≡ w) × (r ≡ s)
same_length_ends [] [] r s l h = (refl, h)
same_length_ends [] (y ∷ w) r s l h = ground arith
same_length_ends (x ∷ v) [] r s l h = ground arith
same_length_ends (x ∷ v) (y ∷ w) r s l h =
    let (e, k) = same_length_ends v w r s (ground arith) (cc h) in (cc (e, h), k)

-- The number that bytes stand for, after `acc`.
value_from : ℕ → List ℕ → ℕ
value_from acc [] = acc
value_from acc (b ∷ bs) = value_from (acc * 256 + b) bs

big_endian-value : (k n : ℕ) → value_from (n / 256 ^ k) (big_endian k n) ≡ n
unfolding value_from big_endian
big_endian-value zero n = omega arith
big_endian-value (suc k) n =
    let power = pow-succ' 256 k ∙ mul_comm 256 (256 ^ k) in
    let shift = div-div-eq-div-mul n (256 ^ k) 256 ∙ sym (ap (λ d. n / d) power) in
    let next : n / 256 ^ suc k * 256 + n / 256 ^ k % 256 ≡ n / 256 ^ k = omega (arith, shift) in
    ap (λ acc. value_from acc (big_endian k n)) next ∙ big_endian-value k n

big_endian-injective : (m n : ℕ) → m < 2 ^ 64 → n < 2 ^ 64 → big_endian 8 m ≡ big_endian 8 n → m ≡ n
big_endian-injective m n h k e =
    let low : m / 256 ^ 8 ≡ n / 256 ^ 8 = omega arith in
    sym (big_endian-value 8 m) ∙ cc (ap (value_from (m / 256 ^ 8)) e, low) ∙ big_endian-value 8 n

big_endian-length : (k n : ℕ) → length (big_endian k n) ≡ k
unfolding big_endian
big_endian-length zero n = refl
big_endian-length (suc k) n = ap suc (big_endian-length k n)

big_endian-nonempty : (n : ℕ) (r : List ℕ) → [] ≡ big_endian 8 n ++ r → ⊥
unfolding big_endian
big_endian-nonempty n r h = cc

-- The parts of which `fixedHash` writes the same bytes are the same parts in the same order, as
-- bytes, where none is longer than an unsigned number of 64 bits can say.
pub frame_injective :
    (parts parts' : List String)
    → All (λ p. length (utf8 p) < 2 ^ 64) parts
    → All (λ p. length (utf8 p) < 2 ^ 64) parts'
    → frame parts ≡ frame parts'
    → map utf8 parts ≡ map utf8 parts'
unfolding frame
frame_injective [] [] h k e = refl
frame_injective [] (q ∷ qs) h k e = absurd (big_endian-nonempty (length (utf8 q)) _ e)
frame_injective (p ∷ ps) [] h k e = absurd (big_endian-nonempty (length (utf8 p)) _ (sym e))
frame_injective (p ∷ ps) (q ∷ qs) h k e =
    let n = length (utf8 p) in
    let m = length (utf8 q) in
    let (head, tail) =
      same_length_ends (big_endian 8 n) (big_endian 8 m) (utf8 p ++ frame ps) (utf8 q ++ frame qs)
        (big_endian-length 8 n ∙ sym (big_endian-length 8 m)) e in
    let same = big_endian-injective n m h.0 k.0 head in
    let (value, rest) = same_length_ends (utf8 p) (utf8 q) (frame ps) (frame qs) same tail in
    cc (value, frame_injective ps qs h.1 k.1 rest)
