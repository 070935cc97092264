-- ===== src/Prelude/Lists.antt =====
-- Lists measured by native numbers, under the library's names, and predicates on them.
use Prim.Native.Nat.{ℕ, zero, suc, ◌+◌}
use mathlib.Core.Path.{◌≡◌}
use mathlib.Core.Logic.{◌⊎◌, inl, inr}
use mathlib.Core.List.{List, [], ◌∷◌, ◌++◌}
use mathlib.Core.Option.{Option, none, some}
use native.Mathlib.Omega.{arith}

module _ {ℓ} {A : Type ℓ} where
  abbrev pub length : List A → ℕ
  length [] = 0
  length (x ∷ xs) = suc (length xs)

  abbrev pub get_elem? : List A → ℕ → Option A
  get_elem? [] i = none
  get_elem? (x ∷ xs) zero = some x
  get_elem? (x ∷ xs) (suc i) = get_elem? xs i

  pub length-append : (xs ys : List A) → length (xs ++ ys) ≡ length xs + length ys
  length-append [] ys = omega arith
  length-append (x ∷ xs) ys = omega (arith, length-append xs ys)

-- Predicates by recursion compute to tuples and sums, which the tactics read and build.
module _ {ℓ κ} {A : Type ℓ} where
  abbrev pub All : (A → Type κ) → List A → Type κ
  All P [] = Unit
  All P (x ∷ xs) = P x × All P xs

  pub All-append : (P : A → Type κ) (xs ys : List A) → All P xs → All P ys → All P (xs ++ ys)
  All-append P [] ys hx hy = hy
  All-append P (x ∷ xs) ys hx hy = (hx.0, All-append P xs ys hx.1 hy)

-- `x` stands in the list.
module _ {A : Type 0} where
  infix 4 ◌∈◌
  abbrev pub ◌∈◌ : A → List A → Type 0
  x ∈ [] = ⊥
  x ∈ (y ∷ ys) = (x ≡ y) ⊎ (x ∈ ys)

  pub mem-append : (x : A) (xs ys : List A) → x ∈ (xs ++ ys) → (x ∈ xs) ⊎ (x ∈ ys)
  mem-append x [] ys h = inr h
  mem-append x (y ∷ xs) ys (inl e) = inl (inl e)
  mem-append x (y ∷ xs) ys (inr h) = elim (mem-append x xs ys h) [
    | inl p ↦ inl (inr p)
    | inr q ↦ inr q
  ]

  pub mem-append_left : (x : A) (xs ys : List A) → x ∈ xs → x ∈ (xs ++ ys)
  mem-append_left x [] ys h = elim h [ ]
  mem-append_left x (y ∷ xs) ys (inl e) = inl e
  mem-append_left x (y ∷ xs) ys (inr h) = inr (mem-append_left x xs ys h)

  pub mem-append_right : (x : A) (xs ys : List A) → x ∈ ys → x ∈ (xs ++ ys)
  mem-append_right x [] ys h = h
  mem-append_right x (y ∷ xs) ys h = inr (mem-append_right x xs ys h)
