-- ===== src/Prelude/Dict.antt =====
-- Go's maps from strings: association lists in insertion order. Where the code ranges over a map the
-- order is open, and no statement depends on it.
use Prim.Native.String.{String}
use mathlib.Core.Path.{◌≡◌, refl, sym, ap, ◌∙◌}
use mathlib.Core.Logic.{inl, inr}
use mathlib.Core.Bool.{Bool, true, false, ◌||◌}
use mathlib.Core.List.{List, [], ◌∷◌}
use mathlib.Core.Option.{Option, none, some}
use native.Mathlib.Omega.{arith}
use text.Mathlib.Text.{◌==◌}
use text.Mathlib.TextEquality.{eq_iff}
use ai_finops_operator.Prelude.Tests.{if◌then◌else◌, Bool-cases}

abbrev pub Dict {ℓ} : Type ℓ → Type ℓ
Dict V = List (String × V)

module _ {ℓ} {V : Type ℓ} where
  -- `v, ok := m[k]`
  unfoldable pub lookup : String → Dict V → Option V
  lookup key [] = none
  lookup key ((at, v) ∷ rest) = if at == key then some v else lookup key rest

  -- `_, ok := m[k]`
  unfoldable pub contains : String → Dict V → Bool
  contains k m = elim (lookup k m) [ none ↦ false | some _ ↦ true ]

  -- `m[k] = v`
  unfoldable pub insert : String → V → Dict V → Dict V
  insert key new [] = (key, new) ∷ []
  insert key new ((at, old) ∷ rest) =
      if at == key then (key, new) ∷ rest else (at, old) ∷ insert key new rest

  -- `delete(m, k)`
  unfoldable pub erase : String → Dict V → Dict V
  erase k [] = []
  erase k ((j, w) ∷ m) = let rest = erase k m in if j == k then rest else (j, w) ∷ rest

  pub lookup-insert :
      (set get : String) (new : V) (entries : Dict V)
      → lookup get (insert set new entries) ≡ (if set == get then some new else lookup get entries)
  unfolding insert lookup
  lookup-insert set get new [] = refl
  lookup-insert set get new ((at, _) ∷ rest) =
      ground (arith, lookup-insert set get new rest, eq_iff set get, eq_iff at set, eq_iff at get)

  pub lookup-erase :
      (k j : String) (m : Dict V) → lookup j (erase k m) ≡ (if k == j then none else lookup j m)
  unfolding lookup erase
  lookup-erase k j [] = ground arith
  lookup-erase k j ((i, w) ∷ m) =
      ground (arith, eq_iff k j, eq_iff i k, eq_iff i j, lookup-erase k j m)

  pub contains-insert :
      (k j : String) (v : V) (m : Dict V) → contains j (insert k v m) ≡ (k == j || contains j m)
  unfolding contains
  contains-insert k j v m = ground (arith, lookup-insert k j v m)

  pub contains-eq-false : (k : String) (m : Dict V) → contains k m ≡ false → lookup k m ≡ none
  unfolding contains
  contains-eq-false k m h = ground arith

  -- No key stands twice.
  abbrev pub IsKeyed : Dict V → Type 0
  IsKeyed [] = Unit
  IsKeyed ((k, v) ∷ m) = (contains k m ≡ false) × IsKeyed m

  pub insert-IsKeyed : (k : String) (v : V) (m : Dict V) → IsKeyed m → IsKeyed (insert k v m)
  unfolding insert contains lookup
  insert-IsKeyed k v [] h = (refl, tt)
  insert-IsKeyed k v ((at, old) ∷ rest) h = elim (Bool-cases (at == k)) [
    | inl e ↦ rw e (ap (λ x. contains x rest) (sym ((eq_iff at k).0 e)) ∙ h.0, h.1)
    | inr e ↦ rw e (
      contains-insert k at v rest ∙ ground (arith, eq_iff at k, eq_iff k at),
      insert-IsKeyed k v rest h.1,
    )
  ]
