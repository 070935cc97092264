-- ===== src/Prelude/Sorting.antt =====
-- Go's `sort.Slice` and `sort.SliceStable`, as insertion sort: stable, and so one of the orders that
-- `sort.Slice` may give. `before a b` is the source's `less`.
use Prim.Native.Nat.{ℕ, ◌+◌}
use mathlib.Core.Path.{◌≡◌, refl}
use mathlib.Core.Logic.{inl, inr}
use mathlib.Core.Bool.{Bool, true, false}
use mathlib.Core.List.{List, [], ◌∷◌}
use native.Mathlib.Omega.{arith}
use ai_finops_operator.Prelude.Tests.{if◌then◌else◌, Bool-cases}
use ai_finops_operator.Prelude.Lists.{All, ◌∈◌}

module _ {A : Type 0} where
  -- `a` goes in front of the first element that must not stand before it.
  insert_sorted : (A → A → Bool) → A → List A → List A
  insert_sorted before a [] = a ∷ []
  insert_sorted before a (b ∷ bs) = if before b a then b ∷ insert_sorted before a bs else a ∷ b ∷ bs

  unfoldable pub sort : (A → A → Bool) → List A → List A
  unfolding insert_sorted
  sort before [] = []
  sort before (a ∷ as') = insert_sorted before a (sort before as')

  All-insert_sorted :
      (P : A → Type 0) (before : A → A → Bool) (a : A) (bs : List A)
      → P a
      → All P bs
      → All P (insert_sorted before a bs)
  unfolding insert_sorted
  All-insert_sorted P before a [] p ps = (p, tt)
  All-insert_sorted P before a (b ∷ bs) p ps = elim (Bool-cases (before b a)) [
    | inl h ↦ rw h (ps.0, All-insert_sorted P before a bs p ps.1)
    | inr h ↦ rw h (p, ps)
  ]

  pub All-sort :
      (P : A → Type 0) (before : A → A → Bool) (as' : List A) → All P as' → All P (sort before as')
  unfolding sort
  All-sort P before [] ps = tt
  All-sort P before (a ∷ as') ps =
      All-insert_sorted P before a (sort before as') ps.0 (All-sort P before as' ps.1)

  mem-insert_sorted :
      (x : A) (before : A → A → Bool) (a : A) (bs : List A)
      → x ∈ (a ∷ bs)
      → x ∈ insert_sorted before a bs
  unfolding insert_sorted
  mem-insert_sorted x before a [] h = h
  mem-insert_sorted x before a (b ∷ bs) h = elim (Bool-cases (before b a)) [
    | inl e ↦ rw e (under h (λ k. mem-insert_sorted x before a bs k))
    | inr e ↦ rw e h
  ]
    where
      under :
          x ∈ (a ∷ b ∷ bs)
          → (x ∈ (a ∷ bs) → x ∈ insert_sorted before a bs)
          → x ∈ (b ∷ insert_sorted before a bs)
      under (inl p) k = inr (k (inl p))
      under (inr (inl p)) k = inl p
      under (inr (inr p)) k = inr (k (inr p))

  pub mem-sort : (x : A) (before : A → A → Bool) (as' : List A) → x ∈ as' → x ∈ sort before as'
  unfolding sort
  mem-sort x before [] h = h
  mem-sort x before (a ∷ as') (inl e) = mem-insert_sorted x before a (sort before as') (inl e)
  mem-sort x before (a ∷ as') (inr h) =
      mem-insert_sorted x before a (sort before as') (inr (mem-sort x before as' h))

  -- The sum of a measure over a list.
  abbrev pub sum_of : (A → ℕ) → List A → ℕ
  sum_of f [] = 0
  sum_of f (a ∷ as') = f a + sum_of f as'

  sum_of-insert_sorted :
      (f : A → ℕ) (before : A → A → Bool) (a : A) (bs : List A)
      → sum_of f (insert_sorted before a bs) ≡ f a + sum_of f bs
  unfolding insert_sorted
  sum_of-insert_sorted f before a [] = refl
  sum_of-insert_sorted f before a (b ∷ bs) = ground (arith, sum_of-insert_sorted f before a bs)

  pub sum_of-sort :
      (f : A → ℕ) (before : A → A → Bool) (as' : List A) → sum_of f (sort before as') ≡ sum_of f as'
  unfolding sort
  sum_of-sort f before [] = refl
  sum_of-sort f before (a ∷ as') =
      omega (arith, sum_of-insert_sorted f before a (sort before as'), sum_of-sort f before as')

  -- Each element is related to the next one.
  abbrev pub Chain : (A → A → Type 0) → List A → Type 0
  Chain R [] = Unit
  Chain R (a ∷ []) = Unit
  Chain R (a ∷ b ∷ as') = R a b × Chain R (b ∷ as')

  -- The second is not before the first.
  abbrev pub InOrder : (A → A → Bool) → A → A → Type 0
  InOrder before a b = before b a ≡ false

  insert_sorted-Chain :
      (before : A → A → Bool)
      → ((a b : A) → before a b ≡ true → before b a ≡ false)
      → (a : A) (bs : List A) → Chain (InOrder before) bs
      → Chain (InOrder before) (insert_sorted before a bs)
  unfolding insert_sorted
  insert_sorted-Chain before asym a [] h = tt
  insert_sorted-Chain before asym a (b ∷ []) h = elim (Bool-cases (before b a)) [
    | inl e ↦ rw e (asym b a e, tt)
    | inr e ↦ rw e (e, tt)
  ]
  insert_sorted-Chain before asym a (b ∷ c ∷ cs) h = elim (Bool-cases (before b a)) [
    | inr e ↦ rw e (e, h)
    | inl e ↦
        let rest = insert_sorted-Chain before asym a (c ∷ cs) h.1 in
        rw e (elim (Bool-cases (before c a)) [
          | inl f ↦ rw f (h.0, rw f at rest)
          | inr f ↦ rw f (asym b a e, rw f at rest)
        ])
  ]

  pub sort-Chain :
      (before : A → A → Bool)
      → ((a b : A) → before a b ≡ true → before b a ≡ false)
      → (as' : List A) → Chain (InOrder before) (sort before as')
  unfolding sort
  sort-Chain before asym [] = tt
  sort-Chain before asym (a ∷ as') =
      insert_sorted-Chain before asym a (sort before as') (sort-Chain before asym as')
