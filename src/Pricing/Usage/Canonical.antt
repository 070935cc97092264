-- ===== src/Pricing/Usage/Canonical.antt =====
-- What `canonicalUsage` of internal/govarpricing/pricing.go accepts, and the map that it builds.
use ai_finops_operator.Prelude.{
  ℤ, true, ◌≡◌, List, [], ◌∷◌, some, ok, arith, eq_iff, ==-cases, inl, inr, ◌∈◌, ◌↔◌, ◌∙◌, sym,
  eq_refl,
}
use ai_finops_operator.Prelude.Dict.{Dict, lookup, contains, insert, lookup-insert}
use ai_finops_operator.Pricing.Types.{Basis, UsageQuantity}
use ai_finops_operator.Pricing.Usage.{has, canonical_usage, canonical_usage_from}

mem_of_has : (b : Basis) (cs : List Basis) → has b cs ≡ true → b ∈ cs
unfolding has
mem_of_has b [] h = cc
mem_of_has b (c ∷ cs) h = elim (==-cases c b) [
  | inl e ↦ inl (sym e.0)
  | inr e ↦ inr (mem_of_has b cs (ground arith))
]

has_of_mem : (b : Basis) (cs : List Basis) → b ∈ cs → has b cs ≡ true
unfolding has
has_of_mem b [] h = elim h [ ]
has_of_mem b (c ∷ cs) (inl e) = ground (arith, eq_iff c b)
has_of_mem b (c ∷ cs) (inr h) = ground (arith, has_of_mem b cs h)

-- `has` decides membership.
pub has_iff : (b : Basis) (cs : List Basis) → (has b cs ≡ true) ↔ (b ∈ cs)
has_iff b cs = (mem_of_has b cs, has_of_mem b cs)

canonical_usage_from-kept :
    (m : Dict ℤ) (vs : List UsageQuantity) (out : Dict ℤ) (b : Basis) (q : ℤ)
    → canonical_usage_from m vs ≡ ok out
    → lookup b m ≡ some q
    → lookup b out ≡ some q
unfolding canonical_usage_from contains
canonical_usage_from-kept m [] out b q h l = ground arith
canonical_usage_from-kept m (v ∷ vs) out b q h l = ground (
  arith,
  eq_iff v.basis b,
  lookup-insert v.basis b v.quantity m,
  canonical_usage_from-kept (insert v.basis v.quantity m) vs out b q,
)

canonical_usage_from-cons :
    (m : Dict ℤ) (v : UsageQuantity) (vs : List UsageQuantity) (out : Dict ℤ)
    → canonical_usage_from m (v ∷ vs) ≡ ok out
    → canonical_usage_from (insert v.basis v.quantity m) vs ≡ ok out
unfolding canonical_usage_from
canonical_usage_from-cons m v vs out h = ground arith

canonical_usage_from-lookup :
    (m : Dict ℤ) (vs : List UsageQuantity) (out : Dict ℤ) (v : UsageQuantity)
    → canonical_usage_from m vs ≡ ok out
    → v ∈ vs
    → lookup v.basis out ≡ some v.quantity
canonical_usage_from-lookup m [] out v h k = elim k [ ]
canonical_usage_from-lookup m (w ∷ vs) out v h (inl e) = rw e (
    canonical_usage_from-kept (insert w.basis w.quantity m) vs out w.basis w.quantity
      (canonical_usage_from-cons m w vs out h)
      (lookup-insert w.basis w.basis w.quantity m ∙ (rw (eq_refl w.basis))))
canonical_usage_from-lookup m (w ∷ vs) out v h (inr k) =
    canonical_usage_from-lookup (insert w.basis w.quantity m) vs out v
      (canonical_usage_from-cons m w vs out h) k

-- In the map that `canonicalUsage` returns every listed quantity is found under its basis.
pub canonical_usage-lookup :
    (vs : List UsageQuantity) (out : Dict ℤ) (v : UsageQuantity)
    → canonical_usage vs ≡ ok out
    → v ∈ vs
    → lookup v.basis out ≡ some v.quantity
unfolding canonical_usage
canonical_usage-lookup vs out v h k = canonical_usage_from-lookup [] vs out v h k
