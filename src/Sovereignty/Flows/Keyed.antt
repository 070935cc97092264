-- ===== src/Sovereignty/Flows/Keyed.antt =====
-- The aggregation of findings by key, `add` in `EvaluateFlows` of internal/sovereigntyengine/sovereigntyengine.go say.
use ai_finops_operator.Prelude.{
  ◌≡◌, refl, sym, ap, ◌∙◌, subst, inl, inr, String, List, [], ◌∷◌, some, eq_refl, Option-cases,
  ==-cases, ◌∈◌, mem-append_left, mem-append_right, add64,
}
use ai_finops_operator.Prelude.Dict.{lookup, insert, lookup-insert}
use ai_finops_operator.Sovereignty.Zones.{Policy}
use ai_finops_operator.Sovereignty.Findings.{Finding}
use ai_finops_operator.Sovereignty.Flows.{key_of, Aggregation, add, add_all}

-- The key is listed, and the finding under it has that key.
unfoldable pub IsKept : String → Aggregation → Type 0
IsKept k s = (k ∈ s.order) × ((g : Finding) × (lookup k s.agg ≡ some g) × (key_of g ≡ k))

-- Every finding of the map is kept.
unfoldable pub IsKeyed : Aggregation → Type 0
IsKeyed s = (k : String) (g : Finding) → lookup k s.agg ≡ some g → (k ∈ s.order) × (key_of g ≡ k)

key_of_requests :
    (g f : Finding) → key_of (record g { requests = add64 g.requests f.requests }) ≡ key_of g
unfolding key_of
key_of_requests g f = refl

-- What adding a finding does: a finding with its key goes into the map, and the key is listed.
IsAdded : Finding → Aggregation → Aggregation → Finding → Type 0
IsAdded f s t g =
    (key_of g ≡ key_of f)
    × (t.agg ≡ insert (key_of f) g s.agg)
    × (key_of f ∈ t.order)
    × ((k : String) → k ∈ s.order → k ∈ t.order)

add-IsAdded : (f : Finding) (s : Aggregation) → IsKeyed s → (g : Finding) × IsAdded f s (add f s) g
unfolding add IsAdded IsKeyed
add-IsAdded f s inv = elim (Option-cases (lookup (key_of f) s.agg)) [
  | inl n ↦
      rw (add, n)
        (
          f,
          (
            refl,
            refl,
            mem-append_right (key_of f) s.order (key_of f ∷ []) (inl refl),
            (λ k m. mem-append_left k s.order (key_of f ∷ []) m),
          ),
        )
  | inr (old, n) ↦
      let (listed, same) = inv (key_of f) old n in
      rw (add, n)
        (
          record old { requests = add64 old.requests f.requests },
          (key_of_requests old f ∙ same, refl, listed, (λ k m. m)),
        )
]

-- Adding a finding keeps what is kept.
add-IsKept :
    (f : Finding) (s : Aggregation) (k : String) → IsKeyed s → IsKept k s → IsKept k (add f s)
unfolding IsKept IsAdded
add-IsKept f s k inv (m, (g, e, q)) =
    let (h, (same, agg, listed, more)) = add-IsAdded f s inv in
    elim (==-cases (key_of f) k) [
      | inl c ↦ (
        more k m,
        (h, ap (lookup k) agg ∙ lookup-insert (key_of f) k h s.agg ∙ rw c.1 refl, same ∙ c.0),
      )
      | inr c ↦
          (more k m, (g, ap (lookup k) agg ∙ lookup-insert (key_of f) k h s.agg ∙ rw c.1 e, q))
    ]

add_added : (f : Finding) (s : Aggregation) → IsKeyed s → IsKept (key_of f) (add f s)
unfolding IsKept IsAdded
add_added f s inv =
    let (h, (same, agg, listed, more)) = add-IsAdded f s inv in
    (
      listed,
      (
        h,
        ap (lookup (key_of f)) agg
            ∙ lookup-insert (key_of f) (key_of f) h s.agg
            ∙ rw (eq_refl (key_of f)) refl,
        same,
      ),
    )

add-IsKeyed : (f : Finding) (s : Aggregation) → IsKeyed s → IsKeyed (add f s)
unfolding IsKeyed IsAdded
add-IsKeyed f s inv k g e =
    let (h, (same, agg, listed, more)) = add-IsAdded f s inv in
    let found = sym (lookup-insert (key_of f) k h s.agg) ∙ ap (lookup k) (sym agg) ∙ e in
    elim (==-cases (key_of f) k) [
      | inl c ↦ (
        subst (λ x. x ∈ (add f s).order) c.0 listed,
        ap key_of (some_injective (sym found ∙ rw c.1 refl)) ∙ same ∙ c.0,
      )
      | inr c ↦ let (m, q) = inv k g (sym (rw c.1 refl) ∙ found) in (more k m, q)
    ]
  where
    some_injective : {a b : Finding} → some a ≡ some b → a ≡ b
    some_injective r = cc

pub add_all-IsKeyed :
    (quote : String → String) (policy : Policy) (fs : List Finding) (s : Aggregation)
    → IsKeyed s
    → IsKeyed (add_all quote policy fs s)
unfolding add_all
add_all-IsKeyed quote policy [] s inv = inv
add_all-IsKeyed quote policy (f ∷ fs) s inv =
    add_all-IsKeyed quote policy fs (add f s) (add-IsKeyed f s inv)

pub add_all-IsKept :
    (quote : String → String) (policy : Policy) (fs : List Finding) (s : Aggregation) (k : String)
    → IsKeyed s
    → IsKept k s
    → IsKept k (add_all quote policy fs s)
unfolding add_all
add_all-IsKept quote policy [] s k inv h = h
add_all-IsKept quote policy (f ∷ fs) s k inv h =
    add_all-IsKept quote policy fs (add f s) k (add-IsKeyed f s inv) (add-IsKept f s k inv h)

pub add_all_added :
    (quote : String → String) (policy : Policy) (fs : List Finding) (s : Aggregation) (f : Finding)
    → IsKeyed s
    → f ∈ fs
    → IsKept (key_of f) (add_all quote policy fs s)
unfolding add_all
add_all_added quote policy [] s f inv m = elim m [ ]
add_all_added quote policy (g ∷ fs) s f inv (inl e) =
    add_all-IsKept quote policy fs (add g s) (key_of f) (add-IsKeyed g s inv)
      (subst (λ x. IsKept (key_of x) (add g s)) (sym e) (add_added g s inv))
add_all_added quote policy (g ∷ fs) s f inv (inr m) =
    add_all_added quote policy fs (add g s) f (add-IsKeyed g s inv) m
