-- ===== src/Pricing/Settle/Coverage.antt =====
-- A settlement of internal/govarpricing/pricing.go accounts for every reported quantity and for every
-- charged row.
use ai_finops_operator.Prelude.{
  ◌≡◌, refl, sym, ◌∙◌, ℤ, false, List, [], ◌∷◌, ◌++◌, none, some, ok, All, Option-cases, ◌⊎◌, inl,
  inr, subst, ==-cases, ◌∈◌, mem-append_left, mem-append_right, mem-sort,
}
use ai_finops_operator.Prelude.Dict.{Dict, lookup, erase, lookup-erase}
use ai_finops_operator.Pricing.Types.{
  Basis, NormalizedCharge, PricingSnapshot, UsageQuantity, ChargeComponent, ActualChargeComponent,
}
use ai_finops_operator.Pricing.Usage.Canonical.{canonical_usage-lookup}
use ai_finops_operator.Pricing.Digest.{Primitives}
use ai_finops_operator.Pricing.Snapshot.Partition.{IsValidRow}
use ai_finops_operator.Pricing.Snapshot.Integrity.{validate_snapshot_integrity-IsSound}
use ai_finops_operator.Pricing.Settle.{
  Settlement, Settled, start, settle_row, settle_rows, is_nonempty, actual_component,
  sorted_settlement, settle_components,
}
use ai_finops_operator.Pricing.Settle.Round.{
  IsMissing, IsCharged, Outcome, settle_row-Outcome, settle_rows_round, settle_rows_skip,
}
use ai_finops_operator.Pricing.Settle.Guarantee.{settle_components-IsSettlement}

-- Some component charges the quantity `q` of the basis.
abbrev pub Charges : Basis → ℤ → List ActualChargeComponent → Type 0
Charges b q cs = (c : ActualChargeComponent) × (c ∈ cs) × (c.basis ≡ b) × (c.quantity ≡ q)

-- What was charged stays charged, and a reported quantity is still there or was charged.
record Keeps (s t : Settlement) : Type 0 where
  grows : (c : ActualChargeComponent) → c ∈ s.actual → c ∈ t.actual
  notes : (b : Basis) → b ∈ s.missing → b ∈ t.missing
  uses :
      (b : Basis) (q : ℤ)
      → lookup b s.quantities ≡ some q
      → (lookup b t.quantities ≡ some q) ⊎ Charges b q t.actual

-- A row that is charged by itself is missing or charged.
abbrev Decides : NormalizedCharge → Settlement → Type 0
Decides row t =
    (row.basis ∈ t.missing) ⊎ ((c : ActualChargeComponent) × (c ∈ t.actual) × (c.basis ≡ row.basis))

Keeps-trans : {s t u : Settlement} → Keeps s t → Keeps t u → Keeps s u
Keeps-trans {s} {t} {u} f g = record {
  grows = λ c h. g.grows c (f.grows c h);
  notes = λ b h. g.notes b (f.notes b h);
  uses = λ b q h. later (f.uses b q h);
}
  where
    later :
        {b : Basis} {q : ℤ}
        → (lookup b t.quantities ≡ some q) ⊎ Charges b q t.actual
        → (lookup b u.quantities ≡ some q) ⊎ Charges b q u.actual
    later {b} {q} (inl h) = g.uses b q h
    later (inr (c, m, e, k)) = inr (c, g.grows c m, e, k)

IsMissing-Keeps :
    (row : NormalizedCharge) (s u : Settlement) → IsMissing row s u → Keeps s u × Decides row u
IsMissing-Keeps row s u m =
    subst (λ x. Keeps s x × Decides row x) (sym m.noted)
      (
        record {
          grows = λ c h. h;
          notes = λ b h. mem-append_left b s.missing (row.basis ∷ []) h;
          uses = λ b q h. inl h;
        },
        inl (mem-append_right row.basis s.missing (row.basis ∷ []) (inl refl)),
      )

IsCharged-Keeps :
    (row : NormalizedCharge) (bound : ChargeComponent) (s u : Settlement) (q cost : ℤ)
    → row.settlement_usage_field ≡ row.basis
    → IsCharged row bound s u q cost
    → Keeps s u × Decides row u
IsCharged-Keeps row bound s u q cost same m =
    subst (λ x. Keeps s x × Decides row x) (sym m.charged)
      (
        record {
          grows = λ c h. mem-append_left c s.actual (new ∷ []) h;
          notes = λ b h. h;
          uses = uses;
        },
        inr (new, here, unfold actual_component in refl),
      )
  where
    new : ActualChargeComponent
    new = actual_component row bound q cost

    here : new ∈ (s.actual ++ new ∷ [])
    here = mem-append_right new s.actual (new ∷ []) (inl refl)

    uses :
        (b : Basis) (p : ℤ)
        → lookup b s.quantities ≡ some p
        → (lookup b (erase row.settlement_usage_field s.quantities) ≡ some p)
          ⊎ Charges b p (s.actual ++ new ∷ [])
    uses b p h = elim (==-cases row.settlement_usage_field b) [
      | inl e ↦ inr (
        new,
        here,
        (unfold actual_component in (sym same ∙ e.0)),
        (unfold actual_component in cc (m.reported, h, e.0)),
      )
      | inr e ↦ inl (lookup-erase row.settlement_usage_field b s.quantities ∙ (rw (e.1) h))
    ]

settle_row-Keeps :
    (bounds : Dict ChargeComponent) (row : NormalizedCharge) (s u : Settlement)
    → row.settlement_usage_field ≡ row.basis
    → settle_row bounds row s ≡ ok u
    → Keeps s u × Decides row u
settle_row-Keeps bounds row s u same h =
    let (bound, l, o) = settle_row-Outcome bounds row s u h in by_outcome o
  where
    by_outcome : {bound : ChargeComponent} → Outcome row bound s u → Keeps s u × Decides row u
    by_outcome (inl m) = IsMissing-Keeps row s u m
    by_outcome {bound} (inr (q, cost, m)) = IsCharged-Keeps row bound s u q cost same m

Decides-Keeps :
    (row : NormalizedCharge) {s t : Settlement} → Keeps s t → Decides row s → Decides row t
Decides-Keeps row k (inl m) = inl (k.notes row.basis m)
Decides-Keeps row k (inr (c, m, e)) = inr (c, k.grows c m, e)

settle_rows-Keeps :
    (bounds : Dict ChargeComponent) (rows : List NormalizedCharge) (s t : Settlement)
    → All IsValidRow rows
    → settle_rows bounds rows s ≡ ok t
    → Keeps s t × ((row : NormalizedCharge) → row ∈ rows → row.included_in ≡ none → Decides row t)
settle_rows-Keeps bounds [] s t v h =
    let same : s ≡ t = unfold settle_rows in cc in
    (
      subst (Keeps s) same (record { grows = λ c h. h; notes = λ b h. h; uses = λ b q h. inl h }),
      λ row m n. absurd m,
    )
settle_rows-Keeps bounds (row ∷ rows) s t v h = elim (Option-cases row.included_in) [
  | inl n ↦
      let (u, this, later) = settle_rows_round bounds row rows s t n h in
      let here = settle_row-Keeps bounds row s u v.0.settles this in
      let rest = settle_rows-Keeps bounds rows u t v.1 later in
      (
        Keeps-trans here.0 rest.0,
        λ r m k. elim m [
          | inl e ↦ Decides-Keeps r rest.0 (subst (λ x. Decides x u) (sym e) here.1)
          | inr m' ↦ rest.1 r m' k
        ],
      )
  | inr (p, e) ↦
      let rest =
        settle_rows-Keeps bounds rows s t v.1 (sym (settle_rows_skip bounds row rows s e) ∙ h) in
      (rest.0, λ r m k. elim m [ inl same ↦ absurd (cc (same, e, k)) | inr m' ↦ rest.1 r m' k ])
]

empty-lookup : (b : Basis) (m : Dict ℤ) → is_nonempty m ≡ false → lookup b m ≡ none
unfolding is_nonempty lookup
empty-lookup b [] h = refl
empty-lookup b (e ∷ m) h = cc

Charges-sorted :
    (b : Basis) (q : ℤ) (s : Settlement)
    → Charges b q s.actual
    → Charges b q (sorted_settlement s).actual
unfolding sorted_settlement
Charges-sorted b q s (c, m, e, k) = (c, mem-sort c _ s.actual m, e, k)

Decides-sorted :
    (row : NormalizedCharge) (s : Settlement)
    → Decides row s
    → (row.basis ∈ (sorted_settlement s).missing)
      ⊎ ((c : ActualChargeComponent) × (c ∈ (sorted_settlement s).actual) × (c.basis ≡ row.basis))
unfolding sorted_settlement
Decides-sorted row s (inl m) = inl (mem-sort row.basis _ s.missing m)
Decides-sorted row s (inr (c, m, e)) = inr (c, mem-sort c _ s.actual m, e)

-- No reported usage is dropped: every quantity of the usage of a settlement that succeeds is charged
-- by a component of its basis.
pub settled_usage_charged :
    (env : Primitives) (snapshot : PricingSnapshot) (reserved : List ChargeComponent)
    (usage : List UsageQuantity) (st : Settled) (v : UsageQuantity)
    → settle_components env snapshot reserved usage ≡ ok st
    → v ∈ usage
    → Charges v.basis v.quantity st.actual
settled_usage_charged env snapshot reserved usage st v h m =
    let (quantities, bounds, s, p) =
      settle_components-IsSettlement env snapshot reserved usage st h in
    let sound = validate_snapshot_integrity-IsSound env snapshot p.valid in
    let kept =
      (settle_rows-Keeps bounds snapshot.charges (start quantities) s sound.valid p.run).0 in
    subst (λ (x : Settled). Charges v.basis v.quantity x.actual) (sym p.result)
      (Charges-sorted v.basis v.quantity s (
        used s p.all_used
          (kept.uses v.basis v.quantity (canonical_usage-lookup usage quantities v p.reported m))))
  where
    used :
        (s : Settlement)
        → is_nonempty s.quantities ≡ false
        → (lookup v.basis s.quantities ≡ some v.quantity) ⊎ Charges v.basis v.quantity s.actual
        → Charges v.basis v.quantity s.actual
    used s e (inl l) = absurd (cc (empty-lookup v.basis s.quantities e, l))
    used s e (inr c) = c

-- No charged row is forgotten: each row of the snapshot that is charged by itself has a component in
-- a settlement that succeeds, or its basis is returned as missing.
pub settled_rows_decided :
    (env : Primitives) (snapshot : PricingSnapshot) (reserved : List ChargeComponent)
    (usage : List UsageQuantity) (st : Settled) (row : NormalizedCharge)
    → settle_components env snapshot reserved usage ≡ ok st
    → row ∈ snapshot.charges
    → row.included_in ≡ none
    → (row.basis ∈ st.missing)
      ⊎ ((c : ActualChargeComponent) × (c ∈ st.actual) × (c.basis ≡ row.basis))
settled_rows_decided env snapshot reserved usage st row h m n =
    let (quantities, bounds, s, p) =
      settle_components-IsSettlement env snapshot reserved usage st h in
    let sound = validate_snapshot_integrity-IsSound env snapshot p.valid in
    let run = settle_rows-Keeps bounds snapshot.charges (start quantities) s sound.valid p.run in
    subst
      (λ (x : Settled).
        (row.basis ∈ x.missing)
        ⊎ ((c : ActualChargeComponent) × (c ∈ x.actual) × (c.basis ≡ row.basis)))
      (sym p.result) (Decides-sorted row s (run.1 row m n))
