-- ===== src/Budget/Fallback/Moved.antt =====
-- The models that `budgetFallbackDesired` of internal/controller/budgetfallback.go moves.
use ai_finops_operator.Prelude.{
  ◌≡◌, refl, sym, ap, ◌∙◌, ◌⊎◌, inl, inr, String, Bool, true, false, not, ◌==◌, List, [], ◌∷◌,
  Option, none, some, arith, eq_iff, Bool-cases,
}
use ai_finops_operator.Prelude.Dict.{Dict, lookup, contains, insert, lookup-insert, IsKeyed}
use ai_finops_operator.Prelude.Float.{Floats}
use ai_finops_operator.Budget.Samples.{
  UsageSample, BudgetTarget, ScopedModelUsage, matches, filter_by_budget_target, usage_by_model,
  shared_models_outside_target, uses, contains-usage_by_model, uses-filter_by_budget_target,
  not_shared, usage_by_model-IsKeyed,
}
use ai_finops_operator.Budget.Fallback.{
  TokenPricing, priced_usage, is_dearer, is_moved, desired_from,
}

lookup-tail :
    {A : Type 0} (model m : String) (v u : A) (us : Dict A)
    → contains model us ≡ false
    → lookup m us ≡ some u
    → lookup m ((model, v) ∷ us) ≡ some u
unfolding contains lookup
lookup-tail model m v u us c h = ground (arith, eq_iff model m)

lookup-head :
    {A : Type 0} (model m : String) (u : A) (us : Dict A)
    → (model == m) ≡ true
    → lookup m ((model, u) ∷ us) ≡ some u
unfolding lookup
lookup-head model m u us h = ground arith

contains-found :
    {A : Type 0} (m : String) (u : A) (us : Dict A) → lookup m us ≡ some u → contains m us ≡ true
unfolding contains
contains-found m u us h = ground arith

module _ (f : Floats) (target : String) (fallback : TokenPricing f) (shared : Dict Bool)
    (pb : Dict (TokenPricing f)) where
  -- An entry of the map is of a model of the usages that is moved.
  abbrev pub Moved : Dict ScopedModelUsage → String → String → Type 0
  Moved us m t =
      (u : ScopedModelUsage) × (t ≡ target)
      × (lookup m us ≡ some u)
      × (is_moved f target fallback shared pb m u ≡ true)

  Moved-tail :
      (model : String) (u : ScopedModelUsage) (us : Dict ScopedModelUsage) (m t : String)
      → contains model us ≡ false
      → Moved us m t
      → Moved ((model, u) ∷ us) m t
  Moved-tail model u us m t k (v, e, c, h) = (v, e, lookup-tail model m u v us k c, h)

  -- An entry after one more round.
  Moved-head :
      (model : String) (u : ScopedModelUsage) (us : Dict ScopedModelUsage) (out : Dict String)
      (m t : String)
      → is_moved f target fallback shared pb model u ≡ true
      → lookup m (insert model target out) ≡ some t
      → (lookup m out ≡ some t) ⊎ Moved ((model, u) ∷ us) m t
  Moved-head model u us out m t e h = elim (Bool-cases (model == m)) [
    | inr n ↦ inl (ground (arith, lookup-insert model m target out))
    | inl y ↦
        let same = (eq_iff model m).0 y in
        inr (
          u,
          ground (arith, lookup-insert model m target out),
          lookup-head model m u us y,
          sym (ap (λ x. is_moved f target fallback shared pb x u) same) ∙ e,
        )
  ]

  desired_from-entry :
      (us : Dict ScopedModelUsage) (out : Dict String) (m t : String)
      → IsKeyed us
      → lookup m (desired_from f target fallback shared pb us out) ≡ some t
      → (lookup m out ≡ some t) ⊎ Moved us m t
  unfolding desired_from
  desired_from-entry [] out m t d h = inl h
  desired_from-entry ((model, u) ∷ us) out m t d h =
      elim (Bool-cases (is_moved f target fallback shared pb model u)) [
        | inr e ↦ elim (desired_from-entry us out m t d.1 (rw e at h)) [
          | inl k ↦ inl k
          | inr k ↦ inr (Moved-tail model u us m t d.0 k)
        ]
        | inl e ↦ elim (desired_from-entry us (insert model target out) m t d.1 (rw e at h)) [
          | inl k ↦ Moved-head model u us out m t e k
          | inr k ↦ inr (Moved-tail model u us m t d.0 k)
        ]
      ]

  is_moved-true :
      (m : String) (u : ScopedModelUsage)
      → is_moved f target fallback shared pb m u ≡ true
      → ((m == target) ≡ false)
        × (contains m shared ≡ false)
        × (is_dearer f u fallback (lookup m pb) ≡ true)
  unfolding is_moved
  is_moved-true m u h = ground arith

  is_dearer-some :
      (u : ScopedModelUsage) (o : Option (TokenPricing f))
      → is_dearer f u fallback o ≡ true
      → (current : TokenPricing f) × (o ≡ some current)
        × (f.lt (priced_usage f u fallback) (priced_usage f u current) ≡ true)
  unfolding is_dearer
  is_dearer-some u none h = cc
  is_dearer-some u (some current) h = (current, refl, h)

-- A model that is moved to the fallback: it is another model, used in the target and by nobody outside
-- it, and the usage costs less at the fallback's price than at its own.
pub record IsMoved (f : Floats) (all : List (UsageSample f)) (t : BudgetTarget)
    (pb : Dict (TokenPricing f)) (fallback : TokenPricing f) (target m : String) : Type 0 where
  pub other_model : (m == target) ≡ false
  pub used_in_target : uses f (λ s. matches f s t) m all ≡ true
  pub unused_outside : uses f (λ s. not (matches f s t)) m all ≡ false
  pub usage : ScopedModelUsage
  pub usage_summed : lookup m (usage_by_model f (filter_by_budget_target f all t)) ≡ some usage
  pub current : TokenPricing f
  pub priced : lookup m pb ≡ some current
  pub cheaper : f.lt (priced_usage f usage fallback) (priced_usage f usage current) ≡ true

pub Moved-IsMoved :
    (f : Floats) (all : List (UsageSample f)) (t : BudgetTarget) (pb : Dict (TokenPricing f))
    (fallback : TokenPricing f) (target m x : String)
    → Moved f target fallback
        (shared_models_outside_target f all t)
        pb
        (usage_by_model f (filter_by_budget_target f all t))
        m
        x
    → IsMoved f all t pb fallback target m
Moved-IsMoved f all t pb fallback target m x (u, e, c, h) =
    let shared = shared_models_outside_target f all t in
    let (other, own, dearer) = is_moved-true f target fallback shared pb m u h in
    let (current, priced, cheaper) =
      is_dearer-some f target fallback shared pb u (lookup m pb) dearer in
    let used : uses f (λ s. matches f s t) m all ≡ true =
      sym (
        contains-usage_by_model f m (filter_by_budget_target f all t)
        ∙ uses-filter_by_budget_target f m all t)
      ∙ contains-found m u (usage_by_model f (filter_by_budget_target f all t)) c in
    record {
      other_model = other;
      used_in_target = used;
      unused_outside = not_shared f m all t used own;
      usage = u;
      usage_summed = c;
      current = current;
      priced = priced;
      cheaper = cheaper;
    }

pub entry-Moved :
    (f : Floats) (target : String) (fallback : TokenPricing f) (shared : Dict Bool)
    (pb : Dict (TokenPricing f)) (samples : List (UsageSample f)) (m t : String)
    → lookup m (desired_from f target fallback shared pb (usage_by_model f samples) []) ≡ some t
    → Moved f target fallback shared pb (usage_by_model f samples) m t
unfolding lookup
entry-Moved f target fallback shared pb samples m t h =
    elim (desired_from-entry f target fallback shared pb (usage_by_model f samples) [] m t
      (usage_by_model-IsKeyed f samples) h) [ inl k ↦ cc | inr k ↦ k ]
