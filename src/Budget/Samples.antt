-- ===== src/Budget/Samples.antt =====
-- Usage samples and the target of a budget: internal/collectors/collector.go, and the helpers of
-- internal/controller/budgetfallback.go and catalog.go.
use ai_finops_operator.Prelude.{
  ◌≡◌, refl, sym, ◌∙◌, ap, ℤ, pos, add64, String, Bool, true, false, not, ◌&&◌, ◌||◌, ◌==◌, List,
  [], ◌∷◌, Option, none, some, if◌then◌else◌, arith, eq_iff, Bool-cases, inl, inr, ||-eq-false,
}
use ai_finops_operator.Prelude.Dict.{
  Dict, lookup, contains, insert, contains-insert, IsKeyed, insert-IsKeyed,
}
use ai_finops_operator.Prelude.Float.{Floats}

pub record UsageSample (f : Floats) : Type 0 where
  pub namespace : String
  pub application : String
  pub team : String
  pub provider : String
  pub model : String
  pub requests : ℤ
  pub input_tokens : ℤ
  pub output_tokens : ℤ
  pub latency_millis : f.Float
  pub errors : ℤ

pub record BudgetTarget : Type 0 where
  pub namespace : String
  pub team : String
  pub application : String

pub record ScopedModelUsage : Type 0 where
  pub requests : ℤ
  pub input_tokens : ℤ
  pub output_tokens : ℤ

abbrev pub no_usage : ScopedModelUsage
no_usage = record { requests = pos 0; input_tokens = pos 0; output_tokens = pos 0 }

or_false : (a : Bool) → a ≡ (a || false)
or_false true = refl
or_false false = refl

or_swap : (a b c : Bool) → ((a || b) || c) ≡ (b || (a && true || c))
or_swap true true c = refl
or_swap true false c = refl
or_swap false b c = refl

or_assoc : (a b c : Bool) → ((a || b) || c) ≡ (a || (b || c))
or_assoc true b c = refl
or_assoc false b c = refl

contains-insert_if :
    (b : Bool) (k m : String) (ins : Dict Bool)
    → contains m (if b then insert k true ins else ins) ≡ (contains m ins || k == m && b)
contains-insert_if true k m ins = contains-insert k m true ins ∙ ground arith
contains-insert_if false k m ins = ground arith

contains-insert_known :
    (b : Bool) (k m : String) (ins shared : Dict Bool)
    → contains m ins ≡ true
    → contains m (if b && contains k ins then insert k true shared else shared)
      ≡ (contains m shared || k == m && b)
contains-insert_known b k m ins shared h =
    ground (arith, contains-insert k m true shared, eq_iff k m)

and_false : (a b : Bool) → b ≡ (a && false || b)
and_false true b = refl
and_false false b = refl

module _ (f : Floats) where
  -- budgetTargetMatchesSample, and the test of filterByBudgetTarget
  unfoldable pub matches : UsageSample f → BudgetTarget → Bool
  matches s t =
      (t.namespace == "" || s.namespace == t.namespace)
      && (t.team == "" || s.team == t.team)
      && (t.application == "" || s.application == t.application)

  unfoldable pub filter_by_budget_target :
      List (UsageSample f) → BudgetTarget → List (UsageSample f)
  filter_by_budget_target [] t = []
  filter_by_budget_target (s ∷ ss) t =
      let rest = filter_by_budget_target ss t in if matches s t then s ∷ rest else rest

  -- The entry of a model with a sample added; a missing entry is one of zeros.
  abbrev pub usage_or_none : Option ScopedModelUsage → ScopedModelUsage
  usage_or_none none = no_usage
  usage_or_none (some u) = u

  unfoldable pub added : Option ScopedModelUsage → UsageSample f → ScopedModelUsage
  added o s = record {
    requests = add64 (usage_or_none o).requests s.requests;
    input_tokens = add64 (usage_or_none o).input_tokens s.input_tokens;
    output_tokens = add64 (usage_or_none o).output_tokens s.output_tokens;
  }

  unfoldable pub usage_from : List (UsageSample f) → Dict ScopedModelUsage → Dict ScopedModelUsage
  usage_from [] out = out
  usage_from (s ∷ ss) out = usage_from ss (insert s.model (added (lookup s.model out) s) out)

  -- usageByModel
  unfoldable pub usage_by_model : List (UsageSample f) → Dict ScopedModelUsage
  usage_by_model samples = usage_from samples []

  -- The first loop of sharedModelsOutsideTarget.
  unfoldable pub first_pass :
      List (UsageSample f) → BudgetTarget → (in_target shared : Dict Bool) → Dict Bool × Dict Bool
  first_pass [] t in_target shared = (in_target, shared)
  first_pass (s ∷ ss) t in_target shared =
      first_pass ss t (if matches s t then insert s.model true in_target else in_target) (
        if not (matches s t) && contains s.model in_target
        then insert s.model true shared
        else shared)

  -- Its second loop.
  unfoldable pub second_pass :
      List (UsageSample f) → BudgetTarget → (in_target shared : Dict Bool) → Dict Bool
  second_pass [] t in_target shared = shared
  second_pass (s ∷ ss) t in_target shared = second_pass ss t in_target (
      if not (matches s t) && contains s.model in_target
      then insert s.model true shared
      else shared)

  unfoldable pub shared_models_outside_target : List (UsageSample f) → BudgetTarget → Dict Bool
  shared_models_outside_target samples t =
      let (in_target, shared) = first_pass samples t [] [] in second_pass samples t in_target shared

  -- Some sample is of the model and, as the test says, of the target.
  abbrev pub uses : (UsageSample f → Bool) → String → List (UsageSample f) → Bool
  uses test m [] = false
  uses test m (s ∷ ss) = s.model == m && test s || uses test m ss

  -- The models of the map are those of the samples.
  contains-usage_from :
      (m : String) (samples : List (UsageSample f)) (out : Dict ScopedModelUsage)
      → contains m (usage_from samples out) ≡ (contains m out || uses (λ s. true) m samples)
  unfolding usage_from
  contains-usage_from m [] out = or_false (contains m out)
  contains-usage_from m (s ∷ ss) out =
      contains-usage_from m ss (insert s.model (added (lookup s.model out) s) out)
      ∙ ap (λ b. b || uses (λ s. true) m ss)
          (contains-insert s.model m (added (lookup s.model out) s) out)
      ∙ or_swap (s.model == m) (contains m out) (uses (λ s. true) m ss)

  usage_from-IsKeyed :
      (samples : List (UsageSample f)) (out : Dict ScopedModelUsage)
      → IsKeyed out
      → IsKeyed (usage_from samples out)
  unfolding usage_from
  usage_from-IsKeyed [] out h = h
  usage_from-IsKeyed (s ∷ ss) out h =
      usage_from-IsKeyed ss (insert s.model (added (lookup s.model out) s) out)
        (insert-IsKeyed s.model (added (lookup s.model out) s) out h)

  pub usage_by_model-IsKeyed : (samples : List (UsageSample f)) → IsKeyed (usage_by_model samples)
  unfolding usage_by_model
  usage_by_model-IsKeyed samples = usage_from-IsKeyed samples [] tt

  pub contains-usage_by_model :
      (m : String) (samples : List (UsageSample f))
      → contains m (usage_by_model samples) ≡ uses (λ s. true) m samples
  unfolding usage_by_model contains lookup
  contains-usage_by_model m samples = contains-usage_from m samples []

  -- A sample that was kept is of the target.
  pub uses-filter_by_budget_target :
      (m : String) (samples : List (UsageSample f)) (t : BudgetTarget)
      → uses (λ s. true) m (filter_by_budget_target samples t) ≡ uses (λ s. matches s t) m samples
  unfolding filter_by_budget_target
  uses-filter_by_budget_target m [] t = refl
  uses-filter_by_budget_target m (s ∷ ss) t = elim (Bool-cases (matches s t)) [
    | inl e ↦ rw e (ap (λ b. s.model == m && true || b) (uses-filter_by_budget_target m ss t))
    | inr e ↦ rw e (
        uses-filter_by_budget_target m ss t
        ∙ and_false (s.model == m) (uses (λ s. matches s t) m ss))
  ]

  first_pass-in_target :
      (m : String) (samples : List (UsageSample f)) (t : BudgetTarget) (ins shared : Dict Bool)
      → contains m (first_pass samples t ins shared).0
        ≡ (contains m ins || uses (λ s. matches s t) m samples)
  unfolding first_pass
  first_pass-in_target m [] t ins shared = or_false (contains m ins)
  first_pass-in_target m (s ∷ ss) t ins shared =
      first_pass-in_target m ss t (if matches s t then insert s.model true ins else ins)
        (if not (matches s t) && contains s.model ins then insert s.model true shared else shared)
      ∙ ap (λ b. b || uses (λ s. matches s t) m ss) (contains-insert_if (matches s t) s.model m ins)
      ∙ or_assoc (contains m ins) (s.model == m && matches s t) (uses (λ s. matches s t) m ss)

  second_pass-shared :
      (m : String) (samples : List (UsageSample f)) (t : BudgetTarget) (ins shared : Dict Bool)
      → contains m ins ≡ true
      → contains m (second_pass samples t ins shared)
        ≡ (contains m shared || uses (λ s. not (matches s t)) m samples)
  unfolding second_pass
  second_pass-shared m [] t ins shared h = or_false (contains m shared)
  second_pass-shared m (s ∷ ss) t ins shared h =
      second_pass-shared m ss t ins
        (if not (matches s t) && contains s.model ins then insert s.model true shared else shared) h
      ∙ ap (λ b. b || uses (λ s. not (matches s t)) m ss)
          (contains-insert_known (not (matches s t)) s.model m ins shared h)
      ∙ or_assoc (contains m shared) (s.model == m && not (matches s t))
          (uses (λ s. not (matches s t)) m ss)

  -- A model of the target that is not shared has no sample outside the target.
  pub not_shared :
      (m : String) (samples : List (UsageSample f)) (t : BudgetTarget)
      → uses (λ s. matches s t) m samples ≡ true
      → contains m (shared_models_outside_target samples t) ≡ false
      → uses (λ s. not (matches s t)) m samples ≡ false
  unfolding shared_models_outside_target contains lookup
  not_shared m samples t h k =
      let (ins, shared) = first_pass samples t [] [] in
      (||-eq-false (contains m shared) (uses (λ s. not (matches s t)) m samples) (
        sym (second_pass-shared m samples t ins shared (first_pass-in_target m samples t [] [] ∙ h))
        ∙ k)).1
