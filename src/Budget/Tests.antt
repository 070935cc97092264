-- ===== src/Budget/Tests.antt =====
-- A policy that moves one of two models, and the theorems applied to it.
use ai_finops_operator.Prelude.{
  ◌≡◌, refl, ◌+◌, ◌+ℤ◌, ◌-ℤ◌, ltb_ℤ, leb_ℤ, eqb_ℤ, ℤ, pos, add64, wrap64, String, true, false, List,
  [], ◌∷◌, if◌then◌else◌, ok, arith,
}
use ai_finops_operator.Prelude.Dict.{lookup, contains, insert}
use ai_finops_operator.Prelude.Float.{Floats}
use ai_finops_operator.Budget.Phases.{
  Thresholds, Actions, evaluate, percent_of, budget_phase_rank, count_if, evaluate-rank,
}
use ai_finops_operator.Budget.Samples.{
  UsageSample, matches, filter_by_budget_target, added, usage_from, usage_by_model, first_pass,
  second_pass, shared_models_outside_target,
}
use ai_finops_operator.Budget.Fallback.{
  CatalogModel, CatalogProvider, Catalog, BudgetSpec, FallbackDecision, fallback_phase_or_default,
  phase_rank, tier_rank, budget_fallback_phase_reached, model_by_name, price_of, price_book,
  priced_usage, check_latency, check_errors, is_dearer, is_moved, desired_from, check_policy,
  is_below_tier, budget_fallback_desired,
}
use ai_finops_operator.Budget.Fallback.Guarded.{
  IsGuarded, IsFallback, budget_fallback_desired-IsGuarded,
}

-- Whole numbers in place of floating-point ones; a product is its second factor.
abbrev whole_numbers : Floats
whole_numbers = record {
  Float = ℤ;
  literal = λ s. pos 0;
  of_int = λ a. a;
  to_int = λ a. a;
  to_int32 = λ a. a;
  add = λ a b. a +ℤ b;
  sub = λ a b. a -ℤ b;
  mul = λ a b. b;
  div = λ a b. a;
  lt = λ a b. ltb_ℤ a b;
  le = λ a b. leb_ℤ a b;
  eq = λ a b. eqb_ℤ a b;
  min = λ a b. if ltb_ℤ a b then a else b;
  max = λ a b. if ltb_ℤ a b then b else a;
  sqrt = λ a. a;
  floor = λ a. a;
  ceil = λ a. a;
  round = λ a. a;
}

abbrev thresholds : Thresholds
thresholds = record { warning_pct = pos 70; critical_pct = pos 90; hard_limit_pct = pos 100 }

abbrev actions : Actions
actions = record { on_warning = "mail" ∷ []; on_critical = []; on_hard_limit = "page" ∷ [] }

evaluate-rank_example :
    budget_phase_rank (evaluate whole_numbers (pos 95) (pos 100) thresholds actions).phase ≡ (
      if whole_numbers.le (pos 100) (whole_numbers.literal "0")
      then 0
      else 1
        + count_if (leb_ℤ (pos 70) (percent_of whole_numbers (pos 95) (pos 100)))
        + count_if (leb_ℤ (pos 90) (percent_of whole_numbers (pos 95) (pos 100)))
        + count_if (leb_ℤ (pos 100) (percent_of whole_numbers (pos 95) (pos 100))))
evaluate-rank_example =
    evaluate-rank whole_numbers (pos 95) (pos 100) thresholds actions (omega arith) (omega arith)

abbrev sample : String → String → UsageSample whole_numbers
sample team model = record {
  namespace = "n";
  application = "a";
  team = team;
  provider = "p";
  model = model;
  requests = pos 5;
  input_tokens = pos 10;
  output_tokens = pos 10;
  latency_millis = pos 20;
  errors = pos 0;
}

-- Of the models of team x, gpt-5 is its own and gpt-4 is also used by team y.
abbrev samples : List (UsageSample whole_numbers)
samples = sample "y" "gpt-4" ∷ sample "x" "gpt-4" ∷ sample "x" "gpt-5" ∷ []

abbrev priced_at : ℤ → CatalogProvider whole_numbers
priced_at price = record {
  managed = true;
  currency = "";
  input_price = price;
  output_price = price;
}

abbrev cat : Catalog whole_numbers
cat = record {
  providers = ("azure", priced_at (pos 9)) ∷ ("mistral", priced_at (pos 2)) ∷ [];
  models =
      record { name = "g4"; provider_ref = "azure"; model_name = "gpt-4"; quality_tier = "high" }
      ∷ record { name = "g5"; provider_ref = "azure"; model_name = "gpt-5"; quality_tier = "high" }
      ∷ record { name = "m"; provider_ref = "mistral"; model_name = "small"; quality_tier = "low" }
      ∷ [];
}

abbrev spec : BudgetSpec
spec = record {
  target = record { namespace = ""; team = "x"; application = "" };
  enforcement_mode = "enforce";
  fallback_model_ref = "m";
  fallback_on_phase = "";
  min_fallback_quality_tier = "low";
  max_fallback_latency_millis = pos 0;
  max_fallback_error_percent = pos 0;
}

abbrev moved : FallbackDecision
moved = record { desired = ("gpt-5", "small") ∷ []; active_model = "small" }

moves_gpt_5 :
    budget_fallback_desired whole_numbers [] cat samples
      (filter_by_budget_target whole_numbers samples spec.target)
      spec
      "Exceeded"
      "fake"
      false
    ≡ ok moved
unfolding budget_fallback_desired filter_by_budget_target matches check_policy
    budget_fallback_phase_reached fallback_phase_or_default phase_rank model_by_name lookup
    is_below_tier tier_rank check_latency check_errors price_book price_of insert usage_by_model
    usage_from added add64 ◌+ℤ◌ wrap64 shared_models_outside_target first_pass second_pass contains
    desired_from is_moved is_dearer priced_usage
moves_gpt_5 = refl

budget_fallback_desired-IsGuarded_example :
    (m : CatalogModel) × IsGuarded whole_numbers cat samples spec "Exceeded" "fake" false m
    × IsFallback whole_numbers [] cat samples spec m moved
budget_fallback_desired-IsGuarded_example =
    budget_fallback_desired-IsGuarded whole_numbers [] cat samples spec "Exceeded" "fake" false
      moves_gpt_5
