-- ===== src/Budget/Fallback.antt =====
-- `budgetFallbackDesired` of internal/controller/budgetfallback.go, and the parts of the catalogue
-- (internal/controller/catalog.go) that it reads.
pub mod Moved
pub mod Guarded
use ai_finops_operator.Prelude.{
  ◌≡◌, ℕ, ltb, leb, eqb, ℤ, pos, add64, ltb_ℤ, leb_ℤ, String, Bool, true, false, not, ◌&&◌, ◌||◌,
  ◌==◌, List, [], ◌∷◌, Option, none, some, if◌then◌else◌, Result, ok, err, ◌>>=◌, ◌>>◌, fail_if,
}
use ai_finops_operator.Prelude.Dict.{Dict, lookup, contains, insert}
use ai_finops_operator.Prelude.Float.{Floats}
use ai_finops_operator.Budget.Samples.{
  UsageSample, BudgetTarget, ScopedModelUsage, usage_by_model, shared_models_outside_target,
}

pub record CatalogModel : Type 0 where
  pub name : String
  pub provider_ref : String
  pub model_name : String
  pub quality_tier : String

pub record CatalogProvider (f : Floats) : Type 0 where
  pub managed : Bool
  pub currency : String
  pub input_price : f.Float
  pub output_price : f.Float

pub record TokenPricing (f : Floats) : Type 0 where
  pub currency : String
  pub input_per_million : f.Float
  pub output_per_million : f.Float

pub record Catalog (f : Floats) : Type 0 where
  pub providers : Dict (CatalogProvider f)
  pub models : List CatalogModel

pub record BudgetSpec : Type 0 where
  pub target : BudgetTarget
  pub enforcement_mode : String
  pub fallback_model_ref : String
  pub fallback_on_phase : String
  pub min_fallback_quality_tier : String
  pub max_fallback_latency_millis : ℤ
  pub max_fallback_error_percent : ℤ

pub data Reason : Type 0 where
  no_fallback advisory below_phase sovereignty_active unknown_model : Reason
  unknown_provider unmanaged below_tier no_latency_telemetry no_latency too_slow : Reason
  no_error_telemetry no_error_rate too_many_errors no_price no_usage_seen : Reason
  nothing_cheaper : Reason

pub record FallbackDecision : Type 0 where
  pub desired : Dict String
  pub active_model : String

abbrev pub enforcement_enforce : String
enforcement_enforce = "enforce"

-- fallbackPhaseOrDefault, budgetPhaseRank and tierRank
unfoldable pub fallback_phase_or_default : String → String
fallback_phase_or_default v = if v == "" then "Exceeded" else v

unfoldable pub phase_rank : String → ℕ
phase_rank phase =
    if phase == "Exceeded"
    then 4
    else if phase == "Critical"
    then 3
    else if phase == "Warning"
    then 2
    else if phase == "WithinBudget"
    then 1
    else 0

unfoldable pub tier_rank : String → ℕ
tier_rank t = if t == "high" then 3 else if t == "medium" then 2 else if t == "low" then 1 else 0

unfoldable pub budget_fallback_phase_reached : (phase threshold : String) → Bool
budget_fallback_phase_reached phase threshold =
    leb (phase_rank (fallback_phase_or_default threshold)) (phase_rank phase)

unfoldable pub collector_supports_latency : String → Bool
collector_supports_latency name =
    name == "configmap" || name == "fake" || name == "prometheus" || name == "aigw"

unfoldable pub collector_supports_errors : String → Bool
collector_supports_errors name = name == "configmap" || name == "fake" || name == "prometheus"

-- modelByName
unfoldable pub model_by_name : String → List CatalogModel → Option CatalogModel
model_by_name name [] = none
model_by_name name (m ∷ ms) = if m.name == name then some m else model_by_name name ms

abbrev pub need : {A : Type 0} → Option A → Reason → Result Reason A
need none e = err e
need (some a) e = ok a

module _ (f : Floats) where
  -- priceBook, over the built-in prices
  unfoldable pub price_of : CatalogProvider f → TokenPricing f
  price_of p = record {
    currency = if p.currency == "" then "EUR" else p.currency;
    input_per_million = p.input_price;
    output_per_million = p.output_price;
  }

  unfoldable pub price_book :
      Dict (CatalogProvider f) → List CatalogModel → Dict (TokenPricing f) → Dict (TokenPricing f)
  price_book providers [] pb = pb
  price_book providers (m ∷ ms) pb =
      price_book providers ms (elim (lookup m.provider_ref providers) [
        | none ↦ pb
        | some p ↦ insert m.model_name (price_of p) pb
      ])

  unfoldable pub priced_usage : ScopedModelUsage → TokenPricing f → f.Float
  priced_usage u p =
      f.add (f.mul (f.div (f.of_int u.input_tokens) (f.literal "1e6")) p.input_per_million)
        (f.mul (f.div (f.of_int u.output_tokens) (f.literal "1e6")) p.output_per_million)

  pub record Performance : Type 0 where
    pub requests : ℤ
    pub errors : ℤ
    pub weighted : f.Float
    pub seen : Bool

  unfoldable pub observe : List (UsageSample f) → String → Performance → Performance
  observe [] model o = o
  observe (s ∷ ss) model o = observe ss model (
      if s.model == model
      then record {
        requests = add64 o.requests s.requests;
        errors = add64 o.errors s.errors;
        weighted = f.add o.weighted (f.mul s.latency_millis (f.of_int s.requests));
        seen = true;
      }
      else o)

  -- observedModelPerformance
  unfoldable pub observed_model_performance : List (UsageSample f) → String → Performance
  observed_model_performance samples model =
      observe samples model
        (record { requests = pos 0; errors = pos 0; weighted = f.literal "0"; seen = false })

  unfoldable pub mean_latency : Performance → f.Float
  mean_latency o =
      if ltb_ℤ (pos 0) o.requests then f.div o.weighted (f.of_int o.requests) else f.literal "0"

  unfoldable pub is_too_slow : Performance → ℤ → Bool
  is_too_slow o limit = f.lt (f.of_int limit) (mean_latency o)

  unfoldable pub has_too_many_errors : Performance → ℤ → Bool
  has_too_many_errors o limit =
      f.lt (f.of_int limit)
        (f.div (f.mul (f.of_int o.errors) (f.literal "100")) (f.of_int o.requests))

  unfoldable pub check_latency :
      BudgetSpec → (collector : String) → Performance → Result Reason (Unit {0})
  check_latency spec collector o =
      if not (ltb_ℤ (pos 0) spec.max_fallback_latency_millis) then ok tt else do
        fail_if (not (collector_supports_latency collector)) Reason.no_latency_telemetry
        fail_if (not o.seen) Reason.no_latency
        fail_if (is_too_slow o spec.max_fallback_latency_millis) Reason.too_slow
        ok tt

  unfoldable pub check_errors :
      BudgetSpec → (collector : String) → Performance → Result Reason (Unit {0})
  check_errors spec collector o =
      if not (ltb_ℤ (pos 0) spec.max_fallback_error_percent) then ok tt else do
        fail_if (not (collector_supports_errors collector)) Reason.no_error_telemetry
        fail_if (not o.seen || leb_ℤ o.requests (pos 0)) Reason.no_error_rate
        fail_if (has_too_many_errors o spec.max_fallback_error_percent) Reason.too_many_errors
        ok tt

  -- Whether the loop sends the model to the fallback.
  unfoldable pub is_dearer : ScopedModelUsage → TokenPricing f → Option (TokenPricing f) → Bool
  is_dearer u fallback none = false
  is_dearer u fallback (some current) = f.lt (priced_usage u fallback) (priced_usage u current)

  unfoldable pub is_moved :
      (target : String) (fallback : TokenPricing f) (shared : Dict Bool)
      (pb : Dict (TokenPricing f))
      → String
      → ScopedModelUsage
      → Bool
  is_moved target fallback shared pb model u =
      not (model == target) && not (contains model shared) && is_dearer u fallback (lookup model pb)

  unfoldable pub desired_from :
      (target : String) (fallback : TokenPricing f) (shared : Dict Bool)
      (pb : Dict (TokenPricing f))
      → Dict ScopedModelUsage
      → Dict String
      → Dict String
  desired_from target fallback shared pb [] out = out
  desired_from target fallback shared pb ((model, u) ∷ us) out =
      desired_from target fallback shared pb us
        (if is_moved target fallback shared pb model u then insert model target out else out)

  abbrev pub is_empty : {A : Type 0} → List A → Bool
  is_empty [] = true
  is_empty (a ∷ as') = false

  -- The guards before the model is looked up.
  unfoldable pub check_policy :
      BudgetSpec → (phase : String) (sovereignty_enforced : Bool) → Result Reason (Unit {0})
  check_policy spec phase sovereignty_enforced = do
    fail_if (spec.fallback_model_ref == "") Reason.no_fallback
    fail_if (not (spec.enforcement_mode == enforcement_enforce)) Reason.advisory
    fail_if (not (budget_fallback_phase_reached phase spec.fallback_on_phase)) Reason.below_phase
    fail_if sovereignty_enforced Reason.sovereignty_active
    ok tt

  unfoldable pub is_below_tier : BudgetSpec → CatalogModel → Bool
  is_below_tier spec m =
      not (spec.min_fallback_quality_tier == "")
      && ltb (tier_rank m.quality_tier) (tier_rank spec.min_fallback_quality_tier)

  -- budgetFallbackDesired
  unfoldable pub budget_fallback_desired :
      (defaults : Dict (TokenPricing f))
      → Catalog f
      → (all scoped : List (UsageSample f)) → BudgetSpec
      → (phase collector : String) (sovereignty_enforced : Bool) → Result Reason FallbackDecision
  budget_fallback_desired defaults cat all scoped spec phase collector sovereignty_enforced = do
    check_policy spec phase sovereignty_enforced
    m ← need (model_by_name spec.fallback_model_ref cat.models) Reason.unknown_model
    p ← need (lookup m.provider_ref cat.providers) Reason.unknown_provider
    fail_if (not p.managed) Reason.unmanaged
    fail_if (is_below_tier spec m) Reason.below_tier
    check_latency spec collector (observed_model_performance all m.model_name)
    check_errors spec collector (observed_model_performance all m.model_name)
    let pb = price_book cat.providers cat.models defaults
    fallback ← need (lookup m.model_name pb) Reason.no_price
    let usages = usage_by_model f scoped
    fail_if (is_empty usages) Reason.no_usage_seen
    let shared = shared_models_outside_target f all spec.target
    let desired = desired_from m.model_name fallback shared pb usages []
    fail_if (is_empty desired) Reason.nothing_cheaper
    ok (record { desired = desired; active_model = m.model_name })
