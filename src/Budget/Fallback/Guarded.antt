-- ===== src/Budget/Fallback/Guarded.antt =====
-- What a fallback that `budgetFallbackDesired` of internal/controller/budgetfallback.go chooses obeys.
use ai_finops_operator.Prelude.{
  ◌≡◌, sym, ap, ◌∙◌, ◌≤◌, pos, ltb_ℤ, String, Bool, true, false, not, ◌==◌, List, [], Option, none,
  some, Result, ok, >>=-eq-ok, fail_if-eq-ok, arith,
}
use ai_finops_operator.Prelude.Dict.{Dict, lookup}
use ai_finops_operator.Prelude.Float.{Floats}
use ai_finops_operator.Budget.Samples.{
  UsageSample, filter_by_budget_target, usage_by_model, shared_models_outside_target,
}
use ai_finops_operator.Budget.Fallback.{
  CatalogModel, CatalogProvider, TokenPricing, Catalog, BudgetSpec, Reason, FallbackDecision,
  enforcement_enforce, fallback_phase_or_default, phase_rank, budget_fallback_phase_reached,
  model_by_name, need, price_book, Performance, observed_model_performance, is_too_slow,
  has_too_many_errors, check_latency, check_errors, desired_from, is_empty, check_policy,
  is_below_tier, budget_fallback_desired,
}
use ai_finops_operator.Budget.Fallback.Moved.{Moved, IsMoved, Moved-IsMoved, entry-Moved}

-- The conditions of the policy under which the fallback is chosen.
pub record IsGuarded (f : Floats) (cat : Catalog f) (all : List (UsageSample f)) (spec : BudgetSpec)
    (phase collector : String) (sovereign : Bool) (m : CatalogModel) : Type 0 where
  pub enforced : (spec.enforcement_mode == enforcement_enforce) ≡ true
  pub reached : phase_rank (fallback_phase_or_default spec.fallback_on_phase) ≤ phase_rank phase
  pub no_conflict : sovereign ≡ false
  pub named : model_by_name spec.fallback_model_ref cat.models ≡ some m
  pub provider : CatalogProvider f
  pub provided : lookup m.provider_ref cat.providers ≡ some provider
  pub managed : provider.managed ≡ true
  pub tier : is_below_tier f spec m ≡ false
  pub latency :
      ltb_ℤ (pos 0) spec.max_fallback_latency_millis ≡ true
      → is_too_slow f
          (observed_model_performance f all m.model_name)
          spec.max_fallback_latency_millis
        ≡ false
  pub errors :
      ltb_ℤ (pos 0) spec.max_fallback_error_percent ≡ true
      → has_too_many_errors f
          (observed_model_performance f all m.model_name)
          spec.max_fallback_error_percent
        ≡ false

check_policy-passes :
    (f : Floats) (spec : BudgetSpec) (phase : String) (sovereign : Bool)
    → check_policy f spec phase sovereign ≡ ok tt
    → ((spec.enforcement_mode == enforcement_enforce) ≡ true)
      × (phase_rank (fallback_phase_or_default spec.fallback_on_phase) ≤ phase_rank phase)
      × (sovereign ≡ false)
unfolding check_policy budget_fallback_phase_reached
check_policy-passes f spec phase sovereign h = ground arith

check_latency-passes :
    (f : Floats) (spec : BudgetSpec) (collector : String) (o : Performance f)
    → check_latency f spec collector o ≡ ok tt
    → ltb_ℤ (pos 0) spec.max_fallback_latency_millis ≡ true
    → is_too_slow f o spec.max_fallback_latency_millis ≡ false
unfolding check_latency
check_latency-passes f spec collector o h k = ground arith

check_errors-passes :
    (f : Floats) (spec : BudgetSpec) (collector : String) (o : Performance f)
    → check_errors f spec collector o ≡ ok tt
    → ltb_ℤ (pos 0) spec.max_fallback_error_percent ≡ true
    → has_too_many_errors f o spec.max_fallback_error_percent ≡ false
unfolding check_errors
check_errors-passes f spec collector o h k = ground arith

need-ok : {A : Type 0} (o : Option A) (e : Reason) {a : A} → need o e ≡ ok a → o ≡ some a
need-ok none e h = cc
need-ok (some b) e h = cc

-- What a decision says of the models that it moves.
pub record IsFallback (f : Floats) (defaults : Dict (TokenPricing f)) (cat : Catalog f)
    (all : List (UsageSample f)) (spec : BudgetSpec) (m : CatalogModel) (d : FallbackDecision)
    : Type 0 where
  pub active : d.active_model ≡ m.model_name
  pub fallback : TokenPricing f
  pub priced : lookup m.model_name (price_book f cat.providers cat.models defaults) ≡ some fallback
  pub to_fallback : (model t : String) → lookup model d.desired ≡ some t → t ≡ m.model_name
  pub moved :
      (model t : String)
      → lookup model d.desired ≡ some t
      → IsMoved f all spec.target
          (price_book f cat.providers cat.models defaults)
          fallback
          m.model_name
          model

ok_injective : {E A : Type 0} {a b : A} → ◌≡◌ {A = Result E A} (ok a) (ok b) → a ≡ b
ok_injective h = cc

-- A decision of `budgetFallbackDesired`, on the samples of the target among all, is taken only under
-- an enforced policy whose phase is reached, without enforced sovereignty, for a fallback model that
-- the catalogue has, of a managed provider, not below the wanted tier, and within the limits on latency
-- and errors that are set. Each model that it moves goes to the fallback, is another model, has samples
-- in the target and none outside it, and its usage in the target costs less at the fallback's price.
pub budget_fallback_desired-IsGuarded :
    (f : Floats) (defaults : Dict (TokenPricing f)) (cat : Catalog f) (all : List (UsageSample f))
    (spec : BudgetSpec) (phase collector : String) (sovereign : Bool) {d : FallbackDecision}
    → budget_fallback_desired f defaults cat all
        (filter_by_budget_target f all spec.target)
        spec
        phase
        collector
        sovereign
      ≡ ok d
    → (m : CatalogModel) × IsGuarded f cat all spec phase collector sovereign m
      × IsFallback f defaults cat all spec m d
unfolding budget_fallback_desired
budget_fallback_desired-IsGuarded f defaults cat all spec phase collector sovereign {d} h =
    let scoped = filter_by_budget_target f all spec.target in
    let (u, policy, h₁) = >>=-eq-ok (check_policy f spec phase sovereign) _ h in
    let (m, fm, h₂) =
      >>=-eq-ok (need (model_by_name spec.fallback_model_ref cat.models) Reason.unknown_model) _
        h₁ in
    let (p, fp, h₃) =
      >>=-eq-ok (need (lookup m.provider_ref cat.providers) Reason.unknown_provider) _ h₂ in
    let (managed, h₄) = fail_if-eq-ok (not p.managed) _ _ h₃ in
    let (tier, h₅) = fail_if-eq-ok (is_below_tier f spec m) _ _ h₄ in
    let o = observed_model_performance f all m.model_name in
    let (v, latency, h₆) = >>=-eq-ok (check_latency f spec collector o) _ h₅ in
    let (w, errors, h₇) = >>=-eq-ok (check_errors f spec collector o) _ h₆ in
    let pb = price_book f cat.providers cat.models defaults in
    let (fallback, fb, h₈) = >>=-eq-ok (need (lookup m.model_name pb) Reason.no_price) _ h₇ in
    let (used, h₉) = fail_if-eq-ok (is_empty f (usage_by_model f scoped)) _ _ h₈ in
    let shared = shared_models_outside_target f all spec.target in
    let desired = desired_from f m.model_name fallback shared pb (usage_by_model f scoped) [] in
    let (some_moved, k) = fail_if-eq-ok (is_empty f desired) _ _ h₉ in
    let same : record { desired = desired; active_model = m.model_name } ≡ d =
      ok_injective {E = Reason} k in
    let (enforced, reached, no_conflict) = check_policy-passes f spec phase sovereign policy in
    let in_desired : (model t : String)
        → lookup model d.desired ≡ some t
        → lookup model desired ≡ some t =
      λ model t e. ap (λ (x : FallbackDecision). lookup model x.desired) same ∙ e in
    let entry : (model t : String)
        → lookup model d.desired ≡ some t
        → Moved f m.model_name fallback shared pb (usage_by_model f scoped) model t =
      λ model t e.
        entry-Moved f m.model_name fallback shared pb scoped model t (in_desired model t e) in
    (
      m,
      record {
        enforced = enforced;
        reached = reached;
        no_conflict = no_conflict;
        named = need-ok (model_by_name spec.fallback_model_ref cat.models) Reason.unknown_model fm;
        provider = p;
        provided = need-ok (lookup m.provider_ref cat.providers) Reason.unknown_provider fp;
        managed = ground arith;
        tier = tier;
        latency = check_latency-passes f spec collector o latency;
        errors = check_errors-passes f spec collector o errors;
      },
      record {
        active = ap (λ (x : FallbackDecision). x.active_model) (sym same);
        fallback = fallback;
        priced = need-ok (lookup m.model_name pb) Reason.no_price fb;
        to_fallback = λ model t e. (entry model t e).1;
        moved = λ model t e.
            Moved-IsMoved f all spec.target pb fallback m.model_name model t (entry model t e);
      },
    )
