-- ===== src/Budget/Phases.antt =====
-- `Evaluate` of internal/budgetengine/budgetengine.go, without its message.
use ai_finops_operator.Prelude.{
  ◌≡◌, ℕ, ◌+◌, ℤ, leb_ℤ, ◌≤ℤ◌, String, Bool, List, [], if◌then◌else◌, arith, Bool-cases, inl, inr,
  refl,
}
use ai_finops_operator.Prelude.Float.{Floats}

pub record Thresholds : Type 0 where
  pub warning_pct : ℤ
  pub critical_pct : ℤ
  pub hard_limit_pct : ℤ

pub record Actions : Type 0 where
  pub on_warning : List String
  pub on_critical : List String
  pub on_hard_limit : List String

pub data Phase : Type 0 where
  unknown within_budget warning critical exceeded : Phase

-- budgetPhaseRank, on the phases that the engine gives
unfoldable pub budget_phase_rank : Phase → ℕ
budget_phase_rank Phase.unknown = 0
budget_phase_rank Phase.within_budget = 1
budget_phase_rank Phase.warning = 2
budget_phase_rank Phase.critical = 3
budget_phase_rank Phase.exceeded = 4

pub record Evaluation : Type 0 where
  pub phase : Phase
  pub usage_percent : ℤ
  pub triggered_actions : List String

-- The switch on the rounded percentage.
unfoldable pub evaluate_percent : ℤ → Thresholds → Actions → Evaluation
evaluate_percent pct t a =
    if leb_ℤ t.hard_limit_pct pct
    then record { phase = Phase.exceeded; usage_percent = pct; triggered_actions = a.on_hard_limit }
    else if leb_ℤ t.critical_pct pct
    then record { phase = Phase.critical; usage_percent = pct; triggered_actions = a.on_critical }
    else if leb_ℤ t.warning_pct pct
    then record { phase = Phase.warning; usage_percent = pct; triggered_actions = a.on_warning }
    else record { phase = Phase.within_budget; usage_percent = pct; triggered_actions = [] }

module _ (f : Floats) where
  unfoldable pub percent_of : (spend budget : f.Float) → ℤ
  percent_of spend budget = f.to_int32 (f.round (f.mul (f.div spend budget) (f.literal "100")))

  -- Evaluate
  unfoldable pub evaluate : (spend budget : f.Float) → Thresholds → Actions → Evaluation
  evaluate spend budget t a =
      if f.le budget (f.literal "0")
      then record { phase = Phase.unknown; usage_percent = ℤ.pos 0; triggered_actions = [] }
      else evaluate_percent (percent_of spend budget) t a

abbrev pub count_if : Bool → ℕ
count_if b = if b then 1 else 0

evaluate_percent-rank :
    (pct : ℤ) (t : Thresholds) (a : Actions)
    → t.warning_pct ≤ℤ t.critical_pct
    → t.critical_pct ≤ℤ t.hard_limit_pct
    → budget_phase_rank (evaluate_percent pct t a).phase
      ≡ 1
        + count_if (leb_ℤ t.warning_pct pct)
        + count_if (leb_ℤ t.critical_pct pct)
        + count_if (leb_ℤ t.hard_limit_pct pct)
unfolding budget_phase_rank evaluate_percent
evaluate_percent-rank pct t a h k = ground arith

-- For thresholds in order and a budget above zero, the rank of the phase is one more than the number
-- of thresholds that the rounded percentage has reached; for no budget it is the lowest.
pub evaluate-rank :
    (f : Floats) (spend budget : f.Float) (t : Thresholds) (a : Actions)
    → t.warning_pct ≤ℤ t.critical_pct
    → t.critical_pct ≤ℤ t.hard_limit_pct
    → budget_phase_rank (evaluate f spend budget t a).phase ≡ (
        if f.le budget (f.literal "0")
        then 0
        else 1
          + count_if (leb_ℤ t.warning_pct (percent_of f spend budget))
          + count_if (leb_ℤ t.critical_pct (percent_of f spend budget))
          + count_if (leb_ℤ t.hard_limit_pct (percent_of f spend budget)))
unfolding evaluate budget_phase_rank
evaluate-rank f spend budget t a h k = elim (Bool-cases (f.le budget (f.literal "0"))) [
  | inl e ↦ rw e refl
  | inr e ↦ rw e (evaluate_percent-rank (percent_of f spend budget) t a h k)
]
