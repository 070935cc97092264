-- ===== src/Calibration/Authoritative/Detected.antt =====
-- When BuildAuthoritativeDriftWindow of internal/govarcalibration/authoritative.go detects a gap.
use ai_finops_operator.Prelude.{
  ◌≡◌, refl, ap, ◌≤◌, ◌<◌, ◌↔◌, ℕ, suc, ◌+◌, ◌*◌, ◌/◌, ℤ, pos, pos_part, ltb_ℤ, String, true, false,
  ◌==◌, List, [], ◌∷◌, length, All, arith, ok, >>=-eq-ok, fail_if-eq-ok,
}
use ai_finops_operator.Prelude.Float.{Floats}
use ai_finops_operator.Calibration.Rows.{split_monitoring}
use ai_finops_operator.Calibration.Artifact.{Artifact, billion, covered_count}
use ai_finops_operator.Calibration.Drift.{drift_result}
use ai_finops_operator.Calibration.Drift.Detected.{answer-detects}
use ai_finops_operator.Calibration.Authoritative.Rows.{
  RegimeDigests, AuthoritativeObservation, same_regimes, validate_regimes,
  validate_authoritative_observation, JsonDigests, authoritative_observation_digest, outputs_of,
  first_settled, last_settled, settled_first,
}
use ai_finops_operator.Calibration.Authoritative.Window.{
  AuthoritativeDriftWindow, is_other_window, validate_monitoring, is_unusable, is_other_regime,
  window_of, build_authoritative_drift_window,
}
use ai_finops_operator.Calibration.Authoritative.Distinct.{rows_of, digest-once}

-- A row of the monitoring split in the regimes.
pub record IsMonitoring (regimes : RegimeDigests) (row : AuthoritativeObservation) : Type 0 where
  pub complete : validate_authoritative_observation row ≡ ok tt
  pub in_split : (row.split == split_monitoring) ≡ true
  pub in_regimes : same_regimes row.regimes regimes ≡ true

is_other_window-false :
    (regimes : RegimeDigests) (row : AuthoritativeObservation)
    → is_other_window regimes row ≡ false
    → ((row.split == split_monitoring) ≡ true) × (same_regimes row.regimes regimes ≡ true)
unfolding is_other_window
is_other_window-false regimes row h = ground arith

validate_monitoring-AreMonitoring :
    (regimes : RegimeDigests) (rows : List AuthoritativeObservation)
    → validate_monitoring regimes rows ≡ ok tt
    → All (IsMonitoring regimes) rows
unfolding validate_monitoring
validate_monitoring-AreMonitoring regimes [] h = tt
validate_monitoring-AreMonitoring regimes (r ∷ rs) h =
    let (u, e, h₁) = >>=-eq-ok (validate_authoritative_observation r) _ h in
    let (o, h₂) = fail_if-eq-ok (is_other_window regimes r) _ _ h₁ in
    let (s, g) = is_other_window-false regimes r o in
    (
      record { complete = e; in_split = s; in_regimes = g },
      validate_monitoring-AreMonitoring regimes rs h₂,
    )

length-outputs_of : (rows : List AuthoritativeObservation) → length (outputs_of rows) ≡ length rows
unfolding outputs_of
length-outputs_of [] = refl
length-outputs_of (r ∷ rs) = ap (λ (n : ℕ). suc n) (length-outputs_of rs)

is_unusable-false :
    (a : Artifact) (threshold : ℤ) (rows : List AuthoritativeObservation)
    → is_unusable a threshold rows ≡ false
    → ltb_ℤ threshold (pos 0) ≡ false
unfolding is_unusable
is_unusable-false a threshold rows h = ground arith

-- `BuildAuthoritativeDriftWindow` answers only for complete rows of the monitoring split and of the
-- given regimes, no two of one request. For a target in range and at most nine billion rows the window
-- detects a gap exactly when the share of rows within the artifact's bound, in parts of a billion
-- rounded down, is below the artifact's target by more than the threshold.
pub drift_window-detects :
    (f : Floats) (env : JsonDigests) (a : Artifact) (regimes : RegimeDigests) (threshold : ℤ)
    (rows : List AuthoritativeObservation) (target : ℕ) {w : AuthoritativeDriftWindow}
    → a.coverage_target_ppb ≡ pos target
    → target ≤ billion
    → length rows ≤ 9_000_000_000
    → build_authoritative_drift_window f env a regimes threshold rows ≡ ok w
    → All (IsMonitoring regimes) rows
      × ((id : String) → rows_of id rows ≤ 1)
      × ((w.result.detected ≡ true) ↔ (
          pos_part threshold
            + covered_count a.upper_output_tokens (outputs_of rows) * billion / length rows
          < target))
unfolding build_authoritative_drift_window window_of
drift_window-detects f env a regimes threshold rows target {w} e t l h =
    let (b, h₁) = fail_if-eq-ok (is_unusable a threshold rows) _ _ h in
    let (u, v, h₂) = >>=-eq-ok (validate_regimes regimes) _ h₁ in
    let (c, h₃) = fail_if-eq-ok (is_other_regime a regimes) _ _ h₂ in
    let (x, y, h₄) = >>=-eq-ok (validate_monitoring regimes rows) _ h₃ in
    let (digest, d, h₅) = >>=-eq-ok (authoritative_observation_digest env rows) _ h₄ in
    let answer : drift_result f a.coverage_target_ppb a.upper_output_tokens threshold digest
          (outputs_of rows) (first_settled (settled_first rows) rows)
          (last_settled (settled_first rows) rows)
        ≡ w.result =
      cc h₅ in
    (
      validate_monitoring-AreMonitoring regimes rows y,
      (λ id. digest-once env rows id d),
      answer-detects f target a.coverage_target_ppb threshold a.upper_output_tokens digest
          (outputs_of rows) (first_settled (settled_first rows) rows)
          (last_settled (settled_first rows) rows) (length rows)
          (is_unusable-false a threshold rows b) e t (length-outputs_of rows) l answer,
    )
