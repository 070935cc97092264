-- ===== src/Calibration/Authoritative/Window.antt =====
-- `BuildAuthoritativeDriftWindow` of internal/govarcalibration/authoritative.go.
use ai_finops_operator.Prelude.{
  eqb, ℤ, pos, ltb_ℤ, String, Bool, not, ◌||◌, ◌==◌, List, [], ◌∷◌, length, Result, ok, ◌>>=◌, ◌>>◌,
  fail_if,
}
use ai_finops_operator.Prelude.Float.{Floats}
use ai_finops_operator.Calibration.Rows.{is_lower_sha256, split_monitoring}
use ai_finops_operator.Calibration.Artifact.{Artifact, billion}
use ai_finops_operator.Calibration.Drift.{DriftResult, drift_result}
use ai_finops_operator.Calibration.Authoritative.Rows.{
  RegimeDigests, AuthoritativeObservation, AuthoritativeError, authoritative_artifact_schema,
  same_regimes, validate_regimes, validate_authoritative_observation, JsonDigests,
  authoritative_observation_digest, outputs_of, first_settled, last_settled, settled_first,
}

pub record AuthoritativeDriftWindow : Type 0 where
  pub schema_version : String
  pub artifact_sha256 : String
  pub drift_sha256 : String
  pub result : DriftResult
  pub regimes : RegimeDigests

-- The guard of BuildAuthoritativeDriftWindow on a row.
unfoldable pub is_other_window : RegimeDigests → AuthoritativeObservation → Bool
is_other_window regimes row =
    not (row.split == split_monitoring) || not (same_regimes row.regimes regimes)

unfoldable pub validate_monitoring :
    RegimeDigests → List AuthoritativeObservation → Result AuthoritativeError (Unit {0})
validate_monitoring regimes [] = ok tt
validate_monitoring regimes (r ∷ rs) = do
  validate_authoritative_observation r
  fail_if (is_other_window regimes r) AuthoritativeError.regime_mismatch
  validate_monitoring regimes rs

unfoldable pub is_unusable : Artifact → ℤ → List AuthoritativeObservation → Bool
is_unusable artifact threshold rows =
    not (artifact.schema_version == authoritative_artifact_schema)
    || not (is_lower_sha256 artifact.artifact_sha256)
    || ltb_ℤ threshold (pos 0)
    || ltb_ℤ (pos billion) threshold
    || eqb (length rows) 0

unfoldable pub is_other_regime : Artifact → RegimeDigests → Bool
is_other_regime artifact regimes =
    not (artifact.feature_regime_sha256 == regimes.feature_sha256)
    || not (artifact.price_regime_sha256 == regimes.price_sha256)
    || not (artifact.cap_regime_sha256 == regimes.cap_path_adapter_sha256)
    || not (artifact.cohort_regime_sha256 == regimes.cohort_sha256)
    || not (artifact.producer_software_sha256 == regimes.producer_software_sha256)

unfoldable pub window_of :
    JsonDigests → Artifact → RegimeDigests → DriftResult → AuthoritativeDriftWindow
window_of env artifact regimes result = record {
  schema_version = "govar-authoritative-drift-v1";
  artifact_sha256 = artifact.artifact_sha256;
  drift_sha256 = env.window_sha256 artifact.artifact_sha256 result regimes;
  result = result;
  regimes = regimes;
}

-- BuildAuthoritativeDriftWindow
unfoldable pub build_authoritative_drift_window :
    Floats
    → JsonDigests
    → Artifact
    → RegimeDigests
    → ℤ
    → List AuthoritativeObservation
    → Result AuthoritativeError AuthoritativeDriftWindow
build_authoritative_drift_window f env artifact regimes threshold rows = do
  fail_if (is_unusable artifact threshold rows) AuthoritativeError.no_artifact
  validate_regimes regimes
  fail_if (is_other_regime artifact regimes) AuthoritativeError.wrong_artifact
  validate_monitoring regimes rows
  digest ← authoritative_observation_digest env rows
  ok (
      window_of env artifact regimes (
        drift_result f artifact.coverage_target_ppb artifact.upper_output_tokens threshold digest
          (outputs_of rows) (first_settled (settled_first rows) rows)
          (last_settled (settled_first rows) rows)))
