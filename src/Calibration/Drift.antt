-- ===== src/Calibration/Drift.antt =====
-- `DetectCoverageGap` and `wilsonIntervalPPB` of internal/govarcalibration/calibration.go.
pub mod Detected
use ai_finops_operator.Prelude.{
  ℕ, ◌+◌, ◌-◌, ◌*◌, ◌/◌, ◌%◌, ◌^◌, ltb, leb, eqb, ℤ, pos, sub_ℕ, ◌-ℤ◌, wrap64, ltb_ℤ, leb_ℤ,
  max_int64, String, Bool, true, false, not, ◌||◌, List, [], ◌∷◌, if◌then◌else◌, length, Result, ok,
  err, ◌>>=◌, ◌>>◌, fail_if,
}
use ai_finops_operator.Prelude.Float.{Floats}
use ai_finops_operator.Calibration.Rows.{
  Instant, Observation, BuildConfig, BuildError, validate_rows, observation_digest,
}
use ai_finops_operator.Calibration.Artifact.{
  Artifact, Digests, billion, tokens_of, earliest, latest, covered_count,
}

pub record DriftResult : Type 0 where
  pub detector : String
  pub threshold_ppb : ℤ
  pub monitoring_input_sha256 : String
  pub support : ℕ
  pub covered : ℕ
  pub empirical_coverage_ppb : ℤ
  pub confidence_ppb : ℕ
  pub interval_lower_ppb : ℤ
  pub interval_upper_ppb : ℤ
  pub coverage_gap_ppb : ℤ
  pub detected : Bool
  pub window_start : Instant
  pub window_end : Instant

pub data DriftError : Type 0 where
  threshold_out_of_range no_rows wrong_artifact regime_differs row_differs : DriftError
  bad_rows : BuildError → DriftError

abbrev pub rows_result : {A : Type 0} → Result BuildError A → Result DriftError A
rows_result (ok a) = ok a
rows_result (err e) = err (DriftError.bad_rows e)

-- wilsonIntervalPPB
module _ (f : Floats) where
  unfoldable pub wilson_interval_ppb : (covered support : ℕ) → ℤ × ℤ
  wilson_interval_ppb covered support =
      let z = f.literal "1.959963984540054" in
      let n = f.of_int (pos support) in
      let p = f.div (f.of_int (pos covered)) n in
      let one = f.literal "1" in
      let zz = f.mul z z in
      let denominator = f.add one (f.div zz n) in
      let center = f.div (f.add p (f.div zz (f.mul (f.literal "2") n))) denominator in
      let spread = f.div (f.add (f.mul p (f.sub one p)) (f.div zz (f.mul (f.literal "4") n))) n in
      let half = f.div (f.mul z (f.sqrt spread)) denominator in
      let scaled = λ (x : f.Float). f.mul x (f.literal "1000000000") in
      if eqb support 0 || ltb support covered then (pos 0, pos billion) else (
        f.to_int (f.floor (scaled (f.max (f.literal "0") (f.sub center half)))),
        f.to_int (f.ceil (scaled (f.min one (f.add center half)))),
      )

-- `covered * 1_000_000_000 / support` on int64; the counts are not negative.
unfoldable pub coverage_ppb : (covered support : ℕ) → ℤ
coverage_ppb covered support =
    let product = covered * billion % 2 ^ 64 in
    if leb product max_int64
    then pos (product / support)
    else sub_ℕ 0 ((2 ^ 64 - product) / support)

-- `gap := target - coverage; if gap < 0 { gap = 0 }`
unfoldable pub coverage_gap : (target coverage : ℤ) → ℤ
coverage_gap target coverage =
    let gap = wrap64 (target -ℤ coverage) in if ltb_ℤ gap (pos 0) then pos 0 else gap

-- The result for the monitoring outputs `tokens`, of which there are some.
unfoldable pub drift_result :
    Floats
    → (target upper threshold : ℤ) (digest : String) (tokens : List ℤ) (start end : Instant)
    → DriftResult
drift_result f target upper threshold digest tokens start end =
    let support = length tokens in
    let covered = covered_count upper tokens in
    let coverage = coverage_ppb covered support in
    let interval = wilson_interval_ppb f covered support in
    let gap = coverage_gap target coverage in
    record {
      detector = "coverage-gap";
      threshold_ppb = threshold;
      monitoring_input_sha256 = digest;
      support = support;
      covered = covered;
      empirical_coverage_ppb = coverage;
      confidence_ppb = 950_000_000;
      interval_lower_ppb = interval.0;
      interval_upper_ppb = interval.1;
      coverage_gap_ppb = gap;
      detected = ltb_ℤ threshold gap;
      window_start = start;
      window_end = end;
    }

-- The configuration that monitoring rows are held against.
unfoldable pub monitoring_config : Artifact → BuildConfig
monitoring_config a = record {
  artifact_ref = "";
  version = "";
  feature_schema_version = a.feature_schema_version;
  price_regime_sha256 = a.price_regime_sha256;
  cap_regime_sha256 = a.cap_regime_sha256;
  producer_software_sha256 = "";
  coverage_target_ppb = pos 0;
}

-- DetectCoverageGap
unfoldable pub detect_coverage_gap :
    Floats → Digests → Artifact → ℤ → List Observation → Result DriftError DriftResult
detect_coverage_gap f env artifact threshold [] = do
  fail_if (ltb_ℤ threshold (pos 0) || ltb_ℤ (pos billion) threshold)
      DriftError.threshold_out_of_range
  err DriftError.no_rows
detect_coverage_gap f env artifact threshold (r ∷ rs) = do
  fail_if (ltb_ℤ threshold (pos 0) || ltb_ℤ (pos billion) threshold)
      DriftError.threshold_out_of_range
  rows_result (validate_rows (r ∷ rs) (monitoring_config artifact) true)
  digest ← rows_result (observation_digest env.rows_sha256 (r ∷ rs))
  ok (
      drift_result f artifact.coverage_target_ppb artifact.upper_output_tokens threshold digest
        (tokens_of (r ∷ rs)) (earliest r.settled_at (r ∷ rs)) (latest r.settled_at (r ∷ rs)))
