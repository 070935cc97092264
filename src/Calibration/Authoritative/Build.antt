-- ===== src/Calibration/Authoritative/Build.antt =====
-- `BuildAuthoritativeArtifact` of internal/govarcalibration/authoritative.go.
use ai_finops_operator.Prelude.{
  ℕ, ◌+◌, ◌-◌, ◌*◌, ◌/◌, ltb, ℤ, pos, pos_part, ltb_ℤ, leb_ℤ, String, not, ◌||◌, ◌==◌, List, [],
  ◌∷◌, none, some, if◌then◌else◌, trim, sort, length, get_elem?, Result, ok, err, ◌>>=◌, ◌>>◌,
  fail_if,
}
use ai_finops_operator.Calibration.Rows.{Instant, max_artifact_support, split_calibration}
use ai_finops_operator.Calibration.Artifact.{
  Artifact, exact_marginal_bound_kind, billion, conformal_rank, covered_count,
}
use ai_finops_operator.Calibration.Authoritative.Rows.{
  RegimeDigests, AuthoritativeObservation, AuthoritativeBuildConfig, AuthoritativeError,
  authoritative_artifact_schema, same_regimes, validate_regimes, validate_authoritative_observation,
  JsonDigests, authoritative_observation_digest, outputs_of, first_settled, last_settled,
  settled_first,
}

-- The guards of BuildAuthoritativeArtifact on its rows.
unfoldable pub validate_input :
    RegimeDigests → List AuthoritativeObservation → Result AuthoritativeError (Unit {0})
validate_input regimes [] = ok tt
validate_input regimes (r ∷ rs) = do
  validate_authoritative_observation r
  fail_if (not (r.split == split_calibration)) AuthoritativeError.forbidden_split
  fail_if (not (same_regimes r.regimes regimes)) AuthoritativeError.regime_mismatch
  validate_input regimes rs

-- The artifact for a rank, a bound and the number of covered rows, before its own digest.
unfoldable pub authoritative_artifact_of :
    AuthoritativeBuildConfig
    → (digest : String) (rank n : ℕ) (upper : ℤ) (covered : ℕ) (start end : Instant) → Artifact
authoritative_artifact_of cfg digest rank n upper covered start end = record {
  schema_version = authoritative_artifact_schema;
  calibration_method = "split_conformal_order_statistic_v1";
  artifact_ref = cfg.artifact_ref;
  version = cfg.version;
  feature_schema_version = cfg.feature_schema_version;
  price_regime_sha256 = cfg.regimes.price_sha256;
  cap_regime_sha256 = cfg.regimes.cap_path_adapter_sha256;
  producer_software_sha256 = cfg.regimes.producer_software_sha256;
  feature_regime_sha256 = cfg.regimes.feature_sha256;
  split_opportunity_regime_sha256 = cfg.regimes.split_opportunity_sha256;
  cohort_regime_sha256 = cfg.regimes.cohort_sha256;
  coverage_target_ppb = cfg.coverage_target_ppb;
  minimum_support = pos_part cfg.minimum_support;
  empirical_coverage_ppb = covered * billion / n;
  exchangeable_marginal_coverage_lower_ppb = rank * billion / (n + 1);
  coverage_bound_kind = exact_marginal_bound_kind;
  coverage_bound_numerator = rank;
  coverage_bound_denominator = n + 1;
  coverage_interval_lower_ppb = rank * billion / (n + 1);
  coverage_interval_upper_ppb = billion;
  coverage_confidence_ppb = billion;
  conformal_rank = rank;
  support = n;
  upper_output_tokens = upper;
  window_start = start;
  window_end = end;
  source_observations_sha256 = digest;
  artifact_sha256 = "";
}

-- What follows the digest of the rows.
unfoldable pub built_authoritative :
    JsonDigests
    → AuthoritativeBuildConfig
    → (rows : List AuthoritativeObservation) (digest : String) (start end : Instant)
    → Result AuthoritativeError Artifact
built_authoritative env cfg rows digest start end =
    let tokens = sort ltb_ℤ (outputs_of rows) in
    let n = length rows in
    let rank = conformal_rank (pos_part cfg.coverage_target_ppb) n in
    if ltb n rank
    then err AuthoritativeError.too_little_support
    else elim (get_elem? tokens (rank - 1)) [
      | none ↦ err AuthoritativeError.too_little_support
      | some upper ↦
          let artifact =
            authoritative_artifact_of cfg digest rank n upper (covered_count upper tokens) start
              end in
          ok (record artifact { artifact_sha256 = env.artifact_sha256 artifact })
    ]

unfoldable pub validate_build :
    AuthoritativeBuildConfig → (support : ℕ) → Result AuthoritativeError (Unit {0})
validate_build cfg support = do
  fail_if
      (trim cfg.artifact_ref == ""
        || trim cfg.version == ""
        || trim cfg.feature_schema_version == "")
      AuthoritativeError.missing_reference
  validate_regimes cfg.regimes
  fail_if (leb_ℤ cfg.minimum_support (pos 0) || ltb_ℤ (pos support) cfg.minimum_support)
      AuthoritativeError.too_little_support
  fail_if
      (ltb max_artifact_support support
        || ltb_ℤ cfg.coverage_target_ppb (pos 1)
        || ltb_ℤ (pos billion) cfg.coverage_target_ppb)
      AuthoritativeError.invalid_target
  ok tt

-- BuildAuthoritativeArtifact
unfoldable pub build_authoritative_artifact :
    JsonDigests
    → AuthoritativeBuildConfig
    → List AuthoritativeObservation
    → Result AuthoritativeError Artifact
build_authoritative_artifact env cfg rows = do
  validate_build cfg (length rows)
  validate_input cfg.regimes rows
  digest ← authoritative_observation_digest env rows
  built_authoritative env cfg rows digest (first_settled (settled_first rows) rows)
      (last_settled (settled_first rows) rows)
