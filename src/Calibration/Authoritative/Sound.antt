-- ===== src/Calibration/Authoritative/Sound.antt =====
-- What an artifact that BuildAuthoritativeArtifact of internal/govarcalibration/authoritative.go
-- accepts rests on.
use ai_finops_operator.Prelude.{
  ◌≡◌, ◌≤◌, ℕ, ◌+◌, ◌-◌, ◌*◌, ltb, leb_ℤ, ltb_ℤ, pos, pos_part, String, true, false, not, ◌||◌,
  ◌==◌, List, [], ◌∷◌, some, length, All, arith, ok, >>=-eq-ok, fail_if-eq-ok, trim, get_elem?,
  sort,
}
use ai_finops_operator.Calibration.Rows.{max_artifact_support, split_calibration, Instant}
use ai_finops_operator.Calibration.Artifact.{Artifact, billion}
use ai_finops_operator.Calibration.Artifact.Sound.{conformal_rank-exact}
use ai_finops_operator.Calibration.Authoritative.Rows.{
  RegimeDigests, AuthoritativeObservation, AuthoritativeBuildConfig, same_regimes, validate_regimes,
  validate_authoritative_observation, JsonDigests, authoritative_observation_digest, outputs_of,
}
use ai_finops_operator.Calibration.Authoritative.Build.{
  validate_input, authoritative_artifact_of, built_authoritative, validate_build,
  build_authoritative_artifact,
}
use ai_finops_operator.Calibration.Authoritative.Distinct.{rows_of, digest-once}

-- A row of the calibration split in the regimes.
pub record IsCalibration (regimes : RegimeDigests) (row : AuthoritativeObservation) : Type 0 where
  pub complete : validate_authoritative_observation row ≡ ok tt
  pub in_split : (row.split == split_calibration) ≡ true
  pub in_regimes : same_regimes row.regimes regimes ≡ true

validate_input-AreCalibration :
    (regimes : RegimeDigests) (rows : List AuthoritativeObservation)
    → validate_input regimes rows ≡ ok tt
    → All (IsCalibration regimes) rows
unfolding validate_input
validate_input-AreCalibration regimes [] h = tt
validate_input-AreCalibration regimes (r ∷ rs) h =
    let (u, e, h₁) = >>=-eq-ok (validate_authoritative_observation r) _ h in
    let (s, h₂) = fail_if-eq-ok (not (r.split == split_calibration)) _ _ h₁ in
    let (g, h₃) = fail_if-eq-ok (not (same_regimes r.regimes regimes)) _ _ h₂ in
    (
      record { complete = e; in_split = ground arith; in_regimes = ground arith },
      validate_input-AreCalibration regimes rs h₃,
    )

-- What the artifact says of its rows.
pub record IsSupportedBy (cfg : AuthoritativeBuildConfig) (rows : List AuthoritativeObservation)
    (a : Artifact) : Type 0 where
  pub support_counted : a.support ≡ length rows
  pub enough : pos_part cfg.minimum_support ≤ length rows
  pub rank_in_rows : a.conformal_rank ≤ a.support
  pub rank_reaches_target :
      pos_part cfg.coverage_target_ppb * (a.support + 1) ≤ a.conformal_rank * billion
  pub bound_of_rank :
      get_elem? (sort ltb_ℤ (outputs_of rows)) (a.conformal_rank - 1) ≡ some a.upper_output_tokens
  pub same_features : a.feature_regime_sha256 ≡ cfg.regimes.feature_sha256
  pub same_cohort : a.cohort_regime_sha256 ≡ cfg.regimes.cohort_sha256

validate_build-bounds :
    (cfg : AuthoritativeBuildConfig) (n : ℕ)
    → validate_build cfg n ≡ ok tt
    → (pos_part cfg.minimum_support ≤ n)
      × (pos_part cfg.coverage_target_ppb ≤ billion)
      × (n ≤ max_artifact_support)
unfolding validate_build
validate_build-bounds cfg n h =
    let (a, h₁) =
      fail_if-eq-ok
        (trim cfg.artifact_ref == ""
          || trim cfg.version == ""
          || trim cfg.feature_schema_version == "")
        _ _ h in
    let (u, b, h₂) = >>=-eq-ok (validate_regimes cfg.regimes) _ h₁ in
    let (c, h₃) =
      fail_if-eq-ok (leb_ℤ cfg.minimum_support (pos 0) || ltb_ℤ (pos n) cfg.minimum_support) _ _
        h₂ in
    let (d, h₄) =
      fail_if-eq-ok
        (ltb max_artifact_support n
          || ltb_ℤ cfg.coverage_target_ppb (pos 1)
          || ltb_ℤ (pos billion) cfg.coverage_target_ppb)
        _ _ h₃ in
    (at_least c, at_most d, ground arith)
  where
    at_least :
        (leb_ℤ cfg.minimum_support (pos 0) || ltb_ℤ (pos n) cfg.minimum_support) ≡ false
        → pos_part cfg.minimum_support ≤ n
    at_least c = ground arith

    at_most :
        (ltb max_artifact_support n
            || ltb_ℤ cfg.coverage_target_ppb (pos 1)
            || ltb_ℤ (pos billion) cfg.coverage_target_ppb)
          ≡ false
        → pos_part cfg.coverage_target_ppb ≤ billion
    at_most d = ground arith

built_authoritative-IsSupportedBy :
    (env : JsonDigests) (cfg : AuthoritativeBuildConfig) (rows : List AuthoritativeObservation)
    (digest : String) (start end : Instant) {a : Artifact}
    → (pos_part cfg.minimum_support ≤ length rows)
      × (pos_part cfg.coverage_target_ppb ≤ billion)
      × (length rows ≤ max_artifact_support)
    → built_authoritative env cfg rows digest start end ≡ ok a
    → IsSupportedBy cfg rows a
unfolding built_authoritative authoritative_artifact_of
built_authoritative-IsSupportedBy env cfg rows digest start end {a} (m, t, n) h =
    let exact = conformal_rank-exact (pos_part cfg.coverage_target_ppb) (length rows) t n in
    record {
      support_counted = ground arith;
      enough = m;
      rank_in_rows = ground arith;
      rank_reaches_target = ground (arith, exact);
      bound_of_rank = ground arith;
      same_features = ground arith;
      same_cohort = ground arith;
    }

-- An artifact that `BuildAuthoritativeArtifact` returns is built from complete rows of the calibration
-- split and of the configured regimes alone, no two of one request. Its support is their number and
-- reaches the minimum, its rank is one of theirs and reaches the coverage target, its bound is the
-- value of that rank, and it carries the regimes of the features and of the cohort.
pub build_authoritative_artifact-IsSupportedBy :
    (env : JsonDigests) (cfg : AuthoritativeBuildConfig) (rows : List AuthoritativeObservation)
    {a : Artifact}
    → build_authoritative_artifact env cfg rows ≡ ok a
    → All (IsCalibration cfg.regimes) rows
      × ((id : String) → rows_of id rows ≤ 1)
      × IsSupportedBy cfg rows a
unfolding build_authoritative_artifact
build_authoritative_artifact-IsSupportedBy env cfg rows h =
    let (u, v, h₁) = >>=-eq-ok (validate_build cfg (length rows)) _ h in
    let (w, i, h₂) = >>=-eq-ok (validate_input cfg.regimes rows) _ h₁ in
    let (digest, d, h₃) = >>=-eq-ok (authoritative_observation_digest env rows) _ h₂ in
    (
      validate_input-AreCalibration cfg.regimes rows i,
      (λ id. digest-once env rows id d),
      built_authoritative-IsSupportedBy env cfg rows digest _ _
          (validate_build-bounds cfg (length rows) v) h₃,
    )
