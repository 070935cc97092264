-- ===== src/Calibration/Artifact.antt =====
-- `BuildArtifact` of internal/govarcalibration/calibration.go.
pub mod Sound
use ai_finops_operator.Prelude.{
  ◌≡◌, ℕ, ◌+◌, ◌-◌, ◌*◌, ◌/◌, ◌%◌, ◌^◌, ltb, leb, eqb, ℤ, pos, pos_part, ltb_ℤ, leb_ℤ, String, Bool,
  true, false, not, ◌||◌, List, [], ◌∷◌, Option, none, some, if◌then◌else◌, sort, length, get_elem?,
  Result, ok, err, ◌>>=◌, ◌>>◌, fail_if,
}
use ai_finops_operator.Calibration.Rows.{
  Instant, Observation, BuildConfig, BuildError, max_artifact_support, validate_config,
  validate_rows, observation_digest,
}

pub record Artifact : Type 0 where
  pub schema_version : String
  pub calibration_method : String
  pub artifact_ref : String
  pub version : String
  pub feature_schema_version : String
  pub price_regime_sha256 : String
  pub cap_regime_sha256 : String
  pub producer_software_sha256 : String
  pub feature_regime_sha256 : String
  pub split_opportunity_regime_sha256 : String
  pub cohort_regime_sha256 : String
  pub coverage_target_ppb : ℤ
  pub minimum_support : ℕ
  pub empirical_coverage_ppb : ℕ
  pub exchangeable_marginal_coverage_lower_ppb : ℕ
  pub coverage_bound_kind : String
  pub coverage_bound_numerator : ℕ
  pub coverage_bound_denominator : ℕ
  pub coverage_interval_lower_ppb : ℕ
  pub coverage_interval_upper_ppb : ℕ
  pub coverage_confidence_ppb : ℕ
  pub conformal_rank : ℕ
  pub support : ℕ
  pub upper_output_tokens : ℤ
  pub window_start : Instant
  pub window_end : Instant
  pub source_observations_sha256 : String
  pub artifact_sha256 : String

abbrev pub exact_marginal_bound_kind : String
exact_marginal_bound_kind = "exchangeable_split_conformal_exact_rank"

abbrev pub billion : ℕ
billion = 1_000_000_000

-- The digests of rows and of an artifact as JSON.
pub record Digests : Type 0 where
  pub rows_sha256 : List Observation → String
  pub artifact_json_sha256 : Artifact → String

-- k = ceil((n+1) * target), in 64 bits. The operands are not negative.
unfoldable pub conformal_rank : (target support : ℕ) → ℕ
conformal_rank target support = ((target * (support + 1) % 2 ^ 64 + billion - 1) % 2 ^ 64) / billion

unfoldable pub tokens_of : List Observation → List ℤ
tokens_of [] = []
tokens_of (r ∷ rs) = r.output_tokens ∷ tokens_of rs

unfoldable pub earliest : Instant → List Observation → Instant
earliest start [] = start
earliest start (r ∷ rs) = earliest (if ltb r.settled_at start then r.settled_at else start) rs

unfoldable pub latest : Instant → List Observation → Instant
latest end [] = end
latest end (r ∷ rs) = latest (if ltb end r.settled_at then r.settled_at else end) rs

unfoldable pub covered_count : ℤ → List ℤ → ℕ
covered_count upper [] = 0
covered_count upper (t ∷ ts) = (if leb_ℤ t upper then 1 else 0) + covered_count upper ts

-- The artifact for the rank `rank` and the bound `upper`, before its own digest.
unfoldable pub artifact_of :
    BuildConfig
    → (digest : String) (rank n : ℕ) (upper : ℤ) (covered : ℕ) (start end : Instant) → Artifact
artifact_of cfg digest rank n upper covered start end = record {
  schema_version = "govar-calibration-v2";
  calibration_method = "split_conformal_order_statistic_v1";
  artifact_ref = cfg.artifact_ref;
  version = cfg.version;
  feature_schema_version = cfg.feature_schema_version;
  price_regime_sha256 = cfg.price_regime_sha256;
  cap_regime_sha256 = cfg.cap_regime_sha256;
  producer_software_sha256 = cfg.producer_software_sha256;
  feature_regime_sha256 = "";
  split_opportunity_regime_sha256 = "";
  cohort_regime_sha256 = "";
  coverage_target_ppb = cfg.coverage_target_ppb;
  minimum_support = 0;
  empirical_coverage_ppb = covered * billion / n;
  exchangeable_marginal_coverage_lower_ppb = rank * billion / (n + 1);
  coverage_bound_kind = exact_marginal_bound_kind;
  coverage_bound_numerator = rank;
  coverage_bound_denominator = n + 1;
  coverage_interval_lower_ppb = rank * billion / (n + 1);
  coverage_interval_upper_ppb = billion;
  coverage_confidence_ppb = billion;
  conformal_rank = rank;
  support = n;
  upper_output_tokens = upper;
  window_start = start;
  window_end = end;
  source_observations_sha256 = digest;
  artifact_sha256 = "";
}

-- The rows in the middle of the function: the order statistic and the artifact.
unfoldable pub built :
    Digests → BuildConfig → List Observation → Instant → String → Result BuildError Artifact
built env cfg rows first digest =
    let tokens = sort ltb_ℤ (tokens_of rows) in
    let n = length rows in
    let rank = conformal_rank (pos_part cfg.coverage_target_ppb) n in
    if ltb n rank then err BuildError.too_little_support else elim (get_elem? tokens (rank - 1)) [
      | none ↦ err BuildError.too_little_support
      | some upper ↦
          let artifact =
            artifact_of cfg digest rank n upper (covered_count upper tokens) (earliest first rows)
              (latest first rows) in
          ok (record artifact { artifact_sha256 = env.artifact_json_sha256 artifact })
    ]

-- BuildArtifact
unfoldable pub build_artifact :
    Digests → BuildConfig → List Observation → Result BuildError Artifact
build_artifact env cfg [] = do validate_config cfg; err BuildError.unsupported_support
build_artifact env cfg (r ∷ rs) = do
  validate_config cfg
  fail_if (ltb max_artifact_support (length (r ∷ rs))) BuildError.unsupported_support
  validate_rows (r ∷ rs) cfg false
  digest ← observation_digest env.rows_sha256 (r ∷ rs)
  built env cfg (r ∷ rs) r.settled_at digest
