-- ===== src/Calibration/Tests.antt =====
-- A run of internal/govarcalibration on two observations, and the theorem applied to it.
use ai_finops_operator.Prelude.{
  ◌≡◌, ◌↔◌, ◌≤◌, ◌<◌, ◌+◌, ◌*◌, ◌/◌, arith, refl, ℕ, ℤ, pos, ltb_ℤ, leb_ℤ, eqb_ℤ, ◌+ℤ◌, ◌-ℤ◌,
  if◌then◌else◌, String, true, false, List, [], ◌∷◌, All, ok, to_lower, trim, sort, map, length,
}
use ai_finops_operator.Prelude.Float.{Floats}
use ai_finops_operator.Pricing.Digest.{Primitives, utf8, utf8_char, hex, nth_char}
use ai_finops_operator.Calibration.Rows.{
  Observation, BuildConfig, validate_config, validate_row, validate_rows, is_lower_sha256,
  observation_digest, normalized, check_identities,
}
use ai_finops_operator.Calibration.Artifact.{
  Artifact, Digests, artifact_of, build_artifact, built, conformal_rank, tokens_of, earliest,
  latest, covered_count,
}
use ai_finops_operator.Calibration.Artifact.Sound.{
  IsUsable, IsSupported, build_artifact-IsSupported,
}
use ai_finops_operator.Calibration.Drift.{
  DriftResult, detect_coverage_gap, drift_result, monitoring_config,
}
use ai_finops_operator.Calibration.Drift.Detected.{IsMonitored, detect_coverage_gap-detects}
use ai_finops_operator.Calibration.Authoritative.Rows.{
  RegimeDigests, AuthoritativeObservation, AuthoritativeBuildConfig, JsonDigests, validate_regimes,
  are_digests, validate_authoritative_observation, is_incomplete, valid_split, same_regimes,
  authoritative_observation_digest, check_sorted, outputs_of, first_settled, last_settled,
}
use ai_finops_operator.Calibration.Authoritative.Build.{
  validate_build, validate_input, built_authoritative, authoritative_artifact_of,
  build_authoritative_artifact,
}
use ai_finops_operator.Calibration.Authoritative.Window.{
  AuthoritativeDriftWindow, is_unusable, is_other_regime, validate_monitoring, is_other_window,
  window_of, build_authoritative_drift_window,
}
use ai_finops_operator.Calibration.Authoritative.Canonical.{
  canonical_digest, canonical_digest_injective, check_sizes, itoa, written,
}
use ai_finops_operator.Calibration.Authoritative.Distinct.{rows_of}
use ai_finops_operator.Calibration.Authoritative.Sound.{
  IsCalibration, IsSupportedBy, build_authoritative_artifact-IsSupportedBy,
}
use ai_finops_operator.Calibration.Authoritative.Detected.{IsMonitoring, drift_window-detects}

abbrev some_sha256 : String
some_sha256 = "0123456789abcdef0123456789abcdef0123456789abcdef0123456789abcdef"

abbrev half_covered : BuildConfig
half_covered = record {
  artifact_ref = "route-a";
  version = "1";
  feature_schema_version = "f1";
  price_regime_sha256 = some_sha256;
  cap_regime_sha256 = some_sha256;
  producer_software_sha256 = some_sha256;
  coverage_target_ppb = pos 500_000_000;
}

abbrev observed : String → ℕ → Observation
observed id tokens = record {
  request_id = id;
  provider_attempt_id = "p1";
  split = " Calibration";
  selected = true;
  authoritative_final = true;
  excluded = false;
  output_tokens = pos tokens;
  feature_schema_version = "f1";
  price_regime_sha256 = some_sha256;
  cap_regime_sha256 = some_sha256;
  settled_at = 5;
}

abbrev observations : List Observation
observations = observed "r1" 9 ∷ observed "r2" 4 ∷ []

abbrev digests : Digests
digests = record { rows_sha256 = λ rows. "rows"; artifact_json_sha256 = λ a. "artifact" }

-- Of two rows the second in order is the bound.
abbrev two_rows : Artifact
two_rows = record (artifact_of half_covered "rows" 2 2 (pos 9) 2 5 5) {
  artifact_sha256 = "artifact";
}

builds_two_rows : build_artifact digests half_covered observations ≡ ok two_rows
unfolding build_artifact validate_config validate_row validate_rows is_lower_sha256
    observation_digest normalized check_identities built conformal_rank tokens_of earliest latest
    covered_count to_lower trim sort
builds_two_rows = refl

build_artifact-IsSupported_example :
    All (IsUsable half_covered) observations × IsSupported half_covered observations two_rows
build_artifact-IsSupported_example =
    build_artifact-IsSupported digests half_covered observations builds_two_rows

-- Whole numbers in place of floating-point ones.
abbrev whole_numbers : Floats
whole_numbers = record {
  Float = ℤ;
  literal = λ s. pos 1;
  of_int = λ a. a;
  to_int = λ a. a;
  to_int32 = λ a. a;
  add = λ a b. a +ℤ b;
  sub = λ a b. a -ℤ b;
  mul = λ a b. a;
  div = λ a b. a;
  lt = λ a b. ltb_ℤ a b;
  le = λ a b. leb_ℤ a b;
  eq = λ a b. eqb_ℤ a b;
  min = λ a b. if ltb_ℤ a b then a else b;
  max = λ a b. if ltb_ℤ a b then b else a;
  sqrt = λ a. a;
  floor = λ a. a;
  ceil = λ a. a;
  round = λ a. a;
}

abbrev monitored : List Observation
monitored =
    record (observed "m1" 20) { split = "monitoring" }
    ∷ record (observed "m2" 3) { split = "Monitoring" }
    ∷ []

-- The artifact's bound is 9, and one of two rows is above it.
abbrev gap_result : DriftResult
gap_result =
    drift_result whole_numbers (pos 500_000_000) (pos 9) (pos 10) "rows" (tokens_of monitored) 5 5

detects_monitored :
    detect_coverage_gap whole_numbers digests two_rows (pos 10) monitored ≡ ok gap_result
unfolding detect_coverage_gap validate_row validate_rows observation_digest normalized
    check_identities earliest latest to_lower trim sort monitoring_config artifact_of
detects_monitored = refl

artifact_target : two_rows.coverage_target_ppb ≡ pos 500_000_000
unfolding artifact_of
artifact_target = refl

detect_coverage_gap-detects_example :
    All (IsMonitored two_rows) monitored
    × ((gap_result.detected ≡ true) ↔ (
        10 + covered_count two_rows.upper_output_tokens (tokens_of monitored) * 1_000_000_000 / 2
        < 500_000_000))
detect_coverage_gap-detects_example =
    detect_coverage_gap-detects whole_numbers digests two_rows (pos 10) monitored 500_000_000
      artifact_target (omega arith) (omega arith) detects_monitored

abbrev regimes : RegimeDigests
regimes = record {
  feature_sha256 = some_sha256;
  price_sha256 = some_sha256;
  cap_path_adapter_sha256 = some_sha256;
  split_opportunity_sha256 = some_sha256;
  cohort_sha256 = some_sha256;
  producer_software_sha256 = some_sha256;
}

abbrev ledger_row : String → String → ℕ → AuthoritativeObservation
ledger_row id split tokens = record {
  request_id = id;
  provider_attempt_id = "p1";
  opportunity_id = "o1";
  split = split;
  output_tokens = pos tokens;
  settled_at = 5;
  regimes = regimes;
}

abbrev ledger : List AuthoritativeObservation
ledger = ledger_row "r2" "calibration" 9 ∷ ledger_row "r1" "calibration" 4 ∷ []

abbrev ledger_config : AuthoritativeBuildConfig
ledger_config = record {
  artifact_ref = "route-a";
  version = "1";
  feature_schema_version = "f1";
  coverage_target_ppb = pos 500_000_000;
  minimum_support = pos 2;
  regimes = regimes;
}

abbrev json_digests : JsonDigests
json_digests = record {
  rows_sha256 = λ rows. "rows";
  artifact_sha256 = λ a. some_sha256;
  window_sha256 = λ a r g. "window";
}

abbrev ledger_artifact : Artifact
ledger_artifact = record (authoritative_artifact_of ledger_config "rows" 2 2 (pos 9) 2 5 5) {
  artifact_sha256 = some_sha256;
}

builds_ledger : build_authoritative_artifact json_digests ledger_config ledger ≡ ok ledger_artifact
unfolding build_authoritative_artifact validate_build validate_regimes are_digests is_lower_sha256
    validate_input validate_authoritative_observation is_incomplete valid_split same_regimes
    authoritative_observation_digest check_sorted sort built_authoritative conformal_rank outputs_of
    first_settled last_settled covered_count to_lower trim
builds_ledger = refl

build_authoritative_artifact-IsSupportedBy_example :
    All (IsCalibration regimes) ledger
    × ((id : String) → rows_of id ledger ≤ 1)
    × IsSupportedBy ledger_config ledger ledger_artifact
build_authoritative_artifact-IsSupportedBy_example =
    build_authoritative_artifact-IsSupportedBy json_digests ledger_config ledger builds_ledger

abbrev watched : List AuthoritativeObservation
watched = ledger_row "m2" "monitoring" 20 ∷ ledger_row "m1" "monitoring" 3 ∷ []

abbrev watched_window : AuthoritativeDriftWindow
watched_window =
    window_of json_digests ledger_artifact regimes (
      drift_result whole_numbers (pos 500_000_000) (pos 9) (pos 10) "rows" (outputs_of watched) 5 5)

builds_watched :
    build_authoritative_drift_window whole_numbers json_digests ledger_artifact regimes
      (pos 10)
      watched
    ≡ ok watched_window
unfolding build_authoritative_drift_window is_unusable is_other_regime validate_regimes are_digests
    is_lower_sha256 validate_monitoring is_other_window validate_authoritative_observation
    is_incomplete valid_split same_regimes authoritative_observation_digest check_sorted sort
    authoritative_artifact_of first_settled last_settled to_lower trim
builds_watched = refl

ledger_target : ledger_artifact.coverage_target_ppb ≡ pos 500_000_000
unfolding authoritative_artifact_of
ledger_target = refl

drift_window-detects_example :
    All (IsMonitoring regimes) watched
    × ((id : String) → rows_of id watched ≤ 1)
    × ((watched_window.result.detected ≡ true) ↔ (
        10
          + covered_count ledger_artifact.upper_output_tokens (outputs_of watched)
            * 1_000_000_000
            / 2
        < 500_000_000))
drift_window-detects_example =
    drift_window-detects whole_numbers json_digests ledger_artifact regimes (pos 10) watched
      500_000_000 ledger_target (omega arith) (omega arith) builds_watched

-- A digest of thirty-two zero bytes.
abbrev no_bytes : List ℕ
no_bytes =
    0 ∷ 0 ∷ 0 ∷ 0 ∷ 0 ∷ 0 ∷ 0 ∷ 0 ∷ 0 ∷ 0 ∷ 0 ∷ 0 ∷ 0 ∷ 0 ∷ 0 ∷ 0 ∷ 0 ∷ 0 ∷ 0 ∷ 0 ∷ 0 ∷ 0 ∷ 0 ∷ 0
    ∷ 0 ∷ 0 ∷ 0 ∷ 0 ∷ 0 ∷ 0 ∷ 0 ∷ 0 ∷ []

no_bytes-size : (bytes : List ℕ) → length no_bytes ≡ 32
no_bytes-size bytes = refl

no_bytes-All : (bytes : List ℕ) → All (λ b. b < 256) no_bytes
no_bytes-All bytes = omega arith

abbrev digests_nothing : Primitives
digests_nothing = record {
  sha256 = λ _. no_bytes;
  format_time = λ _. "2026-01-01T00:00:00Z";
  sha256_size = no_bytes-size;
  sha256_bytes = no_bytes-All;
}

abbrev no_digest : String
no_digest = "0000000000000000000000000000000000000000000000000000000000000000"

digests_trimmed : canonical_digest digests_nothing "rows" ("a" ∷ "b" ∷ []) ≡ ok no_digest
unfolding canonical_digest check_sizes utf8 utf8_char written itoa hex nth_char trim
digests_trimmed = refl

digests_spaced : canonical_digest digests_nothing " rows " ("a" ∷ "b" ∷ []) ≡ ok no_digest
unfolding canonical_digest check_sizes utf8 utf8_char written itoa hex nth_char trim
digests_spaced = refl

writes_same :
    written (map utf8 (trim "rows" ∷ "a" ∷ "b" ∷ []))
    ≡ written (map utf8 (trim " rows " ∷ "a" ∷ "b" ∷ []))
unfolding utf8 utf8_char written itoa trim
writes_same = refl

canonical_digest_injective_example :
    map utf8 (trim "rows" ∷ "a" ∷ "b" ∷ []) ≡ map utf8 (trim " rows " ∷ "a" ∷ "b" ∷ [])
canonical_digest_injective_example =
    canonical_digest_injective digests_nothing "rows" " rows " ("a" ∷ "b" ∷ []) ("a" ∷ "b" ∷ [])
      digests_trimmed digests_spaced writes_same
