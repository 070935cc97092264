-- ===== src/Calibration/Authoritative/Rows.antt =====
-- The rows of the ledger and their validation: internal/govarcalibration/authoritative.go.
use ai_finops_operator.Prelude.{
  ltb, eqb, ℤ, pos, ltb_ℤ, String, Bool, false, not, ◌&&◌, ◌||◌, ◌==◌, List, [], ◌∷◌, Option, none,
  some, if◌then◌else◌, str_lt, to_lower, trim, sort, Result, ok, ◌>>◌, fail_if,
}
use ai_finops_operator.Calibration.Rows.{
  Instant, is_lower_sha256, split_calibration, split_monitoring,
}
use ai_finops_operator.Calibration.Artifact.{Artifact}
use ai_finops_operator.Calibration.Drift.{DriftResult}

pub record RegimeDigests : Type 0 where
  pub feature_sha256 : String
  pub price_sha256 : String
  pub cap_path_adapter_sha256 : String
  pub split_opportunity_sha256 : String
  pub cohort_sha256 : String
  pub producer_software_sha256 : String

pub record AuthoritativeObservation : Type 0 where
  pub request_id : String
  pub provider_attempt_id : String
  pub opportunity_id : String
  pub split : String
  pub output_tokens : ℤ
  pub settled_at : Instant
  pub regimes : RegimeDigests

pub record AuthoritativeBuildConfig : Type 0 where
  pub artifact_ref : String
  pub version : String
  pub feature_schema_version : String
  pub coverage_target_ppb : ℤ
  pub minimum_support : ℤ
  pub regimes : RegimeDigests

pub data AuthoritativeError : Type 0 where
  missing_reference invalid_regime too_little_support invalid_target : AuthoritativeError
  incomplete_row forbidden_split regime_mismatch duplicate_request : AuthoritativeError
  no_artifact wrong_artifact : AuthoritativeError

abbrev pub authoritative_artifact_schema : String
authoritative_artifact_schema = "govar-calibration-authoritative-v1"

-- `a == b` of two structs of digests.
unfoldable pub same_regimes : RegimeDigests → RegimeDigests → Bool
same_regimes a b =
    a.feature_sha256 == b.feature_sha256
    && a.price_sha256 == b.price_sha256
    && a.cap_path_adapter_sha256 == b.cap_path_adapter_sha256
    && a.split_opportunity_sha256 == b.split_opportunity_sha256
    && a.cohort_sha256 == b.cohort_sha256
    && a.producer_software_sha256 == b.producer_software_sha256

-- ValidateRegimes
unfoldable pub are_digests : RegimeDigests → Bool
are_digests r =
    is_lower_sha256 r.feature_sha256
    && is_lower_sha256 r.price_sha256
    && is_lower_sha256 r.cap_path_adapter_sha256
    && is_lower_sha256 r.split_opportunity_sha256
    && is_lower_sha256 r.cohort_sha256
    && is_lower_sha256 r.producer_software_sha256

unfoldable pub validate_regimes : RegimeDigests → Result AuthoritativeError (Unit {0})
validate_regimes r = fail_if (not (are_digests r)) AuthoritativeError.invalid_regime

-- validSplit
unfoldable pub valid_split : String → Bool
valid_split split =
    let s = to_lower (trim split) in
    s == "train"
    || s == "development"
    || s == split_calibration
    || s == split_monitoring
    || s == "frozen_test"

unfoldable pub is_incomplete : AuthoritativeObservation → Bool
is_incomplete row =
    trim row.request_id == ""
    || trim row.provider_attempt_id == ""
    || trim row.opportunity_id == ""
    || ltb_ℤ row.output_tokens (pos 0)
    || eqb row.settled_at 0
    || not (valid_split row.split)

-- validateAuthoritativeObservation
unfoldable pub validate_authoritative_observation :
    AuthoritativeObservation → Result AuthoritativeError (Unit {0})
validate_authoritative_observation row = do
  fail_if (is_incomplete row) AuthoritativeError.incomplete_row
  validate_regimes row.regimes

abbrev pub request_before : AuthoritativeObservation → AuthoritativeObservation → Bool
request_before a b =
    if not (a.request_id == b.request_id)
    then str_lt a.request_id b.request_id
    else str_lt a.provider_attempt_id b.provider_attempt_id

abbrev pub with_plain_split : AuthoritativeObservation → AuthoritativeObservation
with_plain_split row = record row { split = to_lower (trim row.split) }

abbrev pub plain_rows : List AuthoritativeObservation → List AuthoritativeObservation
plain_rows [] = []
plain_rows (r ∷ rs) = with_plain_split r ∷ plain_rows rs

abbrev pub is_same_request : Option String → String → Bool
is_same_request none id = false
is_same_request (some b) id = b == id

-- The loop over the sorted rows; `before` is the request of the row in front.
unfoldable pub check_sorted :
    (before : Option String) → List AuthoritativeObservation → Result AuthoritativeError (Unit {0})
check_sorted before [] = ok tt
check_sorted before (r ∷ rs) = do
  validate_authoritative_observation (with_plain_split r)
  fail_if (is_same_request before r.request_id) AuthoritativeError.duplicate_request
  check_sorted (some r.request_id) rs

-- The digests of JSON.
pub record JsonDigests : Type 0 where
  pub rows_sha256 : List AuthoritativeObservation → String
  pub artifact_sha256 : Artifact → String
  pub window_sha256 : (artifact_sha256 : String) → DriftResult → RegimeDigests → String

-- AuthoritativeObservationDigest
unfoldable pub authoritative_observation_digest :
    JsonDigests → List AuthoritativeObservation → Result AuthoritativeError String
authoritative_observation_digest env rows = do
  let sorted = sort request_before rows
  check_sorted none sorted
  ok (env.rows_sha256 (plain_rows sorted))

unfoldable pub outputs_of : List AuthoritativeObservation → List ℤ
outputs_of [] = []
outputs_of (r ∷ rs) = r.output_tokens ∷ outputs_of rs

unfoldable pub first_settled : Instant → List AuthoritativeObservation → Instant
first_settled start [] = start
first_settled start (r ∷ rs) =
    first_settled (if ltb r.settled_at start then r.settled_at else start) rs

unfoldable pub last_settled : Instant → List AuthoritativeObservation → Instant
last_settled end [] = end
last_settled end (r ∷ rs) = last_settled (if ltb end r.settled_at then r.settled_at else end) rs

abbrev pub settled_first : List AuthoritativeObservation → Instant
settled_first [] = 0
settled_first (r ∷ rs) = r.settled_at
