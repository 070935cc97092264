-- ===== src/Calibration/Rows.antt =====
-- Observations, the frozen configuration and their validation: internal/govarcalibration/calibration.go.
use Prim.Native.Char.{code}
use Prim.Native.String.{len}
use ai_finops_operator.Prelude.{
  ℕ, leb, eqb, ℤ, pos, ltb_ℤ, String, Bool, true, not, ◌&&◌, ◌||◌, ◌==◌, List, [], ◌∷◌,
  if◌then◌else◌, str_lt, to_lower, trim, sort, Result, ok, ◌>>◌, fail_if,
}

-- An instant in nanoseconds; zero is the zero time.
abbrev pub Instant : Type 0
Instant = ℕ

pub record Observation : Type 0 where
  pub request_id : String
  pub provider_attempt_id : String
  pub split : String
  pub selected : Bool
  pub authoritative_final : Bool
  pub excluded : Bool
  pub output_tokens : ℤ
  pub feature_schema_version : String
  pub price_regime_sha256 : String
  pub cap_regime_sha256 : String
  pub settled_at : Instant

pub record BuildConfig : Type 0 where
  pub artifact_ref : String
  pub version : String
  pub feature_schema_version : String
  pub price_regime_sha256 : String
  pub cap_regime_sha256 : String
  pub producer_software_sha256 : String
  pub coverage_target_ppb : ℤ

pub data BuildError : Type 0 where
  missing_reference missing_digest target_out_of_range : BuildError
  unsupported_support too_little_support : BuildError
  malformed_row counterfactual_row provisional_row excluded_row wrong_split : BuildError
  regime_mismatch missing_identity duplicate_identity : BuildError

abbrev pub split_monitoring : String
split_monitoring = "monitoring"

abbrev pub split_calibration : String
split_calibration = "calibration"

abbrev pub max_artifact_support : ℕ
max_artifact_support = 10_000_000

-- hex.DecodeString accepts the characters.
hex_digits : String → Bool
hex_digits String.[] = true
hex_digits (String.◌∷◌ c s) =
    (leb 48 (code c) && leb (code c) 57
      || leb 97 (code c) && leb (code c) 102
      || leb 65 (code c) && leb (code c) 70)
    && hex_digits s

unfoldable pub is_lower_sha256 : String → Bool
unfolding hex_digits
is_lower_sha256 value = eqb (len value) 64 && to_lower value == value && hex_digits value

-- validateConfig
unfoldable pub validate_config : BuildConfig → Result BuildError (Unit {0})
validate_config cfg = do
  fail_if
      (trim cfg.artifact_ref == ""
        || trim cfg.version == ""
        || trim cfg.feature_schema_version == "")
      BuildError.missing_reference
  fail_if
      (not (is_lower_sha256 cfg.price_regime_sha256)
        || not (is_lower_sha256 cfg.cap_regime_sha256)
        || not (is_lower_sha256 cfg.producer_software_sha256))
      BuildError.missing_digest
  fail_if
      (ltb_ℤ cfg.coverage_target_ppb (pos 1) || ltb_ℤ (pos 1_000_000_000) cfg.coverage_target_ppb)
      BuildError.target_out_of_range
  ok tt

-- validateRow
unfoldable pub validate_row : Observation → BuildConfig → Bool → Result BuildError (Unit {0})
validate_row row cfg monitoring = do
  fail_if
      (row.request_id == ""
        || row.provider_attempt_id == ""
        || ltb_ℤ row.output_tokens (pos 0)
        || eqb row.settled_at 0)
      BuildError.malformed_row
  fail_if (not row.selected) BuildError.counterfactual_row
  fail_if (not row.authoritative_final) BuildError.provisional_row
  fail_if row.excluded BuildError.excluded_row
  fail_if
      (not
        (to_lower (trim row.split) == (if monitoring then split_monitoring else split_calibration)))
      BuildError.wrong_split
  fail_if
      (not (row.feature_schema_version == cfg.feature_schema_version)
        || not (row.price_regime_sha256 == cfg.price_regime_sha256)
        || not (row.cap_regime_sha256 == cfg.cap_regime_sha256))
      BuildError.regime_mismatch
  ok tt

unfoldable pub validate_rows : List Observation → BuildConfig → Bool → Result BuildError (Unit {0})
validate_rows [] cfg monitoring = ok tt
validate_rows (r ∷ rs) cfg monitoring = do
  validate_row r cfg monitoring
  validate_rows rs cfg monitoring

-- ObservationDigest: the rows in their normal form, sorted by identity.
unfoldable pub normalized : List Observation → List Observation
normalized [] = []
normalized (r ∷ rs) = record r { split = to_lower (trim r.split) } ∷ normalized rs

abbrev pub identity_before : Observation → Observation → Bool
identity_before a b =
    if not (a.request_id == b.request_id)
    then str_lt a.request_id b.request_id
    else str_lt a.provider_attempt_id b.provider_attempt_id

unfoldable pub check_identities : List Observation → Result BuildError (Unit {0})
check_identities [] = ok tt
check_identities (r ∷ []) = do
  fail_if (r.request_id == "" || r.provider_attempt_id == "") BuildError.missing_identity
  ok tt
check_identities (r ∷ s ∷ rs) = do
  fail_if (r.request_id == "" || r.provider_attempt_id == "") BuildError.missing_identity
  fail_if (r.request_id == s.request_id && r.provider_attempt_id == s.provider_attempt_id)
      BuildError.duplicate_identity
  check_identities (s ∷ rs)

-- `digest` is the SHA-256 of the rows as JSON, in hexadecimal.
unfoldable pub observation_digest :
    (digest : List Observation → String) → List Observation → Result BuildError String
observation_digest digest rows = do
  let sorted = sort identity_before (normalized rows)
  check_identities sorted
  ok (digest sorted)
