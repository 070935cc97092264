-- ===== src/Calibration/Artifact/Sound.antt =====
-- What an artifact that `BuildArtifact` of internal/govarcalibration/calibration.go accepts rests on.
use ai_finops_operator.Prelude.{
  ◌≡◌, ℕ, ◌+◌, ◌-◌, ◌*◌, ◌/◌, ◌≤◌, ◌%◌, ◌^◌, ltb, pos_part, ltb_ℤ, String, true, false, ◌==◌, List,
  [], ◌∷◌, some, length, All, arith, ok, >>=-eq-ok, fail_if-eq-ok, to_lower, trim, get_elem?, sort,
}
use ai_finops_operator.Calibration.Rows.{
  Instant, Observation, BuildConfig, max_artifact_support, validate_config, validate_row,
  validate_rows, observation_digest, split_calibration,
}
use ai_finops_operator.Calibration.Artifact.{
  Artifact, Digests, billion, conformal_rank, built, build_artifact, artifact_of, tokens_of,
}

-- A row that may be used: a selected, final outcome of the calibration split in the frozen regimes.
pub record IsUsable (cfg : BuildConfig) (row : Observation) : Type 0 where
  pub is_selected : row.selected ≡ true
  pub is_final : row.authoritative_final ≡ true
  pub not_excluded : row.excluded ≡ false
  pub in_split : (to_lower (trim row.split) == split_calibration) ≡ true
  pub same_schema : (row.feature_schema_version == cfg.feature_schema_version) ≡ true
  pub same_prices : (row.price_regime_sha256 == cfg.price_regime_sha256) ≡ true
  pub same_caps : (row.cap_regime_sha256 == cfg.cap_regime_sha256) ≡ true

validate_row-IsUsable :
    (row : Observation) (cfg : BuildConfig) → validate_row row cfg false ≡ ok tt → IsUsable cfg row
unfolding validate_row
validate_row-IsUsable row cfg h = record {
  is_selected = ground arith;
  is_final = ground arith;
  not_excluded = ground arith;
  in_split = ground arith;
  same_schema = ground arith;
  same_prices = ground arith;
  same_caps = ground arith;
}

validate_rows-AreUsable :
    (rows : List Observation) (cfg : BuildConfig)
    → validate_rows rows cfg false ≡ ok tt
    → All (IsUsable cfg) rows
unfolding validate_rows
validate_rows-AreUsable [] cfg h = tt
validate_rows-AreUsable (r ∷ rs) cfg h =
    let (u, e, k) = >>=-eq-ok (validate_row r cfg false) _ h in
    (validate_row-IsUsable r cfg e, validate_rows-AreUsable rs cfg k)

-- Rounding up a quotient by a billion, in 64 bits, when nothing wraps.
rounded_up :
    (m : ℕ)
    → m ≤ 10_000_001_000_000_000
    → m ≤ (m % 2 ^ 64 + billion - 1) % 2 ^ 64 / billion * billion
rounded_up m h = omega arith

-- Within the bounds of the configuration and of the support nothing wraps, and the rank reaches the
-- target.
pub conformal_rank-exact :
    (target n : ℕ)
    → target ≤ billion
    → n ≤ max_artifact_support
    → target * (n + 1) ≤ conformal_rank target n * billion
unfolding conformal_rank
conformal_rank-exact target n h k = rounded_up (target * (n + 1)) (grind arith)

validate_config-target :
    (cfg : BuildConfig) → validate_config cfg ≡ ok tt → pos_part cfg.coverage_target_ppb ≤ billion
unfolding validate_config
validate_config-target cfg h = ground arith

-- What the artifact says of its rows.
pub record IsSupported (cfg : BuildConfig) (rows : List Observation) (a : Artifact) : Type 0 where
  -- the bound is the value of a rank that the rows have, and that rank reaches the target
  pub support_counted : a.support ≡ length rows
  pub rank_in_rows : a.conformal_rank ≤ a.support
  pub rank_reaches_target :
      pos_part cfg.coverage_target_ppb * (a.support + 1) ≤ a.conformal_rank * billion
  pub bound_of_rank :
      get_elem? (sort ltb_ℤ (tokens_of rows)) (a.conformal_rank - 1) ≡ some a.upper_output_tokens

built-IsSupported :
    (env : Digests) (cfg : BuildConfig) (rows : List Observation) (first : Instant)
    (digest : String) {a : Artifact}
    → pos_part cfg.coverage_target_ppb ≤ billion
    → length rows ≤ max_artifact_support
    → built env cfg rows first digest ≡ ok a
    → IsSupported cfg rows a
unfolding built artifact_of
built-IsSupported env cfg rows first digest {a} t n h =
    let exact = conformal_rank-exact (pos_part cfg.coverage_target_ppb) (length rows) t n in
    record {
      support_counted = ground arith;
      rank_in_rows = ground arith;
      rank_reaches_target = ground (arith, exact);
      bound_of_rank = ground arith;
    }

-- An artifact that `BuildArtifact` returns is built from usable rows alone: selected, final, not
-- excluded, of the calibration split and the frozen regimes. Its support is their number, its rank
-- is one of theirs and reaches the coverage target, and its bound is the value of that rank.
pub build_artifact-IsSupported :
    (env : Digests) (cfg : BuildConfig) (rows : List Observation) {a : Artifact}
    → build_artifact env cfg rows ≡ ok a
    → All (IsUsable cfg) rows × IsSupported cfg rows a
unfolding build_artifact
build_artifact-IsSupported env cfg [] h =
    let (u, e, k) = >>=-eq-ok (validate_config cfg) _ h in ground arith
build_artifact-IsSupported env cfg (r ∷ rs) h =
    let (u, e, k) = >>=-eq-ok (validate_config cfg) _ h in
    let (small, k₁) = fail_if-eq-ok (ltb max_artifact_support (length (r ∷ rs))) _ _ k in
    let (v, f, k₂) = >>=-eq-ok (validate_rows (r ∷ rs) cfg false) _ k₁ in
    let (digest, d, k₃) = >>=-eq-ok (observation_digest env.rows_sha256 (r ∷ rs)) _ k₂ in
    (
      validate_rows-AreUsable (r ∷ rs) cfg f,
      built-IsSupported env cfg (r ∷ rs) r.settled_at digest (validate_config-target cfg e)
          (ground arith) k₃,
    )
