-- ===== src/Calibration/Drift/Detected.antt =====
-- When a coverage gap is detected (internal/govarcalibration/calibration.go).
use native.Mathlib.Nat.{div-le_of_le-mul}
use ai_finops_operator.Prelude.{
  ◌≡◌, refl, ◌≤◌, ◌<◌, ◌↔◌, ℕ, ◌+◌, ◌-◌, ◌*◌, ◌/◌, ◌%◌, ◌^◌, leb, ℤ, pos, negsuc, pos_part, ◌-ℤ◌,
  wrap64, ltb_ℤ, max_int64, String, true, false, List, [], ◌∷◌, length, arith, All, Result, ok, err,
  >>=-eq-ok, fail_if-eq-ok, to_lower, trim, ◌==◌, ◌||◌, ap, subst, sym, ||-eq-false, suc,
}
use ai_finops_operator.Prelude.Float.{Floats}
use ai_finops_operator.Calibration.Rows.{
  Observation, BuildError, validate_row, validate_rows, observation_digest, split_monitoring,
}
use ai_finops_operator.Calibration.Artifact.{
  Artifact, Digests, billion, covered_count, tokens_of, earliest, latest,
}
use ai_finops_operator.Calibration.Drift.{
  DriftResult, DriftError, rows_result, monitoring_config, detect_coverage_gap, coverage_ppb,
  coverage_gap, drift_result,
}

covered_count-bound : (upper : ℤ) (tokens : List ℤ) → covered_count upper tokens ≤ length tokens
unfolding covered_count
covered_count-bound upper [] = omega arith
covered_count-bound upper (t ∷ ts) = let ih = covered_count-bound upper ts in ground arith

-- Within the bound on the rows nothing wraps.
coverage_ppb-exact :
    (covered support : ℕ)
    → covered ≤ support
    → support ≤ 9_000_000_000
    → coverage_ppb covered support ≡ pos (covered * billion / support)
unfolding coverage_ppb
coverage_ppb-exact covered support h k =
    let e : covered * billion % 2 ^ 64 ≡ covered * billion = omega arith in
    let fits : leb (covered * billion) max_int64 ≡ true = ground arith in
    rw (coverage_ppb, e, fits) refl

wrap64_fits : (n : ℕ) → n ≤ max_int64 → wrap64 (pos n) ≡ pos n
unfolding wrap64
wrap64_fits n h = ground arith

wrap64_negative : (n : ℕ) → n ≤ max_int64 → wrap64 (negsuc n) ≡ negsuc n
unfolding wrap64
wrap64_negative n h = ground arith

coverage_gap-exact :
    (target coverage : ℕ)
    → target ≤ billion
    → coverage ≤ billion
    → coverage_gap (pos target) (pos coverage) ≡ pos (target - coverage)
unfolding coverage_gap ◌-ℤ◌
coverage_gap-exact target coverage h k =
    ground (arith, wrap64_fits (target - coverage), wrap64_negative (coverage - target - 1))

-- The share of covered rows is at most one.
coverage_bound : (covered support : ℕ) → covered ≤ support → covered * billion / support ≤ billion
coverage_bound covered support h = div-le_of_le-mul support (omega arith)

-- For a target, a threshold and rows in range, a gap is detected exactly when the covered share of
-- the rows, in parts of a billion rounded down, is below the target by more than the threshold.
pub drift_result-detects :
    (f : Floats) (target : ℕ) (threshold upper : ℤ) (digest : String) (tokens : List ℤ)
    (start end : ℕ)
    → ltb_ℤ threshold (pos 0) ≡ false
    → target ≤ billion
    → length tokens ≤ 9_000_000_000
    → ((drift_result f (pos target) upper threshold digest tokens start end).detected ≡ true)
      ↔ (pos_part threshold + covered_count upper tokens * billion / length tokens < target)
unfolding drift_result
drift_result-detects f target (negsuc t) upper digest tokens start end n h l = ground arith
drift_result-detects f target (pos t) upper digest tokens start end n h l =
    let bound = covered_count-bound upper tokens in
    let e = coverage_ppb-exact (covered_count upper tokens) (length tokens) bound l in
    let g =
      coverage_gap-exact target (covered_count upper tokens * billion / length tokens) h
        (coverage_bound (covered_count upper tokens) (length tokens) bound) in
    rw (e, g) (ground arith)

-- The same of a result that is known to be that one, for rows that give the outputs.
pub answer-detects :
    (f : Floats) (target : ℕ) (aim threshold upper : ℤ) (digest : String) (tokens : List ℤ)
    (start end n : ℕ) {r : DriftResult}
    → ltb_ℤ threshold (pos 0) ≡ false
    → aim ≡ pos target
    → target ≤ billion
    → length tokens ≡ n
    → n ≤ 9_000_000_000
    → drift_result f aim upper threshold digest tokens start end ≡ r
    → (r.detected ≡ true) ↔ (pos_part threshold + covered_count upper tokens * billion / n < target)
answer-detects f target aim threshold upper digest tokens start end n {r} h e k c l m =
    subst
      (λ (x : DriftResult).
        (x.detected ≡ true)
        ↔ (pos_part threshold + covered_count upper tokens * billion / n < target))
      m
      (subst
        (λ (y : ℤ).
          ((drift_result f y upper threshold digest tokens start end).detected ≡ true)
          ↔ (pos_part threshold + covered_count upper tokens * billion / n < target))
        (sym e)
        (subst
          (λ (z : ℕ).
            ((drift_result f (pos target) upper threshold digest tokens start end).detected ≡ true)
            ↔ (pos_part threshold + covered_count upper tokens * billion / z < target))
          c
          (drift_result-detects f target threshold upper digest tokens start end h k
            (omega arith))))

pub ok_injective : {E A : Type 0} {a b : A} → ◌≡◌ {A = Result E A} (ok a) (ok b) → a ≡ b
ok_injective h = cc

-- A row that may be monitored under the artifact.
pub record IsMonitored (artifact : Artifact) (row : Observation) : Type 0 where
  pub is_selected : row.selected ≡ true
  pub is_final : row.authoritative_final ≡ true
  pub not_excluded : row.excluded ≡ false
  pub in_split : (to_lower (trim row.split) == split_monitoring) ≡ true
  pub same_schema : (row.feature_schema_version == artifact.feature_schema_version) ≡ true
  pub same_prices : (row.price_regime_sha256 == artifact.price_regime_sha256) ≡ true
  pub same_caps : (row.cap_regime_sha256 == artifact.cap_regime_sha256) ≡ true

validate_row-IsMonitored :
    (row : Observation) (a : Artifact)
    → validate_row row (monitoring_config a) true ≡ ok tt
    → IsMonitored a row
unfolding validate_row monitoring_config
validate_row-IsMonitored row a h = record {
  is_selected = ground arith;
  is_final = ground arith;
  not_excluded = ground arith;
  in_split = ground arith;
  same_schema = ground arith;
  same_prices = ground arith;
  same_caps = ground arith;
}

validate_rows-AreMonitored :
    (rows : List Observation) (a : Artifact)
    → validate_rows rows (monitoring_config a) true ≡ ok tt
    → All (IsMonitored a) rows
unfolding validate_rows
validate_rows-AreMonitored [] a h = tt
validate_rows-AreMonitored (r ∷ rs) a h =
    let (u, e, k) = >>=-eq-ok (validate_row r (monitoring_config a) true) _ h in
    (validate_row-IsMonitored r a e, validate_rows-AreMonitored rs a k)

rows_result-ok : {A : Type 0} (r : Result BuildError A) {a : A} → rows_result r ≡ ok a → r ≡ ok a
rows_result-ok (ok b) h = cc
rows_result-ok (err e) h = cc

length-tokens_of : (rows : List Observation) → length (tokens_of rows) ≡ length rows
unfolding tokens_of
length-tokens_of [] = refl
length-tokens_of (r ∷ rs) = ap (λ (n : ℕ). suc n) (length-tokens_of rs)

-- `DetectCoverageGap` answers only for monitoring rows that were selected, are final, not excluded and
-- of the artifact's regimes. For a target in range and at most nine billion rows it detects a gap
-- exactly when the share of rows within the artifact's bound, in parts of a billion rounded down, is
-- below the artifact's target by more than the threshold.
pub detect_coverage_gap-detects :
    (f : Floats) (env : Digests) (a : Artifact) (threshold : ℤ) (rows : List Observation)
    (target : ℕ) {r : DriftResult}
    → a.coverage_target_ppb ≡ pos target
    → target ≤ billion
    → length rows ≤ 9_000_000_000
    → detect_coverage_gap f env a threshold rows ≡ ok r
    → All (IsMonitored a) rows
      × ((r.detected ≡ true) ↔ (
          pos_part threshold
            + covered_count a.upper_output_tokens (tokens_of rows) * billion / length rows
          < target))
unfolding detect_coverage_gap
detect_coverage_gap-detects f env a threshold [] target e t l h =
    let (b, k) = fail_if-eq-ok (ltb_ℤ threshold (pos 0) || ltb_ℤ (pos billion) threshold) _ _ h in
    cc
detect_coverage_gap-detects f env a threshold (x ∷ xs) target {r} e t l h =
    let (b, h₁) = fail_if-eq-ok (ltb_ℤ threshold (pos 0) || ltb_ℤ (pos billion) threshold) _ _ h in
    let (u, v, h₂) =
      >>=-eq-ok (rows_result (validate_rows (x ∷ xs) (monitoring_config a) true)) _ h₁ in
    let (digest, d, h₃) =
      >>=-eq-ok (rows_result (observation_digest env.rows_sha256 (x ∷ xs))) _ h₂ in
    (
      validate_rows-AreMonitored (x ∷ xs) a
          (rows_result-ok (validate_rows (x ∷ xs) (monitoring_config a) true) v),
      answer-detects f target a.coverage_target_ppb threshold a.upper_output_tokens digest
          (tokens_of (x ∷ xs)) (earliest x.settled_at (x ∷ xs)) (latest x.settled_at (x ∷ xs))
          (length (x ∷ xs))
          (||-eq-false (ltb_ℤ threshold (pos 0)) (ltb_ℤ (pos billion) threshold) b).0 e t
          (length-tokens_of (x ∷ xs)) l (ok_injective {E = DriftError} h₃),
    )
