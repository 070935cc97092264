-- ===== src/Calibration/Authoritative/Canonical.antt =====
-- `CanonicalDigest` and the canonical digests of regimes of
-- internal/govarcalibration/authoritative.go.
use native.Mathlib.Nat.{pow-succ'}
use ai_finops_operator.Prelude.{
  ◌≡◌, refl, sym, ap, ◌∙◌, ℕ, zero, suc, ◌+◌, ◌-◌, ◌*◌, ◌/◌, ◌%◌, ◌^◌, ◌≤◌, ◌<◌, ltb, ℤ, pos, leb_ℤ,
  String, not, ◌||◌, ◌==◌, List, [], ◌∷◌, ◌++◌, map, if◌then◌else◌, arith, length, All, trim,
  Result, ok, ◌>>◌, fail_if, inl, inr, Bool-cases, >>=-eq-ok, fail_if-eq-ok,
}
use ai_finops_operator.Pricing.Digest.{Primitives, utf8, hex, show_int}
use ai_finops_operator.Pricing.Digest.Framing.{same_length_ends}
use ai_finops_operator.Calibration.Rows.{is_lower_sha256}
use ai_finops_operator.Calibration.Authoritative.Rows.{valid_split}

pub data CanonicalError : Type 0 where
  missing_domain field_too_large missing_identity : CanonicalError

-- `strconv.Itoa` as bytes, of a number with at most `digits` digits.
unfoldable pub itoa : (digits n : ℕ) → List ℕ
itoa zero n = []
itoa (suc digits) n =
    let rest = itoa digits (n / 10) in
    if ltb n 10 then (48 + n) ∷ [] else rest ++ ((48 + n % 10) ∷ [])

-- What is written: the length of each value, and the value, each before a zero byte.
unfoldable pub written : List (List ℕ) → List ℕ
written [] = []
written (v ∷ vs) = itoa 8 (length v) ++ (0 ∷ (v ++ (0 ∷ written vs)))

unfoldable pub check_sizes : List (List ℕ) → Result CanonicalError (Unit {0})
check_sizes [] = ok tt
check_sizes (v ∷ vs) = do
  fail_if (ltb (2 ^ 24) (length v)) CanonicalError.field_too_large
  check_sizes vs

-- CanonicalDigest
unfoldable pub canonical_digest :
    Primitives → (domain : String) (fields : List String) → Result CanonicalError String
canonical_digest env domain fields = do
  fail_if (trim domain == "") CanonicalError.missing_domain
  check_sizes (map utf8 (trim domain ∷ fields))
  ok (hex (env.sha256 (written (map utf8 (trim domain ∷ fields)))))

module _ (env : Primitives) where
  unfoldable pub canonical_feature_regime :
      (schema_version canonical_sha256 : String) → Result CanonicalError String
  canonical_feature_regime schema_version canonical_sha256 = do
    fail_if (trim schema_version == "" || not (is_lower_sha256 canonical_sha256))
        CanonicalError.missing_identity
    canonical_digest env "govar-feature-regime-v1" (schema_version ∷ canonical_sha256 ∷ [])

  unfoldable pub canonical_price_regime :
      (snapshot_sha256 provider_uid deployment : String) → Result CanonicalError String
  canonical_price_regime snapshot_sha256 provider_uid deployment = do
    fail_if
        (not (is_lower_sha256 snapshot_sha256) || trim provider_uid == "" || trim deployment == "")
        CanonicalError.missing_identity
    canonical_digest env "govar-price-regime-v1" (snapshot_sha256 ∷ provider_uid ∷ deployment ∷ [])

  unfoldable pub canonical_cap_path_adapter_regime :
      (cap_sha256 provider_uid : String) (generation : ℤ)
      (deployment path_mode adapter_version request_parameter : String) (max_output_tokens : ℤ)
      → Result CanonicalError String
  canonical_cap_path_adapter_regime cap_sha256 provider_uid generation deployment path_mode
        adapter_version request_parameter max_output_tokens =
      do
        fail_if
            (not (is_lower_sha256 cap_sha256)
              || trim provider_uid == ""
              || leb_ℤ generation (pos 0)
              || trim deployment == ""
              || trim path_mode == ""
              || trim adapter_version == ""
              || trim request_parameter == ""
              || leb_ℤ max_output_tokens (pos 0))
            CanonicalError.missing_identity
        canonical_digest env "govar-cap-path-adapter-regime-v1" (
            cap_sha256
            ∷ provider_uid
            ∷ show_int generation
            ∷ deployment
            ∷ path_mode
            ∷ adapter_version
            ∷ request_parameter
            ∷ show_int max_output_tokens
            ∷ [])

  unfoldable pub canonical_split_opportunity_regime :
      (registry_sha256 opportunities_sha256 split cohort_sha256 : String)
      → Result CanonicalError String
  canonical_split_opportunity_regime registry_sha256 opportunities_sha256 split cohort_sha256 = do
    fail_if
        (not (is_lower_sha256 registry_sha256)
          || not (is_lower_sha256 opportunities_sha256)
          || not (is_lower_sha256 cohort_sha256)
          || not (valid_split split))
        CanonicalError.missing_identity
    canonical_digest env "govar-split-opportunity-regime-v1"
        (registry_sha256 ∷ opportunities_sha256 ∷ split ∷ cohort_sha256 ∷ [])

-- Two texts without zeros before a zero byte are equal, and so is what follows.
zero_ends :
    (xs ys r s : List ℕ)
    → All (λ b. 0 < b) xs
    → All (λ b. 0 < b) ys
    → xs ++ (0 ∷ r) ≡ ys ++ (0 ∷ s)
    → (xs ≡ ys) × (r ≡ s)
zero_ends [] [] r s p q h = (refl, cc)
zero_ends [] (y ∷ ys) r s p q h = ground arith
zero_ends (x ∷ xs) [] r s p q h = ground arith
zero_ends (x ∷ xs) (y ∷ ys) r s p q h =
    let (e, k) = zero_ends xs ys r s p.1 q.1 (cc h) in (cc (e, h), k)

All-append :
    (xs ys : List ℕ) → All (λ b. 0 < b) xs → All (λ b. 0 < b) ys → All (λ b. 0 < b) (xs ++ ys)
All-append [] ys p q = q
All-append (x ∷ xs) ys p q = (p.0, All-append xs ys p.1 q)

itoa-All : (digits n : ℕ) → All (λ b. 0 < b) (itoa digits n)
unfolding itoa
itoa-All zero n = tt
itoa-All (suc digits) n = elim (Bool-cases (ltb n 10)) [
  | inl e ↦ rw e (omega arith, tt)
  | inr e ↦ rw e (All-append (itoa digits (n / 10)) _ (itoa-All digits (n / 10)) (omega arith, tt))
]

-- The number that digits stand for.
value_from : ℕ → List ℕ → ℕ
value_from acc [] = acc
value_from acc (b ∷ bs) = value_from (acc * 10 + (b - 48)) bs

value_from-snoc :
    (acc : ℕ) (xs : List ℕ) (d : ℕ)
    → value_from acc (xs ++ (d ∷ [])) ≡ value_from acc xs * 10 + (d - 48)
unfolding value_from
value_from-snoc acc [] d = refl
value_from-snoc acc (x ∷ xs) d = value_from-snoc (acc * 10 + (x - 48)) xs d

tenth : (digits n : ℕ) → n < 10 ^ suc digits → n / 10 < 10 ^ digits
tenth digits n h =
    let power : 10 ^ suc digits ≡ 10 * 10 ^ digits = pow-succ' 10 digits in omega (arith, power)

itoa-value : (digits n : ℕ) → n < 10 ^ digits → value_from 0 (itoa digits n) ≡ n
unfolding itoa value_from
itoa-value zero n h = omega arith
itoa-value (suc digits) n h = elim (Bool-cases (ltb n 10)) [
  | inl e ↦ rw e (omega arith)
  | inr e ↦ rw e (
      value_from-snoc 0 (itoa digits (n / 10)) (48 + n % 10)
      ∙ omega (arith, itoa-value digits (n / 10) (tenth digits n h)))
]

-- The decimal length of a value that is not too large determines the length.
itoa_injective : (m n : ℕ) → m ≤ 2 ^ 24 → n ≤ 2 ^ 24 → itoa 8 m ≡ itoa 8 n → m ≡ n
itoa_injective m n h k e =
    sym (itoa-value 8 m (omega arith)) ∙ ap (value_from 0) e ∙ itoa-value 8 n (omega arith)

check_sizes-passes :
    (v : List ℕ) (vs : List (List ℕ))
    → check_sizes (v ∷ vs) ≡ ok tt
    → (length v ≤ 2 ^ 24) × (check_sizes vs ≡ ok tt)
unfolding check_sizes
check_sizes-passes v vs h =
    let (e, k) = fail_if-eq-ok (ltb (2 ^ 24) (length v)) _ _ h in (ground arith, k)

written-nonempty : (n : ℕ) (r : List ℕ) → [] ≡ itoa 8 n ++ (0 ∷ r) → ⊥
written-nonempty n r h = nonempty (itoa 8 n) h
  where
    nonempty : (xs : List ℕ) → [] ≡ xs ++ (0 ∷ r) → ⊥
    nonempty [] e = cc
    nonempty (x ∷ xs) e = cc

-- What is written for values that are not too large determines them.
written_injective :
    (vs ws : List (List ℕ))
    → check_sizes vs ≡ ok tt
    → check_sizes ws ≡ ok tt
    → written vs ≡ written ws
    → vs ≡ ws
unfolding written
written_injective [] [] h k e = refl
written_injective [] (w ∷ ws) h k e = absurd (written-nonempty (length w) _ e)
written_injective (v ∷ vs) [] h k e = absurd (written-nonempty (length v) _ (sym e))
written_injective (v ∷ vs) (w ∷ ws) h k e =
    let (sv, h') = check_sizes-passes v vs h in
    let (sw, k') = check_sizes-passes w ws k in
    let (head, tail) =
      zero_ends (itoa 8 (length v)) (itoa 8 (length w)) (v ++ (0 ∷ written vs))
        (w ++ (0 ∷ written ws)) (itoa-All 8 (length v)) (itoa-All 8 (length w)) e in
    let same = itoa_injective (length v) (length w) sv sw head in
    let (value, rest) = same_length_ends v w (0 ∷ written vs) (0 ∷ written ws) same tail in
    cc (value, written_injective vs ws h' k' (cc rest))

-- Two digests that `CanonicalDigest` takes of the same bytes are of the same domain, trimmed, and of
-- the same fields in the same order, as bytes: no choice of fields can be mistaken for another.
pub canonical_digest_injective :
    (env : Primitives) (domain domain' : String) (fields fields' : List String) {d d' : String}
    → canonical_digest env domain fields ≡ ok d
    → canonical_digest env domain' fields' ≡ ok d'
    → written (map utf8 (trim domain ∷ fields)) ≡ written (map utf8 (trim domain' ∷ fields'))
    → map utf8 (trim domain ∷ fields) ≡ map utf8 (trim domain' ∷ fields')
unfolding canonical_digest
canonical_digest_injective env domain domain' fields fields' h k e =
    let (x, h₁) = fail_if-eq-ok (trim domain == "") _ _ h in
    let (u, sizes, h₂) = >>=-eq-ok (check_sizes (map utf8 (trim domain ∷ fields))) _ h₁ in
    let (y, k₁) = fail_if-eq-ok (trim domain' == "") _ _ k in
    let (v, sizes', k₂) = >>=-eq-ok (check_sizes (map utf8 (trim domain' ∷ fields'))) _ k₁ in
    written_injective (map utf8 (trim domain ∷ fields)) (map utf8 (trim domain' ∷ fields')) sizes
      sizes' e
