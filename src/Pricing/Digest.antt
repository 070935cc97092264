-- ===== src/Pricing/Digest.antt =====
-- The digest of internal/govarpricing/pricing.go: `fixedHash`, `isSHA256`, `SnapshotDigest`.
use Prim.Native.Char.{Char, code, nul}
use Prim.Native.String.{len, ◌++◌ as str_append}
use ai_finops_operator.Prelude.{
  ℕ, zero, suc, ◌+◌, ◌/◌, ◌%◌, ◌^◌, ◌<◌, ◌≡◌, ltb, leb, eqb, ℤ, pos, negsuc, String, Bool, true,
  false, ◌&&◌, ◌||◌, List, [], ◌∷◌, ◌++◌, none, some, if◌then◌else◌, length, All, sort, str_lt,
  to_upper,
}
use ai_finops_operator.Pricing.Types.{Basis, Instant, NormalizedCharge, PricingSnapshot}
pub mod Framing

-- What the package takes from the standard library without its text: SHA-256 on bytes, and the
-- RFC 3339 form of an instant in UTC.
pub record Primitives : Type 0 where
  pub sha256 : List ℕ → List ℕ
  pub format_time : Instant → String
  pub sha256_size : (bytes : List ℕ) → length (sha256 bytes) ≡ 32
  pub sha256_bytes : (bytes : List ℕ) → All (λ b. b < 256) (sha256 bytes)

-- The UTF-8 bytes of a code point.
unfoldable pub utf8_char : ℕ → List ℕ
utf8_char n =
    if ltb n 0x80
    then n ∷ []
    else (if ltb n 0x800
        then (0xc0 + n / 0x40) ∷ (0x80 + n % 0x40) ∷ []
        else (if ltb n 0x1_0000
            then (0xe0 + n / 0x1000) ∷ (0x80 + n / 0x40 % 0x40) ∷ (0x80 + n % 0x40) ∷ []
            else (0xf0 + n / 0x4_0000)
              ∷ (0x80 + n / 0x1000 % 0x40)
              ∷ (0x80 + n / 0x40 % 0x40)
              ∷ (0x80 + n % 0x40)
              ∷ []))

-- `[]byte(s)`
unfoldable pub utf8 : String → List ℕ
unfolding utf8_char
utf8 String.[] = []
utf8 (String.◌∷◌ c s) = utf8_char (code c) ++ utf8 s

-- The `k` low bytes of a number, the highest first (`binary.BigEndian.PutUint64` for 8).
unfoldable pub big_endian : ℕ → ℕ → List ℕ
big_endian zero n = []
big_endian (suc k) n = (n / 256 ^ k % 256) ∷ big_endian k n

-- What `fixedHash` writes: before each part its length in eight bytes.
unfoldable pub frame : List String → List ℕ
unfolding utf8 big_endian
frame [] = []
frame (p ∷ ps) = big_endian 8 (length (utf8 p)) ++ (utf8 p ++ frame ps)

-- The character at a place of a text.
unfoldable pub nth_char : String → ℕ → Char
nth_char String.[] i = nul
nth_char (String.◌∷◌ c s) zero = c
nth_char (String.◌∷◌ c s) (suc i) = nth_char s i

-- `fmt.Sprintf("%x", bytes)`
unfoldable pub hex : List ℕ → String
unfolding nth_char
hex [] = ""
hex (b ∷ bs) =
    String.◌∷◌ (nth_char "0123456789abcdef" (b / 16))
      (String.◌∷◌ (nth_char "0123456789abcdef" (b % 16)) (hex bs))

-- `strings.ContainsRune("0123456789abcdef", c)`
unfoldable pub is_hex_digit : ℕ → Bool
is_hex_digit c = leb 48 c && leb c 57 || leb 97 c && leb c 102

unfoldable pub all_hex : String → Bool
unfolding is_hex_digit
all_hex String.[] = true
all_hex (String.◌∷◌ c s) = is_hex_digit (code c) && all_hex s

-- `isSHA256`
unfoldable pub is_sha256 : String → Bool
unfolding all_hex
is_sha256 s = eqb (len s) 64 && all_hex s

-- `fmt.Sprint` of a number below 10^`digits`, and of an int64.
unfoldable pub show_nat : ℕ → ℕ → String
unfolding nth_char
show_nat zero n = ""
show_nat (suc digits) n = elim (ltb n 10) [
  | true ↦ String.◌∷◌ (nth_char "0123456789" n) ""
  | false ↦ str_append (show_nat digits (n / 10)) (String.◌∷◌ (nth_char "0123456789" (n % 10)) "")
]

unfoldable pub show_int : ℤ → String
unfolding show_nat
show_int (pos n) = show_nat 20 n
show_int (negsuc n) = str_append "-" (show_nat 20 (suc n))

unfoldable pub show_bool : Bool → String
show_bool true = "true"
show_bool false = "false"

-- The parts of one charge row.
unfoldable pub charge_parts : NormalizedCharge → List String
unfolding show_int show_bool
charge_parts r =
    r.basis
    ∷ r.applicability
    ∷ show_int r.price_micros_per_unit
    ∷ show_int r.unit_denominator
    ∷ r.settlement_usage_field
    ∷ (elim r.included_in [ none ↦ "" | some b ↦ b ])
    ∷ (elim r.maximum_quantity [ none ↦ "" | some m ↦ show_int m ])
    ∷ r.request_bound_field
    ∷ show_bool r.disjoint_usage
    ∷ []

unfoldable pub rows_parts : List NormalizedCharge → List String
unfolding charge_parts
rows_parts [] = []
rows_parts (r ∷ rs) = charge_parts r ++ rows_parts rs

unfoldable pub inapplicable_parts : List Basis → List String
inapplicable_parts [] = []
inapplicable_parts (b ∷ bs) = "inapplicable" ∷ b ∷ inapplicable_parts bs

-- The order of `sort.Slice` on rows, by basis.
abbrev pub row_before : NormalizedCharge → NormalizedCharge → Bool
row_before a b = str_lt a.basis b.basis

module _ (env : Primitives) where
  -- `fixedHash`
  unfoldable pub fixed_hash : List String → String
  unfolding frame hex
  fixed_hash parts = hex (env.sha256 (frame parts))

  -- `SnapshotDigest`
  unfoldable pub snapshot_digest : PricingSnapshot → String
  unfolding fixed_hash rows_parts inapplicable_parts
  snapshot_digest s = fixed_hash (
      ("govar-normalized-pricing-v1"
        ∷ show_int s.spec_generation
        ∷ s.version
        ∷ env.format_time s.observed_at
        ∷ env.format_time s.valid_until
        ∷ to_upper s.currency
        ∷ s.completeness
        ∷ s.adapter_version
        ∷ s.evidence_mode
        ∷ s.evidence_sha256
        ∷ s.source_version
        ∷ [])
      ++ (rows_parts (sort row_before s.charges)
          ++ inapplicable_parts (sort str_lt s.inapplicable_bases)))
