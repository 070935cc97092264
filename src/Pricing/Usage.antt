-- ===== src/Pricing/Usage.antt =====
-- The quantities of internal/govarpricing/pricing.go: declared and reported usage, and the bound that
-- a request puts on a charge.
pub mod Canonical
use ai_finops_operator.Prelude.{
  ℤ, pos, ltb_ℤ, String, Bool, true, false, not, ◌&&◌, ◌||◌, ◌==◌, List, [], ◌∷◌, Option, none,
  some, if◌then◌else◌, Result, ok, err, ◌>>=◌, ◌>>◌, fail_if,
}
use ai_finops_operator.Prelude.Dict.{Dict, lookup, contains, insert}
use ai_finops_operator.Pricing.Types.{
  Basis, Error, all_bases, NormalizedCharge, RequestChargeContext, UsageQuantity,
}

-- The key is in the set.
unfoldable pub has : Basis → List Basis → Bool
has b [] = false
has b (c ∷ cs) = c == b || has b cs

-- `isBasis`
unfoldable pub is_basis : Basis → Bool
unfolding has
is_basis b = has b all_bases

-- `validApplicability`
unfoldable pub valid_applicability : String → Bool
valid_applicability a = a == "always" || a == "request_declared" || a == "provider_response"

-- `validEvidenceMode`
unfoldable pub valid_evidence_mode : String → Bool
valid_evidence_mode m = m == "provider_catalog" || m == "provider_api" || m == "admin_attested"

-- `validRequestBound`
unfoldable pub valid_request_bound : Basis → String → Bool
valid_request_bound basis field =
    basis == "input_tokens" && field == "input_tokens"
    || basis == "cached_input_tokens" && field == "max_cached_input_tokens"
    || basis == "output_tokens" && field == "max_output_tokens"
    || basis == "reasoning_tokens" && field == "max_reasoning_tokens"
    || basis == "tool_call" && field == "max_tool_calls"
    || basis == "media_unit" && field == "max_media_units"
    || basis == "billable_second" && field == "timeout_seconds"
    || basis == "retry_attempt" && field == "max_retry_attempts"
    || basis == "cancellation" && field == "cancellation_possible"

-- The loop of `canonicalUsage`, on the map so far.
unfoldable pub canonical_usage_from : Dict ℤ → List UsageQuantity → Result Error (Dict ℤ)
canonical_usage_from out [] = ok out
canonical_usage_from out (v ∷ vs) = do
  fail_if (not (is_basis v.basis) || ltb_ℤ v.quantity (pos 0)) Error.invalid_usage
  fail_if (contains v.basis out) Error.duplicate_usage
  canonical_usage_from (insert v.basis v.quantity out) vs

-- `canonicalUsage`
unfoldable pub canonical_usage : List UsageQuantity → Result Error (Dict ℤ)
unfolding canonical_usage_from
canonical_usage = canonical_usage_from []

-- `requiredDeclared`
unfoldable pub required_declared : Basis → Dict ℤ → Result Error ℤ
required_declared basis declared = elim (lookup basis declared) [
  | none ↦ err Error.missing_bound
  | some q ↦ ok q
]

-- The fields that `requestQuantity` looks up among the declared bounds.
unfoldable pub is_declared_field : String → Bool
is_declared_field f =
    f == "max_cached_input_tokens"
    || f == "max_reasoning_tokens"
    || f == "max_tool_calls"
    || f == "max_media_units"
    || f == "timeout_seconds"
    || f == "max_retry_attempts"
    || f == "cancellation_possible"

-- `requestQuantity`
unfoldable pub request_quantity : NormalizedCharge → RequestChargeContext → Dict ℤ → Result Error ℤ
unfolding required_declared is_declared_field
request_quantity row ctx declared =
    if row.applicability == "always" || row.applicability == "provider_response"
    then elim row.maximum_quantity [ none ↦ err Error.missing_bound | some m ↦ ok m ]
    else (if row.request_bound_field == "input_tokens"
        then ok ctx.input_tokens
        else (if row.request_bound_field == "max_output_tokens"
            then ok ctx.output_tokens
            else (if is_declared_field row.request_bound_field
                then required_declared row.basis declared
                else (if row.request_bound_field == ""
                    then err Error.unmapped_bound
                    else err Error.unknown_bound))))
