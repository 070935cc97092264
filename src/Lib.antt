-- ===== src/Lib.antt =====
-- A verification library for the FinOps operator's decision logic.
--
-- The operator watches Kubernetes resources that describe AI providers, models, budgets and
-- sovereignty policies, and keeps the engines that decide free of any client. Prices are
-- handled in internal/govarpricing: a provider's price list is normalised into a snapshot
-- with a digest, a request reserves the most that it can cost against that snapshot, and the
-- usage that the provider reports is settled against the reservation. Pricing and its child
-- modules are about that package and the records of api/v1alpha1/aiprovider_types.go:
--   Pricing.Types      the records (ProviderPricing, NormalizedCharge, PricingSnapshot ...)
--   Pricing.Charge     ceilingProduct, exactMicros, SumComponents, SumActualComponents
--   Pricing.Usage      canonicalUsage, requestQuantity and the tests on names
--   Pricing.Inclusion  validateIncludedChargeGraph and legalIncludedPair
--   Pricing.Digest     fixedHash, SnapshotDigest, isSHA256; Framing, the bytes it writes
--   Pricing.Snapshot   ValidateSnapshotIntegrity and ValidateSnapshot
--   Pricing.Reserve    ReserveComponents
--   Pricing.Settle     SettleComponents
--   Pricing.Normalize  ForProviderType, OutputCapRequestParameter, Normalize
--
-- A sovereignty policy is enforced at the gateway. The engines of internal/sovereigntyengine and
-- internal/shadowengine find the traffic that breaks a policy, internal/enforcementengine decides
-- what is to be done about each violation, and internal/gatewayreroute writes the decision into
-- the rules of a route, keeping the original backends so that it can be undone:
--   Sovereignty.Zones      NormalizeZone, toSet, zoneAllowed, IsZoneAllowed
--   Sovereignty.Findings   Evaluate
--   Sovereignty.Flows      EvaluateFlows
--   Sovereignty.Shadow     Detect
--   Sovereignty.Decisions  DecideSovereignty
--   Gateway.Json           decoded JSON, and the helpers of the package unstructured
--   Gateway.Reroute        RuleModel, firstBackend, ApplyControls, Apply
--   Gateway.Refinement     what any sequence of calls of ApplyControls promises, by marks on models
--   Gateway.Actuator       modelBackends and actuateRouteControlsWithAnnotation of
--                          internal/controller/gatewayactuator.go
--
-- internal/qualityengine compares the answers of two models; its text measures are modelled, the
-- scores in floating point are not:
--   Quality.Tokens  tokenize, contentTokens, uniqueTokens, similarToken and the counts of
--                   ContentTokenCoverageScore and TokenF1Score
--   Quality.Tables  EditDistance on normalized texts and lcsLen, as tables filled row by row; Edits
--                   and Common say what the tables count
--
-- internal/govarcalibration/calibration.go builds the evidence for an upper bound of output tokens:
--   Calibration.Rows      Observation, BuildConfig, validateConfig, validateRow, ObservationDigest
--   Calibration.Artifact  BuildArtifact
--   Calibration.Drift     DetectCoverageGap and wilsonIntervalPPB
--   Calibration.Authoritative  the artifacts and drift windows built from the ledger, of
--                         internal/govarcalibration/authoritative.go
--
-- A change request asks a reviewer to approve a reroute or to authorize a route
-- (api/v1alpha1/aichangerequest_types.go, internal/controller/aichangerequest_controller.go). One
-- reconciliation is a function of the stored request and of what it reads outside (Environment):
--   ChangeRequest.Types      the resource
--   ChangeRequest.Decision   ValidateGOVARDecision and the three ComputeDigest functions
--   ChangeRequest.Reconcile  Reconcile, approveGOVARRoute, validateGOVARRouteReferences, actuate
--   ChangeRequest.Workflow   rounds and allowed edits as a step relation, and what they preserve
--
-- A budget policy compares spend with a budget (internal/budgetengine) and may move models to a
-- cheaper fallback (internal/controller/budgetfallback.go, with parts of catalog.go beside it):
--   Budget.Phases    Evaluate
--   Budget.Samples   usage samples, the target of a budget, and sharedModelsOutsideTarget
--   Budget.Fallback  budgetFallbackDesired
--
-- Prelude holds the shared tests, lists, integers, results, text, sorting and dictionaries.
--
-- Machine integers: an int64 is an integer of Prelude.Int, and the additions that can leave
-- the range are wrapped (add64). Instants are counts of nanoseconds. Text is compared and
-- mapped to lower case as ASCII, which covers every name that the code compares.
--
-- Fuel: the walk up the inclusions (Pricing.Inclusion.climb) is given one more round than there
-- are rows, which Pricing.Inclusion.Climb shows to be enough; the decimal print of an int64
-- (Pricing.Digest.show_nat) is given a number of digits that no int64 exceeds; the
-- lengths that CanonicalDigest prints (Calibration.Authoritative.Canonical.itoa) are given eight
-- digits, and a field of more than 2^24 bytes is refused before.
--
-- Not modelled: SHA-256 and the printing of an instant, which are the parameter Primitives;
-- the tables of the package unicode, which are the parameter Unicode of the tokenizer;
-- the digests of rows and artifacts as JSON, which are the parameters Digests;
-- a change of the routes between the listings of one actuation;
-- the JSON of the annotation and the answers of the API server, which are the parameter Server;
-- the verbs %q and %d of the package fmt, which are parameters of the engines' messages; the
-- helpers NestedSlice, NestedString and SetNestedSlice, which are the interface Unstructured
-- with their documented behaviour as laws; the tallies CountBySeverity and CountByAction;
-- the texts of error and status messages, which are constructors of the error types; the order in which Go
-- walks a map (dictionaries are association lists in order of insertion, and the code sorts
-- what it gets from them); the stable sort of the library, which is an insertion sort here;
-- the other controllers, the events that controllers record, the HTTP servers and collectors; and the
-- arithmetic on floating-point numbers, whose operations are the parameter Floats.
pub mod Prelude
pub mod Pricing
pub mod Gateway
pub mod Sovereignty
pub mod Quality
pub mod Budget
pub mod Calibration
pub mod ChangeRequest
