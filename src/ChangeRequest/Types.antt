-- ===== src/ChangeRequest/Types.antt =====
-- The resource of api/v1alpha1/aichangerequest_types.go.
use ai_finops_operator.Prelude.{ℕ, ℤ, String, Bool, List, Option}

-- An instant in nanoseconds; zero is the zero time.
abbrev pub Instant : Type 0
Instant = ℕ

pub data Action : Type 0 where
  reroute authorize_govar_route : Action

pub data Approval : Type 0 where
  undecided approval_pending approval_approved approval_rejected : Approval

-- `unset` is the empty phase of a request that was never reconciled.
pub data Phase : Type 0 where
  unset pending approved actuated rejected expired failed : Phase

pub record ResolvedReference : Type 0 where
  pub name : String
  pub uid : String
  pub generation : ℤ

pub record Scope : Type 0 where
  pub routing_policy : ResolvedReference
  pub model : ResolvedReference
  pub provider : ResolvedReference
  pub route_snapshot_digest : String
  pub valid_until : Instant
  pub scope_digest : String

pub record Decision : Type 0 where
  pub outcome : Approval
  pub reviewer_identity : String
  pub reviewer_group : String
  pub decided_at : Instant
  pub valid_until : Instant
  pub request_uid : String
  pub admission_uid : String
  pub proposal_digest : String
  pub scope_digest : String
  pub decision_digest : String

pub record Spec : Type 0 where
  pub action : Action
  pub source_model : String
  pub target_model : String
  pub govar_route_approval : Option Scope
  pub requested_by : String
  pub proposal_digest : String
  pub govar_decision : Option Decision
  pub reason : String
  pub expected_saving_eur : String
  pub quality_score : String
  pub latency_impact : String
  pub risk_level : String
  pub expires_after : String
  pub approval : Approval

-- What a message of the controller says; its text is not modelled.
pub data Message : Type 0 where
  no_message expired_message rejected_message waiting_message : Message
  invalid_rejection invalid_scope invalid_decision scope_expired : Message
  invalid_references approved_message : Message
  no_route_definition no_target_backend no_source_route actuated_message : Message

-- The Ready condition.
pub record Condition : Type 0 where
  pub status : Bool
  pub is_error : Bool
  pub message : Message
  pub observed_generation : ℤ

pub record Status : Type 0 where
  pub observed_generation : ℤ
  pub phase : Phase
  pub message : Message
  pub actuated_at : Option Instant
  pub approved_at : Option Instant
  pub approved_scope_digest : String
  pub approved_decision_digest : String
  pub approved_by : String
  pub expires_at : Option Instant
  pub actuated_routes : List String
  pub ready : Option Condition

pub record Request : Type 0 where
  pub namespace : String
  pub name : String
  pub uid : String
  pub generation : ℤ
  pub creation_timestamp : Instant
  pub spec : Spec
  pub status : Status
