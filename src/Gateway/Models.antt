-- ===== src/Gateway/Models.antt =====
-- The records of services/tool-gateway/src/changeops_tool_gateway/models.py that its repository
-- keeps, with their validators.
use enterprise_change_ops.Base.{
  ℕ, String, string_eq, Bool, true, false, not, ◌&&◌, ◌||◌, ltb, leb, ◌==◌, ◌/=◌, if◌then◌else◌,
  Option, none, some, List, [], ◌∷◌, Comparable, decided_eq, Result, ok, err,
}
use enterprise_change_ops.Contracts.Json.{Fields}
use enterprise_change_ops.Contracts.Enums.{ChangeEnvironment, UserRole, ApprovalDecision}
use enterprise_change_ops.Contracts.Models.{Timestamp, Approval}
use enterprise_change_ops.Contracts.Approvals.{validate_expiration}
use enterprise_change_ops.Gateway.Errors.{GatewayError, validation_error, runtime_error}

pub data ApprovalRequestStatus : Type 0 where
  pending approved rejected changes_requested : ApprovalRequestStatus

pub data ToolExecutionStatus : Type 0 where
  reserved succeeded failed : ToolExecutionStatus

unfoldable pub ApprovalRequestStatus-discrete : Discrete ApprovalRequestStatus
ApprovalRequestStatus-discrete = hlevel

unfoldable pub ToolExecutionStatus-discrete : Discrete ToolExecutionStatus
ToolExecutionStatus-discrete = hlevel

instance abbrev pub request_status_eq : Comparable ApprovalRequestStatus
request_status_eq = decided_eq ApprovalRequestStatus-discrete

instance abbrev pub execution_status_eq : Comparable ToolExecutionStatus
execution_status_eq = decided_eq ToolExecutionStatus-discrete

pub record ApprovalRequestRecord : Type 0 where
  pub approval_id : String
  pub tenant_id : String
  pub change_id : String
  pub plan_id : String
  pub plan_hash : String
  pub plan_version : ℕ
  pub environment : ChangeEnvironment
  pub scope : List String
  pub status : ApprovalRequestStatus
  pub requested_by : String
  pub requested_at : Timestamp
  pub expires_at : Timestamp
  pub decided_by : Option String
  pub decided_by_roles : List UserRole
  pub decided_at : Option Timestamp
  pub comment : Option String
  pub version : ℕ

abbrev pub is_none : {A : Type 0} → Option A → Bool
is_none none = true
is_none (some _) = false

abbrev pub is_empty : {A : Type 0} → List A → Bool
is_empty [] = true
is_empty (_ ∷ _) = false

abbrev precedes : Option Timestamp → Timestamp → Bool
precedes none t = false
precedes (some d) t = ltb d t

unfoldable pub validate_lifecycle : ApprovalRequestRecord → Result String ApprovalRequestRecord
validate_lifecycle r =
    let decided = r.status /= pending in
    if leb r.expires_at r.requested_at
    then err "approval request expiration must be after creation"
    else if decided && (is_none r.decided_by || is_none r.decided_at || is_none r.comment)
    then err "decided approval requests require decision metadata"
    else if not decided
        && (not (is_none r.decided_by) || not (is_none r.decided_at) || not (is_none r.comment))
    then err "pending approval requests cannot contain decision metadata"
    else if not decided && not (is_empty r.decided_by_roles)
    then err "pending approval requests cannot contain decision roles"
    else if precedes r.decided_at r.requested_at
    then err "approval decision cannot precede its request"
    else ok r

abbrev given_approval : ApprovalRequestRecord → String → Timestamp → String → Approval
given_approval r by at comment = record {
  approval_id = r.approval_id;
  tenant_id = r.tenant_id;
  change_id = r.change_id;
  plan_id = r.plan_id;
  plan_hash = r.plan_hash;
  plan_version = r.plan_version;
  environment = r.environment;
  decision = ApprovalDecision.approved;
  scope = r.scope;
  approved_by = by;
  approved_by_roles = r.decided_by_roles;
  approved_at = at;
  expires_at = r.expires_at;
  comment = comment;
}

-- The validator of `Approval` has run.
abbrev constructed : Result String Approval → Result GatewayError (Option Approval)
constructed (ok a) = ok (some a)
constructed (err message) = err (validation_error message)

abbrev approval_of :
    ApprovalRequestRecord
    → Option String
    → Option Timestamp
    → Option String
    → Result GatewayError (Option Approval)
approval_of r (some by) (some at) (some comment) =
    constructed (validate_expiration (given_approval r by at comment))
approval_of r _ _ _ = err (runtime_error "approved request is missing validated decision metadata")

unfoldable pub as_approval : ApprovalRequestRecord → Result GatewayError (Option Approval)
unfolding validate_expiration
as_approval r =
    if r.status /= approved then ok none else approval_of r r.decided_by r.decided_at r.comment

pub record ToolExecutionRecord : Type 0 where
  pub execution_id : String
  pub tenant_id : String
  pub change_id : String
  pub intent_id : String
  pub idempotency_key : String
  pub input_hash : String
  pub approval_id : Option String
  pub decision_id : String
  pub status : ToolExecutionStatus
  pub attempt_count : ℕ
  pub output : Option Fields
  pub output_hash : Option String
  pub error_code : Option String
  pub created_at : Timestamp
  pub updated_at : Timestamp

unfoldable pub validate_status_fields : ToolExecutionRecord → Result String ToolExecutionRecord
validate_status_fields r =
    if r.status == succeeded
      && (is_none r.output || is_none r.output_hash || not (is_none r.error_code))
    then err "successful execution requires output and no error"
    else if r.status == failed && is_none r.error_code
    then err "failed execution requires an error code"
    else if r.status == reserved
        && (not (is_none r.output) || not (is_none r.output_hash) || not (is_none r.error_code))
    then err "reserved execution cannot have a result"
    else ok r

pub record ExecutionReservation : Type 0 where
  pub execution : ToolExecutionRecord
  pub replayed : Bool
