-- ===== src/Admission/Models.antt =====
-- services/control-api/src/control_api/admission/models.py and errors.py.
use enterprise_change_ops.Base.{
  ℕ, String, Bool, true, false, List, [], Option, ltb, length, Result, ok, err, if◌then◌else◌,
}
use enterprise_change_ops.Contracts.Models.{Timestamp}

pub data Role : Type 0 where
  organization_admin requester approver auditor : Role

pub record Identity : Type 0 where
  pub subject : String
  pub email : String
  pub mfa : Bool

pub record User : Type 0 where
  pub subject : String
  pub active : Bool
  pub platform_admin : Bool
  pub owner : Bool
  pub organization_ids : List String
  pub version : ℕ

pub record Organization : Type 0 where
  pub organization_id : String
  pub name : String
  pub active : Bool
  pub version : ℕ

pub record Membership : Type 0 where
  pub subject : String
  pub organization_id : String
  pub role : Role
  pub active : Bool
  pub version : ℕ

pub record Invitation : Type 0 where
  pub invitation_id : String
  pub email : String
  pub organization_id : String
  pub role : Role
  pub invited_by : String
  pub expires_at : Timestamp
  pub redeemed_by : Option String
  pub revoked : Bool
  pub version : ℕ

pub record InvitationCreate : Type 0 where
  pub email : String
  pub organization_id : String
  pub role : Role

pub record StatusUpdate : Type 0 where
  pub active : Bool
  pub expected_version : ℕ

pub record MembershipUpdate : Type 0 where
  pub active : Bool
  pub expected_version : ℕ
  pub role : Role

pub record Workspace : Type 0 where
  pub organization : Organization
  pub membership : Membership

pub record AccessView : Type 0 where
  pub subject : String
  pub email : String
  pub platform_admin : Bool
  pub owner : Bool
  pub status : String
  pub workspaces : List Workspace

pub record AdmissionAudit : Type 0 where
  pub event_id : String
  pub actor : String
  pub action : String
  pub resource_id : String
  pub occurred_at : Timestamp

-- `User(subject=subject)` with the defaults of the other fields.
abbrev pub new_user : String → User
new_user subject = record {
  subject = subject;
  active = true;
  platform_admin = false;
  owner = false;
  organization_ids = [];
  version = 1;
}

-- The code, the detail and the status of a `ControlApiError`; or the error of pydantic.
pub data AdmissionError : Type 0 where
  control_api_error : String → String → ℕ → AdmissionError
  validation_error : AdmissionError

abbrev pub denied : AdmissionError
denied = control_api_error "access_denied" "Access has not been granted for this operation." 403

abbrev pub version_conflict : AdmissionError
version_conflict = control_api_error "version_conflict" "Refresh this record before updating." 409

-- The bound on `organization_ids`, which is the one that a service call can break.
abbrev pub validate_user : User → Result AdmissionError User
validate_user u = if ltb 50 (length u.organization_ids) then err validation_error else ok u
