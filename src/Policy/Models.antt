-- ===== src/Policy/Models.antt =====
-- packages/policy-engine/src/changeops_policy_engine/models.py. A timeout is in microseconds.
use enterprise_change_ops.Base.{
  ℕ, String, string_eq, Bool, true, false, not, ◌&&◌, ◌||◌, leb, nat_eqb, ◌/=◌, if◌then◌else◌, List,
  [], ◌∷◌, length, contains, Result, ok, err, Comparable, decided_eq,
}
use enterprise_change_ops.Base.Sets.{to_set}
use enterprise_change_ops.Contracts.Enums.{
  ChangeEnvironment, environment_eq, sandbox, RiskLevel, UserRole, role_eq,
}
use enterprise_change_ops.Contracts.Models.{Timestamp}

pub data IdentityKind : Type 0 where
  agent service user : IdentityKind

unfoldable pub IdentityKind-discrete : Discrete IdentityKind
IdentityKind-discrete = hlevel

instance abbrev pub kind_eq : Comparable IdentityKind
kind_eq = decided_eq IdentityKind-discrete

pub record VerifiedIdentity : Type 0 where
  pub subject : String
  pub tenant_id : String
  pub kind : IdentityKind
  pub roles : List UserRole
  pub audience : String
  pub issued_at : Timestamp
  pub expires_at : Timestamp

pub record ToolRegistration : Type 0 where
  pub tool_name : String
  pub owning_agent_id : String
  pub action : String
  pub resource_pattern : String
  pub risk_level : RiskLevel
  pub mutating : Bool
  pub allowed_environments : List ChangeEnvironment
  pub policy_ids : List String
  pub timeout_seconds : ℕ

abbrev non_empty : {A : Type 0} → List A → Bool
non_empty [] = false
non_empty (_ ∷ _) = true

unfoldable pub validate_claims : VerifiedIdentity → Result String VerifiedIdentity
validate_claims i =
    if leb i.expires_at i.issued_at
    then err "identity expiration must be after issuance"
    else if not (nat_eqb (length i.roles) (length (to_set i.roles)))
    then err "identity roles must be unique"
    else if (i.kind /= user) && non_empty i.roles
    then err "only user identities may carry user roles"
    else ok i

-- `has_star` is `"*" in tool_name`.
unfoldable pub validate_registration :
    (has_star : String → Bool) → ToolRegistration → Result String ToolRegistration
validate_registration has_star r =
    if has_star r.tool_name || contains ("execute_sql" ∷ "run_shell" ∷ "fetch_url" ∷ []) r.tool_name
    then err "tool names must be exact and bounded"
    else if r.mutating && not (contains r.allowed_environments sandbox)
    then err "mutating demo tools must be restricted to the sandbox environment"
    else if not (nat_eqb (length r.policy_ids) (length (to_set r.policy_ids)))
    then err "policy_ids values must be unique"
    else ok r
