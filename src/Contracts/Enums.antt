-- ===== src/Contracts/Enums.antt =====
-- The enumerations of packages/contracts-python/src/changeops_contracts/models.py.
use enterprise_change_ops.Base.{Comparable, decided_eq}

pub data RiskLevel : Type 0 where
  unknown low medium high critical : RiskLevel

pub data ChangeEnvironment : Type 0 where
  local test sandbox : ChangeEnvironment

pub data WorkflowState : Type 0 where
  received screening blocked analyzing plan_ready awaiting_approval approved rejected executing
        verifying rolling_back completed failed partial cancelled needs_attention :
      WorkflowState

pub data PolicyEffect : Type 0 where
  allow deny require_approval block_security rate_limit needs_review : PolicyEffect

pub data ApprovalDecision : Type 0 where
  approved rejected : ApprovalDecision

pub data UserRole : Type 0 where
  change_requester approver auditor platform_admin : UserRole

pub data ActorType : Type 0 where
  user agent service system : ActorType

pub data AuditStatus : Type 0 where
  success rejected failure : AuditStatus

unfoldable pub RiskLevel-discrete : Discrete RiskLevel
RiskLevel-discrete = hlevel

unfoldable pub ChangeEnvironment-discrete : Discrete ChangeEnvironment
ChangeEnvironment-discrete = hlevel

unfoldable pub WorkflowState-discrete : Discrete WorkflowState
WorkflowState-discrete = hlevel

unfoldable pub PolicyEffect-discrete : Discrete PolicyEffect
PolicyEffect-discrete = hlevel

unfoldable pub ApprovalDecision-discrete : Discrete ApprovalDecision
ApprovalDecision-discrete = hlevel

unfoldable pub UserRole-discrete : Discrete UserRole
UserRole-discrete = hlevel

instance abbrev pub risk_eq : Comparable RiskLevel
risk_eq = decided_eq RiskLevel-discrete

instance abbrev pub environment_eq : Comparable ChangeEnvironment
environment_eq = decided_eq ChangeEnvironment-discrete

instance abbrev pub state_eq : Comparable WorkflowState
state_eq = decided_eq WorkflowState-discrete

instance abbrev pub effect_eq : Comparable PolicyEffect
effect_eq = decided_eq PolicyEffect-discrete

instance abbrev pub decision_eq : Comparable ApprovalDecision
decision_eq = decided_eq ApprovalDecision-discrete

instance abbrev pub role_eq : Comparable UserRole
role_eq = decided_eq UserRole-discrete
