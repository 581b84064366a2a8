-- ===== src/Gateway/Repository.antt =====
-- `InMemoryGovernanceRepository` of services/tool-gateway/src/changeops_tool_gateway/repository.py.
-- Every method runs under the lock, so it is one step of the state.
use enterprise_change_ops.Base.{
  ℕ, zero, suc, ◌+◌, String, concat, string_eq, nat_eq, list_eq, option_eq, pair_eq, triple_eq,
  Bool, true, false, not, ◌&&◌, ◌||◌, ltb, leb, nat_eqb, ◌==◌, ◌/=◌, if◌then◌else◌, Option, none,
  some, List, [], ◌∷◌, contains, take, Result, ok, err, Exec, pure, raise, gets, or_raise, raise_if,
  modify, ◌>>=◌, ◌>>◌,
}
use enterprise_change_ops.Base.Dict.{Dict, lookup, insert}
use enterprise_change_ops.Base.Sort.{sort_descending, stamp_ltb}
use enterprise_change_ops.Contracts.Json.{Fields, str, obj, field, end}
use enterprise_change_ops.Contracts.Enums.{UserRole, role_eq, environment_eq}
use enterprise_change_ops.Contracts.Models.{
  Timestamp, RemediationPlan, ToolIntent, PolicyDecision, Approval, AuditEvent,
}
use enterprise_change_ops.Contracts.Canonical.{
  Codec, calculate_plan_hash, sha256_digest, first_chars,
}
use enterprise_change_ops.Contracts.Equality.{plan_eqb, approval_eqb}
use enterprise_change_ops.Gateway.Models.{
  ApprovalRequestStatus, pending, request_status_eq, reserved, succeeded, failed,
  execution_status_eq, ApprovalRequestRecord, ToolExecutionRecord, ExecutionReservation,
  validate_lifecycle, validate_status_fields, as_approval,
}
use enterprise_change_ops.Gateway.Errors.{
  GatewayError, authorization, approval_required, not_found, conflict, validation_error, key_error,
}

pub record Store : Type 0 where
  pub plans : Dict (String × String × String) RemediationPlan
  pub approvals : Dict (String × String) ApprovalRequestRecord
  pub approval_tenants : Dict String (List String)
  pub executions : Dict (String × String) ToolExecutionRecord
  pub execution_ids : Dict (String × String) String
  pub audit : Dict (String × String) AuditEvent

abbrev pub Call : Type 0 → Type 0
Call A = Exec Store GatewayError A

abbrev validated : {A : Type 0} → Result String A → Call A
validated (ok a) s = (ok a, s)
validated (err message) s = (err (validation_error message), s)

-- Every field but `requested_at`.
unfoldable pub same_approval_request : ApprovalRequestRecord → ApprovalRequestRecord → Bool
same_approval_request a b =
    a.approval_id == b.approval_id
    && (a.tenant_id == b.tenant_id
        && (a.change_id == b.change_id
            && (a.plan_id == b.plan_id
                && (a.plan_hash == b.plan_hash
                    && (nat_eqb a.plan_version b.plan_version
                        && (a.environment == b.environment
                            && (a.scope == b.scope
                                && (a.status == b.status
                                    && (a.requested_by == b.requested_by
                                        && (nat_eqb a.expires_at b.expires_at
                                            && (a.decided_by == b.decided_by
                                                && (a.decided_by_roles == b.decided_by_roles
                                                    && (a.decided_at == b.decided_at
                                                        && (a.comment == b.comment
                                                            && nat_eqb a.version
                                                            b.version))))))))))))))

-- The arguments of `decide_approval` behind the key.
pub record DecisionRequest : Type 0 where
  pub target : ApprovalRequestStatus
  pub expected_version : ℕ
  pub decided_by : String
  pub decided_by_roles : List UserRole
  pub comment : String
  pub decided_at : Timestamp

unfoldable pub same_approval_decision : ApprovalRequestRecord → DecisionRequest → Bool
same_approval_decision current q =
    current.status == q.target
    && (nat_eqb current.version (q.expected_version + 1)
        && (current.decided_by == some q.decided_by
            && (current.decided_by_roles == q.decided_by_roles
                && current.comment == some q.comment)))

unfoldable pub get_plan : String → String → String → Call RemediationPlan
get_plan tenant_id change_id plan_id s =
    or_raise (lookup (tenant_id, change_id, plan_id) s.plans) (not_found "plan") s

unfoldable pub get_approval_request : String → String → Call ApprovalRequestRecord
get_approval_request tenant_id approval_id s =
    or_raise (lookup (tenant_id, approval_id) s.approvals) (not_found "approval") s

abbrev or_empty : Option (List String) → List String
or_empty none = []
or_empty (some ts) = ts

abbrev put_request : RemediationPlan → ApprovalRequestRecord → Store → Store
put_request plan r s = record s {
  plans = insert (plan.tenant_id, plan.change_id, plan.plan_id) plan s.plans;
  approvals = insert (r.tenant_id, r.approval_id) r s.approvals;
  approval_tenants =
      insert r.approval_id
        (let ts = or_empty (lookup r.approval_id s.approval_tenants) in
          if contains ts r.tenant_id then ts else r.tenant_id ∷ ts)
        s.approval_tenants;
}

abbrev same_plan : Option RemediationPlan → RemediationPlan → Bool
same_plan none plan = false
same_plan (some p) plan = plan_eqb p plan

-- `updated` of `decide_approval`.
abbrev pub decision : ApprovalRequestRecord → DecisionRequest → ApprovalRequestRecord
decision current q = record current {
  status = q.target;
  decided_by = some q.decided_by;
  decided_by_roles = q.decided_by_roles;
  decided_at = some q.decided_at;
  comment = some q.comment;
  version = current.version + 1;
}

abbrev decide_pending :
    String → String → ApprovalRequestRecord → DecisionRequest → Call ApprovalRequestRecord
decide_pending tenant_id approval_id current q = do
  raise_if (current.version /= q.expected_version)
      (conflict "VERSION_CONFLICT" "Approval request version is stale.")
  raise_if (leb current.expires_at q.decided_at)
      (conflict "APPROVAL_EXPIRED" "Approval request has expired.")
  raise_if (current.requested_by == q.decided_by)
      (authorization "Separation of duties prevents the plan requester from approving it.")
  updated ← validated (validate_lifecycle (decision current q))
  modify λ s. record s { approvals = insert (tenant_id, approval_id) updated s.approvals }
  pure updated

unfoldable pub decide_approval : String → String → DecisionRequest → Call ApprovalRequestRecord
unfolding get_approval_request validate_lifecycle same_approval_decision
decide_approval tenant_id approval_id q = do
  current ← get_approval_request tenant_id approval_id
  if current.status /= pending
      then if same_approval_decision current q
        then pure current
        else raise (conflict "CONFLICT" "Approval request already has a final decision.")
      else decide_pending tenant_id approval_id current q

abbrev request_ltb : ApprovalRequestRecord → ApprovalRequestRecord → Bool
request_ltb a b = stamp_ltb (a.requested_at, a.approval_id) (b.requested_at, b.approval_id)

abbrev owned : {V : Type 0} → String → Dict (String × String) V → List V
owned tenant_id [] = []
owned tenant_id (((owner, _), v) ∷ d) =
    let rest = owned tenant_id d in if owner == tenant_id then v ∷ rest else rest

unfoldable pub list_approval_requests : String → ℕ → Call (List ApprovalRequestRecord)
list_approval_requests tenant_id limit =
    gets λ s. take limit (sort_descending request_ltb (owned tenant_id s.approvals))

unfoldable pub record_audit : AuditEvent → Call (Unit {0})
record_audit event s = elim (lookup (event.tenant_id, event.audit_event_id) s.audit) [
  | some _ ↦ (err (conflict "CONFLICT" "Audit event identifier already exists."), s)
  | none ↦
      (ok tt, record s { audit = insert (event.tenant_id, event.audit_event_id) event s.audit })
]

abbrev event_ltb : AuditEvent → AuditEvent → Bool
event_ltb a b = stamp_ltb (a.created_at, a.audit_event_id) (b.created_at, b.audit_event_id)

unfoldable pub list_audit : String → ℕ → Call (List AuditEvent)
list_audit tenant_id limit =
    gets λ s. take limit (sort_descending event_ltb (owned tenant_id s.audit))

-- Two minutes, in microseconds.
abbrev pub two_minutes : ℕ
two_minutes = 120_000_000

abbrev drop_chars : ℕ → String → String
drop_chars zero s = s
drop_chars (suc n) String.[] = ""
drop_chars (suc n) (String.◌∷◌ c s) = drop_chars n s

abbrev approval_id_of : Option Approval → Option String
approval_id_of none = none
approval_id_of (some a) = some a.approval_id

-- The arguments of `reserve_execution`.
pub record Reserve : Type 0 where
  pub intent : ToolIntent
  pub decision : PolicyDecision
  pub approval : Option Approval
  pub input_hash : String
  pub now : Timestamp

-- The stored approval is the one that is given, it is in its time, and it covers the step.
abbrev matches_stored : Reserve → Approval → Result GatewayError (Option Approval) → Call (Unit {0})
matches_stored q a (err e) s = (err e, s)
matches_stored q a (ok none) s = (err approval_required, s)
matches_stored q a (ok (some stored)) s =
    (raise_if (not (approval_eqb stored a) || leb stored.expires_at q.now) approval_required
        >> raise_if
            (not (contains stored.scope q.intent.step_id) || stored.plan_hash /= q.intent.plan_hash)
            approval_required)
      s

abbrev check_given : Reserve → Option Approval → Call (Unit {0})
check_given q none = raise approval_required
check_given q (some a) = do
  current ← get_approval_request q.intent.tenant_id a.approval_id
  matches_stored q a (as_approval current)

unfoldable pub check_approval : Reserve → Call (Unit {0})
unfolding get_approval_request as_approval
check_approval q = if q.decision.approval_required then check_given q q.approval else pure tt

-- An execution that is taken up again.
abbrev pub reserved_again : Reserve → ToolExecutionRecord → ToolExecutionRecord
reserved_again q existing = record existing {
  intent_id = q.intent.intent_id;
  decision_id = q.decision.decision_id;
  approval_id = approval_id_of q.approval;
  status = reserved;
  attempt_count = existing.attempt_count + 1;
  output = none;
  output_hash = none;
  error_code = none;
  updated_at = q.now;
}

abbrev pub in_progress : ToolExecutionRecord → Timestamp → Bool
in_progress existing now =
    existing.status == reserved && ltb now (existing.updated_at + two_minutes)

abbrev store_again : Reserve → String → ToolExecutionRecord → Call ExecutionReservation
store_again q existing_id existing = do
  again ← validated (validate_status_fields (reserved_again q existing))
  modify λ s. record s { executions = insert (q.intent.tenant_id, existing_id) again s.executions }
  pure (record { execution = again; replayed = false })

unfoldable pub reserve_existing : Reserve → String → ToolExecutionRecord → Call ExecutionReservation
unfolding validate_status_fields
reserve_existing q existing_id existing = do
  raise_if (existing.input_hash /= q.input_hash) (
      conflict "IDEMPOTENCY_CONFLICT"
        "Idempotency key was already used for a different tool action.")
  if existing.status == succeeded
      then pure (record { execution = existing; replayed = true })
      else if in_progress existing q.now
      then raise
          (conflict "EXECUTION_IN_PROGRESS" "The idempotent tool action is already in progress.")
      else store_again q existing_id existing

module _ (codec : Codec) where
  unfoldable pub create_approval_request :
      ApprovalRequestRecord → RemediationPlan → Call ApprovalRequestRecord
  create_approval_request r plan = do
    raise_if (calculate_plan_hash codec plan /= r.plan_hash)
        (conflict "CONFLICT" "Approval request plan hash is not canonical.")
    existing_plan ← gets (λ s. lookup (plan.tenant_id, plan.change_id, plan.plan_id) s.plans)
    raise_if
        (elim existing_plan [ none ↦ false | some p ↦ calculate_plan_hash codec p /= r.plan_hash ])
        (conflict "CONFLICT" "A different plan already uses this plan identifier.")
    existing ← gets (λ s. lookup (r.tenant_id, r.approval_id) s.approvals)
    elim existing [
      | some e ↦
          if same_plan existing_plan plan && same_approval_request e r
          then pure e
          else raise (conflict "CONFLICT" "Approval request identifier already exists.")
      | none ↦ modify (put_request plan r) >> pure r
    ]

  abbrev execution_id_of : ToolIntent → String
  execution_id_of intent = concat "execution_" (
      first_chars 24 (
        drop_chars 7 (
          sha256_digest codec (
            obj (
              field "tenant_id" (str intent.tenant_id)
                (field "key" (str intent.idempotency_key) end))))))

  abbrev pub new_execution : Reserve → ToolExecutionRecord
  new_execution q = record {
    execution_id = execution_id_of q.intent;
    tenant_id = q.intent.tenant_id;
    change_id = q.intent.change_id;
    intent_id = q.intent.intent_id;
    idempotency_key = q.intent.idempotency_key;
    input_hash = q.input_hash;
    approval_id = approval_id_of q.approval;
    decision_id = q.decision.decision_id;
    status = reserved;
    attempt_count = 1;
    output = none;
    output_hash = none;
    error_code = none;
    created_at = q.now;
    updated_at = q.now;
  }

  abbrev pub reserve_new : Reserve → Call ExecutionReservation
  reserve_new q = do
    created ← validated (validate_status_fields (new_execution q))
    modify λ s. record s {
      executions = insert (q.intent.tenant_id, created.execution_id) created s.executions;
      execution_ids =
          insert (q.intent.tenant_id, q.intent.idempotency_key) created.execution_id
            s.execution_ids;
    }
    pure (record { execution = created; replayed = false })

  abbrev pub reserve_known : Reserve → Option String → Call ExecutionReservation
  reserve_known q none = reserve_new q
  reserve_known q (some existing_id) = do
    existing ← λ s. or_raise (lookup (q.intent.tenant_id, existing_id) s.executions) key_error s
    reserve_existing q existing_id existing

  unfoldable pub reserve_execution : Reserve → Call ExecutionReservation
  reserve_execution q = do
    check_approval q
    known ← gets (λ s. lookup (q.intent.tenant_id, q.intent.idempotency_key) s.execution_ids)
    reserve_known q known

-- The reserved execution of the key and the change.
abbrev reserved_execution : String → String → String → Call ToolExecutionRecord
reserved_execution tenant_id change_id execution_id = do
  current ←
      λ s. or_raise (lookup (tenant_id, execution_id) s.executions) (not_found "tool execution") s
  raise_if (current.change_id /= change_id) (not_found "tool execution")
  raise_if (current.status /= reserved) (conflict "CONFLICT" "Tool execution is not reserved.")
  pure current

abbrev store_result : String → String → ToolExecutionRecord → Call ToolExecutionRecord
store_result tenant_id execution_id result = do
  updated ← validated (validate_status_fields result)
  modify λ s. record s { executions = insert (tenant_id, execution_id) updated s.executions }
  pure updated

abbrev pub completed : ToolExecutionRecord → Fields → String → Timestamp → ToolExecutionRecord
completed current output output_hash completed_at = record current {
  status = succeeded;
  output = some output;
  output_hash = some output_hash;
  updated_at = completed_at;
}

unfoldable pub complete_execution :
    String → String → String → Fields → String → Timestamp → Call ToolExecutionRecord
unfolding validate_status_fields
complete_execution tenant_id change_id execution_id output output_hash completed_at = do
  current ← reserved_execution tenant_id change_id execution_id
  store_result tenant_id execution_id (completed current output output_hash completed_at)

unfoldable pub fail_execution :
    String → String → String → String → Timestamp → Call ToolExecutionRecord
unfolding validate_status_fields
fail_execution tenant_id change_id execution_id error_code failed_at = do
  current ← reserved_execution tenant_id change_id execution_id
  store_result tenant_id execution_id
      (record current { status = failed; error_code = some error_code; updated_at = failed_at })
