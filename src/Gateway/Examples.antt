-- ===== src/Gateway/Examples.antt =====
-- The theorems on the gateway's repository at concrete approval requests and executions.
use enterprise_change_ops.Base.{
  ℕ, string_eq, pair_eq, ◌≡◌, ◌⊎◌, refl, true, false, [], ◌∷◌, none, ok, arith, same_refl,
}
use enterprise_change_ops.Base.Dict.{lookup, insert}
use enterprise_change_ops.Contracts.Json.{end}
use enterprise_change_ops.Contracts.Enums.{sandbox, approver, high, allow}
use enterprise_change_ops.Contracts.Canonical.{sha256_digest, canonical_json}
use enterprise_change_ops.Contracts.Samples.{sample_codec}
use enterprise_change_ops.Gateway.Models.{
  ApprovalRequestStatus-discrete, ToolExecutionStatus-discrete, pending, approved, rejected,
  ApprovalRequestRecord, validate_lifecycle, validate_status_fields, ToolExecutionRecord,
}
use enterprise_change_ops.Gateway.Repository.{
  Store, DecisionRequest, Reserve, decision, decide_approval, get_approval_request, new_execution,
  completed, reserve_execution, complete_execution, check_approval,
}
use enterprise_change_ops.Gateway.Approvals.{
  Decides, Answers, decided_store, decide_approval-Decides, decide_approval-final,
}
use enterprise_change_ops.Gateway.Executions.{
  execution_at, Reserves, IsRefused, Holds, reserve_execution-Reserves, reserve_execution-exclusive,
  complete_execution-replayed,
}

abbrev requested : ApprovalRequestRecord
requested = record {
  approval_id = "approval-1";
  tenant_id = "acme";
  change_id = "chg-1";
  plan_id = "plan-1";
  plan_hash = "sha256:plan-1";
  plan_version = 1;
  environment = sandbox;
  scope = "s1" ∷ "s2" ∷ [];
  status = pending;
  requested_by = "coordinator";
  requested_at = 10;
  expires_at = 90;
  decided_by = none;
  decided_by_roles = [];
  decided_at = none;
  comment = none;
  version = 1;
}

abbrev approving : DecisionRequest
approving = record {
  target = approved;
  expected_version = 1;
  decided_by = "ada";
  decided_by_roles = approver ∷ [];
  comment = "go";
  decided_at = 30;
}

abbrev rejecting : DecisionRequest
rejecting = record approving { target = rejected; decided_by = "bob" }

abbrev asked : Store
asked = record {
  plans = [];
  approvals = (("acme", "approval-1"), requested) ∷ [];
  approval_tenants = ("approval-1", "acme" ∷ []) ∷ [];
  executions = [];
  execution_ids = [];
  audit = [];
}

abbrev answered : Store
answered = decided_store "acme" "approval-1" requested approving asked

decide_approval-Decides_example :
    Decides "acme" "approval-1" approving asked requested
      (decide_approval "acme" "approval-1" approving asked)
unfolding lookup
decide_approval-Decides_example =
    decide_approval-Decides "acme" "approval-1" approving asked requested refl refl

decided :
    decide_approval "acme" "approval-1" approving asked
    ≡ (ok (decision requested approving), answered)
unfolding decide_approval get_approval_request validate_lifecycle lookup insert
    ApprovalRequestStatus-discrete
decided = refl

decide_approval-final_example :
    Answers approving rejecting answered
      (decision requested approving)
      (decide_approval "acme" "approval-1" rejecting answered)
unfolding lookup
decide_approval-final_example =
    decide_approval-final "acme" "approval-1" approving rejecting asked answered requested
      (decision requested approving) refl refl decided

abbrev reserving : ℕ → Reserve
reserving now = record {
  intent = record {
    schema_version = "1.0";
    intent_id = "intent-1";
    tenant_id = "acme";
    change_id = "chg-1";
    workflow_execution_id = "wf-1";
    plan_id = "plan-1";
    plan_hash = "sha256:plan-1";
    step_id = "s1";
    agent_identity = "crm";
    tool_name = "crm.read_field_mapping";
    action = "read";
    resource = "crm://tenant/acme/configuration/customer";
    arguments = end;
    reason = "plan step";
    evidence_refs = [];
    idempotency_key = "key-1";
    requested_at = 40;
  };
  decision = record {
    decision_id = "decision-1";
    tenant_id = "acme";
    intent_id = "intent-1";
    effect = allow;
    computed_risk = high;
    approval_required = false;
    approval_valid = false;
    matched_policy_ids = [];
    reasons = "in scope" ∷ [];
    evaluated_at = 41;
  };
  approval = none;
  input_hash = "sha256:input";
  now = now;
}

abbrev created : ToolExecutionRecord
created = new_execution sample_codec (reserving 50)

abbrev held : Store
held = record asked {
  executions = (("acme", created.execution_id), created) ∷ [];
  execution_ids = (("acme", "key-1"), created.execution_id) ∷ [];
}

reserve_execution-Reserves_example :
    Reserves (reserving 50) asked (reserve_execution sample_codec (reserving 50) asked)
reserve_execution-Reserves_example = reserve_execution-Reserves sample_codec (reserving 50) asked

granted :
    reserve_execution sample_codec (reserving 50) asked
    ≡ (ok (record { execution = created; replayed = false }), held)
unfolding reserve_execution check_approval validate_status_fields lookup insert
    ToolExecutionStatus-discrete
granted = refl

-- The state after another tenant's execution was reserved.
abbrev busy : Store
busy = record held {
  executions =
      (("globex", "execution-2"), record created { tenant_id = "globex" }) ∷ held.executions;
  execution_ids = (("globex", "key-1"), "execution-2") ∷ held.execution_ids;
}

still_held : execution_at "acme" "key-1" busy ≡ execution_at "acme" "key-1" held
unfolding lookup
still_held = refl

reserve_execution-exclusive_example :
    IsRefused busy (reserve_execution sample_codec (reserving 60) busy)
reserve_execution-exclusive_example =
    reserve_execution-exclusive sample_codec (reserving 50) (reserving 60) asked held busy created
      granted still_held refl refl (omega arith)

abbrev finished : ToolExecutionRecord
finished = completed created end "sha256:out" 55

abbrev ended : Store
ended = record held { executions = (("acme", created.execution_id), finished) ∷ [] }

holds : Holds "acme" "key-1" created.execution_id held created
unfolding lookup
holds = record { known = refl; stored = ground (arith, same_refl created.execution_id) }

completes :
    complete_execution "acme" "chg-1" created.execution_id end "sha256:out" 55 held
    ≡ (ok finished, ended)
unfolding complete_execution validate_status_fields insert lookup sha256_digest canonical_json
    ToolExecutionStatus-discrete
completes = refl

complete_execution-replayed_example :
    (reserve_execution sample_codec (reserving 60) ended
      ≡ (ok (record { execution = finished; replayed = true }), ended))
    ⊎ IsRefused ended (reserve_execution sample_codec (reserving 60) ended)
complete_execution-replayed_example =
    complete_execution-replayed sample_codec "acme" "chg-1" "key-1" created.execution_id
      "sha256:out" end 55 held ended created finished (reserving 60) holds completes refl refl refl
