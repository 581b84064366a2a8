-- ===== src/Coordinator/Engine/Events.antt =====
-- `process_event` and `_ensure_change` of
-- services/workflow-coordinator/src/changeops_workflow_coordinator/engine.py.
use enterprise_change_ops.Base.{
  ℕ, ◌+◌, String, string_eq, option_eq, concat, Bool, true, false, not, ◌||◌, ◌==◌, ◌/=◌,
  if◌then◌else◌, none, some, List, [], ◌∷◌, Result, ok, err, pure, raise, or_raise, raise_if, ◌>>=◌,
  ◌>>◌,
}
use enterprise_change_ops.Contracts.Json.{str, obj, field, end}
use enterprise_change_ops.Contracts.Enums.{
  RiskLevel, WorkflowState, state_eq, sandbox, AuditStatus, success,
}
use enterprise_change_ops.Contracts.Models.{Timestamp, ChangeEvent, ChangeRecord, RemediationStep}
use enterprise_change_ops.Contracts.ChangeRecords.{validate_state_and_timestamps}
use enterprise_change_ops.Contracts.Canonical.{
  Codec, sha256_digest, calculate_plan_hash, derive_change_id, derive_workflow_id,
}
use enterprise_change_ops.Persistence.Errors.{change_not_found, change_already_exists}
use enterprise_change_ops.Persistence.Memory
use enterprise_change_ops.StateMachine.Service.{
  workflow_execution_id, plan_version, plan_hash, risk_level,
}
use enterprise_change_ops.Coordinator.Models.{
  WorkflowRuntimeStatus, WorkflowTaskStatus, WorkflowTaskRecord, WorkflowExecutionRecord, SystemId,
  crm, analytics, support, is_none,
}
use enterprise_change_ops.Coordinator.Repository
use enterprise_change_ops.Coordinator.Repository.{workflow_not_found}
use enterprise_change_ops.Coordinator.Engine.World.{
  EngineError, dependency, transient, permanent, workflow_error, change_error, FleetAnalysisResult,
  Outside, Call, client, reading, settled, unsettled, on_workflows, on_changes,
}
use enterprise_change_ops.Coordinator.Engine.Records.{
  Note, audit, record_audit, require_plan, update_record, validated, model_validate,
  set_runtime_status, terminal, transition_to, dead_letter,
}

abbrev thirty_minutes : ℕ
thirty_minutes = 1_800_000_000

-- The statuses from which a delivery starts or resumes the analysis.
abbrev pub is_resumable : WorkflowRuntimeStatus → Bool
is_resumable WorkflowRuntimeStatus.received = true
is_resumable WorkflowRuntimeStatus.analyzing = true
is_resumable _ = false

-- `SandboxClient.system_for_step`
abbrev system_for_step : RemediationStep → Result EngineError SystemId
system_for_step step =
    if step.tool_name == "crm.update_field_mapping"
    then ok crm
    else if step.tool_name == "analytics.update_field_mapping"
    then ok analytics
    else if step.tool_name == "support.update_lookup_field"
    then ok support
    else err (dependency "UNSUPPORTED_PLAN_TOOL" false)

abbrev new_task : String → SystemId → Timestamp → WorkflowTaskRecord
new_task step_id system_id now = record {
  step_id = step_id;
  system_id = system_id;
  status = WorkflowTaskStatus.pending;
  attempt_count = 0;
  snapshot_id = none;
  snapshot_hash = none;
  execution_id = none;
  output_hash = none;
  error_code = none;
  updated_at = now;
}

abbrev new_tasks :
    {World : Type 0} → List RemediationStep → Timestamp → Call World (List WorkflowTaskRecord)
new_tasks [] now = pure []
new_tasks (step ∷ steps) now = do
  system_id ← unsettled (system_for_step step)
  rest ← new_tasks steps now
  pure (new_task step.step_id system_id now ∷ rest)

abbrev new_workflow : ChangeEvent → String → String → Timestamp → WorkflowExecutionRecord
new_workflow event change_id workflow_id now = record {
  workflow_execution_id = workflow_id;
  tenant_id = event.tenant_id;
  change_id = change_id;
  event_id = event.event_id;
  trace_id = event.trace_id;
  event = event;
  status = WorkflowRuntimeStatus.received;
  delivery_attempts = 1;
  plan = none;
  plan_hash = none;
  approval_id = none;
  approval_expires_at = none;
  tasks = [];
  last_error_code = none;
  started_at = now;
  updated_at = now;
  completed_at = none;
  version = 1;
}

abbrev new_change : WorkflowExecutionRecord → Timestamp → ChangeRecord
new_change r now = record {
  change_id = r.change_id;
  tenant_id = r.tenant_id;
  event_id = r.event_id;
  change_type = r.event.event_type;
  title = r.event.change.summary;
  description = r.event.change.summary;
  source = r.event.source;
  environment = sandbox;
  status = WorkflowState.received;
  risk_level = RiskLevel.unknown;
  current_phase = WorkflowState.received;
  workflow_execution_id = none;
  plan_version = 0;
  plan_hash = none;
  created_at = now;
  updated_at = now;
  created_by = "event-gateway";
  version = 1;
}

module _ (codec : Codec) (outside : Outside) where
  open outside use {World, clock, analyze, create_approval}

  abbrev received_note : WorkflowExecutionRecord → ChangeRecord → Note
  received_note r change = record {
    event_type = "CHANGE_RECEIVED";
    action = "create_change";
    input_document = obj (field "event_id" (str r.event.event_id) end);
    output_document = codec.dump_change change;
    status = success;
    summary = "Authenticated change event accepted for durable processing.";
  }

  abbrev blocked_note : ChangeEvent → String → Note
  blocked_note event code = record {
    event_type = "SECURITY_PROMPT_INJECTION_BLOCKED";
    action = "screen_change_content";
    input_document =
        obj (field "event_hash" (str (sha256_digest codec (codec.dump_event event))) end);
    output_document = obj (field "decision" (str "blocked") (field "code" (str code) end));
    status = AuditStatus.rejected;
    summary = "Security screening blocked untrusted change content before agent or tool execution.";
  }

  -- `except ChangeAlreadyExistsError`
  abbrev after_add :
      WorkflowExecutionRecord
      → ChangeRecord
      → Result EngineError (Unit {0})
      → Call World ChangeRecord
  after_add r change (ok _) = pure change
  after_add r change (err (change_error (change_already_exists _ _))) = do
    existing ← on_changes (Memory.get r.tenant_id r.change_id)
    raise_if (existing.event_id /= r.event_id) (permanent "CHANGE_ID_COLLISION")
    pure existing
  after_add r change (err e) = raise e

  -- `except ChangeNotFoundError`
  abbrev after_get :
      WorkflowExecutionRecord → Result EngineError ChangeRecord → Call World ChangeRecord
  after_get r (ok change) = pure change
  after_get r (err (change_error (change_not_found _ _))) = do
    now ← reading clock
    change ← validated (validate_state_and_timestamps (new_change r now))
    event ← audit codec outside r (received_note r change)
    added ← settled (on_changes (Memory.add_with_audit change event))
    after_add r change added
  after_get r (err e) = raise e

  unfoldable pub ensure_change : WorkflowExecutionRecord → Call World ChangeRecord
  unfolding validate_state_and_timestamps audit
  ensure_change r = do
    found ← settled (on_changes (Memory.get r.tenant_id r.change_id))
    after_get r found

  -- A part of `process_event` returns the workflow's record early, or goes on with it.
  pub data Flow : Type 0 where
    returned : WorkflowExecutionRecord → Flow
    goes_on : WorkflowExecutionRecord → Flow

  abbrev create : ChangeEvent → String → String → Timestamp → Call World Flow
  create event change_id workflow_id now = do
    fresh ← validated (model_validate codec (new_workflow event change_id workflow_id now))
    r ← on_workflows (Repository.create_or_get fresh)
    pure (goes_on r)

  -- The `try` of `process_event`.
  abbrev resume : ChangeEvent → String → String → Call World Flow
  resume event change_id workflow_id = do
    r ← on_workflows (Repository.get event.tenant_id change_id workflow_id)
    if not (is_resumable r.status) then pure (returned r) else do
      r' ← update_record codec outside r (record r { delivery_attempts = r.delivery_attempts + 1 })
      pure (goes_on r')

  -- `except WorkflowNotFoundError`
  abbrev after_resume :
      ChangeEvent → String → String → Timestamp → Result EngineError Flow → Call World Flow
  after_resume event change_id workflow_id now (err (workflow_error workflow_not_found)) =
      create event change_id workflow_id now
  after_resume event change_id workflow_id now (err e) = raise e
  after_resume event change_id workflow_id now (ok flow) = pure flow

  unfoldable pub start_record : ChangeEvent → Call World Flow
  unfolding model_validate update_record
  start_record event = do
    now ← reading clock
    found ← settled (resume event (derive_change_id codec event) (derive_workflow_id codec event))
    after_resume event (derive_change_id codec event) (derive_workflow_id codec event) now found

  -- `if change.status is from: change = await self._transition(record, to, ...)`
  abbrev advance :
      WorkflowExecutionRecord
      → ChangeRecord
      → WorkflowState
      → Call World ChangeRecord
      → Call World ChangeRecord
  advance r change source moved = if change.status == source then moved else pure change

  abbrev analysis_failed : ChangeEvent → WorkflowExecutionRecord → EngineError → Call World Flow
  analysis_failed event r (dependency code is_transient) =
      if code == "PROMPT_INJECTION_BLOCKED"
      then (do
        record_audit codec outside r (blocked_note event code)
        transition_to codec outside r WorkflowState.blocked []
        ended ← terminal codec outside r WorkflowRuntimeStatus.failed (some code)
        pure (returned ended))
      else if is_transient
      then raise (transient code)
      else (do ended ← dead_letter codec outside r code; pure (returned ended))
  analysis_failed event r e = raise e

  abbrev is_foreign_plan : WorkflowExecutionRecord → FleetAnalysisResult → Bool
  is_foreign_plan r analysis =
      (analysis.draft_plan.tenant_id /= r.tenant_id)
      || ((analysis.draft_plan.change_id /= r.change_id)
          || (analysis.draft_plan_hash /= calculate_plan_hash codec analysis.draft_plan))

  abbrev store_plan : WorkflowExecutionRecord → FleetAnalysisResult → Call World Flow
  store_plan r analysis =
      if is_foreign_plan r analysis
      then (do ended ← dead_letter codec outside r "INVALID_FLEET_PLAN"; pure (returned ended))
      else (do
        task_timestamp ← reading clock
        tasks ← new_tasks analysis.draft_plan.steps task_timestamp
        now ← reading clock
        r' ← update_record codec outside r (record r {
          plan = some analysis.draft_plan;
          plan_hash = some (calculate_plan_hash codec analysis.draft_plan);
          tasks = tasks;
          approval_id = some (concat "approval_" r.workflow_execution_id);
          approval_expires_at = some (now + thirty_minutes);
        })
        pure (goes_on r'))

  abbrev after_analysis :
      ChangeEvent
      → WorkflowExecutionRecord
      → Result EngineError FleetAnalysisResult
      → Call World Flow
  after_analysis event r (err e) = analysis_failed event r e
  after_analysis event r (ok analysis) = do
    change ← on_changes (Memory.get r.tenant_id r.change_id)
    advance r change WorkflowState.screening
        (transition_to codec outside r WorkflowState.analyzing [])
    store_plan r analysis

  -- `if record.plan is None: ...`
  unfoldable pub ensure_plan : ChangeEvent → WorkflowExecutionRecord → Call World Flow
  unfolding record_audit transition_to terminal dead_letter update_record
  ensure_plan event r =
      if is_none r.plan
      then (do
        analysis ← settled (client (analyze r.change_id event))
        after_analysis event r analysis)
      else pure (goes_on r)

  abbrev after_request :
      WorkflowExecutionRecord → Result EngineError (Unit {0}) → Call World WorkflowExecutionRecord
  after_request r (ok _) =
      set_runtime_status codec outside r WorkflowRuntimeStatus.waiting_approval none
  after_request r (err (dependency code is_transient)) =
      if is_transient then raise (transient code) else dead_letter codec outside r code
  after_request r (err e) = raise e

  -- The end of `process_event`, from `plan = self._require_plan(record)`.
  unfoldable pub request_approval : WorkflowExecutionRecord → Call World WorkflowExecutionRecord
  unfolding require_plan transition_to set_runtime_status dead_letter
  request_approval r = do
    plan ← require_plan codec outside r
    c₀ ← on_changes (Memory.get r.tenant_id r.change_id)
    c₁ ←
        advance r c₀ WorkflowState.screening
          (transition_to codec outside r WorkflowState.analyzing [])
    c₂ ← advance r c₁ WorkflowState.analyzing (
        transition_to codec outside r WorkflowState.plan_ready (
          plan_version plan.version
          ∷ plan_hash (calculate_plan_hash codec plan)
          ∷ risk_level plan.risk_level
          ∷ []))
    c₃ ←
        advance r c₂ WorkflowState.plan_ready
          (transition_to codec outside r WorkflowState.awaiting_approval [])
    raise_if (c₃.status /= WorkflowState.awaiting_approval)
        (permanent "CHANGE_NOT_AWAITING_APPROVAL")
    approval_id ← or_raise r.approval_id (permanent "APPROVAL_METADATA_MISSING")
    expires_at ← or_raise r.approval_expires_at (permanent "APPROVAL_METADATA_MISSING")
    requested ← settled (client (create_approval approval_id plan expires_at))
    after_request r requested

  abbrev with_plan : Flow → Call World WorkflowExecutionRecord
  with_plan (returned r) = pure r
  with_plan (goes_on r) = request_approval r

  abbrev process_started : ChangeEvent → Flow → Call World WorkflowExecutionRecord
  process_started event (returned r) = pure r
  process_started event (goes_on r) =
      if event.event_type /= "api.contract.changed"
      then dead_letter codec outside r "UNSUPPORTED_EVENT_TYPE"
      else (do
        ensure_change r
        r' ← set_runtime_status codec outside r WorkflowRuntimeStatus.analyzing none
        change ← on_changes (Memory.get r'.tenant_id r'.change_id)
        advance r' change WorkflowState.received (
            transition_to codec outside r' WorkflowState.screening
              (workflow_execution_id r'.workflow_execution_id ∷ []))
        planned ← ensure_plan event r'
        with_plan planned)

  unfoldable pub process_event : ChangeEvent → Call World WorkflowExecutionRecord
  unfolding start_record dead_letter ensure_change set_runtime_status transition_to ensure_plan
      request_approval
  process_event event = do started ← start_record event; process_started event started
