-- ===== src/Coordinator/Engine/Verification.antt =====
-- `_verify` and `_verify_task` of
-- services/workflow-coordinator/src/changeops_workflow_coordinator/engine.py.
use enterprise_change_ops.Base.{
  ℕ, zero, suc, ◌+◌, String, string_eq, concat, Bool, true, false, if◌then◌else◌, Option, none,
  some, List, [], ◌∷◌, Result, ok, err, pure, raise, or_raise, ◌>>=◌, ◌>>◌,
}
use enterprise_change_ops.Base.Dict.{Dict, lookup}
use enterprise_change_ops.Contracts.Json.{Json, str, obj, field, end, get_field}
use enterprise_change_ops.Contracts.Enums.{success, failure}
use enterprise_change_ops.Contracts.Models.{RemediationStep}
use enterprise_change_ops.Contracts.Canonical.{Codec}
use enterprise_change_ops.Coordinator.Models.{
  WorkflowTaskRecord, WorkflowExecutionRecord, SystemId, crm, analytics, support,
}
use enterprise_change_ops.Coordinator.Retry.{RetryPolicy, should_retry}
use enterprise_change_ops.Coordinator.Engine.World.{
  EngineError, dependency, key_error, out_of_fuel, VerificationResult, Outside, Call, client,
  settled,
}
use enterprise_change_ops.Coordinator.Engine.Records.{
  Note, record_audit, require_plan, system_value,
}
use enterprise_change_ops.Coordinator.Engine.Dag.{put_steps}

-- `task.system_id.upper()`
abbrev upper_value : SystemId → String
upper_value crm = "CRM"
upper_value analytics = "ANALYTICS"
upper_value support = "SUPPORT"

abbrev pub verified_note : WorkflowTaskRecord → String → VerificationResult → Note
verified_note task expected result = record {
  event_type =
      if result.passed then "WORKFLOW_VERIFICATION_SUCCEEDED" else "WORKFLOW_VERIFICATION_FAILED";
  action = "verify_system";
  input_document = obj (
      field "expected_field" (str expected)
        (field "system_id" (str (system_value task.system_id)) end));
  output_document = result.dumped;
  status = if result.passed then success else failure;
  summary = concat "Independent " (concat (system_value task.system_id) " verification completed.");
}

abbrev pub text_of : Option Json → Option String
text_of (some (str s)) = some s
text_of _ = none

-- What `_verify` makes of the outcomes, in the order of the tasks.
abbrev pub first_failure : List (WorkflowTaskRecord × Result EngineError Bool) → Option String
first_failure [] = none
first_failure ((t, err (dependency code _)) ∷ rest) = some code
first_failure ((t, err _) ∷ rest) = some "VERIFY_FAILED"
first_failure ((t, ok false) ∷ rest) =
    some (concat (upper_value t.system_id) "_VERIFICATION_FAILED")
first_failure ((t, ok true) ∷ rest) = first_failure rest

module _ (codec : Codec) (policy : RetryPolicy) (outside : Outside) where
  open outside use {World, verify}

  abbrev pub after_verify :
      WorkflowExecutionRecord
      → WorkflowTaskRecord
      → String
      → ℕ
      → Call World Bool
      → Result EngineError VerificationResult
      → Call World Bool
  after_verify r task expected attempt again (ok result) =
      record_audit codec outside r (verified_note task expected result) >> pure result.passed
  after_verify r task expected attempt again (err (dependency code is_transient)) =
      if should_retry policy is_transient attempt
      then again
      else raise (dependency code is_transient)
  after_verify r task expected attempt again (err e) = raise e

  unfoldable pub checks :
      ℕ → WorkflowExecutionRecord → WorkflowTaskRecord → String → ℕ → Call World Bool
  unfolding record_audit should_retry
  checks zero r task expected attempt = raise out_of_fuel
  checks (suc fuel) r task expected attempt = do
    outcome ← settled (client (verify task.system_id r.tenant_id expected))
    after_verify r task expected (attempt + 1) (checks fuel r task expected (attempt + 1)) outcome

  unfoldable pub verify_task :
      WorkflowExecutionRecord → WorkflowTaskRecord → RemediationStep → Call World Bool
  unfolding checks
  verify_task r task step = do
    expected ←
        or_raise (text_of (get_field "new_field" step.arguments))
          (dependency "VERIFICATION_ARGUMENT_MISSING" false)
    checks (suc policy.maximum_attempts) r task expected zero

  -- The calls that `_verify` gathers. The steps are looked up before any of them runs.
  abbrev pub with_steps :
      Dict String RemediationStep
      → List WorkflowTaskRecord
      → Call World (List (WorkflowTaskRecord × RemediationStep))
  with_steps steps [] = pure []
  with_steps steps (t ∷ ts) = do
    step ← or_raise (lookup t.step_id steps) key_error
    rest ← with_steps steps ts
    pure ((t, step) ∷ rest)

  abbrev pub verify_all :
      WorkflowExecutionRecord
      → List (WorkflowTaskRecord × RemediationStep)
      → Call World (List (WorkflowTaskRecord × Result EngineError Bool))
  verify_all r [] = pure []
  verify_all r ((t, step) ∷ rest) = do
    outcome ← settled (verify_task r t step)
    outcomes ← verify_all r rest
    pure ((t, outcome) ∷ outcomes)

  unfoldable pub verify_workflow : WorkflowExecutionRecord → Call World (Option String)
  unfolding require_plan verify_task
  verify_workflow r = do
    plan ← require_plan codec outside r
    tasks ← with_steps (put_steps plan.steps []) r.tasks
    outcomes ← verify_all r tasks
    pure (first_failure outcomes)
