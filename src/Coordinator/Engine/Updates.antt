-- ===== src/Coordinator/Engine/Updates.antt =====
-- The record that `_update_record` returns
-- (services/workflow-coordinator/src/changeops_workflow_coordinator/engine.py).
use enterprise_change_ops.Base.{
  ℕ, String, string_eq, option_eq, ◌&&◌, not, ◌≡◌, refl, sym, ◌∙◌, subst, ap, Option, some, List,
  ◌==◌, ok, err, arith, Result, Outcome, Ends, bind-Ends, pure-Ends, weaken-Ends, if-Ends, ◌>>=◌,
}
use enterprise_change_ops.Contracts.Models.{Timestamp}
use enterprise_change_ops.Contracts.Canonical.{Codec}
use enterprise_change_ops.Contracts.Enums.{WorkflowState}
use enterprise_change_ops.StateMachine.Service.{RecordUpdate}
use enterprise_change_ops.Persistence.Memory
use enterprise_change_ops.Coordinator.Models.{
  WorkflowRuntimeStatus, runtime_status_eq, is_none, WorkflowExecutionRecord, validate_lifecycle,
}
use enterprise_change_ops.Coordinator.Repository.{WorkflowError, update}
use enterprise_change_ops.Coordinator.Repository
use enterprise_change_ops.Coordinator.Versions.{Updates, update-Updates}
use enterprise_change_ops.Coordinator.Engine.World.{
  Outside, State, reading, on_workflows, in_workflows,
}
use enterprise_change_ops.Coordinator.Engine.Records.{
  model_validate, versioned, validated, update_record, move, transition_to, terminal,
  set_runtime_status,
}
use enterprise_change_ops.Coordinator.Engine.Outcomes.{
  IsFine, Any, reading-Ends, on_changes-Ends, on_service-Ends,
}

module _ (codec : Codec) (outside : Outside) where
  open outside use {World, clock, new_id}

  -- The record that an update returns has the updates.
  abbrev pub HasUpdates : WorkflowExecutionRecord → WorkflowExecutionRecord → Type 0
  HasUpdates updates r =
      (version : ℕ) × ((now : Timestamp) × (r ≡ versioned codec outside updates version now))

  stored_lem :
      (Q : WorkflowExecutionRecord → Type 0) (updated : WorkflowExecutionRecord) (version : ℕ)
      (s : State World) (o : Result WorkflowError WorkflowExecutionRecord × Repository.Store)
      → Q updated
      → Updates updated version s.workflows o
      → Outcome Q IsFine (in_workflows s o).0
  stored_lem Q updated version s (ok done, w) q h = subst Q (sym h.0) q
  stored_lem Q updated version s (err e, w) q h = tt

  validated_lem :
      (r : WorkflowExecutionRecord) (s : State World) (o : Result String WorkflowExecutionRecord)
      → model_validate codec r ≡ o
      → Outcome (λ u. u ≡ r) IsFine (validated {World = World} o s).0
  unfolding model_validate validate_lifecycle
  validated_lem r s (ok u) h = ground arith
  validated_lem r s (err message) h = tt

  pub update_record-Ends :
      (r updates : WorkflowExecutionRecord)
      → Ends (HasUpdates updates) IsFine (update_record codec outside r updates)
  unfolding update_record
  update_record-Ends r updates =
      bind-Ends
        {f = λ now.
          validated (model_validate codec (versioned codec outside updates r.version now)) >>= λ u.
          on_workflows (update u r.version)}
        (reading-Ends clock)
        λ now _.
          bind-Ends {f = λ u. on_workflows (update u r.version)}
            (record {
              from = λ s. validated_lem (versioned codec outside updates r.version now) s _ refl;
            })
            λ u e. record {
              from = λ s.
                  stored_lem (HasUpdates updates) u r.version s _ (r.version, (now, e))
                    (update-Updates u r.version s.workflows);
            }

  pub transition_to-Ends :
      (r : WorkflowExecutionRecord) (target : WorkflowState) (record_updates : List RecordUpdate)
      → Ends Any IsFine (transition_to codec outside r target record_updates)
  unfolding transition_to
  transition_to-Ends r target record_updates =
      bind-Ends (on_changes-Ends (Memory.get r.tenant_id r.change_id)) λ current _.
        bind-Ends
          {f = λ now. reading new_id >>= move codec outside r target record_updates current now}
          (reading-Ends clock)
          λ now _.
            bind-Ends {f = move codec outside r target record_updates current now}
              (reading-Ends new_id) λ id _. on_service-Ends _

  -- The record that `_terminal` returns has the status, the tasks, the plan and the tenant.
  abbrev pub HasStatus :
      WorkflowExecutionRecord → WorkflowRuntimeStatus → WorkflowExecutionRecord → Type 0
  HasStatus r status r' =
      (r'.status ≡ status)
      × (r'.tasks ≡ r.tasks)
      × (r'.plan ≡ r.plan)
      × (r'.tenant_id ≡ r.tenant_id)

  update-HasStatus :
      (r updates : WorkflowExecutionRecord) (status : WorkflowRuntimeStatus)
      → updates.status ≡ status
      → updates.tasks ≡ r.tasks
      → updates.plan ≡ r.plan
      → updates.tenant_id ≡ r.tenant_id
      → Ends (HasStatus r status) IsFine (update_record codec outside r updates)
  update-HasStatus r updates status h k l m =
      weaken-Ends
        (λ r' (version, (now, e)). (
          ap (λ (x : WorkflowExecutionRecord). x.status) e ∙ h,
          ap (λ (x : WorkflowExecutionRecord). x.tasks) e ∙ k,
          ap (λ (x : WorkflowExecutionRecord). x.plan) e ∙ l,
          ap (λ (x : WorkflowExecutionRecord). x.tenant_id) e ∙ m,
        ))
        (update_record-Ends r updates)

  -- The updates of `_terminal`.
  abbrev ended :
      WorkflowExecutionRecord
      → WorkflowRuntimeStatus
      → Option String
      → Timestamp
      → WorkflowExecutionRecord
  ended r status error_code now = record r {
    status = status;
    last_error_code = error_code;
    completed_at = some now;
  }

  pub terminal-Ends :
      (r : WorkflowExecutionRecord) (status : WorkflowRuntimeStatus) (error_code : Option String)
      → Ends (HasStatus r status) IsFine (terminal codec outside r status error_code)
  unfolding terminal
  terminal-Ends r status error_code =
      if-Ends (HasStatus r status) IsFine (r.status == status && not (is_none r.completed_at))
        (λ done.
          pure-Ends
            (ground (arith, runtime_status_eq.same_iff r.status status, done), refl, refl, refl))
        λ open_record.
          bind-Ends {f = λ now. update_record codec outside r (ended r status error_code now)}
            (reading-Ends clock)
            λ now _. update-HasStatus r (ended r status error_code now) status refl refl refl refl

  pub set_runtime_status-Ends :
      (r : WorkflowExecutionRecord) (status : WorkflowRuntimeStatus) (code : Option String)
      → Ends (HasStatus r status) IsFine (set_runtime_status codec outside r status code)
  unfolding set_runtime_status
  set_runtime_status-Ends r status code =
      if-Ends (HasStatus r status) IsFine (r.status == status && r.last_error_code == code)
        (λ done.
          pure-Ends
            (ground (arith, runtime_status_eq.same_iff r.status status, done), refl, refl, refl))
        λ other.
          update-HasStatus r (record r { status = status; last_error_code = code }) status refl refl
            refl refl
