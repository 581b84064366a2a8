-- ===== src/Coordinator/Engine/Outcomes.antt =====
-- How the engine's calls end, from whatever state: none runs out of fuel or is blocked, and an update
-- returns what it was given (services/workflow-coordinator/src/changeops_workflow_coordinator/engine.py).
use enterprise_change_ops.Base.{
  ap, weaken_lem, String, ◌≡◌, ◌≢◌, refl, some, Result, ok, err, Exec, Outcome, Ends, or_raise-Ends,
  arith,
}
use enterprise_change_ops.Contracts.Canonical.{Codec}
use enterprise_change_ops.Persistence.Errors.{PersistenceError}
use enterprise_change_ops.Persistence.Memory
use enterprise_change_ops.StateMachine.Service.{TransitionError}
use enterprise_change_ops.Coordinator.Models.{
  WorkflowTaskRecord, WorkflowExecutionRecord, validate_artifacts,
}
use enterprise_change_ops.Coordinator.Repository.{WorkflowError}
use enterprise_change_ops.Coordinator.Repository
use enterprise_change_ops.Coordinator.Engine.World.{
  caught, EngineError, dependency, unexpected, transient, permanent, workflow_error, change_error,
  transition_error, validation_error, key_error, out_of_fuel, ClientError, dependency_call,
  other_exception, Outside, State, Call, client, reading, in_world, in_workflows, in_changes,
  in_service, settled, on_workflows, on_changes, on_service,
}
use enterprise_change_ops.Coordinator.Engine.Records.{
  Note, validated, audit, record_audit, require_plan,
}

-- The error is neither the model's own nor that of a blocked plan.
abbrev pub IsFine : EngineError → Type 0
IsFine out_of_fuel = ⊥
IsFine (permanent code) = code ≢ "DAG_PROGRESS_BLOCKED"
IsFine _ = Unit

-- Whatever is returned.
abbrev pub Any : {A : Type 0} → A → Type 0
Any a = Unit

caught_lem :
    {A : Type 0} (Q : A → Type 0) (r : Result EngineError A)
    → Outcome Q IsFine r
    → Outcome (Outcome Q IsFine) IsFine (caught r)
caught_lem Q (ok a) h = h
caught_lem Q (err (dependency code b)) h = h
caught_lem Q (err unexpected) h = h
caught_lem Q (err (transient code)) h = h
caught_lem Q (err (permanent code)) h = h
caught_lem Q (err (workflow_error e)) h = h
caught_lem Q (err (change_error e)) h = h
caught_lem Q (err (transition_error e)) h = h
caught_lem Q (err (validation_error e)) h = h
caught_lem Q (err key_error) h = h
caught_lem Q (err out_of_fuel) h = h

module _ {World A : Type 0} where
  in_world_lem :
      (s : State World) (p : Result ClientError A × World) → Outcome Any IsFine (in_world s p).0
  in_world_lem s (ok a, w) = tt
  in_world_lem s (err (dependency_call code b), w) = tt
  in_world_lem s (err other_exception, w) = tt

  in_changes_lem :
      (s : State World) (p : Result PersistenceError A × Memory.Store)
      → Outcome Any IsFine (in_changes s p).0
  in_changes_lem s (ok a, w) = tt
  in_changes_lem s (err e, w) = tt

  in_service_lem :
      (s : State World) (p : Result TransitionError A × Memory.Store)
      → Outcome Any IsFine (in_service s p).0
  in_service_lem s (ok a, w) = tt
  in_service_lem s (err e, w) = tt

  in_workflows_lem :
      (s : State World) (p : Result WorkflowError A × Repository.Store)
      → Outcome Any IsFine (in_workflows s p).0
  in_workflows_lem s (ok a, w) = tt
  in_workflows_lem s (err e, w) = tt

  pub on_service-Ends :
      (m : Exec Memory.Store TransitionError A) → Ends Any IsFine (on_service {World = World} m)
  on_service-Ends m = record { from = λ s. in_service_lem s (m s.changes) }

  pub on_workflows-Ends :
      (m : Exec Repository.Store WorkflowError A) → Ends Any IsFine (on_workflows {World = World} m)
  on_workflows-Ends m = record { from = λ s. in_workflows_lem s (m s.workflows) }

  pub client-Ends : (m : Exec World ClientError A) → Ends Any IsFine (client m)
  client-Ends m = record { from = λ s. in_world_lem s (m s.world) }

  answers_lem :
      (s : State World) (p p' : Result ClientError A × World)
      → p' ≡ p
      → Outcome (λ a. p'.0 ≡ ok a) IsFine (in_world s p).0
  answers_lem s (ok a, w) p' e = ap (λ (x : Result ClientError A × World). x.0) e
  answers_lem s (err (dependency_call code b), w) p' e = tt
  answers_lem s (err other_exception, w) p' e = tt

  -- What a client gave back it gave in some world.
  pub client-answers :
      (m : Exec World ClientError A) → Ends (λ a. (w : World) × ((m w).0 ≡ ok a)) IsFine (client m)
  client-answers m = record {
    from = λ s.
        weaken_lem IsFine (λ a e. (s.world, e)) (in_world s (m s.world)).0
          (answers_lem s (m s.world) (m s.world) refl);
  }

  pub reading-Ends : (f : World → A × World) → Ends Any IsFine (reading f)
  reading-Ends f = record { from = λ s. tt }

  pub settled-Ends :
      {Q : A → Type 0} {m : Call World A}
      → Ends Q IsFine m
      → Ends (Outcome Q IsFine) IsFine (settled m)
  settled-Ends {Q} {m} h = record { from = λ s. caught_lem Q (m s).0 (h.from s) }

  pub on_changes-Ends :
      (m : Exec Memory.Store PersistenceError A) → Ends Any IsFine (on_changes {World = World} m)
  on_changes-Ends m = record { from = λ s. in_changes_lem s (m s.changes) }

module _ (codec : Codec) (outside : Outside) where
  open outside use {World, clock, new_id}

  pub record_audit-Ends :
      (r : WorkflowExecutionRecord) (note : Note)
      → Ends Any IsFine (record_audit codec outside r note)
  unfolding record_audit audit
  record_audit-Ends r note = record {
    from = λ s.
        in_changes_lem (record s { world = (clock (new_id s.world).1).1 })
          (Memory.record_audit _ s.changes);
  }

  pub require_plan-Ends :
      (r : WorkflowExecutionRecord)
      → Ends (λ plan. r.plan ≡ some plan) IsFine (require_plan codec outside r)
  unfolding require_plan
  require_plan-Ends r = or_raise-Ends IsFine r.plan (permanent "PLAN_MISSING") λ h. cc

  -- What validation gives back is what it was given.
  validated_lem :
      (t : WorkflowTaskRecord) (s : State World) (o : Result String WorkflowTaskRecord)
      → validate_artifacts t ≡ o
      → Outcome (λ u. u ≡ t) IsFine (validated {World = World} o s).0
  unfolding validate_artifacts
  validated_lem t s (ok u) h = ground arith
  validated_lem t s (err message) h = tt

  pub validated-Ends :
      (t : WorkflowTaskRecord)
      → Ends {S = State World}
          (λ u. u ≡ t)
          IsFine
          (validated {World = World} (validate_artifacts t))
  validated-Ends t = record { from = λ s. validated_lem t s (validate_artifacts t) refl }
