-- ===== src/Coordinator/Engine/World.antt =====
-- What the engine calls: its two repositories, which are modelled, and the world outside, which is a
-- parameter: the clock, the supply of identifiers, and the clients of
-- services/workflow-coordinator/src/changeops_workflow_coordinator/clients.py. A client draws the
-- request identifier of its call from the world. Calls that the code gathers run one after another,
-- in their order, and one that raises ends those that nobody collects.
use enterprise_change_ops.Base.{String, Bool, Result, ok, err, Exec}
use enterprise_change_ops.Contracts.Json.{Json}
use enterprise_change_ops.Contracts.Models.{
  Timestamp, ChangeEvent, RemediationPlan, RemediationStep,
}
use enterprise_change_ops.Persistence.Errors.{PersistenceError}
use enterprise_change_ops.Persistence.Memory
use enterprise_change_ops.StateMachine.Service.{TransitionError}
use enterprise_change_ops.Coordinator.Models.{SystemId}
use enterprise_change_ops.Coordinator.Repository.{WorkflowError}
use enterprise_change_ops.Coordinator.Repository

pub data EngineError : Type 0 where
  -- `DependencyCallError`: its code, and whether it is transient
  dependency : String → Bool → EngineError
  -- any other exception of a client
  unexpected : EngineError
  -- `WorkflowTransientError` and `WorkflowPermanentError`, with their codes
  transient permanent : String → EngineError
  workflow_error : WorkflowError → EngineError
  change_error : PersistenceError → EngineError
  transition_error : TransitionError → EngineError
  validation_error : String → EngineError
  key_error : EngineError
  -- the model's loops: it is never raised where there is enough fuel
  out_of_fuel : EngineError

pub record FleetAnalysisResult : Type 0 where
  pub draft_plan : RemediationPlan
  pub draft_plan_hash : String

pub record GatewayExecutionResult : Type 0 where
  pub execution_id : String
  pub output_hash : String
  pub replayed : Bool

pub record SnapshotRecord : Type 0 where
  pub snapshot_id : String
  pub configuration_hash : String

-- `dumped` is `model_dump(mode="json")`.
pub record VerificationResult : Type 0 where
  pub passed : Bool
  pub dumped : Json

pub data ClientError : Type 0 where
  dependency_call : String → Bool → ClientError
  other_exception : ClientError

pub record Outside : Type 1 where
  pub World : Type 0
  pub clock : World → Timestamp × World
  -- `uuid4().hex`
  pub new_id : World → String × World
  pub analyze : (change_id : String) → ChangeEvent → Exec World ClientError FleetAnalysisResult
  pub create_approval :
      (approval_id : String) → RemediationPlan → Timestamp → Exec World ClientError (Unit {0})
  pub execute :
      (workflow_execution_id : String)
      → RemediationPlan
      → RemediationStep
      → (approval_id : String) → (requested_at : Timestamp)
      → Exec World ClientError GatewayExecutionResult
  pub snapshot : SystemId → (tenant_id : String) → Exec World ClientError SnapshotRecord
  pub restore : SystemId → (tenant_id snapshot_id : String) → Exec World ClientError (Unit {0})
  pub configuration_hash : SystemId → (tenant_id : String) → Exec World ClientError String
  pub verify :
      SystemId → (tenant_id expected_field : String) → Exec World ClientError VerificationResult

pub record State (World : Type 0) : Type 0 where
  pub workflows : Repository.Store
  pub changes : Memory.Store
  pub world : World

abbrev pub Call : Type 0 → Type 0 → Type 0
Call World A = Exec (State World) EngineError A

abbrev pub from_client : ClientError → EngineError
from_client (dependency_call code is_transient) = dependency code is_transient
from_client other_exception = unexpected

-- The model's own error is none that the source catches.
abbrev pub caught : {A : Type 0} → Result EngineError A → Result EngineError (Result EngineError A)
caught (err out_of_fuel) = err out_of_fuel
caught r = ok r

module _ {World A : Type 0} where
  abbrev pub in_world :
      State World → Result ClientError A × World → Result EngineError A × State World
  in_world s (ok a, w) = (ok a, record s { world = w })
  in_world s (err e, w) = (err (from_client e), record s { world = w })

  -- A call of a client.
  abbrev pub client : Exec World ClientError A → Call World A
  client m s = in_world s (m s.world)

  abbrev pub reading : (World → A × World) → Call World A
  reading f s = let (a, w) = f s.world in (ok a, record s { world = w })

  abbrev pub in_workflows :
      State World → Result WorkflowError A × Repository.Store → Result EngineError A × State World
  in_workflows s (ok a, w) = (ok a, record s { workflows = w })
  in_workflows s (err e, w) = (err (workflow_error e), record s { workflows = w })

  abbrev pub on_workflows : Exec Repository.Store WorkflowError A → Call World A
  on_workflows m s = in_workflows s (m s.workflows)

  abbrev pub in_changes :
      State World → Result PersistenceError A × Memory.Store → Result EngineError A × State World
  in_changes s (ok a, c) = (ok a, record s { changes = c })
  in_changes s (err e, c) = (err (change_error e), record s { changes = c })

  abbrev pub on_changes : Exec Memory.Store PersistenceError A → Call World A
  on_changes m s = in_changes s (m s.changes)

  abbrev pub in_service :
      State World → Result TransitionError A × Memory.Store → Result EngineError A × State World
  in_service s (ok a, c) = (ok a, record s { changes = c })
  in_service s (err e, c) = (err (transition_error e), record s { changes = c })

  abbrev pub on_service : Exec Memory.Store TransitionError A → Call World A
  on_service m s = in_service s (m s.changes)

  -- The outcome of a call as a value, for `except` and for `gather(return_exceptions=True)`.
  abbrev pub settled : Call World A → Call World (Result EngineError A)
  settled m s = let (r, s') = m s in (caught r, s')

  abbrev pub unsettled : Result EngineError A → Call World A
  unsettled r s = (r, s)
