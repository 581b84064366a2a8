-- ===== src/Coordinator/Engine/Capture.antt =====
-- What `_capture_snapshots` keeps
-- (services/workflow-coordinator/src/changeops_workflow_coordinator/engine.py).
use enterprise_change_ops.Base.{
  String, string_eq, true, ◌≡◌, refl, sym, ◌∙◌, subst, ap, List, [], ◌∷◌, keep, contains, All,
  Result, ok, err, Ends, bind-Ends, both-Ends, pure-Ends, raise-Ends, weaken-Ends, pure, ◌>>=◌,
  ◌>>◌,
}
use enterprise_change_ops.Base.Dict.{Dict, insert, values}
use enterprise_change_ops.Base.Distinct.{IsDistinct}
use enterprise_change_ops.Contracts.Models.{RemediationPlan}
use enterprise_change_ops.Contracts.Canonical.{Codec}
use enterprise_change_ops.Coordinator.Models.{
  WorkflowTaskRecord, WorkflowExecutionRecord, validate_artifacts,
}
use enterprise_change_ops.Coordinator.Retry.{RetryPolicy}
use enterprise_change_ops.Coordinator.Engine.World.{
  EngineError, dependency, permanent, SnapshotRecord, Outside,
}
use enterprise_change_ops.Coordinator.Engine.Records.{validated, record_audit}
use enterprise_change_ops.Coordinator.Engine.Dag.{
  put_tasks, with_snapshot, snapshot_note, snapshot_error, collect_snapshots, store_snapshots,
  lacks_snapshot, capture_missing, capture_snapshots,
}
use enterprise_change_ops.Coordinator.Engine.Outcomes.{
  IsFine, client-Ends, reading-Ends, settled-Ends, record_audit-Ends, validated-Ends,
}
use enterprise_change_ops.Coordinator.Engine.Board.{
  IsKeyed, insert-IsKeyed, insert-All, In-keep, All-In, put_tasks-IsKeyed, put_tasks-All,
}
use enterprise_change_ops.Coordinator.Engine.Readiness.{IsOpen, contains-ids, contains-own}
use enterprise_change_ops.Coordinator.Engine.Updates.{update_record-Ends}
use enterprise_change_ops.Coordinator.Engine.Rounds.{AreIn, take_tasks-AreIn, All-from}
use enterprise_change_ops.Coordinator.Engine.Failures.{task_ids, Keeps, take_tasks-AreTaken}
use enterprise_change_ops.Coordinator.Engine.Progress.{IsExecutable}

-- The same identifiers, open tasks and the plan are all that counts.
pub IsExecutable-same :
    (plan : RemediationPlan) (r r' : WorkflowExecutionRecord)
    → IsExecutable plan r
    → Keeps r r'
    → All IsOpen r'.tasks
    → IsExecutable plan r'
IsExecutable-same plan r r' h (same, planned, _) open_tasks = record {
  validated = h.validated;
  planned = planned ∙ h.planned;
  distinct_tasks = subst IsDistinct (sym same) h.distinct_tasks;
  open_tasks = open_tasks;
  covered = λ z i.
      let (t, it, e) = h.covered z i in
      let (u, iu, eu) =
        contains-ids r'.tasks t.step_id
          (ap (λ ks. contains ks t.step_id) same ∙ contains-own t r.tasks it) in
      (u, iu, eu ∙ e);
}

-- The dictionary has each task under its identifier, and none has failed.
abbrev IsClean : Dict String WorkflowTaskRecord → Type 0
IsClean d = IsKeyed d × All IsOpen (values d)

module _ (codec : Codec) (policy : RetryPolicy) (outside : Outside) where
  open outside use {World, clock, snapshot}

  abbrev AreOpen : List (WorkflowTaskRecord × Result EngineError SnapshotRecord) → Type 0
  AreOpen = All (λ p. IsOpen p.0)

  collect_snapshots-AreOpen :
      (r : WorkflowExecutionRecord) (ts : List WorkflowTaskRecord)
      → All IsOpen ts
      → Ends AreOpen IsFine (collect_snapshots codec policy outside r ts)
  collect_snapshots-AreOpen r [] h = pure-Ends tt
  collect_snapshots-AreOpen r (t ∷ ts) (h, hs) =
      bind-Ends (settled-Ends (client-Ends (snapshot t.system_id r.tenant_id))) λ result fine.
        bind-Ends {f = λ rest. pure ((t, result) ∷ rest)} (collect_snapshots-AreOpen r ts hs)
          λ rest k. pure-Ends (h, k)

  capture_failed : IsFine (permanent "SNAPSHOT_CAPTURE_FAILED")
  capture_failed h = cc

  snapshot_error_lem : (e : EngineError) → IsFine (snapshot_error codec policy outside e)
  snapshot_error_lem (dependency code true) = tt
  snapshot_error_lem e = capture_failed

  store_snapshots-IsClean :
      (r : WorkflowExecutionRecord)
      (ps : List (WorkflowTaskRecord × Result EngineError SnapshotRecord))
      (d : Dict String WorkflowTaskRecord)
      → AreOpen ps
      → IsClean d
      → Ends IsClean IsFine (store_snapshots codec policy outside r ps d)
  store_snapshots-IsClean r [] d h clean = pure-Ends clean
  store_snapshots-IsClean r ((t, err e) ∷ ps) d h clean = raise-Ends (snapshot_error_lem e)
  store_snapshots-IsClean r ((t, ok result) ∷ ps) d (h, hs) (keyed, open_tasks) =
      bind-Ends
        {f = λ now. validated (validate_artifacts (with_snapshot t result now)) >>= λ task.
          record_audit codec outside r (snapshot_note t result)
          >> store_snapshots codec policy outside r ps (insert t.step_id task d)}
        (reading-Ends clock)
        λ now _. bind-Ends (validated-Ends codec outside (with_snapshot t result now)) λ task e.
          bind-Ends (record_audit-Ends codec outside r (snapshot_note t result)) λ u _.
            store_snapshots-IsClean r ps (insert t.step_id task d) hs (
              subst (λ (x : WorkflowTaskRecord). IsClean (insert t.step_id x d)) (sym e)
                (
                  insert-IsKeyed (with_snapshot t result now) d keyed,
                  insert-All IsOpen (with_snapshot t result now) t.step_id d h open_tasks,
                ))

  capture_missing-IsExecutable :
      (plan : RemediationPlan) (r : WorkflowExecutionRecord) (ts : List WorkflowTaskRecord)
      → IsExecutable plan r
      → All IsOpen ts
      → Ends
          (λ r'. IsExecutable plan r' × Keeps r r')
          IsFine
          (capture_missing codec policy outside r ts)
  capture_missing-IsExecutable plan r [] h hs = pure-Ends (h, (refl, refl, refl))
  capture_missing-IsExecutable plan r (t ∷ ts) h hs =
      bind-Ends (collect_snapshots-AreOpen r (t ∷ ts) hs) λ snapshots opens.
        bind-Ends
          (store_snapshots-IsClean r snapshots (put_tasks r.tasks []) opens
            (put_tasks-IsKeyed r.tasks [] tt, put_tasks-All IsOpen r.tasks [] h.open_tasks tt))
          λ d (keyed, open_tasks).
            bind-Ends
              (both-Ends (take_tasks-AreIn World d r.tasks keyed)
                (take_tasks-AreTaken World d r.tasks keyed))
              λ tasks (kept, taken).
                weaken-Ends
                  (λ r' (version, (now, e)).
                    let same : r'.tasks ≡ tasks = ap (λ (x : WorkflowExecutionRecord). x.tasks) e in
                    let stays : Keeps r r' = (
                      ap task_ids same ∙ taken.0,
                      ap (λ (x : WorkflowExecutionRecord). x.plan) e,
                      ap (λ (x : WorkflowExecutionRecord). x.tenant_id) e,
                    ) in
                    (
                      IsExecutable-same plan r r' h stays
                          (subst (All IsOpen) (sym same) (AreIn-All d tasks kept open_tasks)),
                      stays,
                    ))
                  (update_record-Ends codec outside r (record r { tasks = tasks }))
    where
      AreIn-All :
          (d : Dict String WorkflowTaskRecord) (ts : List WorkflowTaskRecord)
          → AreIn d ts
          → All IsOpen (values d)
          → All IsOpen ts
      AreIn-All d [] h opens = tt
      AreIn-All d (t ∷ ts) (i, h) opens =
          (All-In IsOpen t (values d) opens i, AreIn-All d ts h opens)

  pub capture_snapshots-IsExecutable :
      (plan : RemediationPlan) (r : WorkflowExecutionRecord)
      → IsExecutable plan r
      → Ends
          (λ r'. IsExecutable plan r' × Keeps r r')
          IsFine
          (capture_snapshots codec policy outside r)
  unfolding capture_snapshots
  capture_snapshots-IsExecutable plan r h =
      capture_missing-IsExecutable plan r (keep (lacks_snapshot codec policy outside) r.tasks) h (
        All-from IsOpen (keep (lacks_snapshot codec policy outside) r.tasks) λ t i.
          All-In IsOpen t r.tasks h.open_tasks
            (In-keep (lacks_snapshot codec policy outside) t r.tasks i).0)
