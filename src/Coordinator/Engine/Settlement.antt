-- ===== src/Coordinator/Engine/Settlement.antt =====
-- How a rollback ends (`_rollback` of
-- services/workflow-coordinator/src/changeops_workflow_coordinator/engine.py).
use enterprise_change_ops.Base.{
  ℕ, String, string_eq, Bool, true, false, ltb, ◌≡◌, ◌⊎◌, ◌∙◌, inl, inr, refl, sym, subst, ap, some,
  List, [], ◌∷◌, map, All, In, Ends, bind-Ends, or_raise-Ends, pure-Ends, weaken-Ends, if-Ends,
  pure, ◌>>=◌,
}
use enterprise_change_ops.Base.Dict.{Dict, lookup}
use enterprise_change_ops.Base.Sort.{sort_descending-In}
use enterprise_change_ops.Contracts.Enums.{WorkflowState}
use enterprise_change_ops.Contracts.Canonical.{Codec}
use enterprise_change_ops.Persistence.Memory
use enterprise_change_ops.Coordinator.Models.{
  WorkflowRuntimeStatus, WorkflowTaskRecord, WorkflowExecutionRecord,
}
use enterprise_change_ops.Coordinator.Engine.World.{key_error, Outside, State}
use enterprise_change_ops.Coordinator.Engine.Records.{update_record}
use enterprise_change_ops.Coordinator.Engine.Dag.{put_tasks, take_tasks}
use enterprise_change_ops.Coordinator.Engine.Rollback.{
  put_orders, with_orders, backwards, restore_all, finish_rollback, is_underway, rollback,
}
use enterprise_change_ops.Coordinator.Engine.Failures.{task_ids, Keeps, Keeps-next}
use enterprise_change_ops.Coordinator.Engine.Outcomes.{
  IsFine, Any, require_plan-Ends, on_changes-Ends,
}
use enterprise_change_ops.Coordinator.Engine.Updates.{
  HasUpdates, update_record-Ends, terminal-Ends, set_runtime_status-Ends, transition_to-Ends,
}
use enterprise_change_ops.Coordinator.Engine.Restoration.{
  IsBack, IsBackTo, AreBack, take_tasks-Any, take_tasks-IsBack, restore_all-AreBack,
}

-- Each task is among the ordered ones.
abbrev AreOrdered : List WorkflowTaskRecord → List (ℕ × WorkflowTaskRecord) → Type 0
AreOrdered ts ps = (t : WorkflowTaskRecord) → In t ts → (n : ℕ) × In (n, t) ps

with_orders-AreOrdered :
    (World : Type 0) (order : Dict String ℕ) (ts : List WorkflowTaskRecord)
    → Ends {S = State World} (AreOrdered ts) IsFine (with_orders {World = World} order ts)
with_orders-AreOrdered World order [] = pure-Ends λ t i. elim i [ ]
with_orders-AreOrdered World order (t ∷ ts) =
    bind-Ends (or_raise-Ends IsFine (lookup t.step_id order) key_error tt) λ n _.
      bind-Ends {f = λ rest. pure ((n, t) ∷ rest)} (with_orders-AreOrdered World order ts) λ rest h.
        pure-Ends λ u i. elim i [
          | inl e ↦ (n, inl (ap (λ (x : WorkflowTaskRecord). (n, x)) e))
          | inr j ↦ let (m, k) = h u j in (m, inr k)
        ]

map-In :
    (p : ℕ × WorkflowTaskRecord) (ps : List (ℕ × WorkflowTaskRecord))
    → In p ps
    → In p.1 (map (λ (q : ℕ × WorkflowTaskRecord). q.1) ps)
map-In p [] i = elim i [ ]
map-In p (q ∷ ps) (inl e) = inl (ap (λ (x : ℕ × WorkflowTaskRecord). x.1) e)
map-In p (q ∷ ps) (inr i) = inr (map-In p ps i)

backwards-In :
    (t : WorkflowTaskRecord) (n : ℕ) (ps : List (ℕ × WorkflowTaskRecord))
    → In (n, t) ps
    → In t (backwards ps)
backwards-In t n ps i = map-In (n, t) _ (sort_descending-In (λ p q. ltb p.0 q.0) (n, t) ps i)

All-IsBack :
    (P : WorkflowTaskRecord → Type 0) (ts us : List WorkflowTaskRecord)
    (d : Dict String WorkflowTaskRecord)
    → ((t : WorkflowTaskRecord) → In t ts → In t us)
    → ((t : WorkflowTaskRecord) → In t us → IsBack P t.step_id d)
    → All (λ t. IsBack P t.step_id d) ts
All-IsBack P [] us d among h = tt
All-IsBack P (t ∷ ts) us d among h =
    (h t (among t (inl refl)), All-IsBack P ts us d (λ u i. among u (inr i)) h)

module _ (codec : Codec) (outside : Outside) where
  open outside use {World}

  -- The workflow failed with every task of the record before rolled back and its system restored to its
  -- snapshot, or it needs attention.
  abbrev pub IsRolledBack : WorkflowExecutionRecord → WorkflowExecutionRecord → Type 0
  IsRolledBack r r' =
      ((r'.status ≡ WorkflowRuntimeStatus.failed)
        × Keeps r r'
        × All (IsBackTo codec outside r'.tenant_id) r'.tasks)
      ⊎ (r'.status ≡ WorkflowRuntimeStatus.needs_attention)

  -- The tasks are rolled back and their systems restored, unless a failure is reported.
  abbrev BackUnless : Bool → WorkflowExecutionRecord → WorkflowExecutionRecord → Type 0
  BackUnless failed r r' =
      (failed ≡ true) ⊎ (Keeps r r' × All (IsBackTo codec outside r'.tenant_id) r'.tasks)

  finish_rollback-IsRolledBack :
      (first r : WorkflowExecutionRecord) (failed : Bool) (code : String)
      → BackUnless failed first r
      → Ends (IsRolledBack first) IsFine (finish_rollback codec outside r failed code)
  finish_rollback-IsRolledBack first r true code h =
      bind-Ends (transition_to-Ends codec outside r WorkflowState.needs_attention []) λ c _.
        weaken-Ends (λ r' k. inr k.0)
          (terminal-Ends codec outside r WorkflowRuntimeStatus.needs_attention (some code))
  finish_rollback-IsRolledBack first r false code (inl reported) = absurd cc
  finish_rollback-IsRolledBack first r false code (inr (stays, all_back)) =
      bind-Ends (transition_to-Ends codec outside r WorkflowState.failed []) λ c _.
        weaken-Ends
          (λ r' (status, tasks, plan, tenant). inl (
            status,
            Keeps-next first r r' stays (ap task_ids tasks, plan, tenant),
            subst (λ t. All (IsBackTo codec outside t) r'.tasks) (sym tenant)
                (subst (All (IsBackTo codec outside r.tenant_id)) (sym tasks) all_back),
          ))
          (terminal-Ends codec outside r WorkflowRuntimeStatus.failed (some code))

  -- What the record gets for its tasks.
  abbrev TakenUnless : Bool → WorkflowExecutionRecord → List WorkflowTaskRecord → Type 0
  TakenUnless failed r ts =
      (failed ≡ true)
      ⊎ (All (IsBackTo codec outside r.tenant_id) ts × (task_ids ts ≡ task_ids r.tasks))

  take_restored :
      (r : WorkflowExecutionRecord) (us : List WorkflowTaskRecord)
      (d : Dict String WorkflowTaskRecord) (restored : Dict String WorkflowTaskRecord × Bool)
      → ((t : WorkflowTaskRecord) → In t r.tasks → In t us)
      → AreBack codec outside r.tenant_id us d restored
      → Ends {S = State World}
          (TakenUnless restored.1 r)
          IsFine
          (take_tasks {World = World} restored.0 r.tasks)
  take_restored r us d restored among (inl e) =
      weaken-Ends (λ tasks _. inl e) (take_tasks-Any World restored.0 r.tasks)
  take_restored r us d restored among (inr back) =
      weaken-Ends (λ tasks h. inr h)
        (take_tasks-IsBack (IsBackTo codec outside r.tenant_id) World restored.0 r.tasks (
          All-IsBack (IsBackTo codec outside r.tenant_id) r.tasks us restored.0 among
            λ t i. back t.step_id (inr (t, i, refl))))

  updated-BackUnless :
      (first rolling r' : WorkflowExecutionRecord) (failed : Bool) (tasks : List WorkflowTaskRecord)
      → Keeps first rolling
      → TakenUnless failed rolling tasks
      → HasUpdates codec outside (record rolling { tasks = tasks }) r'
      → BackUnless failed first r'
  updated-BackUnless first rolling r' failed tasks since (inl e) updated = inl e
  updated-BackUnless first rolling r' failed tasks since (inr (back, same)) (v, (now, e)) =
      let tasks' : r'.tasks ≡ tasks = ap (λ (x : WorkflowExecutionRecord). x.tasks) e in
      let tenant : r'.tenant_id ≡ rolling.tenant_id =
        ap (λ (x : WorkflowExecutionRecord). x.tenant_id) e in
      inr (
        Keeps-next first rolling r' since
            (ap task_ids tasks' ∙ same, ap (λ (x : WorkflowExecutionRecord). x.plan) e, tenant),
        subst (λ t. All (IsBackTo codec outside t) r'.tasks) (sym tenant)
            (subst (All (IsBackTo codec outside rolling.tenant_id)) (sym tasks') back),
      )

  -- From the restoration on.
  restored-IsRolledBack :
      (first rolling : WorkflowExecutionRecord) (ordered : List (ℕ × WorkflowTaskRecord))
      (code : String)
      → Keeps first rolling
      → AreOrdered rolling.tasks ordered
      → Ends (IsRolledBack first) IsFine (do
        restored ←
            restore_all codec outside rolling (backwards ordered) (put_tasks rolling.tasks []) false
        tasks ← take_tasks restored.0 rolling.tasks
        r' ← update_record codec outside rolling (record rolling { tasks = tasks })
        finish_rollback codec outside r' restored.1 code)
  restored-IsRolledBack first rolling ordered code since in_order =
      bind-Ends
        (restore_all-AreBack codec outside rolling (backwards ordered) (put_tasks rolling.tasks [])
          false)
        λ restored h.
          bind-Ends
            (take_restored rolling (backwards ordered) (put_tasks rolling.tasks []) restored
              (λ t i. let (n, j) = in_order t i in backwards-In t n ordered j) h.0)
            λ tasks back.
              bind-Ends
                (update_record-Ends codec outside rolling (record rolling { tasks = tasks }))
                λ r' updated.
                  finish_rollback-IsRolledBack first r' restored.1 code
                    (updated-BackUnless first rolling r' restored.1 tasks since back updated)

  -- A rollback that ends without an error leaves the workflow in NEEDS_ATTENTION, or FAILED with the
  -- tasks of the record before, by their identifiers, its plan and its tenant, and every task rolled
  -- back and restored: the task has a snapshot with a hash, and in some state of the world `restore`
  -- for the task's system and that snapshot succeeds, and `configuration_hash` right after answers with
  -- that hash. So the workflow is never FAILED where a system cannot be restored to its snapshot. An
  -- error that the rollback raises is neither DAG_PROGRESS_BLOCKED nor a lack of fuel.
  pub rollback-IsRolledBack :
      (r : WorkflowExecutionRecord) (original_error : String)
      → Ends (IsRolledBack r) IsFine (rollback codec outside r original_error)
  unfolding rollback
  rollback-IsRolledBack r original_error =
      bind-Ends (on_changes-Ends (Memory.get r.tenant_id r.change_id)) λ change _.
        bind-Ends
          (if-Ends Any IsFine (is_underway codec outside change.status)
            (λ underway.
              bind-Ends (transition_to-Ends codec outside r WorkflowState.rolling_back [])
                λ c _. pure-Ends tt)
            λ over. pure-Ends tt)
          λ u _.
            bind-Ends
              (set_runtime_status-Ends codec outside r WorkflowRuntimeStatus.rolling_back
                (some original_error))
              λ rolling (status, tasks, plan, tenant).
                bind-Ends (require_plan-Ends codec outside rolling) λ found _.
                  bind-Ends (with_orders-AreOrdered World (put_orders found.steps []) rolling.tasks)
                    λ ordered in_order.
                      restored-IsRolledBack r rolling ordered original_error
                        (ap task_ids tasks, plan, tenant) in_order
