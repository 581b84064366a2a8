-- ===== src/Coordinator/Engine/Restoration.antt =====
-- What a rollback leaves (`_rollback` of
-- services/workflow-coordinator/src/changeops_workflow_coordinator/engine.py).
use enterprise_change_ops.Base.{
  String, string_eq, Bool, true, false, ◌||◌, not, ◌≡◌, ◌⊎◌, inl, inr, refl, sym, ◌∙◌, subst, ap,
  Option, none, some, some_inj, Bool-cases, List, [], ◌∷◌, All, In, ◌==◌, same_refl, ok, err, arith,
  Result, Outcome, Ends, bind-Ends, or_raise-Ends, pure-Ends, raise-Ends, weaken-Ends, if-Ends,
  pure, raise, ◌/=◌, if◌then◌else◌, ◌>>=◌, ◌>>◌,
}
use enterprise_change_ops.Base.Dict.{Dict, lookup, insert, lookup-insert}
use enterprise_change_ops.Contracts.Models.{Timestamp}
use enterprise_change_ops.Contracts.Canonical.{Codec}
use enterprise_change_ops.Coordinator.Models.{
  SystemId, WorkflowTaskRecord, WorkflowExecutionRecord, rolled_back, validate_artifacts,
}
use enterprise_change_ops.Coordinator.Engine.World.{
  ClientError, dependency_call, other_exception, from_client, in_world, client, EngineError,
  dependency, key_error, Outside, State, Call, reading,
}
use enterprise_change_ops.Coordinator.Engine.Records.{validated}
use enterprise_change_ops.Coordinator.Engine.Dag.{take_tasks}
use enterprise_change_ops.Coordinator.Engine.Rollback.{
  restored_note, unrestored_note, restored_task, unrestored_task, restore_call, after_restore,
  restore_from, restore_task, restore_all,
}
use enterprise_change_ops.Coordinator.Engine.Failures.{task_ids}
use enterprise_change_ops.Coordinator.Engine.Outcomes.{
  IsFine, Any, reading-Ends, settled-Ends, record_audit-Ends, validated-Ends,
}

pub take_tasks-Any :
    (World : Type 0) (d : Dict String WorkflowTaskRecord) (ts : List WorkflowTaskRecord)
    → Ends {S = State World} Any IsFine (take_tasks {World = World} d ts)
take_tasks-Any World d [] = pure-Ends tt
take_tasks-Any World d (t ∷ ts) =
    bind-Ends (or_raise-Ends IsFine (lookup t.step_id d) key_error tt) λ task _.
      bind-Ends {f = λ rest. pure (task ∷ rest)} (take_tasks-Any World d ts) λ rest _. pure-Ends tt

module _ (P : WorkflowTaskRecord → Type 0) where
  -- The key leads to a task of that identifier which has the property.
  abbrev pub IsBack : String → Dict String WorkflowTaskRecord → Type 0
  IsBack k d = (t : WorkflowTaskRecord) × (lookup k d ≡ some t) × P t × (t.step_id ≡ k)

  insert-IsBack :
      (k j : String) (t : WorkflowTaskRecord) (d : Dict String WorkflowTaskRecord)
      → P t
      → t.step_id ≡ j
      → IsBack k d
      → IsBack k (insert j t d)
  insert-IsBack k j t d back own (u, found, h, named) = elim (Bool-cases (j == k)) [
    | inl same ↦
        (t, lookup-insert j k t d ∙ rw same refl, back, own ∙ (string_eq.same_iff j k).0 same)
    | inr other ↦ (u, lookup-insert j k t d ∙ rw other found, h, named)
  ]

  insert-IsBack_own :
      (k : String) (t : WorkflowTaskRecord) (d : Dict String WorkflowTaskRecord)
      → P t
      → t.step_id ≡ k
      → IsBack k (insert k t d)
  insert-IsBack_own k t d back own = (t, lookup-insert k k t d ∙ rw (same_refl k) refl, back, own)

  pub take_tasks-IsBack :
      (World : Type 0) (d : Dict String WorkflowTaskRecord) (ts : List WorkflowTaskRecord)
      → All (λ t. IsBack t.step_id d) ts
      → Ends {S = State World}
          (λ us. All P us × (task_ids us ≡ task_ids ts))
          IsFine
          (take_tasks {World = World} d ts)
  take_tasks-IsBack World d [] h = pure-Ends (tt, refl)
  take_tasks-IsBack World d (t ∷ ts) ((u, found, back, named), h) =
      bind-Ends (or_raise-Ends IsFine (lookup t.step_id d) key_error tt) λ task e.
        bind-Ends {f = λ rest. pure (task ∷ rest)} (take_tasks-IsBack World d ts h)
          λ rest (hs, same).
            let is_u : u ≡ task = some_inj (sym found ∙ e) in
            let own : task.step_id ≡ t.step_id =
              ap (λ (x : WorkflowTaskRecord). x.step_id) (sym is_u) ∙ named in
            pure-Ends ((subst P is_u back, hs), ground (arith, own, same))

module _ (codec : Codec) (outside : Outside) where
  open outside use {World, clock, restore, configuration_hash}

  -- The system took the snapshot of that identifier back, and gave that hash right after.
  abbrev pub Restores : String → SystemId → String → String → Type 0
  Restores tenant_id system_id snapshot_id snapshot_hash =
      (w : World) × ((restore system_id tenant_id snapshot_id w).0 ≡ ok tt)
      × ((configuration_hash system_id tenant_id (restore system_id tenant_id snapshot_id w).1).0
          ≡ ok snapshot_hash)

  -- The task's system is restored to the snapshot of the task.
  abbrev pub WasRestored : String → WorkflowTaskRecord → Type 0
  WasRestored tenant_id t =
      (snapshot_id : String) × ((snapshot_hash : String) × (t.snapshot_id ≡ some snapshot_id)
        × (t.snapshot_hash ≡ some snapshot_hash)
        × Restores tenant_id t.system_id snapshot_id snapshot_hash)

  -- The task is rolled back, and its system is restored.
  abbrev pub IsBackTo : String → WorkflowTaskRecord → Type 0
  IsBackTo tenant_id t = (t.status ≡ rolled_back) × WasRestored tenant_id t

  -- A restored task is rolled back; of any other the failure is reported.
  abbrev IsRestored : String → WorkflowTaskRecord → WorkflowTaskRecord × Bool → Type 0
  IsRestored tenant_id task (t, failed) =
      (failed ≡ true) ⊎ (IsBackTo tenant_id t × (t.step_id ≡ task.step_id))

  from_client_lem : (e : ClientError) → IsFine (from_client e)
  from_client_lem (dependency_call code b) = tt
  from_client_lem other_exception = tt

  -- The comparison of the hashes, from the answer to the second call.
  compared_lem :
      (R : Type 0) (s : State World) (snapshot_hash : String)
      (o : Result ClientError String × World)
      → (o.0 ≡ ok snapshot_hash → R)
      → Outcome
          (λ (_ : String). R)
          IsFine
          (((λ (_ : State World). in_world s o) >>= λ restored_hash.
              if restored_hash /= snapshot_hash
              then raise (dependency "RESTORE_HASH_MISMATCH" false)
              else pure restored_hash)
            s).0
  compared_lem R s snapshot_hash (err e, w) h = from_client_lem e
  compared_lem R s snapshot_hash (ok restored_hash, w) h =
      (if-Ends (λ (_ : String). R) IsFine (not (restored_hash == snapshot_hash))
          (λ other. raise-Ends tt)
          λ same. pure-Ends (
            h (
              ap ok
                ((string_eq.same_iff restored_hash snapshot_hash).0 (ground (arith, same)))))).from
        (record s { world = w })

  restored_lem :
      (tenant_id : String) (system_id : SystemId) (snapshot_id snapshot_hash : String)
      (s : State World) (o : Result ClientError (Unit {0}) × World)
      → restore system_id tenant_id snapshot_id s.world ≡ o
      → Outcome
          (λ (_ : String). Restores tenant_id system_id snapshot_id snapshot_hash)
          IsFine
          (((λ (_ : State World). in_world s o) >> (do
            restored_hash ← client (configuration_hash system_id tenant_id)
            if restored_hash /= snapshot_hash
                then raise (dependency "RESTORE_HASH_MISMATCH" false)
                else pure restored_hash))
            s).0
  restored_lem tenant_id system_id snapshot_id snapshot_hash s (err e, w) h = from_client_lem e
  restored_lem tenant_id system_id snapshot_id snapshot_hash s (ok u, w) h =
      compared_lem (Restores tenant_id system_id snapshot_id snapshot_hash) (record s { world = w })
        snapshot_hash (configuration_hash system_id tenant_id w)
        λ answered. (s.world, rw h refl, rw h answered)

  restore_call-Ends :
      (r : WorkflowExecutionRecord) (task : WorkflowTaskRecord) (snapshot_id snapshot_hash : String)
      → Ends
          (λ _. Restores r.tenant_id task.system_id snapshot_id snapshot_hash)
          IsFine
          (restore_call codec outside r task snapshot_id snapshot_hash)
  restore_call-Ends r task snapshot_id snapshot_hash = record {
    from = λ s.
        restored_lem r.tenant_id task.system_id snapshot_id snapshot_hash s
          (restore task.system_id r.tenant_id snapshot_id s.world) refl;
  }

  -- A task gets its new state, which is audited.
  renewed-Ends :
      (tenant_id : String) (task : WorkflowTaskRecord) (next : Timestamp → WorkflowTaskRecord)
      (failed : Bool) (audited : Call World (Unit {0}))
      → ((now : Timestamp) → IsRestored tenant_id task (next now, failed))
      → Ends Any IsFine audited
      → Ends (IsRestored tenant_id task) IsFine (do
        now ← reading clock
        t ← validated (validate_artifacts (next now))
        audited
        pure (t, failed))
  renewed-Ends tenant_id task next failed audited h fine =
      bind-Ends
        {f = λ now. validated (validate_artifacts (next now)) >>= λ t. audited >> pure (t, failed)}
        (reading-Ends clock)
        λ now _. bind-Ends (validated-Ends codec outside (next now)) λ t e.
          bind-Ends {f = λ u. pure (t, failed)} fine
            λ u _. pure-Ends (subst (λ x. IsRestored tenant_id task (x, failed)) (sym e) (h now))

  after_restore-Ends :
      (r : WorkflowExecutionRecord) (task : WorkflowTaskRecord) (snapshot_id : String)
      (o : Result EngineError String)
      → Outcome (λ _. WasRestored r.tenant_id task) IsFine o
      → Ends (IsRestored r.tenant_id task) IsFine (after_restore codec outside r task snapshot_id o)
  after_restore-Ends r task snapshot_id (ok restored_hash) fine =
      renewed-Ends r.tenant_id task (restored_task task) false _ (λ now. inr ((refl, fine), refl))
        (record_audit-Ends codec outside r (restored_note task snapshot_id restored_hash))
  after_restore-Ends r task snapshot_id (err (dependency code is_transient)) fine =
      renewed-Ends r.tenant_id task (unrestored_task task code) true _ (λ now. inl refl)
        (record_audit-Ends codec outside r (unrestored_note task code))
  after_restore-Ends r task snapshot_id (err e) fine = raise-Ends fine

  missing-Ends :
      (tenant_id : String) (task : WorkflowTaskRecord)
      → Ends (IsRestored tenant_id task) IsFine (do
        now ← reading clock
        t ← validated (validate_artifacts (unrestored_task task "SNAPSHOT_MISSING" now))
        pure (t, true))
  missing-Ends tenant_id task =
      bind-Ends
        {f = λ now.
          validated (validate_artifacts (unrestored_task task "SNAPSHOT_MISSING" now)) >>= λ t.
          pure (t, true)}
        (reading-Ends clock)
        λ now _.
          bind-Ends {f = λ t. pure (t, true)}
            (validated-Ends codec outside (unrestored_task task "SNAPSHOT_MISSING" now))
            λ t e. pure-Ends (inl refl)

  restore_from-Ends :
      (r : WorkflowExecutionRecord) (task : WorkflowTaskRecord) (id hash : Option String)
      → task.snapshot_id ≡ id
      → task.snapshot_hash ≡ hash
      → Ends (IsRestored r.tenant_id task) IsFine (restore_from codec outside r task id hash)
  restore_from-Ends r task (some snapshot_id) (some snapshot_hash) h k =
      bind-Ends
        (settled-Ends (
          weaken-Ends (λ u restores. (snapshot_id, (snapshot_hash, h, k, restores)))
            (restore_call-Ends r task snapshot_id snapshot_hash)))
        λ o fine. after_restore-Ends r task snapshot_id o fine
  restore_from-Ends r task none hash h k = missing-Ends r.tenant_id task
  restore_from-Ends r task (some snapshot_id) none h k = missing-Ends r.tenant_id task

  -- Where no failure is reported, the tasks are rolled back, and so is each that was before.
  abbrev pub AreBack :
      String
      → List WorkflowTaskRecord
      → Dict String WorkflowTaskRecord
      → Dict String WorkflowTaskRecord × Bool
      → Type 0
  AreBack tenant_id ts d (d', failed) =
      (failed ≡ true)
      ⊎ ((k : String)
          → IsBack (IsBackTo tenant_id) k d ⊎ ((t : WorkflowTaskRecord) × In t ts × (t.step_id ≡ k))
          → IsBack (IsBackTo tenant_id) k d')

  AreBack_lem :
      (tenant_id : String) (t : WorkflowTaskRecord) (ts : List WorkflowTaskRecord)
      (d : Dict String WorkflowTaskRecord) (failed : Bool) (o : WorkflowTaskRecord × Bool)
      (result : Dict String WorkflowTaskRecord × Bool)
      → IsRestored tenant_id t o
      → ((failed || o.1) ≡ true → result.1 ≡ true)
      → AreBack tenant_id ts (insert t.step_id o.0 d) result
      → AreBack tenant_id (t ∷ ts) d result
  AreBack_lem tenant_id t ts d failed o result h flag (inl e) = inl e
  AreBack_lem tenant_id t ts d failed o result (inl e) flag (inr back) =
      inl (flag (ground (arith, e)))
  AreBack_lem tenant_id t ts d failed o result (inr (rolled, own)) flag (inr back) =
      inr (λ k h. here k h)
    where
      here :
          (k : String)
          → IsBack (IsBackTo tenant_id) k d
            ⊎ ((u : WorkflowTaskRecord) × In u (t ∷ ts) × (u.step_id ≡ k))
          → IsBack (IsBackTo tenant_id) k result.0
      here k (inl before) =
          back k (inl (insert-IsBack (IsBackTo tenant_id) k t.step_id o.0 d rolled own before))
      here k (inr (u, inl same, e)) = back k (
          inl (
            subst (λ j. IsBack (IsBackTo tenant_id) j (insert t.step_id o.0 d))
              (ap (λ (x : WorkflowTaskRecord). x.step_id) (sym same) ∙ e)
              (insert-IsBack_own (IsBackTo tenant_id) t.step_id o.0 d rolled own)))
      here k (inr (u, inr i, e)) = back k (inr (u, i, e))

  pub restore_all-AreBack :
      (r : WorkflowExecutionRecord) (ts : List WorkflowTaskRecord)
      (d : Dict String WorkflowTaskRecord) (failed : Bool)
      → Ends
          (λ result. AreBack r.tenant_id ts d result × (failed ≡ true → result.1 ≡ true))
          IsFine
          (restore_all codec outside r ts d failed)
  unfolding restore_all restore_task
  restore_all-AreBack r [] d failed =
      pure-Ends (inr (λ k h. elim h [ inl b ↦ b | inr (t, i, e) ↦ elim i [ ] ]), λ e. e)
  restore_all-AreBack r (t ∷ ts) d failed =
      bind-Ends {f = λ o. restore_all codec outside r ts (insert t.step_id o.0 d) (failed || o.1)}
        (restore_from-Ends r t t.snapshot_id t.snapshot_hash refl refl)
        λ o h.
          weaken-Ends
            (λ result q. (
              AreBack_lem r.tenant_id t ts d failed o result h q.1 q.0,
              λ e. q.1 (ground (arith, e)),
            ))
            (restore_all-AreBack r ts (insert t.step_id o.0 d) (failed || o.1))
