-- ===== src/Gateway/Executions.antt =====
-- Idempotent executions
-- (services/tool-gateway/src/changeops_tool_gateway/repository.py, `reserve_execution`,
-- `complete_execution` and `fail_execution`).
use enterprise_change_ops.Base.{
  ◌+◌, ◌<◌, String, string_eq, pair_eq, Bool, true, false, ◌≡◌, ◌⊎◌, inl, inr, refl, sym, ◌∙◌,
  subst, Option, none, some, arith, Result, ok, err, Option-cases, same_refl,
}
use enterprise_change_ops.Base.Dict.{lookup, insert, lookup-insert}
use enterprise_change_ops.Contracts.Json.{Fields}
use enterprise_change_ops.Contracts.Models.{Timestamp}
use enterprise_change_ops.Contracts.Canonical.{Codec}
use enterprise_change_ops.Gateway.Models.{
  ToolExecutionStatus-discrete, reserved, succeeded, execution_status_eq, ToolExecutionRecord,
  ExecutionReservation, validate_status_fields,
}
use enterprise_change_ops.Gateway.Errors.{GatewayError}
use enterprise_change_ops.Gateway.Repository.{
  Store, Reserve, check_approval, reserve_existing, reserve_execution, reserved_again,
  new_execution, two_minutes, reserve_new, reserve_known, completed, complete_execution,
}

abbrev execution_under : String → Store → Option String → Option ToolExecutionRecord
execution_under t s none = none
execution_under t s (some id) = lookup (t, id) s.executions

-- The execution that a tenant's idempotency key leads to.
abbrev pub execution_at : String → String → Store → Option ToolExecutionRecord
execution_at t k s = execution_under t s (lookup (t, k) s.execution_ids)

-- A call that has raised or passed has not touched the state.
check_approval-reads : (q : Reserve) (s : Store) → (check_approval q s).1 ≡ s
unfolding check_approval
check_approval-reads q s = ground arith

unchanged-cases :
    (s : Store) (p : Result GatewayError (Unit {0}) × Store)
    → p.1 ≡ s
    → ((e : GatewayError) × (p ≡ (err e, s))) ⊎ (p ≡ (ok tt, s))
unchanged-cases s (err e, s') h = inl (e, rw h)
unchanged-cases s (ok tt, s') h = inr (rw h)

-- What a granted reservation says: a replay is of an execution that has succeeded, for the same
-- input, and changes nothing; any other is a new reservation, stored under the key.
abbrev pub Grants : Reserve → Store → Bool → ToolExecutionRecord → Store → Type 0
Grants q s true r s' = (r.status ≡ succeeded) × (r.input_hash ≡ q.input_hash) × (s' ≡ s)
Grants q s false r s' =
    (r.status ≡ reserved)
    × (r.input_hash ≡ q.input_hash)
    × (r.updated_at ≡ q.now)
    × (execution_at q.intent.tenant_id q.intent.idempotency_key s' ≡ some r)

abbrev pub Reserves : Reserve → Store → Result GatewayError ExecutionReservation × Store → Type 0
Reserves q s (err e, s') = s' ≡ s
Reserves q s (ok r, s') = Grants q s r.replayed r.execution s'

module _ (codec : Codec) (q : Reserve) (s : Store) where
  found_here :
      (id : String) (r : ToolExecutionRecord)
      → lookup (q.intent.tenant_id, id) (insert (q.intent.tenant_id, id) r s.executions) ≡ some r
  found_here id r =
      lookup-insert (q.intent.tenant_id, id) (q.intent.tenant_id, id) r s.executions
      ∙ rw (same_refl q.intent.tenant_id, same_refl id)

  reserve_existing-Reserves :
      (id : String) (existing : ToolExecutionRecord)
      → lookup (q.intent.tenant_id, q.intent.idempotency_key) s.execution_ids ≡ some id
      → Reserves q s (reserve_existing q id existing s)
  unfolding reserve_existing ToolExecutionStatus-discrete
  reserve_existing-Reserves id existing h = ground (
    arith,
    string_eq.same_iff existing.input_hash q.input_hash,
    found_here id (reserved_again q existing),
  )

  known_here :
      (id : String)
      → lookup
          (q.intent.tenant_id, q.intent.idempotency_key)
          (insert (q.intent.tenant_id, q.intent.idempotency_key) id s.execution_ids)
        ≡ some id
  known_here id =
      lookup-insert (q.intent.tenant_id, q.intent.idempotency_key)
        (q.intent.tenant_id, q.intent.idempotency_key) id s.execution_ids
      ∙ rw (same_refl q.intent.tenant_id, same_refl q.intent.idempotency_key)

  reserve_new-Reserves : Reserves q s (reserve_new codec q s)
  unfolding validate_status_fields ToolExecutionStatus-discrete
  reserve_new-Reserves = ground (
    arith,
    found_here (new_execution codec q).execution_id (new_execution codec q),
    known_here (new_execution codec q).execution_id,
  )

  reserve_known-Reserves :
      (o : Option String)
      → lookup (q.intent.tenant_id, q.intent.idempotency_key) s.execution_ids ≡ o
      → Reserves q s (reserve_known codec q o s)
  reserve_known-Reserves none h = reserve_new-Reserves
  reserve_known-Reserves (some id) h =
      elim (Option-cases (lookup (q.intent.tenant_id, id) s.executions)) [
        | inl gone ↦ rw gone refl
        | inr (existing, e) ↦ rw e (reserve_existing-Reserves id existing h)
      ]

  -- A call of `reserve_execution` raises and changes nothing, or replays an execution of the same
  -- input that has succeeded and changes nothing, or stores a reservation under the key.
  pub reserve_execution-Reserves : Reserves q s (reserve_execution codec q s)
  unfolding reserve_execution
  reserve_execution-Reserves =
      elim (unchanged-cases s (check_approval q s) (check_approval-reads q s)) [
        | inl (e, raised) ↦ rw raised refl
        | inr passed ↦ rw passed (
            reserve_known-Reserves
              (lookup (q.intent.tenant_id, q.intent.idempotency_key) s.execution_ids) refl)
      ]

-- The call has raised, and changed nothing.
abbrev pub IsRefused : {A : Type 0} → Store → Result GatewayError A × Store → Type 0
IsRefused s (err e, s') = s' ≡ s
IsRefused s (ok a, s') = ⊥

-- A call for a key whose execution is reserved and not two minutes old raises.
held-IsRefused :
    (codec : Codec) (q : Reserve) (s : Store) (r : ToolExecutionRecord)
    → execution_at q.intent.tenant_id q.intent.idempotency_key s ≡ some r
    → r.status ≡ reserved
    → q.now < r.updated_at + two_minutes
    → IsRefused s (reserve_execution codec q s)
unfolding reserve_execution reserve_existing ToolExecutionStatus-discrete
held-IsRefused codec q s r at_key is_reserved early =
    elim (unchanged-cases s (check_approval q s) (check_approval-reads q s)) [
      | inl (e, raised) ↦ rw raised refl
      | inr passed ↦ rw passed (ground arith)
    ]

-- No two callers hold one key. After a new reservation, while the key leads to the execution as it
-- was reserved, a call for the same tenant and key raises and changes nothing until two minutes have
-- passed, whatever else the state holds by then.
pub reserve_execution-exclusive :
    (codec : Codec) (q q' : Reserve) (s s' later : Store) (r : ToolExecutionRecord)
    → reserve_execution codec q s ≡ (ok (record { execution = r; replayed = false }), s')
    → execution_at q.intent.tenant_id q.intent.idempotency_key later
      ≡ execution_at q.intent.tenant_id q.intent.idempotency_key s'
    → q'.intent.tenant_id ≡ q.intent.tenant_id
    → q'.intent.idempotency_key ≡ q.intent.idempotency_key
    → q'.now < q.now + two_minutes
    → IsRefused later (reserve_execution codec q' later)
reserve_execution-exclusive codec q q' s s' later r h still t k early =
    let granted = subst (Reserves q s) h (reserve_execution-Reserves codec q s) in
    held-IsRefused codec q' later r (rw (t, k) (still ∙ granted.3)) granted.0 (rw granted.2 early)

-- The key leads to the execution, by way of the identifier.
pub record Holds (t k id : String) (s : Store) (r : ToolExecutionRecord) : Type 0 where
  pub known : lookup (t, k) s.execution_ids ≡ some id
  pub stored : lookup (t, id) s.executions ≡ some r

put_here :
    (t id : String) (r : ToolExecutionRecord) (s : Store)
    → lookup (t, id) (insert (t, id) r s.executions) ≡ some r
put_here t id r s = lookup-insert (t, id) (t, id) r s.executions ∙ rw (same_refl t, same_refl id)

-- What a call of `complete_execution` that returns has stored.
abbrev Completes :
    String
    → String
    → Store
    → ToolExecutionRecord
    → Result GatewayError ToolExecutionRecord × Store
    → Type 0
Completes t id s r (err e, s') = Unit
Completes t id s r (ok done, s') =
    (done.status ≡ succeeded)
    × (done.input_hash ≡ r.input_hash)
    × (s'.execution_ids ≡ s.execution_ids)
    × (lookup (t, id) s'.executions ≡ some done)

complete_execution-Completes :
    (t c id output_hash : String) (output : Fields) (at : Timestamp) (s : Store)
    (r : ToolExecutionRecord)
    → lookup (t, id) s.executions ≡ some r
    → Completes t id s r (complete_execution t c id output output_hash at s)
unfolding complete_execution validate_status_fields ToolExecutionStatus-discrete
complete_execution-Completes t c id output_hash output at s r h =
    ground (arith, put_here t id (completed r output output_hash at) s)

replay :
    (codec : Codec) (q : Reserve) (s : Store) (id : String) (r : ToolExecutionRecord)
    → lookup (q.intent.tenant_id, q.intent.idempotency_key) s.execution_ids ≡ some id
    → lookup (q.intent.tenant_id, id) s.executions ≡ some r
    → r.status ≡ succeeded
    → r.input_hash ≡ q.input_hash
    → (reserve_execution codec q s ≡ (ok (record { execution = r; replayed = true }), s))
      ⊎ IsRefused s (reserve_execution codec q s)
unfolding reserve_execution reserve_existing ToolExecutionStatus-discrete
replay codec q s id r known stored done same =
    elim (unchanged-cases s (check_approval q s) (check_approval-reads q s)) [
      | inl (e, raised) ↦ inr (rw raised refl)
      | inr passed ↦ inl (rw (passed, known, stored, done, same, same_refl q.input_hash) refl)
    ]

-- A completed execution is not run again: after `complete_execution`, a call of
-- `reserve_execution` for its key and its input replays it, or raises; the state stays as it is.
pub complete_execution-replayed :
    (codec : Codec) (t c k id output_hash : String) (output : Fields) (at : Timestamp)
    (s s' : Store) (r done : ToolExecutionRecord) (q : Reserve)
    → Holds t k id s r
    → complete_execution t c id output output_hash at s ≡ (ok done, s')
    → q.intent.tenant_id ≡ t
    → q.intent.idempotency_key ≡ k
    → q.input_hash ≡ r.input_hash
    → (reserve_execution codec q s' ≡ (ok (record { execution = done; replayed = true }), s'))
      ⊎ IsRefused s' (reserve_execution codec q s')
complete_execution-replayed codec t c k id output_hash output at s s' r done q h ran qt qk qi =
    let ends =
      subst (Completes t id s r) ran
        (complete_execution-Completes t c id output_hash output at s r h.stored) in
    replay codec q s' id done (rw (qt, qk, ends.2) h.known) (rw (qt) ends.3) ends.0
      (ends.1 ∙ sym qi)
