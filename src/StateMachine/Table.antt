-- ===== src/StateMachine/Table.antt =====
-- `_ALLOWED_TRANSITIONS`, `allowed_targets` and `can_transition` of
-- packages/changeops-core/src/changeops_core/state_machine.py.
use enterprise_change_ops.Base.{Bool, List, [], ◌∷◌, contains}
use enterprise_change_ops.Contracts.Enums.{
  WorkflowState, state_eq, received, screening, blocked, analyzing, plan_ready, awaiting_approval,
  executing, verifying, rolling_back, completed, failed, partial, cancelled, needs_attention,
}

abbrev pub allowed_targets : WorkflowState → List WorkflowState
allowed_targets received = screening ∷ cancelled ∷ failed ∷ []
allowed_targets screening = blocked ∷ analyzing ∷ cancelled ∷ failed ∷ needs_attention ∷ []
allowed_targets blocked = screening ∷ cancelled ∷ needs_attention ∷ []
allowed_targets analyzing = plan_ready ∷ blocked ∷ cancelled ∷ failed ∷ needs_attention ∷ []
allowed_targets plan_ready =
    awaiting_approval ∷ executing ∷ analyzing ∷ cancelled ∷ needs_attention ∷ []
allowed_targets awaiting_approval =
    WorkflowState.approved ∷ WorkflowState.rejected ∷ cancelled ∷ needs_attention ∷ []
allowed_targets WorkflowState.approved = executing ∷ cancelled ∷ needs_attention ∷ []
allowed_targets WorkflowState.rejected = analyzing ∷ cancelled ∷ []
allowed_targets executing = verifying ∷ rolling_back ∷ failed ∷ partial ∷ needs_attention ∷ []
allowed_targets verifying = completed ∷ rolling_back ∷ failed ∷ partial ∷ needs_attention ∷ []
allowed_targets rolling_back = failed ∷ partial ∷ cancelled ∷ needs_attention ∷ []
allowed_targets needs_attention =
    screening ∷ analyzing ∷ awaiting_approval ∷ executing ∷ verifying ∷ rolling_back ∷ failed
    ∷ cancelled ∷ []
allowed_targets completed = []
allowed_targets failed = []
allowed_targets partial = []
allowed_targets cancelled = []

unfoldable pub can_transition : WorkflowState → WorkflowState → Bool
can_transition current target = contains (allowed_targets current) target
