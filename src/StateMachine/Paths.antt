-- ===== src/StateMachine/Paths.antt =====
-- What every history of a change looks like: the list of the states that it enters, one by one, by
-- transitions of the table in packages/changeops-core/src/changeops_core/state_machine.py.
use enterprise_change_ops.Base.{Bool, true, false, ◌&&◌, ◌≡◌, refl, ap, List, [], ◌∷◌, any, arith}
use enterprise_change_ops.Contracts.Enums.{
  WorkflowState, WorkflowState-discrete, received, screening, blocked, analyzing, plan_ready,
  awaiting_approval, executing, verifying, rolling_back, completed, failed, partial, cancelled,
  needs_attention,
}
use enterprise_change_ops.StateMachine.Table.{can_transition}

-- Each state of the list may be entered from the one before it, the first one from `s`.
unfoldable pub follows : WorkflowState → List WorkflowState → Bool
follows s [] = true
follows s (t ∷ ts) = can_transition s t && follows t ts

-- Where a history ends.
abbrev pub last : WorkflowState → List WorkflowState → WorkflowState
last s [] = s
last s (t ∷ ts) = last t ts

abbrev pub is_terminal : WorkflowState → Bool
is_terminal completed = true
is_terminal failed = true
is_terminal partial = true
is_terminal cancelled = true
is_terminal _ = false

terminal_stuck : (s t : WorkflowState) → is_terminal s ≡ true → can_transition s t ≡ false
unfolding can_transition WorkflowState-discrete
terminal_stuck s t h = ground arith

-- From a terminal state no state can be entered: a history from there is empty.
pub terminal-absorbs :
    (s : WorkflowState) (ts : List WorkflowState)
    → is_terminal s ≡ true
    → follows s ts ≡ true
    → ts ≡ []
unfolding follows
terminal-absorbs s [] h f = refl
terminal-absorbs s (t ∷ ts) h f = ground (arith, terminal_stuck s t h)

-- A region of states that is entered only at its gates: a history that begins outside of it and
-- ends inside goes through a gate.
module _ (region gate : WorkflowState → Bool)
    (entry : (s t : WorkflowState)
      → can_transition s t ≡ true
      → region s ≡ false
      → region t ≡ true
      → gate t ≡ true) where
  passes_gate :
      (s : WorkflowState) (ts : List WorkflowState)
      → region s ≡ false
      → follows s ts ≡ true
      → region (last s ts) ≡ true
      → any gate ts ≡ true
  unfolding follows
  passes_gate s [] out f inside = cc
  passes_gate s (t ∷ ts) out f inside = ground (arith, entry s t, passes_gate t ts)

abbrev pub is_verifying : WorkflowState → Bool
is_verifying verifying = true
is_verifying _ = false

abbrev pub is_screening : WorkflowState → Bool
is_screening screening = true
is_screening _ = false

abbrev pub is_executing_or_attended : WorkflowState → Bool
is_executing_or_attended executing = true
is_executing_or_attended needs_attention = true
is_executing_or_attended _ = false

abbrev is_verified : WorkflowState → Bool
is_verified verifying = true
is_verified completed = true
is_verified _ = false

abbrev is_screened : WorkflowState → Bool
is_screened received = false
is_screened failed = false
is_screened cancelled = false
is_screened _ = true

abbrev is_executed : WorkflowState → Bool
is_executed executing = true
is_executed verifying = true
is_executed completed = true
is_executed rolling_back = true
is_executed partial = true
is_executed needs_attention = true
is_executed _ = false

verified_entry :
    (s t : WorkflowState)
    → can_transition s t ≡ true
    → is_verified s ≡ false
    → is_verified t ≡ true
    → is_verifying t ≡ true
unfolding can_transition WorkflowState-discrete
verified_entry s t h a b = ground arith

screened_entry :
    (s t : WorkflowState)
    → can_transition s t ≡ true
    → is_screened s ≡ false
    → is_screened t ≡ true
    → is_screening t ≡ true
unfolding can_transition WorkflowState-discrete
screened_entry s t h a b = ground arith

executed_entry :
    (s t : WorkflowState)
    → can_transition s t ≡ true
    → is_executed s ≡ false
    → is_executed t ≡ true
    → is_executing_or_attended t ≡ true
unfolding can_transition WorkflowState-discrete
executed_entry s t h a b = ground arith

-- A history from RECEIVED that ends in COMPLETED goes through SCREENING and through VERIFYING, and
-- through EXECUTING or NEEDS_ATTENTION.
pub completed-history :
    (ts : List WorkflowState)
    → follows received ts ≡ true
    → last received ts ≡ completed
    → (any is_screening ts ≡ true)
      × (any is_verifying ts ≡ true)
      × (any is_executing_or_attended ts ≡ true)
completed-history ts f e = (
  passes_gate is_screened is_screening screened_entry received ts refl f (ap is_screened e),
  passes_gate is_verified is_verifying verified_entry received ts refl f (ap is_verified e),
  passes_gate is_executed is_executing_or_attended executed_entry received ts refl f
      (ap is_executed e),
)

-- A way from a state to COMPLETED, where there is one.
abbrev pub route : WorkflowState → List WorkflowState
route verifying = completed ∷ []
route executing = verifying ∷ completed ∷ []
route needs_attention = verifying ∷ completed ∷ []
route rolling_back = needs_attention ∷ verifying ∷ completed ∷ []
route WorkflowState.approved = executing ∷ verifying ∷ completed ∷ []
route awaiting_approval = WorkflowState.approved ∷ executing ∷ verifying ∷ completed ∷ []
route plan_ready =
    awaiting_approval ∷ WorkflowState.approved ∷ executing ∷ verifying ∷ completed ∷ []
route analyzing =
    plan_ready ∷ awaiting_approval ∷ WorkflowState.approved ∷ executing ∷ verifying ∷ completed ∷ []
route WorkflowState.rejected =
    analyzing ∷ plan_ready ∷ awaiting_approval ∷ WorkflowState.approved ∷ executing ∷ verifying
    ∷ completed ∷ []
route screening =
    analyzing ∷ plan_ready ∷ awaiting_approval ∷ WorkflowState.approved ∷ executing ∷ verifying
    ∷ completed ∷ []
route blocked = needs_attention ∷ verifying ∷ completed ∷ []
route received =
    screening ∷ analyzing ∷ plan_ready ∷ awaiting_approval ∷ WorkflowState.approved ∷ executing
    ∷ verifying ∷ completed ∷ []
route _ = []

-- No state but the terminal ones is a dead end: from each other state the table has a way to
-- COMPLETED.
pub completed-reachable :
    (s : WorkflowState)
    → is_terminal s ≡ false
    → (ts : List WorkflowState) × (follows s ts ≡ true) × (last s ts ≡ completed)
unfolding follows can_transition WorkflowState-discrete
completed-reachable s h = (route s, ground arith, ground arith)
