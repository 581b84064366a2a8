-- ===== src/Coordinator/Retry.antt =====
-- `RetryPolicy` of services/workflow-coordinator/src/changeops_workflow_coordinator/retry.py, as far
-- as it decides whether to try again.
use enterprise_change_ops.Base.{ℕ, String, Bool, ◌&&◌, ltb, if◌then◌else◌, Result, ok, err}

pub record RetryPolicy : Type 0 where
  pub maximum_attempts : ℕ

-- The check of the constructor on the number of attempts.
unfoldable pub make_policy : ℕ → Result String RetryPolicy
make_policy maximum_attempts =
    if ltb maximum_attempts 1
    then err "maximum_attempts must be positive"
    else ok (record { maximum_attempts = maximum_attempts })

unfoldable pub should_retry : RetryPolicy → Bool → ℕ → Bool
should_retry policy transient attempt = transient && ltb attempt policy.maximum_attempts
