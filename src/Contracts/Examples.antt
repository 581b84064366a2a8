-- ===== src/Contracts/Examples.antt =====
-- The theorems on the contracts at the sample plan.
use enterprise_change_ops.Base.{◌≡◌, refl, inl, inr, [], ◌∷◌, ok}
use enterprise_change_ops.Contracts.Models.{RemediationStep}
use enterprise_change_ops.Contracts.Samples.{sample_plan, sample_step}
use enterprise_change_ops.Contracts.Plans.{validate_step_graph}
use enterprise_change_ops.Contracts.Plans.Progress.{IsReady, validate_step_graph-progress}

sample_plan_valid : validate_step_graph sample_plan ≡ ok sample_plan
unfolding validate_step_graph
sample_plan_valid = refl

validate_step_graph-progress_example :
    (ready : RemediationStep) × IsReady sample_plan.steps ("s1" ∷ []) ready
validate_step_graph-progress_example =
    validate_step_graph-progress sample_plan ("s1" ∷ []) (sample_step "s3" 3 ("s2" ∷ "s1" ∷ []))
      sample_plan_valid (inr (inr (inl refl))) refl
