-- ===== src/Contracts/Equality.antt =====
-- Python's `==` on records of packages/contracts-python/src/changeops_contracts/models.py, field by
-- field.
use enterprise_change_ops.Base.{
  String, string_eq, nat_eq, list_eq, option_eq, Bool, true, false, ◌&&◌, ◌==◌, List, [], ◌∷◌,
  nat_eqb, ◌≡◌, ◌↔◌, arith, list_eqb_iff,
}
use enterprise_change_ops.Contracts.Json.{fields_eqb}
use enterprise_change_ops.Contracts.Enums.{risk_eq, environment_eq, decision_eq, UserRole, role_eq}
use enterprise_change_ops.Contracts.Models.{RemediationStep, RemediationPlan, Approval}

abbrev xor_free : Bool → Bool → Bool
xor_free true b = b
xor_free false true = false
xor_free false false = true

unfoldable pub step_eqb : RemediationStep → RemediationStep → Bool
step_eqb a b =
    a.step_id == b.step_id
    && (nat_eqb a.order b.order
        && (a.agent_id == b.agent_id
            && (a.tool_name == b.tool_name
                && (a.resource == b.resource
                    && (fields_eqb a.arguments b.arguments
                        && (a.depends_on == b.depends_on
                            && (a.risk_level == b.risk_level
                                && (xor_free a.requires_approval b.requires_approval
                                    && (a.idempotency_key == b.idempotency_key)))))))))

abbrev steps_eqb : List RemediationStep → List RemediationStep → Bool
steps_eqb [] [] = true
steps_eqb (a ∷ xs) (b ∷ ys) = step_eqb a b && steps_eqb xs ys
steps_eqb _ _ = false

unfoldable pub plan_eqb : RemediationPlan → RemediationPlan → Bool
unfolding step_eqb
plan_eqb a b =
    a.plan_id == b.plan_id
    && (a.tenant_id == b.tenant_id
        && (a.change_id == b.change_id
            && (nat_eqb a.version b.version
                && (a.risk_level == b.risk_level
                    && (a.summary == b.summary
                        && (a.preconditions == b.preconditions
                            && (steps_eqb a.steps b.steps
                                && (a.verification_steps == b.verification_steps
                                    && (a.rollback_steps == b.rollback_steps
                                        && (a.evidence_refs == b.evidence_refs
                                            && nat_eqb a.created_at b.created_at))))))))))

unfoldable pub approval_eqb : Approval → Approval → Bool
approval_eqb a b =
    a.approval_id == b.approval_id
    && (a.tenant_id == b.tenant_id
        && (a.change_id == b.change_id
            && (a.plan_id == b.plan_id
                && (a.plan_hash == b.plan_hash
                    && (nat_eqb a.plan_version b.plan_version
                        && (a.environment == b.environment
                            && (a.decision == b.decision
                                && (a.scope == b.scope
                                    && (a.approved_by == b.approved_by
                                        && (a.approved_by_roles == b.approved_by_roles
                                            && (nat_eqb a.approved_at b.approved_at
                                                && (nat_eqb a.expires_at b.expires_at
                                                    && a.comment == b.comment))))))))))))

text_lists_iff : (p q : List String) → ((p == q) ≡ true) ↔ (p ≡ q)
text_lists_iff = list_eqb_iff

role_lists_iff : (p q : List UserRole) → ((p == q) ≡ true) ↔ (p ≡ q)
role_lists_iff = list_eqb_iff

-- Two approvals that the test finds equal are equal.
pub approval_eqb_sound : (a b : Approval) → approval_eqb a b ≡ true → a ≡ b
unfolding approval_eqb
approval_eqb_sound a b h = ground (
  arith,
  string_eq.same_iff a.approval_id b.approval_id,
  string_eq.same_iff a.tenant_id b.tenant_id,
  string_eq.same_iff a.change_id b.change_id,
  string_eq.same_iff a.plan_id b.plan_id,
  string_eq.same_iff a.plan_hash b.plan_hash,
  environment_eq.same_iff a.environment b.environment,
  decision_eq.same_iff a.decision b.decision,
  text_lists_iff a.scope b.scope,
  string_eq.same_iff a.approved_by b.approved_by,
  role_lists_iff a.approved_by_roles b.approved_by_roles,
  string_eq.same_iff a.comment b.comment,
)
