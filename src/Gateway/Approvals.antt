-- ===== src/Gateway/Approvals.antt =====
-- Decisions on approval requests
-- (services/tool-gateway/src/changeops_tool_gateway/repository.py, `decide_approval`).
use enterprise_change_ops.Base.{
  ◌<◌, String, string_eq, pair_eq, true, ◌≡◌, ◌≢◌, ◌↔◌, list_eq, some, List, same_refl, subst, ◌∙◌,
  arith, Result, ok, err, ◌==◌,
}
use enterprise_change_ops.Base.Dict.{lookup, insert, lookup-insert}
use enterprise_change_ops.Contracts.Enums.{UserRole, role_eq}
use enterprise_change_ops.Gateway.Models.{
  ApprovalRequestStatus-discrete, pending, request_status_eq, ApprovalRequestRecord,
}
use enterprise_change_ops.Gateway.Errors.{GatewayError, conflict}
use enterprise_change_ops.Gateway.Repository.{
  Store, DecisionRequest, decision, decide_approval, same_approval_decision,
}

-- The state with the decision stored.
abbrev pub decided_store : String → String → ApprovalRequestRecord → DecisionRequest → Store → Store
decided_store t i current q s = record s {
  approvals = insert (t, i) (decision current q) s.approvals;
}

-- What the outcome of a decision on a pending request says.
abbrev pub Decides :
    String
    → String
    → DecisionRequest
    → Store
    → ApprovalRequestRecord
    → Result GatewayError ApprovalRequestRecord × Store
    → Type 0
Decides t i q s current (ok r, s') =
    (r ≡ decision current q)
    × (s' ≡ decided_store t i current q s)
    × (q.decided_by ≢ current.requested_by)
    × (q.decided_at < current.expires_at)
    × (current.version ≡ q.expected_version)
    × (q.target ≢ pending)
Decides t i q s current (err e, s') = s' ≡ s

-- A decision on a pending request is made only by somebody else than the requester, before the
-- request expires, against the current version, and for a target that is a decision. Then the
-- request is stored as decided, with the next version. Otherwise the call raises and nothing
-- changes.
pub decide_approval-Decides :
    (t i : String) (q : DecisionRequest) (s : Store) (current : ApprovalRequestRecord)
    → lookup (t, i) s.approvals ≡ some current
    → current.status ≡ pending
    → Decides t i q s current (decide_approval t i q s)
unfolding decide_approval ApprovalRequestStatus-discrete
decide_approval-Decides t i q s current found p =
    ground (arith, string_eq.same_iff current.requested_by q.decided_by)

roles_iff : (roles roles' : List UserRole) → ((roles == roles') ≡ true) ↔ (roles ≡ roles')
roles_iff roles roles' = (list_eq ⦃e = role_eq⦄).same_iff roles roles'

decided_found :
    (t i : String) (current : ApprovalRequestRecord) (q : DecisionRequest) (s : Store)
    → lookup (t, i) (decided_store t i current q s).approvals ≡ some (decision current q)
decided_found t i current q s =
    lookup-insert (t, i) (t, i) (decision current q) s.approvals ∙ rw (same_refl t, same_refl i)

-- Two decisions are the same one: the target, who decides in which roles, the comment and the
-- version that they expect.
abbrev pub IsSameDecision : DecisionRequest → DecisionRequest → Type 0
IsSameDecision q q' =
    (q'.target ≡ q.target)
    × (q'.expected_version ≡ q.expected_version)
    × (q'.decided_by ≡ q.decided_by)
    × (q'.decided_by_roles ≡ q.decided_by_roles)
    × (q'.comment ≡ q.comment)

-- What a later decision on a decided request gives.
abbrev pub Answers :
    DecisionRequest
    → DecisionRequest
    → Store
    → ApprovalRequestRecord
    → Result GatewayError ApprovalRequestRecord × Store
    → Type 0
Answers q q' s r (ok answer, s') = (answer ≡ r) × (s' ≡ s) × IsSameDecision q q'
Answers q q' s r (err e, s') =
    (e ≡ conflict "CONFLICT" "Approval request already has a final decision.")
    × (s' ≡ s)
    × ¬ IsSameDecision q q'

same_approval_decision_iff :
    (current : ApprovalRequestRecord) (q q' : DecisionRequest)
    → current.version ≡ q.expected_version
    → (same_approval_decision (decision current q) q' ≡ true) ↔ IsSameDecision q q'
unfolding same_approval_decision
same_approval_decision_iff current q q' v = ground (
  arith,
  request_status_eq.same_iff q.target q'.target,
  string_eq.same_iff q.decided_by q'.decided_by,
  string_eq.same_iff q.comment q'.comment,
  roles_iff q.decided_by_roles q'.decided_by_roles,
)

decided-Answers :
    (t i : String) (q q' : DecisionRequest) (s : Store) (current : ApprovalRequestRecord)
    → lookup (t, i) s.approvals ≡ some (decision current q)
    → q.target ≢ pending
    → current.version ≡ q.expected_version
    → Answers q q' s (decision current q) (decide_approval t i q' s)
unfolding decide_approval
decided-Answers t i q q' s current found n v =
    ground (
      arith,
      request_status_eq.same_iff q.target pending,
      same_approval_decision_iff current q q' v,
    )

-- A decision is final: after a decision on a pending request was stored, a later one is answered
-- with the stored request just where it is the same decision (target, version, who, roles and
-- comment), and any other raises that there is a final decision. The state stays as it is.
pub decide_approval-final :
    (t i : String) (q q' : DecisionRequest) (s s' : Store) (current r : ApprovalRequestRecord)
    → lookup (t, i) s.approvals ≡ some current
    → current.status ≡ pending
    → decide_approval t i q s ≡ (ok r, s')
    → Answers q q' s' r (decide_approval t i q' s')
decide_approval-final t i q q' s s' current r found p h =
    let facts =
      subst (Decides t i q s current) h (decide_approval-Decides t i q s current found p) in
    let stored : lookup (t, i) s'.approvals ≡ some (decision current q) =
      simp facts.1 (decided_found t i current q s) in
    rw facts.0 (decided-Answers t i q q' s' current stored facts.5 facts.4)
