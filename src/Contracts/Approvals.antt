-- ===== src/Contracts/Approvals.antt =====
-- `Approval.validate_expiration` of packages/contracts-python/src/changeops_contracts/models.py.
use enterprise_change_ops.Base.{
  String, not, leb, nat_eqb, any, contains, length, [], ◌∷◌, Result, ok, err, if◌then◌else◌,
}
use enterprise_change_ops.Base.Sets.{to_set}
use enterprise_change_ops.Contracts.Enums.{approver, platform_admin, role_eq}
use enterprise_change_ops.Contracts.Models.{Approval}

unfoldable pub validate_expiration : Approval → Result String Approval
validate_expiration a =
    if leb a.expires_at a.approved_at
    then err "approval expiration must be after the decision time"
    else if not (nat_eqb (length a.approved_by_roles) (length (to_set a.approved_by_roles)))
    then err "approved_by_roles values must be unique"
    else if not (any (λ r. contains a.approved_by_roles r) (approver ∷ platform_admin ∷ []))
    then err "approval requires an APPROVER or PLATFORM_ADMIN role"
    else ok a
