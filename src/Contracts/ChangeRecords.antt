-- ===== src/Contracts/ChangeRecords.antt =====
-- `ChangeRecord.validate_state_and_timestamps` of
-- packages/contracts-python/src/changeops_contracts/models.py. What pydantic checks of a single
-- text field is taken to hold of every text that reaches the model.
use enterprise_change_ops.Base.{String, ltb, ◌/=◌, Result, ok, err, if◌then◌else◌}
use enterprise_change_ops.Contracts.Enums.{state_eq}
use enterprise_change_ops.Contracts.Models.{ChangeRecord}

unfoldable pub validate_state_and_timestamps : ChangeRecord → Result String ChangeRecord
validate_state_and_timestamps r =
    if r.current_phase /= r.status
    then err "current_phase must match status"
    else if ltb r.updated_at r.created_at
    then err "updated_at cannot be earlier than created_at"
    else ok r
