-- ===== src/Gateway/QuotaExamples.antt =====
-- The theorems on quotas at a concrete tenant and tool.
use enterprise_change_ops.Base.{◌≡◌, ◌≤◌, refl, string_eq, pair_eq, [], ◌∷◌}
use enterprise_change_ops.Base.Dict.{lookup, insert}
use enterprise_change_ops.Gateway.Quota.{
  pos, Key, active, held, enter, Reachable, started, entered, Reachable-counted,
}

-- A second body is refused where the maximum is one.
abbrev crm : Key
crm = ("acme", "crm.update_field_mapping")

one_inside : Reachable 1 ((crm, pos 1) ∷ []) (crm ∷ [])
unfolding enter lookup insert
one_inside = entered crm [] ((crm, pos 1) ∷ []) [] started refl

Reachable-counted_example :
    (active crm ((crm, pos 1) ∷ []) ≡ pos (held crm (crm ∷ []))) × (held crm (crm ∷ []) ≤ 1)
Reachable-counted_example = Reachable-counted 1 crm ((crm, pos 1) ∷ []) (crm ∷ []) one_inside
