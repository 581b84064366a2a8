-- ===== src/Policy/Registry.antt =====
-- packages/policy-engine/src/changeops_policy_engine/registry.py.
use enterprise_change_ops.Base.{
  String, string_eq, true, nat_eqb, if◌then◌else◌, Option, List, [], ◌∷◌, length, Result, ok, err,
}
use enterprise_change_ops.Base.Dict.{Dict, lookup, insert}
use enterprise_change_ops.Contracts.Enums.{high, sandbox}
use enterprise_change_ops.Policy.Models.{ToolRegistration}

pub record ToolRegistry : Type 0 where
  pub by_name : Dict String ToolRegistration

-- `{registration.tool_name: registration for registration in registrations}`
abbrev index_by_name :
    List ToolRegistration → Dict String ToolRegistration → Dict String ToolRegistration
index_by_name [] d = d
index_by_name (r ∷ rs) d = index_by_name rs (insert r.tool_name r d)

unfoldable pub make_registry : List ToolRegistration → Result String ToolRegistry
make_registry registrations =
    let by_name = index_by_name registrations [] in
    if nat_eqb (length by_name) (length registrations)
    then ok (record { by_name = by_name })
    else err "tool registry names must be unique"

unfoldable pub get : ToolRegistry → String → Option ToolRegistration
get registry tool_name = lookup tool_name registry.by_name

abbrev registration : String → String → String → String → ToolRegistration
registration tool_name owning_agent_id resource_pattern policy_id = record {
  tool_name = tool_name;
  owning_agent_id = owning_agent_id;
  action = "update";
  resource_pattern = resource_pattern;
  risk_level = high;
  mutating = true;
  allowed_environments = sandbox ∷ [];
  policy_ids = policy_id ∷ [];
  timeout_seconds = 10_000_000;
}

abbrev pub default_registrations : List ToolRegistration
default_registrations =
    registration "crm.update_field_mapping" "crm" "crm://tenant/{tenant_id}/configuration/*"
      "crm-sandbox-write-v1"
    ∷ registration "analytics.update_field_mapping" "analytics"
        "analytics://tenant/{tenant_id}/configuration/*" "analytics-sandbox-write-v1"
    ∷ registration "support.update_lookup_field" "support"
        "support://tenant/{tenant_id}/configuration/*" "support-sandbox-write-v1"
    ∷ []

unfoldable pub build_default_tool_registry : Result String ToolRegistry
unfolding make_registry
build_default_tool_registry = make_registry default_registrations
