-- ===== src/Gateway/Errors.antt =====
-- services/tool-gateway/src/changeops_tool_gateway/errors.py, as far as its repository and its
-- quotas raise them, with the errors of pydantic and of a missing dictionary key.
use enterprise_change_ops.Base.{String}

pub data GatewayError : Type 0 where
  authorization : String → GatewayError
  approval_required : GatewayError
  not_found : String → GatewayError
  -- the code, and the detail
  conflict : String → String → GatewayError
  validation_error : String → GatewayError
  runtime_error : String → GatewayError
  key_error : GatewayError
  rate_limited : GatewayError
