-- ===== src/Runtime/Closure.antt =====
-- The blocks for the business terminal and for the binding of a committed task of
-- `inspectSmppRuntimeSemantic`.
use smpp_telemetry_platform.Base.{
  Bool, true, not, ◌&&◌, Option, none, some, [], ◌∷◌, ◌++◌, str_eq, if◌then◌else◌,
}
use smpp_telemetry_platform.Base.Result.{Result, ok, ◌>>=◌, ◌>>◌, require}
use smpp_telemetry_platform.Json.{Fields, get, truthy}
use smpp_telemetry_platform.Runtime.Checks.{
  mcp_task_statuses, business_statuses, transport_statuses, string, enum_value, boolean,
  common_task_identity, committed_runtime,
}
use smpp_telemetry_platform.Runtime.Semantic.{
  Binding, Reconciliation, Semantic, is_text, ready, is_uncertainty, is_reconciliation,
}

module _ (envelope attributes payload : Fields) where
  unfoldable pub inspect_business_terminal : Semantic → Result Semantic
  inspect_business_terminal s = do
    require
        (is_text (get envelope "recordType") "provider.task.lifecycle"
          && committed_runtime envelope attributes)
        "SMPP_BUSINESS_TERMINAL_AUTHORITY_INVALID"
    task_id ← common_task_identity envelope payload
    mcp ← enum_value (get payload "mcpTaskStatus") mcp_task_statuses "SMPP_MCP_TASK_STATUS_INVALID"
    business ←
        enum_value (get payload "businessStatus") business_statuses "SMPP_BUSINESS_STATUS_INVALID"
    transport ←
        enum_value (get payload "transportStatus") transport_statuses
          "SMPP_TRANSPORT_STATUS_INVALID"
    provider ←
        string (get payload "providerExecutionStatus") "SMPP_PROVIDER_EXECUTION_STATUS_INVALID"
    is_error ← boolean (get payload "isError") "SMPP_BUSINESS_IS_ERROR_INVALID"
    require (if str_eq business "failed" then is_error else not is_error)
        "SMPP_BUSINESS_IS_ERROR_MISMATCH"
    ok (record s {
      business_terminal = some (record {
        task_id = task_id;
        mcp_task_status = mcp;
        business_status = business;
        transport_status = transport;
        provider_execution_status = provider;
        is_error = is_error;
      });
      capability_ids = s.capability_ids ++ "SMPP-BUSINESS-TERMINAL" ∷ [];
    })

  -- `result.reconciliation?.status !== 'found'`
  abbrev not_found : Option Reconciliation → Bool
  not_found none = true
  not_found (some r) = not (str_eq r.status "found")

  -- the test of the last block
  unfoldable pub closes_identity : Semantic → Bool
  closes_identity s =
      committed_runtime envelope attributes
      && truthy (get envelope "taskId")
      && truthy (get envelope "externalExecutionId")
      && not (is_uncertainty attributes payload)
      && not (is_reconciliation attributes payload && not_found s.reconciliation)

  -- `result.binding ??= binding`
  abbrev bind_once : Option Binding → Binding → Option Binding
  bind_once none b = some b
  bind_once (some old) b = some old

  unfoldable pub close_identity : Semantic → Result Semantic
  close_identity s = do
    task_id ← string (get envelope "taskId") "SMPP_RUNTIME_TASK_ID_REQUIRED"
    execution ← string (get envelope "externalExecutionId") "SMPP_RUNTIME_EXECUTION_ID_REQUIRED"
    ok (record s {
      binding = bind_once s.binding (record {
        task_id = task_id;
        external_execution_id = some execution;
        binding_source = "smpp_runtime_committed_binding";
      });
      capability_ids =
          s.capability_ids ++ "SMPP-TASK-IDENTITY-CLOSURE" ∷ "SMPP-TASK-IDEMPOTENCY" ∷ [];
      readiness = if str_eq s.readiness.status "not_required" then ready else s.readiness;
    })
