-- ===== src/Runtime/Recovery.antt =====
-- The blocks for dispatch uncertainty and reconciliation of `inspectSmppRuntimeSemantic`.
use smpp_telemetry_platform.Base.{
  ℕ, String, false, not, ◌&&◌, Option, some, List, [], ◌∷◌, ◌++◌, str_eq, if◌then◌else◌,
}
use smpp_telemetry_platform.Base.Result.{Result, ok, ◌>>=◌, ◌>>◌, require}
use smpp_telemetry_platform.Json.{Value, Fields, undefined, bool, str, get, strict_eq}
use smpp_telemetry_platform.Runtime.Checks.{
  uncertainty_classes, reconciliation_statuses, string, utc, string_array, enum_value, same,
  safe_at_least, boolean, common_task_identity, external_execution_identity, committed_runtime,
}
use smpp_telemetry_platform.Runtime.Semantic.{Semantic, is_text, ready}

unfoldable pub causal_refs : Value → Result (List String)
causal_refs undefined = ok []
causal_refs v = string_array v "SMPP_DISPATCH_UNCERTAINTY_CAUSAL_REFS_INVALID"

module _ (date_parse : String → Option ℕ) (envelope attributes payload : Fields) where
  unfoldable pub inspect_uncertainty : Semantic → Result Semantic
  unfolding causal_refs
  inspect_uncertainty s = do
    require
        (is_text (get attributes "semantic") "dispatch.uncertainty"
          && is_text (get payload "schemaVersion") "sdar.smpp-dispatch-uncertainty/v1"
          && is_text (get envelope "recordType") "provider.recovery.lifecycle"
          && is_text (get envelope "eventCategory") "recovery.lifecycle"
          && committed_runtime envelope attributes)
        "SMPP_DISPATCH_UNCERTAINTY_AUTHORITY_INVALID"
    task_id ← common_task_identity envelope payload
    occurred_at ← utc date_parse (get payload "occurredAt") "SMPP_DISPATCH_UNCERTAINTY_TIME_INVALID"
    same (str occurred_at) (get envelope "occurredAt") "SMPP_DISPATCH_UNCERTAINTY_TIME_MISMATCH"
    require (strict_eq (get payload "redispatchAllowed") (bool false))
        "SMPP_DISPATCH_UNCERTAINTY_REDISPATCH_FORBIDDEN"
    operation_name ← string (get payload "operationName") "SMPP_RUNTIME_OPERATION_REQUIRED"
    argument_hash ← string (get payload "argumentHash") "SMPP_RUNTIME_ARGUMENT_HASH_REQUIRED"
    uncertainty_class ←
        enum_value (get payload "uncertaintyClass") uncertainty_classes
          "SMPP_DISPATCH_UNCERTAINTY_CLASS_INVALID"
    refs ← causal_refs (get payload "causalRefs")
    ok (record s {
      uncertainty = some (record {
        task_id = task_id;
        operation_name = operation_name;
        argument_hash = argument_hash;
        uncertainty_class = uncertainty_class;
        redispatch_allowed = false;
        occurred_at = occurred_at;
        causal_refs = refs;
      });
      capability_ids = s.capability_ids ++ "SMPP-DISPATCH-UNCERTAINTY" ∷ [];
      observed_at = some occurred_at;
      readiness = record { status = "not_ready"; reason_codes = "SMPP_DISPATCH_UNCERTAIN" ∷ [] };
    })

  -- `SMPP_RECONCILIATION_${status.toUpperCase()}` at the statuses that reach it
  reconciliation_reason : String → String
  reconciliation_reason status =
      if str_eq status "not_found"
      then "SMPP_RECONCILIATION_NOT_FOUND"
      else if str_eq status "transient_unavailable"
      then "SMPP_RECONCILIATION_TRANSIENT_UNAVAILABLE"
      else "SMPP_RECONCILIATION_DEFERRED"

  -- the binding and the readiness that a reconciliation's status gives
  reconciled : String → String → Option String → Semantic → Semantic
  unfolding reconciliation_reason
  reconciled status task_id execution s =
      if str_eq status "found"
      then (record s {
        binding = some (record {
          task_id = task_id;
          external_execution_id = execution;
          binding_source = "smpp_runtime_reconciliation_found";
        });
        readiness = ready;
      })
      else if str_eq status "conflict"
      then (record s {
        readiness = record {
          status = "conflict";
          reason_codes = "SMPP_RECONCILIATION_CONFLICT" ∷ [];
        };
      })
      else (record s {
        readiness = record {
          status = "not_ready";
          reason_codes = reconciliation_reason status ∷ [];
        };
      })

  unfoldable pub inspect_reconciliation : Semantic → Result Semantic
  unfolding reconciled
  inspect_reconciliation s = do
    require
        (is_text (get attributes "semantic") "task.reconciliation"
          && is_text (get payload "schemaVersion") "sdar.smpp-reconciliation-result/v1"
          && is_text (get envelope "recordType") "provider.recovery.lifecycle"
          && is_text (get envelope "eventCategory") "recovery.lifecycle"
          && committed_runtime envelope attributes)
        "SMPP_RECONCILIATION_AUTHORITY_INVALID"
    task_id ← common_task_identity envelope payload
    status ←
        enum_value (get payload "status") reconciliation_statuses
          "SMPP_RECONCILIATION_STATUS_INVALID"
    attempt ← safe_at_least 1 (get payload "attempt") "SMPP_RECONCILIATION_ATTEMPT_INVALID"
    execution ← external_execution_identity envelope payload (str_eq status "found")
    validated ←
        boolean (get payload "identityValidated") "SMPP_RECONCILIATION_IDENTITY_VALIDATION_REQUIRED"
    require (not (str_eq status "found" && not validated))
        "SMPP_RECONCILIATION_FOUND_IDENTITY_INVALID"
    occurred_at ← utc date_parse (get payload "occurredAt") "SMPP_RECONCILIATION_TIME_INVALID"
    same (str occurred_at) (get envelope "occurredAt") "SMPP_RECONCILIATION_TIME_MISMATCH"
    ok (
        reconciled status task_id execution (record s {
          reconciliation = some (record {
            task_id = task_id;
            attempt = attempt;
            status = status;
            external_execution_id = execution;
            identity_validated = validated;
            occurred_at = occurred_at;
          });
          capability_ids = s.capability_ids ++ "SMPP-TASK-RECONCILIATION" ∷ [];
          observed_at = some occurred_at;
        }))
