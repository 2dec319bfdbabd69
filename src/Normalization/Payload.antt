-- ===== src/Normalization/Payload.antt =====
-- `sourcePayload` of smpp-provider-ops-v1.ts: the payload of a fact, with the inspected semantics.
pub mod Read
pub mod Kept
use smpp_telemetry_platform.Base.{
  ℕ, ◌≡◌, ◌⊎◌, refl, sym, ap, ◌∙◌, subst, String, Bool, true, false, ◌||◌, Option, none, some, List,
  [], ◌∷◌, str_eq, eq_iff, if◌then◌else◌, Bool-cases, inl, inr,
}
use smpp_telemetry_platform.Base.Text.{one_of}
use smpp_telemetry_platform.Json.{
  Value, Number, Items, Fields, undefined, null, bool, num, pos, str, arr, obj, nil, cons, end,
  field, get, coalesce, is_undefined,
}
use smpp_telemetry_platform.Canonical.Hash.{set}
use smpp_telemetry_platform.Runtime.Semantic.{
  Semantic, Uncertainty, Reconciliation, BusinessTerminal, Evidence, MissionRelation, Readiness,
}

-- `LINEAGE_FIELDS`
abbrev pub lineage_fields : List String
lineage_fields =
    "providerId" ∷ "runtimeVersion" ∷ "instanceId" ∷ "taskId" ∷ "resourceId" ∷ "resourceType"
    ∷ "externalExecutionId" ∷ "operationName" ∷ "correlationId" ∷ "traceId" ∷ "spanId"
    ∷ "providerEventId" ∷ "providerEventSequence" ∷ "eventType" ∷ "executionMode" ∷ "simulationId"
    ∷ "argumentHash" ∷ "authorizationContextHash" ∷ "adapterRevision" ∷ "observationRevision"
    ∷ "commandSequence" ∷ "recordType" ∷ "eventCategory" ∷ "deliveryClass" ∷ "occurredAt"
    ∷ "emittedAt" ∷ []

abbrev pub text_or_null : Option String → Value
text_or_null none = null
text_or_null (some text) = str text

abbrev pub texts : List String → Items
texts [] = nil
texts (t ∷ ts) = cons (str t) (texts ts)

-- the objects of the semantics, with the keys of `RuntimeSemantic`
unfoldable pub uncertainty_value : Option Uncertainty → Value
uncertainty_value none = null
uncertainty_value (some u) = obj (
    field "taskId" (str u.task_id) (
      field "operationName" (str u.operation_name) (
        field "argumentHash" (str u.argument_hash) (
          field "uncertaintyClass" (str u.uncertainty_class) (
            field "redispatchAllowed" (bool u.redispatch_allowed) (
              field "occurredAt" (str u.occurred_at)
                (field "causalRefs" (arr (texts u.causal_refs)) end)))))))

unfoldable pub reconciliation_value : Option Reconciliation → Value
reconciliation_value none = null
reconciliation_value (some r) = obj (
    field "taskId" (str r.task_id) (
      field "attempt" (num (pos r.attempt)) (
        field "status" (str r.status) (
          field "externalExecutionId" (text_or_null r.external_execution_id) (
            field "identityValidated" (bool r.identity_validated)
              (field "occurredAt" (str r.occurred_at) end))))))

unfoldable pub terminal_value : Option BusinessTerminal → Value
terminal_value none = null
terminal_value (some t) = obj (
    field "taskId" (str t.task_id) (
      field "mcpTaskStatus" (str t.mcp_task_status) (
        field "businessStatus" (str t.business_status) (
          field "transportStatus" (str t.transport_status) (
            field "providerExecutionStatus" (str t.provider_execution_status)
              (field "isError" (bool t.is_error) end))))))

unfoldable pub evidence_value : Option Evidence → Value
evidence_value none = null
evidence_value (some e) = obj (
    field "kind" (str e.kind) (
      field "taskId" (str e.task_id) (
        field "externalExecutionId" (str e.external_execution_id) (
          field "resourceId" (str e.resource_id) (
            field "deviceMissionId" (text_or_null e.device_mission_id)
              (field "observedAt" (str e.observed_at) end))))))

unfoldable pub mission_value : Option MissionRelation → Value
mission_value none = null
mission_value (some m) = obj (
    field "taskId" (str m.task_id) (
      field "externalExecutionId" (str m.external_execution_id) (
        field "relationStatus" (str m.relation_status) (
          field "deviceMissionId" (text_or_null m.device_mission_id) (
            field "sourceRecordRefs" (arr (texts m.source_record_refs))
              (field "observedAt" (str m.observed_at) end))))))

abbrev pub readiness_value : Readiness → Value
readiness_value r =
    obj (field "status" (str r.status) (field "reasonCodes" (arr (texts r.reason_codes)) end))

-- `runtimeSemantic`, without the binding and the time
unfoldable pub semantic_value : Semantic → Value
unfolding uncertainty_value reconciliation_value terminal_value evidence_value mission_value
semantic_value s = obj (
    field "capabilityIds" (arr (texts s.capability_ids)) (
      field "readiness" (readiness_value s.readiness) (
        field "uncertainty" (uncertainty_value s.uncertainty) (
          field "reconciliation" (reconciliation_value s.reconciliation) (
            field "businessTerminal" (terminal_value s.business_terminal) (
              field "evidence" (evidence_value s.evidence)
                (field "missionRelation" (mission_value s.mission_relation) end)))))))

-- the loop over `LINEAGE_FIELDS`
unfoldable pub copy_fields : Fields → List String → Fields → Fields
copy_fields envelope [] payload = payload
copy_fields envelope (key ∷ keys) payload =
    copy_fields envelope keys
      (if is_undefined (get envelope key) then payload else set key (get envelope key) payload)

unfoldable pub source_payload : Fields → Semantic → Fields
unfolding copy_fields semantic_value
source_payload envelope semantic = copy_fields envelope lineage_fields (
    field "attributes" (coalesce (get envelope "attributes") (obj end)) (
      field "payload" (coalesce (get envelope "payload") null)
        (field "runtimeSemantic" (semantic_value semantic) end)))
