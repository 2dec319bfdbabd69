-- ===== src/Runtime/Observation.antt =====
-- The blocks for evidence and mission relations of `inspectSmppRuntimeSemantic`.
use smpp_telemetry_platform.Base.{
  ℕ, String, Bool, true, false, not, ◌&&◌, Option, none, some, [], ◌∷◌, ◌++◌, str_eq, if◌then◌else◌,
}
use smpp_telemetry_platform.Base.Text.{sort, same_texts}
use smpp_telemetry_platform.Base.Result.{Result, ok, ◌>>=◌, ◌>>◌, require}
use smpp_telemetry_platform.Json.{Fields, str, get}
use smpp_telemetry_platform.Timestamp.{is_some}
use smpp_telemetry_platform.Runtime.Checks.{
  evidence_kinds, mission_statuses, string, optional_string, utc, string_array, enum_value, same,
  safe_at_least,
}
use smpp_telemetry_platform.Runtime.Semantic.{Readiness, Semantic, is_text, is_empty, ready}

-- `left !== right` on texts that may be null
unfoldable pub same_optional : Option String → Option String → Bool
same_optional none none = true
same_optional (some a) (some b) = str_eq a b
same_optional _ _ = false

module _ (date_parse : String → Option ℕ) (envelope attributes payload : Fields) where
  unfoldable pub inspect_evidence : Semantic → Result Semantic
  inspect_evidence s = do
    kind ←
        enum_value (get attributes "sdar.evidence.kind") evidence_kinds
          "SMPP_PROVIDER_EVIDENCE_KIND_INVALID"
    task_id ← string (get envelope "taskId") "SMPP_PROVIDER_EVIDENCE_TASK_ID_REQUIRED"
    execution ←
        string (get envelope "externalExecutionId") "SMPP_PROVIDER_EVIDENCE_EXECUTION_ID_REQUIRED"
    resource_id ← string (get envelope "resourceId") "SMPP_PROVIDER_EVIDENCE_RESOURCE_ID_REQUIRED"
    _ ← string (get envelope "providerId") "SMPP_PROVIDER_EVIDENCE_PROVIDER_ID_REQUIRED"
    _ ← string (get envelope "providerEventId") "SMPP_PROVIDER_EVIDENCE_RECORD_ID_REQUIRED"
    _ ←
        safe_at_least 0 (get envelope "providerEventSequence")
          "SMPP_PROVIDER_EVIDENCE_SEQUENCE_INVALID"
    observed_at ← utc date_parse (get envelope "occurredAt") "SMPP_PROVIDER_EVIDENCE_TIME_INVALID"
    mission ←
        optional_string (get attributes "sdar.device.mission_id") "SMPP_DEVICE_MISSION_ID_INVALID"
    require (not (is_some mission && not (str_eq kind "mission")))
        "SMPP_DEVICE_MISSION_KIND_INVALID"
    ok (record s {
      evidence = some (record {
        kind = kind;
        task_id = task_id;
        external_execution_id = execution;
        resource_id = resource_id;
        device_mission_id = mission;
        observed_at = observed_at;
      });
      capability_ids = s.capability_ids ++ "SMPP-PROVIDER-EVIDENCE" ∷ [];
      observed_at = some observed_at;
      readiness = ready;
    })

  -- `(a === 'exact') !== (b !== null)`, denied
  abbrev identity_matches : String → Option String → Bool
  identity_matches status mission =
      if str_eq status "exact" then is_some mission else not (is_some mission)

  mission_readiness : String → Readiness
  mission_readiness status =
      if str_eq status "exact"
      then ready
      else if str_eq status "conflict"
      then record { status = "conflict"; reason_codes = "SMPP_MISSION_CONFLICT" ∷ [] }
      else record { status = "not_ready"; reason_codes = "SMPP_MISSION_UNRESOLVED" ∷ [] }

  unfoldable pub inspect_mission_relation : Semantic → Result Semantic
  unfolding same_optional mission_readiness
  inspect_mission_relation s = do
    require
        (is_text (get attributes "sdar.fact.kind") "mission_relation"
          && is_text (get envelope "recordType") "provider.execution.progress"
          && is_text (get envelope "eventCategory") "execution.progress")
        "SMPP_MISSION_RELATION_FAMILY_INVALID"
    task_id ← string (get envelope "taskId") "SMPP_MISSION_RELATION_TASK_ID_REQUIRED"
    execution ←
        string (get envelope "externalExecutionId") "SMPP_MISSION_RELATION_EXECUTION_ID_REQUIRED"
    status ←
        enum_value (get attributes "sdar.mission.relation_status") mission_statuses
          "SMPP_MISSION_RELATION_STATUS_INVALID"
    mission ←
        optional_string (get attributes "sdar.device.mission_id") "SMPP_DEVICE_MISSION_ID_INVALID"
    payload_status ←
        enum_value (get payload "relationStatus") mission_statuses
          "SMPP_MISSION_RELATION_STATUS_INVALID"
    require (str_eq payload_status status) "SMPP_MISSION_RELATION_STATUS_MISMATCH"
    payload_mission ←
        optional_string (get payload "deviceMissionId") "SMPP_DEVICE_MISSION_ID_INVALID"
    require (same_optional payload_mission mission) "SMPP_DEVICE_MISSION_ID_MISMATCH"
    require (identity_matches status mission) "SMPP_MISSION_RELATION_IDENTITY_INVALID"
    refs ←
        string_array (get attributes "sdar.mission.source_record_refs")
          "SMPP_MISSION_SOURCE_REFS_INVALID"
    require (not (str_eq status "exact" && is_empty refs)) "SMPP_MISSION_SOURCE_REFS_REQUIRED"
    payload_refs ← string_array (get payload "sourceRecordRefs") "SMPP_MISSION_SOURCE_REFS_INVALID"
    require (same_texts (sort payload_refs) (sort refs)) "SMPP_MISSION_SOURCE_REFS_MISMATCH"
    observed_at ← utc date_parse (get payload "observedAt") "SMPP_MISSION_RELATION_TIME_INVALID"
    same (str observed_at) (get envelope "occurredAt") "SMPP_MISSION_RELATION_TIME_MISMATCH"
    ok (record s {
      mission_relation = some (record {
        task_id = task_id;
        external_execution_id = execution;
        relation_status = status;
        device_mission_id = mission;
        source_record_refs = refs;
        observed_at = observed_at;
      });
      capability_ids = s.capability_ids ++ "SMPP-MISSION-RELATION" ∷ [];
      observed_at = some observed_at;
      readiness = mission_readiness status;
    })
