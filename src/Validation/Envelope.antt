-- ===== src/Validation/Envelope.antt =====
-- The checks of `validateEnvelope`, in their order, and the whole.
use smpp_telemetry_platform.Base.{
  ℕ, Bool, true, false, not, ◌&&◌, ◌||◌, String, List, [], ◌∷◌, all, str_eq, ltb, leb,
  if◌then◌else◌, Option, none, some,
}
use smpp_telemetry_platform.Base.Text.{codes, one_of}
use smpp_telemetry_platform.Base.Pattern.{matches, starts_with}
use smpp_telemetry_platform.Base.Result.{Done, err, ◌>>=◌, ◌>>◌, require}
use smpp_telemetry_platform.Json.{
  Value, Fields, undefined, null, num, str, obj, get, has_key, strict_eq, truthy, is_undefined, pos,
  max_safe,
}
use smpp_telemetry_platform.Timestamp.{valid_timestamp}
use smpp_telemetry_platform.Canonical.Hash.{record_hash}
use smpp_telemetry_platform.Correlation.{normalize_provider_correlation, fields_of}
use smpp_telemetry_platform.Runtime.Inspect.{inspect}
use smpp_telemetry_platform.Validation.{
  Host, allowed_types, allowed_event_categories, allowed_delivery_classes, expected_categories,
  uuid, hex_digits,
}
use smpp_telemetry_platform.Validation.Payload.{Limits, scan}

abbrev pub required_keys : List String
required_keys =
    "schemaName" ∷ "schemaVersion" ∷ "recordId" ∷ "recordHash" ∷ "recordType" ∷ "eventCategory"
    ∷ "deliveryClass" ∷ "providerId" ∷ "runtimeVersion" ∷ "instanceId" ∷ "occurredAt" ∷ "emittedAt"
    ∷ "attributes" ∷ "payload" ∷ []

abbrev pub source_keys : List String
source_keys = "providerId" ∷ "instanceId" ∷ "runtimeVersion" ∷ []

abbrev pub local_keys : List String
local_keys =
    "taskId" ∷ "resourceId" ∷ "externalExecutionId" ∷ "externalCommandId" ∷ "providerEventId" ∷ []

abbrev pub sequence_keys : List String
sequence_keys = "providerEventSequence" ∷ "observationRevision" ∷ "commandSequence" ∷ []

abbrev pub contract_keys : List String
contract_keys =
    "sdar.schema.name" ∷ "sdar.schema.version" ∷ "sdar.record.id" ∷ "sdar.record.hash" ∷ []

-- a string that is not empty
abbrev pub is_filled : Value → Bool
is_filled (str s) = not (str_eq s "")
is_filled _ = false

-- absent, or a string that is not empty
abbrev pub is_optional_text : Value → Bool
is_optional_text undefined = true
is_optional_text v = is_filled v

-- absent, or a safe integer that is not negative
abbrev pub is_optional_sequence : Value → Bool
is_optional_sequence undefined = true
is_optional_sequence (num (pos n)) = leb n max_safe
is_optional_sequence _ = false

abbrev pub is_record : Value → Bool
is_record (obj fields) = true
is_record _ = false

-- `=== undefined || === ''`
abbrev pub is_absent : Value → Bool
is_absent v = is_undefined v || strict_eq v (str "")

unfoldable pub find_category : String → List (String × String) → Option String
find_category t [] = none
find_category t (c ∷ cs) = if str_eq c.0 t then some c.1 else find_category t cs

abbrev pub is_business_event : String → Bool
is_business_event t = starts_with (codes "provider.business_event.") (codes t)

unfoldable pub or_business_event : String → Option String → Option String
or_business_event t (some category) = some category
or_business_event t none = if is_business_event t then some "business_event.lifecycle" else none

-- `expectedCategory`, with `none` for its null
unfoldable pub expected_category : String → Option String
unfolding find_category or_business_event
expected_category t = or_business_event t (find_category t expected_categories)

-- `expectedCategory === envelope.eventCategory`
abbrev pub is_category : Option String → Value → Bool
is_category none v = strict_eq v null
is_category (some category) v = strict_eq v (str category)

-- `<` on what `Date.parse` gives; NaN is not below anything
abbrev pub is_before : Option ℕ → Option ℕ → Bool
is_before (some a) (some b) = ltb a b
is_before _ _ = false

module _ (host : Host) where
  -- the header: names, versions, types and classes
  unfoldable pub check_header : Fields → Done
  check_header e = do
    require (all (has_key e) required_keys) "REQUIRED_FIELD_MISSING"
    require (strict_eq (get e "schemaName") (str "sdar.provider.ops.event")) "SCHEMA_NAME_INVALID"
    require (strict_eq (get e "schemaVersion") (str "1.1.0")) "SCHEMA_VERSION_UNSUPPORTED"
    require (matches uuid (host.text_of (get e "recordId"))) "RECORD_ID_INVALID"
    require (matches (hex_digits 64) (host.text_of (get e "recordHash"))) "RECORD_HASH_INVALID"
    require (one_of allowed_types (host.text_of (get e "recordType"))) "RECORD_TYPE_UNSUPPORTED"
    require (one_of allowed_event_categories (host.text_of (get e "eventCategory")))
        "EVENT_CATEGORY_UNSUPPORTED"
    require (one_of allowed_delivery_classes (host.text_of (get e "deliveryClass")))
        "DELIVERY_CLASS_UNSUPPORTED"

  -- the identities and sequences, where they are given
  unfoldable pub check_fields : Fields → Done
  check_fields e = do
    require (all (λ key. is_filled (get e key)) source_keys) "SOURCE_IDENTITY_MISSING"
    require (is_record (get e "attributes")) "ATTRIBUTES_NOT_OBJECT"
    require (all (λ key. is_optional_text (get e key)) local_keys) "PROVIDER_LOCAL_IDENTITY_INVALID"
    require (all (λ key. is_optional_sequence (get e key)) sequence_keys)
        "PROVIDER_SEQUENCE_INVALID"
    require
        (is_undefined (get e "traceId") || matches (hex_digits 32) (host.text_of (get e "traceId")))
        "TRACE_ID_INVALID"
    require
        (is_undefined (get e "spanId") || matches (hex_digits 16) (host.text_of (get e "spanId")))
        "SPAN_ID_INVALID"

  -- `Date.parse` of a value that is a text
  abbrev pub time_of : Value → Option ℕ
  time_of (str s) = host.date_parse s
  time_of _ = none

  abbrev pub is_time : Value → Bool
  is_time (str s) = valid_timestamp host.date_parse s
  is_time _ = false

  unfoldable pub check_times : Fields → Done
  check_times e = do
    require (is_time (get e "occurredAt") && is_time (get e "emittedAt")) "TIMESTAMP_INVALID"
    require (not (is_before (time_of (get e "emittedAt")) (time_of (get e "occurredAt"))))
        "SMPP_EVENT_TIME_INVALID"

  -- the category of the type, and the local identity that the type calls for
  unfoldable pub check_family : Fields → Done
  unfolding expected_category
  check_family e = do
    let t = get e "recordType"
    let payload = fields_of (get e "payload")
    require (is_category (expected_category (host.text_of t)) (get e "eventCategory"))
        "RECORD_EVENT_CATEGORY_MISMATCH"
    require (not (strict_eq t (str "provider.task.lifecycle") && not (truthy (get e "taskId"))))
        "PROVIDER_LOCAL_IDENTITY_MISSING"
    require
        (not (
          strict_eq t (str "provider.command.lifecycle")
          && not (truthy (get e "externalCommandId") || truthy (get payload "externalCommandId"))))
        "PROVIDER_LOCAL_IDENTITY_MISSING"
    require
        (not (
          starts_with (codes "provider.resource.") (codes (host.text_of t))
          && not (truthy (get e "resourceId"))))
        "PROVIDER_LOCAL_IDENTITY_MISSING"
    require
        (not (
          strict_eq t (str "provider.execution.progress")
          && not (truthy (get e "externalExecutionId"))))
        "PROVIDER_LOCAL_IDENTITY_MISSING"

  -- the attributes of the OTLP record against the envelope
  unfoldable pub check_contract : Fields → Fields → Done
  check_contract e otlp = do
    require (all (λ key. not (is_absent (get otlp key))) contract_keys)
        "OTLP_CONTRACT_ATTRIBUTE_MISSING"
    require (strict_eq (get otlp "sdar.schema.name") (get e "schemaName"))
        "OTLP_SCHEMA_NAME_MISMATCH"
    require (strict_eq (get otlp "sdar.schema.version") (get e "schemaVersion"))
        "OTLP_SCHEMA_VERSION_MISMATCH"
    require (strict_eq (get otlp "sdar.record.id") (get e "recordId")) "OTLP_RECORD_ID_MISMATCH"
    require (strict_eq (get otlp "sdar.record.hash") (get e "recordHash"))
        "OTLP_RECORD_HASH_MISMATCH"
    require
        (not (
          truthy (get otlp "telemetry.contract.version")
          && not (strict_eq (get otlp "telemetry.contract.version") (get e "schemaVersion"))))
        "OTLP_SCHEMA_VERSION_MISMATCH"

  -- The hash throws where the envelope has no canonical text; then validation throws too.
  unfoldable pub check_hash : Fields → Done
  check_hash e = record_hash host.printer host.sha256 e >>= λ h.
      require (strict_eq (str h) (get e "recordHash")) "RECORD_HASH_MISMATCH"

  unfoldable pub validate_envelope : Value → Fields → Limits → ℕ → Done
  unfolding check_header check_fields check_times check_family check_contract check_hash
  validate_envelope (obj e) otlp limits max_event_bytes = do
    check_header e
    check_fields e
    check_times e
    check_family e
    claims ← normalize_provider_correlation e
    check_contract e otlp
    check_hash e
    semantic ← inspect host.date_parse e
    nodes ← scan limits (obj e) 0 0
    require (leb (host.json_bytes (obj e)) max_event_bytes) "EVENT_TOO_LARGE"
  validate_envelope _ otlp limits max_event_bytes = err "ENVELOPE_NOT_OBJECT"
