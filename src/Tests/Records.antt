-- ===== src/Tests/Records.antt =====
-- The validation of records and their normalisation at concrete inputs.
use smpp_telemetry_platform.Base.{ℕ, ◌≡◌, ◌≤◌, refl, true, String, Option, some, List, [], ◌∷◌, All}
use smpp_telemetry_platform.Base.Result.{ok, ◌>>=◌, require, some_or}
use smpp_telemetry_platform.Json.{
  Value, Fields, obj, str, arr, cons, nil, end, field, get, keys, has_key, strict_eq,
}
use smpp_telemetry_platform.Base.Text.{one_of, matches_fold, fold_case, text_le, sort, unique}
use smpp_telemetry_platform.Base.Pattern.{matches, times, word}
use smpp_telemetry_platform.Timestamp.{valid_timestamp, read, in_range}
use smpp_telemetry_platform.Canonical.{canonicalize, members, sort_members}
use smpp_telemetry_platform.Canonical.Hash.{record_hash}
use smpp_telemetry_platform.Correlation.{
  Correlation, normalize_provider_correlation, is_evaluation_key, origin_array,
}
use smpp_telemetry_platform.Runtime.Semantic.{Semantic}
use smpp_telemetry_platform.Runtime.Inspect.{inspect, inspect_parts, finish, initial}
use smpp_telemetry_platform.Runtime.Checks.{object, assert_no_evaluation_verdict, committed_runtime}
use smpp_telemetry_platform.Runtime.Closure.{closes_identity}
use smpp_telemetry_platform.Validation.{Host}
use smpp_telemetry_platform.Validation.Payload.{
  default_limits, scan, enter, admit_key, is_sensitive_key, is_sensitive_value,
}
use smpp_telemetry_platform.Validation.Bounded.{IsBounded, nodes_of, scan-IsBounded}
use smpp_telemetry_platform.Validation.Ingress.{
  TrustedContext, IngressOptions, validate_trusted_ingress,
}
use smpp_telemetry_platform.Validation.Envelope.{validate_envelope}
use smpp_telemetry_platform.Validation.Accepted.{IsAccepted, validate_envelope-IsAccepted}
use smpp_telemetry_platform.Query.Urn.{UriCodec, encode_entity_urn}
use smpp_telemetry_platform.Normalization.Payload.{source_payload}
use smpp_telemetry_platform.Normalization.Payload.Kept.{traced_members, source_payload-kept}
use smpp_telemetry_platform.Normalization.Payload.Read.{Holds}
use smpp_telemetry_platform.Normalization.{Accepted, EntityRef, fact_of, required_identity}
use smpp_telemetry_platform.Normalization.Relations.{EntityRelation, normalize}
use smpp_telemetry_platform.Normalization.Relations.Unique.{Unique}
use smpp_telemetry_platform.Normalization.Relations.Claims.{IsGrounded}
use smpp_telemetry_platform.Normalization.Relations.Grounded.{normalize-IsGrounded}

abbrev as_text : Value → String
as_text (str s) = s
as_text _ = ""

abbrev one_time : String → Option ℕ
one_time s = some 1785

abbrev hash64 : String
hash64 = "aaaaaaaaaaaaaaaaaaaaaaaaaaaaaaaaaaaaaaaaaaaaaaaaaaaaaaaaaaaaaaaa"

abbrev host : Host
host = record {
  text_of = as_text;
  date_parse = one_time;
  printer = record { quote = λ s. s; show = λ n. "0" };
  sha256 = λ s. hash64;
  json_bytes = λ v. 500;
}

abbrev envelope : Fields
envelope = field "schemaName" (str "sdar.provider.ops.event") (
    field "schemaVersion" (str "1.1.0") (
      field "recordId" (str "6ba7b810-9dad-11d1-80b4-00c04fd430c8") (
        field "recordHash" (str hash64) (
          field "recordType" (str "provider.task.lifecycle") (
            field "eventCategory" (str "task.lifecycle") (
              field "deliveryClass" (str "audit") (
                field "providerId" (str "p") (
                  field "runtimeVersion" (str "1") (
                    field "instanceId" (str "i") (
                      field "occurredAt" (str "2026-08-31T02:00:00Z") (
                        field "emittedAt" (str "2026-08-31T02:00:00Z") (
                          field "taskId" (str "t") (
                            field "attributes" (obj end)
                              (field "payload" (obj end) end))))))))))))))

abbrev contract : Fields
contract = field "sdar.schema.name" (str "sdar.provider.ops.event") (
    field "sdar.schema.version" (str "1.1.0") (
      field "sdar.record.id" (str "6ba7b810-9dad-11d1-80b4-00c04fd430c8")
        (field "sdar.record.hash" (str hash64) end)))

accepted :
    (d : Unit {0}) × (validate_envelope host (obj envelope) contract default_limits 65536 ≡ ok d)
unfolding validate_envelope ◌>>=◌ require has_key strict_eq get matches times word one_of
    valid_timestamp read in_range normalize_provider_correlation is_evaluation_key matches_fold
    record_hash canonicalize members inspect scan sort_members text_le object inspect_parts
    assert_no_evaluation_verdict keys closes_identity committed_runtime enter admit_key
    is_sensitive_key is_sensitive_value
accepted = (_, refl)

validate_envelope-IsAccepted_example : IsAccepted host envelope contract default_limits 65536
validate_envelope-IsAccepted_example =
    (validate_envelope-IsAccepted host envelope contract default_limits 65536).returns accepted.0
      accepted.1

scanned : (n : ℕ) × (scan default_limits (obj envelope) 0 0 ≡ ok n)
unfolding scan ◌>>=◌ enter require keys admit_key is_sensitive_key word fold_case is_sensitive_value
scanned = (_, refl)

scan-IsBounded_example :
    IsBounded default_limits 0 (obj envelope)
    × (scanned.0 ≡ nodes_of (obj envelope))
    × (nodes_of (obj envelope) ≤ default_limits.max_nodes)
scan-IsBounded_example = (scan-IsBounded default_limits (obj envelope)).returns scanned.0 scanned.1

abbrev ingress : Fields
ingress = field "telemetry.channel" (str "smpp.provider_ops") (
    field "telemetry.source.system" (str "smpp") (
      field "telemetry.source.collector_id" (str "c1") (
        field "telemetry.source.trust_domain" (str "d")
          (field "telemetry.source.deployment_id" (str "d1") end))))

abbrev options : IngressOptions
options = record { require_collector_id = true; allowed_collector_ids = "c1" ∷ [] }

trusted : (c : TrustedContext) × (validate_trusted_ingress as_text end ingress options ≡ ok c)
unfolding validate_trusted_ingress ◌>>=◌ require strict_eq has_key get one_of
trusted = (_, refl)

abbrev plain_uri : UriCodec
plain_uri = record { encode_component = λ text. some text; decode_component = λ text. some text }

abbrev no_digest : String → List ℕ
no_digest name = []

-- a record of a task that another system's task invoked
abbrev invoked : Fields
invoked = field "recordId" (str "r1") (
    field "recordType" (str "provider.task.lifecycle") (
      field "taskId" (str "t") (
        field "providerId" (str "p") (
          field "instanceId" (str "i") (
            field "payload" (obj end) (
              field "attributes"
                (obj (
                  field "correlation"
                    (obj (
                      field "originSystem" (str "sdar") (
                        field "originDeploymentId" (str "d0")
                          (field "originTaskIds" (arr (cons (str "o1") nil)) end))))
                    end))
                end))))))

abbrev task_record : Accepted
task_record = record {
  envelope = invoked;
  tenant_id = "t1";
  project_id = "p1";
  received_at = "2026-08-31T02:00:01Z";
  deployment_id = str "d1";
}

normalized :
    (result : List EntityRef × List EntityRelation) × (normalize plain_uri no_digest one_time
        task_record
      ≡ ok result)
unfolding normalize ◌>>=◌ require get normalize_provider_correlation is_evaluation_key one_of
    matches_fold has_key inspect object inspect_parts assert_no_evaluation_verdict keys strict_eq
    closes_identity committed_runtime encode_entity_urn some_or finish initial origin_array sort
    unique text_le
normalized = (_, refl)

normalize-IsGrounded_example :
    (deployment : String) × (correlation : Correlation) × (semantic : Semantic) × (required_identity
        task_record.deployment_id "DEPLOYMENT_ID"
      ≡ ok deployment)
    × (normalize_provider_correlation invoked ≡ ok correlation)
    × (inspect one_time invoked ≡ ok semantic)
    × All
        (IsGrounded plain_uri deployment (fact_of no_digest task_record correlation) semantic)
        normalized.0.1
    × Unique normalized.0.1
normalize-IsGrounded_example =
    (normalize-IsGrounded plain_uri no_digest one_time task_record).returns normalized.0
      normalized.1

-- an envelope with a member named as the inspected semantics
abbrev forged : Fields
forged = field "taskId" (str "t") (field "runtimeSemantic" (str "forged") end)

source_payload-kept_example :
    All (λ k. get (source_payload forged (initial forged)) k ≡ get forged k) traced_members
    × Holds (get (source_payload forged (initial forged)) "runtimeSemantic") (initial forged)
source_payload-kept_example = source_payload-kept forged (initial forged)
