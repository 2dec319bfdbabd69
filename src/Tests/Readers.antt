-- ===== src/Tests/Readers.antt =====
-- The query API at concrete inputs.
use mathlib.Core.Option.{some-injective}
use smpp_telemetry_platform.Base.{
  ℕ, ◌≡◌, ◌≢◌, refl, sym, ap, subst, Bool-cases, inl, inr, if◌then◌else◌, false, String, Option,
  none, some, List, [], ◌∷◌, All, OnSome,
}
use smpp_telemetry_platform.Base.Result.{ok, ◌>>=◌, require, some_or}
use smpp_telemetry_platform.Base.Text.{one_of}
use smpp_telemetry_platform.Json.{
  Value, Fields, obj, str, arr, cons, nil, end, field, get, keys, strict_eq,
}
use smpp_telemetry_platform.Query.Urn.{
  UriCodec, EntityUrn, encode_entity_urn, parse_entity_urn, is_identity, is_name, name_of_codes,
  all_name_codes, identity,
}
use smpp_telemetry_platform.Query.Urn.Inverse.{
  DecodesBack, parse-encode_entity_urn, parse_entity_urn_unique,
}
use smpp_telemetry_platform.Query.Urn.Split.{has_colon, split}
use smpp_telemetry_platform.Query.Scope.{
  scope_from_row, read_entity_urn, scoped_entity_urn, AuthorityScope, requested_authority_scope,
  Parameters, validate_authority_scope, authority_identity, same_scope,
}
use smpp_telemetry_platform.Query.Scope.Same.{requested_authority_scope-given}
use smpp_telemetry_platform.Query.Mission.{Observation, observation_time}
use smpp_telemetry_platform.Query.Converge.{converge_current_execution_mission, RelationRow}
use smpp_telemetry_platform.Query.Converge.Authorized.{IsAuthorized, converge-IsAuthorized}
use smpp_telemetry_platform.Query.Diagnostic.{
  Clock, Query, diagnostic_query, query_of, integer, integer_of, parameter, is_digits, number_from,
  dimension_conditions, dimension, trace_condition, time_condition, trace_match, after_prefix,
}
use smpp_telemetry_platform.Query.Diagnostic.Limits.{IsLimited, diagnostic_query-IsLimited}

-- a component that has no colon stands for itself, and others have no code
abbrev plain_only : String → Option String
plain_only text = if has_colon text then none else some text

abbrev plain_uri : UriCodec
plain_uri = record { encode_component = plain_only; decode_component = λ text. some text }

abbrev camera : EntityUrn
camera = record {
  tenant_id = "t1";
  source_system = "smpp";
  deployment_id = "d1";
  entity_type = "task";
  entity_id = "a";
}

abbrev camera_urn : String
camera_urn = "urn:telemetry:t1:smpp:d1:task:a"

plain_only-plain :
    (text encoded : String)
    → plain_only text ≡ some encoded
    → (has_colon encoded ≡ false) × (text ≡ encoded)
plain_only-plain text encoded h = elim (Bool-cases (has_colon text)) [
  | inl colon ↦ absurd (none≢some (simp colon at h))
  | inr other ↦
      let same = some-injective text encoded (simp other at h) in
      (subst (λ t. has_colon t ≡ false) same other, same)
]
  where
    none≢some : none ≢ some encoded
    none≢some h = cc

plain_decodes : DecodesBack plain_uri
plain_decodes = record {
  plain = λ text encoded h. (plain_only-plain text encoded h).0;
  back = λ text encoded h. ap some (sym (plain_only-plain text encoded h).1);
}

camera_encodes : encode_entity_urn plain_uri camera ≡ ok camera_urn
unfolding encode_entity_urn is_identity is_name name_of_codes all_name_codes has_colon ◌>>=◌ require
    some_or
camera_encodes = refl

parse-encode_entity_urn_example : parse_entity_urn plain_uri (str camera_urn) ≡ ok camera
parse-encode_entity_urn_example =
    parse-encode_entity_urn plain_uri plain_decodes camera camera_urn camera_encodes

camera_parses : parse_entity_urn plain_uri (str camera_urn) ≡ ok camera
unfolding parse_entity_urn split has_colon ◌>>=◌ require some_or encode_entity_urn is_identity
    is_name
camera_parses = refl

parse_entity_urn_unique_example : str camera_urn ≡ str camera_urn
parse_entity_urn_unique_example =
    parse_entity_urn_unique plain_uri (str camera_urn) (str camera_urn) camera camera_parses
      camera_parses

abbrev plain_scope : AuthorityScope
plain_scope = record {
  tenant_id = "t1";
  project_id = "p1";
  environment = "e1";
  smpp_source_id = "s1";
  deployment_id = "d1";
}

abbrev asked : Parameters
asked =
    ("tenantId", "t1")
    ∷ ("projectId", "p1")
    ∷ ("environment", "e1")
    ∷ ("smppSourceId", "s1")
    ∷ ("deploymentId", "d1")
    ∷ []

asked_scope :
    (requested : Option AuthorityScope) × (requested_authority_scope plain_uri asked
        (some plain_scope)
      ≡ ok requested)
unfolding requested_authority_scope validate_authority_scope authority_identity identity is_identity
    ◌>>=◌ require same_scope get keys has_colon one_of
asked_scope = (_, refl)

requested_authority_scope-given_example : asked_scope.0 ≡ some plain_scope
requested_authority_scope-given_example =
    (requested_authority_scope-given plain_uri asked plain_scope).returns asked_scope.0
      asked_scope.1

abbrev seen_at : String → String → Option String → Observation
seen_at id status mission = record {
  task_id = "a";
  external_execution_id = "x";
  observed_at = "2026-08-31T12:00:00.000Z";
  record_id = id;
  relation_status = status;
  device_mission_id = mission;
}

abbrev one_time : String → Option ℕ
one_time s = some 1785

abbrev seen : List Observation
seen = seen_at "r2" "exact" (some "m7") ∷ seen_at "r1" "unresolved" none ∷ []

abbrev plain_clock : Clock
plain_clock = record {
  date_parse = one_time;
  iso = λ n. "2026-08-31T12:00:00.000Z";
  show = λ n. "n";
}

abbrev metric_request : Parameters
metric_request = ("limit", "7") ∷ ("serviceName", "it's") ∷ []

metric_query :
    (query : Option Query) × (diagnostic_query plain_clock "/api/v1/metrics" metric_request
      ≡ ok query)
unfolding diagnostic_query query_of integer integer_of parameter is_digits number_from
    dimension_conditions dimension trace_condition time_condition trace_match after_prefix ◌>>=◌
    require one_of
metric_query = (_, refl)

diagnostic_query-IsLimited_example : OnSome (IsLimited plain_clock) metric_query.0
diagnostic_query-IsLimited_example =
    (diagnostic_query-IsLimited plain_clock "/api/v1/metrics" metric_request).returns metric_query.0
      metric_query.1

abbrev state_row : Fields
state_row = field "relation_status" (str "exact") (
    field "tenant_id" (str "t1") (
      field "project_id" (str "p1") (
        field "environment" (str "e1") (
          field "smpp_source_id" (str "s1") (
            field "source_deployment_id" (str "d1") (
              field "source_system" (str "smpp") (
                field "task_id" (str "a") (
                  field "external_execution_id" (str "x") (
                    field "device_mission_id" (str "m7") (
                      field "record_id" (str "r1") (
                        field "source_record_hash" (str "h1") (
                          field "fact_id" (str "f1") (
                            field "observed_at" (str "2026-08-31T12:00:00.000Z") (
                              field "projected_at" (str "2026-08-31T12:00:01.000Z")
                                end))))))))))))))

abbrev task_row : Fields
task_row = field "tenant_id" (str "t1") (
    field "project_id" (str "p1") (
      field "environment" (str "e1") (
        field "smpp_source_id" (str "s1") (
          field "source_entity_urn" (str "urn:telemetry:t1:smpp:d1:task:a") (
            field "target_entity_urn" (str "urn:telemetry:t1:smpp:d1:execution:x") (
              field "source_system" (str "smpp") (
                field "target_system" (str "smpp") (
                  field "source_entity_type" (str "task") (
                    field "target_entity_type" (str "execution") (
                      field "source_entity_id" (str "a") (
                        field "target_entity_id" (str "x") (
                          field "relation_type" (str "task_execution_binding") (
                            field "binding_source" (str "smpp_runtime_reconciliation_found") (
                              field "confidence_class" (str "authoritative") (
                                field "projected_at" (str "2026-08-31T12:00:02.000Z")
                                  end)))))))))))))))

abbrev ref_of : String → String → String → Value
ref_of type id urn =
    obj (field "entityType" (str type) (field "localId" (str id) (field "urn" (str urn) end)))

abbrev parse_refs : String → Option Value
parse_refs text = some (
    arr (
      cons (ref_of "task" "a" "urn:telemetry:t1:smpp:d1:task:a")
        (cons (ref_of "execution" "x" "urn:telemetry:t1:smpp:d1:execution:x") nil)))

abbrev no_digest : String → List ℕ
no_digest name = []

converged :
    (rows : List RelationRow) × (converge_current_execution_mission plain_uri one_time parse_refs
        no_digest
        (some state_row)
        (task_row ∷ [])
        (some plain_scope)
      ≡ ok rows)
unfolding converge_current_execution_mission get strict_eq ◌>>=◌ scope_from_row require keys one_of
    identity has_colon read_entity_urn parse_entity_urn split some_or same_scope scoped_entity_urn
    observation_time
converged = (_, refl)

converge-IsAuthorized_example :
    All
      (IsAuthorized plain_uri one_time parse_refs no_digest state_row
        (task_row ∷ [])
        (some plain_scope))
      converged.0
converge-IsAuthorized_example =
    (converge-IsAuthorized plain_uri one_time parse_refs no_digest state_row (task_row ∷ [])
        (some plain_scope)).returns
      converged.0 converged.1
