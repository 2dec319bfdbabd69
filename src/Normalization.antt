-- ===== src/Normalization.antt =====
-- telemetry-processor/src/packages/normalization/smpp-provider-ops-v1.ts: the entities of an accepted
-- record and the relations between them. The fact's provenance and its hash are left
-- out; `Fact` has the members of the fact that the relations use.
pub mod Relations
pub mod Payload
pub mod Refs
use smpp_telemetry_platform.Base.{
  ℕ, String, Bool, true, false, not, ◌&&◌, Option, none, some, List, [], ◌∷◌, ◌++◌, str_eq,
  if◌then◌else◌,
}
use smpp_telemetry_platform.Base.Uuid.{uuid_v5}
use smpp_telemetry_platform.Base.Result.{Result, ok, err, ◌>>=◌, ◌>>◌, require}
use smpp_telemetry_platform.Json.{Value, Fields, undefined, null, bool, num, str, arr, obj, get}
use smpp_telemetry_platform.Query.Urn.{UriCodec, encode_entity_urn, ◌⋯◌}
use smpp_telemetry_platform.Correlation.{Correlation, normalize_provider_correlation}
use smpp_telemetry_platform.Runtime.Semantic.{Semantic, MissionRelation}

-- `EntityRef`
pub record EntityRef : Type 0 where
  pub entity_type : String
  pub local_id : String
  pub urn : String

-- what the normalizer reads of a record: its envelope, the mapping and the deployment
pub record Accepted : Type 0 where
  pub envelope : Fields
  pub tenant_id : String
  pub project_id : String
  pub received_at : String
  pub deployment_id : Value

pub record Fact : Type 0 where
  pub fact_id : String
  pub tenant_id : String
  pub project_id : String
  pub source_record_id : String
  pub source_record_hash : String
  pub occurred_at : String
  pub received_at : String
  pub correlation : Correlation

-- `requiredIdentity`
unfoldable pub required_identity : Value → String → Result String
required_identity (str text) name = require (not (str_eq text "")) (name ⋯ "_REQUIRED") >> ok text
required_identity _ name = err (name ⋯ "_REQUIRED")

-- the member as a text of the envelope's type
abbrev pub text_in : Fields → String → String
text_in envelope key = elim (get envelope key) [ str text ↦ text | _ ↦ "" ]

-- the mission that an exact relation names
unfoldable pub exact_mission : Option MissionRelation → Value
exact_mission none = undefined
exact_mission (some relation) =
    if str_eq relation.relation_status "exact"
    then elim relation.device_mission_id [ some mission ↦ str mission | none ↦ null ]
    else undefined

module _ (uri : UriCodec) where
  -- `entityUrn`
  unfoldable pub entity_urn : String → String → String → String → String → Result String
  unfolding required_identity
  entity_urn tenant_id source_system deployment_id entity_type local_id = do
    tenant ← required_identity (str tenant_id) "TENANT_ID"
    source ← required_identity (str source_system) "SOURCE_SYSTEM"
    deployment ← required_identity (str deployment_id) "DEPLOYMENT_ID"
    type ← required_identity (str entity_type) "ENTITY_TYPE"
    id ← required_identity (str local_id) "LOCAL_ID"
    encode_entity_urn uri (record {
      tenant_id = tenant;
      source_system = source;
      deployment_id = deployment;
      entity_type = type;
      entity_id = id;
    })

  -- one call of `add`
  unfoldable pub add : String → String → String → Value → List EntityRef → Result (List EntityRef)
  unfolding entity_urn
  add tenant_id deployment_id entity_type (str text) refs = if str_eq text "" then ok refs else do
    urn ← entity_urn tenant_id "smpp" deployment_id entity_type text
    ok (refs ++ (record { entity_type = entity_type; local_id = text; urn = urn } ∷ []))
  add tenant_id deployment_id entity_type _ refs = ok refs

  -- the calls of `add`
  unfoldable pub entity_refs : String → String → Fields → Semantic → Result (List EntityRef)
  unfolding add exact_mission
  entity_refs tenant_id deployment_id envelope semantic = do
    runtime ← add tenant_id deployment_id "runtime" (get envelope "instanceId") []
    provider ← add tenant_id deployment_id "provider" (get envelope "providerId") runtime
    task ← add tenant_id deployment_id "task" (get envelope "taskId") provider
    resource ← add tenant_id deployment_id "resource" (get envelope "resourceId") task
    execution ←
        add tenant_id deployment_id "execution" (get envelope "externalExecutionId") resource
    add tenant_id deployment_id "device_mission" (exact_mission semantic.mission_relation) execution

-- `base`, as far as the relations use it; `sha1` is the digest that `uuidV5` takes
unfoldable pub fact_of : (String → List ℕ) → Accepted → Correlation → Fact
fact_of sha1 accepted correlation =
    let envelope = accepted.envelope in
    record {
      fact_id =
          uuid_v5 sha1
            ("smpp|" ⋯ text_in envelope "recordId" ⋯ "|" ⋯ text_in envelope "recordType");
      tenant_id = accepted.tenant_id;
      project_id = accepted.project_id;
      source_record_id = text_in envelope "recordId";
      source_record_hash = text_in envelope "recordHash";
      occurred_at = text_in envelope "occurredAt";
      received_at = accepted.received_at;
      correlation = correlation;
    }
