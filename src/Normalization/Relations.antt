-- ===== src/Normalization/Relations.antt =====
-- The relations of smpp-provider-ops-v1.ts, and `normalize` as far as they need it.
mod Record
pub mod Unique
pub mod Claims
pub mod Grounded
use smpp_telemetry_platform.Base.{
  ℕ, String, Bool, true, false, not, ◌&&◌, Option, none, some, List, [], ◌∷◌, ◌++◌, str_eq,
  if◌then◌else◌,
}
use smpp_telemetry_platform.Base.Text.{codes}
use smpp_telemetry_platform.Base.Uuid.{uuid_v5}
use smpp_telemetry_platform.Base.Result.{Result, ok, err, ◌>>=◌, ◌>>◌, require}
use smpp_telemetry_platform.Json.{
  Value, Number, Fields, undefined, null, bool, num, pos, str, arr, obj, get,
}
use smpp_telemetry_platform.Query.Urn.{UriCodec, ◌⋯◌}
use smpp_telemetry_platform.Correlation.{Correlation, normalize_provider_correlation, decimal}
use smpp_telemetry_platform.Runtime.Semantic.{Semantic, Binding, Reconciliation, MissionRelation}
use smpp_telemetry_platform.Runtime.Inspect.{inspect}
use smpp_telemetry_platform.Normalization.{
  EntityRef, Accepted, Fact, required_identity, entity_urn, entity_refs, fact_of, exact_mission,
}
unfoldable pub use smpp_telemetry_platform.Normalization.Relations.Record.{
  urn_of, attempt_number, put_relation, by_relation_id,
}
pub use smpp_telemetry_platform.Normalization.Relations.Record.{
  Provenance, EntityRelation, target_of, or_target, value_of, is_origin, attempt_of, claim_of,
}

module _ (uri : UriCodec) (sha1 : String → List ℕ) where
  -- `#authoritativeRelation`
  unfoldable pub authoritative_relation :
      Fact → String → String → String → String → Option ℕ → String → List String → EntityRelation
  authoritative_relation fact source target type binding_source attempt_no claim_source refs =
      record {
        relation_id = uuid_v5 sha1 (source ⋯ "|" ⋯ target ⋯ "|" ⋯ type ⋯ "|v1");
        relation_type = type;
        relation_version = 1;
        tenant_id = fact.tenant_id;
        project_id = fact.project_id;
        source_entity_urn = source;
        target_entity_urn = target;
        source_system = "smpp";
        target_system = "smpp";
        valid_from = fact.occurred_at;
        correlation_id = fact.correlation.correlation_id;
        trace_id = fact.correlation.trace_id;
        causation_fact_id = fact.fact_id;
        route_id = fact.correlation.route_id;
        attempt_no = attempt_no;
        evidence_fact_ids = fact.fact_id ∷ [];
        binding_source = binding_source;
        confidence_class = "authoritative";
        provenance = record {
          producer_system = "smpp";
          claim_source = claim_source;
          semantic_class = type;
          authority = true;
          may_select_facts = true;
          may_override_binding = false;
          source_record_id = fact.source_record_id;
          source_record_hash = fact.source_record_hash;
          source_record_refs = refs;
          fact_id = fact.fact_id;
        };
        created_at = fact.received_at;
        projection_id = "smpp-runtime-identity-closure-v1";
        projection_version = 1;
      }

  -- `#relation`
  unfoldable pub relation : Fact → String → String → String → Correlation → EntityRelation
  unfolding attempt_number
  relation fact source target type correlation = record {
    relation_id = uuid_v5 sha1 (fact.fact_id ⋯ "|" ⋯ source ⋯ "|" ⋯ target ⋯ "|" ⋯ type);
    relation_type = type;
    relation_version = 1;
    tenant_id = fact.tenant_id;
    project_id = fact.project_id;
    source_entity_urn = source;
    target_entity_urn = target;
    source_system = "sdar";
    target_system = "smpp";
    valid_from = fact.occurred_at;
    correlation_id = correlation.correlation_id;
    trace_id = correlation.trace_id;
    causation_fact_id = fact.fact_id;
    route_id = correlation.route_id;
    attempt_no = attempt_number correlation.attempt_no;
    evidence_fact_ids = fact.fact_id ∷ [];
    binding_source = "provider_correlation_metadata";
    confidence_class = "traced";
    provenance = record {
      producer_system = "smpp";
      claim_source = "providerops.correlation";
      semantic_class = "source_declared_reconciliation_claim";
      authority = false;
      may_select_facts = false;
      may_override_binding = false;
      source_record_id = fact.source_record_id;
      source_record_hash = fact.source_record_hash;
      source_record_refs = [];
      fact_id = fact.fact_id;
    };
    created_at = fact.received_at;
    projection_id = "smpp-origin-reconciliation-hint-v1.1";
    projection_version = 2;
  }

  -- one loop of `#originRelations`
  unfoldable pub origins_of :
      Fact
      → Correlation
      → String
      → String
      → String
      → String
      → List String
      → Result (List EntityRelation)
  unfolding relation
  origins_of fact correlation deployment entity_type type target [] = ok []
  origins_of fact correlation deployment entity_type type target (id ∷ ids) = do
    source ← entity_urn uri fact.tenant_id "sdar" deployment entity_type id
    later ← origins_of fact correlation deployment entity_type type target ids
    ok (relation fact source target type correlation ∷ later)

  -- `#originRelations`, once there is a target
  unfoldable pub origins_to :
      Fact → Correlation → Option String → Option String → Result (List EntityRelation)
  unfolding origins_of
  origins_to fact correlation provider none = ok []
  origins_to fact correlation provider (some target) = do
    deployment ←
        required_identity (value_of correlation.origin_deployment_id) "ORIGIN_DEPLOYMENT_ID"
    tasks ←
        origins_of fact correlation deployment "task" "invokes" target correlation.origin_task_ids
    invocations ←
        origins_of fact correlation deployment "invocation" "delegates_to" target
          correlation.origin_invocation_ids
    runtimes ←
        origins_of fact correlation deployment "runtime" "served_by" (or_target provider target)
          correlation.origin_runtime_instance_ids
    ok (tasks ++ invocations ++ runtimes)

  unfoldable pub origin_relations :
      Fact → Correlation → List EntityRef → Result (List EntityRelation)
  unfolding origins_to urn_of
  origin_relations fact correlation refs =
      if is_origin correlation.origin_system
      then origins_to fact correlation (urn_of refs "provider")
          (target_of (urn_of refs "task") (urn_of refs "provider"))
      else ok []

  -- the relation of the task to the execution that the record binds
  unfoldable pub bound_execution :
      Fact
      → Option Binding
      → Option Reconciliation
      → Option String
      → Option String
      → List EntityRelation
  unfolding authoritative_relation
  bound_execution fact (some binding) reconciled (some task) (some execution) =
      authoritative_relation fact task execution "task_execution_binding" binding.binding_source
        (attempt_of reconciled) (claim_of reconciled) []
      ∷ []
  bound_execution fact _ _ _ _ = []

  -- the relation of the execution to its mission
  unfoldable pub bound_mission :
      Fact → Option MissionRelation → Option String → Option String → List EntityRelation
  unfolding authoritative_relation
  bound_mission fact (some observed) (some execution) (some mission) =
      if str_eq observed.relation_status "exact"
      then authoritative_relation fact execution mission "execution_mission_binding"
          "provider_authoritative_mission_identity" none "provider_observation"
          observed.source_record_refs
        ∷ []
      else []
  bound_mission fact _ _ _ = []

  -- `#relations`
  unfoldable pub relations :
      Fact → Correlation → List EntityRef → Semantic → Result (List EntityRelation)
  unfolding origin_relations bound_execution bound_mission by_relation_id urn_of
  relations fact correlation refs semantic = do
    origins ← origin_relations fact correlation refs
    let execution = urn_of refs "execution"
    let bound =
        bound_execution fact semantic.binding semantic.reconciliation (urn_of refs "task") execution
    let observed =
        bound_mission fact semantic.mission_relation execution (urn_of refs "device_mission")
    ok (by_relation_id [] (origins ++ bound ++ observed))

  -- `normalize`, as far as the fact's entities and relations go
  unfoldable pub normalize :
      (String → Option ℕ) → Accepted → Result (List EntityRef × List EntityRelation)
  unfolding relations entity_refs fact_of required_identity
  normalize date_parse accepted = do
    deployment ← required_identity accepted.deployment_id "DEPLOYMENT_ID"
    correlation ← normalize_provider_correlation accepted.envelope
    semantic ← inspect date_parse accepted.envelope
    refs ← entity_refs uri accepted.tenant_id deployment accepted.envelope semantic
    found ← relations (fact_of sha1 accepted correlation) correlation refs semantic
    ok (refs, found)
