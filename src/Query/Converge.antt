-- ===== src/Query/Converge.antt =====
-- `convergeCurrentExecutionMission` of telemetry-dashboard/query-api/src/current-authority.ts: the
-- relation of an execution to its mission, from the row of the mission's state and the rows of the
-- relation of the task to the execution. A row is the object that the store returns.
pub mod Authorized
use smpp_telemetry_platform.Base.{
  ℕ, String, Bool, true, false, not, ◌&&◌, ◌||◌, Option, none, some, List, [], ◌∷◌, ltb, ◌==◌,
  str_eq, if◌then◌else◌, length, all,
}
use smpp_telemetry_platform.Base.Result.{Result, Done, ok, err, ◌>>=◌, ◌>>◌, require, some_or}
use smpp_telemetry_platform.Base.Uuid.{uuid_v5}
use smpp_telemetry_platform.Json.{
  Value, Items, Fields, undefined, null, bool, num, str, arr, obj, nil, cons, get, field, strict_eq,
}
use smpp_telemetry_platform.Query.Urn.{UriCodec, EntityUrn, ◌⋯◌}
use smpp_telemetry_platform.Query.Scope.{
  AuthorityScope, same_scope, scope_from_row, scoped_entity_urn, read_entity_urn,
}
use smpp_telemetry_platform.Query.Mission.{observation_time}

-- `CurrentAuthorityRelationRow`
pub record RelationRow : Type 0 where
  pub relation_id : String
  pub relation_type : String
  pub source_entity_urn : String
  pub source_entity_type : String
  pub source_entity_id : String
  pub target_entity_urn : String
  pub target_entity_type : String
  pub target_entity_id : String
  pub binding_source : String
  pub confidence_class : String
  pub source_record_id : String
  pub source_record_hash : String
  pub causation_fact_id : String
  pub evidence_fact_ids : List String
  pub valid_from : String
  pub projected_at : String
  pub projection_id : String
  pub projection_version : ℕ

abbrev pub text_or_empty : Value → String
text_or_empty (str text) = text
text_or_empty _ = ""

-- `rowString`
unfoldable pub row_string : Fields → String → String
row_string row key = text_or_empty (get row key)

-- `row[key] === text`
abbrev pub is : Fields → String → String → Bool
is row key text = strict_eq (get row key) (str text)

-- the code that no caller sees: a throw in the `try`, or a return in it, gives no rows
abbrev pub unmatched : String
unmatched = "NO_ROWS"

-- the scope given, if any, is this one
abbrev pub as_expected : Option AuthorityScope → AuthorityScope → Bool
as_expected none scope = true
as_expected (some expected) scope = same_scope scope expected

-- `refs.filter(ref => ref.entityType === entityType)`
unfoldable pub refs_of : String → Items → List Fields
refs_of entity_type nil = []
refs_of entity_type (cons (obj ref) refs) =
    if is ref "entityType" entity_type
    then ref ∷ refs_of entity_type refs
    else refs_of entity_type refs
refs_of entity_type (cons _ refs) = refs_of entity_type refs

-- a reference that is the only one of its type
unfoldable pub only : List Fields → Result Fields
only (ref ∷ []) = ok ref
only _ = err unmatched

unfoldable pub text_of : Value → Result String
text_of (str text) = ok text
text_of _ = err unmatched

unfoldable pub items_of : Option Value → Result Items
items_of (some (arr items)) = ok items
items_of _ = err unmatched

-- the condition on the two URNs of the relation and on the sources
unfoldable pub same_entities : AuthorityScope → Fields → Fields → EntityUrn → EntityUrn → Bool
same_entities scope state relation source target =
    str_eq source.tenant_id scope.tenant_id
    && str_eq target.tenant_id scope.tenant_id
    && str_eq source.deployment_id scope.deployment_id
    && str_eq target.deployment_id scope.deployment_id
    && str_eq source.source_system "smpp"
    && str_eq target.source_system "smpp"
    && is state "source_system" "smpp"
    && is relation "source_system" "smpp"
    && is relation "target_system" "smpp"
    && str_eq source.entity_type "task"
    && str_eq target.entity_type "execution"
    && is relation "source_entity_type" "task"
    && is relation "target_entity_type" "execution"
    && strict_eq (str source.entity_id) (get state "task_id")
    && strict_eq (str target.entity_id) (get state "external_execution_id")

-- the members that must not be empty
abbrev pub state_members : List String
state_members =
    "task_id" ∷ "external_execution_id" ∷ "device_mission_id" ∷ "record_id" ∷ "source_record_hash"
    ∷ "fact_id" ∷ "tenant_id" ∷ "source_deployment_id" ∷ "observed_at" ∷ "projected_at" ∷ []

unfoldable pub is_complete : Fields → Fields → Bool
unfolding row_string
is_complete state relation =
    all (λ key. not (str_eq (row_string state key) "")) state_members
    && not (str_eq (row_string relation "projected_at") "")

unfoldable pub binds_task : Fields → Fields → Bool
unfolding row_string
binds_task state relation =
    str_eq (row_string relation "relation_type") "task_execution_binding"
    && str_eq (row_string relation "source_entity_id") (row_string state "task_id")
    && str_eq (row_string relation "target_entity_id") (row_string state "external_execution_id")
    && str_eq (row_string relation "binding_source") "smpp_runtime_reconciliation_found"
    && str_eq (row_string relation "confidence_class") "authoritative"

-- `parse` is `JSON.parse`; `sha1` is the digest that `uuidV5` takes
module _ (uri : UriCodec) (date_parse : String → Option ℕ) (parse : String → Option Value)
    (sha1 : String → List ℕ) where
  -- the body of the loop on the references
  unfoldable pub check_ref : AuthorityScope → Items → String → Value → Done
  unfolding refs_of only text_of
  check_ref scope refs entity_type local = do
    ref ← only (refs_of entity_type refs)
    id ← text_of local
    require (is ref "localId" id) unmatched
    urn ← scoped_entity_urn uri scope entity_type id
    require (is ref "urn" urn) unmatched
    entity ← read_entity_urn uri (get ref "urn")
    ok tt

  -- the `try`: the scope that the two rows share
  unfoldable pub shared_scope : Fields → Fields → Option AuthorityScope → Result AuthorityScope
  unfolding check_ref same_entities row_string items_of
  shared_scope state relation expected = do
    scope ← scope_from_row uri state
    source ← read_entity_urn uri (get relation "source_entity_urn")
    target ← read_entity_urn uri (get relation "target_entity_urn")
    of_relation ←
        scope_from_row uri (field "source_deployment_id" (str target.deployment_id) relation)
    require (same_scope scope of_relation) unmatched
    require (as_expected expected scope) unmatched
    require (same_entities scope state relation source target) unmatched
    refs ← items_of (parse (row_string state "entity_refs_json"))
    task_ref ← check_ref scope refs "task" (get state "task_id")
    execution_ref ← check_ref scope refs "execution" (get state "external_execution_id")
    ok scope

  -- the row, of a state and a relation that passed the checks
  unfoldable pub relation_row : AuthorityScope → Fields → Fields → Result RelationRow
  unfolding row_string
  relation_row scope state relation = do
    let execution = row_string state "external_execution_id"
    let mission = row_string state "device_mission_id"
    let fact = row_string state "fact_id"
    let mission_projected = row_string state "projected_at"
    let task_projected = row_string relation "projected_at"
    source_urn ← scoped_entity_urn uri scope "execution" execution
    target_urn ← scoped_entity_urn uri scope "device_mission" mission
    task_time ← observation_time uri date_parse task_projected
    mission_time ← observation_time uri date_parse mission_projected
    observed ← observation_time uri date_parse (row_string state "observed_at")
    ok (record {
      relation_id = uuid_v5 sha1 (source_urn ⋯ "|" ⋯ target_urn ⋯ "|execution_mission_binding|v1");
      relation_type = "execution_mission_binding";
      source_entity_urn = source_urn;
      source_entity_type = "execution";
      source_entity_id = execution;
      target_entity_urn = target_urn;
      target_entity_type = "device_mission";
      target_entity_id = mission;
      binding_source = "provider_authoritative_mission_identity";
      confidence_class = "authoritative";
      source_record_id = row_string state "record_id";
      source_record_hash = row_string state "source_record_hash";
      causation_fact_id = fact;
      evidence_fact_ids = fact ∷ [];
      valid_from = row_string state "observed_at";
      projected_at = if ltb mission_time task_time then task_projected else mission_projected;
      projection_id = "smpp_current_authority_read_model";
      projection_version = 2;
    })

  -- after the `try`
  unfoldable pub rows_of : Fields → Fields → Result AuthorityScope → Result (List RelationRow)
  unfolding is_complete binds_task relation_row
  rows_of state relation (err _) = ok []
  rows_of state relation (ok scope) =
      if not (is_complete state relation)
      then ok []
      else if not (binds_task state relation)
      then ok []
      else (relation_row scope state relation >>= λ row. ok (row ∷ []))

  unfoldable pub converge_current_execution_mission :
      Option Fields → List Fields → Option AuthorityScope → Result (List RelationRow)
  unfolding shared_scope rows_of
  converge_current_execution_mission (some state) (relation ∷ []) expected =
      if is state "relation_status" "exact"
      then rows_of state relation (shared_scope state relation expected)
      else ok []
  converge_current_execution_mission _ _ expected = ok []
