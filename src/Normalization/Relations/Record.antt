-- ===== src/Normalization/Relations/Record.antt =====
-- The relations that smpp-provider-ops-v1.ts makes, and the lists of them.
use smpp_telemetry_platform.Base.{
  ℕ, String, Bool, false, Option, none, some, List, [], ◌∷◌, str_eq, if◌then◌else◌,
}
use smpp_telemetry_platform.Base.Text.{codes}
use smpp_telemetry_platform.Json.{Value, null, num, pos, str}
use smpp_telemetry_platform.Correlation.{decimal}
use smpp_telemetry_platform.Runtime.Semantic.{Reconciliation}
use smpp_telemetry_platform.Normalization.{EntityRef}

-- `reconciliationProvenance`; a traced relation names the policy, an authoritative one its sources
pub record Provenance : Type 0 where
  pub producer_system : String
  pub claim_source : String
  pub semantic_class : String
  pub authority : Bool
  pub may_select_facts : Bool
  pub may_override_binding : Bool
  pub source_record_id : String
  pub source_record_hash : String
  pub source_record_refs : List String
  pub fact_id : String

-- `EntityRelation`
pub record EntityRelation : Type 0 where
  pub relation_id : String
  pub relation_type : String
  pub relation_version : ℕ
  pub tenant_id : String
  pub project_id : String
  pub source_entity_urn : String
  pub target_entity_urn : String
  pub source_system : String
  pub target_system : String
  pub valid_from : String
  pub correlation_id : Option String
  pub trace_id : Option String
  pub causation_fact_id : String
  pub route_id : Option String
  pub attempt_no : Option ℕ
  pub evidence_fact_ids : List String
  pub binding_source : String
  pub confidence_class : String
  pub provenance : Provenance
  pub created_at : String
  pub projection_id : String
  pub projection_version : ℕ

-- `refs.find((ref) => ref.entityType === type)?.urn`
unfoldable pub urn_of : List EntityRef → String → Option String
urn_of [] type = none
urn_of (ref ∷ refs) type = if str_eq ref.entity_type type then some ref.urn else urn_of refs type

-- `attemptNo == null ? null : Number(attemptNo)`, of an attempt that was checked
unfoldable pub attempt_number : Value → Option ℕ
attempt_number (num (pos n)) = some n
attempt_number (str digits) = some (decimal 0 (codes digits))
attempt_number _ = none

-- `byId.set(relation.relationId, relation)`; a key that is there keeps its place
unfoldable pub put_relation : List EntityRelation → EntityRelation → List EntityRelation
put_relation [] r = r ∷ []
put_relation (p ∷ ps) r =
    if str_eq p.relation_id r.relation_id then r ∷ ps else p ∷ put_relation ps r

-- `[...new Map(...).values()]`
unfoldable pub by_relation_id : List EntityRelation → List EntityRelation → List EntityRelation
unfolding put_relation
by_relation_id kept [] = kept
by_relation_id kept (r ∷ rs) = by_relation_id (put_relation kept r) rs

abbrev pub target_of : Option String → Option String → Option String
target_of (some task) provider = some task
target_of none provider = provider

abbrev pub or_target : Option String → String → String
or_target none target = target
or_target (some provider) target = provider

abbrev pub value_of : Option String → Value
value_of none = null
value_of (some text) = str text

-- `originSystem === "sdar"`
abbrev pub is_origin : Option String → Bool
is_origin none = false
is_origin (some system) = str_eq system "sdar"

abbrev pub attempt_of : Option Reconciliation → Option ℕ
attempt_of none = none
attempt_of (some reconciled) = some reconciled.attempt

abbrev pub claim_of : Option Reconciliation → String
claim_of none = "runtime_commit"
claim_of (some _) = "exact_reconciliation"
