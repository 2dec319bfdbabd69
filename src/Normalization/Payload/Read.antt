-- ===== src/Normalization/Payload/Read.antt =====
-- Reading the semantics back from the object that stands in the payload of a fact.
use smpp_telemetry_platform.Base.{
  ℕ, ◌≡◌, refl, ap, String, Bool, false, Option, none, some, List, [], ◌∷◌,
}
use smpp_telemetry_platform.Json.{
  Value, Items, Fields, bool, num, pos, str, arr, obj, cons, end, get,
}
use smpp_telemetry_platform.Runtime.Semantic.{
  Semantic, Uncertainty, Reconciliation, BusinessTerminal, Evidence, MissionRelation, Readiness,
}
use smpp_telemetry_platform.Normalization.Payload.{
  text_or_null, texts, uncertainty_value, reconciliation_value, terminal_value, evidence_value,
  mission_value, readiness_value, semantic_value,
}

-- the members of an object, and none of any other value
abbrev pub members : Value → Fields
members (obj fs) = fs
members _ = end

abbrev text_of : Value → String
text_of (str t) = t
text_of _ = ""

abbrev given_text : Value → Option String
given_text (str t) = some t
given_text _ = none

abbrev flag_of : Value → Bool
flag_of (bool b) = b
flag_of _ = false

abbrev count_of : Value → ℕ
count_of (num (pos n)) = n
count_of _ = 0

unfoldable items_of : Items → List String
items_of (cons (str t) rest) = t ∷ items_of rest
items_of _ = []

unfoldable pub texts_of : Value → List String
unfolding items_of
texts_of (arr items) = items_of items
texts_of _ = []

unfoldable pub read_uncertainty : Value → Option Uncertainty
unfolding texts_of
read_uncertainty (obj fs) = some (record {
  task_id = text_of (get fs "taskId");
  operation_name = text_of (get fs "operationName");
  argument_hash = text_of (get fs "argumentHash");
  uncertainty_class = text_of (get fs "uncertaintyClass");
  redispatch_allowed = flag_of (get fs "redispatchAllowed");
  occurred_at = text_of (get fs "occurredAt");
  causal_refs = texts_of (get fs "causalRefs");
})
read_uncertainty _ = none

unfoldable pub read_reconciliation : Value → Option Reconciliation
read_reconciliation (obj fs) = some (record {
  task_id = text_of (get fs "taskId");
  attempt = count_of (get fs "attempt");
  status = text_of (get fs "status");
  external_execution_id = given_text (get fs "externalExecutionId");
  identity_validated = flag_of (get fs "identityValidated");
  occurred_at = text_of (get fs "occurredAt");
})
read_reconciliation _ = none

unfoldable pub read_terminal : Value → Option BusinessTerminal
read_terminal (obj fs) = some (record {
  task_id = text_of (get fs "taskId");
  mcp_task_status = text_of (get fs "mcpTaskStatus");
  business_status = text_of (get fs "businessStatus");
  transport_status = text_of (get fs "transportStatus");
  provider_execution_status = text_of (get fs "providerExecutionStatus");
  is_error = flag_of (get fs "isError");
})
read_terminal _ = none

unfoldable pub read_evidence : Value → Option Evidence
read_evidence (obj fs) = some (record {
  kind = text_of (get fs "kind");
  task_id = text_of (get fs "taskId");
  external_execution_id = text_of (get fs "externalExecutionId");
  resource_id = text_of (get fs "resourceId");
  device_mission_id = given_text (get fs "deviceMissionId");
  observed_at = text_of (get fs "observedAt");
})
read_evidence _ = none

unfoldable pub read_mission : Value → Option MissionRelation
unfolding texts_of
read_mission (obj fs) = some (record {
  task_id = text_of (get fs "taskId");
  external_execution_id = text_of (get fs "externalExecutionId");
  relation_status = text_of (get fs "relationStatus");
  device_mission_id = given_text (get fs "deviceMissionId");
  source_record_refs = texts_of (get fs "sourceRecordRefs");
  observed_at = text_of (get fs "observedAt");
})
read_mission _ = none

unfoldable pub read_readiness : Value → Readiness
unfolding texts_of
read_readiness v = record {
  status = text_of (get (members v) "status");
  reason_codes = texts_of (get (members v) "reasonCodes");
}

-- the object holds these parts
pub record Holds (v : Value) (s : Semantic) : Type 0 where
  pub capabilities : texts_of (get (members v) "capabilityIds") ≡ s.capability_ids
  pub readiness : read_readiness (get (members v) "readiness") ≡ s.readiness
  pub uncertainty : read_uncertainty (get (members v) "uncertainty") ≡ s.uncertainty
  pub reconciliation : read_reconciliation (get (members v) "reconciliation") ≡ s.reconciliation
  pub terminal : read_terminal (get (members v) "businessTerminal") ≡ s.business_terminal
  pub evidence : read_evidence (get (members v) "evidence") ≡ s.evidence
  pub mission : read_mission (get (members v) "missionRelation") ≡ s.mission_relation

items_of-texts : (ts : List String) → items_of (texts ts) ≡ ts
unfolding items_of
items_of-texts [] = refl
items_of-texts (t ∷ ts) = ap (λ rest. t ∷ rest) (items_of-texts ts)

given_text-null : (o : Option String) → given_text (text_or_null o) ≡ o
given_text-null none = refl
given_text-null (some t) = refl

read-uncertainty : (u : Option Uncertainty) → read_uncertainty (uncertainty_value u) ≡ u
unfolding read_uncertainty uncertainty_value get texts_of
read-uncertainty none = refl
read-uncertainty (some u) = rw (items_of-texts u.causal_refs) refl

read-reconciliation : (r : Option Reconciliation) → read_reconciliation (reconciliation_value r) ≡ r
unfolding read_reconciliation reconciliation_value get
read-reconciliation none = refl
read-reconciliation (some r) = rw (given_text-null r.external_execution_id) refl

read-terminal : (t : Option BusinessTerminal) → read_terminal (terminal_value t) ≡ t
unfolding read_terminal terminal_value get
read-terminal none = refl
read-terminal (some t) = refl

read-evidence : (e : Option Evidence) → read_evidence (evidence_value e) ≡ e
unfolding read_evidence evidence_value get
read-evidence none = refl
read-evidence (some e) = rw (given_text-null e.device_mission_id) refl

read-mission : (m : Option MissionRelation) → read_mission (mission_value m) ≡ m
unfolding read_mission mission_value get texts_of
read-mission none = refl
read-mission (some m) =
    rw (given_text-null m.device_mission_id, items_of-texts m.source_record_refs) refl

read-readiness : (r : Readiness) → read_readiness (readiness_value r) ≡ r
unfolding read_readiness get texts_of
read-readiness r = rw (items_of-texts r.reason_codes) refl

pub semantic_value-Holds : (s : Semantic) → Holds (semantic_value s) s
unfolding semantic_value get texts_of
semantic_value-Holds s = record {
  capabilities = items_of-texts s.capability_ids;
  readiness = read-readiness s.readiness;
  uncertainty = read-uncertainty s.uncertainty;
  reconciliation = read-reconciliation s.reconciliation;
  terminal = read-terminal s.business_terminal;
  evidence = read-evidence s.evidence;
  mission = read-mission s.mission_relation;
}
