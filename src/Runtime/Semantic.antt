-- ===== src/Runtime/Semantic.antt =====
-- The record `RuntimeSemantic` of smpp-runtime-semantics.ts, and the kinds that a record claims.
use smpp_telemetry_platform.Base.{
  ℕ, String, Bool, true, false, not, ◌||◌, Option, List, [], ◌∷◌, any,
}
use smpp_telemetry_platform.Json.{Value, Fields, str, get, strict_eq, is_undefined}

pub record Binding : Type 0 where
  pub task_id : String
  pub external_execution_id : Option String
  pub binding_source : String

pub record Uncertainty : Type 0 where
  pub task_id : String
  pub operation_name : String
  pub argument_hash : String
  pub uncertainty_class : String
  pub redispatch_allowed : Bool
  pub occurred_at : String
  pub causal_refs : List String

pub record Reconciliation : Type 0 where
  pub task_id : String
  pub attempt : ℕ
  pub status : String
  pub external_execution_id : Option String
  pub identity_validated : Bool
  pub occurred_at : String

pub record BusinessTerminal : Type 0 where
  pub task_id : String
  pub mcp_task_status : String
  pub business_status : String
  pub transport_status : String
  pub provider_execution_status : String
  pub is_error : Bool

pub record Evidence : Type 0 where
  pub kind : String
  pub task_id : String
  pub external_execution_id : String
  pub resource_id : String
  pub device_mission_id : Option String
  pub observed_at : String

pub record MissionRelation : Type 0 where
  pub task_id : String
  pub external_execution_id : String
  pub relation_status : String
  pub device_mission_id : Option String
  pub source_record_refs : List String
  pub observed_at : String

pub record Readiness : Type 0 where
  pub status : String
  pub reason_codes : List String

pub record Semantic : Type 0 where
  pub capability_ids : List String
  pub binding : Option Binding
  pub uncertainty : Option Uncertainty
  pub reconciliation : Option Reconciliation
  pub business_terminal : Option BusinessTerminal
  pub evidence : Option Evidence
  pub mission_relation : Option MissionRelation
  pub observed_at : Option String
  pub readiness : Readiness

abbrev pub is_empty : List String → Bool
is_empty [] = true
is_empty _ = false

abbrev pub is_text : Value → String → Bool
is_text v s = strict_eq v (str s)

abbrev pub ready : Readiness
ready = record { status = "ready"; reason_codes = [] }

abbrev pub is_uncertainty : Fields → Fields → Bool
is_uncertainty attributes payload =
    is_text (get attributes "semantic") "dispatch.uncertainty"
    || is_text (get payload "schemaVersion") "sdar.smpp-dispatch-uncertainty/v1"

abbrev pub is_reconciliation : Fields → Fields → Bool
is_reconciliation attributes payload =
    is_text (get attributes "semantic") "task.reconciliation"
    || is_text (get payload "schemaVersion") "sdar.smpp-reconciliation-result/v1"

abbrev terminal_keys : List String
terminal_keys =
    "transportStatus" ∷ "mcpTaskStatus" ∷ "businessStatus" ∷ "providerExecutionStatus" ∷ "isError"
    ∷ []

abbrev pub is_business_terminal : Fields → Bool
is_business_terminal payload = any (λ key. not (is_undefined (get payload key))) terminal_keys

abbrev pub is_evidence : Fields → Bool
is_evidence attributes = not (is_undefined (get attributes "sdar.evidence.kind"))

abbrev pub is_mission_relation : Fields → Bool
is_mission_relation attributes = not (is_undefined (get attributes "sdar.fact.kind"))
