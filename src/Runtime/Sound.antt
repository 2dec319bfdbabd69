-- ===== src/Runtime/Sound.antt =====
-- What a successful inspection guarantees: the invariant of the blocks of
-- `inspectSmppRuntimeSemantic`. Its children prove it for each block.
pub mod Facts
pub mod Steps
pub mod Whole
pub mod Bound
pub mod Claimed
use smpp_telemetry_platform.Base.{
  ℕ, ◌≤◌, ◌≡◌, ◌≢◌, ◌⊎◌, ◌↔◌, String, true, false, Option, none, some, List, [], ◌∷◌, OnSome,
}
use smpp_telemetry_platform.Json.{
  Value, Items, Fields, undefined, nil, cons, arr, bool, num, pos, str, get, is_nullish,
}
use smpp_telemetry_platform.Timestamp.{is_some}
use smpp_telemetry_platform.Runtime.Checks.{committed_runtime}
use smpp_telemetry_platform.Runtime.Semantic.{
  Binding, Uncertainty, Reconciliation, BusinessTerminal, Evidence, MissionRelation, Readiness,
  Semantic, is_uncertainty, is_text,
}

-- an optional text as it stands in the record
unfoldable pub Given : Value → Option String → Type 0
Given v none = is_nullish v ≡ true
Given v (some t) = v ≡ str t

-- the text is given in one of two places, and the other does not say another
unfoldable pub Agreed : Value → Value → Option String → Type 0
unfolding Given
Agreed top nested none = Given top none × Given nested none
Agreed top nested (some t) =
    Given top (some t) × (Given nested none ⊎ Given nested (some t))
    ⊎ Given top none × Given nested (some t)

unfoldable pub texts : List String → Items
texts [] = nil
texts (t ∷ ts) = cons (str t) (texts ts)

-- a list of texts, which may be left out where it is empty
unfoldable pub Listed : Value → List String → Type 0
Listed v ts = (v ≡ undefined) × (ts ≡ []) ⊎ (v ≡ arr (texts ts))

module _ (envelope attributes payload : Fields) where
  abbrev pub Committed : Type 0
  Committed = committed_runtime envelope attributes ≡ true

  abbrev pub UncertaintyHolds : Uncertainty → Type 0
  UncertaintyHolds u =
      Committed
      × (is_uncertainty attributes payload ≡ true)
      × (u.redispatch_allowed ≡ false)
      × (get payload "redispatchAllowed" ≡ bool false)
      × (get envelope "taskId" ≡ str u.task_id)
      × (get payload "operationName" ≡ str u.operation_name)
      × (get payload "argumentHash" ≡ str u.argument_hash)
      × (get payload "uncertaintyClass" ≡ str u.uncertainty_class)
      × (get payload "occurredAt" ≡ str u.occurred_at)
      × Listed (get payload "causalRefs") u.causal_refs

  abbrev pub ReconciliationHolds : Reconciliation → Type 0
  ReconciliationHolds r =
      Committed
      × (is_uncertainty attributes payload ≡ false)
      × (1 ≤ r.attempt)
      × (get payload "attempt" ≡ num (pos r.attempt))
      × (get envelope "taskId" ≡ str r.task_id)
      × (get payload "status" ≡ str r.status)
      × (get payload "identityValidated" ≡ bool r.identity_validated)
      × (get payload "occurredAt" ≡ str r.occurred_at)
      × Agreed (get envelope "externalExecutionId") (get payload "externalExecutionId")
          r.external_execution_id
      × (r.status ≡ "found"
          → (r.identity_validated ≡ true) × (is_some r.external_execution_id ≡ true))

  -- the reconciliation found this execution of this task
  abbrev pub FoundBy : Binding → Option Reconciliation → Type 0
  FoundBy b none = ⊥
  FoundBy b (some r) =
      (r.status ≡ "found")
      × (r.identity_validated ≡ true)
      × (r.task_id ≡ b.task_id)
      × (r.external_execution_id ≡ b.external_execution_id)

  abbrev pub BindingHolds : Option Reconciliation → Binding → Type 0
  BindingHolds found b =
      Committed
      × (is_uncertainty attributes payload ≡ false)
      × (get envelope "taskId" ≡ str b.task_id)
      × (is_some b.external_execution_id ≡ true)
      × ((b.binding_source ≡ "smpp_runtime_committed_binding")
            × Given (get envelope "externalExecutionId") b.external_execution_id
          ⊎ ((b.binding_source ≡ "smpp_runtime_reconciliation_found") × FoundBy b found))

  abbrev pub TerminalHolds : BusinessTerminal → Type 0
  TerminalHolds t =
      Committed
      × (get envelope "taskId" ≡ str t.task_id)
      × (get payload "mcpTaskStatus" ≡ str t.mcp_task_status)
      × (get payload "businessStatus" ≡ str t.business_status)
      × (get payload "transportStatus" ≡ str t.transport_status)
      × (get payload "providerExecutionStatus" ≡ str t.provider_execution_status)
      × (get payload "isError" ≡ bool t.is_error)
      × ((t.is_error ≡ true) ↔ (t.business_status ≡ "failed"))

  abbrev pub EvidenceHolds : Evidence → Type 0
  EvidenceHolds e =
      (get attributes "sdar.evidence.kind" ≡ str e.kind)
      × (get envelope "taskId" ≡ str e.task_id)
      × (get envelope "externalExecutionId" ≡ str e.external_execution_id)
      × (get envelope "resourceId" ≡ str e.resource_id)
      × (get envelope "occurredAt" ≡ str e.observed_at)
      × Given (get attributes "sdar.device.mission_id") e.device_mission_id
      × (is_some e.device_mission_id ≡ true → e.kind ≡ "mission")

  abbrev pub MissionHolds : MissionRelation → Type 0
  MissionHolds m =
      (get envelope "taskId" ≡ str m.task_id)
      × (get envelope "externalExecutionId" ≡ str m.external_execution_id)
      × (get attributes "sdar.mission.relation_status" ≡ str m.relation_status)
      × (get payload "relationStatus" ≡ str m.relation_status)
      × Given (get attributes "sdar.device.mission_id") m.device_mission_id
      × Given (get payload "deviceMissionId") m.device_mission_id
      × (get attributes "sdar.mission.source_record_refs" ≡ arr (texts m.source_record_refs))
      × (get payload "observedAt" ≡ str m.observed_at)
      × ((m.relation_status ≡ "exact") ↔ (is_some m.device_mission_id ≡ true))
      × (m.relation_status ≡ "exact" → m.source_record_refs ≢ [])

  -- why a record may be called ready
  abbrev pub ReadyBecause : Semantic → Type 0
  ReadyBecause s =
      (is_some s.binding ≡ true)
      ⊎ (is_some s.evidence ≡ true)
      ⊎ OnSome (λ m. m.relation_status ≡ "exact") s.mission_relation
        × (is_some s.mission_relation ≡ true)

  pub record IsSound (s : Semantic) : Type 0 where
    pub uncertain : OnSome UncertaintyHolds s.uncertainty
    pub reconciled : OnSome ReconciliationHolds s.reconciliation
    pub bound : OnSome (BindingHolds s.reconciliation) s.binding
    pub ended : OnSome TerminalHolds s.business_terminal
    pub observed : OnSome EvidenceHolds s.evidence
    pub related : OnSome MissionHolds s.mission_relation
    pub is_ready : s.readiness.status ≡ "ready" → ReadyBecause s
