-- ===== src/Runtime/Restore.antt =====
-- `restoreSmppRuntimeTransportSemantics` of smpp-runtime-semantics.ts: OTLP has no null, so nulls
-- are put back where the record hash proves that they were there.
pub mod Nulls
pub mod Laws
use smpp_telemetry_platform.Base.{
  String, Bool, true, false, not, ◌&&◌, ◌||◌, List, [], ◌∷◌, str_eq, if◌then◌else◌,
}
use smpp_telemetry_platform.Base.Result.{Result, ok, err}
use smpp_telemetry_platform.Json.{
  Value, Fields, undefined, null, bool, num, str, arr, obj, end, field, get, has_key, strict_eq,
}
use smpp_telemetry_platform.Canonical.{Printer}
use smpp_telemetry_platform.Canonical.Hash.{set, record_hash}

-- `nullIfTransportEmpty(key)`
unfoldable pub null_if_empty : String → Fields → Fields
null_if_empty key payload =
    if not (has_key payload key) || strict_eq (get payload key) (str "")
    then set key null payload
    else payload

unfoldable pub null_all : List String → Fields → Fields
unfolding null_if_empty
null_all [] payload = payload
null_all (k ∷ ks) payload = null_all ks (null_if_empty k payload)

abbrev reconciles : Fields → Fields → Bool
reconciles attributes payload =
    strict_eq (get attributes "semantic") (str "task.reconciliation")
    && strict_eq (get payload "schemaVersion") (str "sdar.smpp-reconciliation-result/v1")

-- The candidate's payload, the three tests in their order.
unfoldable pub restored_payload : Fields → Fields → Fields → Fields
unfolding null_all
restored_payload candidate attributes payload =
    let reconciled =
      if reconciles attributes payload
      then (let simulated = null_if_empty "simulationId" payload in
          if strict_eq (get simulated "status") (str "found")
          then simulated
          else null_if_empty "externalExecutionId" simulated)
      else payload in
    let task =
      if strict_eq (get candidate "recordType") (str "provider.task.lifecycle")
      then null_all
          ("previousState" ∷ "previousSubstate" ∷ "currentSubstate" ∷ "reasonCode" ∷ "resultClass"
            ∷ [])
          reconciled
      else reconciled in
    if strict_eq (get attributes "sdar.fact.kind") (str "mission_relation")
      && not (strict_eq (get attributes "sdar.mission.relation_status") (str "exact"))
    then null_if_empty "deviceMissionId" task
    else task

abbrev proven : Result Bool → Bool
proven (ok b) = b
proven (err code) = false

-- Where the attributes or the payload are no objects the source returns the envelope; here it is
-- its own candidate, which comes to the same.
abbrev candidate_of : Value → Value → Fields → Fields
candidate_of (obj attributes) (obj payload) envelope =
    set "payload" (obj (restored_payload envelope attributes payload)) envelope
candidate_of _ _ envelope = envelope

module _ (p : Printer) (sha256 : String → String) where
  -- `calculateProviderOpsRecordHash(envelope) === envelope.recordHash`
  hash_proves : Fields → Result Bool
  hash_proves envelope = elim (record_hash p sha256 envelope) [
    | ok h ↦ ok (strict_eq (str h) (get envelope "recordHash"))
    | err code ↦ err code
  ]

  -- the last `try`: the candidate if its hash proves it
  choose : Fields → Fields → Fields
  choose candidate envelope = if proven (hash_proves candidate) then candidate else envelope

  -- the branches on the envelope's own hash
  restore_with : Result Bool → Fields → Fields
  unfolding choose hash_proves
  restore_with (ok true) envelope = envelope
  restore_with (ok false) envelope =
      choose (candidate_of (get envelope "attributes") (get envelope "payload") envelope) envelope
  restore_with (err code) envelope = envelope

  unfoldable pub restore : Value → Value
  unfolding restore_with
  restore (obj envelope) = obj (restore_with (hash_proves envelope) envelope)
  restore v = v
