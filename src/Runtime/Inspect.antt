-- ===== src/Runtime/Inspect.antt =====
-- `inspectSmppRuntimeSemantic`: the blocks in their order, each run if its kind is claimed.
use smpp_telemetry_platform.Base.{ℕ, String, Bool, Option, none, some, [], if◌then◌else◌}
use smpp_telemetry_platform.Base.Text.{sort, unique}
use smpp_telemetry_platform.Base.Result.{Result, ok, ◌>>=◌, ◌>>◌}
use smpp_telemetry_platform.Json.{Value, Fields, str, obj, end, get, coalesce}
use smpp_telemetry_platform.Runtime.Checks.{object, assert_no_evaluation_verdict}
use smpp_telemetry_platform.Runtime.Semantic.{
  Semantic, is_uncertainty, is_reconciliation, is_business_terminal, is_evidence,
  is_mission_relation,
}
use smpp_telemetry_platform.Runtime.Recovery.{inspect_uncertainty, inspect_reconciliation}
use smpp_telemetry_platform.Runtime.Observation.{inspect_evidence, inspect_mission_relation}
use smpp_telemetry_platform.Runtime.Closure.{
  inspect_business_terminal, closes_identity, close_identity,
}

-- `if (test) { block }`
abbrev pub block : Bool → (Semantic → Result Semantic) → Semantic → Result Semantic
block test f s = if test then f s else ok s

emitted_at : Value → Option String
emitted_at (str s) = some s
emitted_at _ = none

unfoldable pub initial : Fields → Semantic
unfolding emitted_at
initial envelope = record {
  capability_ids = [];
  binding = none;
  uncertainty = none;
  reconciliation = none;
  business_terminal = none;
  evidence = none;
  mission_relation = none;
  observed_at = emitted_at (get envelope "emittedAt");
  readiness = record { status = "not_required"; reason_codes = [] };
}

unfoldable pub finish : Semantic → Semantic
finish s = record s { capability_ids = sort (unique s.capability_ids) }

module _ (date_parse : String → Option ℕ) (envelope : Fields) where
  -- the body after the attributes and the payload are known to be objects
  unfoldable pub inspect_parts : Fields → Fields → Result Semantic
  inspect_parts attributes payload = do
    assert_no_evaluation_verdict attributes payload
    s1 ←
        block (is_uncertainty attributes payload)
          (inspect_uncertainty date_parse envelope attributes payload) (initial envelope)
    s2 ←
        block (is_reconciliation attributes payload)
          (inspect_reconciliation date_parse envelope attributes payload) s1
    s3 ←
        block (is_business_terminal payload) (inspect_business_terminal envelope attributes payload)
          s2
    s4 ← block (is_evidence attributes) (inspect_evidence date_parse envelope attributes payload) s3
    s5 ←
        block (is_mission_relation attributes)
          (inspect_mission_relation date_parse envelope attributes payload) s4
    s6 ←
        block (closes_identity envelope attributes payload s5)
          (close_identity envelope attributes payload) s5
    ok (finish s6)

  unfoldable pub inspect : Result Semantic
  inspect = do
    attributes ←
        object (coalesce (get envelope "attributes") (obj end)) "SMPP_RUNTIME_ATTRIBUTES_INVALID"
    payload ← object (coalesce (get envelope "payload") (obj end)) "SMPP_RUNTIME_PAYLOAD_INVALID"
    inspect_parts attributes payload
