-- ===== src/Tests/Objects.antt =====
-- Canonical JSON and runtime semantics at concrete inputs.
use smpp_telemetry_platform.Base.{
  ℕ, ◌≡◌, ◌⊎◌, refl, false, Option, some, String, arith, if◌then◌else◌, ◌==◌,
}
use smpp_telemetry_platform.Base.Text.{one_of, matches_fold}
use smpp_telemetry_platform.Base.Result.{ok, ◌>>=◌, require}
use smpp_telemetry_platform.Json.{
  Value, undefined, Number, pos, Fields, obj, str, bool, null, num, end, field, get, keys,
  strict_eq,
}
use smpp_telemetry_platform.Canonical.{Printer, canonicalize}
use smpp_telemetry_platform.Canonical.Hash.{
  set, record_hash, sha256_canonical, IsTransport, record_hash-Covered,
}
use smpp_telemetry_platform.Canonical.Order.{swap, canonicalize-Reordered}
use smpp_telemetry_platform.Runtime.Semantic.{Semantic}
use smpp_telemetry_platform.Runtime.Inspect.{inspect, inspect_parts}
use smpp_telemetry_platform.Runtime.Checks.{
  object, assert_no_evaluation_verdict, committed_runtime, common_task_identity, utc, enum_value,
}
use smpp_telemetry_platform.Runtime.Closure.{closes_identity}
use smpp_telemetry_platform.Runtime.Recovery.{inspect_uncertainty}
use smpp_telemetry_platform.Timestamp.{valid_timestamp, accepted, read, in_range}
use smpp_telemetry_platform.Runtime.Sound.{IsSound}
use smpp_telemetry_platform.Runtime.Sound.Claimed.{IsClaimed}
use smpp_telemetry_platform.Runtime.Sound.Whole.{inspect-IsSound}
use smpp_telemetry_platform.Runtime.Restore.{restore}
use smpp_telemetry_platform.Runtime.Restore.Laws.{IsRestored, restore-restore, restore-IsRestored}

abbrev one_digit : Number → String
one_digit (pos n) = if n == 1 then "1" else "0"
one_digit _ = "0"

abbrev plain : Printer
plain = record { quote = λ s. s; show = one_digit }

abbrev same_hash : String → String
same_hash s = s

abbrev stored : Fields
stored = field "recordId" (str "r1") (field "recordHash" (str "h") end)

record_hash-Covered_example :
    (covered : Fields) × (record_hash plain same_hash stored
      ≡ sha256_canonical plain same_hash (obj covered))
    × ((key : String) → ¬ IsTransport key → get covered key ≡ get stored key)
    × ((key : String) → IsTransport key → get covered key ≡ undefined)
    × ((key : String) (v : Value)
        → IsTransport key
        → record_hash plain same_hash (set key v stored) ≡ record_hash plain same_hash stored)
record_hash-Covered_example = record_hash-Covered plain same_hash stored

abbrev ordered : Fields
ordered = field "a" (num (pos 1)) (field "b" null end)

abbrev turned : Fields
turned = field "b" null (field "a" (num (pos 1)) end)

canonicalize-Reordered_example : canonicalize plain (obj ordered) ≡ canonicalize plain (obj turned)
canonicalize-Reordered_example =
    canonicalize-Reordered plain ordered turned (swap (λ h. ground (arith, h)))

abbrev uncertain_attributes : Fields
uncertain_attributes =
    field "semantic" (str "dispatch.uncertainty") (field "source" (str "committed_postgres") end)

abbrev uncertain_payload : Fields
uncertain_payload = field "schemaVersion" (str "sdar.smpp-dispatch-uncertainty/v1") (
    field "occurredAt" (str "2026-08-31T02:00:00.000Z") (
      field "redispatchAllowed" (bool false) (
        field "operationName" (str "navigate") (
          field "argumentHash" (str "aaaa")
            (field "uncertaintyClass" (str "runtime_crash_window") end)))))

abbrev uncertain : Fields
uncertain = field "recordType" (str "provider.recovery.lifecycle") (
    field "eventCategory" (str "recovery.lifecycle") (
      field "instanceId" (str "smpp-runtime-postgres-authority") (
        field "taskId" (str "task-1") (
          field "operationName" (str "navigate") (
            field "argumentHash" (str "aaaa") (
              field "occurredAt" (str "2026-08-31T02:00:00.000Z") (
                field "attributes" (obj uncertain_attributes)
                  (field "payload" (obj uncertain_payload) end))))))))

abbrev some_time : String → Option ℕ
some_time s = some 1785

uncertain_found : (s : Semantic) × (inspect some_time uncertain ≡ ok s)
unfolding inspect ◌>>=◌ object get inspect_parts assert_no_evaluation_verdict require keys
    matches_fold strict_eq inspect_uncertainty committed_runtime common_task_identity utc
    valid_timestamp accepted read in_range enum_value one_of closes_identity
uncertain_found = (_, refl)

inspect-IsSound_example :
    IsSound uncertain uncertain_attributes uncertain_payload uncertain_found.0
    × IsClaimed uncertain_attributes uncertain_payload uncertain_found.0
unfolding get
inspect-IsSound_example =
    inspect-IsSound some_time uncertain uncertain_attributes uncertain_payload refl refl
      uncertain_found.1

restore-restore_example :
    restore plain same_hash (restore plain same_hash (obj stored))
    ≡ restore plain same_hash (obj stored)
restore-restore_example = restore-restore plain same_hash (obj stored)

restore-IsRestored_example :
    (restore plain same_hash (obj stored) ≡ obj stored)
    ⊎ ((c : Fields) × (restore plain same_hash (obj stored) ≡ obj c)
        × IsRestored plain same_hash stored c)
restore-IsRestored_example = restore-IsRestored plain same_hash stored
