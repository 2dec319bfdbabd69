-- ===== src/Runtime/Checks.antt =====
-- The helpers of smpp-runtime-semantics.ts: each returns a checked value or throws its code.
use smpp_telemetry_platform.Base.{
  ℕ, String, Bool, not, ◌&&◌, ◌||◌, Option, none, some, List, [], ◌∷◌, leb, str_eq, if◌then◌else◌,
  any,
}
use smpp_telemetry_platform.Base.Text.{text_length, one_of, matches_fold}
use smpp_telemetry_platform.Base.Result.{Result, Done, ok, err, ◌>>=◌, ◌>>◌, require}
use smpp_telemetry_platform.Json.{
  Value, Items, Fields, undefined, null, bool, num, str, arr, obj, nil, cons, pos, get, keys,
  strict_eq, max_safe,
}
use smpp_telemetry_platform.Timestamp.{valid_timestamp}

abbrev pub uncertainty_classes : List String
uncertainty_classes =
    "response_lost_after_adapter_success" ∷ "adapter_transport_ambiguous" ∷ "runtime_crash_window"
    ∷ "unknown" ∷ []

abbrev pub reconciliation_statuses : List String
reconciliation_statuses =
    "found" ∷ "not_found" ∷ "conflict" ∷ "transient_unavailable" ∷ "deferred" ∷ []

abbrev pub mcp_task_statuses : List String
mcp_task_statuses = "completed" ∷ "failed" ∷ "cancelled" ∷ []

abbrev pub business_statuses : List String
business_statuses = "succeeded" ∷ "failed" ∷ "unknown" ∷ "not_applicable" ∷ []

abbrev pub transport_statuses : List String
transport_statuses = "completed" ∷ "response_lost_after_commit" ∷ "unavailable" ∷ "unknown" ∷ []

abbrev pub evidence_kinds : List String
evidence_kinds = "position" ∷ "speed" ∷ "mission" ∷ "state" ∷ "health" ∷ "other" ∷ []

abbrev pub mission_statuses : List String
mission_statuses = "exact" ∷ "unresolved" ∷ "conflict" ∷ []

abbrev pub runtime_authority_instance : String
runtime_authority_instance = "smpp-runtime-postgres-authority"

unfoldable pub object : Value → String → Result Fields
object (obj fs) code = ok fs
object _ code = err code

unfoldable pub string : Value → String → Result String
string (str s) code =
    if str_eq s "" then err code else if leb (text_length s) 512 then ok s else err code
string _ code = err code

unfoldable pub optional_string : Value → String → Result (Option String)
unfolding string
optional_string null code = ok none
optional_string undefined code = ok none
optional_string v code = string v code >>= λ s. ok (some s)

unfoldable pub utc : (String → Option ℕ) → Value → String → Result String
unfolding string
utc date_parse v code = do
  result ← string v code
  require (valid_timestamp date_parse result) code
  ok result

-- every item is a text that is not empty
unfoldable pub string_items : Items → String → Result (List String)
string_items nil code = ok []
string_items (cons (str s) vs) code =
    if str_eq s "" then err code else (string_items vs code >>= λ rest. ok (s ∷ rest))
string_items (cons _ vs) code = err code

unfoldable pub string_array : Value → String → Result (List String)
unfolding string_items
string_array (arr vs) code = string_items vs code
string_array _ code = err code

unfoldable pub enum_value : Value → List String → String → Result String
unfolding string
enum_value v allowed code = do
  result ← string v code
  require (one_of allowed result) code
  ok result

abbrev pub same : Value → Value → String → Done
same left right code = require (strict_eq left right) code

-- `typeof v === 'number' && Number.isSafeInteger(v) && least <= v`, thrown otherwise
unfoldable pub safe_at_least : ℕ → Value → String → Result ℕ
safe_at_least least (num (pos n)) code = if leb n max_safe && leb least n then ok n else err code
safe_at_least least _ code = err code

unfoldable pub boolean : Value → String → Result Bool
boolean (bool b) code = ok b
boolean _ code = err code

-- `if (value !== undefined) same(value, other, code)`
unfoldable pub same_if_given : Value → Value → String → Done
same_if_given undefined other code = ok tt
same_if_given v other code = same v other code

unfoldable pub common_task_identity : Fields → Fields → Result String
unfolding string same_if_given
common_task_identity envelope payload = do
  task_id ← string (get envelope "taskId") "SMPP_RUNTIME_TASK_ID_REQUIRED"
  same_if_given (get payload "taskId") (str task_id) "SMPP_RUNTIME_TASK_ID_MISMATCH"
  same_if_given (get payload "operationName") (get envelope "operationName")
      "SMPP_RUNTIME_OPERATION_MISMATCH"
  same_if_given (get payload "argumentHash") (get envelope "argumentHash")
      "SMPP_RUNTIME_ARGUMENT_HASH_MISMATCH"
  ok task_id

-- The two places of the execution identity: equal where both are given, one needed if required.
unfoldable pub agreed_execution : Option String → Option String → Bool → Result (Option String)
agreed_execution (some top) (some nested) required =
    if str_eq nested top then ok (some top) else err "SMPP_RUNTIME_EXECUTION_ID_MISMATCH"
agreed_execution (some top) none required = ok (some top)
agreed_execution none (some nested) required = ok (some nested)
agreed_execution none none required =
    if required then err "SMPP_RUNTIME_EXECUTION_ID_REQUIRED" else ok none

unfoldable pub external_execution_identity : Fields → Fields → Bool → Result (Option String)
unfolding agreed_execution optional_string
external_execution_identity envelope payload required = do
  top ← optional_string (get envelope "externalExecutionId") "SMPP_RUNTIME_EXECUTION_ID_INVALID"
  nested ← optional_string (get payload "externalExecutionId") "SMPP_RUNTIME_EXECUTION_ID_INVALID"
  agreed_execution top nested required

unfoldable pub committed_runtime : Fields → Fields → Bool
committed_runtime envelope attributes =
    strict_eq (get attributes "source") (str "committed_postgres")
    && strict_eq (get envelope "instanceId") (str runtime_authority_instance)

abbrev pub verdict_key : String → Bool
verdict_key key =
    matches_fold "goalachieved" key
    || matches_fold "physicalsuccess" key
    || matches_fold "benchmarkpass" key
    || matches_fold "score" key

unfoldable pub assert_no_evaluation_verdict : Fields → Fields → Done
assert_no_evaluation_verdict attributes payload =
    require (not (any verdict_key (keys attributes) || any verdict_key (keys payload)))
      "SMPP_RUNTIME_EVALUATION_VERDICT_FORBIDDEN"
