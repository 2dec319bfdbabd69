-- ===== src/Correlation.antt =====
-- telemetry-processor/src/packages/validation/provider-correlation-policy.ts: the correlation
-- metadata of a ProviderOps envelope, checked and put in one form.
pub mod Domain
pub mod Origin
pub mod Lists
use smpp_telemetry_platform.Base.{
  ℕ, zero, suc, ◌+◌, ◌-◌, ◌*◌, Bool, true, false, not, ◌&&◌, ◌||◌, String, List, [], ◌∷◌, map, ltb,
  leb, str_eq, if◌then◌else◌, ◌==◌, length, any, Option, none, some,
}
use smpp_telemetry_platform.Base.Text.{
  codes, text_length, one_of, fold_case, matches_fold, sort, unique,
}
use smpp_telemetry_platform.Base.Result.{Result, Done, ok, err, ◌>>=◌, ◌>>◌, require}
use smpp_telemetry_platform.Json.{
  Value, Items, Fields, undefined, null, bool, num, str, arr, obj, nil, cons, end, field, Number,
  pos, get, has_key, is_nullish, coalesce, max_safe,
}

abbrev pub legacy_origin_keys : List String
legacy_origin_keys =
    "originSystem" ∷ "originDeploymentId" ∷ "originRuntimeInstanceId" ∷ "originRuntimeInstanceIds"
    ∷ "originTaskId" ∷ "originTaskIds" ∷ "originInvocationId" ∷ "originInvocationIds" ∷ []

abbrev pub single_origin_keys : List String
single_origin_keys = "originRuntimeInstanceId" ∷ "originTaskId" ∷ "originInvocationId" ∷ []

abbrev pub evaluation_keys : List String
evaluation_keys =
    "episodeId" ∷ "episode_id" ∷ "caseId" ∷ "case_id" ∷ "benchmarkRunId" ∷ "benchmark_run_id"
    ∷ "candidateId" ∷ "candidate_id" ∷ "profileVersionId" ∷ "profile_version_id" ∷ "baselineId"
    ∷ "baseline_id" ∷ "comparisonId" ∷ "comparison_id" ∷ []

abbrev pub is_digit_code : ℕ → Bool
is_digit_code c = leb b'0' c && leb c b'9'

-- `\d+$`
unfoldable pub only_digits : List ℕ → Bool
only_digits [] = false
only_digits (c ∷ []) = is_digit_code c
only_digits (c ∷ d ∷ cs) = is_digit_code c && only_digits (d ∷ cs)

-- `/^(?:m|f|hg)\d+$/i`, on the folded codes
unfoldable pub score_code : List ℕ → Bool
unfolding only_digits
score_code [] = false
score_code (c ∷ []) = false
score_code (c ∷ d ∷ cs) =
    (c == b'm' || c == b'f') && only_digits (d ∷ cs) || c == b'h' && d == b'g' && only_digits cs

unfoldable pub is_evaluation_key : String → Bool
unfolding score_code fold_case
is_evaluation_key key =
    one_of evaluation_keys key
    || score_code (map fold_case (codes key))
    || matches_fold "totalscore" key
    || matches_fold "releasegate" key
    || matches_fold "formalscore" key
    || matches_fold "grade" key

-- `scanForbiddenEvaluationIdentity`: whether it throws. `depth` is what is left of the twelve
-- levels, and one more: at 0 the scan returns.
unfoldable mutual
  pub scan : ℕ → Value → Bool
  scan zero v = false
  scan (suc depth) (arr items) = scan_items depth items
  scan (suc depth) (obj fields) = scan_fields depth fields
  scan (suc depth) undefined = false
  scan (suc depth) null = false
  scan (suc depth) (bool b) = false
  scan (suc depth) (num n) = false
  scan (suc depth) (str s) = false

  pub scan_items : ℕ → Items → Bool
  scan_items depth nil = false
  scan_items depth (cons v items) = scan depth v || scan_items depth items

  pub scan_fields : ℕ → Fields → Bool
  scan_fields depth end = false
  scan_fields depth (field key v fields) =
      is_evaluation_key key || scan depth v || scan_fields depth fields

unfoldable pub optional_string : Value → String → ℕ → Result (Option String)
optional_string undefined code limit = ok none
optional_string null code limit = ok none
optional_string (str s) code limit =
    if text_length s == 0 || ltb limit (text_length s) then err code else ok (some s)
optional_string _ code limit = err code

-- an item of an array: a string, and never null
unfoldable pub present : Option String → Result String
present none = err "SMPP_ORIGIN_METADATA_INVALID"
present (some id) = ok id

unfoldable pub item_count : Items → ℕ
item_count nil = 0
item_count (cons v items) = suc (item_count items)

unfoldable pub origin_ids : Items → Result (List String)
unfolding optional_string present
origin_ids nil = ok []
origin_ids (cons v items) = do
  id ← optional_string v "SMPP_ORIGIN_METADATA_INVALID" 256 >>= present
  ids ← origin_ids items
  ok (id ∷ ids)

unfoldable pub origin_array : Value → Result (List String)
unfolding origin_ids item_count
origin_array undefined = ok []
origin_array null = ok []
origin_array (arr items) =
    if ltb 64 (item_count items)
    then err "SMPP_ORIGIN_METADATA_TOO_LARGE"
    else origin_ids items >>= λ ids. ok (sort (unique ids))
origin_array _ = err "SMPP_ORIGIN_METADATA_INVALID"

-- `isRecord(value) ? value : {}`
unfoldable pub fields_of : Value → Fields
fields_of (obj fields) = fields
fields_of _ = end

-- a record or nothing
unfoldable pub is_record_or_nullish : Value → Bool
is_record_or_nullish (obj fields) = true
is_record_or_nullish v = is_nullish v

unfoldable pub decimal : ℕ → List ℕ → ℕ
decimal acc [] = acc
decimal acc (c ∷ cs) = decimal (10 * acc + (c - b'0')) cs

-- The attempt: a safe integer that is not negative, as a number or in digits.
unfoldable pub attempt_fits : Value → Bool
unfolding only_digits decimal
attempt_fits (num (pos n)) = leb n max_safe
attempt_fits (str s) = only_digits (codes s) && leb (decimal 0 (codes s)) max_safe
attempt_fits _ = false

unfoldable pub attempt : Value → Result Value
unfolding attempt_fits
attempt v =
    if is_nullish v
    then ok null
    else if attempt_fits v
    then ok v
    else err "SMPP_CORRELATION_ATTEMPT_INVALID"

-- What `normalizeProviderCorrelation` returns, but for the constant fields.
pub record Correlation : Type 0 where
  pub correlation_id : Option String
  pub causation_record_id : Option String
  pub trace_id : Option String
  pub span_id : Option String
  pub route_id : Option String
  pub attempt_no : Value
  pub origin_system : Option String
  pub origin_deployment_id : Option String
  pub origin_runtime_instance_ids : List String
  pub origin_task_ids : List String
  pub origin_invocation_ids : List String

unfoldable pub has_any : List String → List String → List String → Bool
has_any xs ys zs = ltb 0 (length xs + length ys + length zs)

unfoldable pub is_named : Option String → Bool
is_named none = false
is_named (some s) = true

unfoldable pub is_sdar : Option String → Bool
is_sdar none = false
is_sdar (some s) = str_eq s "sdar"

-- an identity of the envelope, the correlation or the attributes, in that order
unfoldable pub claimed : Fields → Fields → Fields → String → Result (Option String)
unfolding optional_string
claimed envelope correlation attributes key =
    optional_string
      (coalesce (coalesce (get envelope key) (get correlation key)) (get attributes key))
      "SMPP_CORRELATION_FIELD_INVALID" 256

-- the fields after the origin, which may still throw
unfoldable pub with_claims :
    Fields
    → Fields
    → Fields
    → Value
    → Option String
    → Option String
    → List String
    → List String
    → List String
    → Result Correlation
unfolding claimed optional_string
with_claims envelope correlation attributes attempt_no system deployment instances tasks
      invocations =
    do
      correlation_id ← claimed envelope correlation attributes "correlationId"
      causation_record_id ← claimed envelope correlation attributes "causationRecordId"
      trace_id ← claimed envelope correlation attributes "traceId"
      span_id ← claimed envelope correlation attributes "spanId"
      route_id ←
          optional_string (coalesce (get correlation "routeId") (get attributes "routeId"))
            "SMPP_CORRELATION_FIELD_INVALID" 256
      ok (record {
        correlation_id = correlation_id;
        causation_record_id = causation_record_id;
        trace_id = trace_id;
        span_id = span_id;
        route_id = route_id;
        attempt_no = attempt_no;
        origin_system = system;
        origin_deployment_id = deployment;
        origin_runtime_instance_ids = instances;
        origin_task_ids = tasks;
        origin_invocation_ids = invocations;
      })

-- the correlation's own checks
unfoldable pub normalize_with : Fields → Fields → Fields → Result Correlation
unfolding with_claims origin_array optional_string attempt has_any is_named is_sdar
normalize_with envelope attributes correlation = do
  require (not (any (has_key correlation) single_origin_keys)) "SMPP_ORIGIN_METADATA_INVALID"
  instances ← origin_array (get correlation "originRuntimeInstanceIds")
  tasks ← origin_array (get correlation "originTaskIds")
  invocations ← origin_array (get correlation "originInvocationIds")
  system ← optional_string (get correlation "originSystem") "SMPP_ORIGIN_METADATA_INVALID" 64
  deployment ←
      optional_string (get correlation "originDeploymentId") "SMPP_ORIGIN_METADATA_INVALID" 256
  require (not (has_any instances tasks invocations && not (is_named system)))
      "SMPP_ORIGIN_SYSTEM_MISSING"
  require (not (has_any instances tasks invocations && is_sdar system && not (is_named deployment)))
      "SMPP_ORIGIN_DEPLOYMENT_MISSING"
  attempt_no ← attempt (coalesce (get correlation "attemptNo") (get attributes "attemptNo"))
  with_claims envelope correlation attributes attempt_no system deployment instances tasks
      invocations

unfoldable pub normalize_provider_correlation : Fields → Result Correlation
unfolding scan normalize_with fields_of is_record_or_nullish
normalize_provider_correlation envelope = do
  require (not (scan 13 (obj envelope))) "SMPP_EVALUATION_DOMAIN_IDENTITY_FORBIDDEN"
  let attributes = fields_of (get envelope "attributes")
  require (not (any (has_key attributes) legacy_origin_keys)) "SMPP_ORIGIN_METADATA_INVALID"
  let payload = fields_of (get envelope "payload")
  require (not (any (has_key payload) legacy_origin_keys)) "SMPP_ORIGIN_METADATA_INVALID"
  let raw = get attributes "correlation"
  require (is_record_or_nullish raw) "SMPP_ORIGIN_METADATA_INVALID"
  normalize_with envelope attributes (fields_of raw)
