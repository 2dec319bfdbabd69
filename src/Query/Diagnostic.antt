-- ===== src/Query/Diagnostic.antt =====
-- telemetry-dashboard/query-api/src/observability-query.ts: the SQL of a diagnostic request. A
-- request is its path and its parameters. `Date.parse`, `toISOString` of a time and `String` of a
-- number are the fields of `Clock`.

pub mod Limits
use Prim.Native.Char.{code}
use smpp_telemetry_platform.Base.{
  ℕ, zero, suc, ◌+◌, ◌*◌, ◌-◌, String, Bool, true, false, not, ◌&&◌, ◌||◌, Option, none, some, List,
  [], ◌∷◌, ◌++◌, leb, ltb, ◌==◌, str_eq, if◌then◌else◌, length, all, any,
}
use smpp_telemetry_platform.Base.Text.{codes, text_length, one_of}
use smpp_telemetry_platform.Base.Pattern.{is_digit_code}
use smpp_telemetry_platform.Base.Result.{Result, ok, err, ◌>>=◌, ◌>>◌, require}
use smpp_telemetry_platform.Json.{max_safe}
use smpp_telemetry_platform.Query.Urn.{◌⋯◌}
use smpp_telemetry_platform.Query.Scope.{Parameters, escape_all, join_and}

pub record Clock : Type 0 where
  -- the times are numbered in their order; `none` is the NaN
  pub date_parse : String → Option ℕ
  pub iso : ℕ → String
  pub show : ℕ → String

-- `DiagnosticQuery`
pub record Query : Type 0 where
  pub sql : String
  pub limit : ℕ
  pub offset : ℕ
  pub kind : String

-- `metricTables`
abbrev pub metric_tables : List (String × String)
metric_tables =
    ("gauge", "otel_metrics_gauge")
    ∷ ("sum", "otel_metrics_sum")
    ∷ ("histogram", "otel_metrics_histogram")
    ∷ ("exponential_histogram", "otel_metrics_exp_histogram")
    ∷ ("summary", "otel_metrics_summary")
    ∷ []

-- `quote`
unfoldable pub quote : String → String
unfolding escape_all
quote value = "'" ⋯ escape_all "'" (escape_all "\\" value) ⋯ "'"

-- `parameters.get(key)`
unfoldable pub parameter : Parameters → String → Option String
parameter [] key = none
parameter (p ∷ ps) key = if str_eq p.0 key then some p.1 else parameter ps key

-- `Number` of a text of digits
unfoldable pub number_from : ℕ → List ℕ → ℕ
number_from n [] = n
number_from n (c ∷ cs) = number_from (n * 10 + (c - b'0')) cs

-- `/^\d+$/`
unfoldable pub is_digits : List ℕ → Bool
is_digits [] = false
is_digits (c ∷ cs) = is_digit_code c && all is_digit_code cs

abbrev pub invalid : String → String
invalid key = "INVALID_" ⋯ key

abbrev pub minimum : String → ℕ
minimum key = if str_eq key "limit" then 1 else 0

abbrev pub in_range : String → ℕ → ℕ → Bool
in_range key maximum value =
    not (not (leb value max_safe) || ltb value (minimum key) || ltb maximum value)

unfoldable pub integer_of : Option String → String → ℕ → ℕ → Result ℕ
unfolding number_from is_digits
integer_of none key fallback maximum = ok fallback
integer_of (some text) key fallback maximum = do
  require (is_digits (codes text)) (invalid key)
  require (in_range key maximum (number_from 0 (codes text))) (invalid key)
  ok (number_from 0 (codes text))

-- `integer`
unfoldable pub integer : Parameters → String → ℕ → ℕ → Result ℕ
unfolding integer_of parameter
integer ps key fallback maximum = integer_of (parameter ps key) key fallback maximum

-- what follows a text
unfoldable pub after_prefix : String → String → Option String
after_prefix String.[] text = some text
after_prefix (String.◌∷◌ p ps) String.[] = none
after_prefix (String.◌∷◌ p ps) (String.◌∷◌ c cs) =
    if code p == code c then after_prefix ps cs else none

abbrev pub segment : Option String → Option String
segment none = none
segment (some text) =
    if str_eq text "" || any (λ c. c == b'/') (codes text) then none else some text

-- `/^\/api\/v1\/traces\/([^/]+)$/.exec(pathname)`, with its group
unfoldable pub trace_match : String → Option String
unfolding after_prefix
trace_match path = segment (after_prefix "/api/v1/traces/" path)

-- `[a-f0-9]`
abbrev pub is_hex_code : ℕ → Bool
is_hex_code c = is_digit_code c || leb b'a' c && leb c b'f'

-- `/^[a-f0-9]{32}$/`
unfoldable pub is_trace_id : String → Bool
is_trace_id text = all is_hex_code (codes text) && length (codes text) == 32

-- `dimensions`: a parameter and its column
abbrev pub dimensions : Bool → List (String × String)
dimensions metrics =
    ("serviceName", "ServiceName")
    ∷ ("runtimeInstanceId", "ResourceAttributes['service.instance.id']")
    ∷ ("providerId", "ResourceAttributes['sdar.provider.id']")
    ∷ ("deploymentId", "ResourceAttributes['telemetry.source.deployment_id']")
    ∷ ("collectionProtocol", "ResourceAttributes['telemetry.collection.protocol']")
    ∷ (if metrics
        then ("metricName", "MetricName") ∷ []
        else ("spanName", "SpanName") ∷ ("traceId", "TraceId") ∷ [])

-- the condition of one dimension, if the request has it
unfoldable pub dimension : String × String → Option String → Result (List String)
unfolding quote is_trace_id
dimension d none = ok []
dimension d (some value) = do
  require (not (str_eq value "") && leb (text_length value) 512) (invalid d.0)
  require (not (str_eq d.0 "traceId") || is_trace_id value) "INVALID_traceId"
  ok ((d.1 ⋯ "=" ⋯ quote value) ∷ [])

-- the loop on the dimensions
unfoldable pub dimension_conditions : Parameters → List (String × String) → Result (List String)
unfolding dimension parameter
dimension_conditions ps [] = ok []
dimension_conditions ps (d ∷ ds) = do
  first ← dimension d (parameter ps d.0)
  rest ← dimension_conditions ps ds
  ok (first ++ rest)

unfoldable pub trace_condition : Option String → Result (List String)
unfolding quote is_trace_id
trace_condition none = ok []
trace_condition (some id) = do
  require (is_trace_id id) "INVALID_traceId"
  ok (("TraceId=" ⋯ quote id) ∷ [])

abbrev pub is_some {ℓ} : {A : Type ℓ} → Option A → Bool
is_some none = false
is_some (some _) = true

-- `metricTables[type]`
unfoldable pub table_of : List (String × String) → String → String
table_of [] type = ""
table_of (t ∷ ts) type = if str_eq t.0 type then t.1 else table_of ts type

abbrev pub or_gauge : Option String → String
or_gauge none = "gauge"
or_gauge (some type) = type

abbrev pub keys_of : List (String × String) → List String
keys_of [] = []
keys_of (t ∷ ts) = t.0 ∷ keys_of ts

-- `from === null`
abbrev pub recent : String → Option String → List String
recent time none = (time ⋯ " >= now() - INTERVAL 7 DAY") ∷ []
recent time (some _) = []

module _ (clock : Clock) where
  -- one turn of the loop on `from` and `to`
  unfoldable pub time_condition : String → String → String → Option String → Result (List String)
  unfolding quote
  time_condition time operator key none = ok []
  time_condition time operator key (some value) = elim (clock.date_parse value) [
    | none ↦ err (invalid key)
    | some at ↦
        require (not (str_eq value "")) (invalid key)
        >> ok (
            (time ⋯ operator ⋯ "parseDateTime64BestEffort(" ⋯ quote (clock.iso at) ⋯ ",9,'UTC')")
            ∷ [])
  ]

  abbrev pub ordered : Option ℕ → Option ℕ → Bool
  ordered (some start) (some stop) = not (ltb stop start)
  ordered _ _ = true

  abbrev pub parsed : Option String → Option ℕ
  parsed none = none
  parsed (some text) = clock.date_parse text

  -- the request of metrics or traces
  unfoldable pub query_of : Bool → Option String → Parameters → Result Query
  unfolding integer dimension_conditions trace_condition time_condition table_of
  query_of metrics trace ps = do
    limit ← integer ps "limit" 100 1000
    offset ← integer ps "offset" 0 100000
    let type = or_gauge (parameter ps "type")
    let time = if metrics then "TimeUnix" else "Timestamp"
    let start = parameter ps "from"
    let stop = parameter ps "to"
    require (not metrics || one_of (keys_of metric_tables) type) "INVALID_type"
    named ← dimension_conditions ps (dimensions metrics)
    traced ← trace_condition trace
    started ← time_condition time ">=" "from" start
    stopped ← time_condition time "<=" "to" stop
    require (ordered (parsed start) (parsed stop)) "INVALID_time_range"
    ok (record {
      kind = if metrics then type else "traces";
      limit = limit;
      offset = offset;
      sql =
          "SELECT DISTINCT * FROM telemetry_observability."
          ⋯ (if metrics then table_of metric_tables type else "otel_traces")
          ⋯ " WHERE "
          ⋯ join_and (named ++ traced ++ started ++ stopped ++ recent time start)
          ⋯ " ORDER BY "
          ⋯ time
          ⋯ " DESC,"
          ⋯ (if metrics
              then "MetricName,cityHash64(ResourceAttributes),cityHash64(Attributes)"
              else "TraceId,SpanId")
          ⋯ " LIMIT "
          ⋯ clock.show (limit + 1)
          ⋯ " OFFSET "
          ⋯ clock.show offset;
    })

  unfoldable pub diagnostic_query : String → Parameters → Result (Option Query)
  unfolding query_of trace_match
  diagnostic_query path ps =
      let metrics = str_eq path "/api/v1/metrics" in
      let trace = trace_match path in
      if not metrics && not (str_eq path "/api/v1/traces") && not (is_some trace)
      then ok none
      else (query_of metrics trace ps >>= λ query. ok (some query))
