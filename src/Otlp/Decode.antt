-- ===== src/Otlp/Decode.antt =====
-- The decoders of otlp-protobuf.ts above `parseMessage`. The fields of `Codec` are what node and the
-- runtime provide: texts of bytes, doubles, base64, and a BigInt in decimal by its sign and size. No
-- key of an attribute is `__proto__`, which an object would not keep as a member.
pub mod Enough
use Prim.Native.String.{◌++◌ as text_append}
use smpp_telemetry_platform.Base.{
  ℕ, zero, suc, ◌+◌, ◌-◌, ◌*◌, ◌^◌, ◌%◌, String, Bool, true, false, not, ◌&&◌, Option, none, some,
  List, [], ◌∷◌, ◌++◌, ltb, leb, ◌==◌, if◌then◌else◌, length,
}
use smpp_telemetry_platform.Base.Uuid.{hex}
use smpp_telemetry_platform.Base.Result.{Result, ok, err, ◌>>=◌}
use smpp_telemetry_platform.Json.{
  Value, Number, Items, Fields, null, bool, num, pos, negsuc, str, arr, obj, nil, cons, end,
  max_safe,
}
use smpp_telemetry_platform.Canonical.Hash.{set}
use smpp_telemetry_platform.Otlp.Wire.{Bytes, Payload, ProtobufField, number, chunk, parse_message}

pub record Codec : Type 0 where
  pub to_number : ℕ → ℕ
  pub utf8 : Bytes → String
  pub double : Bytes → Number
  pub base64 : Bytes → String
  pub decimal : Bool → ℕ → String

-- `OtlpScope`
pub record Scope : Type 0 where
  pub name : String
  pub version : String

-- `DecodedOtlpLog`
pub record Log : Type 0 where
  pub resource : Fields
  pub scope : Scope
  pub event_name : String
  pub body : Value
  pub attributes : Fields
  pub time_unix_nano : String
  pub trace_id : String
  pub span_id : String

-- `f.number === n && f.wire === wire`
abbrev pub is : ProtobufField → ℕ → ℕ → Bool
is f n wire = f.number == n && f.wire == wire

abbrev pub chunk_of : Payload → Bytes
chunk_of (number n) = []
chunk_of (chunk bytes) = bytes

abbrev pub number_of : Payload → ℕ
number_of (number n) = n
number_of (chunk bytes) = 0

-- `values.push(value)`
unfoldable pub push : Items → Value → Items
push nil v = cons v nil
push (cons w ws) v = cons w (push ws v)

-- `readBigUInt64LE`
unfoldable pub little_endian : Bytes → ℕ
little_endian [] = 0
little_endian (b ∷ bs) = b + 256 * little_endian bs

abbrev pub no_scope : Scope
no_scope = record { name = ""; version = "" }

-- a loop has as much fuel as its buffer has bytes
abbrev pub finished {ℓ} : {S : Type ℓ} → Option (Result S) → Result S
finished none = err "OUT_OF_FUEL"
finished (some result) = result

module _ (codec : Codec) where
  unfoldable pub run {ℓ} : {S : Type ℓ} → (ProtobufField → S → Result S) → Bytes → S → Result S
  run handler buffer s = finished (parse_message codec.to_number handler (length buffer) buffer s)

  -- `BigInt.asIntN(64, value)`, as a number where it is a safe one
  unfoldable pub signed : ℕ → Value
  signed value =
      let low = value % 2 ^ 64 in
      if ltb low (2 ^ 63)
      then (if leb low max_safe then num (pos low) else str (codec.decimal true low))
      else (if leb (2 ^ 64 - low) max_safe
          then num (negsuc (2 ^ 64 - low - 1))
          else str (codec.decimal false (2 ^ 64 - low)))

  -- the handler of a value, from what an array or a list of keys in the field decodes to
  unfoldable pub field_with : ProtobufField → Value → Result Items → Result Fields → Result Value
  unfolding signed
  field_with f output values fields =
      if is f 1 2
      then ok (str (codec.utf8 (chunk_of f.value)))
      else if is f 2 0
      then ok (bool (not (number_of f.value == 0)))
      else if is f 3 0
      then ok (signed (number_of f.value))
      else if is f 4 1
      then ok (num (codec.double (chunk_of f.value)))
      else if is f 5 2
      then (values >>= λ vs. ok (arr vs))
      else if is f 6 2
      then (fields >>= λ fs. ok (obj fs))
      else if is f 7 2
      then ok (str (codec.base64 (chunk_of f.value)))
      else ok output

  -- the handlers and loops over a decoder `any` of the values inside
  module _ (any : Bytes → Result Value) where
    unfoldable pub array_field : ProtobufField → Items → Result Items
    unfolding push
    array_field f values =
        if is f 1 2 then (any (chunk_of f.value) >>= λ v. ok (push values v)) else ok values

    -- `decodeArrayValue`
    unfoldable pub array_value : Bytes → Result Items
    unfolding run array_field
    array_value buffer = run array_field buffer nil

    unfoldable pub key_field : ProtobufField → String × Value → Result (String × Value)
    key_field f pair =
        if is f 1 2
        then ok (codec.utf8 (chunk_of f.value), pair.1)
        else if is f 2 2
        then (any (chunk_of f.value) >>= λ v. ok (pair.0, v))
        else ok pair

    -- `decodeKeyValue`
    unfoldable pub key_value : Bytes → Result (String × Value)
    unfolding run key_field
    key_value buffer = run key_field buffer ("", null)

    unfoldable pub member_field : ProtobufField → Fields → Result Fields
    unfolding key_value
    member_field f fields =
        if is f 1 2
        then (key_value (chunk_of f.value) >>= λ p. ok (set p.0 p.1 fields))
        else ok fields

    -- `decodeKeyValueList`, and `decodeAttributes`, which does the same
    unfoldable pub key_value_list : Bytes → Result Fields
    unfolding run member_field
    key_value_list buffer = run member_field buffer end

    unfoldable pub any_field : ProtobufField → Value → Result Value
    unfolding array_value key_value_list field_with
    any_field f output =
        field_with f output (array_value (chunk_of f.value)) (key_value_list (chunk_of f.value))

  -- `decodeAnyValue`, as deep as the fuel; `deepest` decodes what lies deeper
  unfoldable pub any_value : (Bytes → Result Value) → ℕ → Bytes → Result Value
  unfolding run any_field
  any_value deepest zero buffer = run (any_field deepest) buffer null
  any_value deepest (suc depth) buffer = run (any_field (any_value deepest depth)) buffer null

  -- a value is no deeper than its bytes are long
  unfoldable pub decode_any_value : Bytes → Result Value
  unfolding any_value
  decode_any_value buffer = any_value (λ _. err "TOO_DEEP") (length buffer) buffer

  unfoldable pub log_field : ProtobufField → Log → Result Log
  unfolding decode_any_value key_value little_endian
  log_field f log =
      if is f 1 1
      then ok
          (record log { time_unix_nano = codec.decimal true (little_endian (chunk_of f.value)) })
      else if is f 5 2
      then (decode_any_value (chunk_of f.value) >>= λ v. ok (record log { body = v }))
      else if is f 6 2
      then (key_value decode_any_value (chunk_of f.value) >>= λ p.
          ok (record log { attributes = set p.0 p.1 log.attributes }))
      else if is f 9 2
      then ok (record log { trace_id = hex (chunk_of f.value) })
      else if is f 10 2
      then ok (record log { span_id = hex (chunk_of f.value) })
      else if is f 12 2
      then ok (record log { event_name = codec.utf8 (chunk_of f.value) })
      else ok log

  -- `decodeLogRecord`
  unfoldable pub decode_log_record : Fields → Scope → Bytes → Result Log
  unfolding run log_field
  decode_log_record resource scope buffer = run log_field buffer (record {
    resource = resource;
    scope = scope;
    event_name = "";
    body = null;
    attributes = end;
    time_unix_nano = "0";
    trace_id = "";
    span_id = "";
  })

  unfoldable pub scope_field : ProtobufField → Scope → Result Scope
  scope_field f scope =
      if is f 1 2
      then ok (record scope { name = codec.utf8 (chunk_of f.value) })
      else if is f 2 2
      then ok (record scope { version = codec.utf8 (chunk_of f.value) })
      else ok scope

  -- `decodeScope`
  unfoldable pub decode_scope : Bytes → Result Scope
  unfolding run scope_field
  decode_scope buffer = run scope_field buffer no_scope

  unfoldable pub scope_logs_field : ProtobufField → Scope × List Bytes → Result (Scope × List Bytes)
  unfolding decode_scope
  scope_logs_field f state =
      if is f 1 2
      then (decode_scope (chunk_of f.value) >>= λ scope. ok (scope, state.1))
      else if is f 2 2
      then ok (state.0, state.1 ++ (chunk_of f.value ∷ []))
      else ok state

  -- `recordBuffers.map(...)`
  unfoldable pub decode_records : Fields → Scope → List Bytes → Result (List Log)
  unfolding decode_log_record
  decode_records resource scope [] = ok []
  decode_records resource scope (buffer ∷ buffers) = do
    log ← decode_log_record resource scope buffer
    logs ← decode_records resource scope buffers
    ok (log ∷ logs)

  -- `decodeScopeLogs`
  unfoldable pub decode_scope_logs : Fields → Bytes → Result (List Log)
  unfolding run scope_logs_field decode_records
  decode_scope_logs resource buffer = run scope_logs_field buffer (no_scope, []) >>= λ state.
      decode_records resource state.0 state.1

  unfoldable pub resource_logs_field :
      ProtobufField → Fields × List Bytes → Result (Fields × List Bytes)
  unfolding key_value_list decode_any_value
  resource_logs_field f state =
      if is f 1 2
      then (key_value_list decode_any_value (chunk_of f.value) >>= λ resource.
          ok (resource, state.1))
      else if is f 2 2
      then ok (state.0, state.1 ++ (chunk_of f.value ∷ []))
      else ok state

  -- `scopes.flatMap(...)`
  unfoldable pub decode_scopes : Fields → List Bytes → Result (List Log)
  unfolding decode_scope_logs
  decode_scopes resource [] = ok []
  decode_scopes resource (buffer ∷ buffers) = do
    logs ← decode_scope_logs resource buffer
    later ← decode_scopes resource buffers
    ok (logs ++ later)

  -- `decodeResourceLogs`
  unfoldable pub decode_resource_logs : Bytes → Result (List Log)
  unfolding run resource_logs_field decode_scopes
  decode_resource_logs buffer =
      run resource_logs_field buffer (end, []) >>= λ state. decode_scopes state.0 state.1

  unfoldable pub request_field : ProtobufField → List Log → Result (List Log)
  unfolding decode_resource_logs
  request_field f logs =
      if is f 1 2
      then (decode_resource_logs (chunk_of f.value) >>= λ later. ok (logs ++ later))
      else ok logs

  unfoldable pub decode_otlp_protobuf : Bytes → Result (List Log)
  unfolding run request_field
  decode_otlp_protobuf buffer = run request_field buffer []
