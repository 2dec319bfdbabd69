-- ===== src/Tests/Wires.antt =====
-- OTLP bytes at concrete inputs.
use smpp_telemetry_platform.Otlp.Decode.{
  Codec, any_value, decode_any_value, run, any_field, field_with, array_value, array_field, push,
}
use smpp_telemetry_platform.Otlp.Decode.Enough.{any_value-enough}
use smpp_telemetry_platform.Json.{nan, null, bool, arr, cons, nil}
use smpp_telemetry_platform.Base.{ℕ, ◌≡◌, ◌≢◌, refl, true, none, List, [], ◌∷◌, ◌++◌, arith}
use smpp_telemetry_platform.Base.Result.{Result, ok, err, ◌>>=◌}
use smpp_telemetry_platform.Otlp.Wire.{
  Bytes, ProtobufField, varint, varint_from, parse_message, field, field_value, bytes, split,
}
use smpp_telemetry_platform.Otlp.Encode.{push_varint}
use smpp_telemetry_platform.Otlp.Varint.{varint-push_varint}
use smpp_telemetry_platform.Otlp.Progress.{parse_message-ends}

varint-push_varint_example : varint (push_varint 300 ++ 7 ∷ []) ≡ ok (300, 7 ∷ [])
varint-push_varint_example = varint-push_varint 300 (7 ∷ []) (omega arith)

abbrev exact : ℕ → ℕ
exact n = n

abbrev collect : ProtobufField → List ProtobufField → Result (List ProtobufField)
collect f fs = ok (f ∷ fs)

abbrev one_field : Bytes
one_field = 0x0a ∷ 2 ∷ 8 ∷ 3 ∷ []

parse_message-ends_example : parse_message exact collect 4 one_field [] ≢ none
parse_message-ends_example = parse_message-ends exact collect 4 one_field [] (omega arith)

abbrev plain_codec : Codec
plain_codec = record {
  to_number = λ n. n;
  utf8 = λ bytes. "text";
  double = λ bytes. nan;
  base64 = λ bytes. "";
  decimal = λ positive n. "0";
}

-- an array of the value true
abbrev array_bytes : List ℕ
array_bytes = 0x2a ∷ 0x04 ∷ 0x0a ∷ 0x02 ∷ 0x10 ∷ 0x01 ∷ []

any_value-enough_example :
    any_value plain_codec (λ _. err "TOO_DEEP") 6 array_bytes
    ≡ any_value plain_codec (λ _. ok null) 6 array_bytes
any_value-enough_example =
    any_value-enough plain_codec (λ _. err "TOO_DEEP") (λ _. ok null) 6 array_bytes (omega arith)

array_decodes : decode_any_value plain_codec array_bytes ≡ ok (arr (cons (bool true) nil))
unfolding decode_any_value any_value run parse_message field varint varint_from ◌>>=◌ field_value
    bytes split any_field field_with array_value array_field push
array_decodes = refl
