-- ===== src/Otlp/Wire.antt =====
-- The readers of otlp-protobuf.ts: `varint`, `bytes`, `field` and `parseMessage`.
-- `to_number` is the rounding of `Number(bigint)`.
use Prim.Native.Nat.{bit_and, bit_or}
use smpp_telemetry_platform.Base.{
  ℕ, zero, suc, ◌+◌, ◌*◌, ◌/◌, ◌%◌, ◌^◌, String, List, [], ◌∷◌, ltb, ◌==◌, if◌then◌else◌, length,
  take, drop, Option, none, some,
}
use smpp_telemetry_platform.Base.Result.{Result, ok, err, ◌>>=◌}
use smpp_telemetry_platform.Json.{max_safe}

abbrev pub Bytes : Type 0
Bytes = List ℕ

-- The loop of `varint`. The value is a BigInt, so it does not wrap.
unfoldable pub varint_from : ℕ → ℕ → Bytes → Result (ℕ × Bytes)
varint_from value shift [] = err "PROTO_TRUNCATED_VARINT"
varint_from value shift (byte ∷ buffer) =
    let value' = bit_or value (bit_and byte 0x7f * 2 ^ shift) in
    let more = varint_from value' (shift + 7) buffer in
    if bit_and byte 0x80 == 0
    then ok (value', buffer)
    else if ltb 70 (shift + 7)
    then err "PROTO_VARINT_TOO_LONG"
    else more

unfoldable pub varint : Bytes → Result (ℕ × Bytes)
varint buffer = varint_from 0 0 buffer

-- A field's value: a number on wire 0, otherwise bytes.
pub data Payload : Type 0 where
  number : ℕ → Payload
  chunk : Bytes → Payload

pub record ProtobufField : Type 0 where
  pub number : ℕ
  pub wire : ℕ
  pub value : Payload

-- `buffer.subarray` of a length that is there
unfoldable pub split : ℕ → String → Bytes → Result (Bytes × Bytes)
split size code buffer =
    if ltb (length buffer) size then err code else ok (take size buffer, drop size buffer)

module _ (to_number : ℕ → ℕ) where
  unfoldable pub bytes : Bytes → Result (Bytes × Bytes)
  unfolding split
  bytes buffer = do
    (big, rest) ← varint buffer
    let size = to_number big
    if ltb max_safe size
        then err "PROTO_TRUNCATED_BYTES"
        else split size "PROTO_TRUNCATED_BYTES" rest

  -- the value after the tag, by the wire type
  unfoldable pub field_value : ℕ → ℕ → Bytes → Result (ProtobufField × Bytes)
  unfolding split
  field_value n wire buffer =
      if wire == 0
      then (varint buffer >>= λ r. ok (record { number = n; wire = wire; value = number r.0 }, r.1))
      else if wire == 1
      then (split 8 "PROTO_TRUNCATED_FIXED64" buffer >>= λ r.
          ok (record { number = n; wire = wire; value = chunk r.0 }, r.1))
      else if wire == 2
      then (bytes buffer >>= λ r. ok (record { number = n; wire = wire; value = chunk r.0 }, r.1))
      else if wire == 5
      then (split 4 "PROTO_TRUNCATED_FIXED32" buffer >>= λ r.
          ok (record { number = n; wire = wire; value = chunk r.0 }, r.1))
      else if wire == 3
      then err "PROTO_UNSUPPORTED_WIRE_3"
      else if wire == 4
      then err "PROTO_UNSUPPORTED_WIRE_4"
      else if wire == 6
      then err "PROTO_UNSUPPORTED_WIRE_6"
      else err "PROTO_UNSUPPORTED_WIRE_7"

  -- `tag >>> 3` keeps 32 bits of the tag first
  unfoldable pub field : Bytes → Result (ProtobufField × Bytes)
  unfolding field_value
  field buffer = do
    (big, rest) ← varint buffer
    let tag = to_number big
    let n = tag % 2 ^ 32 / 8
    if n == 0 then err "PROTO_INVALID_FIELD" else field_value n (tag % 8) rest

  module _ {ℓ} {S : Type ℓ} (handler : ProtobufField → S → Result S) where
    -- `parseMessage`, its handler over an explicit state; `none` means that the fuel ran out.
    unfoldable pub parse_message : ℕ → Bytes → S → Option (Result S)
    parse_message fuel [] s = some (ok s)
    parse_message zero (b ∷ bs) s = none
    parse_message (suc fuel) (b ∷ bs) s = elim (field (b ∷ bs)) [
      | err code ↦ some (err code)
      | ok (f, rest) ↦ elim (handler f s) [
        | err code ↦ some (err code)
        | ok s' ↦ parse_message fuel rest s'
      ]
    ]
