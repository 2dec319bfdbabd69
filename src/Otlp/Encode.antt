-- ===== src/Otlp/Encode.antt =====
-- `encodePartialSuccess` of otlp-protobuf.ts.
use Prim.Native.Nat.{bit_and, bit_or}
use mathlib.Core.Logic.{dite}
use mathlib.Core.WellFounded.{Acc}
use native.Mathlib.Decide.{dec_lt}
use smpp_telemetry_platform.Base.{ℕ, ◌/◌, ◌<◌, [], ◌∷◌, ◌++◌, arith, length}
use smpp_telemetry_platform.Base.Bits.{lt_wf}
use smpp_telemetry_platform.Otlp.Wire.{Bytes}

pub shift_shrinks : (v : ℕ) → 0 < v / 128 → v / 128 < v
shift_shrinks v h = omega arith

-- The loop of `pushVarint`: seven bits a byte, the top bit set while some are left.
unfoldable pub push_from : (v : ℕ) → Acc ◌<◌ v → Bytes
push_from v (Acc.intro _ smaller) =
    let low = bit_and v 0x7f in
    dite (dec_lt 0 (v / 128))
      (λ more. bit_or low 0x80 ∷ push_from (v / 128) (smaller (v / 128) (shift_shrinks v more)))
      (λ _. low ∷ [])

unfoldable pub push_varint : ℕ → Bytes
unfolding push_from lt_wf dec_lt
push_varint n = push_from n (lt_wf.apply n)

-- `msg.length ? … : Buffer.alloc(0)`
message_field : Bytes → Bytes
message_field [] = []
message_field (b ∷ bs) = 0x12 ∷ push_varint (length (b ∷ bs)) ++ b ∷ bs

-- the bytes of the partial success, before its own tag; `message` is the message in UTF-8
unfoldable pub partial_success : ℕ → Bytes → Bytes
unfolding message_field
partial_success rejected message = (0x08 ∷ push_varint rejected) ++ message_field message

unfoldable pub encode_partial_success : ℕ → Bytes → Bytes
encode_partial_success rejected message =
    let nested = partial_success rejected message in 0x0a ∷ push_varint (length nested) ++ nested
