-- ===== src/Otlp/Progress.antt =====
-- Every read of otlp-protobuf.ts consumes bytes, so `parseMessage` ends.
use Prim.Native.Nat.{bit_and, bit_or, ◌*◌, ◌^◌}
use smpp_telemetry_platform.Base.{
  ℕ, zero, suc, ◌+◌, ◌<◌, ◌≤◌, ◌≡◌, ◌≢◌, ◌/◌, ◌%◌, ◌==◌, ltb, refl, sym, ◌∙◌, inl, inr, String, [],
  ◌∷◌, arith, length, none, some, length-drop,
}
use smpp_telemetry_platform.Base.Result.{
  Result, ok, err, Ensures, holding, Ensures-ok, Ensures-err, in_both, Result-cases,
}
use smpp_telemetry_platform.Json.{max_safe}
use smpp_telemetry_platform.Otlp.Wire.{
  Bytes, ProtobufField, varint_from, varint, bytes, split, field_value, field, parse_message,
}

abbrev pub Shorter {ℓ} : {A : Type ℓ} → Bytes → A × Bytes → Type 0
Shorter buffer r = length r.1 < length buffer

abbrev NoLonger {ℓ} : {A : Type ℓ} → Bytes → A × Bytes → Type 0
NoLonger buffer r = length r.1 ≤ length buffer

varint_from-Shorter :
    (value shift : ℕ) (buffer : Bytes) (r : ℕ × Bytes)
    → varint_from value shift buffer ≡ ok r
    → length r.1 < length buffer
unfolding varint_from
varint_from-Shorter value shift [] r h = cc
varint_from-Shorter value shift (b ∷ bs) r h =
    ground (arith, varint_from-Shorter (bit_or value (bit_and b 0x7f * 2 ^ shift)) (shift + 7) bs r)

pub varint-Shorter : (buffer : Bytes) → Ensures (Shorter buffer) (varint buffer)
unfolding varint
varint-Shorter buffer = record { returns = λ r h. varint_from-Shorter 0 0 buffer r h }

split-NoLonger :
    (size : ℕ) (code : String) (buffer : Bytes) → Ensures (NoLonger buffer) (split size code buffer)
unfolding split
split-NoLonger size code buffer =
    in_both (ltb (length buffer) size) Ensures-err
      (Ensures-ok (omega (arith, length-drop size buffer)))

module _ (to_number : ℕ → ℕ) where
  bytes-Shorter : (buffer : Bytes) → Ensures (Shorter buffer) (bytes to_number buffer)
  unfolding bytes
  bytes-Shorter buffer = holding (varint-Shorter buffer) λ r short.
      in_both (ltb max_safe (to_number r.0)) Ensures-err (record {
        returns = λ t h.
            omega (arith, (split-NoLonger (to_number r.0) "PROTO_TRUNCATED_BYTES" r.1).returns t h);
      })

  field_value-NoLonger :
      (n wire : ℕ) (buffer : Bytes)
      → Ensures (NoLonger buffer) (field_value to_number n wire buffer)
  unfolding field_value
  field_value-NoLonger n wire buffer =
      in_both (wire == 0) (holding (varint-Shorter buffer) λ r short. Ensures-ok (omega arith)) (
        in_both (wire == 1)
          (holding (split-NoLonger 8 "PROTO_TRUNCATED_FIXED64" buffer) λ r h. Ensures-ok h)
          (in_both (wire == 2) (holding (bytes-Shorter buffer) λ r h. Ensures-ok (omega arith)) (
            in_both (wire == 5)
              (holding (split-NoLonger 4 "PROTO_TRUNCATED_FIXED32" buffer) λ r h. Ensures-ok h)
              (in_both (wire == 3) Ensures-err
                (in_both (wire == 4) Ensures-err (in_both (wire == 6) Ensures-err Ensures-err))))))

  pub field-Shorter : (buffer : Bytes) → Ensures (Shorter buffer) (field to_number buffer)
  unfolding field
  field-Shorter buffer = holding (varint-Shorter buffer) λ r short.
      let tag = to_number r.0 in
      in_both (tag % 2 ^ 32 / 8 == 0) Ensures-err (record {
        returns = λ t h.
            omega (arith, (field_value-NoLonger (tag % 2 ^ 32 / 8) (tag % 8) r.1).returns t h);
      })

  module _ {ℓ} {S : Type ℓ} (handler : ProtobufField → S → Result S) where
    pub parse_message-empty :
        (fuel : ℕ) (s : S) → parse_message to_number handler fuel [] s ≡ some (ok s)
    unfolding parse_message
    parse_message-empty zero s = refl
    parse_message-empty (suc fuel) s = refl

    -- a message that does not start with a readable field, or whose field is refused
    module _ (fuel b : ℕ) (bs : Bytes) (s : S) where
      pub parse_message-unread :
          {code : String}
          → field to_number (b ∷ bs) ≡ err code
          → parse_message to_number handler (suc fuel) (b ∷ bs) s ≡ some (err code)
      unfolding parse_message
      parse_message-unread read = rw (read, parse_message) refl

      module _ (t : ProtobufField × Bytes) (read : field to_number (b ∷ bs) ≡ ok t) where
        pub parse_message-refused :
            {code : String}
            → handler t.0 s ≡ err code
            → parse_message to_number handler (suc fuel) (b ∷ bs) s ≡ some (err code)
        unfolding parse_message
        parse_message-refused refused = rw (read, refused, parse_message) refl

        pub parse_message-handled :
            {s' : S}
            → handler t.0 s ≡ ok s'
            → parse_message to_number handler (suc fuel) (b ∷ bs) s
              ≡ parse_message to_number handler fuel t.1 s'
        unfolding parse_message
        parse_message-handled {s'} handled = rw (read, handled, parse_message) refl

    -- `parseMessage` ends on every input: as much fuel as the buffer has bytes is enough,
    -- whatever the handler does.
    pub parse_message-ends :
        (fuel : ℕ) (buffer : Bytes) (s : S)
        → length buffer ≤ fuel
        → parse_message to_number handler fuel buffer s ≢ none
    parse_message-ends fuel [] s h e = let empty = parse_message-empty fuel s in cc
    parse_message-ends zero (b ∷ bs) s h e = omega arith
    parse_message-ends (suc fuel) (b ∷ bs) s h e = elim (Result-cases (field to_number (b ∷ bs))) [
      | inr (code, read) ↦ let stops = parse_message-unread fuel b bs s read in cc
      | inl (t, read) ↦ elim (Result-cases (handler t.0 s)) [
        | inr (code, refused) ↦ let stops = parse_message-refused fuel b bs s t read refused in cc
        | inl (s', handled) ↦
            let short = (field-Shorter (b ∷ bs)).returns t read in
            parse_message-ends fuel t.1 s' (omega arith)
              (sym (parse_message-handled fuel b bs s t read handled) ∙ e)
      ]
    ]
