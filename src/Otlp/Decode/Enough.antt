-- ===== src/Otlp/Decode/Enough.antt =====
-- `decodeAnyValue` ends: what lies inside a field is shorter than the buffer, so no value is deeper
-- than its bytes are long.
use smpp_telemetry_platform.Base.{
  ℕ, zero, suc, ◌<◌, ◌≤◌, ◌≡◌, refl, sym, ap, ◌∙◌, ◌%◌, ◌/◌, ◌^◌, ◌==◌, ltb, inl, inr, String, [],
  ◌∷◌, length, take, arith, if◌then◌else◌,
}
use smpp_telemetry_platform.Base.Result.{
  Result, ok, ◌>>=◌, Ensures, holding, after, Ensures-ok, Ensures-err, in_both, Result-cases,
}
use smpp_telemetry_platform.Json.{Value, null, max_safe}
use smpp_telemetry_platform.Otlp.Wire.{
  Bytes, ProtobufField, bytes, split, field_value, field, parse_message,
}
use smpp_telemetry_platform.Otlp.Progress.{
  varint-Shorter, field-Shorter, parse_message-empty, parse_message-unread, parse_message-refused,
  parse_message-handled,
}
use smpp_telemetry_platform.Canonical.Hash.{set}
use smpp_telemetry_platform.Otlp.Decode.{
  push, field_with, Codec, chunk_of, run, finished, is, array_field, array_value, key_field,
  key_value, member_field, key_value_list, any_field, any_value,
}

abbrev inner : ProtobufField → ℕ
inner f = length (chunk_of f.value)

take-length_le : (n : ℕ) (xs : Bytes) → length (take n xs) ≤ length xs
take-length_le zero xs = omega arith
take-length_le (suc n) [] = omega arith
take-length_le (suc n) (x ∷ xs) = omega (arith, take-length_le n xs)

split-inner :
    (size : ℕ) (code : String) (buffer : Bytes)
    → Ensures (λ r. length r.0 ≤ length buffer) (split size code buffer)
unfolding split
split-inner size code buffer =
    in_both (ltb (length buffer) size) Ensures-err (Ensures-ok (take-length_le size buffer))

module _ (to_number : ℕ → ℕ) where
  bytes-inner :
      (buffer : Bytes) → Ensures (λ r. length r.0 ≤ length buffer) (bytes to_number buffer)
  unfolding bytes
  bytes-inner buffer = holding (varint-Shorter buffer) λ r short.
      in_both (ltb max_safe (to_number r.0)) Ensures-err (record {
        returns = λ t h.
            omega (arith, (split-inner (to_number r.0) "PROTO_TRUNCATED_BYTES" r.1).returns t h);
      })

  field_value-inner :
      (n wire : ℕ) (buffer : Bytes)
      → Ensures (λ t. inner t.0 ≤ length buffer) (field_value to_number n wire buffer)
  unfolding field_value
  field_value-inner n wire buffer = in_both (wire == 0) (after λ r _. Ensures-ok (omega arith)) (
      in_both (wire == 1)
        (holding (split-inner 8 "PROTO_TRUNCATED_FIXED64" buffer) λ r h. Ensures-ok h)
        (in_both (wire == 2) (holding (bytes-inner buffer) λ r h. Ensures-ok h) (
          in_both (wire == 5)
            (holding (split-inner 4 "PROTO_TRUNCATED_FIXED32" buffer) λ r h. Ensures-ok h)
            (in_both (wire == 3) Ensures-err
              (in_both (wire == 4) Ensures-err (in_both (wire == 6) Ensures-err Ensures-err))))))

  -- what a field holds is shorter than the buffer
  field-inner : (buffer : Bytes) → Ensures (λ t. inner t.0 < length buffer) (field to_number buffer)
  unfolding field
  field-inner buffer = holding (varint-Shorter buffer) λ r short.
      let tag = to_number r.0 in
      in_both (tag % 2 ^ 32 / 8 == 0) Ensures-err (record {
        returns =
            λ t h. omega (arith, (field_value-inner (tag % 2 ^ 32 / 8) (tag % 8) r.1).returns t h);
      })

  -- handlers that agree on what is shorter than the buffer make the same of it
  parse_message-agrees {ℓ} :
      {S : Type ℓ} (h k : ProtobufField → S → Result S) (fuel : ℕ) (buffer : Bytes) (s : S)
      → ((f : ProtobufField) (s : S) → inner f < length buffer → h f s ≡ k f s)
      → parse_message to_number h fuel buffer s ≡ parse_message to_number k fuel buffer s
  unfolding parse_message
  parse_message-agrees h k fuel [] s same =
      parse_message-empty to_number h fuel s ∙ sym (parse_message-empty to_number k fuel s)
  parse_message-agrees h k zero (b ∷ bs) s same = refl
  parse_message-agrees h k (suc fuel) (b ∷ bs) s same =
      elim (Result-cases (field to_number (b ∷ bs))) [
        | inr (code, read) ↦
            parse_message-unread to_number h fuel b bs s read
            ∙ sym (parse_message-unread to_number k fuel b bs s read)
        | inl (t, read) ↦
            let short = (field-Shorter to_number (b ∷ bs)).returns t read in
            let agreed = same t.0 s ((field-inner (b ∷ bs)).returns t read) in
            elim (Result-cases (k t.0 s)) [
              | inr (code, refused) ↦
                  parse_message-refused to_number h fuel b bs s t read (agreed ∙ refused)
                  ∙ sym (parse_message-refused to_number k fuel b bs s t read refused)
              | inl (s', handled) ↦
                  parse_message-handled to_number h fuel b bs s t read (agreed ∙ handled)
                  ∙ parse_message-agrees h k fuel t.1 s' (λ f s within. same f s (omega arith))
                  ∙ sym (parse_message-handled to_number k fuel b bs s t read handled)
            ]
      ]

module _ (codec : Codec) where
  run-agrees {ℓ} :
      {S : Type ℓ} (h k : ProtobufField → S → Result S) (buffer : Bytes) (s : S)
      → ((f : ProtobufField) (s : S) → inner f < length buffer → h f s ≡ k f s)
      → run codec h buffer s ≡ run codec k buffer s
  unfolding run
  run-agrees h k buffer s same =
      ap finished (parse_message-agrees codec.to_number h k (length buffer) buffer s same)

  -- two decoders that agree on what is shorter than some length
  module _ (a b : Bytes → Result Value) (n : ℕ)
      (same : (c : Bytes) → length c < n → a c ≡ b c) where
    array_value-agrees :
        (buffer : Bytes)
        → length buffer ≤ n
        → array_value codec a buffer ≡ array_value codec b buffer
    unfolding array_value array_field
    array_value-agrees buffer small = run-agrees _ _ buffer _ λ f values within.
        ap (λ r. if is f 1 2 then (r >>= λ v. ok (push values v)) else ok values)
          (same (chunk_of f.value) (omega arith))

    key_value-agrees :
        (buffer : Bytes) → length buffer ≤ n → key_value codec a buffer ≡ key_value codec b buffer
    unfolding key_value key_field
    key_value-agrees buffer small = run-agrees _ _ buffer _ λ f pair within.
        ap
          (λ (r : Result Value).
            if is f 1 2
            then ok (codec.utf8 (chunk_of f.value), pair.1)
            else if is f 2 2
            then (r >>= λ v. ok (pair.0, v))
            else ok pair)
          (same (chunk_of f.value) (omega arith))

    key_value_list-agrees :
        (buffer : Bytes)
        → length buffer ≤ n
        → key_value_list codec a buffer ≡ key_value_list codec b buffer
    unfolding key_value_list member_field
    key_value_list-agrees buffer small = run-agrees _ _ buffer _ λ f fields within.
        ap (λ r. if is f 1 2 then (r >>= λ p. ok (set p.0 p.1 fields)) else ok fields)
          (key_value-agrees (chunk_of f.value) (omega arith))

    any_field-agrees :
        (f : ProtobufField) (output : Value)
        → inner f ≤ n
        → any_field codec a f output ≡ any_field codec b f output
    unfolding any_field
    any_field-agrees f output within =
        ap (λ values. field_with codec f output values (key_value_list codec a (chunk_of f.value)))
          (array_value-agrees (chunk_of f.value) within)
        ∙ ap (field_with codec f output (array_value codec b (chunk_of f.value)))
            (key_value_list-agrees (chunk_of f.value) within)

  -- A value is decoded the same whatever would decode what lies deeper than its bytes are long: that
  -- is never called.
  pub any_value-enough :
      (a b : Bytes → Result Value) (depth : ℕ) (buffer : Bytes)
      → length buffer ≤ depth
      → any_value codec a depth buffer ≡ any_value codec b depth buffer
  unfolding any_value
  any_value-enough a b zero buffer small =
      run-agrees _ _ buffer null λ f output within. absurd (omega (arith, within, small))
  any_value-enough a b (suc depth) buffer small = run-agrees _ _ buffer null λ f output within.
      any_field-agrees (any_value codec a depth) (any_value codec b depth) (suc depth)
        (λ c shorter. any_value-enough a b depth c (omega arith)) f output (omega arith)
