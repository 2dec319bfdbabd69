-- ===== src/Wal/Segment/Scan.antt =====
-- A scan reads back the frames that were appended, and repairs a tail that is no whole frame.
use smpp_telemetry_platform.Base.{
  ℕ, suc, ◌+◌, ◌^◌, ◌≤◌, ◌<◌, ◌≡◌, refl, sym, ap, ◌∙◌, List, [], ◌++◌, length, length-append,
  take-length_append, drop-length_append, take, drop, ==-self, Option, some, arith,
}
use mathlib.Core.List.{append-nil}
use smpp_telemetry_platform.Base.Result.{ok, ◌>>=◌, require}
use smpp_telemetry_platform.Json.{Value, Fields, obj}
use smpp_telemetry_platform.Wal.Crc.{crc32c, crc32c-bound}
use smpp_telemetry_platform.Wal.Segment.{
  max_frame_bytes, RawFrame, write_u32, read_u32, frame_bytes, as_record, decode,
}

length-write_u32 : (n : ℕ) → length (write_u32 n) ≡ 4
unfolding write_u32
length-write_u32 n = refl

read_u32-write_u32 : (n : ℕ) (rest : List ℕ) → n < 2 ^ 32 → read_u32 (write_u32 n ++ rest) ≡ n
unfolding read_u32 write_u32
read_u32-write_u32 n rest h = omega arith

pub length-frame_bytes : (payload : List ℕ) → length (frame_bytes payload) ≡ length payload + 8
unfolding frame_bytes
length-frame_bytes payload = omega (
  arith,
  length-append (write_u32 (length payload)) (payload ++ write_u32 (crc32c payload)),
  length-append payload (write_u32 (crc32c payload)),
  length-write_u32 (length payload),
  length-write_u32 (crc32c payload),
)

-- the frame that a payload is read back as
abbrev pub frame_at : ℕ → List ℕ × Fields → RawFrame
frame_at offset (payload, fields) = record {
  offset = offset;
  offset_end = offset + length (frame_bytes payload);
  crc = crc32c payload;
  record_fields = fields;
}

pub read-frame_bytes :
    (payload rest : List ℕ)
    → length payload ≤ max_frame_bytes
    → read_u32 (frame_bytes payload ++ rest) ≡ length payload
unfolding frame_bytes write_u32
read-frame_bytes payload rest h =
    read_u32-write_u32 (length payload) (payload ++ write_u32 (crc32c payload) ++ rest)
      (omega arith)

module _ (parse : List ℕ → Option Value) where
  -- a payload that is read as these fields, and is not too large
  pub record IsReadable (entry : List ℕ × Fields) : Type 0 where
    pub parsed : parse entry.0 ≡ some (obj entry.1)
    pub small : length entry.0 ≤ max_frame_bytes

  take-frame_payload :
      (payload : List ℕ) → take (length payload) (drop 4 (frame_bytes payload)) ≡ payload
  unfolding frame_bytes write_u32
  take-frame_payload payload = take-length_append payload (write_u32 (crc32c payload))

  drop-frame_payload :
      (payload : List ℕ)
      → drop (4 + length payload) (frame_bytes payload) ≡ write_u32 (crc32c payload)
  unfolding frame_bytes write_u32
  drop-frame_payload payload =
      ap (λ n. drop n (frame_bytes payload)) four_more
      ∙ drop-length_append payload (write_u32 (crc32c payload))
    where
      four_more : 4 + length payload ≡ suc (suc (suc (suc (length payload))))
      four_more = omega arith

  read-frame_crc :
      (payload : List ℕ)
      → read_u32 (drop (4 + length payload) (frame_bytes payload)) ≡ crc32c payload
  read-frame_crc payload =
      ap read_u32 (drop-frame_payload payload ∙ sym (append-nil _))
      ∙ read_u32-write_u32 (crc32c payload) [] (crc32c-bound payload)

  decode-known :
      (frame : List ℕ) (offset : ℕ) (entry : List ℕ × Fields)
      → read_u32 frame ≡ length entry.0
      → take (length entry.0) (drop 4 frame) ≡ entry.0
      → read_u32 (drop (4 + length entry.0) frame) ≡ crc32c entry.0
      → parse entry.0 ≡ some (obj entry.1)
      → decode parse frame offset
        ≡ ok (record {
          offset = offset;
          offset_end = offset + length frame;
          crc = crc32c entry.0;
          record_fields = entry.1;
        })
  unfolding decode as_record ◌>>=◌ require
  decode-known frame offset entry size payload crc parsed =
      simp (size, payload, crc, parsed, ==-self)

  pub decode-frame_bytes :
      (offset : ℕ) (entry : List ℕ × Fields)
      → IsReadable entry
      → decode parse (frame_bytes entry.0) offset ≡ ok (frame_at offset entry)
  decode-frame_bytes offset entry h =
      decode-known (frame_bytes entry.0) offset entry
        (ap read_u32 (sym (append-nil _)) ∙ read-frame_bytes entry.0 [] h.small)
        (take-frame_payload entry.0) (read-frame_crc entry.0) h.parsed
