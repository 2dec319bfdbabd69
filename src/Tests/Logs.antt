-- ===== src/Tests/Logs.antt =====
-- The log's segments at concrete inputs.
use smpp_telemetry_platform.Base.{
  ℕ, ◌+◌, ◌≡◌, refl, true, false, Option, some, List, [], ◌∷◌, ◌++◌, take, length, arith,
}
use smpp_telemetry_platform.Json.{Value, Fields, obj, end}
use smpp_telemetry_platform.Wal.Segment.{frame_bytes, scan_frames, finished, repaired, partial_tail}
use smpp_telemetry_platform.Wal.Segment.Scan.{IsReadable}
use smpp_telemetry_platform.Wal.Segment.Written.{
  written, frames_at, after_frames, scan_frames-written,
}
use smpp_telemetry_platform.Wal.Segment.Torn.{IsTorn, scan_frames-torn, scan_frames-recovers}

-- every payload is read as an empty object
abbrev parse_empty : List ℕ → Option Value
parse_empty payload = some (obj end)

abbrev braces : List ℕ × Fields
braces = (0x7b ∷ 0x7d ∷ [], end)

abbrev indexed_bytes : List ℕ
indexed_bytes = 1 ∷ 2 ∷ 3 ∷ []

braces-IsReadable : IsReadable parse_empty braces
braces-IsReadable = record { parsed = refl; small = omega arith }

abbrev torn_bytes : List ℕ
torn_bytes = take 5 (frame_bytes braces.0)

torn : IsTorn torn_bytes
unfolding frame_bytes
torn = record {
  payload = braces.0;
  count = 5;
  small = omega arith;
  some_written = omega arith;
  cut_short = omega arith;
  remains = refl;
}

scan_frames-written_example :
    scan_frames parse_empty (indexed_bytes ++ written (braces ∷ braces ∷ [])) 3 false
    ≡ record { frames = frames_at 3 (braces ∷ braces ∷ []); ending = finished }
scan_frames-written_example =
    scan_frames-written parse_empty false indexed_bytes (braces ∷ braces ∷ [])
      (braces-IsReadable, (braces-IsReadable, tt))

scan_frames-torn_example :
    scan_frames parse_empty (indexed_bytes ++ (written (braces ∷ []) ++ torn_bytes)) 3 true
    ≡ after_frames
        (frames_at 3 (braces ∷ []))
        (partial_tail true (3 + length (written (braces ∷ []))))
scan_frames-torn_example =
    scan_frames-torn parse_empty true indexed_bytes (braces ∷ []) torn_bytes (braces-IsReadable, tt)
      torn

scan_frames-recovers_example :
    let file = indexed_bytes ++ (written (braces ∷ []) ++ torn_bytes) in
    (kept : ℕ) × ((scan_frames parse_empty file 3 true).ending ≡ repaired kept)
    × (scan_frames parse_empty (take kept file) 3 false
        ≡ record { frames = (scan_frames parse_empty file 3 true).frames; ending = finished })
scan_frames-recovers_example =
    scan_frames-recovers parse_empty indexed_bytes (braces ∷ []) torn_bytes false
      (braces-IsReadable, tt) torn
