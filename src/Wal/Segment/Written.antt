-- ===== src/Wal/Segment/Written.antt =====
-- A scan of a file that whole frames were appended to.
use mathlib.Core.List.{append_assoc, append-nil}
use smpp_telemetry_platform.Base.{
  ℕ, zero, suc, ◌+◌, ◌-◌, ◌≤◌, ◌≡◌, refl, sym, ap, ◌∙◌, Bool, List, [], ◌∷◌, ◌++◌, length,
  length-append, take-length_append, drop-length_append, take, drop, ge→ltb, Option, arith, All,
}
use smpp_telemetry_platform.Base.Result.{ok}
use smpp_telemetry_platform.Json.{Value, Fields}
use smpp_telemetry_platform.Wal.Segment.{
  max_frame_bytes, RawFrame, read_u32, frame_bytes, decode, Scanned, finished, yields, scan_from,
  scan_frames, ends,
}
use smpp_telemetry_platform.Wal.Segment.Scan.{
  IsReadable, frame_at, length-frame_bytes, read-frame_bytes, decode-frame_bytes,
}

-- the bytes of the frames, one after the other
unfoldable pub written : List (List ℕ × Fields) → List ℕ
written [] = []
written (entry ∷ entries) = frame_bytes entry.0 ++ written entries

-- the frames from an offset on
unfoldable pub frames_at : ℕ → List (List ℕ × Fields) → List RawFrame
frames_at offset [] = []
frames_at offset (entry ∷ entries) =
    frame_at offset entry ∷ frames_at (offset + length (frame_bytes entry.0)) entries

pub length-written : (entries : List (List ℕ × Fields)) → length entries ≤ length (written entries)
unfolding written
length-written [] = omega arith
length-written (entry ∷ entries) = omega (
  arith,
  length-append (frame_bytes entry.0) (written entries),
  length-frame_bytes entry.0,
  length-written entries,
)

-- a scan that yields these frames first
abbrev pub after_frames : List RawFrame → Scanned → Scanned
after_frames frames later = record { frames = frames ++ later.frames; ending = later.ending }

module _ (parse : List ℕ → Option Value) (repair : Bool) where
  scan_from-whole :
      (fuel offset size : ℕ) (bytes : List ℕ) (frame : RawFrame)
      → read_u32 bytes ≡ size
      → size ≤ max_frame_bytes
      → size + 8 ≤ length bytes
      → decode parse (take (size + 8) bytes) offset ≡ ok frame
      → scan_from parse (suc fuel) repair offset bytes
        ≡ yields
            (ok frame)
            (scan_from parse fuel repair (offset + size + 8) (drop (size + 8) bytes))
  unfolding scan_from
  scan_from-whole fuel offset size [] frame reads small fits decodes = ground arith
  scan_from-whole fuel offset size (b ∷ bs) frame reads small fits decodes =
      let header = ge→ltb (length (b ∷ bs)) 4 (omega arith) in
      let bounded = ge→ltb max_frame_bytes size small in
      let whole = ge→ltb (length (b ∷ bs)) (size + 8) fits in
      simp (reads, header, bounded, whole, decodes)

  scan_from-frame :
      (fuel offset : ℕ) (entry : List ℕ × Fields) (later : List ℕ)
      → IsReadable parse entry
      → scan_from parse (suc fuel) repair offset (frame_bytes entry.0 ++ later)
        ≡ yields
            (ok (frame_at offset entry))
            (scan_from parse fuel repair (offset + length (frame_bytes entry.0)) later)
  scan_from-frame fuel offset entry later h =
      let frame = frame_bytes entry.0 in
      let sized = length-frame_bytes entry.0 in
      let cut = ap (λ n. take n (frame ++ later)) (sym sized) ∙ take-length_append frame later in
      let left = ap (λ n. drop n (frame ++ later)) (sym sized) ∙ drop-length_append frame later in
      let moved : offset + length entry.0 + 8 ≡ offset + length frame = omega (arith, sized) in
      scan_from-whole fuel offset (length entry.0) (frame ++ later) (frame_at offset entry)
        (read-frame_bytes entry.0 later h.small) h.small
        (omega (arith, length-append frame later, sized))
        (ap (λ bytes. decode parse bytes offset) cut ∙ decode-frame_bytes parse offset entry h)
      ∙ ap
          (λ o.
            yields (ok (frame_at offset entry))
              (scan_from parse fuel repair o (drop (length entry.0 + 8) (frame ++ later))))
          moved
      ∙ ap
          (λ bytes.
            yields (ok (frame_at offset entry))
              (scan_from parse fuel repair (offset + length frame) bytes))
          left

  -- the frames that were written come first
  scan_from-written :
      (fuel offset : ℕ) (entries : List (List ℕ × Fields)) (tail : List ℕ)
      → All (IsReadable parse) entries
      → scan_from parse (length entries + fuel) repair offset (written entries ++ tail)
        ≡ after_frames
            (frames_at offset entries)
            (scan_from parse fuel repair (offset + length (written entries)) tail)
  unfolding written frames_at yields
  scan_from-written fuel offset [] tail all =
      let none_read : 0 + fuel ≡ fuel = omega arith in
      let unmoved : offset ≡ offset + 0 = omega arith in
      ap (λ n. scan_from parse n repair offset tail) none_read
      ∙ ap (λ o. scan_from parse fuel repair o tail) unmoved
  scan_from-written fuel offset (entry ∷ entries) tail (h, all) =
      let frame = frame_bytes entry.0 in
      let one_read : suc (length entries) + fuel ≡ suc (length entries + fuel) = omega arith in
      let moved : offset + length frame + length (written entries)
          ≡ offset + length (frame ++ written entries) =
        omega (arith, length-append frame (written entries)) in
      let front = frames_at offset (entry ∷ entries) in
      ap (λ n. scan_from parse n repair offset (frame ++ written entries ++ tail)) one_read
      ∙ ap (scan_from parse (suc (length entries + fuel)) repair offset)
          (append_assoc frame (written entries) tail)
      ∙ scan_from-frame (length entries + fuel) offset entry (written entries ++ tail) h
      ∙ ap (yields (ok (frame_at offset entry)))
          (scan_from-written fuel (offset + length frame) entries tail all)
      ∙ ap (λ o. after_frames front (scan_from parse fuel repair o tail)) moved

  scan_frames-indexed :
      (indexed bytes : List ℕ)
      → scan_frames parse (indexed ++ bytes) (length indexed) repair
        ≡ scan_from parse (length (indexed ++ bytes)) repair (length indexed) bytes
  unfolding scan_frames
  scan_frames-indexed indexed bytes =
      let inside =
        ge→ltb (length (indexed ++ bytes)) (length indexed)
          (omega (arith, length-append indexed bytes)) in
      simp (inside, drop-length_append indexed bytes)

  scan_from-end : (fuel offset : ℕ) → scan_from parse fuel repair offset [] ≡ ends finished
  unfolding scan_from
  scan_from-end zero offset = refl
  scan_from-end (suc fuel) offset = refl

  -- a scan from the end of the indexed bytes of a file, with the frames after them
  pub scan_frames-after :
      (indexed : List ℕ) (entries : List (List ℕ × Fields)) (tail : List ℕ)
      → All (IsReadable parse) entries
      → (fuel : ℕ) × (length tail ≤ fuel)
        × (scan_frames parse (indexed ++ (written entries ++ tail)) (length indexed) repair
            ≡ after_frames
                (frames_at (length indexed) entries)
                (scan_from parse fuel repair (length indexed + length (written entries)) tail))
  scan_frames-after indexed entries tail all =
      let bytes = written entries ++ tail in
      let fuel = length (indexed ++ bytes) - length entries in
      let all_bytes = length-append indexed bytes in
      let later_bytes = length-append (written entries) tail in
      let enough : length (indexed ++ bytes) ≡ length entries + fuel =
        omega (arith, all_bytes, later_bytes, length-written entries) in
      (
        fuel,
        omega (arith, all_bytes, later_bytes, length-written entries),
        scan_frames-indexed indexed bytes
            ∙ ap (λ n. scan_from parse n repair (length indexed) bytes) enough
            ∙ scan_from-written fuel (length indexed) entries tail all,
      )

  -- In a file of indexed bytes, and after them any number of frames that were appended, a scan from
  -- the end of the indexed bytes yields these frames, in order, and ends at the end of the file. Each
  -- payload is at most 16 MiB long, and is parsed as an object.
  pub scan_frames-written :
      (indexed : List ℕ) (entries : List (List ℕ × Fields))
      → All (IsReadable parse) entries
      → scan_frames parse (indexed ++ written entries) (length indexed) repair
        ≡ record { frames = frames_at (length indexed) entries; ending = finished }
  scan_frames-written indexed entries all =
      let (fuel, _, scanned) = scan_frames-after indexed entries [] all in
      let front = frames_at (length indexed) entries in
      ap (λ bytes. scan_frames parse (indexed ++ bytes) (length indexed) repair)
        (sym (append-nil (written entries)))
      ∙ scanned
      ∙ ap (after_frames front) (scan_from-end fuel (length indexed + length (written entries)))
      ∙ ap (λ frames. record { frames = frames; ending = finished }) (append-nil front)
