-- ===== src/Wal/Segment/Torn.antt =====
-- A scan of a file whose last append was cut short.
use mathlib.Core.List.{append_assoc, append-nil}
use smpp_telemetry_platform.Base.{
  ℕ, zero, suc, ◌+◌, ◌≤◌, ◌<◌, ◌≡◌, sym, ap, ◌∙◌, Bool, true, List, [], ◌∷◌, ◌++◌, length,
  length-append, take-length_append, length-take, get_or-take, take, Bool-cases, inl, inr, ltb,
  ge→ltb, lt→ltb, ltb→lt, ltb→ge, Option, arith, All,
}
use smpp_telemetry_platform.Json.{Value, Fields}
use smpp_telemetry_platform.Wal.Segment.{
  max_frame_bytes, read_u32, frame_bytes, finished, repaired, partial_tail, scan_from, scan_frames,
}
use smpp_telemetry_platform.Wal.Segment.Scan.{IsReadable, length-frame_bytes, read-frame_bytes}
use smpp_telemetry_platform.Wal.Segment.Written.{
  written, frames_at, after_frames, scan_frames-after, scan_frames-written,
}

-- what is left of a frame that was cut short is not read
read-cut : (k : ℕ) (bytes : List ℕ) → 4 ≤ k → read_u32 (take k bytes) ≡ read_u32 bytes
unfolding read_u32
read-cut k bytes h = omega (
  arith,
  get_or-take 0 k bytes 0 (omega arith),
  get_or-take 1 k bytes 0 (omega arith),
  get_or-take 2 k bytes 0 (omega arith),
  get_or-take 3 k bytes 0 (omega arith),
)

-- the bytes that remain of a last append
pub record IsTorn (tail : List ℕ) : Type 0 where
  pub payload : List ℕ
  pub count : ℕ
  pub small : length payload ≤ max_frame_bytes
  pub some_written : 0 < count
  pub cut_short : count < length (frame_bytes payload)
  pub remains : tail ≡ take count (frame_bytes payload)

module _ (parse : List ℕ → Option Value) (repair : Bool) where
  scan_from-short :
      (fuel offset : ℕ) (tail : List ℕ)
      → 0 < length tail
      → length tail < 4
      → scan_from parse (suc fuel) repair offset tail ≡ partial_tail repair offset
  unfolding scan_from
  scan_from-short fuel offset [] filled short = ground arith
  scan_from-short fuel offset (b ∷ bs) filled short = simp (lt→ltb (length (b ∷ bs)) 4 short)

  scan_from-cut :
      (fuel offset : ℕ) (tail : List ℕ)
      → 4 ≤ length tail
      → read_u32 tail ≤ max_frame_bytes
      → length tail < read_u32 tail + 8
      → scan_from parse (suc fuel) repair offset tail ≡ partial_tail repair offset
  unfolding scan_from
  scan_from-cut fuel offset [] header small short = ground arith
  scan_from-cut fuel offset (b ∷ bs) header small short = simp (
    ge→ltb (length (b ∷ bs)) 4 header,
    ge→ltb max_frame_bytes (read_u32 (b ∷ bs)) small,
    lt→ltb (length (b ∷ bs)) (read_u32 (b ∷ bs) + 8) short,
  )

  scan_from-torn :
      (fuel offset : ℕ) (tail : List ℕ)
      → IsTorn tail
      → scan_from parse (suc fuel) repair offset tail ≡ partial_tail repair offset
  scan_from-torn fuel offset tail torn =
      let frame = frame_bytes torn.payload in
      let sized : length frame ≡ length torn.payload + 8 = length-frame_bytes torn.payload in
      let counted : length tail ≡ torn.count =
        ap length torn.remains ∙ length-take torn.count frame (omega arith) in
      elim (Bool-cases (ltb torn.count 4)) [
        | inr long ↦
            let header : 4 ≤ torn.count = ltb→ge torn.count 4 long in
            let sent : read_u32 frame ≡ length torn.payload =
              ap read_u32 (sym (append-nil frame)) ∙ read-frame_bytes torn.payload [] torn.small in
            let reads : read_u32 tail ≡ length torn.payload =
              ap read_u32 torn.remains ∙ read-cut torn.count frame header ∙ sent in
            scan_from-cut fuel offset tail (omega arith) (omega arith) (omega arith)
        | inl few ↦
            let short : torn.count < 4 = ltb→lt torn.count 4 few in
            scan_from-short fuel offset tail (omega arith) (omega arith)
      ]

  scan_from-remains :
      (fuel offset : ℕ) (tail : List ℕ)
      → IsTorn tail
      → length tail ≤ fuel
      → scan_from parse fuel repair offset tail ≡ partial_tail repair offset
  scan_from-remains zero offset tail torn enough =
      let counted =
        ap length torn.remains ∙ length-take torn.count (frame_bytes torn.payload) (omega arith) in
      ground arith
  scan_from-remains (suc fuel) offset tail torn enough = scan_from-torn fuel offset tail torn

  -- In a file whose last append was cut short, at any byte, a scan from the end of the indexed bytes
  -- yields every frame that was appended as a whole, and stops where the last one begins: with the
  -- repair of that tail if it is asked for, and with an error if it is not.
  pub scan_frames-torn :
      (indexed : List ℕ) (entries : List (List ℕ × Fields)) (tail : List ℕ)
      → All (IsReadable parse) entries
      → IsTorn tail
      → scan_frames parse (indexed ++ (written entries ++ tail)) (length indexed) repair
        ≡ after_frames
            (frames_at (length indexed) entries)
            (partial_tail repair (length indexed + length (written entries)))
  scan_frames-torn indexed entries tail all torn =
      let (fuel, enough, scanned) = scan_frames-after parse repair indexed entries tail all in
      let start = length indexed + length (written entries) in
      scanned
      ∙ ap (after_frames (frames_at (length indexed) entries))
          (scan_from-remains fuel start tail torn enough)

module _ (parse : List ℕ → Option Value) where
  -- After a crash in an append: a scan with repair names an offset, and the file truncated to that
  -- offset is scanned to its end, by a scan with or without repair, for the same frames. Only the
  -- frame that was cut short is lost.
  pub scan_frames-recovers :
      (indexed : List ℕ) (entries : List (List ℕ × Fields)) (tail : List ℕ) (repair : Bool)
      → All (IsReadable parse) entries
      → IsTorn tail
      → let file = indexed ++ (written entries ++ tail) in
        (kept : ℕ) × ((scan_frames parse file (length indexed) true).ending ≡ repaired kept)
        × (scan_frames parse (take kept file) (length indexed) repair ≡ record {
          frames = (scan_frames parse file (length indexed) true).frames;
          ending = finished;
        })
  unfolding partial_tail
  scan_frames-recovers indexed entries tail repair all torn =
      let kept = length indexed + length (written entries) in
      let stops = scan_frames-torn parse true indexed entries tail all torn in
      let cut : take kept (indexed ++ (written entries ++ tail)) ≡ indexed ++ written entries =
        ap (take kept) (sym (append_assoc indexed (written entries) tail))
        ∙ ap (λ n. take n (indexed ++ written entries ++ tail))
            (sym (length-append indexed (written entries)))
        ∙ take-length_append (indexed ++ written entries) tail in
      (
        kept,
        ap (λ s. s.ending) stops,
        ap (λ file. scan_frames parse file (length indexed) repair) cut
            ∙ scan_frames-written parse repair indexed entries all
            ∙ ap (λ frames. record { frames = frames; ending = finished })
                (sym (ap (λ s. s.frames) stops ∙ append-nil (frames_at (length indexed) entries))),
      )
