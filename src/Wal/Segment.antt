-- ===== src/Wal/Segment.antt =====
-- telemetry-processor/src/packages/wal/segment-reader.ts, and the frame that `appendUnlocked` of
-- wal.ts writes. A file is the list of its bytes. A scan gives the frames that it yields and how it
-- ends; the repair of a partial tail truncates the file.
pub mod Scan
pub mod Written
pub mod Torn
use smpp_telemetry_platform.Base.{
  ℕ, zero, suc, ◌+◌, ◌-◌, ◌*◌, ◌/◌, ◌%◌, ◌^◌, Bool, true, false, String, List, [], ◌∷◌, ◌++◌,
  length, take, drop, ltb, leb, ◌==◌, not, ◌||◌, if◌then◌else◌, Option, none, some, get_or,
}
use smpp_telemetry_platform.Base.Result.{Result, Done, ok, err, ◌>>=◌, ◌>>◌, require}
use smpp_telemetry_platform.Json.{Value, Fields, undefined, null, bool, num, str, arr, obj}
use smpp_telemetry_platform.Wal.Crc.{crc32c}

abbrev pub max_frame_bytes : ℕ
max_frame_bytes = 16777216

pub record RawFrame : Type 0 where
  pub offset : ℕ
  pub offset_end : ℕ
  pub crc : ℕ
  pub record_fields : Fields

-- `writeUInt32BE`
unfoldable pub write_u32 : ℕ → List ℕ
write_u32 n = n / 2 ^ 24 % 256 ∷ n / 2 ^ 16 % 256 ∷ n / 2 ^ 8 % 256 ∷ n % 256 ∷ []

-- `readUInt32BE`, at the start of the bytes
unfoldable pub read_u32 : List ℕ → ℕ
read_u32 bytes =
    get_or bytes 0 0 * 2 ^ 24
    + get_or bytes 1 0 * 2 ^ 16
    + get_or bytes 2 0 * 2 ^ 8
    + get_or bytes 3 0

-- the frame of `appendUnlocked`
unfoldable pub frame_bytes : List ℕ → List ℕ
unfolding write_u32
frame_bytes payload = write_u32 (length payload) ++ payload ++ write_u32 (crc32c payload)

-- an object that is no array, and not null
unfoldable pub as_record : Option Value → Result Fields
as_record none = err "WAL_FRAME_JSON_INVALID"
as_record (some (obj fields)) = ok fields
as_record (some _) = err "WAL_FRAME_RECORD_INVALID"

-- how a scan ends: at the end of the file, with the file truncated to an offset, or by a throw
pub data Ending : Type 0 where
  finished : Ending
  repaired : ℕ → Ending
  fails : String → Ending

pub record Scanned : Type 0 where
  pub frames : List RawFrame
  pub ending : Ending

abbrev pub ends : Ending → Scanned
ends ending = record { frames = []; ending = ending }

-- a tail that is no whole frame
unfoldable pub partial_tail : Bool → ℕ → Scanned
partial_tail true offset = ends (repaired offset)
partial_tail false offset = ends (fails "WAL_CLOSED_SEGMENT_TRUNCATED")

unfoldable pub yields : Result RawFrame → Scanned → Scanned
yields (ok frame) later = record { frames = frame ∷ later.frames; ending = later.ending }
yields (err code) later = ends (fails code)

-- `parse` is `JSON.parse` of the bytes as UTF-8, and `none` where it throws
module _ (parse : List ℕ → Option Value) where
  -- `decode`; a code stands without the offset that the source appends to it
  unfoldable pub decode : List ℕ → ℕ → Result RawFrame
  unfolding as_record read_u32
  decode frame offset = do
    let size = read_u32 frame
    let payload = take size (drop 4 frame)
    let crc = read_u32 (drop (4 + size) frame)
    require (crc32c payload == crc) "WAL_CRC_MISMATCH"
    fields ← as_record (parse payload)
    ok (record {
      offset = offset;
      offset_end = offset + length frame;
      crc = crc;
      record_fields = fields;
    })

  -- `readFrame`, from the file's bytes
  unfoldable pub read_frame : List ℕ → ℕ → ℕ → Result RawFrame
  unfolding decode read_u32
  read_frame file offset offset_end = do
    let size = offset_end - offset
    require (not (ltb size 8 || ltb (max_frame_bytes + 8) size)) "WAL_FRAME_SIZE_INVALID"
    require (leb offset_end (length file)) "WAL_INDEXED_FRAME_MISSING"
    let frame = take size (drop offset file)
    require (read_u32 frame + 8 == size) "WAL_INDEXED_FRAME_MISMATCH"
    decode frame offset

  -- the loop of `scanFrames` on the bytes from the offset on; a frame takes eight bytes at least,
  -- so the fuel of a byte each is enough
  unfoldable pub scan_from : ℕ → Bool → ℕ → List ℕ → Scanned
  unfolding partial_tail yields decode read_u32
  scan_from fuel repair offset [] = ends finished
  scan_from zero repair offset (b ∷ bs) = ends (fails "WAL_FRAME_TRUNCATED")
  scan_from (suc fuel) repair offset (b ∷ bs) =
      let rest = b ∷ bs in
      let size = read_u32 rest in
      let later = scan_from fuel repair (offset + size + 8) (drop (size + 8) rest) in
      if ltb (length rest) 4
      then partial_tail repair offset
      else if ltb max_frame_bytes size
      then ends (fails "WAL_FRAME_SIZE_INVALID")
      else if ltb (length rest) (size + 8)
      then partial_tail repair offset
      else yields (decode (take (size + 8) rest) offset) later

  unfoldable pub scan_frames : List ℕ → ℕ → Bool → Scanned
  unfolding scan_from
  scan_frames file start repair =
      if ltb (length file) start
      then ends (fails "WAL_INDEXED_FRAME_MISSING")
      else scan_from (length file) repair start (drop start file)
