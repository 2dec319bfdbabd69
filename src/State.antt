-- ===== src/State.antt =====
-- The durable state of the processor, telemetry-processor/src/packages/durable-state/worker.ts:
-- the tables of the one SQLite database. A table is the list of its rows, the frames' tables with
-- the highest sequence first. A request returns the new tables or throws: a throw rolls back.
pub mod Table
pub mod Frames
pub mod Collect
pub mod Accounts
pub mod Swap
pub mod Counts
pub mod Sound
pub mod Planned
use smpp_telemetry_platform.Base.{ℕ, String, Bool, List, Option}
use smpp_telemetry_platform.Json.{Value, Number}

-- JavaScript's own functions: `JSON.stringify` (which gives nothing for undefined),
-- `JSON.parse`, the length in UTF-8 and the sum of doubles.
pub record Platform : Type 0 where
  pub stringify : Value → Option String
  pub parse : String → Value
  pub byte_length : String → ℕ
  pub plus : Number → Number → Number

-- state_kv
pub record Entry : Type 0 where
  pub namespace : String
  pub key : String
  pub text : String

-- state_namespace_usage
pub record Usage : Type 0 where
  pub namespace : String
  pub bytes : ℕ
  pub entries : ℕ

-- `IndexedFrame`, and a row of wal_frames
pub record Frame : Type 0 where
  pub sequence : ℕ
  pub segment : ℕ
  pub offset : ℕ
  pub offset_end : ℕ
  pub crc : ℕ
  pub kind : String

-- wal_frame_kind
pub record KindRow : Type 0 where
  pub sequence : ℕ
  pub kind : String
  pub ordinal : ℕ

pub data GcState : Type 0 where
  hot : GcState
  planned : GcState
  complete : GcState

-- `SegmentState`, and a row of wal_segments
pub record Segment : Type 0 where
  pub segment : ℕ
  pub bytes : ℕ
  pub indexed_through : ℕ
  pub first_sequence : ℕ
  pub last_sequence : ℕ
  pub closed : Bool
  pub archive_path : Option String
  pub archive_hash : Option String
  pub gc_state : GcState

pub record State : Type 0 where
  pub kv : List Entry
  pub usage : List Usage
  pub frames : List Frame
  pub kinds : List KindRow
  pub segments : List Segment

pub data StateOperation : Type 0 where
  put : String → String → Value → StateOperation
  delete : String → String → StateOperation
  check : String → String → Value → StateOperation
  increment : String → String → Option Number → StateOperation
