-- ===== src/Tests/States.antt =====
-- The durable state at concrete inputs.
use smpp_telemetry_platform.Base.{
  ℕ, true, ◌≡◌, refl, Option, none, some, String, [], ◌∷◌, length, str_eq, if◌then◌else◌,
}
use smpp_telemetry_platform.Base.Result.{ok, ◌>>=◌, some_or}
use smpp_telemetry_platform.Json.{Value, undefined, null, str, Number}
use smpp_telemetry_platform.State.{Platform, Frame, State, put, check, hot}
use smpp_telemetry_platform.State.Table.{
  transaction, operation, write, upsert, account, prior_bytes, fresh, text_at, at_key,
}
use smpp_telemetry_platform.State.Frames.{frame_count, window}
use smpp_telemetry_platform.State.Collect.{gc_plan, segment_at, is_blank}
use smpp_telemetry_platform.State.Counts.{IsIndexed, of_kind}
use smpp_telemetry_platform.State.Counts.Window.{frame_count-window}
use smpp_telemetry_platform.State.Swap.{Swapping, transaction-Swapping}
use smpp_telemetry_platform.State.Planned.{IsSafePlan, gc_plan-IsSafePlan}
use smpp_telemetry_platform.State.Sound.{IsSound}
use smpp_telemetry_platform.State.Sound.Reach.{
  IsReachable, starts, steps, transacts, empty_state, IsReachable-IsSound,
}

abbrev texts : Value → Option String
texts undefined = none
texts null = some "null"
texts (str s) = some s
texts _ = some "other"

abbrev read_text : String → Value
read_text s = if str_eq s "null" then null else str s

abbrev five : String → ℕ
five s = 5

abbrev left_number : Number → Number → Number
left_number a b = a

abbrev platform : Platform
platform = record { stringify = texts; parse = read_text; byte_length = five; plus = left_number }

abbrev first_frame : Frame
first_frame = record {
  sequence = 1;
  segment = 1;
  offset = 0;
  offset_end = 40;
  crc = 9;
  kind = "accepted";
}

abbrev second_frame : Frame
second_frame = record {
  sequence = 2;
  segment = 1;
  offset = 40;
  offset_end = 90;
  crc = 8;
  kind = "rejected";
}

-- the state after both frames are indexed
abbrev indexed_state : State
indexed_state = record {
  kv = [];
  usage = [];
  frames = second_frame ∷ first_frame ∷ [];
  kinds =
      record { sequence = 2; kind = "rejected"; ordinal = 1 }
      ∷ record { sequence = 1; kind = "accepted"; ordinal = 1 }
      ∷ [];
  segments = [];
}

frame_count-window_example :
    frame_count 0 1 (some "accepted") indexed_state
    ≡ length (window 0 1 (some "accepted") indexed_state)
unfolding IsIndexed of_kind
frame_count-window_example =
    frame_count-window 0 1 (some "accepted") indexed_state
      (refl, refl, refl, refl, (refl, refl, refl, refl, tt))

transaction-Swapping_example : Swapping platform "generation" "g1" null "active" empty_state (
    transaction platform
      (check "generation" "g1" null ∷ put "generation" "g1" (str "active") ∷ [])
      empty_state)
transaction-Swapping_example =
    transaction-Swapping platform "generation" "g1" null (str "active") "active" empty_state refl
      refl

-- a closed and archived segment, and an observed target that is registered
abbrev archived_state : State
archived_state = record {
  kv =
      record { namespace = "observed_target"; key = "live"; text = "true" }
      ∷ record { namespace = "target"; key = "live"; text = "null" }
      ∷ [];
  usage = [];
  frames = [];
  kinds = [];
  segments =
      record {
        segment = 1;
        bytes = 90;
        indexed_through = 90;
        first_sequence = 1;
        last_sequence = 2;
        closed = true;
        archive_path = some "archive/1";
        archive_hash = some "cafe";
        gc_state = hot;
      }
      ∷ [];
}

committed : (t : State) × (gc_plan platform (1 ∷ []) [] archived_state ≡ ok t)
unfolding gc_plan ◌>>=◌ some_or transaction text_at at_key segment_at is_blank
committed = (_, refl)

gc_plan-IsSafePlan_example : IsSafePlan (1 ∷ []) archived_state
gc_plan-IsSafePlan_example =
    gc_plan-IsSafePlan platform (1 ∷ []) [] archived_state committed.0 committed.1

abbrev written_state : State
written_state = record {
  kv = record { namespace = "n"; key = "k"; text = "v" } ∷ [];
  usage = record { namespace = "n"; bytes = 5; entries = 1 } ∷ [];
  frames = [];
  kinds = [];
  segments = [];
}

written_state-IsReachable : IsReachable platform written_state
unfolding transaction operation ◌>>=◌ some_or write upsert account prior_bytes fresh text_at
written_state-IsReachable = steps starts (transacts (put "n" "k" (str "v") ∷ []) refl)

IsReachable-IsSound_example : IsSound platform written_state
IsReachable-IsSound_example = IsReachable-IsSound platform written_state written_state-IsReachable
