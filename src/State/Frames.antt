-- ===== src/State/Frames.antt =====
-- `indexFrame`, `frameAt`, `framesAfter`, `frameCount` and `lastSequence` of
-- telemetry-processor/src/packages/durable-state/worker.ts.
use smpp_telemetry_platform.Base.{
  ℕ, suc, ◌-◌, max, min, Bool, true, false, ◌&&◌, String, List, [], ◌∷◌, ◌++◌, Option, none, some,
  str_eq, ltb, leb, ◌==◌, if◌then◌else◌, take,
}
use smpp_telemetry_platform.Base.Result.{Result, ok, err, ◌>>=◌}
use smpp_telemetry_platform.State.{Platform, Frame, KindRow, Segment, hot, State, StateOperation}
use smpp_telemetry_platform.State.Table.{transaction}

-- coalesce(max(sequence),0)
unfoldable pub max_sequence : List Frame → ℕ
max_sequence [] = 0
max_sequence (f ∷ fs) = max f.sequence (max_sequence fs)

-- coalesce(max(ordinal),0) of a kind
unfoldable pub max_ordinal : String → List KindRow → ℕ
max_ordinal kind [] = 0
max_ordinal kind (r ∷ rs) =
    let rest = max_ordinal kind rs in if str_eq r.kind kind then max r.ordinal rest else rest

-- INSERT, which keeps the highest sequence first
unfoldable pub insert_frame : Frame → List Frame → List Frame
insert_frame f [] = f ∷ []
insert_frame f (g ∷ gs) = if ltb g.sequence f.sequence then f ∷ g ∷ gs else g ∷ insert_frame f gs

unfoldable pub insert_kind : KindRow → List KindRow → List KindRow
insert_kind r [] = r ∷ []
insert_kind r (q ∷ qs) = if ltb q.sequence r.sequence then r ∷ q ∷ qs else q ∷ insert_kind r qs

unfoldable pub frame_at : ℕ → ℕ → List Frame → Option Frame
frame_at segment offset_end [] = none
frame_at segment offset_end (f ∷ fs) =
    if f.segment == segment && f.offset_end == offset_end
    then some f
    else frame_at segment offset_end fs

-- the two frames have the same JSON
unfoldable pub same_frame : Frame → Frame → Bool
same_frame f g =
    f.sequence == g.sequence
    && f.segment == g.segment
    && f.offset == g.offset
    && f.offset_end == g.offset_end
    && f.crc == g.crc
    && str_eq f.kind g.kind

unfoldable pub new_segment : Frame → Segment
new_segment f = record {
  segment = f.segment;
  bytes = f.offset_end;
  indexed_through = f.offset_end;
  first_sequence = f.sequence;
  last_sequence = f.sequence;
  closed = false;
  archive_path = none;
  archive_hash = none;
  gc_state = hot;
}

-- the segment's row with one more frame indexed
unfoldable pub extend_segment : Frame → Segment → Segment
extend_segment f s = record {
  segment = s.segment;
  bytes = f.offset_end;
  indexed_through = f.offset_end;
  first_sequence = if s.first_sequence == 0 then f.sequence else s.first_sequence;
  last_sequence = f.sequence;
  closed = s.closed;
  archive_path = s.archive_path;
  archive_hash = s.archive_hash;
  gc_state = s.gc_state;
}

unfoldable pub index_segment : Frame → List Segment → List Segment
unfolding new_segment extend_segment
index_segment f [] = new_segment f ∷ []
index_segment f (s ∷ ss) =
    if s.segment == f.segment then extend_segment f s ∷ ss else s ∷ index_segment f ss

-- the three inserts of `indexFrame`
unfoldable pub insert_tables : Frame → State → State
insert_tables f s = record {
  kv = s.kv;
  usage = s.usage;
  frames = insert_frame f s.frames;
  kinds =
      insert_kind
        (record {
          sequence = f.sequence;
          kind = f.kind;
          ordinal = suc (max_ordinal f.kind s.kinds);
        })
        s.kinds;
  segments = index_segment f s.segments;
}

module _ (p : Platform) where
  -- `indexFrame`, given the frame that stands at the place, if one does
  unfoldable pub index_at :
      Option Frame → Frame → List StateOperation → State → Result (State × Bool)
  unfolding insert_tables
  index_at (some existing) f operations s =
      if same_frame existing f then ok (s, false) else err "WAL_INDEX_FRAME_MISMATCH"
  index_at none f operations s =
      if f.sequence == suc (max_sequence s.frames)
      then (transaction p operations (insert_tables f s) >>= λ r. ok (r.0, true))
      else err "WAL_INGEST_SEQUENCE_INVALID"

  unfoldable pub index_frame : Frame → List StateOperation → State → Result (State × Bool)
  unfolding index_at
  index_frame f operations s = index_at (frame_at f.segment f.offset_end s.frames) f operations s

unfoldable pub last_sequence : State → ℕ
last_sequence s = max_sequence s.frames

-- `at(position)`: the ordinal of the last row of the kind up to a position
unfoldable pub ordinal_at : String → ℕ → List KindRow → ℕ
ordinal_at kind position [] = 0
ordinal_at kind position (r ∷ rs) =
    if str_eq r.kind kind && leb r.sequence position then r.ordinal else ordinal_at kind position rs

-- `frameCount`, at a given end
unfoldable pub frame_count : ℕ → ℕ → Option String → State → ℕ
unfolding last_sequence
frame_count after through none s =
    if leb through after then 0 else min (last_sequence s) through - min (last_sequence s) after
frame_count after through (some kind) s =
    if leb through after then 0 else ordinal_at kind through s.kinds - ordinal_at kind after s.kinds

-- WHERE sequence>? AND sequence<=? and the kind, where one is asked for
unfoldable pub in_range : ℕ → ℕ → ℕ → Bool
in_range after through sequence = ltb after sequence && leb sequence through

-- the window's frames in the order of their sequence: SELECT * FROM wal_frames
unfoldable pub any_window : ℕ → ℕ → List Frame → List Frame
unfolding in_range
any_window after through [] = []
any_window after through (f ∷ fs) =
    let earlier = any_window after through fs in
    if in_range after through f.sequence then earlier ++ f ∷ [] else earlier

-- JOIN wal_frames f ON f.sequence=k.sequence
unfoldable pub joined : ℕ → List Frame → List Frame
joined sequence [] = []
joined sequence (f ∷ fs) =
    let later = joined sequence fs in if f.sequence == sequence then f ∷ later else later

-- SELECT f.* FROM wal_frame_kind k JOIN wal_frames f
unfoldable pub kind_window : ℕ → ℕ → String → List KindRow → List Frame → List Frame
unfolding in_range joined
kind_window after through kind [] frames = []
kind_window after through kind (r ∷ rs) frames =
    let earlier = kind_window after through kind rs frames in
    if in_range after through r.sequence && str_eq r.kind kind
    then earlier ++ joined r.sequence frames
    else earlier

unfoldable pub window : ℕ → ℕ → Option String → State → List Frame
unfolding any_window kind_window
window after through none s = any_window after through s.frames
window after through (some kind) s = kind_window after through kind s.kinds s.frames

unfoldable pub frames_after : ℕ → ℕ → ℕ → Option String → State → Result (List Frame)
unfolding window
frames_after sequence limit through kind s =
    if ltb limit 1
    then err "WAL_READ_LIMIT_INVALID"
    else if ltb 10000 limit
    then err "WAL_READ_LIMIT_INVALID"
    else ok (take limit (window sequence through kind s))
