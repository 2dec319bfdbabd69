-- ===== src/State/Collect.antt =====
-- `saveSegment` and `gcPlan` of telemetry-processor/src/packages/durable-state/worker.ts.
use smpp_telemetry_platform.Base.{
  ℕ, Bool, true, false, ◌&&◌, ◌||◌, not, String, List, [], ◌∷◌, Option, none, some, str_eq, ◌==◌,
  if◌then◌else◌,
}
use smpp_telemetry_platform.Base.Result.{Result, ok, err, ◌>>=◌, some_or}
use smpp_telemetry_platform.State.{Platform, Entry, Segment, planned, State, StateOperation}
use smpp_telemetry_platform.State.Table.{text_at, transaction}

unfoldable pub segment_at : ℕ → List Segment → Option Segment
segment_at id [] = none
segment_at id (s ∷ ss) = if s.segment == id then some s else segment_at id ss

unfoldable pub upsert_segment : Segment → List Segment → List Segment
upsert_segment t [] = t ∷ []
upsert_segment t (s ∷ ss) = if s.segment == t.segment then t ∷ ss else s ∷ upsert_segment t ss

unfoldable pub with_segments : State → List Segment → State
with_segments s segments = record {
  kv = s.kv;
  usage = s.usage;
  frames = s.frames;
  kinds = s.kinds;
  segments = segments;
}

unfoldable pub save_segment : Segment → State → State
unfolding with_segments
save_segment t s = with_segments s (upsert_segment t s.segments)

-- a column that is null or the empty string
unfoldable pub is_blank : Option String → Bool
is_blank none = true
is_blank (some text) = str_eq text ""

unfoldable pub is_collectable : Segment → Bool
is_collectable s =
    s.closed
    && not (is_blank s.archive_hash)
    && not (is_blank s.archive_path)
    && s.bytes == s.indexed_through

unfoldable pub plan : Segment → Segment
plan s = record {
  segment = s.segment;
  bytes = s.bytes;
  indexed_through = s.indexed_through;
  first_sequence = s.first_sequence;
  last_sequence = s.last_sequence;
  closed = s.closed;
  archive_path = s.archive_path;
  archive_hash = s.archive_hash;
  gc_state = planned;
}

-- UPDATE wal_segments SET gc_state='planned' WHERE segment=?
unfoldable pub plan_at : ℕ → List Segment → List Segment
unfolding plan
plan_at id [] = []
plan_at id (s ∷ ss) = if s.segment == id then plan s ∷ ss else s ∷ plan_at id ss

unfoldable pub is_missing : Option String → Bool
is_missing none = true
is_missing (some text) = false

-- an observed target that is not registered
unfoldable pub unregistered : List Entry → List Entry → Bool
unfolding is_missing
unregistered kv [] = false
unregistered kv (e ∷ es) =
    str_eq e.namespace "observed_target" && is_missing (text_at "target" e.key kv)
    || unregistered kv es

unfoldable pub plan_all : List ℕ → List Segment → Result (List Segment)
unfolding plan_at is_collectable
plan_all [] segments = ok segments
plan_all (id ∷ ids) segments = some_or "WAL_GC_SEGMENT_UNSAFE" (segment_at id segments) >>= λ s.
    (let rest = plan_all ids (plan_at id segments) in
      if is_collectable s then rest else err "WAL_GC_SEGMENT_UNSAFE")

module _ (p : Platform) where
  unfoldable pub gc_plan : List ℕ → List StateOperation → State → Result State
  unfolding plan_all unregistered with_segments
  gc_plan ids operations s =
      if unregistered s.kv s.kv
      then err "WAL_GC_TARGET_REGISTRY_INCOMPLETE"
      else (plan_all ids s.segments >>= λ segments.
          (transaction p operations (with_segments s segments) >>= λ r. ok r.0))
