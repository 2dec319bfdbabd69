-- ===== src/Tests/Segments.antt =====
-- What a compaction releases, at a concrete store.
use smpp_telemetry_platform.Base.{ℕ, ◌≡◌, refl, String, true, Option, some, [], ◌∷◌}
use smpp_telemetry_platform.Base.Result.{Result, ok, ◌>>=◌, require}
use smpp_telemetry_platform.State.{Segment, hot}
use smpp_telemetry_platform.State.Frames.{frame_at}
use smpp_telemetry_platform.Wal.Compact.{Store, Plan, planned_compaction, verified_compaction}
use smpp_telemetry_platform.Wal.Compact.Released.{IsReleased, verified_compaction-IsReleased}

abbrev two_times : String → Option ℕ
two_times text = some 5

abbrev one_file : String → Result String
one_file path = ok "cafe"

abbrev first : Segment
first = record {
  segment = 1;
  bytes = 20;
  indexed_through = 20;
  first_sequence = 1;
  last_sequence = 2;
  closed = true;
  archive_path = some "archive/1";
  archive_hash = some "cafe";
  gc_state = hot;
}

abbrev second : Segment
second = record {
  segment = 2;
  bytes = 10;
  indexed_through = 10;
  first_sequence = 3;
  last_sequence = 3;
  closed = true;
  archive_path = some "archive/2";
  archive_hash = some "cafe";
  gc_state = hot;
}

-- one target has read the first segment, one is retired, and a pin has expired
abbrev store : Store
store = record {
  frames =
      record { sequence = 2; segment = 1; offset = 10; offset_end = 20; crc = 0; kind = "accepted" }
      ∷ [];
  checkpoints = record { id = "live"; segment = 1; offset_end = 20 } ∷ [];
  targets =
      record { id = "live"; start_sequence = 0; status = "active" }
      ∷ record { id = "old"; start_sequence = 0; status = "retired" }
      ∷ [];
  observed = "live" ∷ [];
  pins = record { from_sequence = 1; through_sequence = 3; expires_at = some "earlier" } ∷ [];
  segments = first ∷ second ∷ [];
}

abbrev first_only : Plan
first_only = record {
  eligible = first ∷ [];
  blocked = record { segment = 2; reason = "target_pending" } ∷ [];
}

-- with the pin still live, nothing is eligible
pinned :
    planned_compaction two_times 4 store
    ≡ ok (record {
      eligible = [];
      blocked =
          record { segment = 1; reason = "pinned" }
          ∷ record { segment = 2; reason = "target_pending" }
          ∷ [];
    })
unfolding planned_compaction ◌>>=◌ require frame_at
pinned = refl

planned : verified_compaction two_times 9 one_file true store ≡ ok first_only
unfolding verified_compaction ◌>>=◌ require frame_at
planned = refl

verified_compaction-IsReleased_example :
    (true ≡ true) × IsReleased two_times 9 one_file store first_only
verified_compaction-IsReleased_example =
    verified_compaction-IsReleased two_times 9 one_file true store first_only planned
