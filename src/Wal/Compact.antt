-- ===== src/Wal/Compact.antt =====
-- What may be collected: the targets' positions, the live pins and the plan of `compactUnlocked`
-- in telemetry-processor/src/packages/wal/wal.ts, up to its request to the durable state. The
-- maps that it scans are given as lists of their values, `file_sha256` is the hash of a file.
pub mod Released
use smpp_telemetry_platform.Base.{
  ℕ, Bool, true, false, not, ◌&&◌, ◌||◌, String, Option, none, some, List, [], ◌∷◌, str_eq, ◌==◌,
  ltb, leb, any, max, if◌then◌else◌,
}
use smpp_telemetry_platform.Base.Result.{Result, Done, ok, err, ◌>>=◌, ◌>>◌, require}
use smpp_telemetry_platform.State.{Frame, Segment, GcState, hot, planned, complete}
use smpp_telemetry_platform.State.Frames.{frame_at}
use smpp_telemetry_platform.State.Collect.{is_blank}

-- `TargetRegistration`, the part that is read here
pub record Target : Type 0 where
  pub id : String
  pub start_sequence : ℕ
  pub status : String

-- `WalCheckpoint` under its target
pub record Checkpoint : Type 0 where
  pub id : String
  pub segment : ℕ
  pub offset_end : ℕ

-- `WalPin`, the part that is read here
pub record Pin : Type 0 where
  pub from_sequence : ℕ
  pub through_sequence : ℕ
  pub expires_at : Option String

-- what the compaction reads of the store
pub record Store : Type 0 where
  pub frames : List Frame
  pub checkpoints : List Checkpoint
  pub targets : List Target
  pub observed : List String
  pub pins : List Pin
  pub segments : List Segment

pub record Blocked : Type 0 where
  pub segment : ℕ
  pub reason : String

pub record Plan : Type 0 where
  pub eligible : List Segment
  pub blocked : List Blocked

-- `?.ingestSequence??0`
unfoldable pub sequence_or_zero : Option Frame → ℕ
sequence_or_zero none = 0
sequence_or_zero (some f) = f.sequence

unfoldable pub start_of : String → List Target → ℕ
start_of id [] = 0
start_of id (t ∷ ts) = if str_eq t.id id then t.start_sequence else start_of id ts

unfoldable sequence_in : Store → String → List Checkpoint → ℕ
unfolding sequence_or_zero start_of
sequence_in s id [] = start_of id s.targets
sequence_in s id (c ∷ cs) =
    if str_eq c.id id
    then sequence_or_zero (frame_at c.segment c.offset_end s.frames)
    else sequence_in s id cs

unfoldable pub checkpoint_sequence : Store → String → ℕ
unfolding sequence_in
checkpoint_sequence s id = sequence_in s id s.checkpoints

unfoldable pub is_hot : GcState → Bool
is_hot hot = true
is_hot planned = false
is_hot complete = false

-- the target may still read the segment
unfoldable pub is_pending : Store → Segment → Target → Bool
unfolding checkpoint_sequence
is_pending s g t =
    not (str_eq t.status "retired")
    && ltb (max t.start_sequence (checkpoint_sequence s t.id)) g.last_sequence

unfoldable pub holds : Segment → Pin → Bool
holds g pin = leb pin.from_sequence g.last_sequence && leb g.first_sequence pin.through_sequence

unfoldable pub is_registered : List Target → String → Bool
is_registered ts key = any (λ t. str_eq t.id key) ts

unfoldable pub is_empty : List Target → Bool
is_empty [] = true
is_empty (t ∷ ts) = false

module _ (file_sha256 : String → Result String) where
  unfoldable pub verify : Option String → Option String → Done
  verify (some path) (some hash) =
      file_sha256 path >>= λ found. require (str_eq found hash) "WAL_ARCHIVE_VERIFY_FAILED"
  verify path hash = err "WAL_ARCHIVE_VERIFY_FAILED"

  unfoldable pub verify_all : List Segment → Done
  unfolding verify
  verify_all [] = ok tt
  verify_all (g ∷ gs) = do verify g.archive_path g.archive_hash; verify_all gs

-- there is a target, and no observed one is unknown
unfoldable pub knows_targets : Store → Bool
unfolding is_registered is_empty
knows_targets s =
    not (is_empty s.targets || any (λ key. not (is_registered s.targets key)) s.observed)

-- the milliseconds of `Date.parse`, none for its NaN, and those of `Date.now`
module _ (date_parse : String → Option ℕ) (now : ℕ) where
  unfoldable pub expires_later : Option ℕ → Bool
  expires_later none = false
  expires_later (some time) = ltb now time

  unfoldable pub is_live : Option String → Bool
  unfolding expires_later
  is_live none = true
  is_live (some time) = str_eq time "" || expires_later (date_parse time)

  unfoldable pub is_pinned : Segment → Pin → Bool
  unfolding is_live holds
  is_pinned g pin = is_live pin.expires_at && holds g pin

  -- why the segment is kept
  unfoldable pub reason : Store → Segment → Option String
  unfolding is_pending is_pinned is_blank
  reason s g =
      if not g.closed
      then some "open_segment"
      else if not (g.indexed_through == g.bytes)
      then some "unindexed"
      else if is_blank g.archive_hash || is_blank g.archive_path
      then some "unarchived"
      else if any (is_pending s g) s.targets
      then some "target_pending"
      else if any (is_pinned g) s.pins
      then some "pinned"
      else none

  unfoldable pub sort_out : Segment → Option String → Plan → Plan
  sort_out g none plan = record { eligible = g ∷ plan.eligible; blocked = plan.blocked }
  sort_out g (some why) plan = record {
    eligible = plan.eligible;
    blocked = record { segment = g.segment; reason = why } ∷ plan.blocked;
  }

  unfoldable pub plan_of : Store → List Segment → Plan
  unfolding is_hot reason sort_out
  plan_of s [] = record { eligible = []; blocked = [] }
  plan_of s (g ∷ gs) =
      let rest = plan_of s gs in if is_hot g.gc_state then sort_out g (reason s g) rest else rest

  -- what `compact` plans, or shows on a dry run
  unfoldable pub planned_compaction : Store → Result Plan
  unfolding plan_of knows_targets
  planned_compaction s = do
    require (not (is_empty s.targets || any (λ key. not (is_registered s.targets key)) s.observed))
        "WAL_GC_TARGET_REGISTRY_INCOMPLETE"
    ok (plan_of s s.segments)

  module _ (file_sha256 : String → Result String) where
    -- the plan that a run which is not dry sends to `planGc`
    unfoldable pub verified_compaction : Bool → Store → Result Plan
    unfolding planned_compaction verify_all
    verified_compaction gc_enabled s = do
      plan ← planned_compaction s
      require gc_enabled "WAL_GC_DISABLED"
      verify_all file_sha256 plan.eligible
      ok plan
