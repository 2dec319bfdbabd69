-- ===== src/State/Sound/Reach.antt =====
-- The states that the worker's requests reach from the empty database.
use smpp_telemetry_platform.Base.{ℕ, ◌≡◌, refl, Bool, String, List, []}
use smpp_telemetry_platform.Base.Result.{ok}
use smpp_telemetry_platform.Json.{Value}
use smpp_telemetry_platform.State.{Platform, Frame, Segment, State, StateOperation}
use smpp_telemetry_platform.State.Table.{usage_of, transaction, observe_target}
use smpp_telemetry_platform.State.Accounts.{total, rows}
use smpp_telemetry_platform.State.Counts.{IsIndexed}
use smpp_telemetry_platform.State.Frames.{index_frame}
use smpp_telemetry_platform.State.Collect.{save_segment, with_segments, gc_plan}
use smpp_telemetry_platform.State.Sound.{
  IsSound, transaction-IsSound, observe_target-IsSound, index_frame-IsSound, gc_plan-IsSound,
}

abbrev pub empty_state : State
empty_state = record { kv = []; usage = []; frames = []; kinds = []; segments = [] }

-- One request of `dispatch` that commits. A request that throws changes nothing.
pub data Step (p : Platform) : State → State → Type 0 where
  transacts :
      {s t : State} {values : List Value}
      → (operations : List StateOperation) → transaction p operations s ≡ ok (t, values)
      → Step p s t
  observes : {s t : State} → (key now : String) → observe_target p key now s ≡ ok t → Step p s t
  indexes :
      {s t : State} {added : Bool}
      → (f : Frame) (operations : List StateOperation)
      → index_frame p f operations s ≡ ok (t, added)
      → Step p s t
  saves : {s : State} → (segment : Segment) → Step p s (save_segment segment s)
  plans :
      {s t : State}
      → (ids : List ℕ) (operations : List StateOperation) → gc_plan p ids operations s ≡ ok t
      → Step p s t

pub data IsReachable (p : Platform) : State → Type 0 where
  starts : IsReachable p empty_state
  steps : {s t : State} → IsReachable p s → Step p s t → IsReachable p t

module _ (p : Platform) where
  Step-IsSound : (s t : State) → Step p s t → IsSound p s → IsSound p t
  unfolding save_segment with_segments
  Step-IsSound s t (transacts ops e) sound = (transaction-IsSound p ops s sound).returns _ e
  Step-IsSound s t (observes key now e) sound =
      (observe_target-IsSound p key now s sound).returns _ e
  Step-IsSound s t (indexes f ops e) sound = (index_frame-IsSound p f ops s sound).returns _ e
  Step-IsSound s t (saves segment) sound = record { exact = sound.exact; indexed = sound.indexed }
  Step-IsSound s t (plans ids ops e) sound = (gc_plan-IsSound p ids ops s sound).returns _ e

  empty_state-IsSound : IsSound p empty_state
  unfolding usage_of total rows IsIndexed
  empty_state-IsSound = record { exact = record { counted = λ ns. refl }; indexed = tt }

  -- In every state that the worker reaches, each namespace's usage row has the bytes and the
  -- number of its key-value rows, and the frames are numbered from 1 without a gap, each with
  -- its rank among the frames of its kind.
  pub IsReachable-IsSound : (s : State) → IsReachable p s → IsSound p s
  IsReachable-IsSound s starts = empty_state-IsSound
  IsReachable-IsSound t (steps {s} before step) =
      Step-IsSound s t step (IsReachable-IsSound s before)
