-- ===== src/State/Counts/Window.antt =====
-- `frameCount` counts what `framesAfter` lists.
use smpp_telemetry_platform.Base.{
  ℕ, All, ◌<◌, ◌++◌, suc, ◌+◌, ◌≤◌, ◌≡◌, refl, min, Option, none, some, String, List, [], ◌∷◌,
  length, length-append, str_eq, eq_iff, arith, if◌then◌else◌, leb, ◌&&◌,
}
use smpp_telemetry_platform.State.{Frame, KindRow, State}
use smpp_telemetry_platform.State.Frames.{
  last_sequence, ordinal_at, frame_count, in_range, any_window, kind_window, joined, window,
}
use smpp_telemetry_platform.State.Counts.{of_kind, IsIndexed, max_sequence-IsIndexed}

-- the number of frames of a kind up to a position
up_to : String → ℕ → List Frame → ℕ
up_to kind position [] = 0
up_to kind position (f ∷ fs) =
    let rest = up_to kind position fs in
    if str_eq f.kind kind && leb f.sequence position then suc rest else rest

up_to-all :
    (kind : String) (position : ℕ) (fs : List Frame) (rs : List KindRow)
    → IsIndexed fs rs
    → length fs ≤ position
    → up_to kind position fs ≡ of_kind kind fs
unfolding up_to of_kind IsIndexed
up_to-all kind position [] [] h l = refl
up_to-all kind position [] (r ∷ rs) h l = elim h [ ]
up_to-all kind position (f ∷ fs) [] h l = elim h [ ]
up_to-all kind position (f ∷ fs) (r ∷ rs) h l =
    ground (arith, up_to-all kind position fs rs h.4 (omega arith))

ordinal_at-IsIndexed :
    (kind : String) (position : ℕ) (fs : List Frame) (rs : List KindRow)
    → IsIndexed fs rs
    → ordinal_at kind position rs ≡ up_to kind position fs
unfolding ordinal_at up_to IsIndexed
ordinal_at-IsIndexed kind position [] [] h = refl
ordinal_at-IsIndexed kind position [] (r ∷ rs) h = elim h [ ]
ordinal_at-IsIndexed kind position (f ∷ fs) [] h = elim h [ ]
ordinal_at-IsIndexed kind position (f ∷ fs) (r ∷ rs) h = ground (
  arith,
  ordinal_at-IsIndexed kind position fs rs h.4,
  up_to-all kind position fs rs h.4,
  eq_iff f.kind kind,
)

-- the frames of the window that are of a kind themselves
own_window : ℕ → ℕ → String → List Frame → List Frame
own_window after through kind [] = []
own_window after through kind (f ∷ fs) =
    let earlier = own_window after through kind fs in
    if in_range after through f.sequence && str_eq f.kind kind then earlier ++ f ∷ [] else earlier

joined-above :
    (sequence : ℕ) (fs : List Frame) (rs : List KindRow)
    → IsIndexed fs rs
    → length fs < sequence
    → joined sequence fs ≡ []
unfolding joined IsIndexed
joined-above sequence [] rs h l = refl
joined-above sequence (f ∷ fs) [] h l = elim h [ ]
joined-above sequence (f ∷ fs) (r ∷ rs) h l =
    ground (arith, joined-above sequence fs rs h.4 (omega arith))

-- the frame is the only one of its sequence
abbrev IsJoined : List Frame → Frame → Type 0
IsJoined frames f = (f.sequence ≤ length frames) × (joined f.sequence frames ≡ f ∷ [])

IsJoined-more :
    (f : Frame) (fs gs : List Frame)
    → f.sequence ≡ suc (length fs)
    → All (IsJoined fs) gs
    → All (IsJoined (f ∷ fs)) gs
unfolding joined
IsJoined-more f fs [] next all = tt
IsJoined-more f fs (g ∷ gs) next (h, all) =
    ((omega (arith, h.0), ground (arith, h.0, h.1, next)), IsJoined-more f fs gs next all)

IsIndexed-IsJoined : (fs : List Frame) (rs : List KindRow) → IsIndexed fs rs → All (IsJoined fs) fs
unfolding joined IsIndexed
IsIndexed-IsJoined [] rs h = tt
IsIndexed-IsJoined (f ∷ fs) [] h = elim h [ ]
IsIndexed-IsJoined (f ∷ fs) (r ∷ rs) h = (
  (omega (arith, h.0), ground (arith, joined-above f.sequence fs rs h.4 (omega (arith, h.0)))),
  IsJoined-more f fs fs h.0 (IsIndexed-IsJoined fs rs h.4),
)

-- On indexed tables the join yields the frames that are of the kind themselves.
kind_window-own :
    (after through : ℕ) (kind : String) (frames fs : List Frame) (rs : List KindRow)
    → IsIndexed fs rs
    → All (IsJoined frames) fs
    → kind_window after through kind rs frames ≡ own_window after through kind fs
unfolding kind_window own_window IsIndexed
kind_window-own after through kind frames [] [] h all = refl
kind_window-own after through kind frames [] (r ∷ rs) h all = elim h [ ]
kind_window-own after through kind frames (f ∷ fs) [] h all = elim h [ ]
kind_window-own after through kind frames (f ∷ fs) (r ∷ rs) h (here, all) =
    rw (h.1, h.2, kind_window-own after through kind frames fs rs h.4 all, here.1) refl

length-window_kind :
    (after through : ℕ) (kind : String) (fs : List Frame)
    → after ≤ through
    → length (own_window after through kind fs) + up_to kind after fs ≡ up_to kind through fs
unfolding own_window in_range up_to
length-window_kind after through kind [] h = refl
length-window_kind after through kind (f ∷ fs) h = ground (
  arith,
  length-window_kind after through kind fs h,
  length-append (own_window after through kind fs) (f ∷ []),
)

length-window_any :
    (after through : ℕ) (fs : List Frame) (rs : List KindRow)
    → IsIndexed fs rs
    → after ≤ through
    → length (any_window after through fs) + min (length fs) after ≡ min (length fs) through
unfolding any_window in_range IsIndexed
length-window_any after through [] [] indexed h = ground arith
length-window_any after through [] (r ∷ rs) indexed h = elim indexed [ ]
length-window_any after through (f ∷ fs) [] indexed h = elim indexed [ ]
length-window_any after through (f ∷ fs) (r ∷ rs) indexed h = ground (
  arith,
  length-window_any after through fs rs indexed.4 h,
  length-append (any_window after through fs) (f ∷ []),
)

any_window-empty :
    (after through : ℕ) (fs : List Frame) → through ≤ after → any_window after through fs ≡ []
unfolding any_window in_range
any_window-empty after through [] h = refl
any_window-empty after through (f ∷ fs) h = ground (arith, any_window-empty after through fs h)

own_window-empty :
    (after through : ℕ) (kind : String) (fs : List Frame)
    → through ≤ after
    → own_window after through kind fs ≡ []
unfolding own_window in_range
own_window-empty after through kind [] h = refl
own_window-empty after through kind (f ∷ fs) h =
    ground (arith, own_window-empty after through kind fs h)

-- On indexed tables `frameCount` is the number of frames in the window: those after `after` and
-- up to `through`, of the kind where one is asked for.
pub frame_count-window :
    (after through : ℕ) (kind : Option String) (s : State)
    → IsIndexed s.frames s.kinds
    → frame_count after through kind s ≡ length (window after through kind s)
unfolding frame_count last_sequence window
frame_count-window after through none s indexed = ground (
  arith,
  length-window_any after through s.frames s.kinds indexed,
  any_window-empty after through s.frames,
  max_sequence-IsIndexed s.frames s.kinds indexed,
)
frame_count-window after through (some kind) s indexed =
    let own =
      kind_window-own after through kind s.frames s.frames s.kinds indexed
        (IsIndexed-IsJoined s.frames s.kinds indexed) in
    ground (
      arith,
      own,
      length-window_kind after through kind s.frames,
      own_window-empty after through kind s.frames,
      ordinal_at-IsIndexed kind through s.frames s.kinds indexed,
      ordinal_at-IsIndexed kind after s.frames s.kinds indexed,
    )
