-- ===== src/State/Counts.antt =====
-- The index of the frames: the two tables number the frames and the frames of each kind.
pub mod Window
use smpp_telemetry_platform.Base.{
  ℕ, zero, suc, ◌+◌, ◌-◌, ◌≤◌, ◌<◌, ◌≡◌, refl, max, Bool, true, false, String, List, [], ◌∷◌,
  length, str_eq, eq_iff, arith, if◌then◌else◌, ltb, ◌==◌,
}
use smpp_telemetry_platform.State.{Frame, KindRow}
use smpp_telemetry_platform.State.Frames.{max_sequence, max_ordinal, insert_frame, insert_kind}

-- the number of frames of a kind
unfoldable pub of_kind : String → List Frame → ℕ
of_kind kind [] = 0
of_kind kind (f ∷ fs) = if str_eq f.kind kind then suc (of_kind kind fs) else of_kind kind fs

-- The frames are numbered from 1 without a gap, and each has its row with its rank in its kind.
unfoldable pub IsIndexed : List Frame → List KindRow → Type 0
IsIndexed [] [] = Unit
IsIndexed (f ∷ fs) (r ∷ rs) =
    (f.sequence ≡ suc (length fs))
    × (r.sequence ≡ f.sequence)
    × (r.kind ≡ f.kind)
    × (r.ordinal ≡ suc (of_kind f.kind fs))
    × IsIndexed fs rs
IsIndexed _ _ = ⊥

pub max_sequence-IsIndexed :
    (fs : List Frame) (rs : List KindRow) → IsIndexed fs rs → max_sequence fs ≡ length fs
unfolding max_sequence IsIndexed
max_sequence-IsIndexed [] [] h = refl
max_sequence-IsIndexed [] (r ∷ rs) h = elim h [ ]
max_sequence-IsIndexed (f ∷ fs) [] h = elim h [ ]
max_sequence-IsIndexed (f ∷ fs) (r ∷ rs) h = ground (arith, max_sequence-IsIndexed fs rs h.4)

pub max_ordinal-IsIndexed :
    (kind : String) (fs : List Frame) (rs : List KindRow)
    → IsIndexed fs rs
    → max_ordinal kind rs ≡ of_kind kind fs
unfolding max_ordinal of_kind IsIndexed
max_ordinal-IsIndexed kind [] [] h = refl
max_ordinal-IsIndexed kind [] (r ∷ rs) h = elim h [ ]
max_ordinal-IsIndexed kind (f ∷ fs) [] h = elim h [ ]
max_ordinal-IsIndexed kind (f ∷ fs) (r ∷ rs) h =
    ground (arith, max_ordinal-IsIndexed kind fs rs h.4, eq_iff f.kind kind)

pub insert-IsIndexed :
    (f : Frame) (fs : List Frame) (rs : List KindRow) (ordinal : ℕ)
    → IsIndexed fs rs
    → f.sequence ≡ suc (length fs)
    → ordinal ≡ suc (of_kind f.kind fs)
    → IsIndexed
        (insert_frame f fs)
        (insert_kind (record { sequence = f.sequence; kind = f.kind; ordinal = ordinal }) rs)
unfolding insert_frame insert_kind IsIndexed
insert-IsIndexed f [] [] ordinal h next rank = (next, refl, refl, rank, tt)
insert-IsIndexed f [] (r ∷ rs) ordinal h next rank = elim h [ ]
insert-IsIndexed f (g ∷ gs) [] ordinal h next rank = elim h [ ]
insert-IsIndexed f (g ∷ gs) (r ∷ rs) ordinal h next rank =
    let newest : ltb g.sequence f.sequence ≡ true = ground arith in
    let newest' : ltb r.sequence f.sequence ≡ true = ground arith in
    rw (newest, newest') (next, refl, refl, rank, h)
