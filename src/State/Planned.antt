-- ===== src/State/Planned.antt =====
-- What `gcPlan` has made sure of when it commits.
use mathlib.Core.Bool.{true≢false}
use smpp_telemetry_platform.Base.{
  ℕ, All, Option, ◌≡◌, ◌≢◌, refl, sym, ◌∙◌, Bool, true, false, String, List, [], ◌∷◌, none, some,
  eq_iff, arith, if◌then◌else◌, Bool-cases, inl, inr, ◌==◌, all,
}
use smpp_telemetry_platform.Base.Result.{
  ok, Ensures, after, holding, on_test, Ensures-ok, Ensures-err, some_or-eq-ok,
}
use smpp_telemetry_platform.State.{Platform, Entry, Segment, State, StateOperation}
use smpp_telemetry_platform.State.Table.{at_key, text_at}
use smpp_telemetry_platform.State.Collect.{
  segment_at, is_blank, is_collectable, plan, plan_at, unregistered, plan_all, gc_plan,
}

unfoldable safe : ℕ → List Segment → Bool
safe id [] = false
safe id (s ∷ ss) = if s.segment == id then is_collectable s else safe id ss

-- a column that holds a text
abbrev pub IsGiven : Option String → Type 0
IsGiven column = (text : String) × (column ≡ some text) × (text ≢ "")

pub record IsArchived (s : Segment) : Type 0 where
  pub closed : s.closed ≡ true
  pub hash : IsGiven s.archive_hash
  pub path : IsGiven s.archive_path
  pub indexed : s.bytes ≡ s.indexed_through

-- the segment is there, is closed and archived, and is indexed to its end
unfoldable pub IsSafe : List Segment → ℕ → Type 0
IsSafe segments id = (s : Segment) × (segment_at id segments ≡ some s) × IsArchived s

pub record IsSafePlan (ids : List ℕ) (s : State) : Type 0 where
  pub segments : All (IsSafe s.segments) ids
  pub targets :
      (key : String) → text_at "observed_target" key s.kv ≢ none → text_at "target" key s.kv ≢ none

pub is_blank-IsGiven : (column : Option String) → is_blank column ≡ false → IsGiven column
unfolding is_blank
is_blank-IsGiven none h = absurd (true≢false h)
is_blank-IsGiven (some text) h =
    (text, refl, λ empty. true≢false (sym ((eq_iff text "").1 empty) ∙ h))

is_collectable-IsArchived : (s : Segment) → is_collectable s ≡ true → IsArchived s
unfolding is_collectable
is_collectable-IsArchived s h = record {
  closed = ground (arith, h);
  hash = is_blank-IsGiven s.archive_hash (ground (arith, h));
  path = is_blank-IsGiven s.archive_path (ground (arith, h));
  indexed = ground (arith, h);
}

safe-IsSafe : (id : ℕ) (segments : List Segment) → safe id segments ≡ true → IsSafe segments id
unfolding safe segment_at IsSafe
safe-IsSafe id [] h = absurd (true≢false (sym h))
safe-IsSafe id (s ∷ ss) h = elim (Bool-cases (s.segment == id)) [
  | inl here ↦ (s, rw here refl, is_collectable-IsArchived s (sym (rw here refl) ∙ h))
  | inr apart ↦
      let (t, found, archived) = safe-IsSafe id ss (sym (rw apart refl) ∙ h) in
      (t, rw apart found, archived)
]

all-IsSafe :
    (segments : List Segment) (ids : List ℕ)
    → all (λ id. safe id segments) ids ≡ true
    → All (IsSafe segments) ids
all-IsSafe segments [] h = tt
all-IsSafe segments (id ∷ ids) h =
    (safe-IsSafe id segments (ground (arith, h)), all-IsSafe segments ids (ground (arith, h)))

safe-segment_at :
    (id : ℕ) (segments : List Segment) (s : Segment)
    → segment_at id segments ≡ some s
    → is_collectable s ≡ true
    → safe id segments ≡ true
unfolding safe segment_at
safe-segment_at id [] s found collectable = cc
safe-segment_at id (t ∷ ts) s found collectable = elim (Bool-cases (t.segment == id)) [
  | inl here ↦
      let found' : some t ≡ some s = sym (rw here refl) ∙ found in
      let same : t ≡ s = cc in rw (here, same) collectable
  | inr apart ↦ rw apart (safe-segment_at id ts s (sym (rw apart refl) ∙ found) collectable)
]

safe-plan_at :
    (id other : ℕ) (segments : List Segment) → safe id (plan_at other segments) ≡ safe id segments
unfolding safe plan_at plan is_collectable
safe-plan_at id other [] = refl
safe-plan_at id other (s ∷ ss) = ground (arith, safe-plan_at id other ss)

unregistered-targets :
    (kv : List Entry) (key : String) (es : List Entry)
    → unregistered kv es ≡ false
    → text_at "observed_target" key es ≢ none
    → text_at "target" key kv ≢ none
unfolding unregistered text_at at_key
unregistered-targets kv key [] h k e = k refl
unregistered-targets kv key (e ∷ es) h k missing = ground (
  arith,
  h,
  missing,
  unregistered-targets kv key es,
  eq_iff e.namespace "observed_target",
  eq_iff e.key key,
)

all-safe-plan_at :
    (other : ℕ) (ids : List ℕ) (segments : List Segment)
    → all (λ id. safe id (plan_at other segments)) ids ≡ all (λ id. safe id segments) ids
all-safe-plan_at other [] segments = refl
all-safe-plan_at other (id ∷ ids) segments =
    rw (safe-plan_at id other segments, all-safe-plan_at other ids segments) refl

plan_all-safe :
    (ids : List ℕ) (segments : List Segment)
    → Ensures (λ t. all (λ id. safe id segments) ids ≡ true) (plan_all ids segments)
unfolding plan_all
plan_all-safe [] segments = Ensures-ok refl
plan_all-safe (id ∷ ids) segments = after λ s e.
    on_test (is_collectable s)
      (λ collectable. record {
        returns = λ t done.
            let here =
              safe-segment_at id segments s
                (some_or-eq-ok "WAL_GC_SEGMENT_UNSAFE" (segment_at id segments) e) collectable in
            let rest = (plan_all-safe ids (plan_at id segments)).returns t done in
            rw (here) (sym (all-safe-plan_at id ids segments) ∙ rest);
      })
      (λ unsafe. Ensures-err)

gc_plan-Ensures :
    (p : Platform) (ids : List ℕ) (operations : List StateOperation) (s : State)
    → Ensures (λ t. IsSafePlan ids s) (gc_plan p ids operations s)
unfolding gc_plan
gc_plan-Ensures p ids operations s =
    on_test (unregistered s.kv s.kv) (λ bad. Ensures-err)
      λ registered. holding (plan_all-safe ids s.segments) λ segments safe_all. after λ r e.
        Ensures-ok (record {
          segments = all-IsSafe s.segments ids safe_all;
          targets = λ key k. unregistered-targets s.kv key s.kv registered k;
        })

-- `gcPlan` commits only where every segment it plans is closed, archived and indexed to its end,
-- and where every observed target is registered, so that no reader is missing from the bound.
pub gc_plan-IsSafePlan :
    (p : Platform) (ids : List ℕ) (operations : List StateOperation) (s t : State)
    → gc_plan p ids operations s ≡ ok t
    → IsSafePlan ids s
gc_plan-IsSafePlan p ids operations s t = (gc_plan-Ensures p ids operations s).returns t
