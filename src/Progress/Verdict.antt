-- ===== src/Progress/Verdict.antt =====
-- When a projection is said to have caught up.
use mathlib.Core.Option.{some-injective}
use smpp_telemetry_platform.Base.{
  Bool, subst, if◌then◌else◌, ℕ, ◌+◌, ◌≤◌, ◌≡◌, refl, ap, sym, ◌∙◌, true, false, Option, none, some,
  String, List, arith, Bool-cases, inl, inr, ◌↔◌, eq_iff,
}
use smpp_telemetry_platform.Base.Maybe.{◌>>=◌}
use smpp_telemetry_platform.Json.{Value, undefined, null, bool, num, str, arr, obj, Fields, get}
use smpp_telemetry_platform.Progress.{
  caught_up, answer, Counts, Bounds, as_count, add_up, counts_of, bounds_of, text_is,
  pending_answer, exact_answer, fresh_answer, is_stale, as_time, progress_response,
  known_inputs_disposed,
}

-- every input that the row knows is projected or not routed, and visible
pub record IsCaughtUp (c : Counts) (b : Bounds) : Type 0 where
  pub visible : b.visible ≡ b.processed
  pub processed : b.processed ≡ b.received
  pub pending : c.pending ≡ 0
  pub quarantined : c.quarantined ≡ 0

-- observed at most five seconds after now and at most `max_age` before
pub record IsRecent (now max_age observed : ℕ) : Type 0 where
  pub not_ahead : observed ≤ now + 5000
  pub not_old : now ≤ observed + max_age

exact_answer-caught_up :
    (now : ℕ) (oldest : Option ℕ) (c : Counts) (b : Bounds)
    → (exact_answer now oldest c (some b)).completeness ≡ caught_up
    → IsCaughtUp c b
unfolding exact_answer answer pending_answer
exact_answer-caught_up now none c b h = record {
  visible = ground (arith, h);
  processed = ground (arith, h);
  pending = ground (arith, h);
  quarantined = ground (arith, h);
}
exact_answer-caught_up now (some t) c b h = record {
  visible = ground (arith, h);
  processed = ground (arith, h);
  pending = ground (arith, h);
  quarantined = ground (arith, h);
}

IsCaughtUp-exact_answer :
    (now : ℕ) (oldest : Option ℕ) (c : Counts) (b : Bounds)
    → IsCaughtUp c b
    → exact_answer now oldest c (some b) ≡ answer caught_up known_inputs_disposed (some 0)
unfolding exact_answer
IsCaughtUp-exact_answer now oldest c b h =
    ground (arith, h.visible, h.processed, h.pending, h.quarantined)

-- the five counters of the row, where every accepted input is in one of the other four
pub record IsCounted (row : Fields) (c : Counts) : Type 0 where
  pub accepted : as_count (get row "accepted") ≡ some c.accepted
  pub projected : as_count (get row "projected") ≡ some c.projected
  pub quarantined : as_count (get row "quarantined") ≡ some c.quarantined
  pub not_routed : as_count (get row "not_routed") ≡ some c.not_routed
  pub pending : as_count (get row "pending") ≡ some c.pending
  pub adds_up : c.accepted ≡ c.projected + c.quarantined + c.not_routed + c.pending

pub record IsBounded (row : Fields) (b : Bounds) : Type 0 where
  pub received : as_count (get row "received_through") ≡ some b.received
  pub processed : as_count (get row "processed_through") ≡ some b.processed
  pub visible : as_count (get row "visible_through") ≡ some b.visible

bind-some {ℓ κ} :
    {A : Type ℓ} {B : Type κ} (o : Option A) (f : A → Option B) {b : B}
    → (o >>= f) ≡ some b
    → (a : A) × (o ≡ some a) × (f a ≡ some b)
bind-some none f h = cc
bind-some (some a) f h = (a, refl, h)

-- a tested value that is returned
tested-some {ℓ} :
    {A : Type ℓ} (test : Bool) (a : A) {b : A}
    → (if test then some a else none) ≡ some b
    → (test ≡ true) × (a ≡ b)
tested-some true a {b} h = (refl, some-injective a b h)
tested-some false a h = cc

counts_of-IsCounted : (row : Fields) (c : Counts) → counts_of row ≡ some c → IsCounted row c
unfolding counts_of add_up
counts_of-IsCounted row c h =
    let (accepted, is_accepted, h1) = bind-some (as_count (get row "accepted")) _ h in
    let (projected, is_projected, h2) = bind-some (as_count (get row "projected")) _ h1 in
    let (quarantined, is_quarantined, h3) = bind-some (as_count (get row "quarantined")) _ h2 in
    let (not_routed, is_not_routed, h4) = bind-some (as_count (get row "not_routed")) _ h3 in
    let (pending, is_pending, h5) = bind-some (as_count (get row "pending")) _ h4 in
    let (balanced, same) = tested-some _ _ h5 in
    subst (IsCounted row) same (record {
      accepted = is_accepted;
      projected = is_projected;
      quarantined = is_quarantined;
      not_routed = is_not_routed;
      pending = is_pending;
      adds_up = ground (arith, balanced);
    })

IsCounted-counts_of : (row : Fields) (c : Counts) → IsCounted row c → counts_of row ≡ some c
unfolding counts_of add_up
IsCounted-counts_of row c h =
    ground (arith, h.accepted, h.projected, h.quarantined, h.not_routed, h.pending, h.adds_up)

bounds_of-IsBounded : (row : Fields) (b : Bounds) → bounds_of row ≡ some b → IsBounded row b
unfolding bounds_of
bounds_of-IsBounded row b h = record {
  received = ground (arith, h);
  processed = ground (arith, h);
  visible = ground (arith, h);
}

IsBounded-bounds_of : (row : Fields) (b : Bounds) → IsBounded row b → bounds_of row ≡ some b
unfolding bounds_of
IsBounded-bounds_of row b h = ground (arith, h.received, h.processed, h.visible)

-- a row that says that its projection has caught up
pub record SaysCaughtUp (date_parse : List ℕ → Option ℕ) (row : Fields) (now max_age : ℕ)
    : Type 0 where
  pub observed : ℕ
  pub observed_at : as_time date_parse (get row "progress_observed_at") ≡ some observed
  pub recent : IsRecent now max_age observed
  pub exact : get row "coverage_status" ≡ str "exact"
  pub counts : Counts
  pub counted : IsCounted row counts
  pub bounds : Bounds
  pub bounded : IsBounded row bounds
  pub caught : IsCaughtUp counts bounds

text_is-eq : (v : Value) (t : String) → text_is v t ≡ true → v ≡ str t
unfolding text_is
text_is-eq (str s) t h = ap str ((eq_iff s t).0 h)
text_is-eq undefined t h = cc
text_is-eq null t h = cc
text_is-eq (bool b) t h = cc
text_is-eq (num n) t h = cc
text_is-eq (arr a) t h = cc
text_is-eq (obj o) t h = cc

module _ (now : ℕ) (oldest : Option ℕ) (status : Value) (counts : Option Counts)
    (bounds : Option Bounds) where
  fresh_answer-exact :
      (fresh_answer now oldest status counts bounds).completeness ≡ caught_up
      → text_is status "exact" ≡ true
  unfolding fresh_answer answer
  fresh_answer-exact h = ground (arith, h)

  IsCaughtUp-fresh_answer :
      (c : Counts) (b : Bounds)
      → status ≡ str "exact"
      → counts ≡ some c
      → bounds ≡ some b
      → IsCaughtUp c b
      → fresh_answer now oldest status counts bounds
        ≡ answer caught_up known_inputs_disposed (some 0)
  unfolding fresh_answer text_is
  IsCaughtUp-fresh_answer c b exact counted bounded caught =
      rw (exact, counted, bounded, eq_iff "exact" "legacy")
        (IsCaughtUp-exact_answer now oldest c b caught)

-- only an exact row whose counts add up, within its bounds
fresh_answer-caught_up :
    (now : ℕ) (oldest : Option ℕ) (status : Value) (counts : Option Counts) (bounds : Option Bounds)
    → (fresh_answer now oldest status counts bounds).completeness ≡ caught_up
    → (c : Counts) × (b : Bounds) × (counts ≡ some c) × (bounds ≡ some b) × IsCaughtUp c b
unfolding fresh_answer answer exact_answer
fresh_answer-caught_up now oldest status none bounds h = absurd (ground (arith, h))
fresh_answer-caught_up now oldest status (some c) none h = absurd (ground (arith, h))
fresh_answer-caught_up now oldest status (some c) (some b) h =
    (c, b, refl, refl, exact_answer-caught_up now oldest c b (ground (arith, h)))

is_stale-IsRecent :
    (now max_age : ℕ) (o : Option ℕ)
    → is_stale now max_age o ≡ false
    → (observed : ℕ) × (o ≡ some observed) × IsRecent now max_age observed
unfolding is_stale
is_stale-IsRecent now max_age none h = absurd cc
is_stale-IsRecent now max_age (some t) h =
    (t, refl, record { not_ahead = ground (arith, h); not_old = ground (arith, h) })

IsRecent-is_stale :
    (now max_age observed : ℕ)
    → IsRecent now max_age observed
    → is_stale now max_age (some observed) ≡ false
unfolding is_stale
IsRecent-is_stale now max_age observed h = ground (arith, h.not_ahead, h.not_old)

module _ (date_parse : List ℕ → Option ℕ) (row : Fields) (now max_age : ℕ) where
  caught_up-SaysCaughtUp :
      (progress_response date_parse row now max_age).completeness ≡ caught_up
      → SaysCaughtUp date_parse row now max_age
  unfolding progress_response answer
  caught_up-SaysCaughtUp h =
      let at = as_time date_parse (get row "progress_observed_at") in
      let oldest = as_time date_parse (get row "oldest_pending_received_at") in
      elim (Bool-cases (is_stale now max_age at)) [
        | inl stale ↦ absurd (ground (arith, h, stale))
        | inr fresh ↦
            let h' : (fresh_answer now oldest (get row "coverage_status") (counts_of row)
                  (bounds_of row)).completeness
                ≡ caught_up =
              sym (rw fresh refl) ∙ h in
            let (observed, seen, recent) = is_stale-IsRecent now max_age at fresh in
            let (c, b, counted, bounded, caught) =
              fresh_answer-caught_up now oldest (get row "coverage_status") (counts_of row)
                (bounds_of row) h' in
            record {
              observed = observed;
              observed_at = seen;
              recent = recent;
              exact = text_is-eq (get row "coverage_status") "exact" (
                  fresh_answer-exact now oldest (get row "coverage_status") (counts_of row)
                    (bounds_of row) h');
              counts = c;
              counted = counts_of-IsCounted row c counted;
              bounds = b;
              bounded = bounds_of-IsBounded row b bounded;
              caught = caught;
            }
      ]

  SaysCaughtUp-caught_up :
      SaysCaughtUp date_parse row now max_age
      → (progress_response date_parse row now max_age).completeness ≡ caught_up
  unfolding progress_response answer
  SaysCaughtUp-caught_up h =
      let oldest = as_time date_parse (get row "oldest_pending_received_at") in
      rw
        (
          h.observed_at,
          IsRecent-is_stale now max_age h.observed h.recent,
          IsCaughtUp-fresh_answer now oldest (get row "coverage_status") (counts_of row)
              (bounds_of row) h.counts h.bounds h.exact (IsCounted-counts_of row h.counts h.counted)
              (IsBounded-bounds_of row h.bounds h.bounded) h.caught,
        )
        refl

  -- A row is said to have caught up exactly where it was observed recently, its coverage is exact,
  -- its five counts add up, its received, processed and visible bounds are equal, and nothing
  -- is pending or in quarantine.
  pub progress_response-caught_up :
      ((progress_response date_parse row now max_age).completeness ≡ caught_up)
      ↔ SaysCaughtUp date_parse row now max_age
  progress_response-caught_up = (caught_up-SaysCaughtUp, SaysCaughtUp-caught_up)
