-- ===== src/Progress.antt =====
-- `progressResponse` of telemetry-dashboard/query-api/src/progress.ts: how complete a
-- projection is said to be, from a row of the processor's progress. A time is a number of
-- milliseconds after the earliest Date; `date_parse` is `Date.parse`, `none` its NaN.
pub mod Verdict
use smpp_telemetry_platform.Base.{
  ℕ, zero, suc, ◌+◌, ◌-◌, ◌*◌, Bool, true, false, not, ◌&&◌, ◌||◌, String, List, [], ◌∷◌, ◌++◌, map,
  ltb, leb, str_eq, if◌then◌else◌, ◌==◌, any, Option, none, some,
}
use smpp_telemetry_platform.Base.Text.{codes}
use smpp_telemetry_platform.Base.Maybe.{◌>>=◌}
use smpp_telemetry_platform.Json.{
  Value, undefined, null, bool, num, str, arr, obj, Fields, pos, get, max_safe,
}

abbrev is_digit : ℕ → Bool
is_digit c = leb b'0' c && leb c b'9'

unfoldable pub only_digits : List ℕ → Bool
only_digits [] = true
only_digits (c ∷ cs) = is_digit c && only_digits cs

-- `/^(0|[1-9]\d*)$/u`
unfoldable pub is_decimal : List ℕ → Bool
unfolding only_digits
is_decimal [] = false
is_decimal (c ∷ cs) =
    if c == b'0' then (elim cs [ [] ↦ true | _ ∷ _ ↦ false ]) else is_digit c && only_digits cs

unfoldable pub decimal : ℕ → List ℕ → ℕ
decimal acc [] = acc
decimal acc (c ∷ cs) = decimal (10 * acc + (c - b'0')) cs

-- `asCount`, a BigInt or null
unfoldable pub as_count : Value → Option ℕ
unfolding is_decimal decimal
as_count (str s) = if is_decimal (codes s) then some (decimal 0 (codes s)) else none
as_count (num (pos n)) = if leb n max_safe then some n else none
as_count _ = none

unfoldable pub has_code : ℕ → List ℕ → Bool
has_code c [] = false
has_code c (d ∷ ds) = d == c || has_code c ds

-- `value.replace(" ", "T")`: the first space only
unfoldable pub with_t : List ℕ → List ℕ
with_t [] = []
with_t (c ∷ cs) = if c == b' ' then b'T' ∷ cs else c ∷ with_t cs

-- the text that `asTime` hands to `Date.parse`
unfoldable pub iso_codes : List ℕ → List ℕ
unfolding has_code with_t
iso_codes cs = if has_code b'T' cs then cs else with_t cs ++ b'Z' ∷ []

pub data Completeness : Type 0 where
  unknown : Completeness
  legacy_best_known : Completeness
  lagging : Completeness
  caught_up : Completeness
  caught_up_with_quarantine : Completeness

pub data Reason : Type 0 where
  durable_progress_unavailable : Reason
  progress_stale : Reason
  legacy_dispositions_unavailable : Reason
  progress_boundaries_invalid : Reason
  pending_projections : Reason
  pending_age_unavailable : Reason
  publication_pending : Reason
  input_disposition_pending : Reason
  unresolved_quarantine : Reason
  known_inputs_disposed : Reason
  progress_counts_inconsistent : Reason

-- the fields that the response computes; the others it copies from the row
pub record Response : Type 0 where
  pub projection_lag_ms : Option ℕ
  pub completeness : Completeness
  pub reason : Reason

unfoldable pub answer : Completeness → Reason → Option ℕ → Response
answer c r lag = record { projection_lag_ms = lag; completeness = c; reason = r }

pub record Counts : Type 0 where
  pub accepted : ℕ
  pub projected : ℕ
  pub quarantined : ℕ
  pub not_routed : ℕ
  pub pending : ℕ

pub record Bounds : Type 0 where
  pub received : ℕ
  pub processed : ℕ
  pub visible : ℕ

-- the five counters, where each is a count and they add up: `validCounts`
unfoldable pub add_up : Counts → Bool
add_up c = c.accepted == c.projected + c.quarantined + c.not_routed + c.pending

unfoldable pub counts_of : Fields → Option Counts
unfolding as_count add_up
counts_of row = do
  accepted ← as_count (get row "accepted")
  projected ← as_count (get row "projected")
  quarantined ← as_count (get row "quarantined")
  not_routed ← as_count (get row "not_routed")
  pending ← as_count (get row "pending")
  let c : Counts = record {
    accepted = accepted;
    projected = projected;
    quarantined = quarantined;
    not_routed = not_routed;
    pending = pending;
  }
  if add_up c then some c else none

unfoldable pub bounds_of : Fields → Option Bounds
unfolding as_count
bounds_of row = do
  received ← as_count (get row "received_through")
  processed ← as_count (get row "processed_through")
  visible ← as_count (get row "visible_through")
  some (record { received = received; processed = processed; visible = visible })

-- the row's text in a column that is `coverage_status`
unfoldable pub text_is : Value → String → Bool
text_is (str s) t = str_eq s t
text_is _ t = false

-- the lag of the oldest input that is pending: `Math.max(0, now - oldest)`
unfoldable pub pending_answer : ℕ → Option ℕ → Response
pending_answer now none = answer unknown pending_age_unavailable none
pending_answer now (some oldest) = answer lagging pending_projections (some (now - oldest))

-- the answer for an exact row whose counts add up
unfoldable pub exact_answer : ℕ → Option ℕ → Counts → Option Bounds → Response
unfolding answer pending_answer
exact_answer now oldest c none = answer unknown progress_boundaries_invalid none
exact_answer now oldest c (some b) =
    if ltb b.received b.processed || ltb b.processed b.visible
    then answer unknown progress_boundaries_invalid none
    else if ltb 0 c.pending
    then pending_answer now oldest
    else if ltb b.visible b.processed
    then answer lagging publication_pending none
    else if ltb b.processed b.received
    then answer lagging input_disposition_pending none
    else if ltb 0 c.quarantined
    then answer caught_up_with_quarantine unresolved_quarantine (some 0)
    else answer caught_up known_inputs_disposed (some 0)

-- the answer for a row that is not stale
unfoldable pub fresh_answer : ℕ → Option ℕ → Value → Option Counts → Option Bounds → Response
unfolding answer exact_answer text_is
fresh_answer now oldest status counts bounds =
    if text_is status "legacy"
    then answer legacy_best_known legacy_dispositions_unavailable none
    else if text_is status "exact"
    then (elim counts [
      | none ↦ answer unknown progress_counts_inconsistent none
      | some c ↦ exact_answer now oldest c bounds
    ])
    else answer unknown durable_progress_unavailable none

unfoldable pub is_stale : ℕ → ℕ → Option ℕ → Bool
is_stale now max_age none = true
is_stale now max_age (some observed) = ltb (now + 5000) observed || ltb max_age (now - observed)

module _ (date_parse : List ℕ → Option ℕ) where
  -- `asTime`
  unfoldable pub as_time : Value → Option ℕ
  unfolding iso_codes
  as_time (str s) = date_parse (iso_codes (codes s))
  as_time _ = none

  unfoldable pub progress_response : Fields → ℕ → ℕ → Response
  unfolding as_time fresh_answer is_stale counts_of bounds_of answer
  progress_response row now max_age =
      if is_stale now max_age (as_time (get row "progress_observed_at"))
      then answer unknown progress_stale none
      else fresh_answer now (as_time (get row "oldest_pending_received_at"))
          (get row "coverage_status") (counts_of row) (bounds_of row)
