-- ===== src/Query/Diagnostic/Limits.antt =====
-- The limits of a diagnostic request.
use text.Mathlib.TextLemmas.{nil-append, append_assoc}
use smpp_telemetry_platform.Query.Urn.{◌⋯◌}
use smpp_telemetry_platform.Base.{
  ℕ, ◌+◌, sym, ap, ◌∙◌, ◌≡◌, ◌≤◌, String, Bool, true, not, Option, none, some, arith, OnSome, ◌&&◌,
  str_eq,
}
use smpp_telemetry_platform.Base.Text.{codes}
use smpp_telemetry_platform.Base.Result.{Ensures, after, holding, checked, Ensures-ok, on_test}
use smpp_telemetry_platform.Query.Scope.{Parameters}
use smpp_telemetry_platform.Query.Diagnostic.{
  Clock, integer, integer_of, parameter, in_range, minimum, number_from, invalid, query_of,
  diagnostic_query, trace_match, is_some, Query,
}

in_range-bounds :
    (key : String) (maximum value : ℕ)
    → in_range key maximum value ≡ true
    → (minimum key ≤ value) × (value ≤ maximum)
in_range-bounds key maximum value h = (ground (arith, h), ground (arith, h))

integer-bounds :
    (ps : Parameters) (key : String) (fallback maximum : ℕ)
    → minimum key ≤ fallback
    → fallback ≤ maximum
    → Ensures (λ value. (minimum key ≤ value) × (value ≤ maximum)) (integer ps key fallback maximum)
unfolding integer
integer-bounds ps key fallback maximum low high = bounds (parameter ps key)
  where
    bounds :
        (text : Option String)
        → Ensures
            (λ value. (minimum key ≤ value) × (value ≤ maximum))
            (integer_of text key fallback maximum)
    bounds none = Ensures-ok (low, high)
    bounds (some text) = checked (invalid key) λ _.
        checked (invalid key)
          λ within. Ensures-ok (in_range-bounds key maximum (number_from 0 (codes text)) within)

-- the text ends with another
abbrev EndsWith : String → String → Type 0
EndsWith tail text = (before : String) × (text ≡ before ⋯ tail)

all-EndsWith : (tail : String) → EndsWith tail tail
all-EndsWith tail = ("", sym (nil-append tail))

more-EndsWith : (tail start text : String) → EndsWith tail text → EndsWith tail (start ⋯ text)
more-EndsWith tail start text (before, e) =
    (start ⋯ before, ap (λ t. start ⋯ t) e ∙ sym (append_assoc start before tail))

-- The limit of the request lies in its bounds, and the SQL asks for one row more than it, by which
-- the reader knows of a next page.
pub record IsLimited (clock : Clock) (query : Query) : Type 0 where
  pub at_least : 1 ≤ query.limit
  pub at_most : query.limit ≤ 1000
  pub skipped : query.offset ≤ 100000
  pub asked :
      EndsWith
        (" LIMIT " ⋯ clock.show (query.limit + 1) ⋯ " OFFSET " ⋯ clock.show query.offset)
        query.sql

query_of-IsLimited :
    (clock : Clock) (metrics : Bool) (trace : Option String) (ps : Parameters)
    → Ensures (IsLimited clock) (query_of clock metrics trace ps)
unfolding query_of
query_of-IsLimited clock metrics trace ps =
    holding (integer-bounds ps "limit" 100 1000 (omega arith) (omega arith)) λ limit (low, high).
      holding (integer-bounds ps "offset" 0 100000 (omega arith) (omega arith)) λ offset (_, top).
        checked "INVALID_type" λ _. after λ named _. after λ traced _. after λ started _.
          after λ stopped _. checked "INVALID_time_range" λ _.
            let tail = " LIMIT " ⋯ clock.show (limit + 1) ⋯ " OFFSET " ⋯ clock.show offset in
            let more = more-EndsWith tail in
            Ensures-ok (record {
              at_least = low;
              at_most = high;
              skipped = top;
              asked = more _ _ (
                  more _ _ (
                    more _ _
                      (more _ _ (more _ _ (more _ _ (more _ _ (more _ _ (all-EndsWith tail))))))));
            })

-- A diagnostic query that is answered has a limit of 1 to 1,000 rows and skips 100,000 rows at most,
-- whatever the request asks for, and its SQL asks for one row more than its limit, at its offset.
pub diagnostic_query-IsLimited :
    (clock : Clock) (path : String) (ps : Parameters)
    → Ensures (OnSome (IsLimited clock)) (diagnostic_query clock path ps)
unfolding diagnostic_query
diagnostic_query-IsLimited clock path ps =
    let metrics = str_eq path "/api/v1/metrics" in
    on_test (not metrics && not (str_eq path "/api/v1/traces") && not (is_some (trace_match path)))
      (λ _. Ensures-ok tt)
      (λ _.
        holding (query_of-IsLimited clock metrics (trace_match path) ps)
          λ query limited. Ensures-ok limited)
