-- ===== src/Timestamp/Projection.antt =====
-- `projectionTimestamp` of telemetry-processor/src/packages/validation/timestamp.ts: the text of a
-- time, also from the forms of times that an earlier receiver let in.
use smpp_telemetry_platform.Base.{
  ℕ, String, Bool, ◌&&◌, ◌||◌, Option, none, some, List, [], ◌∷◌, ◌++◌, leb, if◌then◌else◌, any,
}
use smpp_telemetry_platform.Base.Pattern.{
  Piece, one, many, maybe, finish, literal, times, matches, is_digit_code, is_lower,
}
use smpp_telemetry_platform.Base.Result.{Result, ok, err}
use smpp_telemetry_platform.Json.{Value, str}
use smpp_telemetry_platform.Timestamp.{valid_timestamp, is_some}

abbrev is_letter : ℕ → Bool
is_letter c = is_lower c || leb b'A' c && leb c b'Z'

-- `\d{4}-\d{2}-\d{2} \d{2}:\d{2}:\d{2}`
abbrev clock_time : List Piece
clock_time =
    times 2 is_digit_code
    ++ literal ":"
    ++ times 2 is_digit_code
    ++ literal ":"
    ++ times 2 is_digit_code

abbrev day_and_time : List Piece
day_and_time =
    times 4 is_digit_code
    ++ literal "-"
    ++ times 2 is_digit_code
    ++ literal "-"
    ++ times 2 is_digit_code
    ++ literal " "
    ++ clock_time

-- `\.\d+`
abbrev with_fraction : List Piece
with_fraction = literal "." ++ (one is_digit_code ∷ many is_digit_code ∷ [])

-- the two expressions, an expression for each choice of a group
abbrev pub legacy_forms : List (List Piece)
legacy_forms =
    (day_and_time ++ literal " GMT" ++ (finish ∷ []))
    ∷ (day_and_time ++ literal "Z" ++ (finish ∷ []))
    ∷ (day_and_time ++ with_fraction ++ literal " GMT" ++ (finish ∷ []))
    ∷ (day_and_time ++ with_fraction ++ literal "Z" ++ (finish ∷ []))
    ∷ ((one is_letter ∷ many is_letter ∷ [])
        ++ literal " "
        ++ (one is_digit_code ∷ maybe is_digit_code ∷ [])
        ++ literal ", "
        ++ times 4 is_digit_code
        ++ literal " "
        ++ clock_time
        ++ literal " GMT"
        ++ (finish ∷ []))
    ∷ []

-- `iso` is `toISOString` of a time that `Date.parse` has read
module _ (date_parse : String → Option ℕ) (iso : ℕ → String) where
  abbrev pub iso_text : Option ℕ → Result String
  iso_text none = err "PROJECTION_TIMESTAMP_INVALID"
  iso_text (some time) = ok (iso time)

  unfoldable pub projection_timestamp : Value → Result String
  unfolding valid_timestamp matches
  projection_timestamp (str s) =
      if valid_timestamp date_parse s
      then iso_text (date_parse s)
      else if any (λ form. matches form s) legacy_forms && is_some (date_parse s)
      then iso_text (date_parse s)
      else err "PROJECTION_TIMESTAMP_INVALID"
  projection_timestamp _ = err "PROJECTION_TIMESTAMP_INVALID"
