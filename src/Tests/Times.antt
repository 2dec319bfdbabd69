-- ===== src/Tests/Times.antt =====
-- Times at concrete inputs.
use smpp_telemetry_platform.Timestamp.{accepted, number}
use smpp_telemetry_platform.Timestamp.Projection.{projection_timestamp}
use smpp_telemetry_platform.Base.Pattern.{matches, matches_here, times, word}
use smpp_telemetry_platform.Base.Result.{ok}
use smpp_telemetry_platform.Json.{str}
use smpp_telemetry_platform.Base.{
  ℕ, ◌≡◌, ◌↔◌, refl, inl, true, Option, some, String, [], ◌∷◌, arith,
}
use smpp_telemetry_platform.Timestamp.{Parts, read, valid_timestamp}
use smpp_telemetry_platform.Timestamp.Format.{Fits, format, read-format}
use smpp_telemetry_platform.Timestamp.Calendar.{IsCalendarTime, valid_timestamp-format}

abbrev leap_day : Parts
leap_day = record {
  year = 2024;
  month = 2;
  day = 29;
  hour = 23;
  minute = 59;
  second = 7;
  offset = some (5, 30);
}

abbrev some_time : String → Option ℕ
some_time s = some 1709

leap_day-Fits : Fits leap_day
leap_day-Fits = record {
  year = omega arith;
  month = omega arith;
  day = omega arith;
  hour = omega arith;
  minute = omega arith;
  second = omega arith;
  offset = (omega arith, omega arith);
}

read-format_example : read (format leap_day (b'5' ∷ []) b'+') ≡ some leap_day
read-format_example =
    read-format leap_day (b'5' ∷ []) b'+' leap_day-Fits (inl refl) (refl, tt) (omega arith)

valid_timestamp-format_example :
    (valid_timestamp some_time "2024-02-29T23:59:07.5+05:30" ≡ true)
    ↔ (IsCalendarTime leap_day × (ms : ℕ) × (some 1709 ≡ some ms))
unfolding format
valid_timestamp-format_example =
    valid_timestamp-format some_time "2024-02-29T23:59:07.5+05:30" leap_day (b'5' ∷ []) b'+'
      leap_day-Fits (inl refl) (refl, tt) (omega arith) refl

abbrev iso_one : ℕ → String
iso_one time = "2024-02-29T18:29:07.500Z"

-- a form of an earlier receiver
legacy_text :
    projection_timestamp some_time iso_one (str "August 3, 2024 02:00:00 GMT") ≡ ok (iso_one 1709)
unfolding projection_timestamp valid_timestamp accepted read number matches matches_here times word
legacy_text = refl
