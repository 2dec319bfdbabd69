-- ===== src/Timestamp/Calendar.antt =====
-- Which formatted times `validTelemetryTimestamp` accepts, against the Gregorian calendar.
use smpp_telemetry_platform.Base.{
  ℕ, zero, suc, ◌-◌, leb, get_or, ◌%◌, ◌≤◌, ◌≡◌, ◌≢◌, ◌↔◌, ◌⊎◌, String, refl, true, Option, none,
  some, List, arith, length, All,
}
use smpp_telemetry_platform.Base.Text.{codes}
use smpp_telemetry_platform.Timestamp.{
  Parts, leap, days, offset_in_range, in_range, accepted, valid_timestamp, is_digit,
}
use smpp_telemetry_platform.Timestamp.Format.{format, Fits, IsSign, read-format}

abbrev pub IsLeap : ℕ → Type 0
IsLeap y = (y % 4 ≡ 0) × ((y % 100 ≢ 0) ⊎ (y % 400 ≡ 0))

-- The day is in the month of that year.
abbrev pub DayExists : ℕ → ℕ → ℕ → Type 0
DayExists y m d =
    (1 ≤ d)
    × ((d ≤ 28)
        ⊎ ((d ≡ 29) × ((m ≢ 2) ⊎ IsLeap y))
        ⊎ ((d ≡ 30) × (m ≢ 2))
        ⊎ ((d ≡ 31) × ((m ≡ 1) ⊎ (m ≡ 3) ⊎ (m ≡ 5) ⊎ (m ≡ 7) ⊎ (m ≡ 8) ⊎ (m ≡ 10) ⊎ (m ≡ 12))))

abbrev pub OffsetExists : Option (ℕ × ℕ) → Type 0
OffsetExists none = Unit {0}
OffsetExists (some (h, m)) = (h ≤ 23) × (m ≤ 59)

pub record IsCalendarTime (p : Parts) : Type 0 where
  pub month_low : 1 ≤ p.month
  pub month_high : p.month ≤ 12
  pub day : DayExists p.year p.month p.day
  pub hour : p.hour ≤ 23
  pub minute : p.minute ≤ 59
  pub second : p.second ≤ 59
  pub offset : OffsetExists p.offset

leap_iff : (y : ℕ) → (leap y ≡ true) ↔ IsLeap y
unfolding leap
leap_iff y = (λ h. ground arith, λ h. ground arith)

-- The twelve entries of the array, each against the calendar.
day_iff :
    (y m d : ℕ)
    → 1 ≤ m
    → m ≤ 12
    → 1 ≤ d
    → (leb d (get_or (days y) (m - 1) 0) ≡ true) ↔ DayExists y m d
day_iff y zero d h k l = absurd (omega arith)
day_iff y (suc zero) d h k l = (λ e. ground arith, λ e. ground arith)
day_iff y (suc (suc zero)) d h k l =
    (λ e. ground (arith, (leap_iff y).0), λ e. ground (arith, (leap_iff y).1))
day_iff y (suc (suc (suc zero))) d h k l = (λ e. ground arith, λ e. ground arith)
day_iff y (suc (suc (suc (suc zero)))) d h k l = (λ e. ground arith, λ e. ground arith)
day_iff y (suc (suc (suc (suc (suc zero))))) d h k l = (λ e. ground arith, λ e. ground arith)
day_iff y (suc (suc (suc (suc (suc (suc zero)))))) d h k l = (λ e. ground arith, λ e. ground arith)
day_iff y (suc (suc (suc (suc (suc (suc (suc zero))))))) d h k l =
    (λ e. ground arith, λ e. ground arith)
day_iff y (suc (suc (suc (suc (suc (suc (suc (suc zero)))))))) d h k l =
    (λ e. ground arith, λ e. ground arith)
day_iff y (suc (suc (suc (suc (suc (suc (suc (suc (suc zero))))))))) d h k l =
    (λ e. ground arith, λ e. ground arith)
day_iff y (suc (suc (suc (suc (suc (suc (suc (suc (suc (suc zero)))))))))) d h k l =
    (λ e. ground arith, λ e. ground arith)
day_iff y (suc (suc (suc (suc (suc (suc (suc (suc (suc (suc (suc zero))))))))))) d h k l =
    (λ e. ground arith, λ e. ground arith)
day_iff y (suc (suc (suc (suc (suc (suc (suc (suc (suc (suc (suc (suc zero)))))))))))) d h k l =
    (λ e. ground arith, λ e. ground arith)
day_iff y (suc (suc (suc (suc (suc (suc (suc (suc (suc (suc (suc (suc (suc m))))))))))))) d h k l =
    absurd (omega arith)

offset_sound : (z : Option (ℕ × ℕ)) → offset_in_range z ≡ true → OffsetExists z
unfolding offset_in_range
offset_sound none h = tt
offset_sound (some (a, b)) h = ground arith

offset_complete : (z : Option (ℕ × ℕ)) → OffsetExists z → offset_in_range z ≡ true
unfolding offset_in_range
offset_complete none h = refl
offset_complete (some (a, b)) h = ground arith

in_range_sound : (p : Parts) → in_range p ≡ true → IsCalendarTime p
unfolding in_range
in_range_sound p h =
    let m1 : 1 ≤ p.month = ground arith in
    let m12 : p.month ≤ 12 = ground arith in
    let d1 : 1 ≤ p.day = ground arith in
    let listed : leb p.day (get_or (days p.year) (p.month - 1) 0) ≡ true = ground arith in
    record {
      month_low = m1;
      month_high = m12;
      day = (day_iff p.year p.month p.day m1 m12 d1).0 listed;
      hour = ground arith;
      minute = ground arith;
      second = ground arith;
      offset = offset_sound p.offset (ground arith);
    }

in_range_complete : (p : Parts) → IsCalendarTime p → in_range p ≡ true
unfolding in_range
in_range_complete p h =
    let listed = (day_iff p.year p.month p.day h.month_low h.month_high h.day.0).1 h.day in
    ground (arith, h.day.0, offset_complete p.offset)

-- A formatted time is accepted exactly when it exists in the calendar and `Date.parse` reads it.
pub valid_timestamp-format :
    (date_parse : String → Option ℕ) (s : String) (p : Parts) (ds : List ℕ) (sign : ℕ)
    → Fits p
    → IsSign sign
    → All (λ d. is_digit d ≡ true) ds
    → length ds ≤ 9
    → codes s ≡ format p ds sign
    → (valid_timestamp date_parse s ≡ true)
      ↔ (IsCalendarTime p × (ms : ℕ) × (date_parse s ≡ some ms))
unfolding valid_timestamp accepted
valid_timestamp-format date_parse s p ds sign fits sg h k e =
    rw (e, read-format p ds sign fits sg h k)
      (λ a. ground (arith, in_range_sound p), λ b. ground (arith, in_range_complete p))
