-- ===== src/Timestamp.antt =====
-- telemetry-processor/src/packages/validation/timestamp.ts: which texts are RFC 3339 times.
-- `Date.parse` is the parameter `date_parse`; `none` is its NaN.
pub mod Calendar
pub mod Format
pub mod Projection
use smpp_telemetry_platform.Base.{
  ℕ, zero, suc, ◌+◌, ◌-◌, ◌*◌, ◌%◌, String, Bool, true, false, not, ◌&&◌, ◌||◌, Option, none, some,
  get_or, List, [], ◌∷◌, ltb, leb, ◌==◌, if◌then◌else◌,
}
use smpp_telemetry_platform.Base.Text.{codes}
use smpp_telemetry_platform.Base.Maybe.{◌>>=◌}
use smpp_telemetry_platform.Json.{Value, str}

-- `\d`
abbrev is_digit : ℕ → Bool
is_digit c = leb b'0' c && leb c b'9'

-- `\d{n}`, with the number that the digits write, after those already read.
unfoldable pub number : ℕ → ℕ → List ℕ → Option (ℕ × List ℕ)
number zero acc cs = some (acc, cs)
number (suc n) acc [] = none
number (suc n) acc (c ∷ cs) = if is_digit c then number n (acc * 10 + (c - b'0')) cs else none

unfoldable pub expect : ℕ → List ℕ → Option (List ℕ)
expect c [] = none
expect c (d ∷ cs) = if d == c then some cs else none

-- `\d{0,n}`, as many as there are
unfoldable pub skip_digits : ℕ → List ℕ → List ℕ
skip_digits zero cs = cs
skip_digits (suc n) [] = []
skip_digits (suc n) (c ∷ cs) = if is_digit c then skip_digits n cs else c ∷ cs

-- `(?:\.(\d{1,9}))?`; no digit can begin what follows, so the match takes all digits.
unfoldable pub fraction : List ℕ → Option (List ℕ)
fraction [] = some []
fraction (c ∷ cs) =
    if c == b'.' then (number 1 0 cs >>= λ r. some (skip_digits 8 r.1)) else some (c ∷ cs)

-- the `$` of the expression, after the zone; `none` inside is Z
unfoldable pub at_end : Option (ℕ × ℕ) → List ℕ → Option (Option (ℕ × ℕ))
at_end z [] = some z
at_end z (_ ∷ _) = none

-- `[+-]\d{2}:\d{2}`, past the sign
unfoldable pub offset_zone : List ℕ → Option (Option (ℕ × ℕ))
unfolding number expect at_end
offset_zone cs = do
  (h, after_hour) ← number 2 0 cs
  after_colon ← expect b':' after_hour
  (m, rest) ← number 2 0 after_colon
  at_end (some (h, m)) rest

-- `(Z|[+-]\d{2}:\d{2})$`
unfoldable pub zone : List ℕ → Option (Option (ℕ × ℕ))
unfolding offset_zone
zone [] = none
zone (c ∷ cs) =
    if c == b'Z' then at_end none cs else if c == b'+' || c == b'-' then offset_zone cs else none

pub record Parts : Type 0 where
  pub year : ℕ
  pub month : ℕ
  pub day : ℕ
  pub hour : ℕ
  pub minute : ℕ
  pub second : ℕ
  pub offset : Option (ℕ × ℕ)

-- The regular expression, with its groups read as numbers.
unfoldable pub read : List ℕ → Option Parts
unfolding number expect skip_digits fraction zone
read cs = do
  (year, c1) ← number 4 0 cs
  c2 ← expect b'-' c1
  (month, c3) ← number 2 0 c2
  c4 ← expect b'-' c3
  (day, c5) ← number 2 0 c4
  c6 ← expect b'T' c5
  (hour, c7) ← number 2 0 c6
  c8 ← expect b':' c7
  (minute, c9) ← number 2 0 c8
  c10 ← expect b':' c9
  (second, c11) ← number 2 0 c10
  c12 ← fraction c11
  offset ← zone c12
  some (record {
    year = year;
    month = month;
    day = day;
    hour = hour;
    minute = minute;
    second = second;
    offset = offset;
  })

unfoldable pub leap : ℕ → Bool
leap y = y % 4 == 0 && (not (y % 100 == 0) || y % 400 == 0)

-- The array `days`.
abbrev pub days : ℕ → List ℕ
days y = 31 ∷ (if leap y then 29 else 28) ∷ 31 ∷ 30 ∷ 31 ∷ 30 ∷ 31 ∷ 31 ∷ 30 ∷ 31 ∷ 30 ∷ 31 ∷ []

unfoldable pub offset_in_range : Option (ℕ × ℕ) → Bool
offset_in_range none = true
offset_in_range (some (h, m)) = leb h 23 && leb m 59

unfoldable pub in_range : Parts → Bool
unfolding leap offset_in_range
in_range p =
    leb 1 p.month
    && leb p.month 12
    && leb 1 p.day
    && leb p.hour 23
    && leb p.minute 59
    && leb p.second 59
    && leb p.day (get_or (days p.year) (p.month - 1) 0)
    && offset_in_range p.offset

abbrev pub is_some {ℓ} : {A : Type ℓ} → Option A → Bool
is_some none = false
is_some (some _) = true

module _ (date_parse : String → Option ℕ) where
  unfoldable pub accepted : String → Option Parts → Bool
  accepted s none = false
  accepted s (some p) = in_range p && is_some (date_parse s)

  unfoldable pub valid_timestamp : String → Bool
  unfolding accepted
  valid_timestamp s = accepted s (read (codes s))
