-- ===== src/Timestamp/Format.antt =====
-- The texts that `validTelemetryTimestamp` reads: a formatted time, with and without a fraction.
use smpp_telemetry_platform.Base.{
  ℕ, zero, suc, ◌+◌, ◌/◌, ◌%◌, ◌<◌, ◌≤◌, ◌≡◌, refl, true, Option, none, some, List, [], ◌∷◌, ◌++◌,
  arith, length, All, ◌⊎◌,
}
use smpp_telemetry_platform.Timestamp.{
  Parts, number, expect, skip_digits, fraction, at_end, zone, read, is_digit,
}

abbrev pub two : ℕ → List ℕ → List ℕ
two n rest = (b'0' + n / 10) ∷ (b'0' + n % 10) ∷ rest

abbrev pub four : ℕ → List ℕ → List ℕ
four n rest = two (n / 100) (two (n % 100) rest)

-- the decimal fraction of a second, `[]` for none
abbrev pub dot : List ℕ → List ℕ → List ℕ
dot [] rest = rest
dot (d ∷ ds) rest = b'.' ∷ d ∷ ds ++ rest

-- the zone, `sign` standing before an offset
abbrev pub zone_text : ℕ → Option (ℕ × ℕ) → List ℕ
zone_text sign none = b'Z' ∷ []
zone_text sign (some (h, m)) = sign ∷ two h (b':' ∷ two m [])

unfoldable pub format : Parts → List ℕ → ℕ → List ℕ
format p digits sign = four p.year (
    b'-'
    ∷ two p.month (
        b'-'
        ∷ two p.day (
            b'T'
            ∷ two p.hour (
                b':' ∷ two p.minute (b':' ∷ two p.second (dot digits (zone_text sign p.offset)))))))

abbrev pub OffsetFits : Option (ℕ × ℕ) → Type 0
OffsetFits none = Unit {0}
OffsetFits (some (h, m)) = (h < 100) × (m < 100)

-- Every number fits the digits that it is written with.
pub record Fits (p : Parts) : Type 0 where
  pub year : p.year < 10000
  pub month : p.month < 100
  pub day : p.day < 100
  pub hour : p.hour < 100
  pub minute : p.minute < 100
  pub second : p.second < 100
  pub offset : OffsetFits p.offset

read_two : (n : ℕ) (rest : List ℕ) → n < 100 → number 2 0 (two n rest) ≡ some (n, rest)
unfolding number
read_two n rest h = ground arith

read_four : (n : ℕ) (rest : List ℕ) → n < 10000 → number 4 0 (four n rest) ≡ some (n, rest)
unfolding number
read_four n rest h = ground arith

abbrev pub IsSign : ℕ → Type 0
IsSign c = (c ≡ b'+') ⊎ (c ≡ b'-')

skip_zone :
    (n sign : ℕ) (z : Option (ℕ × ℕ))
    → IsSign sign
    → skip_digits n (zone_text sign z) ≡ zone_text sign z
unfolding skip_digits
skip_zone zero sign z h = refl
skip_zone (suc n) sign none h = refl
skip_zone (suc n) sign (some (a, b)) h = ground arith

skip-All :
    (n : ℕ) (ds : List ℕ) (sign : ℕ) (z : Option (ℕ × ℕ))
    → IsSign sign
    → All (λ d. is_digit d ≡ true) ds
    → length ds ≤ n
    → skip_digits n (ds ++ zone_text sign z) ≡ zone_text sign z
unfolding skip_digits
skip-All n [] sign z s h k = skip_zone n sign z s
skip-All zero (d ∷ ds) sign z s h k = absurd (omega arith)
skip-All (suc n) (d ∷ ds) sign z s (h, hs) k = ground (arith, skip-All n ds sign z s hs)

read_fraction :
    (ds : List ℕ) (sign : ℕ) (z : Option (ℕ × ℕ))
    → IsSign sign
    → All (λ d. is_digit d ≡ true) ds
    → length ds ≤ 9
    → fraction (dot ds (zone_text sign z)) ≡ some (zone_text sign z)
unfolding fraction number
read_fraction [] sign none s h k = refl
read_fraction [] sign (some (a, b)) s h k = ground arith
read_fraction (d ∷ ds) sign z s (h, hs) k = ground (arith, skip-All 8 ds sign z s hs)

read_zone :
    (sign : ℕ) (z : Option (ℕ × ℕ)) → IsSign sign → OffsetFits z → zone (zone_text sign z) ≡ some z
unfolding zone expect at_end
read_zone sign none s h = refl
read_zone sign (some (a, b)) s (ha, hb) =
    ground (arith, read_two a (b':' ∷ two b []), read_two b [])

-- Reading what was formatted gives the parts back.
pub read-format :
    (p : Parts) (ds : List ℕ) (sign : ℕ)
    → Fits p
    → IsSign sign
    → All (λ d. is_digit d ≡ true) ds
    → length ds ≤ 9
    → read (format p ds sign) ≡ some p
unfolding read format expect
read-format p ds sign fits s h k = simp (
  read_four p.year
      (b'-'
        ∷ two p.month (
            b'-'
            ∷ two p.day (
                b'T'
                ∷ two p.hour (
                    b':' ∷ two p.minute (b':' ∷ two p.second (dot ds (zone_text sign p.offset)))))))
      fits.year,
  read_two p.month
      (b'-'
        ∷ two p.day (
            b'T'
            ∷ two p.hour
                (b':' ∷ two p.minute (b':' ∷ two p.second (dot ds (zone_text sign p.offset))))))
      fits.month,
  read_two p.day
      (b'T'
        ∷ two p.hour (b':' ∷ two p.minute (b':' ∷ two p.second (dot ds (zone_text sign p.offset)))))
      fits.day,
  read_two p.hour (b':' ∷ two p.minute (b':' ∷ two p.second (dot ds (zone_text sign p.offset))))
      fits.hour,
  read_two p.minute (b':' ∷ two p.second (dot ds (zone_text sign p.offset))) fits.minute,
  read_two p.second (dot ds (zone_text sign p.offset)) fits.second,
  read_fraction ds sign p.offset s h k,
  read_zone sign p.offset s fits.offset,
)
