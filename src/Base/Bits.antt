-- ===== src/Base/Bits.antt =====
-- Masks, unions of disjoint bits, and well-founded descent by division.
use Prim.Native.Nat.{
  min, max, digits, bit_and, bit_or, bit_and-bitwise, bit_or-bitwise, ℕ, zero, suc, ◌+◌, ◌*◌, ◌/◌,
  ◌%◌, ◌^◌, ◌≤◌, ◌<◌,
}
use mathlib.Core.Path.{◌≡◌, refl, ap}
use mathlib.Core.WellFounded.{Acc, WellFounded}
use native.Mathlib.Omega.{arith}
use native.Mathlib.Nat.{pow-suc}

-- The digit recursion gives one answer for any fuel that covers its first number.
enough_digits :
    (z : ℕ → ℕ) (f : ℕ → ℕ → ℕ) (n m a b : ℕ) → a ≤ n → a ≤ m → digits z f n a b ≡ digits z f m a b
enough_digits z f zero zero a b h k = refl
enough_digits z f zero (suc m) zero b h k = refl
enough_digits z f zero (suc m) (suc a) b h k = absurd (omega arith)
enough_digits z f (suc n) zero zero b h k = refl
enough_digits z f (suc n) zero (suc a) b h k = absurd (omega arith)
enough_digits z f (suc n) (suc m) zero b h k = refl
enough_digits z f (suc n) (suc m) (suc a) b h k =
    omega (arith, enough_digits z f n m (suc a / 2) (b / 2) (omega arith) (omega arith))

or_zero : (b : ℕ) → bit_or 0 b ≡ b
or_zero b = bit_or-bitwise 0 b

and_zero : (b : ℕ) → bit_and 0 b ≡ 0
and_zero b = bit_and-bitwise 0 b

or_digit : (a b : ℕ) → bit_or a b ≡ bit_or (a / 2) (b / 2) * 2 + max (a % 2) (b % 2)
or_digit zero b = omega (arith, or_zero b, or_zero (b / 2))
or_digit (suc a) b = omega (
  arith,
  bit_or-bitwise (suc a) b,
  bit_or-bitwise (suc a / 2) (b / 2),
  enough_digits (λ y. y) max a (suc a / 2) (suc a / 2) (b / 2) (omega arith) (omega arith),
)

and_digit : (a b : ℕ) → bit_and a b ≡ bit_and (a / 2) (b / 2) * 2 + min (a % 2) (b % 2)
and_digit zero b = omega (arith, and_zero b, and_zero (b / 2))
and_digit (suc a) b = omega (
  arith,
  bit_and-bitwise (suc a) b,
  bit_and-bitwise (suc a / 2) (b / 2),
  enough_digits (λ y. 0) min a (suc a / 2) (suc a / 2) (b / 2) (omega arith) (omega arith),
)

pow-step : (q k : ℕ) → q * 2 ^ suc k ≡ 2 * (q * 2 ^ k)
pow-step q k = omega (arith, ap (λ (t : ℕ). q * t) (pow-suc 2 k))

-- `r | (q << k)` is a sum when `r` has at most `k` bits.
pub or_disjoint : (k q r : ℕ) → r < 2 ^ k → bit_or r (q * 2 ^ k) ≡ r + q * 2 ^ k
or_disjoint zero zero r fits = ground (arith, or_zero 0)
or_disjoint zero q r fits = ground (arith, or_zero q)
or_disjoint (suc k) q r fits = ground (
  arith,
  or_digit r (q * 2 ^ suc k),
  pow-step q k,
  pow-suc 2 k,
  or_disjoint k q (r / 2) (omega arith),
)

and_zero_right : (a n : ℕ) → a ≤ n → bit_and a 0 ≡ 0
and_zero_right zero n h = and_zero 0
and_zero_right (suc a) zero h = absurd (omega arith)
and_zero_right (suc a) (suc n) h =
    omega (arith, and_digit (suc a) 0, and_zero_right (suc a / 2) n (omega arith))

and_1 : (v : ℕ) → bit_and v 1 ≡ v % 2
and_1 v = omega (arith, and_digit v 1, and_zero_right (v / 2) v (omega arith))

and_3 : (v : ℕ) → bit_and v 3 ≡ v % 4
and_3 v = omega (arith, and_digit v 3, and_1 (v / 2))

and_7 : (v : ℕ) → bit_and v 7 ≡ v % 8
and_7 v = omega (arith, and_digit v 7, and_3 (v / 2))

and_15 : (v : ℕ) → bit_and v 15 ≡ v % 16
and_15 v = omega (arith, and_digit v 15, and_7 (v / 2))

and_31 : (v : ℕ) → bit_and v 31 ≡ v % 32
and_31 v = omega (arith, and_digit v 31, and_15 (v / 2))

and_63 : (v : ℕ) → bit_and v 63 ≡ v % 64
and_63 v = omega (arith, and_digit v 63, and_31 (v / 2))

-- `v & 0x7f`, for every `v`
pub and_low : (v : ℕ) → bit_and v 0x7f ≡ v % 128
and_low v = omega (arith, and_digit v 127, and_63 (v / 2))

-- a mask of one bit, read one digit at a time
and_2 : (v : ℕ) → bit_and v 2 ≡ v / 2 % 2 * 2
and_2 v = omega (arith, and_digit v 2, and_1 (v / 2))

and_4 : (v : ℕ) → bit_and v 4 ≡ v / 4 % 2 * 4
and_4 v = omega (arith, and_digit v 4, and_2 (v / 2))

and_8 : (v : ℕ) → bit_and v 8 ≡ v / 8 % 2 * 8
and_8 v = omega (arith, and_digit v 8, and_4 (v / 2))

and_16 : (v : ℕ) → bit_and v 16 ≡ v / 16 % 2 * 16
and_16 v = omega (arith, and_digit v 16, and_8 (v / 2))

and_32 : (v : ℕ) → bit_and v 32 ≡ v / 32 % 2 * 32
and_32 v = omega (arith, and_digit v 32, and_16 (v / 2))

and_64 : (v : ℕ) → bit_and v 64 ≡ v / 64 % 2 * 64
and_64 v = omega (arith, and_digit v 64, and_32 (v / 2))

and_128 : (v : ℕ) → bit_and v 128 ≡ v / 128 % 2 * 128
and_128 v = omega (arith, and_digit v 128, and_64 (v / 2))

-- `b | 0x80` sets the top bit of seven bits.
pub or_high : (b : ℕ) → b < 128 → bit_or b 0x80 ≡ b + 128
or_high b h = or_disjoint 7 1 b h

-- `b & 0x80` reads the top bit of a byte.
pub and_high : (b : ℕ) → b < 256 → bit_and b 0x80 ≡ b / 128 * 128
and_high b h = omega (arith, and_128 b)

Acc-below : (k n : ℕ) → n < k → Acc ◌<◌ n
Acc-below zero n h = elim h [ ]
Acc-below (suc k) n h = Acc.intro n (λ m hm. Acc-below k m (omega arith))

unfoldable pub lt_wf : WellFounded ◌<◌
unfolding Acc-below
lt_wf = record { apply = λ n. Acc-below (suc n) n (omega arith) }
