-- ===== src/Otlp/Varint.antt =====
-- A pushed varint is read back, and takes at least one byte.
use Prim.Native.Nat.{bit_and, bit_or}
use mathlib.Core.WellFounded.{Acc}
use native.Mathlib.Decide.{dec_lt}
use native.Mathlib.Nat.{pow-suc}
use native.Mathlib.Bridge.{le_prop}
use native.Mathlib.Numerals.{towards_suc}
use mathlib.Core.Logic.{dif_pos}
use smpp_telemetry_platform.Base.{
  false, ltb, ge→ltb, ◌==◌, ℕ, zero, suc, ◌+◌, ◌*◌, ◌/◌, ◌%◌, ◌^◌, ◌<◌, ◌≤◌, ◌≡◌, ap, ◌∙◌, [], ◌∷◌,
  ◌++◌, arith,
}
use smpp_telemetry_platform.Base.Bits.{lt_wf, or_disjoint, and_low, or_high, and_high}
use smpp_telemetry_platform.Base.Result.{ok}
use smpp_telemetry_platform.Otlp.Wire.{Bytes, varint_from, varint}
use smpp_telemetry_platform.Otlp.Encode.{shift_shrinks, push_from, push_varint}

pow_seven : (s : ℕ) → 2 ^ (s + 7) ≡ 128 * 2 ^ s
pow_seven s = simp towards_suc (
    omega (
      arith,
      pow-suc 2 s,
      pow-suc 2 (suc s),
      pow-suc 2 (suc (suc s)),
      pow-suc 2 (suc (suc (suc s))),
      pow-suc 2 (suc (suc (suc (suc s)))),
      pow-suc 2 (suc (suc (suc (suc (suc s))))),
      pow-suc 2 (suc (suc (suc (suc (suc (suc s)))))),
    ))

-- A last byte ends the number.
pub varint_last :
    (b value shift : ℕ) (rest : Bytes)
    → b < 128
    → value < 2 ^ shift
    → varint_from value shift (b ∷ rest) ≡ ok (value + b * 2 ^ shift, rest)
unfolding varint_from
varint_last b value shift rest h k =
    ground (arith, and_low b, and_high b, or_disjoint shift b value k)

-- A byte with its top bit set adds seven bits and reads on.
varint_more :
    (b value shift : ℕ) (rest : Bytes)
    → b < 128
    → value < 2 ^ shift
    → shift + 7 ≤ 70
    → varint_from value shift ((b + 128) ∷ rest)
      ≡ varint_from (value + b * 2 ^ shift) (shift + 7) rest
unfolding varint_from
varint_more b value shift rest h k l =
    let low : bit_and (b + 128) 0x7f ≡ b = omega (arith, and_low (b + 128)) in
    let high : (bit_and (b + 128) 0x80 == 0) ≡ false = ground (arith, and_high (b + 128)) in
    let room : ltb 70 (shift + 7) ≡ false = ge→ltb 70 (shift + 7) l in
    rw (low, high, room, or_disjoint shift b value k)

push_last : (v : ℕ) (w : Acc ◌<◌ v) → v < 128 → push_from v w ≡ v ∷ []
unfolding push_from
push_last v (Acc.intro _ smaller) h = ground (arith, and_low v)

push_more :
    (v : ℕ) (w : Acc ◌<◌ v)
    → 128 ≤ v
    → (w' : Acc ◌<◌ (v / 128)) × (push_from v w ≡ (v % 128 + 128) ∷ push_from (v / 128) w')
unfolding push_from
push_more v (Acc.intro _ smaller) h =
    let more : 0 < v / 128 = omega arith in
    let top : bit_or (bit_and v 0x7f) 0x80 ≡ v % 128 + 128 =
      rw (and_low v) (or_high (v % 128) (omega arith)) in
    (smaller (v / 128) (shift_shrinks v more), rw (dif_pos (dec_lt 0 (v / 128)) le_prop more, top))

groups-suc : (n : ℕ) → 128 ^ suc n ≡ 128 * 128 ^ n
groups-suc n = omega (arith, pow-suc 128 n)

some_rounds : (rounds u : ℕ) → u < 128 ^ rounds → 1 ≤ u → 1 ≤ rounds
some_rounds zero u h k = absurd (omega arith)
some_rounds (suc n) u h k = omega arith

group_fits : (value d p : ℕ) → value < p → d < 128 → value + d * p < 128 * p
group_fits value d p h k = grind arith

group_sum : (v p : ℕ) → v % 128 * p + v / 128 * (128 * p) ≡ v * p
group_sum v p =
    let parts : 128 * (v / 128) + v % 128 ≡ v = omega arith in
    omega (arith, ap (λ (t : ℕ). t * p) parts)

varint_from-push :
    (rounds value shift v : ℕ) (w : Acc ◌<◌ v) (rest : Bytes)
    → value < 2 ^ shift
    → v < 128 ^ rounds
    → shift + 7 * rounds ≤ 77
    → varint_from value shift (push_from v w ++ rest) ≡ ok (value + v * 2 ^ shift, rest)
varint_from-push zero value shift v w rest h fits room =
    rw (push_last v w (omega arith)) (varint_last v value shift rest (omega arith) h)
varint_from-push (suc rounds) value shift v w rest h fits room = elim (dec_lt v 128) [
  | yes small ↦ rw (push_last v w small) (varint_last v value shift rest small h)
  | no large ↦
      let (w', pushed) = push_more v w (omega arith) in
      let value' = value + v % 128 * 2 ^ shift in
      let below : value' < 2 ^ (shift + 7) =
        rw (pow_seven shift) (group_fits value (v % 128) (2 ^ shift) h (omega arith)) in
      let total : value' + v / 128 * 2 ^ (shift + 7) ≡ value + v * 2 ^ shift =
        rw (pow_seven shift) (omega (arith, group_sum v (2 ^ shift))) in
      let fits' : v / 128 < 128 ^ rounds = omega (arith, groups-suc rounds) in
      let more : 1 ≤ rounds = some_rounds rounds (v / 128) fits' (omega arith) in
      rw (pushed) (
        varint_more (v % 128) value shift (push_from (v / 128) w' ++ rest) (omega arith) h
          (omega arith)
        ∙ (varint_from-push rounds value' (shift + 7) (v / 128) w' rest below fits' (omega arith)
            ∙ ap (λ (t : ℕ). ok (t, rest)) total))
]

-- `varint` reads back what `pushVarint` wrote, up to eleven bytes, and leaves the rest.
pub varint-push_varint :
    (v : ℕ) (rest : Bytes) → v < 128 ^ 11 → varint (push_varint v ++ rest) ≡ ok (v, rest)
unfolding varint push_varint
varint-push_varint v rest h =
    varint_from-push 11 0 0 v (lt_wf.apply v) rest (omega arith) h (omega arith)
    ∙ ap (λ (t : ℕ). ok (t, rest)) (omega arith)
