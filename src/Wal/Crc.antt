-- ===== src/Wal/Crc.antt =====
-- `crc32c` of telemetry-processor/src/packages/wal/crc32c.ts. A number of 32 bits is unsigned
-- throughout; the source's signed intermediates have the same bits.
use Prim.Native.Nat.{bit_and, bit_xor}
use smpp_telemetry_platform.Base.{
  ℕ, zero, suc, ◌%◌, ◌/◌, ◌^◌, ◌<◌, ◌≡◌, refl, List, [], ◌∷◌, ◌==◌, if◌then◌else◌, arith,
}

-- one step of the loop that fills a table entry
unfoldable pub table_step : ℕ → ℕ
table_step c = if bit_and c 1 == 0 then c / 2 else bit_xor 0x82f63b78 (c / 2)

unfoldable pub repeat : ℕ → (ℕ → ℕ) → ℕ → ℕ
repeat zero f c = c
repeat (suc n) f c = repeat n f (f c)

-- TABLE[i]
unfoldable pub table_entry : ℕ → ℕ
unfolding table_step repeat
table_entry i = repeat 8 table_step i % 2 ^ 32

unfoldable pub crc_from : ℕ → List ℕ → ℕ
unfolding table_entry
crc_from crc [] = crc
crc_from crc (byte ∷ bytes) =
    crc_from (bit_xor (table_entry (bit_and (bit_xor crc byte) 0xff)) (crc / 2 ^ 8)) bytes

unfoldable pub crc32c : List ℕ → ℕ
unfolding crc_from
crc32c bytes = bit_xor (crc_from 0xffffffff bytes) 0xffffffff % 2 ^ 32

-- the check value of the polynomial, of the bytes of "123456789"
check_value :
    crc32c (0x31 ∷ 0x32 ∷ 0x33 ∷ 0x34 ∷ 0x35 ∷ 0x36 ∷ 0x37 ∷ 0x38 ∷ 0x39 ∷ []) ≡ 0xe3069283
unfolding crc32c
check_value = refl

-- the checksum fits its four bytes
pub crc32c-bound : (bytes : List ℕ) → crc32c bytes < 2 ^ 32
unfolding crc32c
crc32c-bound bytes = omega arith
