-- ===== src/Reporter/Wal/Crc.antt =====
-- hash/crc32 of the standard library, with the IEEE polynomial.
use Prim.Native.Nat.{bit_xor}
use mathlib.Core.List.{foldl}
use tom_ai_agent.Base.{
  ◌==◌, if◌then◌else◌, GoString, codes, ℕ, zero, suc, ◌/◌, ◌%◌, ◌<◌, ◌≡◌, refl, arith,
}

crc_bits : ℕ → ℕ → ℕ
crc_bits zero c = c
crc_bits (suc n) c = crc_bits n (if c % 2 == 1 then bit_xor (c / 2) 0xEDB88320 else c / 2)

crc_byte : ℕ → ℕ → ℕ
unfolding crc_bits
crc_byte c b = crc_bits 8 (bit_xor c b)

-- The result is a uint32.
unfoldable pub checksum_ieee : GoString → ℕ
unfolding crc_byte
checksum_ieee p = bit_xor (foldl crc_byte 0xFFFFFFFF p) 0xFFFFFFFF % 4294967296

pub checksum_ieee_lt : (p : GoString) → checksum_ieee p < 4294967296
unfolding checksum_ieee
checksum_ieee_lt p = omega arith

-- The check value of the polynomial.
checksum_of_digits : checksum_ieee (codes "123456789") ≡ 0xCBF43926
unfolding checksum_ieee
checksum_of_digits = refl
