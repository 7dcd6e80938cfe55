-- ===== src/Base/BigEndian.antt =====
-- encoding/binary.BigEndian: fixed-width unsigned integers as bytes.
use Prim.Native.Nat.{ℕ, ◌+◌, ◌-◌, ◌*◌, ◌/◌, ◌%◌, ◌<◌}
use mathlib.Core.Path.{◌≡◌, ap}
use mathlib.Core.List.{[], ◌∷◌, ◌++◌, append-nil}
use native.Mathlib.Omega.{arith}
use tom_ai_agent.Base.Bytes.{GoString}
use tom_ai_agent.Base.Int.{ℤ, pos, negsuc}

-- binary.BigEndian.PutUint32, of a value that the conversion to uint32 has wrapped.
unfoldable pub put_uint32 : ℕ → GoString
put_uint32 x = (x / 16777216 % 256) ∷ (x / 65536 % 256) ∷ (x / 256 % 256) ∷ (x % 256) ∷ []

-- binary.BigEndian.Uint32, of the first four bytes.
unfoldable pub uint32 : GoString → ℕ
uint32 (a ∷ b ∷ c ∷ d ∷ _) = a * 16777216 + b * 65536 + c * 256 + d
uint32 _ = 0

unfoldable pub put_uint64 : ℕ → GoString
unfolding put_uint32
put_uint64 x = put_uint32 (x / 4294967296) ++ put_uint32 x

-- uint64(x) of an int64: two's complement.
unfoldable pub to_uint64 : ℤ → ℕ
to_uint64 (pos n) = n % 18446744073709551616
to_uint64 (negsuc n) = 18446744073709551615 - n % 18446744073709551616

pub uint32-put_uint32 : (x : ℕ) (rest : GoString) → uint32 (put_uint32 x ++ rest) ≡ x % 4294967296
unfolding uint32 put_uint32
uint32-put_uint32 x rest = omega arith

-- binary.BigEndian.Uint64.
uint64 : GoString → ℕ
uint64 (a ∷ b ∷ c ∷ d ∷ rest) = uint32 (a ∷ b ∷ c ∷ d ∷ []) * 4294967296 + uint32 rest
uint64 _ = 0

pub put_uint32-injective :
    (x y : ℕ) → x < 4294967296 → y < 4294967296 → put_uint32 x ≡ put_uint32 y → x ≡ y
put_uint32-injective x y hx hy e = omega (
  arith,
  ap uint32 e,
  ap uint32 (append-nil (put_uint32 x)),
  ap uint32 (append-nil (put_uint32 y)),
  uint32-put_uint32 x [],
  uint32-put_uint32 y [],
)

pub put_uint64-injective :
    (x y : ℕ)
    → x < 18446744073709551616
    → y < 18446744073709551616
    → put_uint64 x ≡ put_uint64 y
    → x ≡ y
unfolding put_uint64 uint64 uint32
put_uint64-injective x y hx hy e = omega (arith, ap uint64 e)

abbrev pub IsInt64 : ℤ → Type 0
IsInt64 (pos n) = n < 9223372036854775808
IsInt64 (negsuc n) = n < 9223372036854775808

pub to_uint64-injective : (x y : ℤ) → IsInt64 x → IsInt64 y → to_uint64 x ≡ to_uint64 y → x ≡ y
unfolding to_uint64
to_uint64-injective (pos m) (pos n) hx hy e = ap pos (omega arith)
to_uint64-injective (pos m) (negsuc n) hx hy e = absurd (omega arith)
to_uint64-injective (negsuc m) (pos n) hx hy e = absurd (omega arith)
to_uint64-injective (negsuc m) (negsuc n) hx hy e = ap negsuc (omega arith)

pub to_uint64_lt : (x : ℤ) → to_uint64 x < 18446744073709551616
unfolding to_uint64
to_uint64_lt (pos n) = omega arith
to_uint64_lt (negsuc n) = omega arith
