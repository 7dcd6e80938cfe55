-- ===== src/Iam/Totp.antt =====
-- internal/iam/totp.go: the one-time codes. The decoding of a secret (strings.ToUpper and encoding/base32) and
-- HMAC-SHA1 are parameters.
pub mod Window
mod Examples
use tom_ai_agent.Base.Int.{ℤ, pos, negsuc, ltb_ℤ}
use tom_ai_agent.Base.BigEndian.{uint32, put_uint64, to_uint64}
use tom_ai_agent.Base.{
  ltb, ◌==◌, if◌then◌else◌, length, drop, str_eq, GoString, ℕ, zero, suc, ◌+◌, ◌-◌, ◌/◌, ◌%◌, ◌^◌,
  Bool, true, false, not, ◌&&◌, Option, none, some, List, [], ◌∷◌,
}

-- `out_of_range` is the panic of an index.
pub data CodeResult : Type 0 where
  code_text : GoString → CodeResult
  bad_secret out_of_range : CodeResult

-- %06d, of a number below a million.
unfoldable pub six_digits : ℕ → GoString
six_digits v =
    (b'0' + v / 100000 % 10)
    ∷ (b'0' + v / 10000 % 10)
    ∷ (b'0' + v / 1000 % 10)
    ∷ (b'0' + v / 100 % 10)
    ∷ (b'0' + v / 10 % 10)
    ∷ (b'0' + v % 10)
    ∷ []

-- The digits of a sum, from the four bytes at the offset in its last byte.
unfoldable pub truncate_sum : GoString → CodeResult
unfolding uint32 six_digits
truncate_sum sum = elim (drop (length sum - 1) sum) [
  | [] ↦ out_of_range
  | last ∷ _ ↦
      let off = last % 16 in
      if ltb (length sum) (off + 4)
      then out_of_range
      else code_text (six_digits (uint32 (drop off sum) % 2 ^ 31 % 1000000))
]

-- at.Unix() / 30, which rounds towards zero, as a uint64.
unfoldable pub step_of : ℤ → ℕ
unfolding to_uint64
step_of (pos n) = to_uint64 (pos (n / 30))
step_of (negsuc n) = elim ((n + 1) / 30) [ zero ↦ 0 | suc k ↦ to_uint64 (negsuc k) ]

unfoldable pub window : List ℤ
window = negsuc 0 ∷ pos 0 ∷ pos 1 ∷ []

unfoldable pub shift_step : ℕ → ℤ → ℕ
unfolding to_uint64
shift_step counter w = (counter + to_uint64 w) % 2 ^ 64

module _ (decode_secret : GoString → Option GoString)
    (hmac_sha1 : GoString → GoString → GoString) where
  unfoldable pub code_at : GoString → ℕ → CodeResult
  unfolding truncate_sum put_uint64
  code_at secret counter = elim (decode_secret secret) [
    | none ↦ bad_secret
    | some key ↦ truncate_sum (hmac_sha1 key (put_uint64 counter))
  ]

  -- The steps of the window that are left; none is the panic of code_at.
  unfoldable pub try_steps : GoString → GoString → ℕ → List ℤ → Option Bool
  unfolding code_at shift_step
  try_steps secret code counter [] = some false
  try_steps secret code counter (w ∷ ws) =
      let rest = try_steps secret code counter ws in
      if counter == 0 && ltb_ℤ w (pos 0)
      then rest
      else elim (code_at secret (shift_step counter w)) [
        | bad_secret ↦ some false
        | out_of_range ↦ none
        | code_text want ↦ if str_eq want code then some true else rest
      ]

  unfoldable pub verify : GoString → GoString → ℤ → Option Bool
  unfolding try_steps step_of window
  verify secret code at =
      if not (length code == 6) then some false else try_steps secret code (step_of at) window
