-- ===== src/Iam/Totp/Examples.antt =====
-- Codes at some times, with a sum that has the last byte of the step in front.
use tom_ai_agent.Base.Int.{pos}
use tom_ai_agent.Base.BigEndian.{uint32}
use tom_ai_agent.Base.{
  length, drop, replicate, str_eq, GoString, codes, ◌%◌, ◌≡◌, refl, ◌↔◌, Bool, true, false, some,
  ◌∷◌, arith,
}
use tom_ai_agent.Iam.Totp.{verify}
use tom_ai_agent.Iam.Totp.Window.{IsNear, verify-IsNear}

abbrev step_sum : GoString → GoString → GoString
step_sum key msg = uint32 (drop 4 msg) % 256 ∷ replicate 19 0

step_sum-size : (key msg : GoString) → length (step_sum key msg) ≡ 20
step_sum-size key msg = refl

-- The code of the step from 60 to 89 is good up to the end of the next step.
accepted_late : verify some step_sum (codes "key") (codes "554432") (pos 119) ≡ some true
unfolding verify str_eq
accepted_late = refl

refused_later : verify some step_sum (codes "key") (codes "554432") (pos 120) ≡ some false
unfolding verify str_eq
refused_later = refl

accepted_early : verify some step_sum (codes "key") (codes "554432") (pos 30) ≡ some true
unfolding verify str_eq
accepted_early = refl

verify-IsNear_example :
    (b : Bool) × (verify some step_sum (codes "key") (codes "554432") (pos 119) ≡ some b)
    × ((b ≡ true) ↔ IsNear some step_sum step_sum-size (codes "key") (codes "554432") 119)
verify-IsNear_example =
    verify-IsNear some step_sum step_sum-size (codes "key") (codes "554432") 119 (omega arith)
