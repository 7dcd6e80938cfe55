-- ===== src/Executor/Output/Examples.antt =====
-- Tests of the capture, and its theorems at concrete outputs.
use mathlib.Core.List.{flatten}
use tom_ai_agent.Base.{replicate, GoString, codes, ◌≡◌, refl, false, [], ◌∷◌, ◌++◌}
use tom_ai_agent.Executor.Output.{
  CappedBuffer, new_capped_buffer, cut_tail, write_over, write, to_string, write_all,
}
use tom_ai_agent.Executor.Output.Captures.{Captures}
use tom_ai_agent.Executor.Output.Laws.{output-Captures}

-- A buffer of eight bytes.
abbrev small : CappedBuffer
small = record { limit = 8; head = []; tail = []; truncated = false }

middle_lost :
    to_string (write_all small (codes "abcdef" ∷ codes "ghijkl" ∷ []))
    ≡ codes "abcdef" ++ (10 ∷ codes "...[TRUNCATED]..." ++ 10 ∷ []) ++ codes "ijkl"
unfolding write_all write write_over cut_tail to_string
middle_lost = refl

abbrev long_line : GoString
long_line = replicate 700 120

output-Captures_example :
    Captures
      (write_all (new_capped_buffer 1) (long_line ∷ long_line ∷ []))
      (flatten (long_line ∷ long_line ∷ []))
output-Captures_example = output-Captures 1 (long_line ∷ long_line ∷ [])
