-- ===== src/Executor/Output/Laws.antt =====
-- The bounded capture as a whole: what is kept of any sequence of writes.
use mathlib.Core.List.{flatten}
use tom_ai_agent.Base.{
  ltb, leb, ltb→lt, lt→ltb, leb→le, Bool-cases, length, take, drop, GoString, ℕ, ◌+◌, ◌-◌, ◌/◌, ◌≤◌,
  ◌<◌, ◌≡◌, refl, ◌∙◌, inl, inr, true, false, List, [], ◌∷◌, ◌++◌, append-nil, append_assoc, arith,
}
use tom_ai_agent.Executor.Output.{
  CappedBuffer, new_capped_buffer, cut_tail, write_over, write, to_string, write_all,
}
use tom_ai_agent.Executor.Output.Captures.{
  Captures, IsLimit, nil_of_length, append_tail-Captures, append_head-Captures, fill_head-Captures,
  fill_tail-Captures, min-eq_left,
}

-- A head below half means an empty tail, so the write takes the first branch of `write_over`.
write_over_short :
    (b : CappedBuffer) (p : GoString)
    → b.tail ≡ []
    → length b.head < b.limit / 2
    → b.limit / 2 - length b.head < length p
    → let need = b.limit / 2 - length b.head in
      write_over b p ≡ record b {
        truncated = true;
        head = b.head ++ take need p;
        tail = cut_tail (b.limit / 2) (drop need p);
      }
unfolding write_over
write_over_short b p bare short long =
    rw (lt→ltb _ _ short, lt→ltb _ _ long, bare, min-eq_left _ _ long)

pub write_over_long :
    (b : CappedBuffer) (p : GoString)
    → b.limit / 2 ≤ length b.head
    → write_over b p ≡ record b { truncated = true; tail = cut_tail (b.limit / 2) (b.tail ++ p) }
unfolding write_over
write_over_long b p long = ground arith

write_over-Captures :
    (b : CappedBuffer) (w p : GoString)
    → Captures b w
    → IsLimit b
    → b.limit < length b.head + length b.tail + length p
    → Captures (write_over b p) (w ++ p)
write_over-Captures b w p c even over = elim (Bool-cases (ltb (length b.head) (b.limit / 2))) [
  | inl e ↦
      rw
        (write_over_short b p (bare (ltb→lt _ _ e)) (ltb→lt _ _ e)
          (ground (arith, bare (ltb→lt _ _ e))))
        (fill_head-Captures b w p c even over (ltb→lt _ _ e))
  | inr e ↦
      rw (write_over_long b p (ground arith)) (fill_tail-Captures b w p c even over (ground arith))
]
  where
    bare : length b.head < b.limit / 2 → b.tail ≡ []
    bare short = nil_of_length b.tail (ground (arith, c.tail_after_head))

write-Captures :
    (b : CappedBuffer) (w p : GoString) → Captures b w → IsLimit b → Captures (write b p) (w ++ p)
unfolding write
write-Captures b w p c even =
    elim (Bool-cases (leb (length b.head + length b.tail + length p) b.limit)) [
      | inl fits ↦ elim (Bool-cases (ltb 0 (length b.tail))) [
        | inl e ↦ rw (fits, e) (append_tail-Captures b w p c even (leb→le _ _ fits) (ltb→lt _ _ e))
        | inr e ↦ rw (fits, e) (append_head-Captures b w p c even (leb→le _ _ fits) (ground arith))
      ]
      | inr over ↦ rw over (write_over-Captures b w p c even (ground arith))
    ]

write-limit : (b : CappedBuffer) (p : GoString) → (write b p).limit ≡ b.limit
unfolding write
write-limit b p = ground arith

write_all-Captures :
    (b : CappedBuffer) (w : GoString) (ps : List GoString)
    → Captures b w
    → IsLimit b
    → Captures (write_all b ps) (w ++ flatten ps)
unfolding write_all flatten
write_all-Captures b w [] c even = rw append-nil c
write_all-Captures b w (p ∷ ps) c even =
    rw (← append_assoc) (
      write_all-Captures (write b p) (w ++ p) ps (write-Captures b w p c even)
        (rw write-limit even))

write_all-limit : (b : CappedBuffer) (ps : List GoString) → (write_all b ps).limit ≡ b.limit
unfolding write_all
write_all-limit b [] = refl
write_all-limit b (p ∷ ps) = write_all-limit (write b p) ps ∙ write-limit b p

pub new-IsLimit : (kb : ℕ) → IsLimit (new_capped_buffer kb)
unfolding new_capped_buffer
new-IsLimit kb = ground arith

-- Whatever a command writes, in whatever pieces, to a fresh buffer: an output within the limit is
-- kept whole; a longer one is flagged, and the head is a prefix of it of at least half the limit
-- and the tail a suffix that does not overlap it, of at most half the limit and not empty.
pub output-Captures :
    (kb : ℕ) (ps : List GoString) → Captures (write_all (new_capped_buffer kb) ps) (flatten ps)
output-Captures kb ps = write_all-Captures (new_capped_buffer kb) [] ps start (new-IsLimit kb)
  where
    start : Captures (new_capped_buffer kb) []
    start =
        unfold new_capped_buffer in
        record {
          whole = λ _. refl;
          flagged = ground arith;
          parts = ([], refl);
          head_half = λ e. absurd (cc e);
          head_fits = omega arith;
          tail_fits = omega arith;
          tail_kept = λ e. absurd (cc e);
          tail_after_head = λ h. absurd (omega arith);
        }

-- The text that is reported for a command whose output fits the limit is the output.
to_string_whole :
    (kb : ℕ) (ps : List GoString)
    → length (flatten ps) ≤ (new_capped_buffer kb).limit
    → to_string (write_all (new_capped_buffer kb) ps) ≡ flatten ps
unfolding to_string
to_string_whole kb ps fits = rw unflagged (c.whole unflagged)
  where
    c : Captures (write_all (new_capped_buffer kb) ps) (flatten ps)
    c = output-Captures kb ps

    unflagged : (write_all (new_capped_buffer kb) ps).truncated ≡ false
    unflagged = ground (arith, c.flagged, write_all-limit (new_capped_buffer kb) ps)
