-- ===== src/Executor/Output/Overflow.antt =====
-- The limit is not a bound on what the buffer holds.
use tom_ai_agent.Base.{
  leb, length, length-drop, GoString, ℕ, ◌+◌, ◌-◌, ◌/◌, ◌≤◌, ◌<◌, ◌≡◌, refl, true, false, [], arith,
}
use tom_ai_agent.Executor.Output.{CappedBuffer, new_capped_buffer, cut_tail, write}
use tom_ai_agent.Executor.Output.Captures.{IsLimit}
use tom_ai_agent.Executor.Output.Laws.{write_over_long, new-IsLimit}

first_write :
    (b : CappedBuffer) (p : GoString)
    → b.head ≡ []
    → b.tail ≡ []
    → length p ≤ b.limit
    → write b p ≡ record b { head = p }
unfolding write
first_write b p h t fits = ground arith

length-cut_tail_long : (half : ℕ) (q : GoString) → half ≤ length q → length (cut_tail half q) ≡ half
unfolding cut_tail
length-cut_tail_long half q h = ground (arith, length-drop (length q - half) q)

second_write :
    (b : CappedBuffer) (q : GoString)
    → IsLimit b
    → b.tail ≡ []
    → b.limit / 2 < length b.head
    → b.limit / 2 ≤ length q
    → write b q ≡ record b { truncated = true; tail = cut_tail (b.limit / 2) q }
unfolding write
second_write b q even t past long = rw (over, write_over_long b q (omega arith), t)
  where
    over : leb (length b.head + length b.tail + length q) b.limit ≡ false
    over = ground arith

-- A first write within the limit may pass half of it, and stays whole in the head. A second one
-- that passes the limit still leaves half the limit in the tail. So head and tail then hold more
-- than the limit, by as much as the first write passed half of it.
held_over_limit :
    (kb : ℕ) (p q : GoString)
    → length p ≤ (new_capped_buffer kb).limit
    → (new_capped_buffer kb).limit / 2 < length p
    → (new_capped_buffer kb).limit / 2 ≤ length q
    → let limit = (new_capped_buffer kb).limit in
      let b = write (write (new_capped_buffer kb) p) q in
      (b.head ≡ p) × (length b.tail ≡ limit / 2) × (limit < length b.head + length b.tail)
held_over_limit kb p q fits past long =
    rw (first, second) (refl, tail_length, omega (arith, tail_length, new-IsLimit kb))
  where
    fresh : CappedBuffer
    fresh = new_capped_buffer kb

    filled : CappedBuffer
    filled = record fresh { head = p }

    first : write fresh p ≡ filled
    first = unfold new_capped_buffer in first_write fresh p refl refl fits

    second :
        write filled q ≡ record filled { truncated = true; tail = cut_tail (fresh.limit / 2) q }
    second = unfold new_capped_buffer in second_write filled q (new-IsLimit kb) refl past long

    tail_length : length (cut_tail (fresh.limit / 2) q) ≡ fresh.limit / 2
    tail_length = length-cut_tail_long (fresh.limit / 2) q long
