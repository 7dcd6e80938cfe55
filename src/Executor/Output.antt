-- ===== src/Executor/Output.antt =====
-- internal/executor/engine.go, cappedBuffer: the bounded capture of a command's output.
pub mod Captures
pub mod Laws
pub mod Overflow
mod Examples
use tom_ai_agent.Base.{
  ltb, leb, if◌then◌else◌, length, take, drop, GoString, codes, ℕ, ◌+◌, ◌-◌, ◌*◌, ◌/◌, min, Bool,
  true, false, List, [], ◌∷◌, ◌++◌,
}

pub record CappedBuffer : Type 0 where
  pub limit : ℕ
  pub head : GoString
  pub tail : GoString
  pub truncated : Bool

-- `limit_kb` is an int of the configuration, and 0 stands for all values that are not positive.
pub new_capped_buffer : ℕ → CappedBuffer
new_capped_buffer limit_kb = record {
  limit = (if leb limit_kb 0 then 1024 else limit_kb) * 1024;
  head = [];
  tail = [];
  truncated = false;
}

-- b.tail = b.tail[len(b.tail)-half:], where it is longer than half
pub cut_tail : ℕ → GoString → GoString
cut_tail half t = if ltb half (length t) then drop (length t - half) t else t

-- The part of `write` past the limit: fill the head up to half, the rest goes to the tail.
pub write_over : CappedBuffer → GoString → CappedBuffer
unfolding cut_tail
write_over b p =
    let half = b.limit / 2 in
    let need = half - length b.head in
    if ltb (length b.head) half
    then record b {
      truncated = true;
      head = b.head ++ take (min need (length p)) p;
      tail = cut_tail half (if ltb need (length p) then b.tail ++ drop need p else b.tail);
    }
    else record b { truncated = true; tail = cut_tail half (b.tail ++ p) }

pub write : CappedBuffer → GoString → CappedBuffer
unfolding write_over
write b p =
    if leb (length b.head + length b.tail + length p) b.limit
    then (if ltb 0 (length b.tail)
        then record b { tail = b.tail ++ p }
        else record b { head = b.head ++ p })
    else write_over b p

pub to_string : CappedBuffer → GoString
to_string b =
    if b.truncated
    then b.head ++ (10 ∷ codes "...[TRUNCATED]..." ++ 10 ∷ []) ++ b.tail
    else b.head ++ b.tail

-- The writes of a command, in order.
pub write_all : CappedBuffer → List GoString → CappedBuffer
write_all b [] = b
write_all b (p ∷ ps) = write_all (write b p) ps
