-- ===== src/Reporter/Wal/Fifo.antt =====
-- `ReadFrom` reads a log as a queue.
use native.Mathlib.Nat.{le_refl}
use tom_ai_agent.Base.{
  ltb, leb, leb→le, Bool-cases, length, All, length-append, GoString, ℕ, zero, suc, ◌+◌, ◌-◌, ◌≤◌,
  ◌<◌, ◌≡◌, refl, sym, inl, inr, false, List, [], ◌∷◌, ◌++◌, append-nil, arith,
}
use tom_ai_agent.Reporter.Wal.{WalCursor, last_segment, read_loop, read_from}
use tom_ai_agent.Reporter.Wal.Reading.{encode_all, IsEntry}
use tom_ai_agent.Reporter.Wal.Cursor.{
  Log, files_of, records, IsLog, Points, inside, at_start, later,
}
use tom_ai_agent.Reporter.Wal.Loop.{loop_skips, loop_full}
use tom_ai_agent.Reporter.Wal.Rounds.{Reads, last-ge, Reads-within, Reads-last, Reads-beyond}

entries_behind : (done todo : List GoString) → All IsEntry (done ++ todo) → All IsEntry todo
entries_behind [] todo h = h
entries_behind (p ∷ done) todo h = entries_behind done todo h.1

module _ (max r s : ℕ) (out done todo : List GoString) (c : WalCursor)
    (room : length out + suc r ≡ max) (reached : c.segment ≤ s)
    (stands : c.offset ≡ length (encode_all done)) (entries : All IsEntry todo) where
  pub from_last :
      (last : ℕ)
      → s ≡ last
      → Reads c
          ((s, done ++ todo) ∷ [])
          (suc r)
          out
          (todo ++ [])
          (read_loop last max ((s, encode_all (done ++ todo)) ∷ []) out c)
  from_last last e = elim (Bool-cases (leb (suc r) (length todo))) [
    | inl enough ↦
        Reads-within max (suc r) s out done todo c room reached stands entries (omega arith) last []
          (leb→le _ _ enough)
    | inr short ↦ rw (← e) (
        Reads-last max (suc r) s out done todo c room reached stands entries (omega arith)
          (ground arith))
  ]

  pub from_earlier :
      (last : ℕ) (log : Log)
      → s < last
      → let next : WalCursor = record { segment = s + 1; offset = 0 } in
        (length todo ≤ suc r
          → Reads next log
              (suc r - length todo)
              (out ++ todo)
              (records log)
              (read_loop last max (files_of log) (out ++ todo) next))
        → Reads c
            ((s, done ++ todo) ∷ log)
            (suc r)
            out
            (todo ++ records log)
            (read_loop last max ((s, encode_all (done ++ todo)) ∷ files_of log) out c)
  from_earlier last log before rest = elim (Bool-cases (leb (suc r) (length todo))) [
    | inl enough ↦
        Reads-within max (suc r) s out done todo c room reached stands entries (omega arith) last
          log (leb→le _ _ enough)
    | inr short ↦
        Reads-beyond max (suc r) s out done todo c room reached stands entries (omega arith) last
          log (ground arith) before (rest (ground arith))
  ]

pub loop-Reads :
    (log : Log) (bound last max r : ℕ) (out : List GoString) (c : WalCursor)
    (pending : List GoString)
    → IsLog bound log
    → last_segment (files_of log) ≡ last
    → length out + r ≡ max
    → Points c log pending
    → Reads c log r out pending (read_loop last max (files_of log) out c)
unfolding last_segment
loop-Reads [] bound last max r out c pending h e room p = elim p [ ]
loop-Reads ((s, es) ∷ log) bound last max zero out c pending h e room p =
    rw (loop_full last max (files_of ((s, es) ∷ log)) out c (omega arith))
      (record { taken = sym (append-nil out); rest = p; onward = le_refl c.segment })
loop-Reads ((s, es) ∷ []) bound last max (suc r) out c pending h e room
      (inside done todo split seg off p) =
    rw (split, p)
      (from_last max r s out done todo c room (omega arith) off
        (entries_behind done todo (rw split at (h.1))) last e)
loop-Reads ((s, es) ∷ []) bound last max (suc r) out c pending h e room (at_start reached off p) =
    rw p (from_last max r s out [] es c room reached off h.1 last e)
loop-Reads ((s, es) ∷ []) bound last max (suc r) out c pending h e room (later behind p) =
    elim p [ ]
loop-Reads ((s, es) ∷ (t, fs) ∷ log) bound last max (suc r) out c pending h e room
      (inside done todo split seg off p) =
    rw (split, p)
      (from_earlier max r s out done todo c room (omega arith) off
        (entries_behind done todo (rw split at (h.1))) last ((t, fs) ∷ log)
        (omega (arith, last-ge (suc s) t fs log h.2))
        (λ short.
          loop-Reads ((t, fs) ∷ log) (suc s) last max (suc r - length todo) (out ++ todo)
            (record { segment = s + 1; offset = 0 }) (records ((t, fs) ∷ log)) h.2 e
            (omega (arith, length-append out todo)) (at_start (omega (arith, h.2.0)) refl refl)))
loop-Reads ((s, es) ∷ (t, fs) ∷ log) bound last max (suc r) out c pending h e room
      (at_start reached off p) =
    rw p (
      from_earlier max r s out [] es c room reached off h.1 last ((t, fs) ∷ log)
        (omega (arith, last-ge (suc s) t fs log h.2))
        (λ short.
          loop-Reads ((t, fs) ∷ log) (suc s) last max (suc r - length es) (out ++ es)
            (record { segment = s + 1; offset = 0 }) (records ((t, fs) ∷ log)) h.2 e
            (omega (arith, length-append out es)) (at_start (omega (arith, h.2.0)) refl refl)))
loop-Reads ((s, es) ∷ (t, fs) ∷ log) bound last max (suc r) out c pending h e room
      (later behind p) =
    let rest = loop-Reads ((t, fs) ∷ log) (suc s) last max (suc r) out c pending h.2 e room p in
    rw (loop_skips last max s (encode_all es) (files_of ((t, fs) ∷ log)) out c (ground arith))
      (record {
        taken = rest.taken;
        rest = later (omega (arith, rest.onward)) rest.rest;
        onward = rest.onward;
      })

-- The cursor is not behind the last segment.
Points-le-last :
    (bound : ℕ) (log : Log) (c : WalCursor) (pending : List GoString)
    → IsLog bound log
    → Points c log pending
    → c.segment ≤ last_segment (files_of log)
unfolding last_segment
Points-le-last bound [] c pending h p = elim p [ ]
Points-le-last bound ((s, es) ∷ []) c pending h (inside done todo split seg off p) = omega arith
Points-le-last bound ((s, es) ∷ []) c pending h (at_start reached off p) = reached
Points-le-last bound ((s, es) ∷ []) c pending h (later behind p) = elim p [ ]
Points-le-last bound ((s, es) ∷ (t, fs) ∷ log) c pending h (inside done todo split seg off p) =
    omega (arith, last-ge (suc s) t fs log h.2)
Points-le-last bound ((s, es) ∷ (t, fs) ∷ log) c pending h (at_start reached off p) =
    omega (arith, last-ge (suc s) t fs log h.2)
Points-le-last bound ((s, es) ∷ (t, fs) ∷ log) c pending h (later behind p) =
    Points-le-last (suc s) ((t, fs) ∷ log) c pending h.2 p

-- A read of at most `max` records from a cursor at a record's boundary returns the next `max` of
-- the records that are still to be read, in their order and across segments, and a cursor for
-- exactly the records behind those.
pub read_from-Reads :
    (bound : ℕ) (log : Log) (c : WalCursor) (max : ℕ) (pending : List GoString)
    → IsLog bound log
    → Points c log pending
    → Reads c log max [] pending (read_from (files_of log) c max)
unfolding read_from
read_from-Reads bound [] c max pending h p = elim p [ ]
read_from-Reads bound ((s, es) ∷ log) c max pending h p =
    rw (kept) (loop-Reads ((s, es) ∷ log) bound _ max max [] c pending h refl (omega arith) p)
  where
    kept : ltb (last_segment (files_of ((s, es) ∷ log))) c.segment ≡ false
    kept = ground (arith, Points-le-last bound ((s, es) ∷ log) c pending h p)
