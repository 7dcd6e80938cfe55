-- ===== src/Reporter/Wal/Faulty.antt =====
-- Two ways in which the reader goes wrong: an offset of a segment that is gone, and a header of
-- which a crash left one byte.
use native.Mathlib.Nat.{le_refl}
use tom_ai_agent.Base.BigEndian.{put_uint32, uint32}
use tom_ai_agent.Base.{
  ltb, length, take, All, GoString, ℕ, suc, ◌+◌, ◌-◌, ◌≤◌, ◌<◌, ◌≡◌, refl, ap, false, List, [], ◌∷◌,
  ◌++◌, arith,
}
use tom_ai_agent.Reporter.Wal.{
  WalCursor, last_segment, header, read_header, read_records, read_loop, read_from,
}
use tom_ai_agent.Reporter.Wal.Crc.{checksum_ieee}
use tom_ai_agent.Reporter.Wal.Reading.{encode_all, Stops-nil, IsEntry}
use tom_ai_agent.Reporter.Wal.Cursor.{Log, files_of, records, IsLog, at_start}
use tom_ai_agent.Reporter.Wal.Rounds.{Reads, last-ge}
use tom_ai_agent.Reporter.Wal.Fifo.{from_last, from_earlier, loop-Reads}

stale-Reads :
    (s r : ℕ) (done todo : List GoString) (log : Log) (c : WalCursor)
    → IsLog 0 ((s, done ++ todo) ∷ log)
    → All IsEntry todo
    → c.segment ≤ s
    → c.offset ≡ length (encode_all done)
    → Reads c ((s, done ++ todo) ∷ log) (suc r) [] (todo ++ records log) (
        read_loop
          (last_segment (files_of ((s, done ++ todo) ∷ log)))
          (suc r)
          (files_of ((s, done ++ todo) ∷ log))
          []
          c)
unfolding last_segment
stale-Reads s r done todo [] c h fit reached off =
    from_last (suc r) r s [] done todo c (omega arith) reached off fit s refl
stale-Reads s r done todo ((t, fs) ∷ log) c h fit reached off =
    from_earlier (suc r) r s [] done todo c (omega arith) reached off fit _ ((t, fs) ∷ log)
      (omega (arith, last-ge (suc s) t fs log h.2))
      (λ short.
        loop-Reads ((t, fs) ∷ log) (suc s) _ (suc r) (suc r - length todo) todo
          (record { segment = s + 1; offset = 0 }) (records ((t, fs) ∷ log)) h.2 refl (omega arith)
          (at_start (omega (arith, h.2.0)) refl refl))

-- The quota has removed the segment of the cursor `c`, and the oldest segment that is left is `s`.
-- Then the offset in the removed segment is taken for one in `s`: where it is the boundary behind
-- the records `done` of `s`, the read returns the records behind `done`, and `done` is skipped.
pub stale_offset_skips :
    (s r : ℕ) (done todo : List GoString) (log : Log) (c : WalCursor)
    → IsLog 0 ((s, done ++ todo) ∷ log)
    → All IsEntry todo
    → c.segment < s
    → c.offset ≡ length (encode_all done)
    → (read_from (files_of ((s, done ++ todo) ∷ log)) c (suc r)).0
      ≡ take (suc r) (todo ++ records log)
unfolding read_from
stale_offset_skips s r done todo log c h fit gone off =
    rw kept ((stale-Reads s r done todo log c h fit (omega arith) off).taken)
  where
    kept : ltb (last_segment (files_of ((s, done ++ todo) ∷ log))) c.segment ≡ false
    kept = ground (arith, last-ge s s (done ++ todo) log (le_refl s, h.1, h.2))

checksum_of_nothing : checksum_ieee [] ≡ 0
unfolding checksum_ieee
checksum_of_nothing = refl

first_byte : (p : GoString) → IsEntry p → take 1 (header p) ≡ 0 ∷ []
unfolding header put_uint32
first_byte p h = ap (λ (b : ℕ). b ∷ []) (omega arith)

-- A crash has left only the first byte of a record's header. The reader takes it for a whole
-- record with an empty payload, and moves the offset by the eight bytes of a header.
pub torn_header_phantom :
    (p : GoString) (max offset : ℕ)
    → IsEntry p
    → read_records (suc max) (take 1 (header p)) offset ≡ ([] ∷ [], offset + 8, false)
unfolding read_records read_header uint32
torn_header_phantom p max offset h =
    rw (first_byte p h, checksum_of_nothing, Stops-nil max (offset + 8))
