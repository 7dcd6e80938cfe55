-- ===== src/Reporter/Wal/Examples.antt =====
-- Tests of the log, and its theorems at a small one.
use tom_ai_agent.Base.{length, take, GoString, codes, ◌≡◌, refl, false, [], ◌∷◌, ◌++◌, arith}
use tom_ai_agent.Base.BigEndian.{put_uint32}
use tom_ai_agent.Reporter.Wal.{
  Wal, WalCursor, no_faults, header, encode, append_to, roll, write_bytes, sync, total_size,
  drop_oldest, enforce_quota, append, read_records, read_segment, read_from,
}
use tom_ai_agent.Reporter.Wal.Reading.{encode_all, torn_record_ignored}
use tom_ai_agent.Reporter.Wal.Cursor.{Log, files_of, inside}
use tom_ai_agent.Reporter.Wal.Writing.{Holds}
use tom_ai_agent.Reporter.Wal.Rounds.{Reads}
use tom_ai_agent.Reporter.Wal.Append.{Appended, append-Appended}
use tom_ai_agent.Reporter.Wal.Fifo.{read_from-Reads}
use tom_ai_agent.Reporter.Wal.Faulty.{stale_offset_skips, torn_header_phantom}

abbrev first_entry : GoString
first_entry = codes "a"

abbrev second_entry : GoString
second_entry = codes "bb"

abbrev third_entry : GoString
third_entry = codes "ccc"

abbrev two_segments : Log
two_segments = (3, first_entry ∷ second_entry ∷ []) ∷ (4, third_entry ∷ []) ∷ []

-- Behind the first record.
abbrev behind_first : WalCursor
behind_first = record { segment = 3; offset = 9 }

read_from-Reads_example :
    Reads behind_first two_segments 5 []
      (second_entry ∷ third_entry ∷ [])
      (read_from (files_of two_segments) behind_first 5)
unfolding encode header put_uint32
read_from-Reads_example =
    read_from-Reads 0 two_segments behind_first 5 (second_entry ∷ third_entry ∷ [])
      (omega arith, (omega arith, (omega arith, tt)), (omega arith, (omega arith, tt), tt))
      (inside (first_entry ∷ []) (second_entry ∷ []) refl refl refl refl)

torn_record_ignored_example :
    read_segment
      (encode_all (first_entry ∷ second_entry ∷ []) ++ (header third_entry ++ take 2 third_entry))
      (length (encode_all (first_entry ∷ [])))
      5
    ≡ (
      take 5 (second_entry ∷ []),
      length (encode_all (first_entry ∷ take 5 (second_entry ∷ []))),
      false,
    )
torn_record_ignored_example =
    torn_record_ignored (first_entry ∷ []) (second_entry ∷ []) third_entry 2 5 (omega arith, tt)
      (omega arith) (omega arith)

-- A log over its quota.
abbrev small_wal : Wal
small_wal = record {
  files = files_of two_segments;
  max_bytes = 30;
  active_seg = 4;
  active_len = 11;
}

small_wal-Holds : Holds small_wal ((3, first_entry ∷ second_entry ∷ []) ∷ []) (third_entry ∷ [])
unfolding encode header put_uint32
small_wal-Holds = record {
  raw = record {
    files = refl;
    older_rise = (omega arith, (omega arith, (omega arith, tt)), tt);
    older_below = (omega arith, tt);
    size = refl;
  };
  fit = (omega arith, tt);
}

append-Appended_example :
    Appended small_wal
      ((3, first_entry ∷ second_entry ∷ []) ∷ [])
      (third_entry ∷ [])
      first_entry
      (append no_faults first_entry small_wal)
append-Appended_example =
    append-Appended small_wal ((3, first_entry ∷ second_entry ∷ []) ∷ []) (third_entry ∷ [])
      first_entry small_wal-Holds (omega arith)

oldest_removed :
    (append no_faults first_entry small_wal).1.files
    ≡ files_of ((4, third_entry ∷ first_entry ∷ []) ∷ [])
unfolding append roll write_bytes sync enforce_quota total_size drop_oldest append_to encode header
    put_uint32
oldest_removed = refl

stale_offset_skips_example :
    (read_from
      (files_of ((4, third_entry ∷ first_entry ∷ []) ∷ []))
      (record { segment = 3; offset = 11 })
      5).0
    ≡ first_entry ∷ []
unfolding encode header put_uint32
stale_offset_skips_example =
    stale_offset_skips 4 4 (third_entry ∷ []) (first_entry ∷ []) []
      (record { segment = 3; offset = 11 }) (omega arith, (omega arith, (omega arith, tt)), tt)
      (omega arith, tt) (omega arith) refl

torn_header_phantom_example : read_records 5 (take 1 (header third_entry)) 20 ≡ ([] ∷ [], 28, false)
torn_header_phantom_example = torn_header_phantom third_entry 4 20 (omega arith)
