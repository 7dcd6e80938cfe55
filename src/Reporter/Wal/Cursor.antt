-- ===== src/Reporter/Wal/Cursor.antt =====
-- What a cursor stands for: the records of a log that are still to be read.
use tom_ai_agent.Base.{length, All, GoString, ℕ, suc, ◌≤◌, ◌<◌, ◌≡◌, List, [], ◌∷◌, ◌++◌}
use tom_ai_agent.Reporter.Wal.{Segment, WalCursor}
use tom_ai_agent.Reporter.Wal.Reading.{encode_all, IsEntry}

-- A log, its segments with the records that they hold.
abbrev pub Log : Type 0
Log = List (ℕ × List GoString)

abbrev pub files_of : Log → List Segment
files_of [] = []
files_of ((s, es) ∷ log) = (s, encode_all es) ∷ files_of log

abbrev pub records : Log → List GoString
records [] = []
records ((s, es) ∷ log) = es ++ records log

-- The numbers of the segments rise from `bound` on, and each record fits a record's size.
abbrev pub IsLog : ℕ → Log → Type 0
IsLog bound [] = Unit {0}
IsLog bound ((s, es) ∷ log) = (bound ≤ s) × All IsEntry es × IsLog (suc s) log

-- `Points c log pending`: the cursor stands at a record's boundary, and `pending` is what follows.
pub data Points (c : WalCursor) : Log → List GoString → Type 0 where
  -- Within the segment, behind the records `done`.
  inside :
      {s : ℕ} {es : List GoString} {log : Log} {pending : List GoString}
      → (done todo : List GoString) → es ≡ done ++ todo
      → c.segment ≡ s
      → c.offset ≡ length (encode_all done)
      → pending ≡ todo ++ records log
      → Points c ((s, es) ∷ log) pending
  -- At the start of this segment or of an earlier one.
  at_start :
      {s : ℕ} {es : List GoString} {log : Log} {pending : List GoString}
      → c.segment ≤ s
      → c.offset ≡ 0
      → pending ≡ es ++ records log
      → Points c ((s, es) ∷ log) pending
  -- In a later segment.
  later :
      {s : ℕ} {es : List GoString} {log : Log} {pending : List GoString}
      → s < c.segment
      → Points c log pending
      → Points c ((s, es) ∷ log) pending
