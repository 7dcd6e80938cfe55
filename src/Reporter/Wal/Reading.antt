-- ===== src/Reporter/Wal/Reading.antt =====
-- `readSegment` reads back the records that `Append` wrote.
use native.Mathlib.Nat.{add-zero}
use tom_ai_agent.Base.BigEndian.{put_uint32, uint32, uint32-put_uint32}
use tom_ai_agent.Base.{
  length, take, drop, All, length-append, length-take, take-append_self, drop-append_self, GoString,
  ℕ, zero, suc, ◌+◌, ◌≤◌, ◌<◌, ◌≡◌, refl, sym, ap, ◌∙◌, false, List, [], ◌∷◌, ◌++◌, append-nil,
  append_assoc, arith,
}
use tom_ai_agent.Reporter.Wal.Crc.{checksum_ieee, checksum_ieee_lt}
use tom_ai_agent.Reporter.Wal.{
  wal_max_entry_size, header, encode, read_header, read_records, read_segment,
}

-- A segment that holds these records.
abbrev pub encode_all : List GoString → GoString
encode_all [] = []
encode_all (p ∷ ps) = encode p ++ encode_all ps

-- `Append` refuses longer payloads.
abbrev pub IsEntry : GoString → Type 0
IsEntry p = length p ≤ wal_max_entry_size

pub encode_all-append :
    (ps qs : List GoString) → encode_all (ps ++ qs) ≡ encode_all ps ++ encode_all qs
encode_all-append [] qs = refl
encode_all-append (p ∷ ps) qs = rw (encode_all-append ps qs) (sym (append_assoc (encode p) _ _))

pub length-encode : (p : GoString) → length (encode p) ≡ 8 + length p
unfolding encode header put_uint32
length-encode p = omega arith

read_header-header : (p rest : GoString) → read_header (header p ++ rest) ≡ header p
unfolding read_header header put_uint32
read_header-header p rest = refl

uint32_first : (p : GoString) → IsEntry p → uint32 (header p) ≡ length p
unfolding header
uint32_first p h = omega (arith, uint32-put_uint32 (length p) (put_uint32 (checksum_ieee p)))

drop_four : (x : ℕ) (rest : GoString) → drop 4 (put_uint32 x ++ rest) ≡ rest
unfolding put_uint32
drop_four x rest = refl

uint32_second : (p : GoString) → uint32 (drop 4 (header p)) ≡ checksum_ieee p
unfolding header
uint32_second p =
    ap uint32 (drop_four (length p) (put_uint32 (checksum_ieee p)))
    ∙ ap uint32 (sym (append-nil (put_uint32 (checksum_ieee p))))
    ∙ omega (arith, uint32-put_uint32 (checksum_ieee p) [], checksum_ieee_lt p)

drop-header : (p rest : GoString) → drop 8 (header p ++ rest) ≡ rest
unfolding header put_uint32
drop-header p rest = refl

header_pos : (p rest : GoString) → 0 < length (header p ++ rest)
unfolding header put_uint32
header_pos p rest = omega arith

encode-append : (p rest : GoString) → encode p ++ rest ≡ header p ++ (p ++ rest)
unfolding encode
encode-append p rest = append_assoc (header p) p rest

-- One round of the loop on a whole record.
read_step :
    (max : ℕ) (bytes : GoString) (offset n : ℕ)
    → 0 < length bytes
    → uint32 (read_header bytes) ≡ n
    → n ≤ wal_max_entry_size
    → n ≤ length (drop 8 bytes)
    → checksum_ieee (take n (drop 8 bytes)) ≡ uint32 (drop 4 (read_header bytes))
    → let later = read_records max (drop n (drop 8 bytes)) (offset + (8 + n)) in
      read_records (suc max) bytes offset ≡ (take n (drop 8 bytes) ∷ later.0, later.1, later.2)
unfolding read_records
read_step max [] offset n h size small whole sound = absurd (omega arith)
read_step max (b ∷ bs) offset n h size small whole sound = rw (size) (ground (arith, sound))

-- One round of the loop where the file ends before the payload does.
read_short :
    (max : ℕ) (bytes : GoString) (offset n : ℕ)
    → uint32 (read_header bytes) ≡ n
    → n ≤ wal_max_entry_size
    → length (drop 8 bytes) < n
    → read_records max bytes offset ≡ ([], offset, false)
unfolding read_records
read_short zero bytes offset n size small short = refl
read_short (suc max) [] offset n size small short = refl
read_short (suc max) (b ∷ bs) offset n size small short = rw size (ground arith)

pub read_one :
    (max : ℕ) (p rest : GoString) (offset : ℕ)
    → IsEntry p
    → let later = read_records max rest (offset + (8 + length p)) in
      read_records (suc max) (encode p ++ rest) offset ≡ (p ∷ later.0, later.1, later.2)
read_one max p rest offset h = rw (encode-append p rest) (
    rw (drop-header p (p ++ rest), take-append_self p rest, drop-append_self p rest) at
      (read_step max (header p ++ (p ++ rest)) offset (length p) (header_pos p (p ++ rest))
        (ap uint32 (read_header-header p (p ++ rest)) ∙ uint32_first p h) h
        (rw (drop-header p (p ++ rest)) (omega (arith, length-append p rest)))
        (rw (drop-header p (p ++ rest), take-append_self p rest, read_header-header p (p ++ rest))
          (sym (uint32_second p)))))

read_records-zero :
    (bytes : GoString) (offset : ℕ) → read_records 0 bytes offset ≡ ([], offset, false)
unfolding read_records
read_records-zero bytes offset = refl

length-encode_cons :
    (p : GoString) (ps : List GoString) (offset : ℕ)
    → offset + (8 + length p) + length (encode_all ps) ≡ offset + length (encode_all (p ∷ ps))
length-encode_cons p ps offset =
    omega (arith, length-append (encode p) (encode_all ps), length-encode p)

-- A tail at which the loop stops without a record and without a complaint.
abbrev pub Stops : GoString → Type 0
Stops tail = (max offset : ℕ) → read_records max tail offset ≡ ([], offset, false)

pub Stops-nil : Stops []
unfolding read_records
Stops-nil zero offset = refl
Stops-nil (suc max) offset = refl

-- From the start of a record the loop reads the records that follow, at most `max`, up to a tail
-- that stops it, and returns the offset behind the last record that it read.
pub read_records_prefix :
    (ps : List GoString) (max offset : ℕ) (tail : GoString)
    → All IsEntry ps
    → Stops tail
    → read_records max (encode_all ps ++ tail) offset
      ≡ (take max ps, offset + length (encode_all (take max ps)), false)
read_records_prefix [] zero offset tail hs stop = rw add-zero (stop zero offset)
read_records_prefix [] (suc max) offset tail hs stop = rw add-zero (stop (suc max) offset)
read_records_prefix (p ∷ ps) zero offset tail hs stop =
    rw add-zero (read_records-zero (encode_all (p ∷ ps) ++ tail) offset)
read_records_prefix (p ∷ ps) (suc max) offset tail hs stop = rw (
  append_assoc (encode p) (encode_all ps) tail,
  read_one max p (encode_all ps ++ tail) offset hs.0,
  read_records_prefix ps max (offset + (8 + length p)) tail hs.1 stop,
  length-encode_cons p (take max ps) offset,
)

-- The same, from the record boundary behind `before`.
pub read_segment_prefix :
    (before ps : List GoString) (max : ℕ) (tail : GoString)
    → All IsEntry ps
    → Stops tail
    → read_segment (encode_all (before ++ ps) ++ tail) (length (encode_all before)) max
      ≡ (take max ps, length (encode_all (before ++ take max ps)), false)
unfolding read_segment
read_segment_prefix before ps max tail hs stop =
    rw
      (
        encode_all-append before ps,
        encode_all-append before (take max ps),
        append_assoc (encode_all before) (encode_all ps) tail,
        drop-append_self (encode_all before) (encode_all ps ++ tail),
        length-append (encode_all before) (encode_all (take max ps)),
      )
      (read_records_prefix ps max (length (encode_all before)) tail hs stop)

-- A record that was cut off behind its header: the crash came before all its payload was written.
pub torn_payload-Stops :
    (p : GoString) (k : ℕ) → IsEntry p → k < length p → Stops (header p ++ take k p)
torn_payload-Stops p k h cut max offset =
    read_short max (header p ++ take k p) offset (length p)
      (ap uint32 (read_header-header p (take k p)) ∙ uint32_first p h) h
      (rw (drop-header p (take k p)) (omega (arith, length-take k p)))

-- A crash has left the last record `p` without the end of its payload. From a record's boundary the
-- reader returns the whole records that follow, at most `max` of them and none of the torn one,
-- reports no corruption, and stops at the offset behind the last record that it returns.
pub torn_record_ignored :
    (before ps : List GoString) (p : GoString) (k max : ℕ)
    → All IsEntry ps
    → IsEntry p
    → k < length p
    → read_segment
        (encode_all (before ++ ps) ++ (header p ++ take k p))
        (length (encode_all before))
        max
      ≡ (take max ps, length (encode_all (before ++ take max ps)), false)
torn_record_ignored before ps p k max hs h cut =
    read_segment_prefix before ps max (header p ++ take k p) hs (torn_payload-Stops p k h cut)
