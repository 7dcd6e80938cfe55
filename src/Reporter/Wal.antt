-- ===== src/Reporter/Wal.antt =====
-- internal/reporter/wal.go: the segmented write-ahead log. The directory is the list of its
-- segments, in ascending order of their numbers, which is the order that `segments` sorts them in.
mod Crc
pub mod Reading
pub mod Cursor
mod Loop
mod Writing
mod Rollover
pub mod Append
pub mod Rounds
pub mod Fifo
pub mod Faulty
mod Examples
use Prim.Native.Nat.{max}
use tom_ai_agent.Base.BigEndian.{put_uint32, uint32}
use tom_ai_agent.Base.{
  ltb, leb, ◌==◌, if◌then◌else◌, length, take, drop, replicate, GoString, ℕ, zero, suc, ◌+◌, ◌-◌,
  Bool, true, false, not, ◌||◌, Option, none, some, List, [], ◌∷◌, ◌++◌,
}
use Crc.{checksum_ieee}

abbrev pub wal_segment_max_bytes : ℕ
wal_segment_max_bytes = 33554432

abbrev pub wal_header_size : ℕ
wal_header_size = 8

abbrev pub wal_max_entry_size : ℕ
wal_max_entry_size = 4194304

abbrev pub Segment : Type 0
Segment = ℕ × GoString

-- `max_bytes` is 0 for every quota that is not positive. The file descriptor is that of the
-- segment `active_seg`.
pub record Wal : Type 0 where
  pub files : List Segment
  pub max_bytes : ℕ
  pub active_seg : ℕ
  pub active_len : ℕ

pub record WalCursor : Type 0 where
  pub segment : ℕ
  pub offset : ℕ

-- os.OpenFile with O_CREATE: a missing segment comes into its place.
unfoldable pub create : ℕ → List Segment → List Segment
create s [] = (s, []) ∷ []
create s ((t, b) ∷ fs) =
    if ltb s t then (s, []) ∷ (t, b) ∷ fs else if s == t then (t, b) ∷ fs else (t, b) ∷ create s fs

-- fd.Stat().Size()
unfoldable pub size_of : ℕ → List Segment → ℕ
size_of s [] = 0
size_of s ((t, b) ∷ fs) = if s == t then length b else size_of s fs

-- A write through a descriptor with O_APPEND.
unfoldable pub append_to : ℕ → GoString → List Segment → List Segment
append_to s p [] = []
append_to s p ((t, b) ∷ fs) = if s == t then (t, b ++ p) ∷ fs else (t, b) ∷ append_to s p fs

unfoldable pub open_active : Wal → Wal
open_active w =
    let files = create w.active_seg w.files in
    record w { files = files; active_len = size_of w.active_seg files }

unfoldable pub last_segment : List Segment → ℕ
last_segment [] = 0
last_segment ((s, b) ∷ []) = s
last_segment (f ∷ g ∷ fs) = last_segment (g ∷ fs)

-- OpenWAL, over the segments that the directory holds.
unfoldable pub open_wal : List Segment → ℕ → Wal
unfolding last_segment open_active
open_wal files max_bytes = open_active (record {
  files = files;
  max_bytes = max_bytes;
  active_seg = last_segment files;
  active_len = 0;
})

-- What the operating system refuses during one call of `Append`. A write that is refused may have
-- written some first bytes.
pub record Faults : Type 0 where
  pub open_fails : Bool
  pub header_cut : Option ℕ
  pub payload_cut : Option ℕ
  pub sync_fails : Bool
  pub list_fails : Bool
  pub remove_fails : Bool

abbrev pub no_faults : Faults
no_faults = record {
  open_fails = false;
  header_cut = none;
  payload_cut = none;
  sync_fails = false;
  list_fails = false;
  remove_fails = false;
}

pub data WalError : Type 0 where
  too_large open_failed write_failed sync_failed list_failed remove_failed : WalError

unfoldable pub header : GoString → GoString
header payload = put_uint32 (length payload) ++ put_uint32 (checksum_ieee payload)

-- The bytes of one record.
unfoldable pub encode : GoString → GoString
unfolding header
encode payload = header payload ++ payload

-- Each step of `Append` returns its error, if any, and the log that it leaves.
abbrev pub Step : Type 0
Step = Option WalError × Wal

abbrev pub and_then : Step → (Wal → Step) → Step
and_then (some e, w) k = (some e, w)
and_then (none, w) k = k w

-- The start of a new segment, once the active one is full. The number is counted up before the
-- file is opened.
unfoldable pub roll : Faults → Wal → Step
unfolding open_active
roll f w =
    if leb wal_segment_max_bytes w.active_len
    then (let next = record w { active_seg = w.active_seg + 1 } in
        if f.open_fails then (some open_failed, next) else (none, open_active next))
    else (none, w)

-- One Write call on the active file.
unfoldable pub write_bytes : Option ℕ → GoString → Wal → Step
write_bytes none p w = (none, record w { files = append_to w.active_seg p w.files })
write_bytes (some cut) p w =
    (some write_failed, record w { files = append_to w.active_seg (take cut p) w.files })

unfoldable pub sync : Faults → GoString → Wal → Step
sync f payload w =
    if f.sync_fails
    then (some sync_failed, w)
    else (none, record w { active_len = w.active_len + (wal_header_size + length payload) })

unfoldable pub total_size : List Segment → ℕ
total_size [] = 0
total_size ((s, b) ∷ fs) = length b + total_size fs

-- The loop that removes the oldest segments.
unfoldable pub drop_oldest : Bool → ℕ → ℕ → ℕ → List Segment → Option WalError × List Segment
drop_oldest fails max_bytes active total [] = (none, [])
drop_oldest fails max_bytes active total ((s, b) ∷ fs) =
    let rest = drop_oldest fails max_bytes active (total - length b) fs in
    if leb total max_bytes || s == active
    then (none, (s, b) ∷ fs)
    else if fails
    then (some remove_failed, (s, b) ∷ fs)
    else rest

unfoldable pub enforce_quota : Faults → Wal → Step
unfolding total_size drop_oldest
enforce_quota f w =
    if leb w.max_bytes 0
    then (none, w)
    else if f.list_fails
    then (some list_failed, w)
    else if leb (length w.files) 1
    then (none, w)
    else (let (error, files) =
          drop_oldest f.remove_fails w.max_bytes w.active_seg (total_size w.files) w.files in
        (error, record w { files = files }))

unfoldable pub append : Faults → GoString → Wal → Step
append f payload w =
    if ltb wal_max_entry_size (length payload)
    then (some too_large, w)
    else and_then (roll f w) λ w. and_then (write_bytes f.header_cut (header payload) w) λ w.
      and_then (write_bytes f.payload_cut payload w)
        λ w. and_then (sync f payload w) (enforce_quota f)

-- fd.Read into the eight bytes of `hdr`: what the file has left of them, and zeros.
unfoldable pub read_header : GoString → GoString
read_header rest = take 8 (take 8 rest ++ replicate 8 0)

-- The loop of `readSegment`, over what the file holds from the offset on: the records, the offset
-- behind the last of them, and whether the segment is corrupt there.
unfoldable pub read_records : ℕ → GoString → ℕ → List GoString × ℕ × Bool
read_records zero rest offset = ([], offset, false)
read_records (suc max) [] offset = ([], offset, false)
read_records (suc max) (b ∷ bs) offset =
    let hdr = read_header (b ∷ bs) in
    let n = uint32 hdr in
    let body = drop 8 (b ∷ bs) in
    let rest = read_records max (drop n body) (offset + (wal_header_size + n)) in
    if ltb wal_max_entry_size n
    then ([], offset, true)
    else if ltb (length body) n
    then ([], offset, false)
    else if not (checksum_ieee (take n body) == uint32 (drop 4 hdr))
    then ([], offset, true)
    else (take n body ∷ rest.0, rest.1, rest.2)

unfoldable pub read_segment : GoString → ℕ → ℕ → List GoString × ℕ × Bool
read_segment file offset max = read_records max (drop offset file) offset

-- The cursor behind what was read of the segment `s`.
unfoldable pub advance : WalCursor → ℕ → ℕ → WalCursor
advance cur s next = if ltb 0 next then record { segment = s; offset = next } else cur

-- The loop of `ReadFrom` over the segments.
unfoldable pub read_loop :
    ℕ → ℕ → List Segment → List GoString → WalCursor → List GoString × WalCursor
read_loop last max [] out cur = (out, cur)
read_loop last max ((s, file) ∷ fs) out cur =
    let (entries, next, corrupt) = read_segment file cur.offset (max - length out) in
    let out' = out ++ entries in
    let cur' = advance cur s next in
    let later =
      read_loop last max fs out'
        (if ltb s last then record { segment = s + 1; offset = 0 } else cur') in
    let skipped = read_loop last max fs out cur in
    if ltb s cur.segment || leb max (length out)
    then skipped
    else if leb max (length out')
    then (out', cur')
    else later

unfoldable pub read_from : List Segment → WalCursor → ℕ → List GoString × WalCursor
unfolding last_segment
read_from files cur max = elim files [
  | [] ↦ ([], cur)
  | f ∷ fs ↦
      read_loop (last_segment (f ∷ fs)) max (f ∷ fs) [] (
        if ltb (last_segment (f ∷ fs)) cur.segment then record { segment = 0; offset = 0 } else cur)
]

-- PendingBytes: all that the segments hold.
unfoldable pub pending_bytes : Wal → ℕ
unfolding total_size
pending_bytes w = total_size w.files
