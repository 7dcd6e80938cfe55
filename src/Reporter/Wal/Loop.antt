-- ===== src/Reporter/Wal/Loop.antt =====
-- The rounds of the loop of `ReadFrom`.
use tom_ai_agent.Base.{
  ltb, leb, if◌then◌else◌, Bool-cases, length, take, All, length-append, length-take, take_all,
  GoString, ℕ, ◌+◌, ◌-◌, ◌≤◌, ◌<◌, ◌≡◌, refl, inl, inr, true, false, ◌||◌, List, [], ◌∷◌, ◌++◌,
  append-nil, arith,
}
use tom_ai_agent.Reporter.Wal.{Segment, encode, WalCursor, read_segment, advance, read_loop}
use tom_ai_agent.Reporter.Wal.Reading.{
  encode_all, length-encode, IsEntry, Stops-nil, read_segment_prefix,
}

-- A round that skips the segment.
pub loop_skips :
    (last max : ℕ) (s : ℕ) (file : GoString) (fs : List Segment) (out : List GoString)
    (c : WalCursor)
    → (ltb s c.segment || leb max (length out)) ≡ true
    → read_loop last max ((s, file) ∷ fs) out c ≡ read_loop last max fs out c
unfolding read_loop
loop_skips last max s file fs out c skip = rw skip

-- With no room left the loop goes through the other segments and reads nothing.
pub loop_full :
    (last max : ℕ) (fs : List Segment) (out : List GoString) (c : WalCursor)
    → max ≤ length out
    → read_loop last max fs out c ≡ (out, c)
unfolding read_loop
loop_full last max [] out c full = refl
loop_full last max ((s, file) ∷ fs) out c full = elim (Bool-cases (ltb s c.segment)) [
  | inl e ↦ rw e (loop_full last max fs out c full)
  | inr e ↦ ground (arith, loop_full last max fs out c full)
]

pub advance_zero : (c : WalCursor) (s next : ℕ) → ltb 0 next ≡ false → advance c s next ≡ c
unfolding advance
advance_zero c s next h = rw h

pub advance_pos :
    (c : WalCursor) (s next : ℕ)
    → 0 < next
    → advance c s next ≡ record { segment = s; offset = next }
unfolding advance
advance_pos c s next h = ground arith

pub encode_all_pos : (ps : List GoString) → 0 < length ps → 0 < length (encode_all ps)
encode_all_pos [] h = h
encode_all_pos (p ∷ ps) h = omega (arith, length-append (encode p) (encode_all ps), length-encode p)

module _ (last max r s : ℕ) (fs : List Segment) (out done todo : List GoString) (c : WalCursor)
    (room : length out + r ≡ max) (reached : c.segment ≤ s)
    (stands : c.offset ≡ length (encode_all done)) (entries : All IsEntry todo)
    (some_room : 0 < r) where
  reads_here :
      read_segment (encode_all (done ++ todo)) c.offset (max - length out)
      ≡ (take r todo, length (encode_all (done ++ take r todo)), false)
  reads_here =
      rw (stands, room_left)
        (rw append-nil at (read_segment_prefix done todo r [] entries Stops-nil))
    where
      room_left : max - length out ≡ r
      room_left = omega arith

  not_skipped : (ltb s c.segment || leb max (length out)) ≡ false
  not_skipped = ground arith

  -- The segment fills the batch.
  pub loop_stops :
      r ≤ length todo
      → read_loop last max ((s, encode_all (done ++ todo)) ∷ fs) out c ≡ (
        out ++ take r todo,
        record { segment = s; offset = length (encode_all (done ++ take r todo)) },
      )
  unfolding read_loop
  loop_stops enough = rw (not_skipped, reads_here, full, advance_pos c s _ next_pos)
    where
      full : leb max (length (out ++ take r todo)) ≡ true
      full = ground (arith, length-append out (take r todo), length-take r todo)

      next_pos : 0 < length (encode_all (done ++ take r todo))
      next_pos =
          encode_all_pos (done ++ take r todo)
            (omega (arith, length-append done (take r todo), length-take r todo))

  -- The segment is read to its end, and the loop goes on.
  pub loop_goes_on :
      length todo < r
      → read_loop last max ((s, encode_all (done ++ todo)) ∷ fs) out c
        ≡ read_loop last max fs (out ++ todo) (
            if ltb s last
            then record { segment = s + 1; offset = 0 }
            else advance c s (length (encode_all (done ++ todo))))
  unfolding read_loop
  loop_goes_on short = rw (not_skipped, reads_here, all, room_left)
    where
      all : take r todo ≡ todo
      all = take_all r todo (omega arith)

      room_left : leb max (length (out ++ todo)) ≡ false
      room_left = ground (arith, length-append out todo)
