-- ===== src/Reporter/Wal/Rounds.antt =====
-- What one round of `ReadFrom` adds to the batch, and where it leaves the cursor.
use native.Mathlib.Nat.{le_refl}
use tom_ai_agent.Base.{
  ltb, ltb→lt, lt→ltb, Bool-cases, length, take, drop, All, length-append, take-append-drop,
  take_all, drop_all, GoString, ℕ, suc, ◌+◌, ◌-◌, ◌≤◌, ◌<◌, ◌≡◌, refl, sym, ap, ◌∙◌, inl, inr,
  false, List, [], ◌∷◌, ◌++◌, append-nil, append_assoc, arith, take-append_le, drop-append_le,
  take-append_ge, drop-append_ge,
}
use tom_ai_agent.Reporter.Wal.{WalCursor, last_segment, read_loop}
use tom_ai_agent.Reporter.Wal.Reading.{encode_all, encode_all-append, IsEntry}
use tom_ai_agent.Reporter.Wal.Cursor.{
  Log, files_of, records, IsLog, Points, inside, at_start, later,
}
use tom_ai_agent.Reporter.Wal.Loop.{
  advance_pos, advance_zero, encode_all_pos, loop_stops, loop_goes_on,
}

-- What a read of at most `r` records from the cursor `c` returns: the next records behind `out`,
-- and a cursor for the rest that is not before `c`.
pub record Reads (c : WalCursor) (log : Log) (r : ℕ) (out pending : List GoString)
    (result : List GoString × WalCursor) : Type 0 where
  pub taken : result.0 ≡ out ++ take r pending
  pub rest : Points result.1 log (drop r pending)
  pub onward : c.segment ≤ result.1.segment

-- The segment numbers do not pass the last one.
pub last-ge :
    (bound s : ℕ) (es : List GoString) (log : Log)
    → IsLog bound ((s, es) ∷ log)
    → bound ≤ last_segment (files_of ((s, es) ∷ log))
unfolding last_segment
last-ge bound s es [] h = h.0
last-ge bound s es ((t, fs) ∷ log) h = omega (arith, h.0, last-ge (suc s) t fs log h.2)

-- A list with no bytes holds no records.
encode_all-nil : (ps : List GoString) → length (encode_all ps) ≤ 0 → ps ≡ []
encode_all-nil [] h = refl
encode_all-nil (p ∷ ps) h = absurd (omega (arith, encode_all_pos (p ∷ ps)))

pub read_loop-nil :
    (last max : ℕ) (out : List GoString) (c : WalCursor) → read_loop last max [] out c ≡ (out, c)
unfolding read_loop
read_loop-nil last max out c = refl

module _ (max r s : ℕ) (out done todo : List GoString) (c : WalCursor) (room : length out + r ≡ max)
    (reached : c.segment ≤ s) (stands : c.offset ≡ length (encode_all done))
    (entries : All IsEntry todo) (some_room : 0 < r) where
  -- The batch ends in this segment.
  pub Reads-within :
      (last : ℕ) (log : Log)
      → r ≤ length todo
      → Reads c
          ((s, done ++ todo) ∷ log)
          r
          out
          (todo ++ records log)
          (read_loop last max ((s, encode_all (done ++ todo)) ∷ files_of log) out c)
  Reads-within last log enough =
      rw
        (loop_stops last max r s (files_of log) out done todo c room reached stands entries
          some_room enough)
        (record {
          taken = ap (λ xs. out ++ xs) (sym (take-append_le r todo (records log) enough));
          rest =
              inside (done ++ take r todo) (drop r todo)
                (ap (λ xs. done ++ xs) (sym (take-append-drop r todo))
                  ∙ sym (append_assoc done (take r todo) (drop r todo)))
                refl refl (drop-append_le r todo (records log) enough);
          onward = reached;
        })

  -- The segment is the last one, and the batch takes all that is left of it.
  pub Reads-last :
      length todo < r
      → Reads c
          ((s, done ++ todo) ∷ [])
          r
          out
          (todo ++ [])
          (read_loop s max ((s, encode_all (done ++ todo)) ∷ []) out c)
  Reads-last short =
      rw
        (
          loop_goes_on s max r s [] out done todo c room reached stands entries some_room short,
          irreflexive,
        )
        (rw read_loop-nil (elim (Bool-cases (ltb 0 (length (encode_all (done ++ todo))))) [
          | inl e ↦
              rw (advance_pos c s _ (ltb→lt _ _ e))
                (record { taken = all; rest = at_end; onward = reached })
          | inr e ↦
              rw (advance_zero c s _ e)
                (record { taken = all; rest = unmoved e; onward = le_refl c.segment })
        ]))
    where
      zero_size :
          ltb 0 (length (encode_all (done ++ todo))) ≡ false
          → length (encode_all (done ++ todo)) ≤ 0
      zero_size e = ground arith

      all : out ++ todo ≡ out ++ take r (todo ++ [])
      all = rw (append-nil todo, take_all r todo (omega arith))

      nothing_left : drop r (todo ++ []) ≡ []
      nothing_left = rw append-nil (drop_all r todo (omega arith))

      at_end :
          Points
            (record { segment = s; offset = length (encode_all (done ++ todo)) })
            ((s, done ++ todo) ∷ [])
            (drop r (todo ++ []))
      at_end = inside (done ++ todo) [] (sym (append-nil (done ++ todo))) refl refl nothing_left

      unmoved :
          ltb 0 (length (encode_all (done ++ todo))) ≡ false
          → Points c ((s, done ++ todo) ∷ []) (drop r (todo ++ []))
      unmoved e =
          at_start reached
            (omega (
              arith,
              ap length (encode_all-append done todo),
              length-append (encode_all done) (encode_all todo),
              zero_size e,
            ))
            (nothing_left ∙ sym (ap (λ xs. xs ++ []) (encode_all-nil (done ++ todo) (zero_size e))))

      irreflexive : ltb s s ≡ false
      irreflexive = ground arith

  -- The batch goes on in the segments behind.
  pub Reads-beyond :
      (last : ℕ) (log : Log)
      → length todo < r
      → s < last
      → let next : WalCursor = record { segment = s + 1; offset = 0 } in
        Reads next log
          (r - length todo)
          (out ++ todo)
          (records log)
          (read_loop last max (files_of log) (out ++ todo) next)
        → Reads c
            ((s, done ++ todo) ∷ log)
            r
            out
            (todo ++ records log)
            (read_loop last max ((s, encode_all (done ++ todo)) ∷ files_of log) out c)
  Reads-beyond last log short before h =
      rw
        (
          loop_goes_on last max r s (files_of log) out done todo c room reached stands entries
              some_room short,
          lt→ltb _ _ before,
        )
        (record {
          taken =
              h.taken
              ∙ append_assoc out todo _
              ∙ ap (λ xs. out ++ xs) (sym (take-append_ge r todo (records log) (omega arith)));
          rest =
              later (omega (arith, h.onward))
                (rw (drop-append_ge r todo (records log) (omega arith)) h.rest);
          onward = omega (arith, h.onward);
        })
