-- ===== src/Reporter/Wal/Rollover.antt =====
-- The start of a new segment and the writes of one record.
use tom_ai_agent.Base.{
  leb, leb→le, Bool-cases, length, All, All-append, GoString, ℕ, ◌+◌, ◌≤◌, ◌<◌, ◌≡◌, refl, sym, ◌∙◌,
  ◌⊎◌, inl, inr, true, false, none, List, [], ◌∷◌, ◌++◌, append-nil, append_assoc, arith,
}
use tom_ai_agent.Reporter.Wal.{
  Segment, Wal, Step, no_faults, wal_segment_max_bytes, roll, write_bytes, sync, header, encode,
  and_then,
}
use tom_ai_agent.Reporter.Wal.Reading.{encode_all, IsEntry, encode_all-append}
use tom_ai_agent.Reporter.Wal.Cursor.{Log, files_of}
use tom_ai_agent.Reporter.Wal.Writing.{
  Holds, log_of, create_last, size_of_last, Below-files, write_bytes-Holds, files_of-append,
  IsLog-snoc, Below-snoc,
}

-- What the rollover leaves: no error, and the same log, with a new empty segment behind it if the active one
-- was full.
pub record Rolled (w : Wal) (before : Log) (es : List GoString) (r : Step) : Type 0 where
  pub older : Log
  pub active_es : List GoString
  pub ok : r.0 ≡ none
  pub holds : Holds r.1 older active_es
  pub segments :
      ((w.active_len < wal_segment_max_bytes)
        × (older ≡ before)
        × (active_es ≡ es)
        × (r.1.active_seg ≡ w.active_seg))
      ⊎ ((wal_segment_max_bytes ≤ w.active_len)
          × (older ≡ log_of w before es)
          × (active_es ≡ [])
          × (r.1.active_seg ≡ w.active_seg + 1))
  pub quota : r.1.max_bytes ≡ w.max_bytes

files-log_of :
    (w : Wal) (older : Log) (es : List GoString)
    → Holds w older es
    → w.files ≡ files_of (log_of w older es)
files-log_of w older es h = h.raw.files ∙ sym (files_of-append older ((w.active_seg, es) ∷ []))

le→leb : (a b : ℕ) → a ≤ b → leb a b ≡ true
le→leb a b h = ground arith

roll_room :
    (w : Wal) → leb wal_segment_max_bytes w.active_len ≡ false → roll no_faults w ≡ (none, w)
unfolding roll
roll_room w e = rw e

roll_full :
    (w : Wal) (older : Log) (es : List GoString)
    → Holds w older es
    → wal_segment_max_bytes ≤ w.active_len
    → roll no_faults w ≡ (
      none,
      record w {
        files = files_of (log_of w older es) ++ (w.active_seg + 1, []) ∷ [];
        active_seg = w.active_seg + 1;
        active_len = 0;
      },
    )
unfolding roll
roll_full w older es h full = rw (
  le→leb _ _ full,
  files-log_of w older es h,
  create_last (w.active_seg + 1) _ below,
  size_of_last (w.active_seg + 1) _ [] below,
)
  where
    below : All (λ (x : Segment). x.0 < w.active_seg + 1) (files_of (log_of w older es))
    below = Below-files _ (log_of w older es) (Below-snoc w.active_seg older es h.raw.older_below)

pub roll-Rolled :
    (w : Wal) (older : Log) (es : List GoString)
    → Holds w older es
    → Rolled w older es (roll no_faults w)
roll-Rolled w older es h = elim (Bool-cases (leb wal_segment_max_bytes w.active_len)) [
  | inl full ↦ rw (roll_full w older es h (leb→le _ _ full)) (record {
    older = log_of w older es;
    active_es = [];
    ok = refl;
    holds = record {
      raw = record {
        files = refl;
        older_rise =
            IsLog-snoc 0 w.active_seg older es h.raw.older_rise h.raw.older_below (omega arith)
              h.fit;
        older_below = Below-snoc w.active_seg older es h.raw.older_below;
        size = refl;
      };
      fit = tt;
    };
    segments = inr (leb→le _ _ full, refl, refl, refl);
    quota = refl;
  })
  | inr room ↦ rw (roll_room w room) (record {
    older = older;
    active_es = es;
    ok = refl;
    holds = h;
    segments = inl (le_of _ _ room, refl, refl, refl);
    quota = refl;
  })
]
  where
    le_of : (a b : ℕ) → leb a b ≡ false → b < a
    le_of a b e = ground arith

pub All-snoc :
    (es : List GoString) (p : GoString) → All IsEntry es → IsEntry p → All IsEntry (es ++ p ∷ [])
All-snoc es p h k = All-append IsEntry es (p ∷ []) h (k, tt)

encode_snoc :
    (es : List GoString) (p : GoString)
    → (encode_all es ++ header p) ++ p ≡ encode_all (es ++ p ∷ [])
unfolding encode
encode_snoc es p = simp (encode_all-append, append_assoc, append-nil)

-- The writes of one record to the active segment, and the call that follows them.
pub written :
    (w : Wal) (older : Log) (es : List GoString) (p : GoString) (k : Wal → Step)
    → Holds w older es
    → and_then
        (write_bytes none (header p) w)
        (λ w. and_then (write_bytes none p w) (λ w. and_then (sync no_faults p w) k))
      ≡ k (record w {
        files = files_of older ++ (w.active_seg, encode_all (es ++ p ∷ [])) ∷ [];
        active_len = w.active_len + (8 + length p);
      })
unfolding sync
written w older es p k h = rw (
  write_bytes-Holds w older (encode_all es) (header p) h.raw.files h.raw.older_below,
  write_bytes-Holds headed older (encode_all es ++ header p) p refl h.raw.older_below,
  encode_snoc es p,
)
  where
    headed : Wal
    headed = record w { files = files_of older ++ (w.active_seg, encode_all es ++ header p) ∷ [] }
