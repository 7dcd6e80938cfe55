-- ===== src/Reporter/Wal/Append.antt =====
-- `Append` adds one record at the end of the log, and the quota takes from its front.
use tom_ai_agent.Base.{
  ltb, leb, ◌==◌, leb→le, Bool-cases, length, length-append, GoString, ℕ, suc, ◌+◌, ◌-◌, ◌≤◌, ◌<◌,
  ◌≡◌, refl, sym, ap, ◌∙◌, subst, ◌⊎◌, inl, inr, false, Option, none, some, List, [], ◌∷◌, ◌++◌,
  append_assoc, arith,
}
use tom_ai_agent.Reporter.Wal.{
  Segment, Wal, WalError, Step, no_faults, wal_max_entry_size, wal_segment_max_bytes, total_size,
  drop_oldest, enforce_quota, roll, and_then, append, encode,
}
use tom_ai_agent.Reporter.Wal.Reading.{encode_all, IsEntry, encode_all-append, length-encode}
use tom_ai_agent.Reporter.Wal.Cursor.{Log, files_of, IsLog}
use tom_ai_agent.Reporter.Wal.Writing.{Below, Holds, log_of, files_of-append}
use tom_ai_agent.Reporter.Wal.Rollover.{Rolled, roll-Rolled, written, All-snoc}

-- Each of the segments `lost` was removed while it, those behind it and the files that are left did not fit
-- the quota.
abbrev pub IsNeeded : ℕ → Log → List Segment → Type 0
IsNeeded max_bytes [] files = Unit
IsNeeded max_bytes (s ∷ lost) files =
    (max_bytes < total_size (files_of (s ∷ lost) ++ files)) × IsNeeded max_bytes lost files

-- The loop of the quota removes oldest segments until the sum fits, and stops at the active one.
record Drops (active max_bytes : ℕ) (older : Log) (raw : GoString)
    (r : Option WalError × List Segment) : Type 0 where
  lost : Log
  left : Log
  split : older ≡ lost ++ left
  ok : r.0 ≡ none
  files : r.1 ≡ files_of left ++ (active, raw) ∷ []
  fits : (total_size r.1 ≤ max_bytes) ⊎ (left ≡ [])
  needed : IsNeeded max_bytes lost r.1

drop_oldest-Drops :
    (active max_bytes : ℕ) (older : Log) (raw : GoString) (total : ℕ)
    → Below active older
    → total ≡ total_size (files_of older ++ (active, raw) ∷ [])
    → Drops active max_bytes older raw
        (drop_oldest false max_bytes active total (files_of older ++ (active, raw) ∷ []))
unfolding drop_oldest total_size
drop_oldest-Drops active max_bytes [] raw total h e = record {
  lost = [];
  left = [];
  split = refl;
  ok = ground arith;
  files = ground arith;
  fits = inr refl;
  needed = tt;
}
drop_oldest-Drops active max_bytes ((s, es) ∷ older) raw total h e =
    elim (Bool-cases (leb total max_bytes)) [
      | inl fits ↦ rw fits (record {
        lost = [];
        left = (s, es) ∷ older;
        split = refl;
        ok = refl;
        files = refl;
        fits = inl (omega (arith, leb→le _ _ fits));
        needed = tt;
      })
      | inr over ↦
          let rest =
            drop_oldest-Drops active max_bytes older raw (total - length (encode_all es)) h.1
              (omega arith) in
          rw (over, other)
            (record {
              lost = (s, es) ∷ rest.lost;
              left = rest.left;
              split = ap (◌∷◌ (s, es)) rest.split;
              ok = rest.ok;
              files = rest.files;
              fits = rest.fits;
              needed = (too_many rest over, rest.needed);
            })
    ]
  where
    other : (s == active) ≡ false
    other = ground (arith, h.0)

    all :
        (rest : Drops active max_bytes older raw (
          drop_oldest false max_bytes active
            (total - length (encode_all es))
            (files_of older ++ (active, raw) ∷ [])))
        → files_of older ++ (active, raw) ∷ []
          ≡ files_of rest.lost
            ++ (drop_oldest false max_bytes active
                (total - length (encode_all es))
                (files_of older ++ (active, raw) ∷ [])).1
    all rest =
        ap (λ l. files_of l ++ (active, raw) ∷ []) rest.split
        ∙ ap (λ fs. fs ++ (active, raw) ∷ []) (files_of-append rest.lost rest.left)
        ∙ append_assoc (files_of rest.lost) (files_of rest.left) _
        ∙ ap (λ fs. files_of rest.lost ++ fs) (sym rest.files)

    too_many :
        (rest : Drops active max_bytes older raw (
          drop_oldest false max_bytes active
            (total - length (encode_all es))
            (files_of older ++ (active, raw) ∷ [])))
        → leb total max_bytes ≡ false
        → max_bytes
          < total_size (
              files_of ((s, es) ∷ rest.lost)
              ++ (drop_oldest false max_bytes active
                  (total - length (encode_all es))
                  (files_of older ++ (active, raw) ∷ [])).1)
    too_many rest over =
        subst (λ fs. max_bytes < total_size ((s, encode_all es) ∷ fs)) (all rest)
          (ground (arith, over, e))

IsLog-behind : (bound : ℕ) (lost left : Log) → IsLog bound (lost ++ left) → IsLog 0 left
IsLog-behind bound [] left h = weaken left bound h
  where
    weaken : (log : Log) (b : ℕ) → IsLog b log → IsLog 0 log
    weaken [] b h = tt
    weaken ((s, es) ∷ log) b h = (omega arith, h.1, h.2)
IsLog-behind bound ((s, es) ∷ lost) left h = IsLog-behind (suc s) lost left h.2

Below-behind : (s : ℕ) (lost left : Log) → Below s (lost ++ left) → Below s left
Below-behind s [] left h = h
Below-behind s ((t, es) ∷ lost) left h = Below-behind s lost left h.1

alone : (older : Log) (f : Segment) → length (files_of older ++ f ∷ []) ≤ 1 → older ≡ []
alone [] f h = refl
alone ((s, es) ∷ older) f h = absurd (omega (arith, length-append (files_of older) (f ∷ [])))

-- A log after a step that may have removed oldest segments of `before`, but not the active one with the records
-- `es`: `lost` are those segments.
pub record Trimmed (before : Log) (es : List GoString) (max_bytes : ℕ) (r : Step) : Type 0 where
  pub lost : Log
  pub left : Log
  pub ok : r.0 ≡ none
  pub holds : Holds r.1 left es
  pub oldest : before ≡ lost ++ left
  pub needed : IsNeeded max_bytes lost r.1.files
  pub within : 0 < max_bytes → (total_size r.1.files ≤ max_bytes) ⊎ (left ≡ [])
  pub unlimited : max_bytes ≡ 0 → lost ≡ []
  pub quota : r.1.max_bytes ≡ max_bytes

enforce_quota-Trimmed :
    (w : Wal) (older : Log) (es : List GoString)
    → Holds w older es
    → Trimmed older es w.max_bytes (enforce_quota no_faults w)
unfolding enforce_quota
enforce_quota-Trimmed w older es h = elim (Bool-cases (leb w.max_bytes 0)) [
  | inl off ↦ rw off (untouched (λ x. absurd (omega (arith, leb→le _ _ off))))
  | inr on ↦ elim (Bool-cases (leb (length w.files) 1)) [
    | inl single ↦
        rw (on, single)
          (untouched (λ _. inr (
            alone older (w.active_seg, encode_all es)
              (omega (arith, ap length h.raw.files, leb→le _ _ single)))))
    | inr several ↦ rw (on, several) (dropped on)
  ]
]
  where
    untouched :
        (0 < w.max_bytes → (total_size w.files ≤ w.max_bytes) ⊎ (older ≡ []))
        → Trimmed older es w.max_bytes (none, w)
    untouched within = record {
      lost = [];
      left = older;
      ok = refl;
      holds = h;
      oldest = refl;
      needed = tt;
      within = within;
      unlimited = λ _. refl;
      quota = refl;
    }

    d :
        Drops w.active_seg w.max_bytes older
          (encode_all es)
          (drop_oldest false w.max_bytes w.active_seg (total_size w.files) w.files)
    d =
        rw h.raw.files (
          drop_oldest-Drops w.active_seg w.max_bytes older (encode_all es) _ h.raw.older_below refl)

    dropped :
        leb w.max_bytes 0 ≡ false
        → Trimmed older es w.max_bytes (
          (drop_oldest false w.max_bytes w.active_seg (total_size w.files) w.files).0,
          record w {
            files = (drop_oldest false w.max_bytes w.active_seg (total_size w.files) w.files).1;
          },
        )
    dropped on = record {
      lost = d.lost;
      left = d.left;
      ok = d.ok;
      holds = record {
        raw = record {
          files = d.files;
          older_rise = IsLog-behind 0 d.lost d.left (rw d.split at (h.raw.older_rise));
          older_below = Below-behind w.active_seg d.lost d.left (rw d.split at (h.raw.older_below));
          size = h.raw.size;
        };
        fit = h.fit;
      };
      oldest = d.split;
      needed = d.needed;
      within = λ _. d.fits;
      unlimited = λ off. absurd (ground arith);
      quota = refl;
    }

and_then-ok : (r : Step) (k : Wal → Step) → r.0 ≡ none → and_then r k ≡ k r.1
and_then-ok (none, w) k e = refl
and_then-ok (some x, w) k e = cc

length-encode_snoc :
    (es : List GoString) (p : GoString)
    → length (encode_all (es ++ p ∷ [])) ≡ length (encode_all es) + (8 + length p)
length-encode_snoc es p = omega (
  arith,
  ap length (encode_all-append es (p ∷ [])),
  length-append (encode_all es) (encode_all (p ∷ [])),
  length-append (encode p) [],
  length-encode p,
)

-- What `Append` of the record `p` does to the log of the segments `before` and the active one with the records
-- `es`: the record is behind those of the active segment, or if that was full alone in a new one behind it, and
-- then oldest segments are removed.
pub record Appended (w : Wal) (before : Log) (es : List GoString) (p : GoString) (r : Step)
    : Type 0 where
  pub older : Log
  pub active_es : List GoString
  pub segments :
      ((w.active_len < wal_segment_max_bytes)
        × (older ≡ before)
        × (active_es ≡ es)
        × (r.1.active_seg ≡ w.active_seg))
      ⊎ ((wal_segment_max_bytes ≤ w.active_len)
          × (older ≡ log_of w before es)
          × (active_es ≡ [])
          × (r.1.active_seg ≡ w.active_seg + 1))
  pub trimmed : Trimmed older (active_es ++ p ∷ []) w.max_bytes r

enforce_quota-active_seg : (w : Wal) → (enforce_quota no_faults w).1.active_seg ≡ w.active_seg
unfolding enforce_quota
enforce_quota-active_seg w = ground arith

-- An append without faults, to a log whose last segment is the active one, succeeds. The new record stands
-- behind those of the active segment, or alone in a new segment if that one was full; then oldest segments are
-- removed, never the active one, and each only while it and those behind it do not fit the quota. None is
-- removed without a quota, and with one the segments that are left fit it or only the active one is left.
pub append-Appended :
    (w : Wal) (older : Log) (es : List GoString) (p : GoString)
    → Holds w older es
    → IsEntry p
    → Appended w older es p (append no_faults p w)
unfolding append
append-Appended w older es p h fits =
    rw
      (
        not_too_large,
        and_then-ok (roll no_faults w) _ rolled.ok,
        written (roll no_faults w).1 rolled.older rolled.active_es p (enforce_quota no_faults)
            rolled.holds,
      )
      (record {
        older = rolled.older;
        active_es = rolled.active_es;
        segments = rw (enforce_quota-active_seg added) rolled.segments;
        trimmed =
            subst
              (λ m.
                Trimmed rolled.older (rolled.active_es ++ p ∷ []) m (enforce_quota no_faults added))
              rolled.quota
              (enforce_quota-Trimmed added rolled.older (rolled.active_es ++ p ∷ []) added-Holds);
      })
  where
    not_too_large : ltb wal_max_entry_size (length p) ≡ false
    not_too_large = ground arith

    rolled : Rolled w older es (roll no_faults w)
    rolled = roll-Rolled w older es h

    added : Wal
    added = record (roll no_faults w).1 {
      files =
          files_of rolled.older
          ++ ((roll no_faults w).1.active_seg, encode_all (rolled.active_es ++ p ∷ [])) ∷ [];
      active_len = (roll no_faults w).1.active_len + (8 + length p);
    }

    added-Holds : Holds added rolled.older (rolled.active_es ++ p ∷ [])
    added-Holds = record {
      raw = record {
        files = refl;
        older_rise = rolled.holds.raw.older_rise;
        older_below = rolled.holds.raw.older_below;
        size = omega (arith, rolled.holds.raw.size, length-encode_snoc rolled.active_es p);
      };
      fit = All-snoc rolled.active_es p rolled.holds.fit fits;
    }
