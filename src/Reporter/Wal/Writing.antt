-- ===== src/Reporter/Wal/Writing.antt =====
-- The steps of `Append` on a log whose last segment is the active one.
use tom_ai_agent.Base.{
  length, All, GoString, ℕ, suc, ◌+◌, ◌≤◌, ◌<◌, ◌≡◌, refl, sym, ap, ◌∙◌, none, List, [], ◌∷◌, ◌++◌,
  append_assoc, arith,
}
use tom_ai_agent.Reporter.Wal.{Segment, Wal, create, size_of, append_to, write_bytes}
use tom_ai_agent.Reporter.Wal.Reading.{encode_all, IsEntry}
use tom_ai_agent.Reporter.Wal.Cursor.{Log, files_of, records, IsLog}

abbrev pub Below : ℕ → Log → Type 0
Below s = All (λ x. x.0 < s)

-- The directory holds the segments `older`, and the active one with the bytes `raw`.
pub record HoldsRaw (w : Wal) (older : Log) (raw : GoString) : Type 0 where
  pub files : w.files ≡ files_of older ++ (w.active_seg, raw) ∷ []
  pub older_rise : IsLog 0 older
  pub older_below : Below w.active_seg older
  pub size : w.active_len ≡ length raw

-- The active segment holds the records `es`.
pub record Holds (w : Wal) (older : Log) (es : List GoString) : Type 0 where
  pub raw : HoldsRaw w older (encode_all es)
  pub fit : All IsEntry es

abbrev pub log_of : Wal → Log → List GoString → Log
log_of w older es = older ++ (w.active_seg, es) ∷ []

pub create_last :
    (s : ℕ) (fs : List Segment) → All (λ x. x.0 < s) fs → create s fs ≡ fs ++ (s, []) ∷ []
unfolding create
create_last s [] h = refl
create_last s ((t, b) ∷ fs) h = ground (arith, create_last s fs h.1)

pub size_of_last :
    (s : ℕ) (fs : List Segment) (b : GoString)
    → All (λ x. x.0 < s) fs
    → size_of s (fs ++ (s, b) ∷ []) ≡ length b
unfolding size_of
size_of_last s [] b h = ground arith
size_of_last s ((t, c) ∷ fs) b h = ground (arith, size_of_last s fs b h.1)

append_to_last :
    (s : ℕ) (fs : List Segment) (b p : GoString)
    → All (λ x. x.0 < s) fs
    → append_to s p (fs ++ (s, b) ∷ []) ≡ fs ++ (s, b ++ p) ∷ []
unfolding append_to
append_to_last s [] b p h = ground arith
append_to_last s ((t, c) ∷ fs) b p h = ground (arith, append_to_last s fs b p h.1)

pub Below-files : (s : ℕ) (log : Log) → Below s log → All (λ (x : Segment). x.0 < s) (files_of log)
Below-files s [] h = tt
Below-files s ((t, es) ∷ log) h = (h.0, Below-files s log h.1)

pub write_bytes-Holds :
    (w : Wal) (older : Log) (b p : GoString)
    → w.files ≡ files_of older ++ (w.active_seg, b) ∷ []
    → Below w.active_seg older
    → write_bytes none p w
      ≡ (none, record w { files = files_of older ++ (w.active_seg, b ++ p) ∷ [] })
unfolding write_bytes
write_bytes-Holds w older b p e h =
    rw (e, append_to_last w.active_seg (files_of older) b p (Below-files w.active_seg older h))

pub files_of-append : (a b : Log) → files_of (a ++ b) ≡ files_of a ++ files_of b
files_of-append [] b = refl
files_of-append ((s, es) ∷ a) b = ap (◌∷◌ (s, encode_all es)) (files_of-append a b)

pub records-append : (a b : Log) → records (a ++ b) ≡ records a ++ records b
records-append [] b = refl
records-append ((s, es) ∷ a) b =
    ap (λ xs. es ++ xs) (records-append a b) ∙ sym (append_assoc es (records a) (records b))

pub IsLog-snoc :
    (bound s : ℕ) (log : Log) (es : List GoString)
    → IsLog bound log
    → Below s log
    → bound ≤ s
    → All IsEntry es
    → IsLog bound (log ++ (s, es) ∷ [])
IsLog-snoc bound s [] es h b le fit = (le, fit, tt)
IsLog-snoc bound s ((t, fs) ∷ log) es h b le fit =
    (h.0, h.1, IsLog-snoc (suc t) s log es h.2 b.1 (omega (arith, b.0)) fit)

pub Below-snoc :
    (s : ℕ) (log : Log) (es : List GoString) → Below s log → Below (s + 1) (log ++ (s, es) ∷ [])
Below-snoc s [] es h = (omega arith, tt)
Below-snoc s ((t, fs) ∷ log) es h = (omega (arith, h.0), Below-snoc s log es h.1)
