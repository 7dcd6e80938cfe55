-- ===== src/Executor/Output/Captures.antt =====
-- What a captured output is, against the bytes that were written, and the three ways to extend it.
use tom_ai_agent.Base.{
  ltb, ltb→lt, lt→ltb, Bool-cases, length, take, drop, length-append, take-append-drop, length-take,
  length-drop, GoString, ℕ, ◌+◌, ◌-◌, ◌/◌, ◌%◌, ◌≤◌, ◌<◌, min, ◌≡◌, refl, sym, ap, ◌∙◌, inl, inr,
  true, false, [], ◌∷◌, ◌++◌, append-nil, append_assoc, arith,
}
use tom_ai_agent.Executor.Output.{CappedBuffer, cut_tail}

-- What the buffer `b` says about `w`, all that was written to it.
pub record Captures (b : CappedBuffer) (w : GoString) : Type 0 where
  pub whole : b.truncated ≡ false → b.head ++ b.tail ≡ w
  pub flagged : b.truncated ≡ ltb b.limit (length w)
  pub parts : (mid : GoString) × (b.head ++ (mid ++ b.tail) ≡ w)
  pub head_half : b.truncated ≡ true → b.limit / 2 ≤ length b.head
  pub head_fits : length b.head ≤ b.limit
  pub tail_fits : length b.tail ≤ b.limit / 2
  pub tail_kept : b.truncated ≡ true → 0 < length b.tail
  pub tail_after_head : 0 < length b.tail → b.limit / 2 ≤ length b.head

-- A limit that `new_capped_buffer` makes is even and not zero.
abbrev pub IsLimit : CappedBuffer → Type 0
IsLimit b = (b.limit % 2 ≡ 0) × (2 ≤ b.limit)

-- Cutting keeps a suffix, of at most `half` bytes.
pub cut_tail-append : (half : ℕ) (t : GoString) → (cut : GoString) × (cut ++ cut_tail half t ≡ t)
unfolding cut_tail
cut_tail-append half t = elim (Bool-cases (ltb half (length t))) [
  | inl e ↦ (take (length t - half) t, rw e (take-append-drop (length t - half) t))
  | inr e ↦ ([], rw e)
]

pub length-cut_tail : (half : ℕ) (t : GoString) → length (cut_tail half t) ≤ half
unfolding cut_tail
length-cut_tail half t = ground (arith, length-drop (length t - half) t)

pub cut_tail_pos :
    (half : ℕ) (t : GoString) → 0 < half → 0 < length t → 0 < length (cut_tail half t)
unfolding cut_tail
cut_tail_pos half t h k = ground (arith, length-drop (length t - half) t)

pub length_whole :
    (b : CappedBuffer) (w : GoString)
    → Captures b w
    → b.truncated ≡ false
    → length b.head + length b.tail ≡ length w
length_whole b w c e = omega (arith, ap length (c.whole e), length-append b.head b.tail)

pub nil_of_length : (t : GoString) → length t ≤ 0 → t ≡ []
nil_of_length [] h = refl
nil_of_length (x ∷ t) h = absurd (omega arith)

-- The flag after a write that keeps it: a write that fits, or any write once the flag is up.
flag_kept :
    (b : CappedBuffer) (w p : GoString)
    → Captures b w
    → (b.truncated ≡ false → length b.head + length b.tail + length p ≤ b.limit)
    → b.truncated ≡ ltb b.limit (length (w ++ p))
flag_kept b w p c fits = elim (Bool-cases b.truncated) [
  | inl e ↦ rw e (sym (lt→ltb _ _ (omega (arith, length-append w p, over e))))
  | inr e ↦ ground (arith, length-append w p, length_whole b w c e, fits e)
]
  where
    over : b.truncated ≡ true → b.limit < length w
    over e = ltb→lt _ _ (sym c.flagged ∙ e)

append_parts :
    (h m t w c s p : GoString) → h ++ (m ++ t) ≡ w → c ++ s ≡ t ++ p → h ++ ((m ++ c) ++ s) ≡ w ++ p
append_parts h m t w c s p e f =
    simp (append_assoc, f) (simp (← append_assoc) (ap (λ u. u ++ p) (simp append_assoc e)))

join_parts : (h t c s d p : GoString) → c ++ s ≡ d → t ++ d ≡ p → (h ++ t) ++ (c ++ s) ≡ h ++ p
join_parts h t c s d p e f = rw (e, append_assoc, f)

pub min-eq_left : (a b : ℕ) → a < b → min a b ≡ a
min-eq_left a b h = omega arith

module _ (b : CappedBuffer) (w p : GoString) (c : Captures b w) (even : IsLimit b) where
  pub append_tail-Captures :
      length b.head + length b.tail + length p ≤ b.limit
      → 0 < length b.tail
      → Captures (record b { tail = b.tail ++ p }) (w ++ p)
  append_tail-Captures fits occupied = record {
    whole = λ e. sym (append_assoc b.head b.tail p) ∙ ap (λ t. t ++ p) (c.whole e);
    flagged = flag_kept b w p c (λ _. fits);
    parts = (c.parts.0, simp (← append_assoc) (ap (λ t. t ++ p) (simp append_assoc c.parts.1)));
    head_half = c.head_half;
    head_fits = c.head_fits;
    tail_fits = omega (arith, length-append b.tail p, c.tail_after_head occupied);
    tail_kept = λ e. omega (arith, length-append b.tail p);
    tail_after_head = λ _. c.tail_after_head occupied;
  }

  -- An empty tail means that nothing was cut.
  untouched : length b.tail ≤ 0 → (b.truncated ≡ false) × (b.tail ≡ []) × (b.head ≡ w)
  untouched empty = (intact, bare, sym (append-nil b.head) ∙ rw (← bare) (c.whole intact))
    where
      intact : b.truncated ≡ false
      intact = elim (Bool-cases b.truncated) [
        | inl e ↦ absurd (omega (arith, c.tail_kept e))
        | inr e ↦ e
      ]

      bare : b.tail ≡ []
      bare = nil_of_length b.tail empty

  pub append_head-Captures :
      length b.head + length b.tail + length p ≤ b.limit
      → length b.tail ≤ 0
      → Captures (record b { head = b.head ++ p }) (w ++ p)
  append_head-Captures fits empty = record {
    whole = λ _. all;
    flagged = flag_kept b w p c (λ _. fits);
    parts = ([], all);
    head_half = λ e. omega (arith, length-append b.head p, c.head_half e);
    head_fits = omega (arith, length-append b.head p);
    tail_fits = c.tail_fits;
    tail_kept = c.tail_kept;
    tail_after_head = λ h. absurd (omega arith);
  }
    where
      all : (b.head ++ p) ++ b.tail ≡ w ++ p
      all = rw ((untouched empty).1, (untouched empty).2) (append-nil (w ++ p))

  overflowing :
      b.limit < length b.head + length b.tail + length p → true ≡ ltb b.limit (length (w ++ p))
  overflowing over = elim (Bool-cases b.truncated) [
    | inl e ↦ sym (lt→ltb _ _ (omega (arith, length-append w p, ltb→lt _ _ (sym c.flagged ∙ e))))
    | inr e ↦ sym (lt→ltb _ _ (omega (arith, length-append w p, length_whole b w c e)))
  ]

  -- The head is below half: it is filled up from `p`, and the rest of `p` is the tail.
  pub fill_head-Captures :
      b.limit < length b.head + length b.tail + length p
      → length b.head < b.limit / 2
      → let need = b.limit / 2 - length b.head in
        Captures
          (record b {
            truncated = true;
            head = b.head ++ take need p;
            tail = cut_tail (b.limit / 2) (drop need p);
          })
          (w ++ p)
  fill_head-Captures over short = record {
    whole = λ e. absurd (cc e);
    flagged = overflowing over;
    parts = (
      cut.0,
      join_parts b.head (take need p) cut.0 _ (drop need p) p cut.1 (take-append-drop need p)
          ∙ ap (λ h. h ++ p) start.1,
    );
    head_half = λ _. half_head;
    head_fits = omega (arith, length-append b.head (take need p), length-take need p);
    tail_fits = length-cut_tail (b.limit / 2) (drop need p);
    tail_kept = λ _.
        cut_tail_pos (b.limit / 2) (drop need p) (omega arith) (omega (arith, length-drop need p));
    tail_after_head = λ _. half_head;
  }
    where
      need : ℕ
      need = b.limit / 2 - length b.head

      empty : length b.tail ≤ 0
      empty = elim (Bool-cases (ltb 0 (length b.tail))) [
        | inl e ↦ absurd (omega (arith, c.tail_after_head (ltb→lt _ _ e)))
        | inr e ↦ ground arith
      ]

      start : (b.tail ≡ []) × (b.head ≡ w)
      start = ((untouched empty).1, (untouched empty).2)

      cut : (cut : GoString) × (cut ++ cut_tail (b.limit / 2) (drop need p) ≡ drop need p)
      cut = cut_tail-append (b.limit / 2) (drop need p)

      half_head : b.limit / 2 ≤ length (b.head ++ take need p)
      half_head = omega (arith, length-append b.head (take need p), length-take need p)

  -- The head is at half: everything goes to the tail.
  pub fill_tail-Captures :
      b.limit < length b.head + length b.tail + length p
      → b.limit / 2 ≤ length b.head
      → Captures
          (record b { truncated = true; tail = cut_tail (b.limit / 2) (b.tail ++ p) })
          (w ++ p)
  fill_tail-Captures over long = record {
    whole = λ e. absurd (cc e);
    flagged = overflowing over;
    parts = (c.parts.0 ++ cut.0, append_parts b.head c.parts.0 b.tail w cut.0 _ p c.parts.1 cut.1);
    head_half = λ _. long;
    head_fits = c.head_fits;
    tail_fits = length-cut_tail (b.limit / 2) (b.tail ++ p);
    tail_kept = λ _.
        cut_tail_pos (b.limit / 2) (b.tail ++ p) (omega arith)
          (omega (arith, length-append b.tail p, some_tail));
    tail_after_head = λ _. long;
  }
    where
      cut : (cut : GoString) × (cut ++ cut_tail (b.limit / 2) (b.tail ++ p) ≡ b.tail ++ p)
      cut = cut_tail-append (b.limit / 2) (b.tail ++ p)

      some_tail : 0 < length b.tail + length p
      some_tail = elim (Bool-cases b.truncated) [
        | inl e ↦ omega (arith, c.tail_kept e)
        | inr e ↦ omega (arith, c.head_fits)
      ]
