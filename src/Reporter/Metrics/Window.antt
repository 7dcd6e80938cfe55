-- ===== src/Reporter/Metrics/Window.antt =====
-- The buffer holds the latest samples.
use tom_ai_agent.Base.{
  leb, leb→le, Bool-cases, length, drop, length-append, length-drop, ℕ, zero, suc, ◌+◌, ◌-◌, ◌%◌,
  ◌^◌, ◌≤◌, ◌<◌, ◌≡◌, refl, sym, ap, ◌∙◌, inl, inr, Option, none, some, List, [], ◌∷◌, ◌++◌,
  append-nil, append_assoc, arith, drop-append_le,
}
use tom_ai_agent.Reporter.Metrics.{MetricsBuffer, slice_from, submit_one, submit_metrics}

module _ {ℓ} {A : Type ℓ} where
  drop_eq : (m n : ℕ) (xs : List A) → m ≡ n → drop m xs ≡ drop n xs
  drop_eq m n xs e = ap (λ k. drop k xs) e

  drop_none : (n : ℕ) (xs : List A) → n ≤ 0 → xs ≡ drop n xs
  drop_none zero xs h = refl
  drop_none (suc n) xs h = absurd (omega arith)

  drop-nil : (n : ℕ) → [] ≡ drop {A = A} n []
  drop-nil zero = refl
  drop-nil (suc n) = refl

  pub drop-drop : (m n : ℕ) (xs : List A) → drop m (drop n xs) ≡ drop (n + m) xs
  drop-drop m zero xs = drop_eq m (0 + m) xs (omega arith)
  drop-drop m (suc n) [] = sym (drop-nil m) ∙ drop-nil (suc n + m)
  drop-drop m (suc n) (x ∷ xs) =
      drop-drop m n xs ∙ drop_eq (suc (n + m)) (suc n + m) (x ∷ xs) (omega arith)

module _ (Metric : Type 0) where
  -- A buffer within its size, which is not zero, and a counter that has not wrapped around.
  pub record Fits (r : MetricsBuffer Metric) : Type 0 where
    pub within : length r.buf ≤ r.buffer_size
    pub some_room : 0 < r.buffer_size
    pub counter : r.dropped < 2 ^ 64

  -- What a buffer of `size` has no room for.
  abbrev pub excess : ℕ → List Metric → ℕ
  excess size xs = length xs - size

  -- The samples `all` have gone into the buffer `r`: it holds the latest of them, as many as fit, and
  -- counts the others.
  pub record Latest (r : MetricsBuffer Metric) (all : List Metric)
      (result : Option (MetricsBuffer Metric)) : Type 0 where
    pub after : MetricsBuffer Metric
    pub ok : result ≡ some after
    pub buf : after.buf ≡ drop (excess r.buffer_size all) all
    pub dropped : after.dropped ≡ (r.dropped + excess r.buffer_size all) % 2 ^ 64
    pub same_size : after.buffer_size ≡ r.buffer_size
    pub fits : Fits after

  submit_one-Latest :
      (x : Metric) (r : MetricsBuffer Metric)
      → Fits r
      → Latest r (r.buf ++ x ∷ []) (submit_one Metric x r)
  unfolding submit_one slice_from
  submit_one-Latest x r h = elim (Bool-cases (leb r.buffer_size (length r.buf))) [
    | inl full ↦ record {
      after = record r { buf = drop 1 r.buf ++ x ∷ []; dropped = (r.dropped + 1) % 2 ^ 64 };
      ok = ground (arith, h.some_room);
      buf =
          sym (drop-append_le 1 r.buf (x ∷ []) (omega (arith, leb→le _ _ full, h.some_room)))
          ∙ drop_eq 1 (excess r.buffer_size (r.buf ++ x ∷ [])) (r.buf ++ x ∷ [])
              (omega (arith, leb→le _ _ full, h.within, length-append r.buf (x ∷ [])));
      dropped = omega (arith, leb→le _ _ full, h.within, length-append r.buf (x ∷ []));
      same_size = refl;
      fits = record {
        within = omega (
          arith,
          h.within,
          h.some_room,
          length-append (drop 1 r.buf) (x ∷ []),
          length-drop 1 r.buf,
        );
        some_room = h.some_room;
        counter = omega arith;
      };
    }
    | inr room ↦ record {
      after = record r { buf = r.buf ++ x ∷ [] };
      ok = ground arith;
      buf =
          drop_none (excess r.buffer_size (r.buf ++ x ∷ [])) (r.buf ++ x ∷ [])
            (ground (arith, length-append r.buf (x ∷ [])));
      dropped = ground (arith, h.counter, length-append r.buf (x ∷ []));
      same_size = refl;
      fits = record {
        within = ground (arith, length-append r.buf (x ∷ []));
        some_room = h.some_room;
        counter = h.counter;
      };
    }
  ]

  -- With a buffer size of zero the first sample panics.
  unsized_panics :
      (x : Metric) (r : MetricsBuffer Metric)
      → r.buffer_size ≡ 0
      → r.buf ≡ []
      → submit_one Metric x r ≡ none
  unfolding submit_one slice_from
  unsized_panics x r unsized empty = rw (submit_one, unsized, empty, slice_from) refl

  submit_nothing : (r : MetricsBuffer Metric) → Fits r → Latest r (r.buf ++ []) (some r)
  submit_nothing r h = rw append-nil (record {
    after = r;
    ok = refl;
    buf = drop_none (excess r.buffer_size r.buf) r.buf (omega (arith, h.within));
    dropped = omega (arith, h.within, h.counter);
    same_size = refl;
    fits = h;
  })

  submit_next :
      (r one : MetricsBuffer Metric) (x : Metric) (xs : List Metric)
      (result : Option (MetricsBuffer Metric))
      → Fits r
      → one.buffer_size ≡ r.buffer_size
      → one.buf ≡ drop (excess r.buffer_size (r.buf ++ x ∷ [])) (r.buf ++ x ∷ [])
      → one.dropped ≡ (r.dropped + excess r.buffer_size (r.buf ++ x ∷ [])) % 2 ^ 64
      → Latest one (one.buf ++ xs) result
      → Latest r (r.buf ++ x ∷ xs) result
  submit_next r one x xs result h size held count rest = record {
    after = rest.after;
    ok = rest.ok;
    buf =
        rest.buf
        ∙ ap (λ ys. drop (excess one.buffer_size (one.buf ++ xs)) ys) all
        ∙ drop-drop (excess one.buffer_size (one.buf ++ xs)) k (r.buf ++ x ∷ xs)
        ∙ ap (λ n. drop n (r.buf ++ x ∷ xs)) total;
    dropped = omega (arith, rest.dropped, count, total);
    same_size = rest.same_size ∙ size;
    fits = rest.fits;
  }
    where
      k : ℕ
      k = excess r.buffer_size (r.buf ++ x ∷ [])

      k_le : k ≤ length (r.buf ++ x ∷ [])
      k_le = omega arith

      all : one.buf ++ xs ≡ drop k (r.buf ++ x ∷ xs)
      all =
          ap (λ ys. ys ++ xs) held
          ∙ sym (drop-append_le k (r.buf ++ x ∷ []) xs k_le)
          ∙ ap (drop k) (append_assoc r.buf (x ∷ []) xs)

      total : k + excess one.buffer_size (one.buf ++ xs) ≡ excess r.buffer_size (r.buf ++ x ∷ xs)
      total = omega (
        arith,
        ap length all,
        length-drop k (r.buf ++ x ∷ xs),
        length-append r.buf (x ∷ []),
        length-append r.buf (x ∷ xs),
        size,
        h.within,
        h.some_room,
      )

  -- With a buffer size that is not zero, and a buffer within it, `Submit` does not panic. It keeps the latest
  -- samples, as many as the buffer's size, in their order, and adds the number of the others to the counter,
  -- modulo 2^64.
  pub submit_metrics-Latest :
      (xs : List Metric) (r : MetricsBuffer Metric)
      → Fits r
      → Latest r (r.buf ++ xs) (submit_metrics Metric xs r)
  unfolding submit_metrics
  submit_metrics-Latest [] r h = submit_nothing r h
  submit_metrics-Latest (x ∷ xs) r h =
      let one = submit_one-Latest x r h in
      rw (one.ok, submit_metrics)
        (submit_next r one.after x xs _ h one.same_size one.buf one.dropped
          (submit_metrics-Latest xs one.after one.fits))
