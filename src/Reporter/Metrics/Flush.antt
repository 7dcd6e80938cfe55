-- ===== src/Reporter/Metrics/Flush.antt =====
-- A flush, and the samples that come in while its batch is on the way.
use tom_ai_agent.Base.{
  leb, Bool-cases, length, take, drop, length-append, length-take, length-drop, ℕ, ◌+◌, ◌%◌, ◌^◌,
  ◌≤◌, ◌<◌, min, ◌≡◌, refl, sym, ap, ◌∙◌, subst, inl, inr, Option, none, some, List, ◌++◌, arith,
  take-append_le,
}
use tom_ai_agent.Reporter.Metrics.{
  MetricsBuffer, slice_from, submit_metrics, begin_flush, end_flush,
}
use tom_ai_agent.Reporter.Metrics.Window.{drop-drop, Fits, excess, Latest, submit_metrics-Latest}

module _ (Metric : Type 0) where
  -- The first `sent` of the samples `all` were the batch, `lost` ones behind them are gone, and the
  -- buffer holds the others.
  pub record Flushed (all batch : List Metric) (lost : ℕ) (result : Option (MetricsBuffer Metric))
      : Type 0 where
    pub after : MetricsBuffer Metric
    pub ok : result ≡ some after
    pub sent : batch ≡ take (length batch) all
    pub left : after.buf ≡ drop (length batch + lost) all

  -- The batch and the buffer that `flushMetrics` goes on with.
  abbrev batch_of : MetricsBuffer Metric → List Metric
  batch_of r = take (min r.batch_size (length r.buf)) r.buf

  abbrev begun : MetricsBuffer Metric → MetricsBuffer Metric
  begun r = record r { seq = (r.seq + 1) % 2 ^ 64 }

  begin_flush-begun :
      (r : MetricsBuffer Metric)
      → 0 < length r.buf
      → begin_flush Metric r ≡ some (batch_of r, begun r)
  unfolding begin_flush
  begin_flush-begun r h = ground arith

  end_flush-ok :
      (n : ℕ) (r : MetricsBuffer Metric)
      → n ≤ length r.buf
      → end_flush Metric n r ≡ some (record r { buf = drop n r.buf })
  unfolding end_flush slice_from
  end_flush-ok n r h = ground arith

  abbrev end_after : ℕ → Option (MetricsBuffer Metric) → Option (MetricsBuffer Metric)
  end_after n none = none
  end_after n (some r) = end_flush Metric n r

  -- The end of a flush of `n` samples, after the samples `xs` came in.
  abbrev pub flush_after : List Metric → ℕ → MetricsBuffer Metric → Option (MetricsBuffer Metric)
  flush_after xs n mid = end_after n (submit_metrics Metric xs mid)

  begun-Fits : (r : MetricsBuffer Metric) → Fits Metric r → Fits Metric (begun r)
  begun-Fits r h = record { within = h.within; some_room = h.some_room; counter = h.counter }

  flush_begun :
      (r : MetricsBuffer Metric) (xs : List Metric)
      → Fits Metric r
      → Flushed
          (r.buf ++ xs)
          (batch_of r)
          (excess Metric r.buffer_size (r.buf ++ xs))
          (flush_after xs (length (batch_of r)) (begun r))
  flush_begun r xs h =
      rw (held.ok, end_flush-ok n held.after enough)
        (record {
          after = record held.after { buf = drop n held.after.buf };
          ok = refl;
          sent = sent;
          left =
              ap (drop n) held.buf
              ∙ drop-drop n (excess Metric r.buffer_size (r.buf ++ xs)) (r.buf ++ xs)
              ∙ ap (λ k. drop k (r.buf ++ xs)) (commuted);
        })
    where
      n : ℕ
      n = length (batch_of r)

      held : Latest Metric (begun r) (r.buf ++ xs) (submit_metrics Metric xs (begun r))
      held = submit_metrics-Latest Metric xs (begun r) (begun-Fits r h)

      size : n ≡ min r.batch_size (length r.buf)
      size = omega (arith, length-take (min r.batch_size (length r.buf)) r.buf)

      commuted :
          excess Metric r.buffer_size (r.buf ++ xs) + n
          ≡ n + excess Metric r.buffer_size (r.buf ++ xs)
      commuted = omega arith

      enough : n ≤ length held.after.buf
      enough = omega (
        arith,
        size,
        ap length held.buf,
        length-drop (excess Metric r.buffer_size (r.buf ++ xs)) (r.buf ++ xs),
        length-append r.buf xs,
        h.within,
      )

      sent : batch_of r ≡ take n (r.buf ++ xs)
      sent =
          sym (take-append_le (min r.batch_size (length r.buf)) r.buf xs (omega arith))
          ∙ ap (λ k. take k (r.buf ++ xs)) (sym size)

  -- Samples `xs` come in while the batch of a flush is on its way. The flush removes the batch, which
  -- are the first samples, from the buffer. If the samples overflow the buffer by some number, then it
  -- removes that number of samples behind the batch as well, which were never sent; with no overflow
  -- the buffer keeps all samples behind the batch.
  pub flush_gap :
      (r mid : MetricsBuffer Metric) (batch xs : List Metric)
      → Fits Metric r
      → begin_flush Metric r ≡ some (batch, mid)
      → Flushed
          (r.buf ++ xs)
          batch
          (excess Metric r.buffer_size (r.buf ++ xs))
          (flush_after xs (length batch) mid)
  unfolding begin_flush
  flush_gap r mid batch xs h e = elim (Bool-cases (leb (length r.buf) 0)) [
    | inl empty ↦ absurd (cc (sym (rw empty at e)))
    | inr filled ↦
        subst
          (λ (p : List Metric × MetricsBuffer Metric).
            Flushed (r.buf ++ xs) p.0 (excess Metric r.buffer_size (r.buf ++ xs))
              (flush_after xs (length p.0) p.1))
          (same _ _ (rw filled at e)) (flush_begun r xs h)
  ]
    where
      same : (p q : List Metric × MetricsBuffer Metric) → some p ≡ some q → p ≡ q
      same p q e = cc e
