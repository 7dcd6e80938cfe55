-- ===== src/Reporter/Metrics.antt =====
-- internal/reporter/reporter.go: the buffer of metrics, and the batches that are flushed from it. A
-- sample is any value. `none` is a panic.
pub mod Window
pub mod Flush
pub mod Termination
mod Examples
use tom_ai_agent.Base.{
  ltb, leb, if◌then◌else◌, length, take, drop, ℕ, zero, suc, ◌+◌, ◌%◌, ◌^◌, min, Bool, Option, none,
  some, List, [], ◌∷◌, ◌++◌,
}

-- What the fallback log does with a batch that was not sent.
pub data Fallback : Type 0 where
  no_log log_takes log_fails : Fallback

module _ (Metric : Type 0) where
  -- The part of the reporter that `mu` guards, and the sequence number of the last batch.
  pub record MetricsBuffer : Type 0 where
    pub buffer_size : ℕ
    pub batch_size : ℕ
    pub buf : List Metric
    pub seq : ℕ
    pub dropped : ℕ

  -- r.buf[n:], which panics past the end.
  unfoldable pub slice_from : ℕ → List Metric → Option (List Metric)
  slice_from n xs = if leb n (length xs) then some (drop n xs) else none

  -- One round of the loop of `Submit`. The counter is a uint64.
  unfoldable pub submit_one : Metric → MetricsBuffer → Option MetricsBuffer
  unfolding slice_from
  submit_one x r =
      if leb r.buffer_size (length r.buf)
      then elim (slice_from 1 r.buf) [
        | none ↦ none
        | some rest ↦ some (record r { buf = rest ++ x ∷ []; dropped = (r.dropped + 1) % 2 ^ 64 })
      ]
      else some (record r { buf = r.buf ++ x ∷ [] })

  unfoldable pub submit_metrics : List Metric → MetricsBuffer → Option MetricsBuffer
  submit_metrics [] r = some r
  submit_metrics (x ∷ xs) r = elim (submit_one x r) [ none ↦ none | some r' ↦ submit_metrics xs r' ]

  -- The first half of a round of `flushMetrics`, under the lock: the samples that are copied, with
  -- the new sequence number. `none` is the return on an empty buffer.
  unfoldable pub begin_flush : MetricsBuffer → Option (List Metric × MetricsBuffer)
  begin_flush r =
      let n = min r.batch_size (length r.buf) in
      if leb (length r.buf) 0
      then none
      else some (take n r.buf, record r { seq = (r.seq + 1) % 2 ^ 64 })

  -- The second half, under the lock again, once the batch of `n` samples was sent or written to the
  -- fallback log.
  unfoldable pub end_flush : ℕ → MetricsBuffer → Option MetricsBuffer
  unfolding slice_from
  end_flush n r = elim (slice_from n r.buf) [
    | none ↦ none
    | some rest ↦ some (record r { buf = rest })
  ]

  -- What a flush does: the batches that the sink has taken, those that went to the log, those that were
  -- given up, and the buffer.
  pub record FlushRun : Type 0 where
    pub sent : List (List Metric)
    pub logged : List (List Metric)
    pub given_up : List (List Metric)
    pub after : MetricsBuffer

  -- `flushMetrics` with nothing submitted meanwhile: the sink takes the i-th batch if `takes i`. `none` is a
  -- panic, or a loop that goes on after the rounds of the fuel.
  unfoldable pub flush_metrics : ℕ → (ℕ → Bool) → Fallback → ℕ → MetricsBuffer → Option FlushRun
  flush_metrics zero takes log i r = none
  flush_metrics (suc fuel) takes log i r = elim (begin_flush r) [
    | none ↦ some (record { sent = []; logged = []; given_up = []; after = r })
    | some (samples, r') ↦ elim (end_flush (length samples) r') [
      | none ↦ none
      | some r'' ↦
          let rest = flush_metrics fuel takes log (i + 1) r'' in
          if takes i
          then if ltb (length samples) r.batch_size
            then some (record { sent = samples ∷ []; logged = []; given_up = []; after = r'' })
            else (elim rest [ none ↦ none | some f ↦ some (record f { sent = samples ∷ f.sent }) ])
          else elim log [
            | no_log ↦ some (record { sent = []; logged = []; given_up = []; after = r' })
            | log_takes ↦
                some (record { sent = []; logged = samples ∷ []; given_up = []; after = r'' })
            | log_fails ↦
                some (record { sent = []; logged = []; given_up = samples ∷ []; after = r'' })
          ]
    ]
  ]
