-- ===== src/Reporter/Metrics/Examples.antt =====
-- The theorems on the buffer of metrics at a small one.
use tom_ai_agent.Base.{◌==◌, ℕ, ◌≡◌, refl, some, [], ◌∷◌, arith}
use tom_ai_agent.Reporter.Metrics.{
  MetricsBuffer, slice_from, submit_one, submit_metrics, begin_flush, end_flush, FlushRun,
  flush_metrics, log_fails,
}
use tom_ai_agent.Reporter.Metrics.Window.{Fits, excess, Latest, submit_metrics-Latest}
use tom_ai_agent.Reporter.Metrics.Termination.{Accounts, flush_metrics-Accounts}
use tom_ai_agent.Reporter.Metrics.Flush.{Flushed, flush_after, flush_gap}

-- A full buffer of three samples.
abbrev full_buffer : MetricsBuffer ℕ
full_buffer = record { buffer_size = 3; batch_size = 2; buf = 1 ∷ 2 ∷ 3 ∷ []; seq = 7; dropped = 0 }

full_buffer-Fits : Fits ℕ full_buffer
full_buffer-Fits = record { within = omega arith; some_room = omega arith; counter = omega arith }

submit_metrics-Latest_example :
    Latest ℕ full_buffer (1 ∷ 2 ∷ 3 ∷ 4 ∷ []) (submit_metrics ℕ (4 ∷ []) full_buffer)
submit_metrics-Latest_example = submit_metrics-Latest ℕ (4 ∷ []) full_buffer full_buffer-Fits

-- The samples 1 and 2 are sent and 4 comes in: 3 is lost.
sample_lost :
    flush_after ℕ (4 ∷ []) 2 (record full_buffer { seq = 8 })
    ≡ some (record full_buffer { buf = 4 ∷ []; seq = 8; dropped = 1 })
unfolding submit_metrics submit_one slice_from end_flush
sample_lost = refl

flush_gap_example :
    Flushed ℕ
      (1 ∷ 2 ∷ 3 ∷ 4 ∷ [])
      (1 ∷ 2 ∷ [])
      (excess ℕ 3 (1 ∷ 2 ∷ 3 ∷ 4 ∷ []))
      (flush_after ℕ (4 ∷ []) 2 (record full_buffer { seq = 8 }))
unfolding begin_flush
flush_gap_example =
    flush_gap ℕ full_buffer (record full_buffer { seq = 8 }) (1 ∷ 2 ∷ []) (4 ∷ []) full_buffer-Fits
      refl

flush_metrics-Accounts_example :
    (f : FlushRun ℕ) × (flush_metrics ℕ 4 (λ i. i == 0) log_fails 0 full_buffer ≡ some f)
    × Accounts ℕ (λ i. i == 0) log_fails full_buffer f
flush_metrics-Accounts_example =
    flush_metrics-Accounts ℕ 4 (λ i. i == 0) log_fails 0 full_buffer (omega arith) (omega arith)
