-- ===== src/Executor/Engine/Timeout.antt =====
-- The bounds of a command's timeout.
use tom_ai_agent.Base.{◌⊎◌, arith}
use tom_ai_agent.Base.Int.{ℤ, pos, ◌<ℤ◌, ◌≤ℤ◌}
use tom_ai_agent.Executor.Engine.{max_timeout_for, effective_timeout}

max_timeout-bounds :
    (configured plugin_to : ℤ)
    → (pos 0 <ℤ max_timeout_for configured plugin_to)
      × ((configured ≤ℤ pos 0) ⊎ (max_timeout_for configured plugin_to ≤ℤ configured))
      × ((plugin_to ≤ℤ pos 0) ⊎ (max_timeout_for configured plugin_to ≤ℤ plugin_to))
unfolding max_timeout_for
max_timeout-bounds configured plugin_to = (ground arith, ground arith, ground arith)

-- Whatever timeout a command asks for, also one that wraps around or is negative, it gets one that is
-- positive, and at most the configured one and at most the action's own one, where these are
-- positive.
pub timeout_bounded :
    (configured plugin_to timeout_sec : ℤ)
    → (pos 0 <ℤ effective_timeout configured plugin_to timeout_sec)
      × ((configured ≤ℤ pos 0) ⊎ (effective_timeout configured plugin_to timeout_sec ≤ℤ configured))
      × ((plugin_to ≤ℤ pos 0) ⊎ (effective_timeout configured plugin_to timeout_sec ≤ℤ plugin_to))
unfolding effective_timeout
timeout_bounded configured plugin_to timeout_sec =
    let b = max_timeout-bounds configured plugin_to in
    (ground (arith, b.0), ground (arith, b.1), ground (arith, b.2))
