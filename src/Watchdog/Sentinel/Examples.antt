-- ===== src/Watchdog/Sentinel/Examples.antt =====
-- Tests of the sentinel, and its theorems at some measurements.
use tom_ai_agent.Base.{ℕ, ◌*◌, ◌≡◌, refl, true, [], ◌∷◌}
use tom_ai_agent.Watchdog.Sentinel.{
  WatchdogConf, degraded_on, degraded_off, Usage, over_hard, over_soft, below_recovery, check_usage,
  check_all, new_sentinel,
}
use tom_ai_agent.Watchdog.Sentinel.Laws.{InStep, check_all-InStep}

abbrev limits : WatchdogConf
limits = record { rss_soft_mb = 100; rss_hard_mb = 200; fd_limit = 50; degraded_mode = true }

abbrev usage_mb : ℕ → Usage
usage_mb mb = record { rss = mb * 1048576; fds = 20 }

up_and_down :
    (check_all limits (usage_mb 110 ∷ usage_mb 90 ∷ usage_mb 70 ∷ []) new_sentinel).events
    ≡ degraded_on ∷ degraded_off ∷ []
unfolding check_all check_usage over_hard over_soft below_recovery
up_and_down = refl

check_all-InStep_example :
    InStep (check_all limits (usage_mb 110 ∷ usage_mb 90 ∷ usage_mb 300 ∷ []) new_sentinel)
check_all-InStep_example = check_all-InStep limits (usage_mb 110 ∷ usage_mb 90 ∷ usage_mb 300 ∷ [])
