-- ===== src/Config/Examples.antt =====
-- The defaults meet what the components ask of their configuration.
use tom_ai_agent.Base.Int.{pos}
use tom_ai_agent.Base.{◌≤◌, ◌≡◌, refl, none, arith}
use tom_ai_agent.Config.{default_config, default_reporter, default_watchdog, load, missing, loaded}

zero_config : load (λ text cfg. none) missing ≡ loaded default_config
unfolding load
zero_config = refl

reporter_fits : (default_reporter.batch_size ≡ pos 500) × (default_reporter.buffer_size ≡ pos 10000)
reporter_fits = (refl, refl)

limits_ordered : default_watchdog.rss_soft_mb ≤ default_watchdog.rss_hard_mb
limits_ordered = omega arith
