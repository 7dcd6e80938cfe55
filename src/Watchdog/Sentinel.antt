-- ===== src/Watchdog/Sentinel.antt =====
-- internal/watchdog/sentinel.go: the check of the agent's own memory and file descriptors. Sizes are
-- whole bytes, and the comparison with 0.8 of the soft limit is written without a fraction.
pub mod Laws
mod Examples
use tom_ai_agent.Base.{
  ltb, leb, if◌then◌else◌, ℕ, ◌*◌, Bool, true, false, not, ◌&&◌, ◌||◌, List, [], ◌∷◌, ◌++◌,
}

-- 0 stands for every `fd_limit` that is not positive.
pub record WatchdogConf : Type 0 where
  pub rss_soft_mb : ℕ
  pub rss_hard_mb : ℕ
  pub fd_limit : ℕ
  pub degraded_mode : Bool

pub data AuditEvent : Type 0 where
  self_terminate degraded_on degraded_off : AuditEvent

-- `target` is what the collector was told last, `events` what was emitted, `exited` whether the
-- process has ended itself.
pub record Sentinel : Type 0 where
  pub degraded : Bool
  pub target : Bool
  pub events : List AuditEvent
  pub exited : Bool

pub record Usage : Type 0 where
  pub rss : ℕ
  pub fds : ℕ

unfoldable pub over_hard : WatchdogConf → Usage → Bool
over_hard cfg u =
    leb (cfg.rss_hard_mb * 1048576) u.rss || (ltb 0 cfg.fd_limit && leb (cfg.fd_limit * 2) u.fds)

unfoldable pub over_soft : WatchdogConf → Usage → Bool
over_soft cfg u =
    leb (cfg.rss_soft_mb * 1048576) u.rss || (ltb 0 cfg.fd_limit && leb cfg.fd_limit u.fds)

unfoldable pub below_recovery : WatchdogConf → Usage → Bool
below_recovery cfg u = ltb (u.rss * 10) (cfg.rss_soft_mb * 1048576 * 8)

unfoldable pub check_usage : WatchdogConf → Usage → Sentinel → Sentinel
unfolding over_hard over_soft below_recovery
check_usage cfg u s =
    if over_hard cfg u
    then record s { events = s.events ++ self_terminate ∷ []; exited = true }
    else if over_soft cfg u
    then (if not s.degraded && cfg.degraded_mode
        then record s { degraded = true; target = true; events = s.events ++ degraded_on ∷ [] }
        else s)
    else if s.degraded && below_recovery cfg u
    then record s { degraded = false; target = false; events = s.events ++ degraded_off ∷ [] }
    else s

-- The checks of the ticker, up to the exit.
unfoldable pub check_all : WatchdogConf → List Usage → Sentinel → Sentinel
check_all cfg [] s = s
check_all cfg (u ∷ us) s = if s.exited then s else check_all cfg us (check_usage cfg u s)

abbrev pub new_sentinel : Sentinel
new_sentinel = record { degraded = false; target = false; events = []; exited = false }
