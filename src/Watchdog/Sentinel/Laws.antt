-- ===== src/Watchdog/Sentinel/Laws.antt =====
-- The degraded mode follows the limits with hysteresis, and the events tell it.
use tom_ai_agent.Base.{
  if◌then◌else◌, Bool-cases, All, ◌*◌, ◌≤◌, ◌<◌, ◌≡◌, refl, ap, ◌⊎◌, inl, inr, Bool, true, false,
  List, [], ◌∷◌, ◌++◌, arith,
}
use tom_ai_agent.Watchdog.Sentinel.{
  WatchdogConf, AuditEvent, self_terminate, degraded_on, degraded_off, Sentinel, Usage, over_hard,
  over_soft, below_recovery, check_usage, check_all, new_sentinel,
}

-- The mode that a reader of the events is in, who starts in the normal one.
unfoldable pub mode_told : Bool → List AuditEvent → Bool
mode_told b [] = b
mode_told b (self_terminate ∷ es) = mode_told b es
mode_told b (degraded_on ∷ es) = mode_told true es
mode_told b (degraded_off ∷ es) = mode_told false es

-- The collector and the readers of the events are in the sentinel's mode.
pub record InStep (s : Sentinel) : Type 0 where
  pub told : s.target ≡ s.degraded
  pub read : mode_told false s.events ≡ s.degraded

mode_told-append :
    (b : Bool) (es fs : List AuditEvent) → mode_told b (es ++ fs) ≡ mode_told (mode_told b es) fs
unfolding mode_told
mode_told-append b [] fs = refl
mode_told-append b (self_terminate ∷ es) fs = mode_told-append b es fs
mode_told-append b (degraded_on ∷ es) fs = mode_told-append true es fs
mode_told-append b (degraded_off ∷ es) fs = mode_told-append false es fs

check_usage-InStep :
    (cfg : WatchdogConf) (u : Usage) (s : Sentinel) → InStep s → InStep (check_usage cfg u s)
unfolding check_usage mode_told
check_usage-InStep cfg u s h = record {
  told = ground (arith, h.told);
  read = ground (
    arith,
    h.read,
    mode_told-append false s.events (self_terminate ∷ []),
    mode_told-append false s.events (degraded_on ∷ []),
    mode_told-append false s.events (degraded_off ∷ []),
  );
}

either : (b : Bool) (s t : Sentinel) → InStep s → InStep t → InStep (if b then s else t)
either true s t h k = h
either false s t h k = k

check_all-keeps :
    (cfg : WatchdogConf) (us : List Usage) (s : Sentinel) → InStep s → InStep (check_all cfg us s)
unfolding check_all
check_all-keeps cfg [] s h = h
check_all-keeps cfg (u ∷ us) s h =
    either s.exited s (check_all cfg us (check_usage cfg u s)) h
      (check_all-keeps cfg us (check_usage cfg u s) (check_usage-InStep cfg u s h))

-- After any measurements the collector was last told the mode that the sentinel is in, and the audit
-- events, read in order, lead to that mode.
pub check_all-InStep :
    (cfg : WatchdogConf) (us : List Usage) → InStep (check_all cfg us new_sentinel)
unfolding mode_told
check_all-InStep cfg us = check_all-keeps cfg us new_sentinel (record { told = refl; read = refl })

-- Between 80 % of the soft limit of the memory and the soft limit, with the descriptors in their limit.
pub record Steady (cfg : WatchdogConf) (u : Usage) : Type 0 where
  pub above : cfg.rss_soft_mb * 1048576 * 8 ≤ u.rss * 10
  pub below : u.rss < cfg.rss_soft_mb * 1048576
  pub few_fds : (cfg.fd_limit ≡ 0) ⊎ (u.fds < cfg.fd_limit)

Steady-stays :
    (cfg : WatchdogConf) (u : Usage) (s : Sentinel)
    → cfg.rss_soft_mb ≤ cfg.rss_hard_mb
    → Steady cfg u
    → check_usage cfg u s ≡ s
unfolding check_usage over_soft over_hard below_recovery
Steady-stays cfg u s limits h = rw (calm_hard, calm_soft, no_recovery) (ground arith)
  where
    calm_hard : over_hard cfg u ≡ false
    calm_hard = ground (arith, h.below, h.few_fds)

    calm_soft : over_soft cfg u ≡ false
    calm_soft = ground (arith, h.below, h.few_fds)

    no_recovery : below_recovery cfg u ≡ false
    no_recovery = ground (arith, h.above)

-- While the memory stays between 80 % of the soft limit and the soft limit, and the descriptors within
-- their limit, the sentinel does nothing: it does not change the mode and emits nothing. The hard
-- limit must not be below the soft one.
no_flapping :
    (cfg : WatchdogConf) (us : List Usage) (s : Sentinel)
    → cfg.rss_soft_mb ≤ cfg.rss_hard_mb
    → All (Steady cfg) us
    → check_all cfg us s ≡ s
unfolding check_all
no_flapping cfg [] s limits steady = refl
no_flapping cfg (u ∷ us) s limits steady = elim (Bool-cases s.exited) [
  | inl over ↦ ground arith
  | inr runs ↦ ground (
    arith,
    ap (check_all cfg us) (Steady-stays cfg u s limits steady.0),
    no_flapping cfg us s limits steady.1,
  )
]
