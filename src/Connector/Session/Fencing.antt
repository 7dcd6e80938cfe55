-- ===== src/Connector/Session/Fencing.antt =====
-- A session that was replaced can do nothing, and which sessions the sweep reports.
use tom_ai_agent.Base.{
  ltb, ◌==◌, ltb→lt, lt→ltb, Bool-cases, Option-cases, All, str_eq, GoString, lookup, Dict, ℕ, ◌+◌,
  ◌<◌, ◌≡◌, sym, subst, ◌↔◌, inl, inr, true, false, some, List, [], ◌∷◌, arith, Any,
}
use tom_ai_agent.Connector.Session.{
  Session, SessionRegistry, is_fenced, touch, unregister, stale, offline_sweep,
}
use tom_ai_agent.Connector.Session.Valid.{fenced_after}
use tom_ai_agent.Connector.Session.Reachable.{Reach, Reach-IsValid}

-- A fenced session can neither touch nor take away the session that has replaced it: both calls
-- leave the registry as it is, and the heartbeat is refused.
pub fenced_powerless :
    (r : SessionRegistry) (s : Session) (now : ℕ)
    → Reach r
    → is_fenced s.epoch r.fenced ≡ true
    → (touch r s.asset_id s.epoch now ≡ (false, r)) × (unregister r s ≡ r)
unfolding touch unregister
fenced_powerless r s now reach fenced = elim (Option-cases (lookup s.asset_id r.by_asset)) [
  | inl missing ↦ (rw (missing, touch), rw (missing, unregister))
  | inr (cur, found) ↦
      (rw (found, touch, differs cur found), rw (found, unregister, differs cur found))
]
  where
    differs :
        (cur : Session) → lookup s.asset_id r.by_asset ≡ some cur → (cur.epoch == s.epoch) ≡ false
    differs cur found = ground (arith, (Reach-IsValid reach).open_fence s.asset_id cur found)

-- A registration fences the session that the asset had, and no other call opens a fence: a fenced
-- session stays fenced.
pub fenced_stays :
    (r : SessionRegistry) (e : ℕ) (a sid av cv : GoString) (now : ℕ)
    → is_fenced e r.fenced ≡ true
    → is_fenced e (fenced_after r (lookup a r.by_asset)) ≡ true
unfolding is_fenced
fenced_stays r e a sid av cv now h = ground arith

sweep_stale :
    (timeout now : ℕ) (m : Dict Session)
    → All (λ s. s.last_seen + timeout < now) (stale timeout now m)
unfolding stale
sweep_stale timeout now [] = tt
sweep_stale timeout now ((k, s) ∷ m) = elim (Bool-cases (ltb (s.last_seen + timeout) now)) [
  | inl old ↦ rw old (ltb→lt _ _ old, sweep_stale timeout now m)
  | inr fresh ↦ rw fresh (sweep_stale timeout now m)
]

sweep_complete :
    (timeout now : ℕ) (m : Dict Session) (a : GoString) (s : Session)
    → lookup a m ≡ some s
    → s.last_seen + timeout < now
    → Any (λ t. t ≡ s) (stale timeout now m)
unfolding stale lookup
sweep_complete timeout now [] a s found old = cc
sweep_complete timeout now ((k, t) ∷ m) a s found old = elim (Bool-cases (str_eq k a)) [
  | inl here ↦
      rw (lt→ltb _ _ (subst (λ x. x.last_seen + timeout < now) (sym (same here)) old))
        (inl (same here))
  | inr there ↦ elim (Bool-cases (ltb (t.last_seen + timeout) now)) [
    | inl e ↦ rw e (inr (sweep_complete timeout now m a s (rw there at found) old))
    | inr e ↦ rw e (sweep_complete timeout now m a s (rw there at found) old)
  ]
]
  where
    same : str_eq k a ≡ true → t ≡ s
    same here = let e : some t ≡ some s = rw here at found in cc

stale_of_found :
    (timeout now : ℕ) (s : Session) (ss : List Session)
    → All (λ t. t.last_seen + timeout < now) ss
    → Any (λ t. t ≡ s) ss
    → s.last_seen + timeout < now
stale_of_found timeout now s [] h found = absurd found
stale_of_found timeout now s (t ∷ ss) h (inl same) =
    subst (λ x. x.last_seen + timeout < now) same h.0
stale_of_found timeout now s (t ∷ ss) h (inr later) = stale_of_found timeout now s ss h.1 later

-- The sweep reports a current session if and only if it was not seen for longer than the timeout.
offline_sweep_exact :
    (r : SessionRegistry) (timeout now : ℕ) (a : GoString) (s : Session)
    → lookup a r.by_asset ≡ some s
    → Any (λ t. t ≡ s) (offline_sweep r timeout now) ↔ (s.last_seen + timeout < now)
unfolding offline_sweep
offline_sweep_exact r timeout now a s found = (
  stale_of_found timeout now s (stale timeout now r.by_asset) (sweep_stale timeout now r.by_asset),
  sweep_complete timeout now r.by_asset a s found,
)
