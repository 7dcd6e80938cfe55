-- ===== src/Connector/Session/Reachable.antt =====
-- What holds of the registry after any history of calls.
use tom_ai_agent.Base.{GoString, lookup, ℕ, ◌≡◌, sym, ap, ◌∙◌, subst, Option, none, some}
use tom_ai_agent.Connector.Session.{
  Session, SessionRegistry, new_session_registry, new_session, put_session, register, touch,
  unregister,
}
use tom_ai_agent.Connector.Session.Valid.{
  IsValid, HasEpochs, init-IsValid, fenced_after, register_result, register-IsValid, touch-IsValid,
  unregister-IsValid,
}

-- The registries that calls make from an empty one, as long as the counter lasts.
pub data Reach : SessionRegistry → Type 0 where
  start : Reach new_session_registry
  registered :
      {r t : SessionRegistry} {s : Session} {old : Option Session} (a sid av cv : GoString)
      (now : ℕ)
      → Reach r
      → HasEpochs r
      → register r a sid av cv now ≡ some (s, old, t)
      → Reach t
  touched :
      {r t : SessionRegistry} (a : GoString) (e now : ℕ)
      → Reach r
      → t ≡ (touch r a e now).1
      → Reach t
  unregistered : {r t : SessionRegistry} (s : Session) → Reach r → t ≡ unregister r s → Reach t

state_of : SessionRegistry → Option (Session × Option Session × SessionRegistry) → SessionRegistry
state_of r none = r
state_of r (some (s, old, t)) = t

-- After any history of calls within the counter the registry is valid: every current session has an
-- epoch that was given out, an open fence and the asset of its key, no two current sessions share an
-- epoch, and only epochs that were given out are fenced.
pub Reach-IsValid : {r : SessionRegistry} → Reach r → IsValid r
unfolding state_of
Reach-IsValid start = init-IsValid
Reach-IsValid (registered {r} a sid av cv now reach h e) =
    subst IsValid
      (ap (state_of r) (sym (register_result r a sid av cv now (Reach-IsValid reach)) ∙ e))
      (register-IsValid r a sid av cv now (Reach-IsValid reach) h)
Reach-IsValid (touched {r} a e now reach q) = rw q (touch-IsValid r a e now (Reach-IsValid reach))
Reach-IsValid (unregistered {r} s reach q) = rw q (unregister-IsValid r s (Reach-IsValid reach))

-- After any history of calls within the counter, `Register` does not close a channel twice: it
-- returns the next epoch and the session that it replaces, and only that one is fenced by it.
register_never_panics :
    (r : SessionRegistry) (a sid av cv : GoString) (now : ℕ)
    → Reach r
    → let s = new_session r a sid av cv now in
      let old = lookup a r.by_asset in
      register r a sid av cv now ≡ some (s, old, put_session r s (fenced_after r old))
register_never_panics r a sid av cv now reach =
    register_result r a sid av cv now (Reach-IsValid reach)
