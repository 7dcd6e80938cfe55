-- ===== src/Connector/Session/Examples.antt =====
-- The theorems on the registry at one in which a session was replaced.
use tom_ai_agent.Base.{str_eq, GoString, codes, lookup, insert, ℕ, ◌≡◌, refl, false, [], ◌∷◌, arith}
use tom_ai_agent.Connector.Session.{
  Session, SessionRegistry, is_fenced, new_session, put_session, close_fence, register, touch,
  unregister,
}
use tom_ai_agent.Connector.Session.Valid.{IsValid}
use tom_ai_agent.Connector.Session.Reachable.{Reach, start, registered, Reach-IsValid}
use tom_ai_agent.Connector.Session.Fencing.{fenced_powerless}

abbrev host : GoString
host = codes "host-1"

abbrev session_of : ℕ → ℕ → Session
session_of epoch now = record {
  asset_id = host;
  session_id = codes "s";
  epoch = epoch;
  agent_ver = codes "1.0";
  catalog_ver = codes "7";
  connected_at = now;
  last_seen = now;
}

abbrev once : SessionRegistry
once = record { by_asset = (host, session_of 1 100) ∷ []; epoch_seq = 1; fenced = [] }

abbrev twice : SessionRegistry
twice = record { by_asset = (host, session_of 2 200) ∷ []; epoch_seq = 2; fenced = 1 ∷ [] }

once-Reach : Reach once
unfolding register new_session put_session lookup insert
once-Reach = registered host (codes "s") (codes "1.0") (codes "7") 100 start (omega arith) refl

twice-Reach : Reach twice
unfolding register new_session put_session lookup insert close_fence is_fenced str_eq
twice-Reach =
    registered host (codes "s") (codes "1.0") (codes "7") 200 once-Reach (omega arith) refl

Reach-IsValid_example : IsValid twice
Reach-IsValid_example = Reach-IsValid twice-Reach

fenced_powerless_example :
    (touch twice host 1 300 ≡ (false, twice)) × (unregister twice (session_of 1 100) ≡ twice)
unfolding is_fenced
fenced_powerless_example = fenced_powerless twice (session_of 1 100) 300 twice-Reach refl
