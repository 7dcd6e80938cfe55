-- ===== src/Connector/Session.antt =====
-- internal/connector/session.go: the registry of sessions. The clock is an argument `now`. A
-- session is known by its epoch: each `register` makes a new object with a new epoch, so that the
-- source's comparison of pointers is a comparison of epochs here.
pub mod Valid
pub mod Fencing
pub mod Reachable
mod Examples
use tom_ai_agent.Base.{
  ltb, ◌==◌, if◌then◌else◌, GoString, lookup, insert, delete, Dict, ℕ, ◌+◌, ◌%◌, ◌^◌, Bool, true,
  false, ◌||◌, Option, none, some, List, [], ◌∷◌,
}

pub record Session : Type 0 where
  pub asset_id : GoString
  pub session_id : GoString
  pub epoch : ℕ
  pub agent_ver : GoString
  pub catalog_ver : GoString
  pub connected_at : ℕ
  pub last_seen : ℕ

-- `fenced` lists the epochs of the sessions whose `fence` channel is closed.
pub record SessionRegistry : Type 0 where
  pub by_asset : Dict Session
  pub epoch_seq : ℕ
  pub fenced : List ℕ

abbrev pub new_session_registry : SessionRegistry
new_session_registry = record { by_asset = []; epoch_seq = 0; fenced = [] }

unfoldable pub is_fenced : ℕ → List ℕ → Bool
is_fenced e [] = false
is_fenced e (f ∷ fs) = f == e || is_fenced e fs

-- close(old.fence): closing a closed channel panics.
unfoldable pub close_fence : ℕ → List ℕ → Option (List ℕ)
close_fence e fs = if is_fenced e fs then none else some (e ∷ fs)

-- What `Register` puts in the map. The counter is a uint64.
unfoldable pub new_session :
    SessionRegistry → GoString → GoString → GoString → GoString → ℕ → Session
new_session r asset_id session_id agent_ver catalog_ver now = record {
  asset_id = asset_id;
  session_id = session_id;
  epoch = (r.epoch_seq + 1) % 2 ^ 64;
  agent_ver = agent_ver;
  catalog_ver = catalog_ver;
  connected_at = now;
  last_seen = now;
}

-- The map and the counter after a session `s` has come in, with the channels `fenced` closed.
unfoldable pub put_session : SessionRegistry → Session → List ℕ → SessionRegistry
put_session r s fenced = record {
  by_asset = insert s.asset_id s r.by_asset;
  epoch_seq = s.epoch;
  fenced = fenced;
}

-- The new session and the one that it replaces; `none` is a panic.
unfoldable pub register :
    SessionRegistry
    → GoString
    → GoString
    → GoString
    → GoString
    → ℕ
    → Option (Session × Option Session × SessionRegistry)
unfolding new_session put_session close_fence
register r asset_id session_id agent_ver catalog_ver now =
    let s = new_session r asset_id session_id agent_ver catalog_ver now in
    elim (lookup asset_id r.by_asset) [
      | none ↦ some (s, none, put_session r s r.fenced)
      | some old ↦ elim (close_fence old.epoch r.fenced) [
        | none ↦ none
        | some closed ↦ some (s, some old, put_session r s closed)
      ]
    ]

unfoldable pub touch : SessionRegistry → GoString → ℕ → ℕ → Bool × SessionRegistry
touch r asset_id epoch now = elim (lookup asset_id r.by_asset) [
  | none ↦ (false, r)
  | some s ↦
      if s.epoch == epoch
      then (true, record r { by_asset = insert asset_id (record s { last_seen = now }) r.by_asset })
      else (false, r)
]

unfoldable pub unregister : SessionRegistry → Session → SessionRegistry
unregister r s = elim (lookup s.asset_id r.by_asset) [
  | none ↦ r
  | some cur ↦
      if cur.epoch == s.epoch then record r { by_asset = delete s.asset_id r.by_asset } else r
]

-- The values of the map, in the order in which it is walked.
unfoldable pub sessions : Dict Session → List Session
sessions [] = []
sessions ((k, s) ∷ m) = s ∷ sessions m

unfoldable pub online : SessionRegistry → List Session
unfolding sessions
online r = sessions r.by_asset

unfoldable pub stale : ℕ → ℕ → Dict Session → List Session
stale timeout now [] = []
stale timeout now ((k, s) ∷ m) =
    if ltb (s.last_seen + timeout) now then s ∷ stale timeout now m else stale timeout now m

unfoldable pub offline_sweep : SessionRegistry → ℕ → ℕ → List Session
unfolding stale
offline_sweep r timeout now = stale timeout now r.by_asset
