-- ===== src/Executor/Poller.antt =====
-- internal/executor/poller.go: what a round of the loop does. The answer of the platform is an argument, `none`
-- when the poll fails; `cancel` is Cancel of engine.go, and `cancelled` the commands that it was issued for. Times
-- are in seconds, but for the clock.
pub mod Answers
use tom_ai_agent.Base.Int.{ℤ}
use tom_ai_agent.Base.{
  ltb, if◌then◌else◌, str_eq, GoString, ℕ, ◌+◌, ◌*◌, Bool, false, ◌||◌, Option, none, some, List,
  [], ◌∷◌, ◌++◌,
}
use tom_ai_agent.Authenv.{Ed25519}
use tom_ai_agent.Executor.Engine.{Command, Engine, submit, report_immediate, is_queued}

pub record PollResponse : Type 0 where
  pub commands : List Command
  pub cancels : List GoString

unfoldable pub poll_interval : ℕ
poll_interval = 5

unfoldable pub contains_id : GoString → List GoString → Bool
contains_id id [] = false
contains_id id (x ∷ xs) = str_eq id x || contains_id id xs

module _ (c : Ed25519) where
  pub record Poller : Type 0 where
    pub engine : Engine c
    pub backoff : ℕ
    pub cancelled : List GoString
    pub slept : ℕ

  unfoldable pub new_poller : Engine c → Poller
  unfolding poll_interval
  new_poller e = record { engine = e; backoff = poll_interval; cancelled = []; slept = 0 }

  unfoldable pub cancel : Poller → GoString → Poller
  unfolding contains_id
  cancel p id =
      if contains_id id p.engine.running then record p { cancelled = p.cancelled ++ id ∷ [] } else p

  unfoldable pub cancel_each : Poller → List GoString → Poller
  unfolding cancel
  cancel_each p [] = p
  cancel_each p (id ∷ ids) = cancel_each (cancel p id) ids

  unfoldable pub submit_polled : Engine c → Command → ℤ → Engine c
  unfolding submit report_immediate is_queued
  submit_polled e cmd now =
      let (res, e') = submit c e cmd now in
      if is_queued c res.status then e' else report_immediate c e' res

  unfoldable pub submit_each : Engine c → List Command → ℤ → Engine c
  unfolding submit_polled
  submit_each e [] now = e
  submit_each e (cmd ∷ cmds) now = submit_each (submit_polled e cmd now) cmds now

  -- A round of the loop, with the asset's id, which is empty before the registration.
  unfoldable pub poll_round : Poller → GoString → Option PollResponse → ℤ → Poller
  unfolding cancel_each submit_each poll_interval
  poll_round p [] answer now = record p { slept = p.slept + poll_interval }
  poll_round p (_ ∷ _) none now = record p {
    slept = p.slept + p.backoff;
    backoff = if ltb p.backoff 60 then p.backoff * 2 else p.backoff;
  }
  poll_round p (_ ∷ _) (some answer) now =
      let p' = cancel_each (record p { backoff = poll_interval }) answer.cancels in
      record p' { engine = submit_each p'.engine answer.commands now }
