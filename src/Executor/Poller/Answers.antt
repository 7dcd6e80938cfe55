-- ===== src/Executor/Poller/Answers.antt =====
-- What becomes of the commands that were polled, and how long the loop waits.
use tom_ai_agent.Base.Int.{ℤ}
use tom_ai_agent.Base.{
  ltb, Bool-cases, Option-cases, length, All, Any-append_left, Any-append_last, GoString, ℕ, ◌≤◌,
  ◌<◌, ◌≡◌, refl, ◌∙◌, ◌⊎◌, inl, inr, Option, none, some, List, [], ◌∷◌, arith, Any,
}
use tom_ai_agent.Authenv.{Ed25519}
use tom_ai_agent.Executor.Engine.{
  Command, Engine, unrun, validate, submit, report_immediate, is_queued,
}
use tom_ai_agent.Executor.Poller.{
  PollResponse, Poller, cancel, cancel_each, submit_polled, submit_each, poll_round, poll_interval,
}

module _ (c : Ed25519) where
  -- A command is in the queue, or a result for it is on its way.
  abbrev IsAnswered : Engine c → Command → Type 0
  IsAnswered e cmd = Any (λ q. q ≡ cmd) e.queue ⊎ Any (λ r. r.cmd_id ≡ cmd.cmd_id) e.results

  submit_polled-IsAnswered :
      (e : Engine c) (cmd : Command) (now : ℤ) → IsAnswered (submit_polled c e cmd now) cmd
  unfolding submit_polled submit report_immediate is_queued unrun
  submit_polled-IsAnswered e cmd now = elim (Option-cases (validate c e cmd)) [
    | inr (r, bad) ↦ rw (submit_polled, submit, bad) (inr (Any-append_last _ e.results _ refl))
    | inl good ↦ elim (Bool-cases (ltb (length e.queue) e.queue_size)) [
      | inl room ↦ rw (submit_polled, submit, good, room) (inl (Any-append_last _ e.queue cmd refl))
      | inr full ↦ rw (submit_polled, submit, good, full) (inr (Any-append_last _ e.results _ refl))
    ]
  ]

  -- What was answered stays answered.
  submit_polled-keeps :
      (e : Engine c) (cmd other : Command) (now : ℤ)
      → IsAnswered e other
      → IsAnswered (submit_polled c e cmd now) other
  unfolding submit_polled submit report_immediate is_queued unrun
  submit_polled-keeps e cmd other now h = elim (Option-cases (validate c e cmd)) [
    | inr (r, bad) ↦
        rw (submit_polled, submit, bad)
          (elim h [ inl q ↦ inl q | inr x ↦ inr (Any-append_left _ e.results _ x) ])
    | inl good ↦ elim (Bool-cases (ltb (length e.queue) e.queue_size)) [
      | inl room ↦
          rw (submit_polled, submit, good, room)
            (elim h [ inl q ↦ inl (Any-append_left _ e.queue _ q) | inr x ↦ inr x ])
      | inr full ↦
          rw (submit_polled, submit, good, full)
            (elim h [ inl q ↦ inl q | inr x ↦ inr (Any-append_left _ e.results _ x) ])
    ]
  ]

  submit_each-keeps :
      (e : Engine c) (cmds : List Command) (other : Command) (now : ℤ)
      → IsAnswered e other
      → IsAnswered (submit_each c e cmds now) other
  unfolding submit_each
  submit_each-keeps e [] other now h = h
  submit_each-keeps e (cmd ∷ cmds) other now h =
      submit_each-keeps (submit_polled c e cmd now) cmds other now
        (submit_polled-keeps e cmd other now h)

  submit_each-All :
      (e : Engine c) (cmds : List Command) (now : ℤ)
      → All (IsAnswered (submit_each c e cmds now)) cmds
  unfolding submit_each
  submit_each-All e [] now = tt
  submit_each-All e (cmd ∷ cmds) now = (
    submit_each-keeps (submit_polled c e cmd now) cmds cmd now (submit_polled-IsAnswered e cmd now),
    submit_each-All (submit_polled c e cmd now) cmds now,
  )

  -- Every command of an answer of the platform is in the queue after the round, or has a result that names
  -- it, whether it was accepted, refused or found no room.
  poll_round-IsAnswered :
      (p : Poller c) (first : ℕ) (id : GoString) (answer : PollResponse) (now : ℤ)
      → All (IsAnswered (poll_round c p (first ∷ id) (some answer) now).engine) answer.commands
  unfolding poll_round
  poll_round-IsAnswered p first id answer now = submit_each-All _ answer.commands now

  -- The wait after a failure.
  abbrev IsWait : ℕ → Type 0
  IsWait b = (5 ≤ b) × (b < 120)

  cancel_each-backoff :
      (p : Poller c) (ids : List GoString) → (cancel_each c p ids).backoff ≡ p.backoff
  unfolding cancel_each cancel
  cancel_each-backoff p [] = refl
  cancel_each-backoff p (i ∷ ids) = cancel_each-backoff (cancel c p i) ids ∙ ground arith

  -- From the start on, the wait after a failed poll is never below 5 seconds and never 120 or more.
  poll_round-IsWait :
      (p : Poller c) (id : GoString) (answer : Option PollResponse) (now : ℤ)
      → IsWait p.backoff
      → IsWait (poll_round c p id answer now).backoff
  unfolding poll_round poll_interval
  poll_round-IsWait p [] answer now h = h
  poll_round-IsWait p (_ ∷ _) none now h = (ground arith, ground arith)
  poll_round-IsWait p (_ ∷ _) (some answer) now h =
      rw (cancel_each-backoff (record p { backoff = 5 }) answer.cancels) (omega arith, omega arith)
