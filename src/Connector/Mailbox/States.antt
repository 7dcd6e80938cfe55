-- ===== src/Connector/Mailbox/States.antt =====
-- How the states of the commands change: a command that was sent never waits again.
use tom_ai_agent.Base.{
  Option-cases, GoString, str_eq_iff, str_eq_refl, lookup, Dict, lookup-insert, ℕ, ◌+◌, ◌≡◌, refl,
  inl, inr, Bool, true, false, not, none, some, List, [], ◌∷◌, arith,
}
use tom_ai_agent.Connector.Mailbox.{
  CommandState, queued, dispatched, terminal, expired, MailboxCommand, Mailbox, state_of, set_state,
  dispatch_loop, submit, cancel, next_dispatch, signal_locked, wait_channel, take_signal, complete,
  list_at,
}
use tom_ai_agent.Base.Int.{ℤ}
use tom_ai_agent.Connector.Mailbox.Calls.{
  MailboxCall, submit_call, cancel_call, dispatch_call, wait_call, signal_call, complete_call,
  after_call, after_calls,
}

unfoldable pub is_queued : CommandState → Bool
is_queued queued = true
is_queued dispatched = false
is_queued terminal = false
is_queued expired = false

-- The id is known, and its command does not wait to be sent.
unfoldable pub is_spent : Dict MailboxCommand → GoString → Bool
unfolding is_queued
is_spent by_id id = elim (lookup id by_id) [ none ↦ false | some c ↦ not (is_queued c.state) ]

pub set_state-spent :
    (by_id : Dict MailboxCommand) (id j : GoString) (st : CommandState)
    → is_queued st ≡ false
    → is_spent by_id j ≡ true
    → is_spent (set_state id st by_id) j ≡ true
unfolding is_spent set_state
set_state-spent by_id id j st h spent = elim (Option-cases (lookup id by_id)) [
  | inl missing ↦ rw (missing, set_state) spent
  | inr (c, found) ↦
      ground (arith, lookup-insert id j (record c { state = st }) by_id, str_eq_iff id j)
]

pub set_state-spends :
    (by_id : Dict MailboxCommand) (id : GoString) (st cur : CommandState)
    → is_queued st ≡ false
    → state_of by_id id ≡ some cur
    → is_spent (set_state id st by_id) id ≡ true
unfolding is_spent set_state state_of
set_state-spends by_id id st cur h known = elim (Option-cases (lookup id by_id)) [
  | inl missing ↦ cc
  | inr (c, found) ↦
      ground (arith, lookup-insert id id (record c { state = st }) by_id, str_eq_refl id)
]

pub dispatch_loop-spent :
    (now : ℕ) (q : List GoString) (by_id : Dict MailboxCommand) (j : GoString)
    → is_spent by_id j ≡ true
    → is_spent (dispatch_loop now q by_id).store j ≡ true
unfolding dispatch_loop is_queued
dispatch_loop-spent now [] by_id j h = h
dispatch_loop-spent now (id ∷ q) by_id j h = ground (
  arith,
  dispatch_loop-spent now q (set_state id expired by_id) j
      (set_state-spent by_id id j expired refl h),
  dispatch_loop-spent now q (set_state id dispatched by_id) j
      (set_state-spent by_id id j dispatched refl h),
  dispatch_loop-spent now q by_id j h,
)

submit-spent :
    (m : Mailbox) (a id action : GoString) (params : Dict GoString) (timeout : ℤ) (now : ℕ)
    (j : GoString)
    → is_spent m.by_id j ≡ true
    → is_spent (submit m a id action params timeout now).1.by_id j ≡ true
unfolding submit signal_locked is_spent
submit-spent m a id action params timeout now j h =
    let c : MailboxCommand = record {
      cmd_id = id;
      action = action;
      params = params;
      timeout_sec = timeout;
      state = queued;
      queued_at = now;
      expires_at = now + m.ttl;
      result = [];
    } in
    ground (arith, lookup-insert id j c m.by_id, str_eq_iff id j)

cancel-spent :
    (m : Mailbox) (a id j : GoString)
    → is_spent m.by_id j ≡ true
    → is_spent (cancel m a id).2.by_id j ≡ true
unfolding cancel signal_locked is_queued
cancel-spent m a id j h = ground (arith, set_state-spent m.by_id id j expired refl h)

complete-spent :
    (m : Mailbox) (id result j : GoString)
    → is_spent m.by_id j ≡ true
    → is_spent (complete m id result).by_id j ≡ true
unfolding complete is_spent is_queued
complete-spent m id result j h = elim (Option-cases (lookup id m.by_id)) [
  | inl missing ↦ rw (missing, complete) h
  | inr (c, found) ↦ ground (
    arith,
    lookup-insert id j (record c { state = terminal; result = result }) m.by_id,
    str_eq_iff id j,
  )
]

after_call-spent :
    (m : Mailbox) (c : MailboxCall) (j : GoString)
    → is_spent m.by_id j ≡ true
    → is_spent (after_call m c).by_id j ≡ true
unfolding after_call next_dispatch wait_channel take_signal
after_call-spent m (submit_call a id action params timeout now) j h =
    submit-spent m a id action params timeout now j h
after_call-spent m (cancel_call a id) j h = cancel-spent m a id j h
after_call-spent m (dispatch_call a now) j h =
    dispatch_loop-spent now (list_at a m.by_asset) m.by_id j h
after_call-spent m (wait_call a) j h = ground arith
after_call-spent m (signal_call a) j h = ground arith
after_call-spent m (complete_call id result) j h = complete-spent m id result j h

pub after_calls-spent :
    (m : Mailbox) (cs : List MailboxCall) (j : GoString)
    → is_spent m.by_id j ≡ true
    → is_spent (after_calls m cs).by_id j ≡ true
unfolding after_calls
after_calls-spent m [] j h = h
after_calls-spent m (c ∷ cs) j h =
    after_calls-spent (after_call m c) cs j (after_call-spent m c j h)
