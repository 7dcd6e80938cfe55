-- ===== src/Connector/Mailbox/Calls.antt =====
-- The calls of a mailbox as values, so that a run is a list of calls.
use tom_ai_agent.Base.{GoString, Dict, ℕ, List, [], ◌∷◌}
use tom_ai_agent.Base.Int.{ℤ}
use tom_ai_agent.Connector.Mailbox.{
  Mailbox, submit, cancel, next_dispatch, wait_channel, take_signal, complete,
}

pub data MailboxCall : Type 0 where
  submit_call : GoString → GoString → GoString → Dict GoString → ℤ → ℕ → MailboxCall
  cancel_call : GoString → GoString → MailboxCall
  dispatch_call : GoString → ℕ → MailboxCall
  wait_call signal_call : GoString → MailboxCall
  complete_call : GoString → GoString → MailboxCall

unfoldable pub after_call : Mailbox → MailboxCall → Mailbox
unfolding submit cancel next_dispatch
after_call m (submit_call a id action params timeout now) =
    (submit m a id action params timeout now).1
after_call m (cancel_call a id) = (cancel m a id).2
after_call m (dispatch_call a now) = (next_dispatch m a now).2
after_call m (wait_call a) = wait_channel m a
after_call m (signal_call a) = (take_signal m a).1
after_call m (complete_call id result) = complete m id result

unfoldable pub after_calls : Mailbox → List MailboxCall → Mailbox
after_calls m [] = m
after_calls m (c ∷ cs) = after_calls (after_call m c) cs
