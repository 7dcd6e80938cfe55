-- ===== src/Connector/Dispatch/Examples.antt =====
-- The theorems on the dispatcher at one command.
use tom_ai_agent.Base.Int.{pos}
use tom_ai_agent.Base.{
  ◌==◌, if◌then◌else◌, str_eq, GoString, codes, str_eq_refl, lookup, insert, ℕ, ◌≡◌, refl, Bool,
  false, Option, none, some, [], ◌∷◌,
}
use tom_ai_agent.Connector.Mailbox.{
  Mailbox, dispatched, new_mailbox, submit, cancel, list_at, pending, signal_locked, next_dispatch,
  dispatch_loop, set_state, state_of, is_late,
}
use tom_ai_agent.Connector.Mailbox.Calls.{dispatch_call, after_calls}
use tom_ai_agent.Platform.Commands.{
  Tables, OutboxEntry, Json, Payload, no_rows, transition, change_status, any_fails,
  dispatch_requested, cancel_requested,
}
use tom_ai_agent.Connector.Dispatch.{dispatch_outbox}
use tom_ai_agent.Connector.Dispatch.Redelivery.{redelivered_noop}

abbrev id : GoString
id = codes "c-1"

abbrev host : GoString
host = codes "host-1"

abbrev never : ℕ → Bool
never i = false

abbrev dispatch_of : GoString → Payload
dispatch_of i = record {
  cmd_id = i;
  asset_id = host;
  action = codes "ping";
  params = [];
  timeout_sec = pos 5;
}

-- A codec that tells the two payloads apart by their first byte.
abbrev read : GoString → Option Payload
read [] = none
read (b ∷ i) =
    if b == 0
    then some (dispatch_of i)
    else some (record { cmd_id = i; asset_id = []; action = []; params = []; timeout_sec = pos 0 })

abbrev json : Json
json = record { marshal = λ p. 0 ∷ p.cmd_id; marshal_id = λ i. 1 ∷ i; unmarshal = read }

abbrev wants_dispatch : OutboxEntry
wants_dispatch = record {
  event_id = 1;
  cmd_id = id;
  event_type = dispatch_requested;
  payload = 0 ∷ id;
}

abbrev wants_cancel : OutboxEntry
wants_cancel = record { event_id = 2; cmd_id = id; event_type = cancel_requested; payload = 1 ∷ id }

abbrev with_command : Tables
with_command = record no_rows {
  commands =
      (
        id,
        record {
          cmd_id = id;
          asset_id = host;
          action_id = codes "ping";
          params = [];
          status = codes "QUEUED";
          timeout_sec = pos 5;
          expires_at = 300;
          result_payload = none;
        },
      )
      ∷ [];
}

abbrev running : Mailbox
running =
    (next_dispatch (submit (new_mailbox 1 60) host id (codes "ping") [] (pos 5) 10).1 host 12).2

redelivered_noop_example :
    dispatch_outbox json never with_command
      (after_calls
        (dispatch_outbox json never with_command (new_mailbox 1 60) wants_dispatch 10).2
        (dispatch_call host 12 ∷ []))
      wants_dispatch
      50
    ≡ (
      none,
      with_command,
      after_calls
          (dispatch_outbox json never with_command (new_mailbox 1 60) wants_dispatch 10).2
          (dispatch_call host 12 ∷ []),
    )
redelivered_noop_example =
    redelivered_noop json wants_dispatch (dispatch_of id) refl (str_eq_refl dispatch_requested)
      never never with_command with_command (new_mailbox 1 60) 10 50 (dispatch_call host 12 ∷ [])
      (unfold dispatch_outbox submit transition change_status any_fails new_mailbox lookup str_eq
          list_at pending in
        refl)

-- The entry that asks for the cancellation names no asset, and no cancellation waits for the agent.
cancel_elsewhere :
    list_at host (dispatch_outbox json never with_command running wants_cancel 20).2.pending_cancels
    ≡ []
unfolding dispatch_outbox cancel next_dispatch submit dispatch_loop set_state state_of is_late
    lookup insert str_eq new_mailbox list_at pending signal_locked
cancel_elsewhere = refl

-- The command of that entry runs on the agent.
is_running : state_of running.by_id id ≡ some dispatched
unfolding next_dispatch submit dispatch_loop set_state state_of is_late lookup insert str_eq
    new_mailbox list_at pending signal_locked
is_running = refl
