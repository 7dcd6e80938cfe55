-- ===== src/Connector/Mailbox/Examples.antt =====
-- Tests of the mailbox, and its theorems at a small one.
use tom_ai_agent.Base.{str_eq, GoString, codes, lookup, insert, ◌≤◌, ◌≡◌, refl, [], ◌∷◌, Any}
use tom_ai_agent.Base.Int.{pos}
use tom_ai_agent.Connector.Mailbox.{
  queued, Mailbox, new_mailbox, list_at, signal_locked, pending, state_of, submit, set_state,
  cancel, is_late, dispatch_loop, next_dispatch,
}
use tom_ai_agent.Connector.Mailbox.Calls.{dispatch_call, cancel_call, submit_call, after_calls}
use tom_ai_agent.Connector.Mailbox.Once.{times, sent_once, cancelled_unsent}
use tom_ai_agent.Connector.Mailbox.Bound.{IsBounded, calls-IsBounded}

abbrev host : GoString
host = codes "host-1"

abbrev id : GoString
id = codes "c-1"

-- One command that waits from time 10 on, for up to 60.
abbrev waiting : Mailbox
waiting = record {
  per_asset = 1;
  ttl = 60;
  by_asset = (host, id ∷ []) ∷ [];
  by_id =
      (
        id,
        record {
          cmd_id = id;
          action = codes "ping";
          params = [];
          timeout_sec = pos 5;
          state = queued;
          queued_at = 10;
          expires_at = 70;
          result = [];
        },
      )
      ∷ [];
  notify = [];
  pending_cancels = [];
}

submitted : (submit (new_mailbox 1 60) host id (codes "ping") [] (pos 5) 10).1 ≡ waiting
unfolding submit signal_locked lookup insert pending list_at new_mailbox
submitted = refl

sent_once_example :
    (times id (next_dispatch waiting host 20).0 ≤ 1)
    × (Any (λ i. i ≡ id) (next_dispatch waiting host 20).0
        → ¬ Any
            (λ i. i ≡ id)
            (next_dispatch
              (after_calls (next_dispatch waiting host 20).2 (cancel_call host id ∷ []))
              host
              30).0)
sent_once_example = sent_once waiting host host 20 30 (cancel_call host id ∷ []) id

sent_at_first : (next_dispatch waiting host 20).0 ≡ id ∷ []
unfolding next_dispatch dispatch_loop list_at lookup state_of is_late set_state str_eq
sent_at_first = refl

cancelled_unsent_example :
    ¬ Any
      (λ i. i ≡ id)
      (next_dispatch
        (after_calls (cancel waiting host id).2 (dispatch_call host 20 ∷ []))
        host
        30).0
unfolding cancel state_of lookup str_eq
cancelled_unsent_example =
    cancelled_unsent waiting host host id 30 (dispatch_call host 20 ∷ []) refl refl

calls-IsBounded_example : IsBounded (
    after_calls (new_mailbox 1 60) (
      submit_call host id (codes "ping") [] (pos 5) 10
      ∷ submit_call host (codes "c-2") (codes "ping") [] (pos 5) 11
      ∷ []))
calls-IsBounded_example = calls-IsBounded 1 60 (
    submit_call host id (codes "ping") [] (pos 5) 10
    ∷ submit_call host (codes "c-2") (codes "ping") [] (pos 5) 11
    ∷ [])
