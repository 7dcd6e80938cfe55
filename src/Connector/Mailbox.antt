-- ===== src/Connector/Mailbox.antt =====
-- internal/connector/mailbox.go: the mailboxes of commands. `by_asset` holds the queues of pointers
-- to commands; a command is known by its id, and `by_id` is the store that both maps point into, so
-- that a state which is written through one map is seen through the other. The clock is `now`.
pub mod Calls
pub mod Known
mod States
mod Settling
pub mod Once
pub mod Dispatched
pub mod Bound
mod Examples
use tom_ai_agent.Base.Int.{ℤ}
use tom_ai_agent.Base.{
  ltb, leb, if◌then◌else◌, GoString, lookup, insert, Dict, ℕ, ◌+◌, Bool, true, false, Option, none,
  some, List, [], ◌∷◌, ◌++◌,
}

pub data CommandState : Type 0 where
  queued dispatched terminal expired : CommandState

pub record MailboxCommand : Type 0 where
  pub cmd_id : GoString
  pub action : GoString
  pub params : Dict GoString
  pub timeout_sec : ℤ
  pub state : CommandState
  pub queued_at : ℕ
  pub expires_at : ℕ
  pub result : GoString

pub data MailboxError : Type 0 where
  mailbox_full dup_cmd_id not_cancellable : MailboxError

-- `notify` holds the signal channels, of capacity one: whether a signal waits in the channel.
pub record Mailbox : Type 0 where
  pub per_asset : ℕ
  pub ttl : ℕ
  pub by_asset : Dict (List GoString)
  pub by_id : Dict MailboxCommand
  pub notify : Dict Bool
  pub pending_cancels : Dict (List GoString)

unfoldable pub new_mailbox : ℕ → ℕ → Mailbox
new_mailbox per_asset ttl = record {
  per_asset = per_asset;
  ttl = ttl;
  by_asset = [];
  by_id = [];
  notify = [];
  pending_cancels = [];
}

-- A missing queue reads as nil.
unfoldable pub list_at : GoString → Dict (List GoString) → List GoString
list_at k m = elim (lookup k m) [ none ↦ [] | some q ↦ q ]

unfoldable pub signal_locked : Mailbox → GoString → Mailbox
signal_locked m asset_id = elim (lookup asset_id m.notify) [
  | none ↦ m
  | some _ ↦ record m { notify = insert asset_id true m.notify }
]

unfoldable pub is_pending : CommandState → Bool
is_pending queued = true
is_pending dispatched = true
is_pending terminal = false
is_pending expired = false

-- The state of the command that a pointer points to.
unfoldable pub state_of : Dict MailboxCommand → GoString → Option CommandState
state_of by_id id = elim (lookup id by_id) [ none ↦ none | some c ↦ some c.state ]

unfoldable pub pending : Dict MailboxCommand → List GoString → ℕ
unfolding is_pending
pending by_id [] = 0
pending by_id (id ∷ q) = elim (state_of by_id id) [
  | none ↦ pending by_id q
  | some st ↦ if is_pending st then pending by_id q + 1 else pending by_id q
]

unfoldable pub submit :
    Mailbox → GoString → GoString → GoString → Dict GoString → ℤ → ℕ → Option MailboxError × Mailbox
unfolding list_at
submit m asset_id cmd_id action params timeout_sec now =
    let q = list_at asset_id m.by_asset in
    let c : MailboxCommand = record {
      cmd_id = cmd_id;
      action = action;
      params = params;
      timeout_sec = timeout_sec;
      state = queued;
      queued_at = now;
      expires_at = now + m.ttl;
      result = [];
    } in
    elim (lookup cmd_id m.by_id) [
      | some _ ↦ (some dup_cmd_id, m)
      | none ↦ if leb m.per_asset (pending m.by_id q) then (some mailbox_full, m) else (
        none,
        signal_locked
            (record m {
              by_asset = insert asset_id (q ++ cmd_id ∷ []) m.by_asset;
              by_id = insert cmd_id c m.by_id;
            })
            asset_id,
      )
    ]

unfoldable pub set_state : GoString → CommandState → Dict MailboxCommand → Dict MailboxCommand
set_state id st by_id = elim (lookup id by_id) [
  | none ↦ by_id
  | some c ↦ insert id (record c { state = st }) by_id
]

-- Whether a cancellation has to be pushed to the agent, and the error.
unfoldable pub cancel : Mailbox → GoString → GoString → Bool × Option MailboxError × Mailbox
unfolding list_at
cancel m asset_id cmd_id =
    let push : Bool × Option MailboxError × Mailbox = (
      true,
      none,
      signal_locked
          (record m {
            pending_cancels =
                insert asset_id (list_at asset_id m.pending_cancels ++ cmd_id ∷ [])
                  m.pending_cancels;
          })
          asset_id,
    ) in
    elim (state_of m.by_id cmd_id) [
      | none ↦ (false, some not_cancellable, m)
      | some terminal ↦ (false, some not_cancellable, m)
      | some expired ↦ (false, some not_cancellable, m)
      | some queued ↦ (false, none, record m { by_id = set_state cmd_id expired m.by_id })
      | some dispatched ↦ push
    ]

-- What the loop of `NextDispatch` gathers: the commands to send, the queue that is kept, and the
-- store with the states written.
pub record Round : Type 0 where
  pub cmds : List GoString
  pub kept : List GoString
  pub store : Dict MailboxCommand

-- now.After(c.ExpiresAt)
unfoldable pub is_late : Dict MailboxCommand → GoString → ℕ → Bool
is_late by_id id now = elim (lookup id by_id) [ none ↦ false | some c ↦ ltb c.expires_at now ]

unfoldable pub dispatch_loop : ℕ → List GoString → Dict MailboxCommand → Round
dispatch_loop now [] by_id = record { cmds = []; kept = []; store = by_id }
dispatch_loop now (id ∷ q) by_id =
    let late = is_late by_id id now in
    let gone : Round = dispatch_loop now q (set_state id expired by_id) in
    let send : Round = dispatch_loop now q (set_state id dispatched by_id) in
    let keep : Round = dispatch_loop now q by_id in
    elim (state_of by_id id) [
      | some queued ↦
          if late then gone else record send { cmds = id ∷ send.cmds; kept = id ∷ send.kept }
      | some dispatched ↦ if late then gone else record keep { kept = id ∷ keep.kept }
      | _ ↦ record keep { kept = id ∷ keep.kept }
    ]

-- The ids of the commands to send and of those to cancel.
unfoldable pub next_dispatch : Mailbox → GoString → ℕ → List GoString × List GoString × Mailbox
unfolding list_at
next_dispatch m asset_id now =
    let r = dispatch_loop now (list_at asset_id m.by_asset) m.by_id in
    (
      r.cmds,
      list_at asset_id m.pending_cancels,
      record m {
        by_asset = insert asset_id r.kept m.by_asset;
        by_id = r.store;
        pending_cancels = insert asset_id [] m.pending_cancels;
      },
    )

-- The start of `Wait`, which makes the channel, and the receipt of a signal.
unfoldable pub wait_channel : Mailbox → GoString → Mailbox
wait_channel m asset_id = elim (lookup asset_id m.notify) [
  | none ↦ record m { notify = insert asset_id false m.notify }
  | some _ ↦ m
]

unfoldable pub take_signal : Mailbox → GoString → Bool × Mailbox
take_signal m asset_id = elim (lookup asset_id m.notify) [
  | some true ↦ (true, record m { notify = insert asset_id false m.notify })
  | _ ↦ (false, m)
]

unfoldable pub complete : Mailbox → GoString → GoString → Mailbox
complete m cmd_id result = elim (lookup cmd_id m.by_id) [
  | none ↦ m
  | some c ↦ record m {
    by_id = insert cmd_id (record c { state = terminal; result = result }) m.by_id;
  }
]

unfoldable pub result_of : Mailbox → GoString → Option MailboxCommand
result_of m cmd_id = lookup cmd_id m.by_id
