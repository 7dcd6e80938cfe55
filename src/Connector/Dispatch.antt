-- ===== src/Connector/Dispatch.antt =====
-- cmd/connector/main.go, outboxDispatcher and dispatchOutbox: the entries of the outbox are put into
-- the mailbox of the connector, at least once.
pub mod Redelivery
mod Examples
use tom_ai_agent.Base.{
  if◌then◌else◌, str_eq, GoString, codes, ℕ, Bool, Option, none, some, List, [], ◌∷◌,
}
use tom_ai_agent.Connector.Mailbox.{Mailbox, MailboxError, dup_cmd_id, submit, cancel}
use tom_ai_agent.Platform.Commands.{
  Tables, StoreError, Json, OutboxEntry, dispatch_requested, cancel_requested, transition,
  fetch_outbox, mark_published, mark_outbox_error,
}

pub data DispatchError : Type 0 where
  bad_payload unknown_event : DispatchError
  mailbox_error : MailboxError → DispatchError
  store_error : StoreError → DispatchError

module _ (j : Json) where
  -- `detail` is the JSON text of a nil map.
  unfoldable pub dispatch_outbox :
      (ℕ → Bool) → Tables → Mailbox → OutboxEntry → ℕ → Option DispatchError × Tables × Mailbox
  dispatch_outbox fails db m e now = elim (j.unmarshal e.payload) [
    | none ↦ (some bad_payload, db, m)
    | some p ↦
        let put = submit m p.asset_id p.cmd_id p.action p.params p.timeout_sec now in
        let moved =
          transition fails db p.cmd_id (codes "dispatching") (codes "DISPATCHING")
            (codes "connector") (codes "null") in
        if str_eq e.event_type dispatch_requested
        then elim put.0 [
          | none ↦ elim moved.0 [
            | none ↦ (none, moved.1, put.1)
            | some err ↦ (some (store_error err), moved.1, put.1)
          ]
          | some dup_cmd_id ↦ (none, db, m)
          | some err ↦ (some (mailbox_error err), db, m)
        ]
        else if str_eq e.event_type cancel_requested
        then (none, db, (cancel m p.asset_id p.cmd_id).2)
        else (some unknown_event, db, m)
  ]

  -- `text` is the text of an error. A failure of the mark itself is not looked at.
  unfoldable pub dispatch_entry :
      (DispatchError → GoString)
      → (ℕ → Bool)
      → Bool
      → Tables
      → Mailbox
      → OutboxEntry
      → ℕ
      → Tables × Mailbox
  unfolding dispatch_outbox
  dispatch_entry text fails mark_fails db m e now =
      let (err, db', m') : Option DispatchError × Tables × Mailbox =
        dispatch_outbox fails db m e now in
      elim err [
        | some x ↦ ((mark_outbox_error mark_fails db' e.event_id (text x)).1, m')
        | none ↦ ((mark_published mark_fails db' e.event_id now).1, m')
      ]

  unfoldable pub dispatch_entries :
      (DispatchError → GoString)
      → (ℕ → ℕ → Bool)
      → (ℕ → Bool)
      → Tables
      → Mailbox
      → List OutboxEntry
      → ℕ
      → Tables × Mailbox
  unfolding dispatch_entry
  dispatch_entries text fails mark_fails db m [] now = (db, m)
  dispatch_entries text fails mark_fails db m (e ∷ es) now =
      let (db', m') : Tables × Mailbox =
        dispatch_entry text (fails e.event_id) (mark_fails e.event_id) db m e now in
      dispatch_entries text fails mark_fails db' m' es now

  -- One tick of the dispatcher.
  unfoldable pub outbox_dispatcher :
      (DispatchError → GoString)
      → Bool
      → (ℕ → ℕ → Bool)
      → (ℕ → Bool)
      → Tables
      → Mailbox
      → ℕ
      → Tables × Mailbox
  unfolding dispatch_entries
  outbox_dispatcher text fetch_fails fails mark_fails db m now =
      let (err, entries, db') : Option StoreError × List OutboxEntry × Tables =
        fetch_outbox fetch_fails db (codes "connector-1") 32 now in
      elim err [
        | some _ ↦ (db', m)
        | none ↦ dispatch_entries text fails mark_fails db' m entries now
      ]
