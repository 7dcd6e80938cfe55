-- ===== src/Connector/Dispatch/Redelivery.antt =====
-- An entry of the outbox that comes again changes nothing.
use tom_ai_agent.Base.{
  Option-cases, str_eq, codes, str_eq_refl, insert, lookup-insert, ℕ, ◌≡◌, refl, inl, inr, Bool,
  true, Option, none, some, List,
}
use tom_ai_agent.Connector.Mailbox.{Mailbox, MailboxCommand, mailbox_full, submit}
use tom_ai_agent.Connector.Mailbox.Calls.{MailboxCall, after_calls}
use tom_ai_agent.Connector.Mailbox.Known.{Known, submit-cases, submit_refused, after_calls-Known}
use tom_ai_agent.Platform.Commands.{
  Tables, StoreError, Json, Payload, OutboxEntry, dispatch_requested, transition,
}
use tom_ai_agent.Connector.Dispatch.{mailbox_error, dispatch_outbox}

module _ (j : Json) (e : OutboxEntry) (p : Payload) (read : j.unmarshal e.payload ≡ some p)
    (asks : str_eq e.event_type dispatch_requested ≡ true) where
  -- A dispatch without an error has left the command in the mailbox.
  dispatched-Known :
      (fails : ℕ → Bool) (db : Tables) (m : Mailbox) (now : ℕ)
      → (dispatch_outbox j fails db m e now).0 ≡ none
      → Known p.cmd_id (dispatch_outbox j fails db m e now).2.by_id
  unfolding dispatch_outbox
  dispatched-Known fails db m now fine =
      elim (submit-cases m p.asset_id p.cmd_id p.action p.params p.timeout_sec now) [
        | inl (same, inl full) ↦
            let no : some (mailbox_error mailbox_full) ≡ none =
              rw (dispatch_outbox, read, asks, full) at fine in
            absurd (cc no)
        | inl (same, inr (dup, known)) ↦ rw (dispatch_outbox, read, asks, dup) known
        | inr (put, (c, stored)) ↦ elim (Option-cases moved.0) [
          | inl done ↦ rw (dispatch_outbox, read, asks, put, done) (there c stored)
          | inr (err, failed) ↦ rw (dispatch_outbox, read, asks, put, failed) (there c stored)
        ]
      ]
    where
      moved : Option StoreError × Tables
      moved =
          transition fails db p.cmd_id (codes "dispatching") (codes "DISPATCHING")
            (codes "connector") (codes "null")

      there :
          (c : MailboxCommand)
          → (submit m p.asset_id p.cmd_id p.action p.params p.timeout_sec now).1.by_id
            ≡ insert p.cmd_id c m.by_id
          → Known p.cmd_id
              (submit m p.asset_id p.cmd_id p.action p.params p.timeout_sec now).1.by_id
      there c stored =
          rw (stored, lookup-insert p.cmd_id p.cmd_id c m.by_id, str_eq_refl p.cmd_id) (λ x. cc)

  Known-noop :
      (fails : ℕ → Bool) (db : Tables) (m : Mailbox) (now : ℕ)
      → Known p.cmd_id m.by_id
      → dispatch_outbox j fails db m e now ≡ (none, db, m)
  unfolding dispatch_outbox
  Known-noop fails db m now known =
      rw
        (
          dispatch_outbox,
          read,
          asks,
          submit_refused m p.asset_id p.cmd_id p.action p.params p.timeout_sec now known,
        )
        refl

  -- An entry that requests a dispatch, and was dispatched without an error, may come again, after
  -- whatever calls of the mailbox and of the store: it is dispatched without an error again, and neither
  -- the mailbox nor the tables change.
  pub redelivered_noop :
      (fails fails' : ℕ → Bool) (db db' : Tables) (m : Mailbox) (now later : ℕ)
      (cs : List MailboxCall)
      → (dispatch_outbox j fails db m e now).0 ≡ none
      → let m' = after_calls (dispatch_outbox j fails db m e now).2 cs in
        dispatch_outbox j fails' db' m' e later ≡ (none, db', m')
  redelivered_noop fails fails' db db' m now later cs fine =
      Known-noop fails' db' _ later
        (after_calls-Known _ cs p.cmd_id (dispatched-Known fails db m now fine))
