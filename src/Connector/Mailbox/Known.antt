-- ===== src/Connector/Mailbox/Known.antt =====
-- A mailbox never forgets a command that was put into it.
use tom_ai_agent.Base.Int.{ℤ}
use tom_ai_agent.Base.{
  leb, Bool-cases, Option-cases, All, str_eq, GoString, lookup, insert, Dict, lookup-insert, ℕ, ◌≡◌,
  refl, sym, subst, ◌≢◌, ◌⊎◌, inl, inr, none, some, List, [], ◌∷◌, arith,
}
use tom_ai_agent.Connector.Mailbox.{
  Mailbox, MailboxCommand, CommandState, is_late, mailbox_full, dup_cmd_id, submit, cancel,
  complete, next_dispatch, wait_channel, take_signal, signal_locked, set_state, state_of,
  dispatch_loop, list_at, pending, queued, dispatched, terminal, expired,
}
use tom_ai_agent.Connector.Mailbox.Calls.{
  MailboxCall, after_call, after_calls, submit_call, cancel_call, dispatch_call, wait_call,
  signal_call, complete_call,
}

-- The mailbox knows the command, in whichever state.
abbrev pub Known : GoString → Dict MailboxCommand → Type 0
Known id by_id = lookup id by_id ≢ none

insert-Known :
    (id k : GoString) (c : MailboxCommand) (m : Dict MailboxCommand)
    → Known id m
    → Known id (insert k c m)
insert-Known id k c m h = elim (Bool-cases (str_eq k id)) [
  | inl same ↦ rw (lookup-insert k id c m, same) (λ x. cc)
  | inr other ↦ rw (lookup-insert k id c m, other) h
]

set_state-Known :
    (id k : GoString) (st : CommandState) (m : Dict MailboxCommand)
    → Known id m
    → Known id (set_state k st m)
unfolding set_state
set_state-Known id k st m h = elim (Option-cases (lookup k m)) [
  | inl missing ↦ rw (set_state, missing) h
  | inr (c, found) ↦ rw (set_state, found) (insert-Known id k (record c { state = st }) m h)
]

dispatch_loop-Known :
    (id : GoString) (now : ℕ) (q : List GoString) (m : Dict MailboxCommand)
    → Known id m
    → Known id (dispatch_loop now q m).store
unfolding dispatch_loop
dispatch_loop-Known id now [] m h = h
dispatch_loop-Known id now (k ∷ q) m h =
    let gone =
      dispatch_loop-Known id now q (set_state k expired m) (set_state-Known id k expired m h) in
    let send =
      dispatch_loop-Known id now q (set_state k dispatched m)
        (set_state-Known id k dispatched m h) in
    let keep = dispatch_loop-Known id now q m h in
    elim (Option-cases (state_of m k)) [
      | inl missing ↦ rw (dispatch_loop, missing) keep
      | inr (terminal, e) ↦ rw (dispatch_loop, e) keep
      | inr (expired, e) ↦ rw (dispatch_loop, e) keep
      | inr (queued, e) ↦ elim (Bool-cases (is_late m k now)) [
        | inl late ↦ rw (dispatch_loop, e, late) gone
        | inr early ↦ rw (dispatch_loop, e, early) send
      ]
      | inr (dispatched, e) ↦ elim (Bool-cases (is_late m k now)) [
        | inl late ↦ rw (dispatch_loop, e, late) gone
        | inr early ↦ rw (dispatch_loop, e, early) keep
      ]
    ]

signal_keeps : (m : Mailbox) (a : GoString) → (signal_locked m a).by_id ≡ m.by_id
unfolding signal_locked
signal_keeps m a = ground arith

pub submit_refused :
    (m : Mailbox) (a id action : GoString) (params : Dict GoString) (t : ℤ) (now : ℕ)
    → Known id m.by_id
    → submit m a id action params t now ≡ (some dup_cmd_id, m)
unfolding submit
submit_refused m a id action params t now h = elim (Option-cases (lookup id m.by_id)) [
  | inl missing ↦ absurd (h missing)
  | inr (c, found) ↦ rw (submit, found) refl
]

-- What a submission does to the commands.
pub submit-cases :
    (m : Mailbox) (a id action : GoString) (params : Dict GoString) (t : ℤ) (now : ℕ)
    → let (err, m') = submit m a id action params t now in
      ((m' ≡ m) × ((err ≡ some mailbox_full) ⊎ ((err ≡ some dup_cmd_id) × Known id m.by_id)))
      ⊎ ((err ≡ none) × ((c : MailboxCommand) × (m'.by_id ≡ insert id c m.by_id)))
unfolding submit
submit-cases m a id action params t now = elim (Option-cases (lookup id m.by_id)) [
  | inr (c, found) ↦ rw (submit, found) (inl (refl, inr (refl, λ x. cc)))
  | inl missing ↦ elim (Bool-cases (leb m.per_asset (pending m.by_id (list_at a m.by_asset)))) [
    | inl full ↦ rw (submit, missing, full) (inl (refl, inl refl))
    | inr room ↦ rw (submit, missing, room) (inr (refl, (_, signal_keeps _ a)))
  ]
]

cancel-Known :
    (m : Mailbox) (a k id : GoString) → Known id m.by_id → Known id (cancel m a k).2.by_id
unfolding cancel
cancel-Known m a k id h = elim (Option-cases (state_of m.by_id k)) [
  | inl missing ↦ rw (cancel, missing) h
  | inr (terminal, e) ↦ rw (cancel, e) h
  | inr (expired, e) ↦ rw (cancel, e) h
  | inr (queued, e) ↦ rw (cancel, e) (set_state-Known id k expired m.by_id h)
  | inr (dispatched, e) ↦ rw (cancel, e, signal_keeps) h
]

after_call-Known :
    (m : Mailbox) (c : MailboxCall) (id : GoString)
    → Known id m.by_id
    → Known id (after_call m c).by_id
unfolding after_call next_dispatch wait_channel take_signal complete
after_call-Known m (submit_call a k action params t now) id h =
    elim (submit-cases m a k action params t now) [
      | inl (same, _) ↦ subst (λ (n : Mailbox). Known id n.by_id) (sym same) h
      | inr (_, (c, put)) ↦ subst (Known id) (sym put) (insert-Known id k c m.by_id h)
    ]
after_call-Known m (cancel_call a k) id h = cancel-Known m a k id h
after_call-Known m (dispatch_call a now) id h =
    dispatch_loop-Known id now (list_at a m.by_asset) m.by_id h
after_call-Known m (wait_call a) id h = ground (arith, h)
after_call-Known m (signal_call a) id h = ground (arith, h)
after_call-Known m (complete_call k result) id h = elim (Option-cases (lookup k m.by_id)) [
  | inl missing ↦ rw (complete, missing) h
  | inr (c, found) ↦ rw (complete, found) (insert-Known id k _ m.by_id h)
]

pub after_calls-Known :
    (m : Mailbox) (cs : List MailboxCall) (id : GoString)
    → Known id m.by_id
    → Known id (after_calls m cs).by_id
unfolding after_calls
after_calls-Known m [] id h = h
after_calls-Known m (c ∷ cs) id h =
    after_calls-Known (after_call m c) cs id (after_call-Known m c id h)

queued-Known :
    (m : Dict MailboxCommand) (k : GoString) (st : CommandState)
    → state_of m k ≡ some st
    → Known k m
unfolding state_of
queued-Known m k st e missing = let gone : none ≡ some st = rw (state_of, missing) at e in cc

-- Each command that a round gathers is there.
dispatch_loop_cmds-Known :
    (now : ℕ) (q : List GoString) (m : Dict MailboxCommand)
    → All (λ i. Known i (dispatch_loop now q m).store) (dispatch_loop now q m).cmds
unfolding dispatch_loop
dispatch_loop_cmds-Known now [] m = tt
dispatch_loop_cmds-Known now (k ∷ q) m =
    let gone = dispatch_loop_cmds-Known now q (set_state k expired m) in
    let send = dispatch_loop_cmds-Known now q (set_state k dispatched m) in
    let keep = dispatch_loop_cmds-Known now q m in
    elim (Option-cases (state_of m k)) [
      | inl missing ↦ rw (dispatch_loop, missing) keep
      | inr (terminal, e) ↦ rw (dispatch_loop, e) keep
      | inr (expired, e) ↦ rw (dispatch_loop, e) keep
      | inr (queued, e) ↦ elim (Bool-cases (is_late m k now)) [
        | inl late ↦ rw (dispatch_loop, e, late) gone
        | inr early ↦
            rw (dispatch_loop, e, early)
              (
                dispatch_loop-Known k now q (set_state k dispatched m)
                    (set_state-Known k k dispatched m (queued-Known m k queued e)),
                send,
              )
      ]
      | inr (dispatched, e) ↦ elim (Bool-cases (is_late m k now)) [
        | inl late ↦ rw (dispatch_loop, e, late) gone
        | inr early ↦ rw (dispatch_loop, e, early) keep
      ]
    ]

pub next_dispatch-Known :
    (m : Mailbox) (a : GoString) (now : ℕ)
    → All (λ i. Known i (next_dispatch m a now).2.by_id) (next_dispatch m a now).0
unfolding next_dispatch
next_dispatch-Known m a now = dispatch_loop_cmds-Known now (list_at a m.by_asset) m.by_id
