-- ===== src/Connector/Mailbox/Dispatched.antt =====
-- What a round of `NextDispatch` returns counts as dispatched.
use tom_ai_agent.Base.{
  Bool-cases, Option-cases, str_eq, GoString, str_eq_iff, str_eq_refl, lookup, Dict, lookup-insert,
  ℕ, ◌≡◌, refl, sym, subst, ◌⊎◌, inl, inr, true, false, none, some, List, [], ◌∷◌, Any,
}
use tom_ai_agent.Connector.Mailbox.{
  CommandState, queued, dispatched, terminal, expired, MailboxCommand, Mailbox, is_late, state_of,
  set_state, dispatch_loop, next_dispatch, list_at,
}

set_state_other :
    (id j : GoString) (st : CommandState) (by_id : Dict MailboxCommand)
    → str_eq id j ≡ false
    → lookup j (set_state id st by_id) ≡ lookup j by_id
unfolding set_state
set_state_other id j st by_id other = elim (Option-cases (lookup id by_id)) [
  | inl missing ↦ rw (set_state, missing) refl
  | inr (c, found) ↦ rw (set_state, found, lookup-insert, other) refl
]

-- A command that was sent and is not late.
abbrev IsSent : ℕ → GoString → Dict MailboxCommand → Type 0
IsSent now j by_id = (state_of by_id j ≡ some dispatched) × (is_late by_id j now ≡ false)

set_state-IsSent :
    (now : ℕ) (id j : GoString) (st : CommandState) (by_id : Dict MailboxCommand)
    → str_eq id j ≡ false
    → IsSent now j by_id
    → IsSent now j (set_state id st by_id)
unfolding state_of is_late
set_state-IsSent now id j st by_id other h =
    rw (state_of, is_late, set_state_other id j st by_id other) h

sends-IsSent :
    (now : ℕ) (id : GoString) (by_id : Dict MailboxCommand) (cur : CommandState)
    → state_of by_id id ≡ some cur
    → is_late by_id id now ≡ false
    → IsSent now id (set_state id dispatched by_id)
unfolding state_of is_late set_state
sends-IsSent now id by_id cur known fresh = elim (Option-cases (lookup id by_id)) [
  | inl missing ↦ cc
  | inr (c, found) ↦
      rw (state_of, is_late, set_state, found, lookup-insert, str_eq_refl id)
        (refl, rw (is_late, found) at fresh)
]

loop-IsSent :
    (now : ℕ) (q : List GoString) (by_id : Dict MailboxCommand) (j : GoString)
    → IsSent now j by_id
    → IsSent now j (dispatch_loop now q by_id).store
unfolding dispatch_loop
loop-IsSent now [] by_id j h = h
loop-IsSent now (id ∷ q) by_id j h =
    let keep = loop-IsSent now q by_id j h in
    elim (Bool-cases (str_eq id j)) [
      | inl same ↦
          let at_id : IsSent now id by_id =
            subst (λ k. IsSent now k by_id) (sym ((str_eq_iff id j).0 same)) h in
          rw (dispatch_loop, at_id.0, at_id.1) keep
      | inr other ↦
          let gone =
            loop-IsSent now q (set_state id expired by_id) j
              (set_state-IsSent now id j expired by_id other h) in
          let send =
            loop-IsSent now q (set_state id dispatched by_id) j
              (set_state-IsSent now id j dispatched by_id other h) in
          branches other gone send keep (Option-cases (state_of by_id id))
            (Bool-cases (is_late by_id id now))
    ]
  where
    branches :
        str_eq id j ≡ false
        → IsSent now j (dispatch_loop now q (set_state id expired by_id)).store
        → IsSent now j (dispatch_loop now q (set_state id dispatched by_id)).store
        → IsSent now j (dispatch_loop now q by_id).store
        → (state_of by_id id ≡ none) ⊎ ((st : CommandState) × (state_of by_id id ≡ some st))
        → (is_late by_id id now ≡ true) ⊎ (is_late by_id id now ≡ false)
        → IsSent now j (dispatch_loop now (id ∷ q) by_id).store
    branches other gone send keep (inl e) late = rw (dispatch_loop, e) keep
    branches other gone send keep (inr (queued, e)) (inl l) = rw (dispatch_loop, e, l) gone
    branches other gone send keep (inr (queued, e)) (inr l) = rw (dispatch_loop, e, l) send
    branches other gone send keep (inr (dispatched, e)) (inl l) = rw (dispatch_loop, e, l) gone
    branches other gone send keep (inr (dispatched, e)) (inr l) = rw (dispatch_loop, e, l) keep
    branches other gone send keep (inr (terminal, e)) late = rw (dispatch_loop, e) keep
    branches other gone send keep (inr (expired, e)) late = rw (dispatch_loop, e) keep

-- What a round returns counts as dispatched after it.
loop-dispatched :
    (now : ℕ) (q : List GoString) (by_id : Dict MailboxCommand) (j : GoString)
    → Any (λ i. i ≡ j) (dispatch_loop now q by_id).cmds
    → state_of (dispatch_loop now q by_id).store j ≡ some dispatched
unfolding dispatch_loop
loop-dispatched now [] by_id j found = absurd found
loop-dispatched now (id ∷ q) by_id j found =
    branches (loop-dispatched now q (set_state id expired by_id) j)
      (loop-dispatched now q (set_state id dispatched by_id) j) (loop-dispatched now q by_id j)
      (Option-cases (state_of by_id id)) (Bool-cases (is_late by_id id now))
  where
    Returned : Dict MailboxCommand → Type 0
    Returned m =
        Any (λ i. i ≡ j) (dispatch_loop now q m).cmds
        → state_of (dispatch_loop now q m).store j ≡ some dispatched

    sends :
        Returned (set_state id dispatched by_id)
        → state_of by_id id ≡ some queued
        → is_late by_id id now ≡ false
        → (id ≡ j) ⊎ Any (λ i. i ≡ j) (dispatch_loop now q (set_state id dispatched by_id)).cmds
        → state_of (dispatch_loop now q (set_state id dispatched by_id)).store j ≡ some dispatched
    sends send e l (inr later) = send later
    sends send e l (inl same) =
        (loop-IsSent now q (set_state id dispatched by_id) j (
          subst (λ k. IsSent now k (set_state id dispatched by_id)) same
            (sends-IsSent now id by_id queued e l))).0

    branches :
        Returned (set_state id expired by_id)
        → Returned (set_state id dispatched by_id)
        → Returned by_id
        → (state_of by_id id ≡ none) ⊎ ((st : CommandState) × (state_of by_id id ≡ some st))
        → (is_late by_id id now ≡ true) ⊎ (is_late by_id id now ≡ false)
        → state_of (dispatch_loop now (id ∷ q) by_id).store j ≡ some dispatched
    branches gone send keep (inl e) late =
        rw (dispatch_loop, e) (keep (rw (dispatch_loop, e) at found))
    branches gone send keep (inr (queued, e)) (inl l) =
        rw (dispatch_loop, e, l) (gone (rw (dispatch_loop, e, l) at found))
    branches gone send keep (inr (queued, e)) (inr l) =
        rw (dispatch_loop, e, l) (sends send e l (rw (dispatch_loop, e, l) at found))
    branches gone send keep (inr (dispatched, e)) (inl l) =
        rw (dispatch_loop, e, l) (gone (rw (dispatch_loop, e, l) at found))
    branches gone send keep (inr (dispatched, e)) (inr l) =
        rw (dispatch_loop, e, l) (keep (rw (dispatch_loop, e, l) at found))
    branches gone send keep (inr (terminal, e)) late =
        rw (dispatch_loop, e) (keep (rw (dispatch_loop, e) at found))
    branches gone send keep (inr (expired, e)) late =
        rw (dispatch_loop, e) (keep (rw (dispatch_loop, e) at found))

pub next_dispatch-dispatched :
    (m : Mailbox) (a : GoString) (now : ℕ) (id : GoString)
    → Any (λ i. i ≡ id) (next_dispatch m a now).0
    → state_of (next_dispatch m a now).2.by_id id ≡ some dispatched
unfolding next_dispatch
next_dispatch-dispatched m a now id found =
    loop-dispatched now (list_at a m.by_asset) m.by_id id found
