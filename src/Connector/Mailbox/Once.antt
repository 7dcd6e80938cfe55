-- ===== src/Connector/Mailbox/Once.antt =====
-- How often a command is sent to the agent.
use tom_ai_agent.Base.{
  if◌then◌else◌, Bool-cases, Option-cases, str_eq, GoString, str_eq_iff, Dict, ℕ, ◌+◌, ◌≤◌, ◌≡◌,
  refl, subst, inl, inr, true, false, none, some, List, [], ◌∷◌, arith, Any,
}
use tom_ai_agent.Connector.Mailbox.{
  queued, dispatched, terminal, expired, MailboxCommand, Mailbox, is_late, state_of, set_state,
  dispatch_loop, cancel, next_dispatch, list_at,
}
use tom_ai_agent.Connector.Mailbox.Calls.{MailboxCall, after_calls}
use tom_ai_agent.Connector.Mailbox.States.{
  is_queued, is_spent, set_state-spent, set_state-spends, dispatch_loop-spent, after_calls-spent,
}

not_spent :
    (by_id : Dict MailboxCommand) (id : GoString)
    → state_of by_id id ≡ some queued
    → is_spent by_id id ≡ true
    → ⊥
unfolding state_of is_spent is_queued
not_spent by_id id q h = ground arith

loop-skips :
    (now : ℕ) (q : List GoString) (by_id : Dict MailboxCommand) (j : GoString)
    → is_spent by_id j ≡ true
    → Any (λ i. i ≡ j) (dispatch_loop now q by_id).cmds
    → ⊥
unfolding dispatch_loop is_queued
loop-skips now [] by_id j h found = found
loop-skips now (id ∷ q) by_id j h found =
    let gone =
      loop-skips now q (set_state id expired by_id) j (set_state-spent by_id id j expired refl h) in
    let send =
      loop-skips now q (set_state id dispatched by_id) j
        (set_state-spent by_id id j dispatched refl h) in
    let keep = loop-skips now q by_id j h in ground (arith, gone, send, keep, not_spent by_id id)

loop-spends :
    (now : ℕ) (q : List GoString) (by_id : Dict MailboxCommand) (j : GoString)
    → Any (λ i. i ≡ j) (dispatch_loop now q by_id).cmds
    → is_spent (dispatch_loop now q by_id).store j ≡ true
unfolding dispatch_loop is_queued
loop-spends now [] by_id j found = absurd found
loop-spends now (id ∷ q) by_id j found =
    let gone = loop-spends now q (set_state id expired by_id) j in
    let send = loop-spends now q (set_state id dispatched by_id) j in
    let keep = loop-spends now q by_id j in
    ground (
      arith,
      gone,
      send,
      keep,
      set_state-spends by_id id dispatched queued refl,
      dispatch_loop-spent now q (set_state id dispatched by_id) id,
    )

-- How often an id is in a round.
unfoldable pub times : GoString → List GoString → ℕ
times id [] = 0
times id (x ∷ xs) = if str_eq x id then times id xs + 1 else times id xs

not_any_times : (id : GoString) (xs : List GoString) → ¬ Any (λ i. i ≡ id) xs → times id xs ≡ 0
unfolding times
not_any_times id [] h = refl
not_any_times id (x ∷ xs) h = elim (Bool-cases (str_eq x id)) [
  | inl same ↦ absurd (h (inl ((str_eq_iff x id).0 same)))
  | inr other ↦ rw (times, other) (not_any_times id xs (λ a. h (inr a)))
]

-- A round that takes `x` as well has `id` at most once, if `id` is not left for the rest once it is taken.
times-cons :
    (id x : GoString) (xs : List GoString)
    → times id xs ≤ 1
    → (x ≡ id → times id xs ≡ 0)
    → times id (x ∷ xs) ≤ 1
unfolding times
times-cons id x xs h gone = elim (Bool-cases (str_eq x id)) [
  | inl same ↦ rw (times, same) (omega (arith, gone ((str_eq_iff x id).0 same)))
  | inr other ↦ rw (times, other) h
]

loop-times :
    (now : ℕ) (q : List GoString) (by_id : Dict MailboxCommand) (j : GoString)
    → times j (dispatch_loop now q by_id).cmds ≤ 1
unfolding dispatch_loop is_queued times
loop-times now [] by_id j = omega arith
loop-times now (id ∷ q) by_id j =
    let gone = loop-times now q (set_state id expired by_id) j in
    let send = loop-times now q (set_state id dispatched by_id) j in
    let keep = loop-times now q by_id j in
    elim (Option-cases (state_of by_id id)) [
      | inl missing ↦ rw (dispatch_loop, missing) keep
      | inr (queued, waits) ↦ elim (Bool-cases (is_late by_id id now)) [
        | inl late ↦ rw (dispatch_loop, waits, late) gone
        | inr fresh ↦
            rw (dispatch_loop, waits, fresh)
              (times-cons j id (dispatch_loop now q (set_state id dispatched by_id)).cmds send
                (after waits))
      ]
      | inr (dispatched, sent) ↦ elim (Bool-cases (is_late by_id id now)) [
        | inl late ↦ rw (dispatch_loop, sent, late) gone
        | inr fresh ↦ rw (dispatch_loop, sent, fresh) keep
      ]
      | inr (terminal, over) ↦ rw (dispatch_loop, over) keep
      | inr (expired, over) ↦ rw (dispatch_loop, over) keep
    ]
  where
    after :
        state_of by_id id ≡ some queued
        → id ≡ j
        → times j (dispatch_loop now q (set_state id dispatched by_id)).cmds ≡ 0
    after waits same = not_any_times j (dispatch_loop now q (set_state id dispatched by_id)).cmds (
        loop-skips now q (set_state id dispatched by_id) j (
          subst (λ k. is_spent (set_state id dispatched by_id) k ≡ true) same
            (set_state-spends by_id id dispatched queued refl waits)))

-- A command is sent to an agent at most once: `NextDispatch` returns an id at most once in a round, and
-- an id that it has returned is never returned again, for the same asset or for another one, whatever
-- calls follow.
pub sent_once :
    (m : Mailbox) (a b : GoString) (now later : ℕ) (cs : List MailboxCall) (id : GoString)
    → (times id (next_dispatch m a now).0 ≤ 1)
      × (Any (λ i. i ≡ id) (next_dispatch m a now).0
          → ¬ Any
              (λ i. i ≡ id)
              (next_dispatch (after_calls (next_dispatch m a now).2 cs) b later).0)
unfolding next_dispatch
sent_once m a b now later cs id =
    let m' = (next_dispatch m a now).2 in
    let m'' = after_calls m' cs in
    (
      loop-times now (list_at a m.by_asset) m.by_id id,
      λ sent again.
          loop-skips later (list_at b m''.by_asset) m''.by_id id
            (after_calls-spent m' cs id (loop-spends now (list_at a m.by_asset) m.by_id id sent))
            again,
    )

cancel-spends :
    (m : Mailbox) (a id : GoString)
    → (cancel m a id).0 ≡ false
    → (cancel m a id).1 ≡ none
    → is_spent (cancel m a id).2.by_id id ≡ true
unfolding cancel is_queued
cancel-spends m a id quiet fine = ground (arith, set_state-spends m.by_id id expired queued refl)

-- A cancellation that needs no push is final: no `NextDispatch` returns the command, whatever calls
-- come between.
pub cancelled_unsent :
    (m : Mailbox) (a b id : GoString) (later : ℕ) (cs : List MailboxCall)
    → (cancel m a id).0 ≡ false
    → (cancel m a id).1 ≡ none
    → ¬ Any (λ i. i ≡ id) (next_dispatch (after_calls (cancel m a id).2 cs) b later).0
unfolding next_dispatch
cancelled_unsent m a b id later cs quiet fine again =
    let m' = after_calls (cancel m a id).2 cs in
    loop-skips later (list_at b m'.by_asset) m'.by_id id
      (after_calls-spent (cancel m a id).2 cs id (cancel-spends m a id quiet fine)) again
