-- ===== src/Connector/Mailbox/Settling.antt =====
-- Which commands are alive, waiting or running, and the calls that only settle commands.
use tom_ai_agent.Base.{
  Bool-cases, Option-cases, All, GoString, str_eq_iff, lookup, insert, Dict, lookup-insert, ℕ, ◌≤◌,
  ◌≡◌, refl, inl, inr, Bool, true, false, none, some, List, [], ◌∷◌, arith,
}
use tom_ai_agent.Connector.Mailbox.{
  CommandState, queued, dispatched, terminal, expired, MailboxCommand, is_pending, pending,
  state_of, set_state, dispatch_loop, is_late,
}

unfoldable pub is_live : Dict MailboxCommand → GoString → Bool
unfolding is_pending
is_live by_id id = elim (lookup id by_id) [ none ↦ false | some c ↦ is_pending c.state ]

unfoldable pub is_known : Dict MailboxCommand → GoString → Bool
is_known by_id id = elim (lookup id by_id) [ none ↦ false | some c ↦ true ]

-- From the first store to the second no command comes alive, and none is lost.
pub record Settles (by_id later : Dict MailboxCommand) : Type 0 where
  pub calm : (j : GoString) → is_live later j ≡ true → is_live by_id j ≡ true
  pub kept : (j : GoString) → is_known by_id j ≡ true → is_known later j ≡ true

pub Settles-refl : (by_id : Dict MailboxCommand) → Settles by_id by_id
Settles-refl by_id = record { calm = λ j h. h; kept = λ j h. h }

Settles-trans : (a b c : Dict MailboxCommand) → Settles a b → Settles b c → Settles a c
Settles-trans a b c h k = record {
  calm = λ j x. h.calm j (k.calm j x);
  kept = λ j x. k.kept j (h.kept j x);
}

-- A command that is alive may take any state, and any other one a state that is not alive.
pub insert-Settles :
    (by_id : Dict MailboxCommand) (id : GoString) (c d : MailboxCommand)
    → lookup id by_id ≡ some c
    → (is_pending d.state ≡ true → is_pending c.state ≡ true)
    → Settles by_id (insert id d by_id)
unfolding is_live is_known
insert-Settles by_id id c d found calm = record {
  calm = λ j h. ground (arith, lookup-insert id j d by_id, str_eq_iff id j);
  kept = λ j h. ground (arith, lookup-insert id j d by_id);
}

pub set_state-Settles :
    (by_id : Dict MailboxCommand) (id : GoString) (st cur : CommandState)
    → state_of by_id id ≡ some cur
    → is_pending cur ≡ true
    → Settles by_id (set_state id st by_id)
unfolding set_state state_of
set_state-Settles by_id id st cur known live = elim (Option-cases (lookup id by_id)) [
  | inl missing ↦ rw (missing, set_state) (Settles-refl by_id)
  | inr (c, found) ↦
      rw (found, set_state)
        (insert-Settles by_id id c (record c { state = st }) found (λ _. ground arith))
]

pub pending-Settles :
    (by_id later : Dict MailboxCommand) (q : List GoString)
    → Settles by_id later
    → pending later q ≤ pending by_id q
unfolding pending state_of is_live
pending-Settles by_id later [] h = omega arith
pending-Settles by_id later (id ∷ q) h = ground (arith, pending-Settles by_id later q h, h.calm id)

pub dispatch_loop-Settles :
    (now : ℕ) (q : List GoString) (by_id : Dict MailboxCommand)
    → Settles by_id (dispatch_loop now q by_id).store
unfolding dispatch_loop is_pending
dispatch_loop-Settles now [] by_id = Settles-refl by_id
dispatch_loop-Settles now (id ∷ q) by_id =
    let keep = dispatch_loop-Settles now q by_id in
    elim (Option-cases (state_of by_id id)) [
      | inl e ↦ rw (e, dispatch_loop) keep
      | inr (queued, e) ↦ elim (Bool-cases (is_late by_id id now)) [
        | inl late ↦
            rw (e, late, dispatch_loop)
              (changed expired queued e refl
                (dispatch_loop-Settles now q (set_state id expired by_id)))
        | inr fresh ↦
            rw (e, fresh, dispatch_loop)
              (changed dispatched queued e refl
                (dispatch_loop-Settles now q (set_state id dispatched by_id)))
      ]
      | inr (dispatched, e) ↦ elim (Bool-cases (is_late by_id id now)) [
        | inl late ↦
            rw (e, late, dispatch_loop)
              (changed expired dispatched e refl
                (dispatch_loop-Settles now q (set_state id expired by_id)))
        | inr fresh ↦ rw (e, fresh, dispatch_loop) keep
      ]
      | inr (terminal, e) ↦ rw (e, dispatch_loop) keep
      | inr (expired, e) ↦ rw (e, dispatch_loop) keep
    ]
  where
    changed :
        (st cur : CommandState)
        → state_of by_id id ≡ some cur
        → is_pending cur ≡ true
        → Settles (set_state id st by_id) (dispatch_loop now q (set_state id st by_id)).store
        → Settles by_id (dispatch_loop now q (set_state id st by_id)).store
    changed st cur e live rest =
        Settles-trans by_id (set_state id st by_id) _ (set_state-Settles by_id id st cur e live)
          rest

-- The queue that is kept is a part of the queue.
pub kept-pending :
    (now : ℕ) (q : List GoString) (by_id store : Dict MailboxCommand)
    → pending store (dispatch_loop now q by_id).kept ≤ pending store q
unfolding pending dispatch_loop
kept-pending now [] by_id store = omega arith
kept-pending now (id ∷ q) by_id store = ground (
  arith,
  kept-pending now q (set_state id expired by_id) store,
  kept-pending now q (set_state id dispatched by_id) store,
  kept-pending now q by_id store,
)

pub kept-All :
    (P : GoString → Type 0) (now : ℕ) (q : List GoString) (by_id : Dict MailboxCommand)
    → All P q
    → All P (dispatch_loop now q by_id).kept
unfolding dispatch_loop
kept-All P now [] by_id h = tt
kept-All P now (id ∷ q) by_id h = ground (
  arith,
  kept-All P now q (set_state id expired by_id) h.1,
  kept-All P now q (set_state id dispatched by_id) h.1,
  kept-All P now q by_id h.1,
)
