-- ===== src/Connector/Mailbox/Bound.antt =====
-- No asset ever has more commands that wait or run than the mailbox allows.
use tom_ai_agent.Base.{
  leb, if◌then◌else◌, Bool-cases, Option-cases, All, All-append, str_eq, GoString, str_eq_iff,
  str_eq_refl, lookup, insert, Dict, lookup-insert, ℕ, ◌+◌, ◌≤◌, ◌<◌, ◌≡◌, refl, inl, inr, true,
  false, none, List, [], ◌∷◌, ◌++◌, arith,
}
use tom_ai_agent.Connector.Mailbox.{
  queued, dispatched, terminal, expired, MailboxCommand, Mailbox, Round, new_mailbox, is_pending,
  pending, state_of, dispatch_loop, submit, cancel, next_dispatch, signal_locked, wait_channel,
  take_signal, complete, list_at,
}
use tom_ai_agent.Base.Int.{ℤ}
use tom_ai_agent.Connector.Mailbox.Calls.{
  MailboxCall, submit_call, cancel_call, dispatch_call, wait_call, signal_call, complete_call,
  after_call, after_calls,
}
use tom_ai_agent.Connector.Mailbox.Settling.{
  is_known, Settles, insert-Settles, set_state-Settles, pending-Settles, dispatch_loop-Settles,
  kept-pending, kept-All,
}

-- What holds of a mailbox at any time: each queue stays within the bound, and its ids are known.
pub record IsBounded (m : Mailbox) : Type 0 where
  pub bound : (a : GoString) → pending m.by_id (list_at a m.by_asset) ≤ m.per_asset
  pub known : (a : GoString) → All (λ id. is_known m.by_id id ≡ true) (list_at a m.by_asset)

pub new-IsBounded : (per_asset ttl : ℕ) → IsBounded (new_mailbox per_asset ttl)
unfolding new_mailbox list_at lookup pending
new-IsBounded per_asset ttl = record { bound = λ a. omega arith; known = λ a. tt }

known-Settles :
    (by_id later : Dict MailboxCommand) (q : List GoString)
    → Settles by_id later
    → All (λ id. is_known by_id id ≡ true) q
    → All (λ id. is_known later id ≡ true) q
known-Settles by_id later [] h k = tt
known-Settles by_id later (id ∷ q) h k = (h.kept id k.0, known-Settles by_id later q h k.1)

-- A call that only settles commands keeps the bound.
settled-IsBounded :
    (m : Mailbox) (by_id : Dict MailboxCommand)
    → Settles m.by_id by_id
    → IsBounded m
    → IsBounded (record m { by_id = by_id })
settled-IsBounded m by_id h v = record {
  bound = λ a. omega (arith, v.bound a, pending-Settles m.by_id by_id (list_at a m.by_asset) h);
  known = λ a. known-Settles m.by_id by_id (list_at a m.by_asset) h (v.known a);
}

list_at-insert :
    (k j : GoString) (q : List GoString) (m : Dict (List GoString))
    → list_at j (insert k q m) ≡ (if str_eq k j then q else list_at j m)
unfolding list_at
list_at-insert k j q m = ground (arith, lookup-insert k j q m)

dispatch-IsBounded :
    (m : Mailbox) (a : GoString) (now : ℕ) → IsBounded m → IsBounded (next_dispatch m a now).2
unfolding next_dispatch
dispatch-IsBounded m a now v = record {
  bound = λ b. elim (Bool-cases (str_eq a b)) [
    | inl same ↦
        rw (list_at-insert a b round.kept m.by_asset, same)
          (omega (
            arith,
            v.bound a,
            kept-pending now q m.by_id round.store,
            pending-Settles m.by_id round.store q settles,
          ))
    | inr other ↦ rw (list_at-insert a b round.kept m.by_asset, other) (after.bound b)
  ];
  known = λ b. elim (Bool-cases (str_eq a b)) [
    | inl same ↦
        rw (list_at-insert a b round.kept m.by_asset, same)
          (kept-All (λ id. is_known round.store id ≡ true) now q m.by_id (after.known a))
    | inr other ↦ rw (list_at-insert a b round.kept m.by_asset, other) (after.known b)
  ];
}
  where
    q : List GoString
    q = list_at a m.by_asset

    round : Round
    round = dispatch_loop now q m.by_id

    settles : Settles m.by_id round.store
    settles = dispatch_loop-Settles now q m.by_id

    after : IsBounded (record m { by_id = round.store })
    after = settled-IsBounded m round.store settles v

signal-IsBounded : (m : Mailbox) (a : GoString) → IsBounded m → IsBounded (signal_locked m a)
unfolding signal_locked
signal-IsBounded m a v = elim (Option-cases (lookup a m.notify)) [
  | inl missing ↦ rw (missing, signal_locked) v
  | inr (_, found) ↦ rw (found, signal_locked) (record { bound = v.bound; known = v.known })
]

module _ (by_id : Dict MailboxCommand) (id : GoString) (c : MailboxCommand)
    (fresh : lookup id by_id ≡ none) where
  pending_fresh :
      (q : List GoString)
      → All (λ j. is_known by_id j ≡ true) q
      → pending (insert id c by_id) q ≡ pending by_id q
  unfolding pending state_of is_known
  pending_fresh [] h = refl
  pending_fresh (j ∷ q) h =
      ground (arith, pending_fresh q h.1, lookup-insert id j c by_id, str_eq_iff id j)

  known_fresh :
      (q : List GoString)
      → All (λ j. is_known by_id j ≡ true) q
      → All (λ j. is_known (insert id c by_id) j ≡ true) q
  unfolding is_known
  known_fresh [] h = tt
  known_fresh (j ∷ q) h = (ground (arith, lookup-insert id j c by_id), known_fresh q h.1)

  is_known_new : is_known (insert id c by_id) id ≡ true
  unfolding is_known
  is_known_new = ground (arith, lookup-insert id id c by_id, str_eq_refl id)

pending-snoc :
    (by_id : Dict MailboxCommand) (q : List GoString) (id : GoString)
    → pending by_id (q ++ id ∷ []) ≤ pending by_id q + 1
unfolding pending
pending-snoc by_id [] id = ground arith
pending-snoc by_id (j ∷ q) id = ground (arith, pending-snoc by_id q id)

add-IsBounded :
    (m : Mailbox) (a id : GoString) (c : MailboxCommand)
    → IsBounded m
    → lookup id m.by_id ≡ none
    → pending m.by_id (list_at a m.by_asset) < m.per_asset
    → IsBounded (record m {
      by_asset = insert a (list_at a m.by_asset ++ id ∷ []) m.by_asset;
      by_id = insert id c m.by_id;
    })
add-IsBounded m a id c v fresh room = record {
  bound = λ b. elim (Bool-cases (str_eq a b)) [
    | inl same ↦
        rw (list_at-insert a b (q ++ id ∷ []) m.by_asset, same)
          (omega (
            arith,
            pending-snoc (insert id c m.by_id) q id,
            pending_fresh m.by_id id c fresh q (v.known a),
          ))
    | inr other ↦
        rw (list_at-insert a b (q ++ id ∷ []) m.by_asset, other)
          (omega
            (arith, v.bound b, pending_fresh m.by_id id c fresh (list_at b m.by_asset) (v.known b)))
  ];
  known = λ b. elim (Bool-cases (str_eq a b)) [
    | inl same ↦
        rw (list_at-insert a b (q ++ id ∷ []) m.by_asset, same)
          (All-append (λ j. is_known (insert id c m.by_id) j ≡ true) q (id ∷ [])
            (known_fresh m.by_id id c fresh q (v.known a)) (is_known_new m.by_id id c fresh, tt))
    | inr other ↦
        rw (list_at-insert a b (q ++ id ∷ []) m.by_asset, other)
          (known_fresh m.by_id id c fresh (list_at b m.by_asset) (v.known b))
  ];
}
  where
    q : List GoString
    q = list_at a m.by_asset

submit-IsBounded :
    (m : Mailbox) (a id action : GoString) (params : Dict GoString) (timeout : ℤ) (now : ℕ)
    → IsBounded m
    → IsBounded (submit m a id action params timeout now).1
unfolding submit
submit-IsBounded m a id action params timeout now v = elim (Option-cases (lookup id m.by_id)) [
  | inr (_, dup) ↦ rw (dup, submit) v
  | inl fresh ↦ elim (Bool-cases (leb m.per_asset (pending m.by_id (list_at a m.by_asset)))) [
    | inl full ↦ rw (fresh, submit, full) v
    | inr room ↦
        rw (fresh, submit, room)
          (signal-IsBounded _ a (add-IsBounded m a id _ v fresh (ground arith)))
  ]
]

cancel-IsBounded : (m : Mailbox) (a id : GoString) → IsBounded m → IsBounded (cancel m a id).2
unfolding cancel is_pending
cancel-IsBounded m a id v = elim (Option-cases (state_of m.by_id id)) [
  | inl e ↦ rw (e, cancel) v
  | inr (queued, e) ↦
      rw (e, cancel) (settled-IsBounded m _ (set_state-Settles m.by_id id expired queued e refl) v)
  | inr (dispatched, e) ↦
      rw (e, cancel) (signal-IsBounded _ a (record { bound = v.bound; known = v.known }))
  | inr (terminal, e) ↦ rw (e, cancel) v
  | inr (expired, e) ↦ rw (e, cancel) v
]

complete-IsBounded :
    (m : Mailbox) (id result : GoString) → IsBounded m → IsBounded (complete m id result)
unfolding complete is_pending
complete-IsBounded m id result v = elim (Option-cases (lookup id m.by_id)) [
  | inl missing ↦ rw (missing, complete) v
  | inr (c, found) ↦
      rw (found, complete)
        (settled-IsBounded m _ (insert-Settles m.by_id id c _ found (λ e. absurd (cc e))) v)
]

wait_channel-IsBounded : (m : Mailbox) (a : GoString) → IsBounded m → IsBounded (wait_channel m a)
unfolding wait_channel
wait_channel-IsBounded m a v = elim (Option-cases (lookup a m.notify)) [
  | inl missing ↦ rw (missing, wait_channel) (record { bound = v.bound; known = v.known })
  | inr (_, found) ↦ rw (found, wait_channel) v
]

take_signal-IsBounded : (m : Mailbox) (a : GoString) → IsBounded m → IsBounded (take_signal m a).1
unfolding take_signal
take_signal-IsBounded m a v = elim (Option-cases (lookup a m.notify)) [
  | inl missing ↦ rw (missing, take_signal) v
  | inr (true, found) ↦ rw (found, take_signal) (record { bound = v.bound; known = v.known })
  | inr (false, found) ↦ rw (found, take_signal) v
]

after_call-IsBounded : (m : Mailbox) (c : MailboxCall) → IsBounded m → IsBounded (after_call m c)
unfolding after_call
after_call-IsBounded m (submit_call a id action params timeout now) v =
    submit-IsBounded m a id action params timeout now v
after_call-IsBounded m (cancel_call a id) v = cancel-IsBounded m a id v
after_call-IsBounded m (dispatch_call a now) v = dispatch-IsBounded m a now v
after_call-IsBounded m (wait_call a) v = wait_channel-IsBounded m a v
after_call-IsBounded m (signal_call a) v = take_signal-IsBounded m a v
after_call-IsBounded m (complete_call id result) v = complete-IsBounded m id result v

after_calls-IsBounded :
    (m : Mailbox) (cs : List MailboxCall) → IsBounded m → IsBounded (after_calls m cs)
unfolding after_calls
after_calls-IsBounded m [] v = v
after_calls-IsBounded m (c ∷ cs) v =
    after_calls-IsBounded (after_call m c) cs (after_call-IsBounded m c v)

-- After any calls from an empty mailbox, no asset has more commands that wait or run than the bound
-- allows, and each id of a queue is the id of a command of the store.
pub calls-IsBounded :
    (per_asset ttl : ℕ) (cs : List MailboxCall)
    → IsBounded (after_calls (new_mailbox per_asset ttl) cs)
calls-IsBounded per_asset ttl cs =
    after_calls-IsBounded (new_mailbox per_asset ttl) cs (new-IsBounded per_asset ttl)
