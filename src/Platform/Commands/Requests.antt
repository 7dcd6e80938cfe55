-- ===== src/Platform/Commands/Requests.antt =====
-- The transactional outbox: each command has exactly one request of its dispatch.
use tom_ai_agent.Base.Int.{ℤ}
use tom_ai_agent.Base.{
  ◌==◌, if◌then◌else◌, Bool-cases, Option-cases, str_eq, GoString, str_eq_iff, str_eq_refl, lookup,
  insert, Dict, lookup-insert, ℕ, zero, suc, ◌+◌, ◌≡◌, refl, sym, ◌∙◌, subst, ◌⊎◌, inl, inr, Bool,
  true, false, ◌&&◌, none, some, List, [], ◌∷◌, ◌++◌, arith,
}
use tom_ai_agent.Platform.Commands.{
  CommandRow, EventRow, OutboxRow, Tables, Json, no_rows, any_fails, dispatch_requested,
  cancel_requested, change_status, submit_command, cancel_command, transition, complete_command,
  fetch_outbox, mark_published, mark_outbox_error, insert_outbox, insert_event, update_command,
  claim, update_outbox, is_available,
}
use tom_ai_agent.Platform.Commands.Calls.{
  Call, after_call, after_calls, submit_call, cancel_call, transition_call, complete_call,
  fetch_call, published_call, error_call,
}

abbrev pub asks : GoString → OutboxRow → Bool
asks id r = str_eq r.cmd_id id && str_eq r.event_type dispatch_requested

-- How many rows request the dispatch of the command.
abbrev pub requests : GoString → List OutboxRow → ℕ
requests id [] = 0
requests id (r ∷ rs) = if asks id r then requests id rs + 1 else requests id rs

abbrev pub has_row : GoString → Dict CommandRow → ℕ
has_row id cs = elim (lookup id cs) [ none ↦ 0 | some c ↦ 1 ]

abbrev pub OneRequest : Tables → Type 0
OneRequest db = (id : GoString) → requests id db.outbox ≡ has_row id db.commands

requests-append :
    (id : GoString) (rs : List OutboxRow) (r : OutboxRow)
    → requests id (rs ++ r ∷ []) ≡ requests id rs + requests id (r ∷ [])
requests-append id [] r = omega arith
requests-append id (s ∷ rs) r = ground (arith, requests-append id rs r)

requests-claim :
    (id worker : GoString) (now limit : ℕ) (rs : List OutboxRow)
    → requests id (claim worker now limit rs).1 ≡ requests id rs
unfolding claim
requests-claim id worker now limit [] = refl
requests-claim id worker now zero (r ∷ rs) = refl
requests-claim id worker now (suc limit) (r ∷ rs) = elim (Bool-cases (is_available now r)) [
  | inl taken ↦ rw (claim, taken, requests-claim id worker now limit rs) refl
  | inr kept ↦ rw (claim, kept, requests-claim id worker now (suc limit) rs) refl
]

requests-update_outbox :
    (id : GoString) (event : ℕ) (f : OutboxRow → OutboxRow) (rs : List OutboxRow)
    → ((r : OutboxRow) → asks id (f r) ≡ asks id r)
    → requests id (update_outbox event f rs) ≡ requests id rs
unfolding update_outbox
requests-update_outbox id event f [] same = refl
requests-update_outbox id event f (r ∷ rs) same = elim (Bool-cases (r.event_id == event)) [
  | inl here ↦ rw (update_outbox, here, same r, requests-update_outbox id event f rs same) refl
  | inr other ↦ rw (update_outbox, other, requests-update_outbox id event f rs same) refl
]

has_row-insert :
    (id k : GoString) (c d : CommandRow) (cs : Dict CommandRow)
    → lookup id cs ≡ some c
    → has_row k (insert id d cs) ≡ has_row k cs
has_row-insert id k c d cs found = elim (Bool-cases (str_eq id k)) [
  | inl same ↦
      let there : lookup k cs ≡ some c =
        subst (λ x. lookup x cs ≡ some c) ((str_eq_iff id k).0 same) found in
      rw (has_row, lookup-insert id k d cs, same, there) refl
  | inr other ↦ rw (has_row, lookup-insert id k d cs, other) refl
]

change_status-OneRequest :
    (fails : ℕ → Bool) (db : Tables) (id : GoString) (update : CommandRow → CommandRow)
    (event : CommandRow → EventRow)
    → OneRequest db
    → OneRequest (change_status fails db id update event).1
unfolding change_status insert_event update_command
change_status-OneRequest fails db id update event h k = elim (Bool-cases (any_fails 0 2 fails)) [
  | inl failed ↦ rw (change_status, failed) (h k)
  | inr fine ↦ elim (Option-cases (lookup id db.commands)) [
    | inl missing ↦ rw (change_status, fine, missing) (h k)
    | inr (c, found) ↦ elim (Bool-cases (any_fails 2 3 fails)) [
      | inl failed ↦ rw (change_status, fine, found, failed) (h k)
      | inr written ↦
          rw (change_status, fine, found, written)
            (h k ∙ sym (has_row-insert id k c (update c) db.commands found))
    ]
  ]
]

cancel_other : str_eq cancel_requested dispatch_requested ≡ false
unfolding str_eq
cancel_other = refl

dispatch_same : str_eq dispatch_requested dispatch_requested ≡ true
dispatch_same = str_eq_refl dispatch_requested

module _ (j : Json) where
  submit_command-OneRequest :
      (fails : ℕ → Bool) (db : Tables) (id asset action : GoString) (params : Dict GoString) (t : ℤ)
      (ttl now : ℕ)
      → OneRequest db
      → OneRequest (submit_command j fails db id asset action params t ttl now).1
  unfolding submit_command insert_outbox insert_event update_command
  submit_command-OneRequest fails db id asset action params t ttl now h k =
      elim (Bool-cases (any_fails 0 2 fails)) [
        | inl failed ↦ rw (submit_command, failed) (h k)
        | inr fine ↦ elim (Option-cases (lookup id db.commands)) [
          | inr (c, found) ↦ rw (submit_command, fine, found) (h k)
          | inl missing ↦ elim (Bool-cases (any_fails 2 3 fails)) [
            | inl failed ↦ rw (submit_command, fine, missing, failed) (h k)
            | inr written ↦
                rw (submit_command, fine, missing, written)
                  (requests-append k db.outbox _ ∙ added missing _ (Bool-cases (str_eq id k)))
          ]
        ]
      ]
    where
      added :
          lookup id db.commands ≡ none
          → (c : CommandRow) → (str_eq id k ≡ true) ⊎ (str_eq id k ≡ false)
          → requests k db.outbox
              + (if str_eq id k && str_eq dispatch_requested dispatch_requested then 1 else 0)
            ≡ has_row k (insert id c db.commands)
      added missing c (inl same) =
          let there : has_row k db.commands ≡ 0 =
            rw (← (str_eq_iff id k).0 same, has_row, missing) refl in
          rw (h k, same, dispatch_same, has_row, lookup-insert id k c db.commands, same, there) refl
      added missing c (inr other) =
          rw (other, has_row, lookup-insert id k c db.commands, other) (omega (arith, h k))

  cancel_command-OneRequest :
      (db : Tables) (id : GoString) (now : ℕ)
      → OneRequest db
      → OneRequest (insert_outbox db id cancel_requested (j.marshal_id id) now)
  unfolding insert_outbox
  cancel_command-OneRequest db id now h k =
      requests-append k db.outbox _ ∙ none_more (Bool-cases (str_eq id k))
    where
      none_more :
          (str_eq id k ≡ true) ⊎ (str_eq id k ≡ false)
          → requests k db.outbox
              + (if str_eq id k && str_eq cancel_requested dispatch_requested then 1 else 0)
            ≡ has_row k db.commands
      none_more (inl same) = rw (same, cancel_other) (omega (arith, h k))
      none_more (inr other) = rw other (omega (arith, h k))

  after_call-OneRequest : (db : Tables) (c : Call) → OneRequest db → OneRequest (after_call j db c)
  unfolding after_call cancel_command transition complete_command fetch_outbox mark_published
      mark_outbox_error
  after_call-OneRequest db (submit_call f id asset action params t ttl now) h =
      submit_command-OneRequest f db id asset action params t ttl now h
  after_call-OneRequest db (cancel_call true id now) h = h
  after_call-OneRequest db (cancel_call false id now) h = cancel_command-OneRequest db id now h
  after_call-OneRequest db (transition_call f id kind to actor detail) h =
      change_status-OneRequest f db id _ _ h
  after_call-OneRequest db (complete_call f id to result) h = change_status-OneRequest f db id _ _ h
  after_call-OneRequest db (fetch_call true worker limit now) h = h
  after_call-OneRequest db (fetch_call false worker limit now) h =
      λ k. requests-claim k worker now limit db.outbox ∙ h k
  after_call-OneRequest db (published_call true event now) h = h
  after_call-OneRequest db (published_call false event now) h =
      λ k. requests-update_outbox k event _ db.outbox (λ r. refl) ∙ h k
  after_call-OneRequest db (error_call true event msg) h = h
  after_call-OneRequest db (error_call false event msg) h =
      λ k. requests-update_outbox k event _ db.outbox (λ r. refl) ∙ h k

  OneRequest-stays :
      (db : Tables) (cs : List Call) → OneRequest db → OneRequest (after_calls j db cs)
  unfolding after_calls
  OneRequest-stays db [] h = h
  OneRequest-stays db (c ∷ cs) h =
      OneRequest-stays (after_call j db c) cs (after_call-OneRequest db c h)

  -- After any calls of the store, and with any failures of the database, the outbox has one request
  -- of the dispatch of each command in the table, and none of any other command.
  pub calls-OneRequest :
      (cs : List Call) (id : GoString)
      → let db = after_calls j no_rows cs in requests id db.outbox ≡ has_row id db.commands
  unfolding lookup
  calls-OneRequest cs = OneRequest-stays no_rows cs (λ id. refl)
