-- ===== src/Platform/Commands/Trail.antt =====
-- The events of a command are a gapless account of its states.
use tom_ai_agent.Base.Int.{ℤ}
use tom_ai_agent.Base.{
  if◌then◌else◌, Bool-cases, Option-cases, All, str_eq, GoString, str_eq_iff, lookup, insert, Dict,
  lookup-insert, ℕ, ◌≡◌, refl, sym, ap, ◌∙◌, subst, ◌≢◌, ◌⊎◌, inl, inr, Bool, true, false, Option,
  none, some, List, [], ◌∷◌, ◌++◌,
}
use tom_ai_agent.Platform.Commands.{
  CommandRow, EventRow, Tables, Json, no_rows, any_fails, change_status, submit_command,
  cancel_command, transition, complete_command, fetch_outbox, mark_published, mark_outbox_error,
  insert_outbox, insert_event, update_command,
}
use tom_ai_agent.Platform.Commands.Calls.{
  Call, after_call, after_calls, submit_call, cancel_call, transition_call, complete_call,
  fetch_call, published_call, error_call,
}

-- The events of the command `id` lead from one state to another, each from where the one before it
-- has ended, and each to some state; a command that is not in the table has no state.
abbrev pub Trail : GoString → Option GoString → List EventRow → Option GoString → Type 0
Trail id from [] end = from ≡ end
Trail id from (e ∷ es) end =
    if str_eq e.cmd_id id
    then (e.from_status ≡ from) × (e.to_status ≢ none) × Trail id e.to_status es end
    else Trail id from es end

abbrev pub status_of : Dict CommandRow → GoString → Option GoString
status_of cs id = elim (lookup id cs) [ none ↦ none | some c ↦ some c.status ]

status_found :
    (cs : Dict CommandRow) (id : GoString) (c : CommandRow)
    → lookup id cs ≡ some c
    → some c.status ≡ status_of cs id
status_found cs id c e = rw (status_of, e) refl

status_missing :
    (cs : Dict CommandRow) (id : GoString) → lookup id cs ≡ none → none ≡ status_of cs id
status_missing cs id e = rw (status_of, e) refl

Trail-append :
    (id : GoString) (a b c : Option GoString) (es : List EventRow) (e : EventRow)
    → Trail id a es b
    → Trail id b (e ∷ []) c
    → Trail id a (es ++ e ∷ []) c
Trail-append id a b c [] e h k = subst (λ x. Trail id x (e ∷ []) c) (sym h) k
Trail-append id a b c (d ∷ es) e h k = elim (Bool-cases (str_eq d.cmd_id id)) [
  | inl same ↦
      let h' : (d.from_status ≡ a) × (d.to_status ≢ none) × Trail id d.to_status es b =
        rw same at h in
      rw same (h'.0, h'.1, Trail-append id d.to_status b c es e h'.2 k)
  | inr other ↦ rw other (Trail-append id a b c es e (rw other at h) k)
]

-- A trail that ends in no state has no events.
Trail-quiet :
    (id : GoString) (from : Option GoString) (es : List EventRow)
    → Trail id from es none
    → (from ≡ none) × All (λ e. str_eq e.cmd_id id ≡ false) es
Trail-quiet id from [] h = (h, tt)
Trail-quiet id from (e ∷ es) h = elim (Bool-cases (str_eq e.cmd_id id)) [
  | inl same ↦
      let h' : (e.from_status ≡ from) × (e.to_status ≢ none) × Trail id e.to_status es none =
        rw same at h in
      absurd (h'.1 (Trail-quiet id e.to_status es h'.2).0)
  | inr other ↦ let rest = Trail-quiet id from es (rw other at h) in (rest.0, (other, rest.1))
]

abbrev pub HasTrails : Tables → Type 0
HasTrails db = (id : GoString) → Trail id none db.events (status_of db.commands id)

-- A row and an event that starts at the state of the row before it.
write-HasTrails :
    (db : Tables) (id : GoString) (c : CommandRow) (e : EventRow)
    → e.cmd_id ≡ id
    → e.from_status ≡ status_of db.commands id
    → e.to_status ≡ some c.status
    → HasTrails db
    → HasTrails (insert_event (update_command db id c) e)
unfolding insert_event update_command
write-HasTrails db id c e named from to h k =
    Trail-append k none (status_of db.commands k) _ db.events e (h k)
      (last (Bool-cases (str_eq id k)))
  where
    ends : e.to_status ≢ none
    ends gone = let no : some c.status ≡ none = sym to ∙ gone in cc no

    last :
        (str_eq id k ≡ true) ⊎ (str_eq id k ≡ false)
        → Trail k (status_of db.commands k) (e ∷ []) (status_of (insert id c db.commands) k)
    last (inl same) =
        rw (named, status_of, lookup-insert id k c db.commands, same)
          (from ∙ ap (status_of db.commands) ((str_eq_iff id k).0 same), ends, to)
    last (inr other) = rw (named, status_of, lookup-insert id k c db.commands, other) refl

change_status-HasTrails :
    (fails : ℕ → Bool) (db : Tables) (id : GoString) (update : CommandRow → CommandRow)
    (event : CommandRow → EventRow)
    → ((c : CommandRow) → (event c).cmd_id ≡ id)
    → ((c : CommandRow) → (event c).from_status ≡ some c.status)
    → ((c : CommandRow) → (event c).to_status ≡ some (update c).status)
    → HasTrails db
    → HasTrails (change_status fails db id update event).1
unfolding change_status
change_status-HasTrails fails db id update event named from to h =
    elim (Bool-cases (any_fails 0 2 fails)) [
      | inl failed ↦ rw (change_status, failed) h
      | inr fine ↦ elim (Option-cases (lookup id db.commands)) [
        | inl missing ↦ rw (change_status, fine, missing) h
        | inr (c, found) ↦ elim (Bool-cases (any_fails 2 3 fails)) [
          | inl failed ↦ rw (change_status, fine, found, failed) h
          | inr written ↦
              rw (change_status, fine, found, written)
                (write-HasTrails db id (update c) (event c) (named c)
                  (from c ∙ status_found db.commands id c found) (to c) h)
        ]
      ]
    ]

module _ (j : Json) where
  submit_command-HasTrails :
      (fails : ℕ → Bool) (db : Tables) (id asset action : GoString) (params : Dict GoString) (t : ℤ)
      (ttl now : ℕ)
      → HasTrails db
      → HasTrails (submit_command j fails db id asset action params t ttl now).1
  unfolding submit_command insert_outbox
  submit_command-HasTrails fails db id asset action params t ttl now h =
      elim (Bool-cases (any_fails 0 2 fails)) [
        | inl failed ↦ rw (submit_command, failed) h
        | inr fine ↦ elim (Option-cases (lookup id db.commands)) [
          | inr (c, found) ↦ rw (submit_command, fine, found) h
          | inl missing ↦ elim (Bool-cases (any_fails 2 3 fails)) [
            | inl failed ↦ rw (submit_command, fine, missing, failed) h
            | inr written ↦
                rw (submit_command, fine, missing, written)
                  (write-HasTrails db id _ _ refl (status_missing db.commands id missing) refl h)
          ]
        ]
      ]

  -- The calls on the outbox leave the commands and the events alone.
  after_call-HasTrails : (db : Tables) (c : Call) → HasTrails db → HasTrails (after_call j db c)
  unfolding after_call cancel_command insert_outbox transition complete_command fetch_outbox
      mark_published mark_outbox_error
  after_call-HasTrails db (submit_call f id asset action params t ttl now) h =
      submit_command-HasTrails f db id asset action params t ttl now h
  after_call-HasTrails db (cancel_call true id now) h = h
  after_call-HasTrails db (cancel_call false id now) h = h
  after_call-HasTrails db (transition_call f id kind to actor detail) h =
      change_status-HasTrails f db id _ _ (λ c. refl) (λ c. refl) (λ c. refl) h
  after_call-HasTrails db (complete_call f id to result) h =
      change_status-HasTrails f db id _ _ (λ c. refl) (λ c. refl) (λ c. refl) h
  after_call-HasTrails db (fetch_call true worker limit now) h = h
  after_call-HasTrails db (fetch_call false worker limit now) h = h
  after_call-HasTrails db (published_call true event now) h = h
  after_call-HasTrails db (published_call false event now) h = h
  after_call-HasTrails db (error_call true event msg) h = h
  after_call-HasTrails db (error_call false event msg) h = h

  HasTrails-stays : (db : Tables) (cs : List Call) → HasTrails db → HasTrails (after_calls j db cs)
  unfolding after_calls
  HasTrails-stays db [] h = h
  HasTrails-stays db (c ∷ cs) h =
      HasTrails-stays (after_call j db c) cs (after_call-HasTrails db c h)

  -- After any calls of the store, and with any failures of the database, the events of each command
  -- lead without a gap from no state to the state in its row; a command without a row has no events.
  pub calls-HasTrails :
      (cs : List Call) (id : GoString)
      → let db = after_calls j no_rows cs in
        Trail id none db.events (status_of db.commands id)
        × (lookup id db.commands ≡ none → All (λ e. str_eq e.cmd_id id ≡ false) db.events)
  unfolding lookup
  calls-HasTrails cs id =
      let trails = HasTrails-stays no_rows cs (λ id. refl) id in
      (
        trails,
        λ missing.
            (Trail-quiet id none (after_calls j no_rows cs).events (
              subst (Trail id none (after_calls j no_rows cs).events)
                (sym (status_missing (after_calls j no_rows cs).commands id missing)) trails)).1,
      )
