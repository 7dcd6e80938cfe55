-- ===== src/Platform/Commands/Claims.antt =====
-- A row of the outbox is handed to one worker at a time.
use tom_ai_agent.Base.Int.{ℤ}
use tom_ai_agent.Base.{
  ◌==◌, ==_iff, Bool-cases, Option-cases, All, All-append, GoString, lookup, Dict, ℕ, ◌+◌, ◌≤◌, ◌<◌,
  ◌≡◌, refl, sym, ap, ◌∙◌, subst, inl, inr, Bool, true, false, none, some, List, [], ◌∷◌, ◌++◌,
  arith, Any,
}
use tom_ai_agent.Platform.Commands.{
  CommandRow, EventRow, OutboxRow, Tables, Json, no_rows, any_fails, change_status, submit_command,
  cancel_command, transition, complete_command, fetch_outbox, mark_published, mark_outbox_error,
  insert_outbox, insert_event, update_command, claim, update_outbox,
}
use tom_ai_agent.Platform.Commands.Calls.{
  Call, after_call, after_calls, submit_call, cancel_call, transition_call, complete_call,
  fetch_call, published_call, error_call,
}
use tom_ai_agent.Platform.Commands.Locks.{
  is_held, Held, ids, Increasing, ids-claim, claim-Held, claim-ids, claimed-Held, claim-unheld,
  Increasing-below,
}

-- The call gives the lock of the row back.
abbrev pub unlocks : ℕ → Call → Bool
unlocks id (error_call f event msg) = event == id
unlocks id _ = false

-- A predicate on the rows of the outbox and on their sequence which the statements keep.
record IsKept (P : List OutboxRow → ℕ → Type 0) (c : Call) : Type 0 where
  inserts :
      (rs : List OutboxRow) (n : ℕ) (r : OutboxRow)
      → r.event_id ≡ n
      → P rs n
      → P (rs ++ r ∷ []) (n + 1)
  claims :
      (rs : List OutboxRow) (n : ℕ) (worker : GoString) (now limit : ℕ)
      → P rs n
      → P (claim worker now limit rs).1 n
  publishes :
      (rs : List OutboxRow) (n event now : ℕ)
      → P rs n
      → P (update_outbox event (λ r. record r { published_at = some now }) rs) n
  unlocked :
      (rs : List OutboxRow) (n event : ℕ) (f : Bool) (msg : GoString)
      → c ≡ error_call f event msg
      → P rs n
      → P
          (update_outbox event
            (λ r. record r { locked_by = none; locked_until = none; last_error = some msg })
            rs)
          n

change_status-keeps :
    (P : List OutboxRow → ℕ → Type 0) (fails : ℕ → Bool) (db : Tables) (id : GoString)
    (update : CommandRow → CommandRow) (event : CommandRow → EventRow)
    → P db.outbox db.next_event_id
    → P
        (change_status fails db id update event).1.outbox
        (change_status fails db id update event).1.next_event_id
unfolding change_status insert_event update_command
change_status-keeps P fails db id update event h = elim (Bool-cases (any_fails 0 2 fails)) [
  | inl failed ↦ rw (change_status, failed) h
  | inr fine ↦ elim (Option-cases (lookup id db.commands)) [
    | inl missing ↦ rw (change_status, fine, missing) h
    | inr (c, found) ↦ elim (Bool-cases (any_fails 2 3 fails)) [
      | inl failed ↦ rw (change_status, fine, found, failed) h
      | inr written ↦ rw (change_status, fine, found, written) h
    ]
  ]
]

module _ (j : Json) (P : List OutboxRow → ℕ → Type 0) where
  submit_command-keeps :
      (fails : ℕ → Bool) (db : Tables) (id asset action : GoString) (params : Dict GoString) (t : ℤ)
      (ttl now : ℕ)
      → ((r : OutboxRow)
          → r.event_id ≡ db.next_event_id
          → P (db.outbox ++ r ∷ []) (db.next_event_id + 1))
      → P db.outbox db.next_event_id
      → P
          (submit_command j fails db id asset action params t ttl now).1.outbox
          (submit_command j fails db id asset action params t ttl now).1.next_event_id
  unfolding submit_command insert_outbox insert_event update_command
  submit_command-keeps fails db id asset action params t ttl now more h =
      elim (Bool-cases (any_fails 0 2 fails)) [
        | inl failed ↦ rw (submit_command, failed) h
        | inr fine ↦ elim (Option-cases (lookup id db.commands)) [
          | inr (c, found) ↦ rw (submit_command, fine, found) h
          | inl missing ↦ elim (Bool-cases (any_fails 2 3 fails)) [
            | inl failed ↦ rw (submit_command, fine, missing, failed) h
            | inr written ↦ rw (submit_command, fine, missing, written) (more _ refl)
          ]
        ]
      ]

  after_call-keeps :
      (db : Tables) (c : Call)
      → IsKept P c
      → P db.outbox db.next_event_id
      → P (after_call j db c).outbox (after_call j db c).next_event_id
  unfolding after_call cancel_command insert_outbox transition complete_command fetch_outbox
      mark_published mark_outbox_error
  after_call-keeps db (submit_call f id asset action params t ttl now) k h =
      submit_command-keeps f db id asset action params t ttl now (λ r e. k.inserts _ _ r e h) h
  after_call-keeps db (cancel_call true id now) k h = h
  after_call-keeps db (cancel_call false id now) k h = k.inserts _ _ _ refl h
  after_call-keeps db (transition_call f id kind to actor detail) k h =
      change_status-keeps P f db id _ _ h
  after_call-keeps db (complete_call f id to result) k h = change_status-keeps P f db id _ _ h
  after_call-keeps db (fetch_call true worker limit now) k h = h
  after_call-keeps db (fetch_call false worker limit now) k h = k.claims _ _ worker now limit h
  after_call-keeps db (published_call true event now) k h = h
  after_call-keeps db (published_call false event now) k h = k.publishes _ _ event now h
  after_call-keeps db (error_call true event msg) k h = h
  after_call-keeps db (error_call false event msg) k h = k.unlocked _ _ event false msg refl h

  after_calls-keeps :
      (db : Tables) (cs : List Call)
      → All (IsKept P) cs
      → P db.outbox db.next_event_id
      → P (after_calls j db cs).outbox (after_calls j db cs).next_event_id
  unfolding after_calls
  after_calls-keeps db [] k h = h
  after_calls-keeps db (c ∷ cs) k h =
      after_calls-keeps (after_call j db c) cs k.1 (after_call-keeps db c k.0 h)

-- The ids of the rows are increasing.
abbrev Numbered : List OutboxRow → ℕ → Type 0
Numbered rs n = Increasing (ids rs) n

ids-append : (rs : List OutboxRow) (r : OutboxRow) → ids (rs ++ r ∷ []) ≡ ids rs ++ r.event_id ∷ []
ids-append [] r = refl
ids-append (s ∷ rs) r = ap (λ is. s.event_id ∷ is) (ids-append rs r)

Increasing-append : (is : List ℕ) (n : ℕ) → Increasing is n → Increasing (is ++ n ∷ []) (n + 1)
Increasing-append [] n h = (omega arith, tt, tt)
Increasing-append (i ∷ is) n h = (
  omega (arith, h.0),
  All-append (λ k. i < k) is (n ∷ []) h.1 (h.0, tt),
  Increasing-append is n h.2,
)

ids-update_outbox :
    (event : ℕ) (f : OutboxRow → OutboxRow) (rs : List OutboxRow)
    → ((r : OutboxRow) → (f r).event_id ≡ r.event_id)
    → ids (update_outbox event f rs) ≡ ids rs
unfolding update_outbox
ids-update_outbox event f [] same = refl
ids-update_outbox event f (r ∷ rs) same = elim (Bool-cases (r.event_id == event)) [
  | inl here ↦ rw (update_outbox, here, same r, ids-update_outbox event f rs same) refl
  | inr other ↦ rw (update_outbox, other, ids-update_outbox event f rs same) refl
]

Numbered-IsKept : (c : Call) → IsKept Numbered c
Numbered-IsKept c = record {
  inserts = λ rs n r e h. rw (ids-append rs r, e) (Increasing-append (ids rs) n h);
  claims = λ rs n worker now limit h. rw (ids-claim worker now limit rs) h;
  publishes = λ rs n event now h.
      subst (λ is. Increasing is n) (sym (ids-update_outbox event _ rs (λ r. refl))) h;
  unlocked = λ rs n event f msg e h.
      subst (λ is. Increasing is n) (sym (ids-update_outbox event _ rs (λ r. refl))) h;
}

-- The row `id` is there already, and held until `t`.
abbrev Reserved : ℕ → ℕ → List OutboxRow → ℕ → Type 0
Reserved t id rs n = Held t id rs × (id < n)

update_outbox-Held :
    (t id event : ℕ) (f : OutboxRow → OutboxRow) (rs : List OutboxRow)
    → ((r : OutboxRow) → r.event_id ≡ event → (f r).event_id ≡ id → is_held t (f r) ≡ true)
    → Held t id rs
    → Held t id (update_outbox event f rs)
unfolding update_outbox
update_outbox-Held t id event f [] new h = tt
update_outbox-Held t id event f (r ∷ rs) new h = elim (Bool-cases (r.event_id == event)) [
  | inl here ↦
      rw (update_outbox, here)
        (new r ((==_iff r.event_id event).0 here), update_outbox-Held t id event f rs new h.1)
  | inr other ↦ rw (update_outbox, other) (h.0, update_outbox-Held t id event f rs new h.1)
]

Reserved-IsKept : (t id : ℕ) (c : Call) → unlocks id c ≡ false → IsKept (Reserved t id) c
Reserved-IsKept t id c stays = record {
  inserts = λ rs n r e h. (
    All-append _ rs (r ∷ []) h.0 (λ same. absurd (omega (arith, h.1, e, same)), tt),
    omega (arith, h.1),
  );
  claims = λ rs n worker now limit h. (claim-Held worker t now limit id rs h.0, h.1);
  publishes = λ rs n event now h. (update_outbox-Held t id event _ rs (λ r e i. refl) h.0, h.1);
  unlocked = λ rs n event f msg e h. (
    update_outbox-Held t id event _ rs (λ r at i. absurd (other event f msg e (sym at ∙ i))) h.0,
    h.1,
  );
}
  where
    other : (event : ℕ) (f : Bool) (msg : GoString) → c ≡ error_call f event msg → ¬ (event ≡ id)
    other event f msg e same =
        let no : (event == id) ≡ false = subst (λ d. unlocks id d ≡ false) e stays in
        ground (arith, no, same)

Reserved-IsKept-All :
    (t id : ℕ) (cs : List Call)
    → All (λ c. unlocks id c ≡ false) cs
    → All (IsKept (Reserved t id)) cs
Reserved-IsKept-All t id [] h = tt
Reserved-IsKept-All t id (c ∷ cs) h = (Reserved-IsKept t id c h.0, Reserved-IsKept-All t id cs h.1)

Numbered-IsKept-All : (cs : List Call) → All (IsKept Numbered) cs
Numbered-IsKept-All [] = tt
Numbered-IsKept-All (c ∷ cs) = (Numbered-IsKept c, Numbered-IsKept-All cs)

-- An entry that one fetch at the time `now` has handed out is not handed out by a later fetch, of
-- any worker, up to 30 seconds after `now`, whatever calls of the store come between them, as long as
-- none of these reports an error of the entry. The tables are those of any earlier calls.
pub claimed_once :
    (j : Json) (before between : List Call) (worker other : GoString)
    (limit limit' now later id : ℕ)
    → let db = after_calls j no_rows before in
      let db' = after_calls j (fetch_outbox false db worker limit now).2 between in
      Any (λ e. e.event_id ≡ id) (fetch_outbox false db worker limit now).1
      → later ≤ now + 30
      → All (λ c. unlocks id c ≡ false) between
      → ¬ Any (λ e. e.event_id ≡ id) (fetch_outbox false db' other limit' later).1
unfolding fetch_outbox
claimed_once j before between worker other limit limit' now later id taken soon quiet =
    claim-unheld other (now + 30) later limit' id _ soon kept.0
  where
    db : Tables
    db = after_calls j no_rows before

    numbered : Numbered db.outbox db.next_event_id
    numbered = after_calls-keeps j Numbered no_rows before (Numbered-IsKept-All before) tt

    kept :
        Reserved
          (now + 30)
          id
          (after_calls j (fetch_outbox false db worker limit now).2 between).outbox
          (after_calls j (fetch_outbox false db worker limit now).2 between).next_event_id
    kept =
        after_calls-keeps j (Reserved (now + 30) id) _ between
          (Reserved-IsKept-All (now + 30) id between quiet)
          (
            claimed-Held worker now limit id db.next_event_id db.outbox numbered taken,
            Increasing-below id db.next_event_id (ids db.outbox) numbered
                (claim-ids worker now limit id db.outbox taken),
          )
