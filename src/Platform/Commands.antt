-- ===== src/Platform/Commands.antt =====
-- internal/platform/store.go: the states of commands, their events and the outbox. The tables are
-- those of db/ddl/001_core.sql, a row of the database as a record; a sequence is a counter. `fails i`
-- says whether the i-th statement of a transaction fails, its begin first and its commit last: the
-- deferred rollback leaves the tables as they were. The clock of the database is `now`, in seconds.
mod Calls
pub mod Trail
pub mod Requests
mod Locks
pub mod Claims
mod Examples
use tom_ai_agent.Base.Int.{ℤ}
use tom_ai_agent.Base.{
  ltb, leb, ◌==◌, if◌then◌else◌, str_eq, GoString, codes, lookup, insert, Dict, ℕ, zero, suc, ◌+◌,
  Bool, true, false, ◌&&◌, ◌||◌, Option, none, some, List, [], ◌∷◌, ◌++◌,
}

pub data StoreError : Type 0 where
  not_found duplicate db_failed : StoreError

pub record CommandRow : Type 0 where
  pub cmd_id : GoString
  pub asset_id : GoString
  pub action_id : GoString
  pub params : Dict GoString
  pub status : GoString
  pub timeout_sec : ℤ
  pub expires_at : ℕ
  pub result_payload : Option GoString

-- A nullable column is an option. `detail` is its JSON text.
pub record EventRow : Type 0 where
  pub cmd_id : GoString
  pub event_type : GoString
  pub from_status : Option GoString
  pub to_status : Option GoString
  pub actor : GoString
  pub detail : Option GoString

pub record OutboxRow : Type 0 where
  pub event_id : ℕ
  pub cmd_id : GoString
  pub event_type : GoString
  pub payload : GoString
  pub available_at : ℕ
  pub attempts : ℕ
  pub locked_by : Option GoString
  pub locked_until : Option ℕ
  pub published_at : Option ℕ
  pub last_error : Option GoString

-- `events` and `outbox` are in the order of their ids.
pub record Tables : Type 0 where
  pub commands : Dict CommandRow
  pub events : List EventRow
  pub outbox : List OutboxRow
  pub next_event_id : ℕ

abbrev pub no_rows : Tables
no_rows = record { commands = []; events = []; outbox = []; next_event_id = 1 }

abbrev pub status_queued : GoString
status_queued = codes "QUEUED"

abbrev pub dispatch_requested : GoString
dispatch_requested = codes "DISPATCH_REQUESTED"

abbrev pub cancel_requested : GoString
cancel_requested = codes "CANCEL_REQUESTED"

-- What the outbox tells the dispatcher.
pub record Payload : Type 0 where
  pub cmd_id : GoString
  pub asset_id : GoString
  pub action : GoString
  pub params : Dict GoString
  pub timeout_sec : ℤ

-- encoding/json on the two payloads: an object with all the keys of `Payload`, and one with the id
-- alone.
pub record Json : Type 0 where
  pub marshal : Payload → GoString
  pub marshal_id : GoString → GoString
  pub unmarshal : GoString → Option Payload

-- INSERT INTO cmd.outbox with the defaults of the other columns.
unfoldable pub insert_outbox : Tables → GoString → GoString → GoString → ℕ → Tables
insert_outbox db cmd_id event_type payload now = record db {
  outbox =
      db.outbox
      ++ record {
        event_id = db.next_event_id;
        cmd_id = cmd_id;
        event_type = event_type;
        payload = payload;
        available_at = now;
        attempts = 0;
        locked_by = none;
        locked_until = none;
        published_at = none;
        last_error = none;
      }
        ∷ [];
  next_event_id = db.next_event_id + 1;
}

unfoldable pub insert_event : Tables → EventRow → Tables
insert_event db e = record db { events = db.events ++ e ∷ [] }

-- UPDATE cmd.command by the primary key.
unfoldable pub update_command : Tables → GoString → CommandRow → Tables
update_command db id c = record db { commands = insert id c db.commands }

unfoldable pub any_fails : ℕ → ℕ → (ℕ → Bool) → Bool
any_fails i zero fails = false
any_fails i (suc n) fails = fails i || any_fails (i + 1) n fails

module _ (j : Json) where
  open j use {marshal, marshal_id}

  unfoldable pub submit_command :
      (ℕ → Bool)
      → Tables
      → GoString
      → GoString
      → GoString
      → Dict GoString
      → ℤ
      → ℕ
      → ℕ
      → Option StoreError × Tables
  unfolding insert_outbox insert_event update_command any_fails
  submit_command fails db cmd_id asset_id action params timeout_sec ttl now =
      let row : CommandRow = record {
        cmd_id = cmd_id;
        asset_id = asset_id;
        action_id = action;
        params = params;
        status = status_queued;
        timeout_sec = timeout_sec;
        expires_at = now + ttl;
        result_payload = none;
      } in
      let created : EventRow = record {
        cmd_id = cmd_id;
        event_type = codes "created";
        from_status = none;
        to_status = some status_queued;
        actor = codes "admin";
        detail = none;
      } in
      let payload = marshal (record {
        cmd_id = cmd_id;
        asset_id = asset_id;
        action = action;
        params = params;
        timeout_sec = timeout_sec;
      }) in
      if any_fails 0 2 fails then (some db_failed, db) else elim (lookup cmd_id db.commands) [
        | some _ ↦ (some duplicate, db)
        | none ↦ if any_fails 2 3 fails then (some db_failed, db) else (
          none,
          insert_outbox (insert_event (update_command db cmd_id row) created) cmd_id
              dispatch_requested payload now,
        )
      ]

  unfoldable pub cancel_command : Bool → Tables → GoString → ℕ → Option StoreError × Tables
  unfolding insert_outbox
  cancel_command fails db cmd_id now =
      if fails
      then (some db_failed, db)
      else (none, insert_outbox db cmd_id cancel_requested (marshal_id cmd_id) now)

-- The row of the command with another status, and the event that tells of it.
unfoldable pub change_status :
    (ℕ → Bool)
    → Tables
    → GoString
    → (CommandRow → CommandRow)
    → (CommandRow → EventRow)
    → Option StoreError × Tables
unfolding insert_event update_command any_fails
change_status fails db cmd_id update event =
    if any_fails 0 2 fails then (some db_failed, db) else elim (lookup cmd_id db.commands) [
      | none ↦ (some not_found, db)
      | some c ↦
          if any_fails 2 3 fails
          then (some db_failed, db)
          else (none, insert_event (update_command db cmd_id (update c)) (event c))
    ]

unfoldable pub transition :
    (ℕ → Bool)
    → Tables
    → GoString
    → GoString
    → GoString
    → GoString
    → GoString
    → Option StoreError × Tables
unfolding change_status
transition fails db cmd_id event_type to_status actor detail =
    change_status fails db cmd_id (λ c. record c { status = to_status })
      (λ c. record {
        cmd_id = cmd_id;
        event_type = event_type;
        from_status = some c.status;
        to_status = some to_status;
        actor = actor;
        detail = some detail;
      })

unfoldable pub complete_command :
    (ℕ → Bool) → Tables → GoString → GoString → Option GoString → Option StoreError × Tables
unfolding change_status
complete_command fails db cmd_id terminal_status result =
    change_status fails db cmd_id
      (λ c. record c { status = terminal_status; result_payload = result })
      (λ c. record {
        cmd_id = cmd_id;
        event_type = codes "result_received";
        from_status = some c.status;
        to_status = some terminal_status;
        actor = codes "agent";
        detail = none;
      })

pub record OutboxEntry : Type 0 where
  pub event_id : ℕ
  pub cmd_id : GoString
  pub event_type : GoString
  pub payload : GoString

-- The condition of the inner SELECT.
unfoldable pub is_available : ℕ → OutboxRow → Bool
is_available now r =
    (elim r.published_at [ none ↦ true | some _ ↦ false ])
    && leb r.available_at now
    && (elim r.locked_until [ none ↦ true | some t ↦ ltb t now ])

-- The UPDATE of the first rows that meet it.
unfoldable pub claim : GoString → ℕ → ℕ → List OutboxRow → List OutboxEntry × List OutboxRow
unfolding is_available
claim worker now limit [] = ([], [])
claim worker now zero (r ∷ rs) = ([], r ∷ rs)
claim worker now (suc limit) (r ∷ rs) =
    let (taken, after) : List OutboxEntry × List OutboxRow = claim worker now limit rs in
    let (others, kept) : List OutboxEntry × List OutboxRow = claim worker now (suc limit) rs in
    if is_available now r
    then (
      record {
        event_id = r.event_id;
        cmd_id = r.cmd_id;
        event_type = r.event_type;
        payload = r.payload;
      }
          ∷ taken,
      record r {
        locked_by = some worker;
        locked_until = some (now + 30);
        attempts = r.attempts + 1;
      }
          ∷ after,
    )
    else (others, r ∷ kept)

unfoldable pub fetch_outbox :
    Bool → Tables → GoString → ℕ → ℕ → Option StoreError × List OutboxEntry × Tables
unfolding claim
fetch_outbox fails db worker limit now = if fails then (some db_failed, [], db) else (
  none,
  (claim worker now limit db.outbox).0,
  record db { outbox = (claim worker now limit db.outbox).1 },
)

unfoldable pub update_outbox : ℕ → (OutboxRow → OutboxRow) → List OutboxRow → List OutboxRow
update_outbox id f [] = []
update_outbox id f (r ∷ rs) =
    if r.event_id == id then f r ∷ update_outbox id f rs else r ∷ update_outbox id f rs

unfoldable pub mark_published : Bool → Tables → ℕ → ℕ → Option StoreError × Tables
unfolding update_outbox
mark_published fails db event_id now = if fails then (some db_failed, db) else (
  none,
  record db {
    outbox = update_outbox event_id (λ r. record r { published_at = some now }) db.outbox;
  },
)

unfoldable pub mark_outbox_error : Bool → Tables → ℕ → GoString → Option StoreError × Tables
unfolding update_outbox
mark_outbox_error fails db event_id err_msg = if fails then (some db_failed, db) else (
  none,
  record db {
    outbox =
        update_outbox event_id
          (λ r. record r { locked_by = none; locked_until = none; last_error = some err_msg })
          db.outbox;
  },
)

-- The row of the command, and its events in their order.
unfoldable pub events_of : GoString → List EventRow → List EventRow
events_of id [] = []
events_of id (e ∷ es) = if str_eq e.cmd_id id then e ∷ events_of id es else events_of id es

unfoldable pub command_status : Tables → GoString → Option (CommandRow × List EventRow)
unfolding events_of
command_status db cmd_id = elim (lookup cmd_id db.commands) [
  | none ↦ none
  | some c ↦ some (c, events_of cmd_id db.events)
]
