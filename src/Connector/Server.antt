-- ===== src/Connector/Server.antt =====
-- internal/connector/server.go: the streams that the connector serves to an agent, over the registry of
-- sessions, the mailbox and the store. The sink of events and data, the random bytes, the JSON of a result
-- and the sends of a stream are arguments. A time is in milliseconds.
pub mod Streams
pub mod Control
pub mod Delivery
mod Examples
use tom_ai_agent.Base.{
  ◌==◌, if◌then◌else◌, length, GoString, codes, ℕ, Bool, true, false, ◌&&◌, Option, none, some,
  List, [], ◌∷◌, ◌++◌,
}
use tom_ai_agent.Connector.Mailbox.{Mailbox, complete}
use tom_ai_agent.Platform.Commands.{Tables, StoreError, complete_command}
use tom_ai_agent.Uplink.{
  ReportKind, kind_unspecified, kind_results, kind_audit, kind_inventory, ReportAck,
}

-- One call of `Report` of the sink.
pub record SinkEntry : Type 0 where
  pub kind : GoString
  pub id : GoString
  pub payload : GoString

-- `store` is none without a database. `log` is what the sink has taken.
pub record Server : Type 0 where
  pub mailbox : Mailbox
  pub store : Option Tables
  pub log : List SinkEntry

pub record ReportItem : Type 0 where
  pub id : GoString
  pub payload : GoString

pub record Report : Type 0 where
  pub kind : ReportKind
  pub items : List ReportItem

-- An error of the store is logged and has no effect.
unfoldable pub persist : (Tables → Option StoreError × Tables) → Option Tables → Option Tables
persist f none = none
persist f (some db) = some (f db).1

unfoldable pub report_kind_name : ReportKind → GoString
report_kind_name kind_results = codes "results"
report_kind_name kind_audit = codes "audit"
report_kind_name kind_inventory = codes "inventory"
report_kind_name kind_unspecified = codes "unknown"

unfoldable pub is_results : ReportKind → Bool
is_results kind_results = true
is_results _ = false

-- `status_in` reads the field of the JSON text; none is an error.
unfoldable pub result_status : (GoString → Option GoString) → GoString → GoString
result_status status_in payload = elim (status_in payload) [
  | none ↦ codes "SUCCEEDED"
  | some s ↦ if length s == 0 then codes "SUCCEEDED" else s
]

module _ (takes : List SinkEntry → SinkEntry → Bool) (status_in : GoString → Option GoString)
    (fails : ℕ → Bool) where
  -- The result of a command ends it in the mailbox and in the database.
  unfoldable pub record_result : ReportKind → ReportItem → Server → Server
  unfolding persist is_results result_status
  record_result kind it s =
      if is_results kind
      then record s {
        mailbox = complete s.mailbox it.id it.payload;
        store =
            persist
              (λ db.
                complete_command fails db it.id (result_status status_in it.payload)
                  (some it.payload))
              s.store;
      }
      else s

  -- The items of one report, up to the first that the sink refuses; the ids of all of them if it takes
  -- them all.
  unfoldable pub take_items :
      ReportKind → List ReportItem → Server → Option (List GoString) × Server
  unfolding record_result report_kind_name
  take_items kind [] s = (some [], s)
  take_items kind (it ∷ its) s =
      let entry : SinkEntry = record {
        kind = report_kind_name kind;
        id = it.id;
        payload = it.payload;
      } in
      let (ids, s') : Option (List GoString) × Server =
        take_items kind its (record_result kind it (record s { log = s.log ++ entry ∷ [] })) in
      if takes s.log entry
      then ((elim ids [ none ↦ none | some is ↦ some (it.id ∷ is) ]), s')
      else (none, s)

  -- The stream of reports, each with whether the acknowledgement goes out: the acknowledgements that
  -- were sent. An error ends the stream.
  unfoldable pub serve_reports : List (Report × Bool) → Server → List ReportAck × Server
  unfolding take_items
  serve_reports [] s = ([], s)
  serve_reports ((r, sends) ∷ rs) s =
      let (ids, s') : Option (List GoString) × Server = take_items r.kind r.items s in
      let (acks, s'') : List ReportAck × Server = serve_reports rs s' in
      elim ids [
        | none ↦ ([], s')
        | some is ↦
            if sends then (record { kind = r.kind; acked_ids = is } ∷ acks, s'') else ([], s')
      ]

-- The stream of metrics: the sequence numbers of the batches, each with whether the sink takes it and
-- whether the acknowledgement goes out, and the numbers that are acknowledged.
unfoldable pub serve_metrics : List (ℕ × Bool × Bool) → List ℕ
serve_metrics [] = []
serve_metrics ((seq, takes, sends) ∷ bs) =
    let rest = serve_metrics bs in if takes && sends then seq ∷ rest else []
