-- ===== src/Uplink.antt =====
-- internal/uplink/grpc.go: the waiters for acknowledgements of the gRPC uplink. A channel of errors has
-- a buffer of one value; it is known by a number, and `channels` says what waits in it. A
-- send to a full channel that no reader empties never ends, which is `none`. Each step of a goroutine under
-- its lock is one operation. The streams, the clock and the choice of a `select` are arguments.
pub mod Reports
pub mod Acks
pub mod Told
pub mod Metrics
pub mod Blocking
pub mod Credentials
pub mod Control
mod Examples
use tom_ai_agent.Base.{
  ltb, leb, ◌==◌, if◌then◌else◌, length, str_eq, GoString, codes, ℕ, ◌+◌, ◌*◌, Bool, true, false,
  not, Option, none, some, List, [], ◌∷◌, ◌++◌,
}

-- The generated enumeration of reports.
pub data ReportKind : Type 0 where
  kind_unspecified kind_results kind_audit kind_inventory : ReportKind

pub data UplinkError : Type 0 where
  stream_failed queue_full handshake_timeout ack_timeout canceled : UplinkError

-- A value of type error: nil, or an error.
pub data Outcome : Type 0 where
  nil : Outcome
  failed : UplinkError → Outcome

abbrev pub Channels : Type 0
Channels = ℕ → Option Outcome

pub record ReportWaiter : Type 0 where
  pub kind : ReportKind
  pub ids : List GoString
  pub ch : ℕ

pub record ReliableReport : Type 0 where
  pub kind : ReportKind
  pub ids : List GoString

pub record ReportSend : Type 0 where
  pub batch : ReliableReport
  pub ack : ℕ

pub record MetricSend : Type 0 where
  pub sequence : ℕ
  pub ack : ℕ

pub record ReportAck : Type 0 where
  pub kind : ReportKind
  pub acked_ids : List GoString

-- `metric_acks` maps a sequence number to a channel. A channel that was not made yet has a number from
-- `next_channel` on.
pub record GrpcUplink : Type 0 where
  pub metric_out : List MetricSend
  pub report_out : List ReportSend
  pub metric_acks : List (ℕ × ℕ)
  pub report_wait : List ReportWaiter
  pub channels : Channels
  pub next_channel : ℕ

abbrev pub new_grpc : GrpcUplink
new_grpc = record {
  metric_out = [];
  report_out = [];
  metric_acks = [];
  report_wait = [];
  channels = λ c. none;
  next_channel = 0;
}

-- The four names of a queue; another text is no kind.
unfoldable pub report_kind_of : GoString → ReportKind
report_kind_of k =
    if str_eq k (codes "results")
    then kind_results
    else if str_eq k (codes "audit")
    then kind_audit
    else if str_eq k (codes "inventory")
    then kind_inventory
    else kind_unspecified

unfoldable pub kind_eq : ReportKind → ReportKind → Bool
kind_eq kind_unspecified kind_unspecified = true
kind_eq kind_results kind_results = true
kind_eq kind_audit kind_audit = true
kind_eq kind_inventory kind_inventory = true
kind_eq _ _ = false

-- ch <- o
unfoldable pub send_to : ℕ → Outcome → Channels → Option Channels
send_to ch o chans = elim (chans ch) [
  | none ↦ some (λ c. if c == ch then some o else chans c)
  | some _ ↦ none
]

-- The sends of a loop, in their order.
unfoldable pub send_each : List ℕ → Outcome → Channels → Option Channels
unfolding send_to
send_each [] o chans = some chans
send_each (ch ∷ chs) o chans = elim (send_to ch o chans) [
  | none ↦ none
  | some chans' ↦ send_each chs o chans'
]

unfoldable pub delete_id : GoString → List GoString → List GoString
delete_id i [] = []
delete_id i (j ∷ js) = let rest = delete_id i js in if str_eq j i then rest else j ∷ rest

unfoldable pub delete_ids : List GoString → List GoString → List GoString
unfolding delete_id
delete_ids [] ids = ids
delete_ids (i ∷ is) ids = delete_ids is (delete_id i ids)

-- m[id] = struct{}{} for each of the ids, for a map that is a set.
unfoldable pub set_of : List GoString → List GoString
unfolding delete_id
set_of [] = []
set_of (i ∷ is) = i ∷ delete_id i (set_of is)

unfoldable pub remove_waiter : ℕ → List ReportWaiter → List ReportWaiter
remove_waiter ch [] = []
remove_waiter ch (w ∷ ws) = if w.ch == ch then ws else w ∷ remove_waiter ch ws

-- The start of `SendReliable`: the waiter is registered, and its batch goes to the queue of 64 if
-- there is room in time. The channel, and the error at once.
unfoldable pub send_reliable :
    GrpcUplink → GoString → List GoString → Option UplinkError × ℕ × GrpcUplink
unfolding report_kind_of set_of remove_waiter
send_reliable u queue ids =
    let kind = report_kind_of queue in
    let w : ReportWaiter = record { kind = kind; ids = set_of ids; ch = u.next_channel } in
    let waiting = u.report_wait ++ w ∷ [] in
    if ltb (length u.report_out) 64
    then (
      none,
      u.next_channel,
      record u {
        report_wait = waiting;
        report_out =
            u.report_out
            ++ record { batch = record { kind = kind; ids = ids }; ack = u.next_channel } ∷ [];
        next_channel = u.next_channel + 1;
      },
    )
    else (
      some queue_full,
      u.next_channel,
      record u {
        report_wait = remove_waiter u.next_channel waiting;
        next_channel = u.next_channel + 1;
      },
    )

-- One round of `reportsSendLoop`: whether the stream takes the batch is an argument. The batch that was
-- sent, and whether the session has failed.
unfoldable pub reports_send : Bool → GrpcUplink → Option (Option ReliableReport × Bool × GrpcUplink)
unfolding send_to
reports_send sends u = elim u.report_out [
  | [] ↦ some (none, false, u)
  | r ∷ rs ↦
      if sends
      then some (some r.batch, false, record u { report_out = rs })
      else elim (send_to r.ack (failed stream_failed) u.channels) [
        | none ↦ none
        | some chans ↦ some (none, true, record u { report_out = rs; channels = chans })
      ]
]

-- The waiters that remain after an acknowledgement, and the channels of those that it completes.
unfoldable pub match_waiters : ReportAck → List ReportWaiter → List ReportWaiter × List ℕ
unfolding delete_ids kind_eq
match_waiters a [] = ([], [])
match_waiters a (w ∷ ws) =
    let (remaining, done) : List ReportWaiter × List ℕ = match_waiters a ws in
    let ids = delete_ids a.acked_ids w.ids in
    if not (kind_eq w.kind a.kind)
    then (w ∷ remaining, done)
    else if length ids == 0
    then (remaining, w.ch ∷ done)
    else (record w { ids = ids } ∷ remaining, done)

-- One acknowledgement in `reportsRecvLoop`.
unfoldable pub reports_recv : ReportAck → GrpcUplink → Option GrpcUplink
unfolding match_waiters send_each
reports_recv a u = elim (send_each (match_waiters a u.report_wait).1 nil u.channels) [
  | none ↦ none
  | some chans ↦
      some (record u { report_wait = (match_waiters a u.report_wait).0; channels = chans })
]

unfoldable pub channels_of : List ReportWaiter → List ℕ
channels_of [] = []
channels_of (w ∷ ws) = w.ch ∷ channels_of ws

-- m.Store(k, v)
unfoldable pub store_ack : ℕ → ℕ → List (ℕ × ℕ) → List (ℕ × ℕ)
store_ack k v [] = (k, v) ∷ []
store_ack k v ((j, w) ∷ m) = if j == k then (k, v) ∷ m else (j, w) ∷ store_ack k v m

unfoldable pub delete_ack : ℕ → List (ℕ × ℕ) → List (ℕ × ℕ)
delete_ack k [] = []
delete_ack k ((j, w) ∷ m) = let rest = delete_ack k m in if j == k then rest else (j, w) ∷ rest

-- The start of `SendMetrics`.
unfoldable pub send_metrics : GrpcUplink → ℕ → Option UplinkError × ℕ × GrpcUplink
send_metrics u sequence =
    if ltb (length u.metric_out) 64
    then (
      none,
      u.next_channel,
      record u {
        metric_out = u.metric_out ++ record { sequence = sequence; ack = u.next_channel } ∷ [];
        next_channel = u.next_channel + 1;
      },
    )
    else (some queue_full, u.next_channel, record u { next_channel = u.next_channel + 1 })

-- One round of `metricsSendLoop`.
unfoldable pub metrics_send : Bool → GrpcUplink → Option (Option ℕ × Bool × GrpcUplink)
unfolding send_to store_ack delete_ack
metrics_send sends u = elim u.metric_out [
  | [] ↦ some (none, false, u)
  | m ∷ ms ↦
      let stored = store_ack m.sequence m.ack u.metric_acks in
      if sends
      then some (some m.sequence, false, record u { metric_out = ms; metric_acks = stored })
      else elim (send_to m.ack (failed stream_failed) u.channels) [
        | none ↦ none
        | some chans ↦ some (
          none,
          true,
          record u {
            metric_out = ms;
            metric_acks = delete_ack m.sequence stored;
            channels = chans;
          },
        )
      ]
]

-- The waiters above the last acknowledged sequence number, and the channels of the others.
unfoldable pub split_acks : ℕ → List (ℕ × ℕ) → List (ℕ × ℕ) × List ℕ
split_acks last [] = ([], [])
split_acks last ((k, ch) ∷ m) =
    let (later, done) : List (ℕ × ℕ) × List ℕ = split_acks last m in
    if leb k last then (later, ch ∷ done) else ((k, ch) ∷ later, done)

-- One acknowledgement in `metricsRecvLoop`.
unfoldable pub metrics_recv : ℕ → GrpcUplink → Option GrpcUplink
unfolding split_acks send_each
metrics_recv last u = elim (send_each (split_acks last u.metric_acks).1 nil u.channels) [
  | none ↦ none
  | some chans ↦
      some (record u { metric_acks = (split_acks last u.metric_acks).0; channels = chans })
]

-- A send in a `select` with a default: a full channel keeps its value.
unfoldable pub offer_each : List (ℕ × ℕ) → Outcome → Channels → Channels
offer_each [] o chans = chans
offer_each ((k, ch) ∷ m) o chans =
    offer_each m o
      (λ c. if c == ch then (elim (chans c) [ none ↦ some o | some x ↦ some x ]) else chans c)

-- A send that waits at a full channel until its reader receives, if there is one that still does.
unfoldable pub send_waiting : (ℕ → Bool) → ℕ → Outcome → Channels → Option Channels
unfolding send_to
send_waiting reads ch o chans = elim (send_to ch o chans) [
  | none ↦ if reads ch then some (λ c. if c == ch then some o else chans c) else none
  | some chans' ↦ some chans'
]

unfoldable pub send_each_waiting : (ℕ → Bool) → List ℕ → Outcome → Channels → Option Channels
unfolding send_waiting
send_each_waiting reads [] o chans = some chans
send_each_waiting reads (ch ∷ chs) o chans = elim (send_waiting reads ch o chans) [
  | none ↦ none
  | some chans' ↦ send_each_waiting reads chs o chans'
]

-- `reads` says from which channels a reader still receives; `none` is a send that never ends.
unfoldable pub fail_all_waiters : (ℕ → Bool) → UplinkError → GrpcUplink → Option GrpcUplink
unfolding offer_each send_each_waiting channels_of
fail_all_waiters reads err u =
    elim (send_each_waiting reads (channels_of u.report_wait) (failed err)
      (offer_each u.metric_acks (failed err) u.channels)) [
        | none ↦ none
        | some chans ↦ some (record u { metric_acks = []; report_wait = []; channels = chans })
      ]

-- What `waitReady` waits for in its two selects: an event of its own, the end of the context, or the
-- time limit. A receive takes the value from the channel.
pub data Wakes : Type 0 where
  arrives context_done time_limit : Wakes

unfoldable pub wait_ready : Wakes → Wakes → ℕ → GrpcUplink → Option (Outcome × GrpcUplink)
wait_ready context_done ack ch u = some (failed canceled, u)
wait_ready time_limit ack ch u = some (failed handshake_timeout, u)
wait_ready arrives context_done ch u = some (failed canceled, u)
wait_ready arrives time_limit ch u = some (failed ack_timeout, u)
wait_ready arrives arrives ch u = elim (u.channels ch) [
  | none ↦ none
  | some o ↦ some (o, record u { channels = λ c. if c == ch then none else u.channels c })
]

-- The wait of `supervise` before the next session, in seconds.
unfoldable pub next_backoff : ℕ → ℕ
next_backoff backoff = if ltb backoff 30 then backoff * 2 else backoff
