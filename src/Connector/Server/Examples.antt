-- ===== src/Connector/Server/Examples.antt =====
-- The theorems on the streams of the server at one batch and one command.
use tom_ai_agent.Base.{
  ◌==◌, if◌then◌else◌, replicate, All, str_eq, GoString, codes, lookup, insert, ℕ, ◌≡◌, refl, inl,
  Bool, true, false, Option, none, some, List, [], ◌∷◌, arith, Any,
}
use tom_ai_agent.Base.Int.{pos}
use tom_ai_agent.Authenv.{Ed25519}
use tom_ai_agent.Connector.Session.{new_session_registry}
use tom_ai_agent.Connector.Mailbox.{
  Mailbox, dispatched, new_mailbox, submit, next_dispatch, dispatch_loop, list_at, state_of,
  is_late, set_state, pending, signal_locked,
}
use tom_ai_agent.Connector.Mailbox.Calls.{submit_call, after_calls}
use tom_ai_agent.Uplink.{
  nil, kind_results, GrpcUplink, new_grpc, report_kind_of, send_reliable, channels_of, set_of,
  delete_id, reports_send, reports_recv, match_waiters, delete_ids, kind_eq, send_each, send_to,
}
use tom_ai_agent.Uplink.Acks.{Step, sent_step, ack_step, step, steps, IsFresh}
use tom_ai_agent.Connector.Server.{
  Server, SinkEntry, Report, report_kind_name, serve_reports, take_items, serve_metrics,
}
use tom_ai_agent.Connector.Server.Streams.{HasEntry}
use tom_ai_agent.Connector.Server.Delivery.{told-HasEntry}
use tom_ai_agent.Connector.Server.Control.{dispatch_round, control, not_hello}
use tom_ai_agent.Connector.Server.Control.Dispatch.{Verifies, dispatch_round-Verifies, refused_lost}

abbrev id : GoString
id = codes "c-1"

abbrev host : GoString
host = codes "host-1"

abbrev takes : List SinkEntry → SinkEntry → Bool
takes log e = true

abbrev status_in : GoString → Option GoString
status_in payload = none

abbrev never : ℕ → Bool
never i = false

abbrev server : Server
server = record { mailbox = new_mailbox 1 60; store = none; log = [] }

abbrev reports : List (Report × Bool)
reports = (record { kind = kind_results; items = record { id = id; payload = [] } ∷ [] }, true) ∷ []

abbrev session : List Step
session = sent_step ∷ ack_step (record { kind = kind_results; acked_ids = id ∷ [] }) ∷ []

new_grpc-IsFresh : IsFresh new_grpc
unfolding channels_of
new_grpc-IsFresh = record {
  free = record { distinct = λ c. omega arith; empty = λ c k. refl };
  below = λ c k. (refl, refl);
}

abbrev told : GrpcUplink
told = record new_grpc { channels = λ c. if c == 0 then some nil else none; next_channel = 1 }

told_run : steps session (send_reliable new_grpc (codes "results") (id ∷ [])).2 ≡ some told
unfolding steps step send_reliable reports_send reports_recv match_waiters delete_ids delete_id
    set_of kind_eq send_each send_to report_kind_of str_eq
told_run = refl

told-HasEntry_example :
    All
      (λ i.
        HasEntry
          (report_kind_name (report_kind_of (codes "results")))
          i
          (serve_reports takes status_in never reports server).1.log)
      (id ∷ [])
told-HasEntry_example =
    told-HasEntry takes status_in never reports server new_grpc told (codes "results") (id ∷ [])
      session new_grpc-IsFresh (omega arith) (unfold send_reliable in refl)
      (unfold serve_reports take_items in (inl refl, tt)) told_run (unfold send_reliable in refl)

-- A scheme whose signatures are 64 bytes and always verify.
abbrev scheme : Ed25519
scheme = record {
  PrivateKey = Unit;
  PublicKey = Unit;
  sign_bytes = λ key m. replicate 64 7;
  verify_bytes = λ key m s. true;
}

abbrev with_command : Mailbox
with_command = (submit (new_mailbox 1 60) host id (codes "ping") [] (pos 5) 10).1

dispatch_round-Verifies_example :
    All
      (Verifies scheme tt)
      (dispatch_round scheme
        (some tt)
        (λ i. codes "n")
        (λ i. true)
        never
        host
        12
        with_command
        none).0
dispatch_round-Verifies_example =
    dispatch_round-Verifies scheme tt tt (λ i. codes "n") (λ i. true) never host 12 with_command
      none (record { size = λ m. refl; verified = λ m. refl })

taken : Any (λ i. i ≡ id) (next_dispatch with_command host 12).0
unfolding next_dispatch submit dispatch_loop new_mailbox list_at pending state_of is_late set_state
    signal_locked lookup insert str_eq
taken = inl refl

refused_lost_example :
    let (frames, ok, m', store') =
      dispatch_round scheme none (λ i. []) never never host 12 with_command none in
    (frames ≡ [])
    × (ok ≡ false)
    × (state_of m'.by_id id ≡ some dispatched)
    × ¬ Any
        (λ i. i ≡ id)
        (next_dispatch
          (after_calls m' (submit_call host (codes "c-2") (codes "ping") [] (pos 5) 13 ∷ []))
          host
          14).0
refused_lost_example =
    refused_lost scheme none (λ i. []) never never host host 12 14 with_command none
      (submit_call host (codes "c-2") (codes "ping") [] (pos 5) 13 ∷ []) id refl taken

no_hello : (control new_session_registry (some none) none (codes "s-1") true 5).0 ≡ not_hello
unfolding control
no_hello = refl

unacked_metrics : serve_metrics ((4, true, true) ∷ (5, false, true) ∷ (6, true, true) ∷ []) ≡ 4 ∷ []
unfolding serve_metrics
unacked_metrics = refl
