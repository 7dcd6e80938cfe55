-- ===== src/Uplink/Examples.antt =====
-- The theorems on the waiters at one batch.
use tom_ai_agent.Base.{
  All, GoString, codes, ◌≡◌, refl, ◌↔◌, true, false, none, some, List, [], ◌∷◌, ◌++◌, arith,
}
use tom_ai_agent.Uplink.{
  nil, stream_failed, kind_results, ReportSend, GrpcUplink, new_grpc, report_kind_of, send_reliable,
  reports_send, fail_all_waiters, channels_of, next_backoff,
}
use tom_ai_agent.Uplink.Acks.{Step, begin_step, sent_step, ack_step, steps, is_acked, IsFresh}
use tom_ai_agent.Uplink.Told.{told_exactly}
use tom_ai_agent.Config.{UplinkConf}
use tom_ai_agent.Uplink.Credentials.{Files, dial_option, Justified, dial_option-Justified}
use tom_ai_agent.Uplink.Control.{
  GatewayFrame, welcome, other_frame, cancel, reconnect_hint, ControlLoop, receive_frames, asked,
  receive_frames_in_order,
}
use tom_ai_agent.Uplink.Blocking.{failed_send_blocks}

abbrev batch : List GoString
batch = codes "r-1" ∷ codes "r-2" ∷ []

new_grpc-IsFresh : IsFresh new_grpc
unfolding channels_of
new_grpc-IsFresh = record {
  free = record { distinct = λ c. omega arith; empty = λ c k. refl };
  below = λ c k. (refl, refl);
}

-- Another batch is registered, and the ids come in two acknowledgements.
abbrev session : List Step
session =
    sent_step
    ∷ ack_step (record { kind = kind_results; acked_ids = codes "r-2" ∷ [] })
    ∷ begin_step (codes "audit") (codes "a-1" ∷ [])
    ∷ ack_step (record { kind = kind_results; acked_ids = codes "r-1" ∷ [] })
    ∷ []

told_exactly_example :
    (u' : GrpcUplink) × (steps session (send_reliable new_grpc (codes "results") batch).2 ≡ some u')
    × ((u'.channels (send_reliable new_grpc (codes "results") batch).1 ≡ some nil)
        ↔ All (λ id. is_acked (report_kind_of (codes "results")) id session ≡ true) batch)
told_exactly_example =
    told_exactly new_grpc (codes "results") batch session new_grpc-IsFresh (omega arith)
      (unfold send_reliable in refl)

abbrev two_batches : GrpcUplink
two_batches = record new_grpc { metric_acks = (5, 0) ∷ (9, 1) ∷ []; next_channel = 2 }

abbrev queued_batch : ReportSend
queued_batch = record { batch = record { kind = kind_results; ids = batch }; ack = 0 }

abbrev registered : GrpcUplink
registered = record new_grpc {
  report_out = queued_batch ∷ [];
  report_wait = record { kind = kind_results; ids = batch; ch = 0 } ∷ [];
  next_channel = 1;
}

failed_send_blocks_example :
    (u' : GrpcUplink) × (reports_send false registered ≡ some (none, true, u'))
    × (fail_all_waiters (λ c. false) stream_failed u' ≡ none)
failed_send_blocks_example =
    failed_send_blocks registered queued_batch [] stream_failed (λ c. false) refl refl
      (unfold channels_of in omega arith) refl

backoff_grows : next_backoff 16 ≡ 32
unfolding next_backoff
backoff_grows = refl

backoff_stays : next_backoff 32 ≡ 32
unfolding next_backoff
backoff_stays = refl

abbrev files : Files
files = record {
  read_file = λ path. some path;
  KeyPair = GoString × GoString;
  CertPool = GoString;
  certificates_of = λ pem. some pem;
  load_key_pair = λ cert key. some (cert, key);
  split_host = λ addr. some addr;
}

abbrev with_tls : UplinkConf
with_tls = record {
  mode = codes "grpc";
  addr = codes "gw";
  http_addr = [];
  insecure = true;
  ca_file = codes "ca";
  cert_file = codes "cert";
  key_file = codes "key";
  server_name = [];
}

dial_option-Justified_example : Justified files with_tls (dial_option files with_tls)
dial_option-Justified_example = dial_option-Justified files with_tls

abbrev frames : List GatewayFrame
frames = welcome ∷ other_frame ∷ cancel (codes "c-1") ∷ reconnect_hint ∷ cancel (codes "c-2") ∷ []

receive_frames_in_order_example :
    (s' : ControlLoop) × (receive_frames frames
        (record { has_handler = true; is_ready = false; calls = [] })
      ≡ some s')
    × (s'.calls ≡ [] ++ asked frames)
receive_frames_in_order_example = receive_frames_in_order frames false [] (omega arith)
