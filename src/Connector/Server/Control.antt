-- ===== src/Connector/Server/Control.antt =====
-- internal/connector/server.go, Control: the handshake of the control stream, the frames that the agent
-- sends, and the dispatch of commands. `sends` says whether the stream takes the next frame.
pub mod Dispatch
use tom_ai_agent.Base.Int.{ℤ, pos, negsuc}
use tom_ai_agent.Base.{
  ◌==◌, if◌then◌else◌, length, str_eq, GoString, codes, lookup, Dict, ℕ, ◌+◌, ◌-◌, ◌%◌, ◌^◌, Bool,
  true, false, not, Option, none, some, List, [], ◌∷◌, ◌++◌,
}
use tom_ai_agent.Authenv.{CommandEnvelope, Ed25519, sign}
use tom_ai_agent.Connector.Session.{Session, SessionRegistry, register, touch, unregister}
use tom_ai_agent.Connector.Mailbox.{MailboxCommand, Mailbox, next_dispatch}
use tom_ai_agent.Platform.Commands.{Tables, transition, complete_command}
use tom_ai_agent.Connector.Server.{persist}

pub record AgentHello : Type 0 where
  pub asset_id : GoString
  pub agent_version : GoString
  pub action_catalog_version : GoString

-- An event for the sink.
pub record Event : Type 0 where
  pub event_type : GoString
  pub attrs : Dict GoString

-- How the handshake ends.
pub data Handshake : Type 0 where
  recv_failed not_hello cn_mismatch panicked send_failed : Handshake
  started : Session → Handshake

abbrev pub cn_mismatch_event : GoString → GoString → Event
cn_mismatch_event asset_id cn = record {
  event_type = codes "security.cert_cn_mismatch";
  attrs = (codes "asset_id", asset_id) ∷ (codes "cert_cn", cn) ∷ [];
}

abbrev pub duplicate_event : GoString → GoString → Event
duplicate_event asset_id old_session = record {
  event_type = codes "security.duplicate_connection";
  attrs =
      (codes "asset_id", asset_id)
      ∷ (codes "old_session", old_session)
      ∷ (codes "policy", codes "replace_old")
      ∷ [];
}

abbrev pub online_event : AgentHello → Event
online_event hello = record {
  event_type = codes "agent.online";
  attrs = (codes "asset_id", hello.asset_id) ∷ (codes "agent_version", hello.agent_version) ∷ [];
}

-- From the registration on: whether the stream takes the welcome is `welcomed`. A session that is not
-- welcomed is taken out again.
unfoldable pub open_session :
    SessionRegistry → AgentHello → GoString → Bool → ℕ → Handshake × List Event × SessionRegistry
open_session r hello session_id welcomed now =
    elim (register r hello.asset_id session_id hello.agent_version hello.action_catalog_version
      now) [
        | none ↦ (panicked, [], r)
        | some (sess, none, r') ↦
            if welcomed
            then (started sess, online_event hello ∷ [], r')
            else (send_failed, [], unregister r' sess)
        | some (sess, some old, r') ↦
            if welcomed
            then (
              started sess,
              duplicate_event hello.asset_id old.session_id ∷ online_event hello ∷ [],
              r',
            )
            else (
              send_failed,
              duplicate_event hello.asset_id old.session_id ∷ [],
              unregister r' sess,
            )
      ]

-- `first` is the first frame, none on an error, and in it none for another frame than a hello. `peer` is
-- the common name of the certificate of the connection, if it has one.
unfoldable pub control :
    SessionRegistry
    → Option (Option AgentHello)
    → Option GoString
    → GoString
    → Bool
    → ℕ
    → Handshake × List Event × SessionRegistry
unfolding open_session
control r none peer session_id welcomed now = (recv_failed, [], r)
control r (some none) peer session_id welcomed now = (not_hello, [], r)
control r (some (some hello)) none session_id welcomed now =
    open_session r hello session_id welcomed now
control r (some (some hello)) (some cn) session_id welcomed now =
    if not (str_eq cn hello.asset_id)
    then (cn_mismatch, cn_mismatch_event hello.asset_id cn ∷ [], r)
    else open_session r hello session_id welcomed now

-- A frame of the agent after the hello.
pub data AgentFrame : Type 0 where
  heartbeat other_frame : AgentFrame
  command_ack : GoString → Bool → GoString → AgentFrame

unfoldable pub control_recv :
    (ℕ → Bool)
    → GoString
    → ℕ
    → AgentFrame
    → ℕ
    → SessionRegistry
    → Option Tables
    → SessionRegistry × Option Tables
unfolding persist
control_recv fails asset_id epoch heartbeat now r store = ((touch r asset_id epoch now).1, store)
control_recv fails asset_id epoch other_frame now r store = (r, store)
control_recv fails asset_id epoch (command_ack cmd_id true reason) now r store = (r, store)
control_recv fails asset_id epoch (command_ack cmd_id false reason) now r store =
    let to = if length reason == 0 then codes "REJECTED" else reason in
    (r, persist (λ db. complete_command fails db cmd_id to none) store)

-- uint32(c.TimeoutSec)
unfoldable pub to_uint32 : ℤ → ℕ
to_uint32 (pos n) = n % 2 ^ 32
to_uint32 (negsuc n) = 2 ^ 32 - 1 - n % 2 ^ 32

pub data Frame : Type 0 where
  command_frame : CommandEnvelope → Frame
  cancel_frame : GoString → Frame

module _ (c : Ed25519) where
  open c use {PrivateKey}

  -- `signer` is none in development, and then there is no nonce.
  unfoldable pub envelope_of : Option PrivateKey → GoString → MailboxCommand → ℕ → CommandEnvelope
  unfolding to_uint32
  envelope_of signer nonce cmd now =
      let env : CommandEnvelope = record {
        cmd_id = cmd.cmd_id;
        action = cmd.action;
        params = cmd.params;
        timeout_sec = to_uint32 cmd.timeout_sec;
        issued_at = pos now;
        expires_at = pos cmd.expires_at;
        nonce = [];
        signature = [];
      } in
      elim signer [ none ↦ env | some priv ↦ sign c priv (record env { nonce = nonce }) ]

  -- The commands with the given ids, the i-th of which has the nonce `nonces i`: the frames that were sent,
  -- whether the stream has taken them all, and the store. An id is always that of a command.
  unfoldable pub send_commands :
      Option PrivateKey
      → (ℕ → GoString)
      → (ℕ → Bool)
      → (ℕ → Bool)
      → Dict MailboxCommand
      → ℕ
      → ℕ
      → List GoString
      → Option Tables
      → List Frame × Bool × Option Tables
  unfolding envelope_of persist
  send_commands signer nonces sends fails by_id now i [] store = ([], true, store)
  send_commands signer nonces sends fails by_id now i (id ∷ ids) store =
      let delivered =
        persist
          (λ db.
            transition fails db id (codes "delivered") (codes "DELIVERED") (codes "connector")
              (codes "null"))
          store in
      let (frames, ok, store') : List Frame × Bool × Option Tables =
        send_commands signer nonces sends fails by_id now (i + 1) ids delivered in
      let (others, ok', store'') : List Frame × Bool × Option Tables =
        send_commands signer nonces sends fails by_id now i ids store in
      elim (lookup id by_id) [
        | none ↦ (others, ok', store'')
        | some cmd ↦
            if sends i
            then (command_frame (envelope_of signer (nonces i) cmd now) ∷ frames, ok, store')
            else ([], false, store)
      ]

  unfoldable pub send_cancels : (ℕ → Bool) → ℕ → List GoString → List Frame × Bool
  send_cancels sends i [] = ([], true)
  send_cancels sends i (id ∷ ids) =
      let (frames, ok) : List Frame × Bool = send_cancels sends (i + 1) ids in
      if sends i then (cancel_frame id ∷ frames, ok) else ([], false)

  -- One round of the dispatch loop of `Control`: the frames, whether the stream goes on, the mailbox and
  -- the store.
  unfoldable pub dispatch_round :
      Option PrivateKey
      → (ℕ → GoString)
      → (ℕ → Bool)
      → (ℕ → Bool)
      → GoString
      → ℕ
      → Mailbox
      → Option Tables
      → List Frame × Bool × Mailbox × Option Tables
  unfolding send_commands send_cancels
  dispatch_round signer nonces sends fails asset_id now m store =
      let (cmds, cancels, m') : List GoString × List GoString × Mailbox =
        next_dispatch m asset_id now in
      let (frames, ok, store') : List Frame × Bool × Option Tables =
        send_commands signer nonces sends fails m'.by_id now 0 cmds store in
      let (more, ok') : List Frame × Bool = send_cancels sends (length frames) cancels in
      if ok then (frames ++ more, ok', m', store') else (frames, false, m', store')
