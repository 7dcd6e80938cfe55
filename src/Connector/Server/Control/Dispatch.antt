-- ===== src/Connector/Server/Control/Dispatch.antt =====
-- The frames of the dispatch: they verify at the agent, and what becomes of a command whose send fails.
use tom_ai_agent.Base.{
  Bool-cases, Option-cases, All, All-append, GoString, lookup, Dict, ℕ, ◌+◌, ◌≡◌, refl, inl, inr,
  Bool, false, Option, none, some, List, [], ◌∷◌, Any,
}
use tom_ai_agent.Authenv.{Ed25519, verify}
use tom_ai_agent.Authenv.Signature.{IsKeyPair, verify-sign}
use tom_ai_agent.Connector.Mailbox.{MailboxCommand, Mailbox, dispatched, state_of, next_dispatch}
use tom_ai_agent.Connector.Mailbox.Dispatched.{next_dispatch-dispatched}
use tom_ai_agent.Connector.Mailbox.Calls.{MailboxCall, after_calls}
use tom_ai_agent.Connector.Mailbox.Once.{sent_once}
use tom_ai_agent.Connector.Mailbox.Known.{Known, next_dispatch-Known}
use tom_ai_agent.Platform.Commands.{Tables}
use tom_ai_agent.Connector.Server.Control.{
  Frame, command_frame, cancel_frame, envelope_of, send_commands, send_cancels, dispatch_round,
}

module _ (c : Ed25519) where
  open c use {PrivateKey, PublicKey}

  -- A command in the frame verifies under the key.
  abbrev pub Verifies : PublicKey → Frame → Type 0
  Verifies key (command_frame env) = verify c key env ≡ none
  Verifies key (cancel_frame id) = Unit

  envelope_of-verifies :
      (priv : PrivateKey) (key : PublicKey) (nonce : GoString) (cmd : MailboxCommand) (now : ℕ)
      → IsKeyPair c priv key
      → verify c key (envelope_of c (some priv) nonce cmd now) ≡ none
  unfolding envelope_of
  envelope_of-verifies priv key nonce cmd now pair = verify-sign c priv key _ pair

  send_commands-Verifies :
      (priv : PrivateKey) (key : PublicKey) (nonces : ℕ → GoString) (sends fails : ℕ → Bool)
      (by_id : Dict MailboxCommand) (now i : ℕ) (ids : List GoString) (store : Option Tables)
      → IsKeyPair c priv key
      → All (Verifies key) (send_commands c (some priv) nonces sends fails by_id now i ids store).0
  unfolding send_commands
  send_commands-Verifies priv key nonces sends fails by_id now i [] store pair = tt
  send_commands-Verifies priv key nonces sends fails by_id now i (id ∷ ids) store pair =
      elim (Option-cases (lookup id by_id)) [
        | inl missing ↦
            rw (send_commands, missing)
              (send_commands-Verifies priv key nonces sends fails by_id now i ids store pair)
        | inr (cmd, found) ↦ elim (Bool-cases (sends i)) [
          | inl sent ↦
              rw (send_commands, found, sent)
                (
                  envelope_of-verifies priv key (nonces i) cmd now pair,
                  send_commands-Verifies priv key nonces sends fails by_id now (i + 1) ids _ pair,
                )
          | inr lost ↦ rw (send_commands, found, lost) tt
        ]
      ]

  send_cancels-Verifies :
      (key : PublicKey) (sends : ℕ → Bool) (i : ℕ) (ids : List GoString)
      → All (Verifies key) (send_cancels c sends i ids).0
  unfolding send_cancels
  send_cancels-Verifies key sends i [] = tt
  send_cancels-Verifies key sends i (id ∷ ids) = elim (Bool-cases (sends i)) [
    | inl sent ↦ rw (send_cancels, sent) (tt, send_cancels-Verifies key sends (i + 1) ids)
    | inr lost ↦ rw (send_cancels, lost) tt
  ]

  -- Every command that a connector with a signing key sends verifies under the agent's key, whatever the
  -- mailbox holds: commands, nonces and times of any kind. The keys are a pair.
  pub dispatch_round-Verifies :
      (priv : PrivateKey) (key : PublicKey) (nonces : ℕ → GoString) (sends fails : ℕ → Bool)
      (asset : GoString) (now : ℕ) (m : Mailbox) (store : Option Tables)
      → IsKeyPair c priv key
      → All (Verifies key) (dispatch_round c (some priv) nonces sends fails asset now m store).0
  unfolding dispatch_round
  dispatch_round-Verifies priv key nonces sends fails asset now m store pair =
      elim (Bool-cases
        (send_commands c (some priv) nonces sends fails (next_dispatch m asset now).2.by_id now 0
          (next_dispatch m asset now).0 store).1) [
            | inl ok ↦
                rw (dispatch_round, ok)
                  (All-append (Verifies key) _ _ commands (send_cancels-Verifies key sends _ _))
            | inr lost ↦ rw (dispatch_round, lost) commands
          ]
    where
      commands :
          All
            (Verifies key)
            (send_commands c
              (some priv)
              nonces
              sends
              fails
              (next_dispatch m asset now).2.by_id
              now
              0
              (next_dispatch m asset now).0
              store).0
      commands =
          send_commands-Verifies priv key nonces sends fails (next_dispatch m asset now).2.by_id now
            0 (next_dispatch m asset now).0 store pair

  first_refused :
      (signer : Option PrivateKey) (nonces : ℕ → GoString) (sends fails : ℕ → Bool)
      (by_id : Dict MailboxCommand) (now : ℕ) (ids : List GoString) (store : Option Tables)
      (id : GoString)
      → sends 0 ≡ false
      → All (λ i. Known i by_id) ids
      → Any (λ i. i ≡ id) ids
      → send_commands c signer nonces sends fails by_id now 0 ids store ≡ ([], false, store)
  unfolding send_commands
  first_refused signer nonces sends fails by_id now [] store id shut known h = absurd h
  first_refused signer nonces sends fails by_id now (i ∷ ids) store id shut known h =
      elim (Option-cases (lookup i by_id)) [
        | inl missing ↦ absurd (known.0 missing)
        | inr (cmd, found) ↦ rw (send_commands, found, shut) refl
      ]

  -- When the stream refuses the first command of a round, no frame of the round is sent, each of its commands
  -- counts as dispatched in the mailbox after the round, and whatever calls follow, no later round has it.
  pub refused_lost :
      (signer : Option PrivateKey) (nonces : ℕ → GoString) (sends fails : ℕ → Bool) (a b : GoString)
      (now later : ℕ) (m : Mailbox) (store : Option Tables) (cs : List MailboxCall) (id : GoString)
      → sends 0 ≡ false
      → Any (λ i. i ≡ id) (next_dispatch m a now).0
      → let (frames, ok, m', store') = dispatch_round c signer nonces sends fails a now m store in
        (frames ≡ [])
        × (ok ≡ false)
        × (state_of m'.by_id id ≡ some dispatched)
        × ¬ Any (λ i. i ≡ id) (next_dispatch (after_calls m' cs) b later).0
  unfolding dispatch_round
  refused_lost signer nonces sends fails a b now later m store cs id shut taken =
      rw
        (
          dispatch_round,
          first_refused signer nonces sends fails (next_dispatch m a now).2.by_id now
              (next_dispatch m a now).0 store id shut (next_dispatch-Known m a now) taken,
        )
        (
          refl,
          refl,
          next_dispatch-dispatched m a now id taken,
          (sent_once m a b now later cs id).1 taken,
        )
