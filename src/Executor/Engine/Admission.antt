-- ===== src/Executor/Engine/Admission.antt =====
-- Which envelopes are queued, and that each of the others is answered.
use tom_ai_agent.Base.{
  ltb, leb, ltb→lt, Bool-cases, Option-cases, length, ◌<◌, ◌≡◌, refl, ap, ◌⊎◌, inl, inr, Bool, true,
  false, ◌&&◌, none, some, [], ◌∷◌, ◌++◌, arith,
}
use tom_ai_agent.Base.Int.{ℤ, pos, ◌≤ℤ◌, ltb_ℤ}
use tom_ai_agent.Authenv.{CommandEnvelope, VerifyError, Ed25519, verify}
use tom_ai_agent.Authenv.Nonces.{NonceCache, NonceError, check}
use tom_ai_agent.Executor.Engine.{
  rejected_busy, rejected_policy, Refusal, refusal, queue_full, envelope_expired, signature_invalid,
  nonce_required, nonce_refused, Result, unrun, Engine, validate, submit, report_immediate, reject,
  command_of, is_queued, admit, submit_envelope,
}

module _ (c : Ed25519) where
  open c use {PublicKey}

  -- Everything that a queued envelope has passed in an engine with a key.
  pub record Authorised (e : Engine c) (key : PublicKey) (env : CommandEnvelope) (now : ℤ)
      : Type 0 where
    pub verified : verify c key env ≡ none
    pub has_nonce : 0 < length env.nonce
    pub fresh : (check e.nonces env.nonce env.expires_at now).0 ≡ none
    pub unexpired : (env.expires_at ≤ℤ pos 0) ⊎ (now ≤ℤ env.expires_at)
    pub allowed : validate c e (command_of c env) ≡ none
    pub room : length e.queue < e.queue_size

  -- The envelope is answered with a refusal, and the queue stays.
  pub record Refused (e : Engine c) (env : CommandEnvelope) (e' : Engine c) : Type 0 where
    pub result : Result
    pub names : result.cmd_id ≡ env.cmd_id
    pub refusal_status : (result.status ≡ rejected_busy) ⊎ (result.status ≡ rejected_policy)
    pub queue_stays : e'.queue ≡ e.queue
    pub answered : e'.results ≡ e.results ++ result ∷ []

  -- The envelope is queued behind the others, and not answered yet.
  pub record Taken (e : Engine c) (env : CommandEnvelope) (e' : Engine c) : Type 0 where
    pub queued_last : e'.queue ≡ e.queue ++ command_of c env ∷ []
    pub unanswered : e'.results ≡ e.results

  reject-Refused :
      (e e' : Engine c) (env : CommandEnvelope) (r : Refusal) (now : ℤ)
      → e'.queue ≡ e.queue
      → e'.results ≡ e.results
      → Refused e env (reject c e' env r now)
  unfolding reject report_immediate unrun
  reject-Refused e e' env r now q res = record {
    result = unrun env.cmd_id rejected_policy (refusal r) now;
    names = refl;
    refusal_status = inr refl;
    queue_stays = q;
    answered = ap (λ x. x ++ unrun env.cmd_id rejected_policy (refusal r) now ∷ []) res;
  }

  abbrev is_expired : CommandEnvelope → ℤ → Bool
  is_expired env now = ltb_ℤ (pos 0) env.expires_at && ltb_ℤ env.expires_at now

  -- What `admit` does, on each of its branches.
  admit-cases :
      (e : Engine c) (env : CommandEnvelope) (now : ℤ)
      → Refused e env (admit c e env now)
        ⊎ (Taken e env (admit c e env now)
            × ((env.expires_at ≤ℤ pos 0) ⊎ (now ≤ℤ env.expires_at))
            × (validate c e (command_of c env) ≡ none)
            × (length e.queue < e.queue_size))
  unfolding admit submit is_queued report_immediate unrun command_of
  admit-cases e env now = elim (Bool-cases (is_expired env now)) [
    | inl old ↦ inl (rw (admit, old) (reject-Refused e e env envelope_expired now refl refl))
    | inr young ↦ elim (Option-cases (validate c e (command_of c env))) [
      | inr (r, bad) ↦ inl (
          rw (admit, young, submit, bad)
            (record {
              result = unrun env.cmd_id rejected_policy (refusal r) now;
              names = refl;
              refusal_status = inr refl;
              queue_stays = refl;
              answered = refl;
            }))
      | inl good ↦ elim (Bool-cases (ltb (length e.queue) e.queue_size)) [
        | inl room ↦ inr (
          rw (admit, young, submit, good, room) (record { queued_last = refl; unanswered = refl }),
          ground arith,
          good,
          ltb→lt _ _ room,
        )
        | inr full ↦ inl (
            rw (admit, young, submit, good, full)
              (record {
                result = unrun env.cmd_id rejected_busy (refusal queue_full) now;
                names = refl;
                refusal_status = inl refl;
                queue_stays = refl;
                answered = refl;
              }))
      ]
    ]
  ]

  moved :
      (e : Engine c) (nonces : NonceCache) (env : CommandEnvelope) (e' : Engine c)
      → Refused (record e { nonces = nonces }) env e'
      → Refused e env e'
  moved e nonces env e' h = record {
    result = h.result;
    names = h.names;
    refusal_status = h.refusal_status;
    queue_stays = h.queue_stays;
    answered = h.answered;
  }

  unfoldable pub checked : Engine c → CommandEnvelope → ℤ → Engine c
  checked e env now = record e { nonces = (check e.nonces env.nonce env.expires_at now).1 }

  -- The checks of the signature and of the nonce, one at a time.
  module _ (e : Engine c) (key : PublicKey) (env : CommandEnvelope) (now : ℤ)
      (keyed : e.verify_key ≡ some key) where
    pub submit_unsigned :
        (error : VerifyError)
        → verify c key env ≡ some error
        → submit_envelope c e env now ≡ reject c e env (signature_invalid error) now
    unfolding submit_envelope
    submit_unsigned error bad = ground arith

    pub submit_bare :
        verify c key env ≡ none
        → leb (length env.nonce) 0 ≡ true
        → submit_envelope c e env now ≡ reject c e env nonce_required now
    unfolding submit_envelope
    submit_bare sound bare = ground arith

    pub submit_replayed :
        (error : NonceError)
        → verify c key env ≡ none
        → leb (length env.nonce) 0 ≡ false
        → (check e.nonces env.nonce env.expires_at now).0 ≡ some error
        → submit_envelope c e env now ≡ reject c (checked e env now) env (nonce_refused error) now
    unfolding submit_envelope checked
    submit_replayed error sound nonce seen = ground arith

    pub submit_checked :
        verify c key env ≡ none
        → leb (length env.nonce) 0 ≡ false
        → (check e.nonces env.nonce env.expires_at now).0 ≡ none
        → submit_envelope c e env now ≡ admit c (checked e env now) env now
    unfolding submit_envelope checked
    submit_checked sound nonce fresh = ground arith

  -- With a verification key, every envelope is either refused, and then answered at once with its id
  -- and left out of the queue, or it is queued as the last one without an answer; the latter only if
  -- its signature verifies, it has a nonce that is new, it has not expired, its action is in the
  -- catalog and takes its parameters, and the queue has room.
  pub submit_envelope-cases :
      (e : Engine c) (key : PublicKey) (env : CommandEnvelope) (now : ℤ)
      → e.verify_key ≡ some key
      → Refused e env (submit_envelope c e env now)
        ⊎ (Taken e env (submit_envelope c e env now) × Authorised e key env now)
  unfolding validate checked
  submit_envelope-cases e key env now keyed = elim (Option-cases (verify c key env)) [
    | inr (error, bad) ↦ inl (
        rw (submit_unsigned e key env now keyed error bad)
          (reject-Refused e e env (signature_invalid error) now refl refl))
    | inl sound ↦ elim (Bool-cases (leb (length env.nonce) 0)) [
      | inl bare ↦ inl (
          rw (submit_bare e key env now keyed sound bare)
            (reject-Refused e e env nonce_required now refl refl))
      | inr nonce ↦ elim (Option-cases (check e.nonces env.nonce env.expires_at now).0) [
        | inr (error, seen) ↦ inl (
            rw (submit_replayed e key env now keyed error sound nonce seen)
              (reject-Refused e (checked e env now) env (nonce_refused error) now refl refl))
        | inl fresh ↦
            rw (submit_checked e key env now keyed sound nonce fresh)
              (elim (admit-cases (checked e env now) env now) [
                | inl refused ↦
                    inl (moved e (check e.nonces env.nonce env.expires_at now).1 env _ refused)
                | inr taken ↦ inr (
                  record { queued_last = taken.0.queued_last; unanswered = taken.0.unanswered },
                  record {
                    verified = sound;
                    has_nonce = ground arith;
                    fresh = fresh;
                    unexpired = taken.1;
                    allowed = taken.2;
                    room = taken.3;
                  },
                )
              ])
      ]
    ]
  ]
