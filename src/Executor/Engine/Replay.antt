-- ===== src/Executor/Engine/Replay.antt =====
-- An envelope that is sent again does not run again.
use mathlib.Core.List.{cons-eq-cons}
use tom_ai_agent.Base.{
  leb, Bool-cases, Option-cases, length, All, GoString, lookup, ◌≡◌, refl, sym, ap, ◌∙◌, ◌⊎◌, inl,
  inr, some, List, [], ◌∷◌, ◌++◌, arith,
}
use tom_ai_agent.Base.Int.{ℤ, ◌<ℤ◌}
use tom_ai_agent.Authenv.{CommandEnvelope, Ed25519, verify}
use tom_ai_agent.Authenv.Nonces.{hex, check}
use tom_ai_agent.Authenv.Nonces.Replay.{check_keeps, accepted_recorded, known_refused}
use tom_ai_agent.Executor.Engine.{
  Command, Engine, submit, report_immediate, reject, command_of, admit, submit_envelope,
}
use tom_ai_agent.Executor.Engine.Admission.{
  Authorised, checked, submit_unsigned, submit_bare, submit_replayed, submit_checked,
  submit_envelope-cases,
}

module _ (c : Ed25519) where
  open c use {PublicKey}

  -- Envelopes that come in one after the other, each with its time.
  unfoldable pub submit_all : Engine c → List (CommandEnvelope × ℤ) → Engine c
  submit_all e [] = e
  submit_all e ((env, now) ∷ later) = submit_all (submit_envelope c e env now) later

  nonces-admit :
      (e : Engine c) (env : CommandEnvelope) (now : ℤ) → (admit c e env now).nonces ≡ e.nonces
  unfolding admit submit reject report_immediate
  nonces-admit e env now = ground arith

  verify_key-admit :
      (e : Engine c) (env : CommandEnvelope) (now : ℤ)
      → (admit c e env now).verify_key ≡ e.verify_key
  unfolding admit submit reject report_immediate
  verify_key-admit e env now = ground arith

  -- An envelope leaves the key, and the cache as it was or as the check leaves it.
  record Passes (e : Engine c) (env : CommandEnvelope) (now : ℤ) (e' : Engine c) : Type 0 where
    key_stays : e'.verify_key ≡ e.verify_key
    cache : (e'.nonces ≡ e.nonces) ⊎ (e'.nonces ≡ (check e.nonces env.nonce env.expires_at now).1)

  module _ (e : Engine c) (key : PublicKey) (env : CommandEnvelope) (now : ℤ)
      (keyed : e.verify_key ≡ some key) where
    passes : Passes e env now (submit_envelope c e env now)
    unfolding reject report_immediate checked
    passes = elim (Option-cases (verify c key env)) [
      | inr (error, bad) ↦
          rw (submit_unsigned c e key env now keyed error bad)
            (record { key_stays = refl; cache = inl refl })
      | inl sound ↦ elim (Bool-cases (leb (length env.nonce) 0)) [
        | inl bare ↦
            rw (submit_bare c e key env now keyed sound bare)
              (record { key_stays = refl; cache = inl refl })
        | inr nonce ↦ elim (Option-cases (check e.nonces env.nonce env.expires_at now).0) [
          | inr (error, seen) ↦
              rw (submit_replayed c e key env now keyed error sound nonce seen)
                (record { key_stays = refl; cache = inr refl })
          | inl fresh ↦ rw (submit_checked c e key env now keyed sound nonce fresh) (record {
            key_stays = verify_key-admit (checked c e env now) env now;
            cache = inr (nonces-admit (checked c e env now) env now);
          })
        ]
      ]
    ]

    remembers :
        (k : GoString) (x : ℤ)
        → lookup k e.nonces.items ≡ some x
        → now <ℤ x
        → lookup k (submit_envelope c e env now).nonces.items ≡ some x
    remembers k x found live = elim passes.cache [
      | inl same ↦ rw same found
      | inr moved ↦ rw moved (check_keeps e.nonces env.nonce k x env.expires_at now found live)
    ]

    -- With a nonce that the cache holds, the queue stays.
    known_unqueued :
        (x : ℤ)
        → lookup (hex env.nonce) e.nonces.items ≡ some x
        → now <ℤ x
        → (submit_envelope c e env now).queue ≡ e.queue
    known_unqueued x found live = elim (submit_envelope-cases c e key env now keyed) [
      | inl refused ↦ refused.queue_stays
      | inr taken ↦
          absurd
            (cc (taken.1.fresh, known_refused e.nonces env.nonce x env.expires_at now found live))
    ]

  remembers_calls :
      (e : Engine c) (key : PublicKey) (later : List (CommandEnvelope × ℤ)) (k : GoString) (x : ℤ)
      → e.verify_key ≡ some key
      → lookup k e.nonces.items ≡ some x
      → All (λ call. call.1 <ℤ x) later
      → ((submit_all e later).verify_key ≡ some key)
        × (lookup k (submit_all e later).nonces.items ≡ some x)
  unfolding submit_all
  remembers_calls e key [] k x keyed found before = (keyed, found)
  remembers_calls e key ((env, now) ∷ later) k x keyed found before =
      remembers_calls (submit_envelope c e env now) key later k x
        ((passes e key env now keyed).key_stays ∙ keyed)
        (remembers e key env now keyed k x found before.0) before.1

  not_longer : (q : List Command) (x : Command) → q ++ x ∷ [] ≡ q → ⊥
  not_longer [] x e = cc e
  not_longer (y ∷ q) x e = not_longer q x (cons-eq-cons.0 e).1

  recorded :
      (e : Engine c) (key : PublicKey) (env : CommandEnvelope) (now : ℤ)
      → e.verify_key ≡ some key
      → Authorised c e key env now
      → lookup (hex env.nonce) (submit_envelope c e env now).nonces.items ≡ some env.expires_at
  unfolding checked
  recorded e key env now keyed a =
      rw
        (
          submit_checked c e key env now keyed a.verified (ground (arith, a.has_nonce)) a.fresh,
          nonces-admit,
        )
        (accepted_recorded e.nonces env.nonce env.expires_at now a.fresh)

  -- An envelope was queued by an engine with a verification key. Until it expires, whatever other
  -- envelopes come in, no envelope with its nonce is queued, be it the same one or another.
  pub replayed_unqueued :
      (e : Engine c) (key : PublicKey) (env again : CommandEnvelope) (t now : ℤ)
      (later : List (CommandEnvelope × ℤ))
      → e.verify_key ≡ some key
      → (submit_envelope c e env t).queue ≡ e.queue ++ command_of c env ∷ []
      → All (λ call. call.1 <ℤ env.expires_at) later
      → again.nonce ≡ env.nonce
      → now <ℤ env.expires_at
      → (submit_envelope c (submit_all (submit_envelope c e env t) later) again now).queue
        ≡ (submit_all (submit_envelope c e env t) later).queue
  replayed_unqueued e key env again t now later keyed entered before same live =
      elim (submit_envelope-cases c e key env t keyed) [
        | inl refused ↦
            absurd (not_longer e.queue (command_of c env) (sym entered ∙ refused.queue_stays))
        | inr taken ↦
            let after =
              remembers_calls (submit_envelope c e env t) key later (hex env.nonce) env.expires_at
                ((passes e key env t keyed).key_stays ∙ keyed) (recorded e key env t keyed taken.1)
                before in
            known_unqueued (submit_all (submit_envelope c e env t) later) key again now after.0
              env.expires_at
              (ap (λ n. lookup (hex n) (submit_all (submit_envelope c e env t) later).nonces.items)
                  same
                ∙ after.1)
              live
      ]
