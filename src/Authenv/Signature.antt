-- ===== src/Authenv/Signature.antt =====
-- Signing and verifying envelopes, for any signature scheme on bytes.
use tom_ai_agent.Base.{
  Bool-cases, length, All, str_eq, GoString, str_eq_iff, ◌≡◌, refl, ◌≢◌, ◌⊎◌, inl, inr, true, none,
  some, List, [], ◌∷◌, arith, Any,
}
use tom_ai_agent.Authenv.{
  CommandEnvelope, malformed, Ed25519, canonical_bytes, write_times, sign, verify,
}
use tom_ai_agent.Authenv.Canonical.{IsEnvelope, SameOrder, canonical_bytes-SameOrder}

module _ (c : Ed25519) where
  open c use {PrivateKey, PublicKey, sign_bytes, verify_bytes}

  -- What crypto/ed25519 documents of a key pair: a signature has 64 bytes, and is verified.
  pub record IsKeyPair (priv : PrivateKey) (key : PublicKey) : Type 0 where
    pub size : (m : GoString) → length (sign_bytes priv m) ≡ 64
    pub verified : (m : GoString) → verify_bytes key m (sign_bytes priv m) ≡ true

  -- The signature is not part of what it signs.
  canonical_bytes-sign :
      (priv : PrivateKey) (env : CommandEnvelope)
      → canonical_bytes (sign c priv env) ≡ canonical_bytes env
  unfolding sign canonical_bytes write_times
  canonical_bytes-sign priv env = refl

  signature-sign :
      (priv : PrivateKey) (env : CommandEnvelope)
      → (sign c priv env).signature ≡ sign_bytes priv (canonical_bytes env)
  unfolding sign
  signature-sign priv env = refl

  -- What the platform signs, the agent verifies.
  pub verify-sign :
      (priv : PrivateKey) (key : PublicKey) (env : CommandEnvelope)
      → IsKeyPair priv key
      → verify c key (sign c priv env) ≡ none
  unfolding verify
  verify-sign priv key env pair =
      rw (canonical_bytes-sign, signature-sign, pair.size, pair.verified)

  -- An envelope with a signature of another length than 64 is refused before the scheme is asked.
  verify_short :
      (key : PublicKey) (env : CommandEnvelope)
      → length env.signature ≢ 64
      → verify c key env ≡ some malformed
  unfolding verify
  verify_short key env h = ground arith

  verify-none :
      (key : PublicKey) (env : CommandEnvelope)
      → verify c key env ≡ none
      → verify_bytes key (canonical_bytes env) env.signature ≡ true
  unfolding verify
  verify-none key env e = ground arith

  verify_size :
      (key : PublicKey) (env : CommandEnvelope)
      → verify c key env ≡ none
      → length env.signature ≡ 64
  unfolding verify
  verify_size key env e = ground arith

  -- Bytes that verify under the key although none of the envelopes has them as what it signs.
  pub record IsForgery (key : PublicKey) (signed : List CommandEnvelope) (m s : GoString)
      : Type 0 where
    pub verifies : verify_bytes key m s ≡ true
    pub unsigned : ¬ Any (λ e. canonical_bytes e ≡ m) signed

  same_as_signed :
      (env : CommandEnvelope) (signed : List CommandEnvelope)
      → IsEnvelope env
      → All IsEnvelope signed
      → Any (λ e. SameOrder e env) signed
        ⊎ ¬ Any (λ e. canonical_bytes e ≡ canonical_bytes env) signed
  same_as_signed env [] h hs = inr (λ a. a)
  same_as_signed env (e ∷ signed) h hs =
      elim (Bool-cases (str_eq (canonical_bytes e) (canonical_bytes env))) [
        | inl same ↦ inl (
            inl (
              canonical_bytes-SameOrder e env hs.0 h
                ((str_eq_iff (canonical_bytes e) (canonical_bytes env)).0 same)))
        | inr other ↦ elim (same_as_signed env signed h hs.1) [
          | inl later ↦ inl (inr later)
          | inr none_of ↦ inr (λ a. elim a [
            | inl same ↦ absurd (let e = (str_eq_iff _ _).1 same in cc (e, other))
            | inr later ↦ none_of later
          ])
        ]
      ]

  -- An envelope that the agent verifies has a signature of 64 bytes, and either orders what one of the
  -- envelopes orders that the platform signed, so that nothing but signature bytes can have been changed, or
  -- it is a forgery of the signature scheme: its signature verifies on bytes that the platform did not sign.
  -- It is assumed that the fields fit their widths, and nothing of the scheme.
  pub verify_untampered :
      (key : PublicKey) (signed : List CommandEnvelope) (env : CommandEnvelope)
      → IsEnvelope env
      → All IsEnvelope signed
      → verify c key env ≡ none
      → (length env.signature ≡ 64)
        × (Any (λ e. SameOrder e env) signed
            ⊎ IsForgery key signed (canonical_bytes env) env.signature)
  verify_untampered key signed env h hs e = (
    verify_size key env e,
    elim (same_as_signed env signed h hs) [
      | inl ordered ↦ inl ordered
      | inr fresh ↦ inr (record { verifies = verify-none key env e; unsigned = fresh })
    ],
  )
