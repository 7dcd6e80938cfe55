-- ===== src/Authenv.antt =====
-- internal/authenv/authenv.go: the canonical bytes of a command envelope and their signature.
-- The cache of nonces of the same file is in the child Nonces.
mod Sorting
mod Fields
pub mod Canonical
pub mod MapOrder
pub mod Signature
pub mod Nonces
mod Examples
use tom_ai_agent.Base.BigEndian.{put_uint32, put_uint64, to_uint64}
use tom_ai_agent.Base.Int.{ℤ}
use tom_ai_agent.Base.{
  ◌==◌, if◌then◌else◌, length, GoString, codes, lookup, Dict, keys, ℕ, Bool, not, Option, none,
  some, List, [], ◌∷◌, ◌++◌,
}
use Sorting.{sort_strings}

-- agentv1.CommandEnvelope, as the proto declares it: `timeout_sec` is a uint32, the times are int64.
pub record CommandEnvelope : Type 0 where
  pub cmd_id : GoString
  pub action : GoString
  pub params : Dict GoString
  pub timeout_sec : ℕ
  pub issued_at : ℤ
  pub expires_at : ℤ
  pub nonce : GoString
  pub signature : GoString

abbrev pub magic : GoString
magic = codes "TAI-CMD-v1"

unfoldable pub write_field : GoString → GoString
write_field b = put_uint32 (length b) ++ b

-- A key that is missing reads as the empty string.
unfoldable pub value_at : GoString → Dict GoString → GoString
value_at k params = elim (lookup k params) [ none ↦ [] | some v ↦ v ]

unfoldable pub write_params : Dict GoString → List GoString → GoString
write_params params [] = []
write_params params (k ∷ ks) =
    write_field k ++ (write_field (value_at k params) ++ write_params params ks)

-- The part of the canonical bytes after the parameters.
unfoldable pub write_times : CommandEnvelope → GoString
write_times env =
    put_uint64 env.timeout_sec
    ++ (put_uint64 (to_uint64 env.issued_at)
        ++ (put_uint64 (to_uint64 env.expires_at) ++ write_field env.nonce))

unfoldable pub canonical_bytes : CommandEnvelope → GoString
canonical_bytes env =
    let ks = sort_strings (keys env.params) in
    magic
    ++ (write_field env.cmd_id
        ++ (write_field env.action
            ++ (put_uint32 (length ks) ++ (write_params env.params ks ++ write_times env))))

pub data VerifyError : Type 0 where
  malformed failed : VerifyError

-- crypto/ed25519, which the file calls: signing and verification of bytes under a key.
pub record Ed25519 : Type 1 where
  pub PrivateKey : Type 0
  pub PublicKey : Type 0
  pub sign_bytes : PrivateKey → GoString → GoString
  pub verify_bytes : PublicKey → GoString → GoString → Bool

module _ (c : Ed25519) where
  open c use {PrivateKey, PublicKey, sign_bytes, verify_bytes}

  unfoldable pub sign : PrivateKey → CommandEnvelope → CommandEnvelope
  sign priv env = record env { signature = sign_bytes priv (canonical_bytes env) }

  -- `none` is a nil error.
  unfoldable pub verify : PublicKey → CommandEnvelope → Option VerifyError
  verify key env =
      if not (length env.signature == 64)
      then some malformed
      else if not (verify_bytes key (canonical_bytes env) env.signature)
      then some failed
      else none
