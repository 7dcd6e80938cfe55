-- ===== src/Authenv/Examples.antt =====
-- Tests of the envelope and the nonces, and their theorems at concrete inputs.
use mathlib.Core.List.Perm
use tom_ai_agent.Base.{
  length, replicate, str_eq, GoString, codes, str_eq_iff, lookup, ◌≡◌, refl, ◌⊎◌, none, [], ◌∷◌,
  arith, Any,
}
use tom_ai_agent.Base.Int.{pos}
use tom_ai_agent.Authenv.{CommandEnvelope, Ed25519, canonical_bytes, verify, value_at}
use tom_ai_agent.Authenv.Canonical.{IsEnvelope, SameOrder, canonical_bytes-SameOrder}
use tom_ai_agent.Authenv.MapOrder.{canonical_bytes_order}
use tom_ai_agent.Authenv.Signature.{IsKeyPair, IsForgery, verify_untampered}

abbrev restart : CommandEnvelope
restart = record {
  cmd_id = codes "c-1";
  action = codes "service.restart";
  params = (codes "unit", codes "nginx") ∷ (codes "mode", codes "soft") ∷ [];
  timeout_sec = 30;
  issued_at = pos 1000;
  expires_at = pos 61000;
  nonce = 7 ∷ 255 ∷ [];
  signature = [];
}

restart-IsEnvelope : (signature : GoString) → IsEnvelope (record restart { signature = signature })
unfolding value_at lookup str_eq
restart-IsEnvelope signature = record {
  cmd_id_fits = omega arith;
  action_fits = omega arith;
  count_fits = omega arith;
  params_fit = ((omega arith, omega arith), ((omega arith, omega arith), tt));
  timeout_fits = omega arith;
  issued_fits = omega arith;
  expires_fits = omega arith;
  nonce_fits = omega arith;
}

-- The same parameters, walked in the other order.
abbrev reordered : CommandEnvelope
reordered = record restart {
  params = (codes "mode", codes "soft") ∷ (codes "unit", codes "nginx") ∷ [];
}

canonical_bytes_order_example : canonical_bytes reordered ≡ canonical_bytes restart
unfolding lookup
canonical_bytes_order_example =
    canonical_bytes_order restart reordered.params (Perm.swap _ _ []) same
  where
    same : (k : GoString) → lookup k restart.params ≡ lookup k reordered.params
    same k = ground (arith, str_eq_iff (codes "unit") k, str_eq_iff (codes "mode") k)

reordered-IsEnvelope : IsEnvelope reordered
unfolding value_at lookup str_eq
reordered-IsEnvelope = record {
  cmd_id_fits = omega arith;
  action_fits = omega arith;
  count_fits = omega arith;
  params_fit = ((omega arith, omega arith), ((omega arith, omega arith), tt));
  timeout_fits = omega arith;
  issued_fits = omega arith;
  expires_fits = omega arith;
  nonce_fits = omega arith;
}

canonical_bytes-SameOrder_example : SameOrder reordered restart
canonical_bytes-SameOrder_example =
    canonical_bytes-SameOrder reordered restart reordered-IsEnvelope (restart-IsEnvelope [])
      canonical_bytes_order_example

-- A scheme that stamps all bytes alike.
abbrev stamp : Ed25519
stamp = record {
  PrivateKey = Unit {0};
  PublicKey = Unit {0};
  sign_bytes = λ _ m. replicate 64 1;
  verify_bytes = λ _ m s. str_eq s (replicate 64 1);
}

stamp-IsKeyPair : IsKeyPair stamp tt tt
unfolding str_eq
stamp-IsKeyPair = record { size = λ m. refl; verified = λ m. refl }

abbrev signed_restart : CommandEnvelope
signed_restart = record restart { signature = replicate 64 1 }

stamp_verifies : verify stamp tt signed_restart ≡ none
unfolding verify str_eq
stamp_verifies = refl

verify_untampered_example :
    (length signed_restart.signature ≡ 64)
    × (Any (λ e. SameOrder e signed_restart) (restart ∷ [])
        ⊎ IsForgery stamp tt
            (restart ∷ [])
            (canonical_bytes signed_restart)
            signed_restart.signature)
verify_untampered_example =
    verify_untampered stamp tt (restart ∷ []) signed_restart (restart-IsEnvelope (replicate 64 1))
      (restart-IsEnvelope [], tt) stamp_verifies
