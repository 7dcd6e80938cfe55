-- ===== src/Executor/Engine/Examples.antt =====
-- The theorems on the engine at one whose scheme verifies every signature of 64 bytes.
use tom_ai_agent.Base.{
  replicate, str_eq, codes, lookup, ◌≡◌, refl, ◌⊎◌, true, false, none, some, [], ◌∷◌, arith,
}
use tom_ai_agent.Base.Int.{pos, ◌<ℤ◌, ◌≤ℤ◌}
use tom_ai_agent.Authenv.{CommandEnvelope, Ed25519, verify}
use tom_ai_agent.Authenv.Nonces.{check, record_key, clean, hex, hex_digit}
use tom_ai_agent.Executor.Actions.{Action}
use tom_ai_agent.Executor.Engine.{
  effective_timeout, Engine, validate, submit, report_immediate, reject, command_of, is_queued,
  admit, submit_envelope, unrun,
}
use tom_ai_agent.Executor.Engine.Timeout.{timeout_bounded}
use tom_ai_agent.Executor.Engine.Admission.{Refused, Taken, Authorised, submit_envelope-cases}
use tom_ai_agent.Executor.Engine.Replay.{submit_all, replayed_unqueued}

abbrev trusting : Ed25519
trusting = record {
  PrivateKey = Unit {0};
  PublicKey = Unit {0};
  sign_bytes = λ _ m. replicate 64 1;
  verify_bytes = λ _ m s. true;
}

abbrev df : Action
df = record {
  id = codes "diagnose.disk_usage";
  risk = codes "low";
  validate = none;
  binary = codes "/usr/bin/df";
  args = codes "-h" ∷ [];
  is_func = false;
  plugin_to = pos 0;
}

abbrev idle : Engine trusting
idle = record {
  catalog = (df.id, df) ∷ [];
  verify_key = some tt;
  nonces = record { cap = 10000; items = []; order = [] };
  queue_size = 2;
  queue = [];
  running = [];
  results = [];
}

abbrev order_df : CommandEnvelope
order_df = record {
  cmd_id = codes "c-1";
  action = df.id;
  params = [];
  timeout_sec = 30;
  issued_at = pos 1000;
  expires_at = pos 61000;
  nonce = 7 ∷ [];
  signature = replicate 64 1;
}

taken_once :
    (submit_envelope trusting idle order_df (pos 2000)).queue ≡ command_of trusting order_df ∷ []
unfolding submit_envelope verify check clean record_key admit submit validate is_queued lookup
    str_eq command_of hex hex_digit report_immediate reject unrun
taken_once = refl

submit_envelope-cases_example :
    Refused trusting idle order_df (submit_envelope trusting idle order_df (pos 2000))
    ⊎ (Taken trusting idle order_df (submit_envelope trusting idle order_df (pos 2000))
        × Authorised trusting idle tt order_df (pos 2000))
submit_envelope-cases_example = submit_envelope-cases trusting idle tt order_df (pos 2000) refl

abbrev other_order : CommandEnvelope
other_order = record order_df { cmd_id = codes "c-2"; nonce = 8 ∷ [] }

replayed_unqueued_example :
    let e =
      submit_all trusting
        (submit_envelope trusting idle order_df (pos 2000))
        ((other_order, pos 3000) ∷ []) in
    (submit_envelope trusting e order_df (pos 4000)).queue ≡ e.queue
replayed_unqueued_example =
    replayed_unqueued trusting idle tt order_df order_df (pos 2000) (pos 4000)
      ((other_order, pos 3000) ∷ []) refl taken_once (omega arith, tt) refl (omega arith)

-- A command that asks for an hour, with an action that takes 20 seconds at most.
timeout_bounded_example :
    (pos 0 <ℤ effective_timeout (pos 300000000000) (pos 20000000000) (pos 3600))
    × ((pos 300000000000 ≤ℤ pos 0)
        ⊎ (effective_timeout (pos 300000000000) (pos 20000000000) (pos 3600) ≤ℤ pos 300000000000))
    × ((pos 20000000000 ≤ℤ pos 0)
        ⊎ (effective_timeout (pos 300000000000) (pos 20000000000) (pos 3600) ≤ℤ pos 20000000000))
timeout_bounded_example = timeout_bounded (pos 300000000000) (pos 20000000000) (pos 3600)
