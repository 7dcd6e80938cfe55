-- ===== src/Authenv/Nonces/Examples.antt =====
-- The theorems on the cache of nonces at a small cache.
use tom_ai_agent.Base.{GoString, codes, lookup, ◌≡◌, refl, none, some, List, [], ◌∷◌, arith}
use tom_ai_agent.Base.Int.{pos}
use tom_ai_agent.Authenv.Nonces.{replay, new_nonce_cache, hex_digit, hex, check}
use tom_ai_agent.Authenv.Nonces.Replay.{NonceCall, run, replay_refused, fresh_accepted}

abbrev nonce_a : GoString
nonce_a = 1 ∷ 2 ∷ []

abbrev nonce_b : GoString
nonce_b = 1 ∷ 3 ∷ []

hex_text : hex (10 ∷ 255 ∷ []) ≡ codes "0aff"
unfolding hex hex_digit
hex_text = refl

abbrev between : List NonceCall
between = record { nonce = nonce_b; expires_at = pos 900; now = pos 20 } ∷ []

-- A cache of capacity one is cleaned by each further call.
replay_refused_example :
    (check
      (run (check (new_nonce_cache 1) nonce_a (pos 500) (pos 10)).1 between)
      nonce_a
      (pos 500)
      (pos 30)).0
    ≡ some replay
replay_refused_example =
    replay_refused (new_nonce_cache 1) nonce_a (pos 500) (pos 10) between (pos 500) (pos 30) fresh
      (omega arith, tt) (omega arith)
  where
    fresh : (check (new_nonce_cache 1) nonce_a (pos 500) (pos 10)).0 ≡ none
    fresh =
        unfold new_nonce_cache lookup in
        fresh_accepted (new_nonce_cache 1) nonce_a (pos 500) (pos 10) refl
