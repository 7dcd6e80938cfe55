-- ===== src/Authenv/MapOrder.antt =====
-- Go walks a map in any order, and the canonical bytes are the same for each.
use mathlib.Core.List.{Perm}
use tom_ai_agent.Base.{GoString, lookup, Dict, keys, ◌≡◌, refl, List, [], ◌∷◌, arith}
use tom_ai_agent.Authenv.Sorting.{sort_strings_perm}
use tom_ai_agent.Authenv.{CommandEnvelope, value_at, write_params, write_times, canonical_bytes}

value_at_ext :
    (k : GoString) (p q : Dict GoString) → lookup k p ≡ lookup k q → value_at k p ≡ value_at k q
unfolding value_at
value_at_ext k p q same = ground arith

write_params_ext :
    (p q : Dict GoString) (ks : List GoString)
    → ((k : GoString) → lookup k p ≡ lookup k q)
    → write_params p ks ≡ write_params q ks
unfolding write_params
write_params_ext p q [] same = refl
write_params_ext p q (k ∷ ks) same = rw (value_at_ext k p q (same k), write_params_ext p q ks same)

-- Two association lists that hold the same map, their keys in different orders, give an envelope
-- the same canonical bytes.
pub canonical_bytes_order :
    (env : CommandEnvelope) (q : Dict GoString)
    → Perm (keys env.params) (keys q)
    → ((k : GoString) → lookup k env.params ≡ lookup k q)
    → canonical_bytes (record env { params = q }) ≡ canonical_bytes env
unfolding canonical_bytes write_times
canonical_bytes_order env q order same =
    rw (← sort_strings_perm order, ← write_params_ext env.params q _ same)
