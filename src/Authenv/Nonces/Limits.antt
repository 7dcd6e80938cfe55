-- ===== src/Authenv/Nonces/Limits.antt =====
-- Where the cache stops remembering, and where it does not stop growing.
use tom_ai_agent.Base.Int.{ℤ, ◌≤ℤ◌}
use tom_ai_agent.Base.{
  length, All, length-append, GoString, lookup, Dict, ◌+◌, ◌≤◌, ◌<◌, ◌≡◌, refl, ap, ◌∙◌, true,
  false, none, some, List, [], ◌∷◌, arith,
}
use tom_ai_agent.Authenv.Sorting.{contains}
use tom_ai_agent.Authenv.Nonces.{NonceCache, hex, is_live, sweep, clean, record_key, check}
use tom_ai_agent.Authenv.Nonces.Replay.{sweep_expired}

dead_of_expired :
    (key : GoString) (items : Dict ℤ) (e now : ℤ)
    → lookup key items ≡ some e
    → e ≤ℤ now
    → is_live now key items ≡ false
unfolding is_live
dead_of_expired key items e now found old = ground arith

cleaned :
    (c : NonceCache) (key : GoString) (now : ℤ)
    → 0 < length c.order
    → c.cap ≤ length c.items
    → contains key c.order ≡ true
    → is_live now key c.items ≡ false
    → lookup key (clean c now).items ≡ none
unfolding clean
cleaned c key now some_order full listed dead =
    ground (arith, sweep_expired now key c.order c.items listed dead)

-- A full cache forgets a nonce at the millisecond of its expiry, and so takes it again.
expired_accepted :
    (c : NonceCache) (nonce : GoString) (e x now : ℤ)
    → 0 < length c.order
    → c.cap ≤ length c.items
    → contains (hex nonce) c.order ≡ true
    → lookup (hex nonce) c.items ≡ some e
    → e ≤ℤ now
    → (check c nonce x now).0 ≡ none
unfolding check record_key
expired_accepted c nonce e x now some_order full listed found old = rw (
  cleaned c (hex nonce) now some_order full listed
      (dead_of_expired (hex nonce) c.items e now found old),
  record_key,
)

-- Nothing is dropped while no nonce of the cache has expired.
sweep-All_live :
    (now : ℤ) (ks : List GoString) (items : Dict ℤ)
    → All (λ k. is_live now k items ≡ true) ks
    → sweep now ks items ≡ (ks, items)
unfolding sweep
sweep-All_live now [] items live = refl
sweep-All_live now (k ∷ ks) items live =
    rw live.0
      (ap (λ (r : List GoString × Dict ℤ). (k ∷ r.0, r.1)) (sweep-All_live now ks items live.1))

clean-All_live :
    (c : NonceCache) (now : ℤ) → All (λ k. is_live now k c.items ≡ true) c.order → clean c now ≡ c
unfolding clean
clean-All_live c now live = ground (arith, sweep-All_live now c.order c.items live)

length-order_recorded :
    (c : NonceCache) (key : GoString) (e : ℤ)
    → lookup key c.items ≡ none
    → length (record_key c key e).1.order ≡ length c.order + 1
unfolding record_key
length-order_recorded c key e fresh = ground (arith, length-append c.order (key ∷ []))

-- While no nonce of the cache has expired, each new nonce makes it longer by one, also when it is
-- at its capacity or beyond.
grows_past_cap :
    (c : NonceCache) (nonce : GoString) (e now : ℤ)
    → All (λ k. is_live now k c.items ≡ true) c.order
    → lookup (hex nonce) c.items ≡ none
    → length (check c nonce e now).1.order ≡ length c.order + 1
unfolding check
grows_past_cap c nonce e now live fresh =
    ap (λ d. length (record_key d (hex nonce) e).1.order) (clean-All_live c now live)
    ∙ length-order_recorded c (hex nonce) e fresh
