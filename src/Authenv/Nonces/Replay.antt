-- ===== src/Authenv/Nonces/Replay.antt =====
-- Which replays the cache refuses, and for how long it remembers a nonce.
use tom_ai_agent.Base.Int.{ℤ, ◌<ℤ◌, ltb_ℤ}
use tom_ai_agent.Base.{
  Bool-cases, All, str_eq, GoString, str_eq_iff, str_eq_refl, lookup, delete, Dict, lookup-insert,
  lookup-delete, ◌≡◌, ap, ◌∙◌, inl, inr, true, false, none, some, List, [], ◌∷◌, arith,
}
use tom_ai_agent.Authenv.Sorting.{contains}
use tom_ai_agent.Authenv.Nonces.{
  NonceCache, replay, hex, expiry, is_live, sweep, clean, record_key, check,
}

expiry_ext : (k : GoString) (a b : Dict ℤ) → lookup k a ≡ lookup k b → expiry k a ≡ expiry k b
unfolding expiry
expiry_ext k a b same = ground arith

module _ (now : ℤ) (key : GoString) where
  live_other :
      (k : GoString) (items : Dict ℤ) (e : ℤ)
      → lookup key items ≡ some e
      → now <ℤ e
      → is_live now k items ≡ false
      → str_eq k key ≡ false
  unfolding is_live
  live_other k items e found live gone = ground (arith, str_eq_iff k key)

  -- The sweep keeps what has not expired.
  sweep_live :
      (ks : List GoString) (items : Dict ℤ) (e : ℤ)
      → lookup key items ≡ some e
      → now <ℤ e
      → lookup key (sweep now ks items).1 ≡ some e
  unfolding sweep
  sweep_live [] items e found live = found
  sweep_live (k ∷ ks) items e found live = elim (Bool-cases (is_live now k items)) [
    | inl kept ↦ rw kept (sweep_live ks items e found live)
    | inr gone ↦ rw gone (
        sweep_live ks (delete k items) e
          (rw (lookup-delete k key items, live_other k items e found live gone) found) live)
  ]

  sweep_missing :
      (ks : List GoString) (items : Dict ℤ)
      → lookup key items ≡ none
      → lookup key (sweep now ks items).1 ≡ none
  unfolding sweep
  sweep_missing [] items missing = missing
  sweep_missing (k ∷ ks) items missing = elim (Bool-cases (is_live now k items)) [
    | inl kept ↦ rw kept (sweep_missing ks items missing)
    | inr gone ↦
        rw gone (sweep_missing ks (delete k items) (ground (arith, lookup-delete k key items)))
  ]

  live_delete :
      (k : GoString) (items : Dict ℤ)
      → str_eq k key ≡ false
      → is_live now key (delete k items) ≡ is_live now key items
  unfolding is_live
  live_delete k items other =
      ap (ltb_ℤ now) (expiry_ext key (delete k items) items (rw (lookup-delete k key items, other)))

  -- The sweep drops what has expired, if `order` lists it.
  pub sweep_expired :
      (ks : List GoString) (items : Dict ℤ)
      → contains key ks ≡ true
      → is_live now key items ≡ false
      → lookup key (sweep now ks items).1 ≡ none
  unfolding sweep contains
  sweep_expired [] items listed old = cc
  sweep_expired (k ∷ ks) items listed old = elim (Bool-cases (str_eq k key)) [
    | inl here ↦
        rw ((str_eq_iff k key).0 here, old)
          (sweep_missing ks (delete key items) (rw (lookup-delete key key items, str_eq_refl key)))
    | inr there ↦ elim (Bool-cases (is_live now k items)) [
      | inl kept ↦ rw kept (sweep_expired ks items (rw there at listed) old)
      | inr gone ↦
          rw gone (
            sweep_expired ks (delete k items) (rw there at listed)
              (live_delete k items there ∙ old))
    ]
  ]

-- Cleaning forgets no nonce whose envelope has not expired, and makes none up.
pub clean_live :
    (c : NonceCache) (key : GoString) (now e : ℤ)
    → lookup key c.items ≡ some e
    → now <ℤ e
    → lookup key (clean c now).items ≡ some e
unfolding clean
clean_live c key now e found live = ground (arith, sweep_live now key c.order c.items e found live)

clean_missing :
    (c : NonceCache) (key : GoString) (now : ℤ)
    → lookup key c.items ≡ none
    → lookup key (clean c now).items ≡ none
unfolding clean
clean_missing c key now missing = ground (arith, sweep_missing now key c.order c.items missing)

pub record_key_keeps :
    (c : NonceCache) (key k : GoString) (e x : ℤ)
    → lookup key c.items ≡ some e
    → lookup key (record_key c k x).1.items ≡ some e
unfolding record_key
record_key_keeps c key k e x found = ground (arith, lookup-insert k key x c.items, str_eq_iff k key)

-- One call of `Check`: the nonce, its expiry and the clock.
pub record NonceCall : Type 0 where
  pub nonce : GoString
  pub expires_at : ℤ
  pub now : ℤ

pub run : NonceCache → List NonceCall → NonceCache
run c [] = c
run c (x ∷ xs) = run (check c x.nonce x.expires_at x.now).1 xs

pub check_keeps :
    (c : NonceCache) (nonce key : GoString) (e x now : ℤ)
    → lookup key c.items ≡ some e
    → now <ℤ e
    → lookup key (check c nonce x now).1.items ≡ some e
unfolding check
check_keeps c nonce key e x now found live =
    record_key_keeps (clean c now) key (hex nonce) e x (clean_live c key now e found live)

run_keeps :
    (c : NonceCache) (xs : List NonceCall) (key : GoString) (e : ℤ)
    → lookup key c.items ≡ some e
    → All (λ x. x.now <ℤ e) xs
    → lookup key (run c xs).items ≡ some e
unfolding run
run_keeps c [] key e found before = found
run_keeps c (x ∷ xs) key e found before =
    run_keeps (check c x.nonce x.expires_at x.now).1 xs key e
      (check_keeps c x.nonce key e x.expires_at x.now found before.0) before.1

pub accepted_recorded :
    (c : NonceCache) (nonce : GoString) (e now : ℤ)
    → (check c nonce e now).0 ≡ none
    → lookup (hex nonce) (check c nonce e now).1.items ≡ some e
unfolding check record_key
accepted_recorded c nonce e now ok =
    ground
      (arith, lookup-insert (hex nonce) (hex nonce) e (clean c now).items, str_eq_refl (hex nonce))

pub known_refused :
    (c : NonceCache) (nonce : GoString) (e x now : ℤ)
    → lookup (hex nonce) c.items ≡ some e
    → now <ℤ e
    → (check c nonce x now).0 ≡ some replay
unfolding check record_key
known_refused c nonce e x now found live =
    rw (clean_live c (hex nonce) now e found live, record_key)

-- A nonce that was accepted is refused again until its envelope expires: whatever calls come in
-- between, as long as they and the replay stand before that time.
pub replay_refused :
    (c : NonceCache) (nonce : GoString) (e t : ℤ) (calls : List NonceCall) (x now : ℤ)
    → (check c nonce e t).0 ≡ none
    → All (λ call. call.now <ℤ e) calls
    → now <ℤ e
    → (check (run (check c nonce e t).1 calls) nonce x now).0 ≡ some replay
replay_refused c nonce e t calls x now ok before live =
    known_refused _ nonce e x now
      (run_keeps _ calls (hex nonce) e (accepted_recorded c nonce e t ok) before) live

-- A nonce that is not in the cache is accepted, full or not.
pub fresh_accepted :
    (c : NonceCache) (nonce : GoString) (e now : ℤ)
    → lookup (hex nonce) c.items ≡ none
    → (check c nonce e now).0 ≡ none
unfolding check record_key
fresh_accepted c nonce e now fresh = rw (clean_missing c (hex nonce) now fresh, record_key)
