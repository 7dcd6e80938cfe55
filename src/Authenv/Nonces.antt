-- ===== src/Authenv/Nonces.antt =====
-- internal/authenv/authenv.go, NonceCache: the nonces seen so far, against replays.
pub mod Replay
pub mod Limits
mod Examples
use tom_ai_agent.Base.Int.{ℤ, pos, ltb_ℤ}
use tom_ai_agent.Base.{
  ltb, leb, if◌then◌else◌, length, GoString, lookup, insert, delete, Dict, ℕ, ◌+◌, ◌-◌, ◌/◌, ◌%◌,
  Bool, ◌&&◌, Option, none, some, List, [], ◌∷◌, ◌++◌,
}

-- `items` maps the hexadecimal text of a nonce to the time of its envelope's expiry.
pub record NonceCache : Type 0 where
  pub cap : ℕ
  pub items : Dict ℤ
  pub order : List GoString

unfoldable pub new_nonce_cache : ℕ → NonceCache
new_nonce_cache capacity = record { cap = capacity; items = []; order = [] }

unfoldable pub hex_digit : ℕ → ℕ
hex_digit d = if ltb d 10 then b'0' + d else b'a' + (d - 10)

-- fmt.Sprintf("%x", nonce)
unfoldable pub hex : GoString → GoString
unfolding hex_digit
hex [] = []
hex (b ∷ bs) = hex_digit (b / 16) ∷ hex_digit (b % 16) ∷ hex bs

-- c.items[k], which is 0 for a missing key.
unfoldable pub expiry : GoString → Dict ℤ → ℤ
expiry k items = elim (lookup k items) [ none ↦ pos 0 | some e ↦ e ]

-- c.items[k] > now
unfoldable pub is_live : ℤ → GoString → Dict ℤ → Bool
unfolding expiry
is_live now k items = ltb_ℤ now (expiry k items)

-- The loop over `order`: the keys that are kept, and the items without the expired ones.
unfoldable pub sweep : ℤ → List GoString → Dict ℤ → List GoString × Dict ℤ
sweep now [] items = ([], items)
sweep now (k ∷ ks) items =
    let live = is_live now k items in
    let (kept, left) = sweep now ks (if live then items else delete k items) in
    (if live then k ∷ kept else kept, left)

-- The lazy cleaning, when the cache has reached its capacity.
unfoldable pub clean : NonceCache → ℤ → NonceCache
clean c now =
    if ltb 0 (length c.order) && leb c.cap (length c.items)
    then record c { order = (sweep now c.order c.items).0; items = (sweep now c.order c.items).1 }
    else c

pub data NonceError : Type 0 where
  replay : NonceError

-- The part of `check` after the cleaning.
unfoldable pub record_key : NonceCache → GoString → ℤ → Option NonceError × NonceCache
record_key c key expires_at = elim (lookup key c.items) [
  | some _ ↦ (some replay, c)
  | none ↦ (none, record c { items = insert key expires_at c.items; order = c.order ++ key ∷ [] })
]

-- `none` is a nil error.
unfoldable pub check : NonceCache → GoString → ℤ → ℤ → Option NonceError × NonceCache
unfolding record_key
check c nonce expires_at now = record_key (clean c now) (hex nonce) expires_at
