-- ===== src/Platform/Commands/Locks.antt =====
-- The lock of an outbox row keeps other workers from it for 30 seconds.
use tom_ai_agent.Base.{
  leb, Bool-cases, All, GoString, ℕ, zero, suc, ◌+◌, ◌≤◌, ◌<◌, ◌≡◌, refl, ap, subst, inl, inr, Bool,
  true, false, ◌||◌, none, some, List, [], ◌∷◌, arith, Any,
}
use tom_ai_agent.Platform.Commands.{OutboxRow, OutboxEntry, claim, is_available}

-- The row is published, or locked until `t` at least.
abbrev pub is_held : ℕ → OutboxRow → Bool
is_held t r =
    (elim r.published_at [ none ↦ false | some _ ↦ true ])
    || (elim r.locked_until [ none ↦ false | some u ↦ leb t u ])

abbrev pub Held : ℕ → ℕ → List OutboxRow → Type 0
Held t id rs = All (λ r. r.event_id ≡ id → is_held t r ≡ true) rs

abbrev pub ids : List OutboxRow → List ℕ
ids [] = []
ids (r ∷ rs) = r.event_id ∷ ids rs

-- The ids, in their order, are below the next one.
abbrev pub Increasing : List ℕ → ℕ → Type 0
Increasing [] next = Unit
Increasing (i ∷ is) next = (i < next) × All (λ k. i < k) is × Increasing is next

abbrev pub Names : ℕ → List OutboxEntry → Type 0
Names id = Any (λ e. e.event_id ≡ id)

-- A row that is held is not available.
held_unavailable :
    (t now : ℕ) (r : OutboxRow) → now ≤ t → is_held t r ≡ true → is_available now r ≡ false
unfolding is_available
held_unavailable t now r h k = ground arith

pub claim-unheld :
    (worker : GoString) (t now limit id : ℕ) (rs : List OutboxRow)
    → now ≤ t
    → Held t id rs
    → ¬ Names id (claim worker now limit rs).0
unfolding claim
claim-unheld worker t now limit id [] h k = λ x. x
claim-unheld worker t now zero id (r ∷ rs) h k = λ x. x
claim-unheld worker t now (suc limit) id (r ∷ rs) h k = elim (Bool-cases (is_available now r)) [
  | inl free ↦
      rw (claim, free)
        (λ x. elim x [
          | inl here ↦
              let no : is_available now r ≡ false = held_unavailable t now r h (k.0 here) in cc
          | inr later ↦ claim-unheld worker t now limit id rs h k.1 later
        ])
  | inr shut ↦ rw (claim, shut) (claim-unheld worker t now (suc limit) id rs h k.1)
]

pub ids-claim :
    (worker : GoString) (now limit : ℕ) (rs : List OutboxRow)
    → ids (claim worker now limit rs).1 ≡ ids rs
unfolding claim
ids-claim worker now limit [] = refl
ids-claim worker now zero (r ∷ rs) = refl
ids-claim worker now (suc limit) (r ∷ rs) = elim (Bool-cases (is_available now r)) [
  | inl free ↦ rw (claim, free) (ap (λ is. r.event_id ∷ is) (ids-claim worker now limit rs))
  | inr shut ↦ rw (claim, shut) (ap (λ is. r.event_id ∷ is) (ids-claim worker now (suc limit) rs))
]

relocked :
    (worker : GoString) (t now : ℕ) (r : OutboxRow)
    → is_available now r ≡ true
    → is_held t r ≡ true
    → is_held t (record r {
      locked_by = some worker;
      locked_until = some (now + 30);
      attempts = r.attempts + 1;
    })
      ≡ true
unfolding is_available
relocked worker t now r free h = ground arith

pub claim-Held :
    (worker : GoString) (t now limit id : ℕ) (rs : List OutboxRow)
    → Held t id rs
    → Held t id (claim worker now limit rs).1
unfolding claim
claim-Held worker t now limit id [] k = tt
claim-Held worker t now zero id (r ∷ rs) k = k
claim-Held worker t now (suc limit) id (r ∷ rs) k = elim (Bool-cases (is_available now r)) [
  | inl free ↦
      rw (claim, free)
        (λ e. relocked worker t now r free (k.0 e), claim-Held worker t now limit id rs k.1)
  | inr shut ↦ rw (claim, shut) (k.0, claim-Held worker t now (suc limit) id rs k.1)
]

-- A row that is taken is one of the rows.
pub claim-ids :
    (worker : GoString) (now limit id : ℕ) (rs : List OutboxRow)
    → Names id (claim worker now limit rs).0
    → Any (λ i. i ≡ id) (ids rs)
unfolding claim
claim-ids worker now limit id [] h = h
claim-ids worker now zero id (r ∷ rs) h = absurd h
claim-ids worker now (suc limit) id (r ∷ rs) h = elim (Bool-cases (is_available now r)) [
  | inl free ↦ elim (rw (claim, free) at h) as (λ _. Any (λ i. i ≡ id) (ids (r ∷ rs))) [
    | inl here ↦ inl here
    | inr later ↦ inr (claim-ids worker now limit id rs later)
  ]
  | inr shut ↦ inr (claim-ids worker now (suc limit) id rs (rw (claim, shut) at h))
]

All_at : (P : ℕ → Type 0) (id : ℕ) (is : List ℕ) → All P is → Any (λ i. i ≡ id) is → P id
All_at P id [] h m = absurd m
All_at P id (i ∷ is) h (inl e) = subst P e h.0
All_at P id (i ∷ is) h (inr m) = All_at P id is h.1 m

pub Increasing-below :
    (id next : ℕ) (is : List ℕ) → Increasing is next → Any (λ i. i ≡ id) is → id < next
Increasing-below id next [] h m = absurd m
Increasing-below id next (i ∷ is) h (inl e) = subst (λ k. k < next) e h.0
Increasing-below id next (i ∷ is) h (inr m) = Increasing-below id next is h.2 m

-- A row with a greater id than all that it is asked about.
Held-above : (t i : ℕ) (rs : List OutboxRow) → All (λ k. i < k) (ids rs) → Held t i rs
Held-above t i [] h = tt
Held-above t i (r ∷ rs) h = (λ e. absurd (omega (arith, h.0, e)), Held-above t i rs h.1)

pub claimed-Held :
    (worker : GoString) (now limit id next : ℕ) (rs : List OutboxRow)
    → Increasing (ids rs) next
    → Names id (claim worker now limit rs).0
    → Held (now + 30) id (claim worker now limit rs).1
unfolding claim
claimed-Held worker now limit id next [] k h = tt
claimed-Held worker now zero id next (r ∷ rs) k h = absurd h
claimed-Held worker now (suc limit) id next (r ∷ rs) k h = elim (Bool-cases (is_available now r)) [
  | inl free ↦
      rw (claim, free)
        (
          λ e. ground arith,
          elim (rw (claim, free) at h) as (λ _. Held (now + 30) id (claim worker now limit rs).1) [
            | inl here ↦
                Held-above (now + 30) id (claim worker now limit rs).1
                  (rw (ids-claim worker now limit rs, ← here) k.1)
            | inr later ↦ claimed-Held worker now limit id next rs k.2 later
          ],
        )
  | inr shut ↦
      rw (claim, shut)
        (
          λ e. absurd (
              let below : r.event_id < id =
                All_at (λ i. r.event_id < i) id (ids rs) k.1
                  (claim-ids worker now (suc limit) id rs (rw (claim, shut) at h)) in
              omega (arith, below, e)),
          claimed-Held worker now (suc limit) id next rs k.2 (rw (claim, shut) at h),
        )
]
