-- ===== src/Uplink/Reports.antt =====
-- When a waiter for the acknowledgement of a batch of reports is told that it was acknowledged.
use tom_ai_agent.Base.{
  ltb, ◌==◌, if◌then◌else◌, Bool-cases, length, GoString, ℕ, ◌+◌, ◌≤◌, ◌<◌, ◌≡◌, refl, ◌∙◌, inl,
  inr, true, false, none, some, List, [], ◌∷◌, arith, Any,
}
use tom_ai_agent.Uplink.{
  ReportKind, Outcome, Channels, ReportWaiter, ReportAck, kind_eq, send_to, send_each, delete_ids,
  match_waiters, channels_of,
}

abbrev pub count : ℕ → List ℕ → ℕ
count c [] = 0
count c (d ∷ ds) = if d == c then count c ds + 1 else count c ds

-- The channels differ from each other, and nothing waits in any of them.
pub record IsFree (chs : List ℕ) (chans : Channels) : Type 0 where
  pub distinct : (c : ℕ) → count c chs ≤ 1
  pub empty : (c : ℕ) → 0 < count c chs → chans c ≡ none

pub send_to-free :
    (ch : ℕ) (o : Outcome) (chans : Channels)
    → chans ch ≡ none
    → send_to ch o chans ≡ some (λ c. if c == ch then some o else chans c)
unfolding send_to
send_to-free ch o chans e = rw (send_to, e) refl

-- Sends to channels that are free do not block, and fill just these.
pub send_each-free :
    (chs : List ℕ) (o : Outcome) (chans : Channels)
    → IsFree chs chans
    → (after : Channels) × (send_each chs o chans ≡ some after)
      × ((c : ℕ) → after c ≡ (if ltb 0 (count c chs) then some o else chans c))
unfolding send_each
send_each-free [] o chans h = (chans, refl, λ c. refl)
send_each-free (ch ∷ chs) o chans h =
    let (after, sent, filled) =
      send_each-free chs o (λ c. if c == ch then some o else chans c) rest in
    (
      after,
      rw (send_each, send_to-free ch o chans (h.empty ch (ground (arith, h.distinct ch)))) sent,
      λ c. filled c ∙ same c,
    )
  where
    tail : (c : ℕ) → 0 < count c chs → (c == ch) ≡ false
    tail c some_more = ground (arith, h.distinct c)

    rest : IsFree chs (λ c. if c == ch then some o else chans c)
    rest = record {
      distinct = λ c. ground (arith, h.distinct c);
      empty = λ c k. rw (tail c k) (h.empty c (ground (arith, k)));
    }

    same :
        (c : ℕ)
        → (if ltb 0 (count c chs) then some o else (if c == ch then some o else chans c))
          ≡ (if ltb 0 (count c (ch ∷ chs)) then some o else chans c)
    same c = ground arith

-- Each channel of a waiter goes to one of the two lists.
pub match_waiters-count :
    (a : ReportAck) (ws : List ReportWaiter) (c : ℕ)
    → count c (channels_of ws)
      ≡ count c (match_waiters a ws).1 + count c (channels_of (match_waiters a ws).0)
unfolding match_waiters channels_of
match_waiters-count a [] c = omega arith
match_waiters-count a (w ∷ ws) c = ground (arith, match_waiters-count a ws c)

-- A waiter that has the channel and the kind, and waits for the ids.
abbrev pub Waits : ℕ → ReportKind → List GoString → List ReportWaiter → Type 0
Waits ch kind ids = Any (λ w. (w.ch ≡ ch) × (w.kind ≡ kind) × (w.ids ≡ ids))

pub Waits-count :
    (ch : ℕ) (kind : ReportKind) (ids : List GoString) (ws : List ReportWaiter)
    → Waits ch kind ids ws
    → 0 < count ch (channels_of ws)
unfolding channels_of
Waits-count ch kind ids [] h = absurd h
Waits-count ch kind ids (w ∷ ws) (inl here) = ground (arith, here.0)
Waits-count ch kind ids (w ∷ ws) (inr there) = ground (arith, Waits-count ch kind ids ws there)

-- What one acknowledgement does to one waiter: nothing, if it is of another kind; else it has fewer ids
-- to wait for, or none.
module _ (a : ReportAck) (ch : ℕ) (kind : ReportKind) (ids : List GoString) where
  passed_on :
      (w : ReportWaiter) (ws : List ReportWaiter) (is : List GoString)
      → Waits ch kind is (match_waiters a ws).0
      → Waits ch kind is (match_waiters a (w ∷ ws)).0
  unfolding match_waiters
  passed_on w ws is h = elim (Bool-cases (kind_eq w.kind a.kind)) [
    | inr other ↦ rw (match_waiters, other) (inr h)
    | inl same ↦ elim (Bool-cases (length (delete_ids a.acked_ids w.ids) == 0)) [
      | inl all ↦ rw (match_waiters, same, all) h
      | inr some_left ↦ rw (match_waiters, same, some_left) (inr h)
    ]
  ]

  pub other_kind :
      (ws : List ReportWaiter)
      → kind_eq kind a.kind ≡ false
      → Waits ch kind ids ws
      → Waits ch kind ids (match_waiters a ws).0
  unfolding match_waiters
  other_kind [] other h = h
  other_kind (w ∷ ws) other (inr there) = passed_on w ws ids (other_kind ws other there)
  other_kind (w ∷ ws) other (inl (c, k, i)) = rw (match_waiters, k, other) (inl (c, refl, i))

  pub some_missing :
      (ws : List ReportWaiter)
      → kind_eq kind a.kind ≡ true
      → (length (delete_ids a.acked_ids ids) == 0) ≡ false
      → Waits ch kind ids ws
      → Waits ch kind (delete_ids a.acked_ids ids) (match_waiters a ws).0
  unfolding match_waiters
  some_missing [] same left h = absurd h
  some_missing (w ∷ ws) same left (inr there) =
      passed_on w ws (delete_ids a.acked_ids ids) (some_missing ws same left there)
  some_missing (w ∷ ws) same left (inl (c, k, i)) =
      rw (match_waiters, k, same, i, left) (inl (c, refl, refl))

  pub all_acked :
      (ws : List ReportWaiter)
      → kind_eq kind a.kind ≡ true
      → (length (delete_ids a.acked_ids ids) == 0) ≡ true
      → Waits ch kind ids ws
      → 0 < count ch (match_waiters a ws).1
  unfolding match_waiters
  all_acked [] same none_left h = absurd h
  all_acked (w ∷ ws) same none_left (inr there) = ground (arith, all_acked ws same none_left there)
  all_acked (w ∷ ws) same none_left (inl (c, k, i)) =
      rw (match_waiters, k, same, i, none_left) (ground (arith, c))
