-- ===== src/Uplink/Acks.antt =====
-- A batch of reports is told to be acknowledged exactly when each of its ids was.
use tom_ai_agent.Base.{
  ltb, if◌then◌else◌, Bool-cases, All, str_eq, GoString, str_eq_iff, str_eq_refl, ℕ, ◌+◌, ◌≤◌, ◌<◌,
  ◌≡◌, refl, sym, ◌∙◌, subst, ◌↔◌, inl, inr, Bool, true, false, ◌&&◌, ◌||◌, Option, none, some,
  List, [], ◌∷◌, arith,
}
use tom_ai_agent.Uplink.{
  ReportKind, nil, ReportAck, GrpcUplink, kind_eq, delete_id, delete_ids, set_of, match_waiters,
  reports_recv, channels_of, send_reliable, reports_send,
}
use tom_ai_agent.Uplink.Reports.{count, IsFree, send_each-free, match_waiters-count}

-- The steps of a session that does not fail: other batches are registered and sent, and
-- acknowledgements come in.
pub data Step : Type 0 where
  begin_step : GoString → List GoString → Step
  sent_step : Step
  ack_step : ReportAck → Step

unfoldable pub step : Step → GrpcUplink → Option GrpcUplink
step (begin_step queue ids) u = some (send_reliable u queue ids).2
step sent_step u = elim (reports_send true u) [ none ↦ none | some r ↦ some r.2 ]
step (ack_step a) u = reports_recv a u

unfoldable pub steps : List Step → GrpcUplink → Option GrpcUplink
unfolding step
steps [] u = some u
steps (s ∷ ss) u = elim (step s u) [ none ↦ none | some u' ↦ steps ss u' ]

-- Whether an acknowledgement of the kind names the id.
abbrev pub names : GoString → List GoString → Bool
names id [] = false
names id (i ∷ is) = str_eq i id || names id is

abbrev pub is_acked : ReportKind → GoString → List Step → Bool
is_acked kind id [] = false
is_acked kind id (ack_step a ∷ ss) =
    (kind_eq kind a.kind && names id a.acked_ids) || is_acked kind id ss
is_acked kind id (_ ∷ ss) = is_acked kind id ss

-- The channels of the waiters differ and are empty, and the next one is new.
pub record IsFresh (u : GrpcUplink) : Type 0 where
  pub free : IsFree (channels_of u.report_wait) u.channels
  pub below :
      (c : ℕ)
      → u.next_channel ≤ c
      → (count c (channels_of u.report_wait) ≡ 0) × (u.channels c ≡ none)

-- All the ids that are waited for are acknowledged.
abbrev pub AllAcked : ReportKind → List GoString → List Step → Type 0
AllAcked kind ids ss = All (λ id. is_acked kind id ss ≡ true) ids

-- Deleting the acknowledged ids leaves the others.
delete_id-All :
    (P : GoString → Type 0) (i : GoString) (ids : List GoString)
    → P i
    → All P (delete_id i ids)
    → All P ids
unfolding delete_id
delete_id-All P i [] p h = tt
delete_id-All P i (j ∷ ids) p h = elim (Bool-cases (str_eq j i)) [
  | inl same ↦ (
    subst P (sym ((str_eq_iff j i).0 same)) p,
    delete_id-All P i ids p (rw (delete_id, same) at h),
  )
  | inr other ↦
      let h' : P j × All P (delete_id i ids) = rw (delete_id, other) at h in
      (h'.0, delete_id-All P i ids p h'.1)
]

All-delete_id :
    (P : GoString → Type 0) (i : GoString) (ids : List GoString)
    → All P ids
    → All P (delete_id i ids)
unfolding delete_id
All-delete_id P i [] h = tt
All-delete_id P i (j ∷ ids) h = elim (Bool-cases (str_eq j i)) [
  | inl same ↦ rw (delete_id, same) (All-delete_id P i ids h.1)
  | inr other ↦ rw (delete_id, other) (h.0, All-delete_id P i ids h.1)
]

pub set_of-All : (P : GoString → Type 0) (ids : List GoString) → All P (set_of ids) ↔ All P ids
unfolding set_of
set_of-All P [] = (λ h. tt, λ h. tt)
set_of-All P (i ∷ ids) = (
  λ h. (h.0, (set_of-All P ids).0 (delete_id-All P i (set_of ids) h.0 h.1)),
  λ h. (h.0, All-delete_id P i (set_of ids) ((set_of-All P ids).1 h.1)),
)

All-map :
    (P Q : GoString → Type 0) (ids : List GoString)
    → ((id : GoString) → P id → Q id)
    → All P ids
    → All Q ids
All-map P Q [] f h = tt
All-map P Q (i ∷ ids) f h = (f i h.0, All-map P Q ids f h.1)

delete_id-left :
    (x : GoString) (R : GoString → Bool) (ids : List GoString)
    → All (λ id. (str_eq x id || R id) ≡ true) ids
    → All (λ id. R id ≡ true) (delete_id x ids)
unfolding delete_id
delete_id-left x R [] h = tt
delete_id-left x R (j ∷ ids) h = elim (Bool-cases (str_eq j x)) [
  | inl same ↦ rw (delete_id, same) (delete_id-left x R ids h.1)
  | inr other ↦
      rw (delete_id, other)
        (ground (arith, other, h.0, str_eq_iff j x, str_eq_iff x j), delete_id-left x R ids h.1)
]

-- After an acknowledgement of the kind, the ids that are left are those that still have to be named.
pub named_left :
    (xs : List GoString) (Q : GoString → Bool) (ids : List GoString)
    → All (λ id. (names id xs || Q id) ≡ true) ids
    → All (λ id. Q id ≡ true) (delete_ids xs ids)
unfolding delete_ids
named_left [] Q ids h = h
named_left (x ∷ xs) Q ids h = named_left xs Q (delete_id x ids) (
    delete_id-left x (λ id. names id xs || Q id) ids
      (All-map _ _ ids (λ id k. ground (arith, k)) h))

pub left_named :
    (xs : List GoString) (Q : GoString → Bool) (ids : List GoString)
    → All (λ id. Q id ≡ true) (delete_ids xs ids)
    → All (λ id. (names id xs || Q id) ≡ true) ids
unfolding delete_ids
left_named [] Q ids h = h
left_named (x ∷ xs) Q ids h =
    delete_id-All (λ id. (names id (x ∷ xs) || Q id) ≡ true) x ids (ground (arith, str_eq_refl x))
      (All-map _ _ (delete_id x ids) (λ id k. ground (arith, k))
        (left_named xs Q (delete_id x ids) h))

-- What has become of a waiter: it is told, if nothing is left of its ids, or it waits for the rest.
abbrev pub Told : ℕ → GrpcUplink → Type 0
Told ch u =
    (u.channels ch ≡ some nil) × (count ch (channels_of u.report_wait) ≡ 0) × (ch < u.next_channel)

pub reports_recv-IsFresh :
    (a : ReportAck) (u : GrpcUplink)
    → IsFresh u
    → (u' : GrpcUplink) × (reports_recv a u ≡ some u')
      × IsFresh u'
      × (u'.report_wait ≡ (match_waiters a u.report_wait).0)
      × (u'.next_channel ≡ u.next_channel)
      × ((c : ℕ)
          → u'.channels c ≡ (
              if ltb 0 (count c (match_waiters a u.report_wait).1) then some nil else u.channels c))
unfolding reports_recv
reports_recv-IsFresh a u h =
    let (after, sent, filled) = send_each-free done nil u.channels free_done in
    (
      record u { report_wait = (match_waiters a u.report_wait).0; channels = after },
      rw (reports_recv, sent) refl,
      record {
        free = record {
          distinct = λ c. omega (arith, split c, h.free.distinct c);
          empty = λ c k. filled c ∙ ground (arith, split c, h.free.distinct c, h.free.empty c, k);
        };
        below = λ c k. (
          omega (arith, split c, (h.below c k).0),
          filled c ∙ ground (arith, split c, h.below c k),
        );
      },
      refl,
      refl,
      filled,
    )
  where
    done : List ℕ
    done = (match_waiters a u.report_wait).1

    split :
        (c : ℕ)
        → count c (channels_of u.report_wait)
          ≡ count c (match_waiters a u.report_wait).1
            + count c (channels_of (match_waiters a u.report_wait).0)
    split c = match_waiters-count a u.report_wait c

    free_done : IsFree (match_waiters a u.report_wait).1 u.channels
    free_done = record {
      distinct = λ c. omega (arith, split c, h.free.distinct c);
      empty = λ c k. h.free.empty c (omega (arith, split c, k));
    }
