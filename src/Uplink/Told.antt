-- ===== src/Uplink/Told.antt =====
-- A batch of reports is told to be acknowledged exactly when each of its ids was.
use tom_ai_agent.Base.{
  ltb, ◌==◌, if◌then◌else◌, Bool-cases, length, All, GoString, ℕ, ◌+◌, ◌<◌, ◌≡◌, refl, sym, ap, ◌∙◌,
  ◌↔◌, inl, inr, true, false, none, some, List, [], ◌∷◌, ◌++◌, arith,
}
use tom_ai_agent.Uplink.{
  ReportKind, nil, queue_full, ReportWaiter, ReportSend, GrpcUplink, kind_eq, delete_ids, set_of,
  match_waiters, channels_of, send_reliable, reports_send, report_kind_of, remove_waiter,
}
use tom_ai_agent.Uplink.Reports.{
  count, match_waiters-count, Waits, Waits-count, other_kind, some_missing, all_acked,
}
use tom_ai_agent.Uplink.Acks.{
  Step, begin_step, sent_step, ack_step, step, steps, is_acked, IsFresh, AllAcked, Told,
  reports_recv-IsFresh, named_left, left_named, set_of-All,
}

count-append :
    (c : ℕ) (ws : List ReportWaiter) (w : ReportWaiter)
    → count c (channels_of (ws ++ w ∷ [])) ≡ count c (channels_of ws) + (if w.ch == c then 1 else 0)
unfolding channels_of
count-append c [] w = ground arith
count-append c (v ∷ ws) w = ground (arith, count-append c ws w)

Waits-append :
    (ch : ℕ) (kind : ReportKind) (ids : List GoString) (ws : List ReportWaiter) (w : ReportWaiter)
    → Waits ch kind ids ws
    → Waits ch kind ids (ws ++ w ∷ [])
Waits-append ch kind ids [] w h = absurd h
Waits-append ch kind ids (v ∷ ws) w (inl here) = inl here
Waits-append ch kind ids (v ∷ ws) w (inr there) = inr (Waits-append ch kind ids ws w there)

Waits-last : (ws : List ReportWaiter) (w : ReportWaiter) → Waits w.ch w.kind w.ids (ws ++ w ∷ [])
Waits-last [] w = inl (refl, refl, refl)
Waits-last (v ∷ ws) w = inr (Waits-last ws w)

remove_last :
    (ch : ℕ) (ws : List ReportWaiter) (w : ReportWaiter)
    → (w.ch == ch) ≡ true
    → count ch (channels_of ws) ≡ 0
    → remove_waiter ch (ws ++ w ∷ []) ≡ ws
unfolding remove_waiter channels_of
remove_last ch [] w e none_there = rw (remove_waiter, e) refl
remove_last ch (v ∷ ws) w e none_there = elim (Bool-cases (v.ch == ch)) [
  | inl here ↦ absurd (ground (arith, here, none_there))
  | inr other ↦
      rw (remove_waiter, other)
        (ap (λ xs. v ∷ xs) (remove_last ch ws w e (rw (channels_of, count, other) at none_there)))
]

-- What a step that registers a batch keeps.
record IsKept (u u' : GrpcUplink) : Type 0 where
  fresh : IsFresh u'
  waits :
      (ch : ℕ) (kind : ReportKind) (ids : List GoString)
      → Waits ch kind ids u.report_wait
      → Waits ch kind ids u'.report_wait
  told : (ch : ℕ) → Told ch u → Told ch u'

registered-IsKept :
    (u : GrpcUplink) (w : ReportWaiter) (out : List ReportSend)
    → w.ch ≡ u.next_channel
    → IsFresh u
    → IsKept u (record u {
      report_wait = u.report_wait ++ w ∷ [];
      report_out = out;
      next_channel = u.next_channel + 1;
    })
registered-IsKept u w out e h = record {
  fresh = record {
    free = record {
      distinct =
          λ c. ground (arith, count-append c u.report_wait w, h.free.distinct c, h.below c, e);
      empty =
          λ c k. ground (arith, count-append c u.report_wait w, h.free.empty c, h.below c, e, k);
    };
    below = λ c k. (
      ground (arith, count-append c u.report_wait w, h.below c, e, k),
      (h.below c (omega (arith, k))).1,
    );
  };
  waits = λ ch kind ids k. Waits-append ch kind ids u.report_wait w k;
  told = λ ch k.
      (k.0, ground (arith, count-append ch u.report_wait w, k.1, k.2, e), omega (arith, k.2));
}

dropped-IsKept :
    (u : GrpcUplink) → IsFresh u → IsKept u (record u { next_channel = u.next_channel + 1 })
dropped-IsKept u h = record {
  fresh = record { free = h.free; below = λ c k. h.below c (omega (arith, k)) };
  waits = λ ch kind ids k. k;
  told = λ ch k. (k.0, k.1, omega (arith, k.2));
}

send_reliable-IsKept :
    (u : GrpcUplink) (queue : GoString) (ids : List GoString)
    → IsFresh u
    → IsKept u (send_reliable u queue ids).2
unfolding send_reliable
send_reliable-IsKept u queue ids h = elim (Bool-cases (ltb (length u.report_out) 64)) [
  | inl room ↦ rw (send_reliable, room) (registered-IsKept u _ _ refl h)
  | inr full ↦
      rw
        (
          send_reliable,
          full,
          remove_last u.next_channel u.report_wait
              (record { kind = report_kind_of queue; ids = set_of ids; ch = u.next_channel })
              (ground arith) (h.below u.next_channel (omega arith)).0,
        )
        (dropped-IsKept u h)
]

reports_send-IsKept :
    (u : GrpcUplink) → IsFresh u → (u' : GrpcUplink) × (step sent_step u ≡ some u') × IsKept u u'
unfolding step reports_send
reports_send-IsKept u h =
    elim u.report_out
      as (λ out.
        (u' : GrpcUplink) × (step sent_step (record u { report_out = out }) ≡ some u')
        × IsKept (record u { report_out = out }) u') [
          | [] ↦ (record u { report_out = [] }, refl, same [] [])
          | r ∷ rs ↦ (record u { report_out = rs }, refl, same (r ∷ rs) rs)
        ]
  where
    same :
        (out rs : List ReportSend)
        → IsKept (record u { report_out = out }) (record u { report_out = rs })
    same out rs = record {
      fresh = record { free = h.free; below = h.below };
      waits = λ ch kind ids k. k;
      told = λ ch k. k;
    }

-- One that was told stays told.
told-steps :
    (ss : List Step) (u : GrpcUplink) (ch : ℕ)
    → IsFresh u
    → Told ch u
    → (u' : GrpcUplink) × (steps ss u ≡ some u') × (u'.channels ch ≡ some nil)
unfolding steps
told-steps [] u ch h t = (u, refl, t.0)
told-steps (begin_step queue ids ∷ ss) u ch h t =
    let k = send_reliable-IsKept u queue ids h in
    told-steps ss (send_reliable u queue ids).2 ch k.fresh (k.told ch t)
told-steps (sent_step ∷ ss) u ch h t =
    let (u', sent, k) = reports_send-IsKept u h in
    let (v, run, e) = told-steps ss u' ch k.fresh (k.told ch t) in (v, rw (steps, sent) run, e)
told-steps (ack_step a ∷ ss) u ch h t =
    let (u', got, fresh, waiters, next, filled) = reports_recv-IsFresh a u h in
    let (v, run, e) = told-steps ss u' ch fresh (
      filled ch ∙ ground (arith, t.0),
      ap (λ ws. count ch (channels_of ws)) waiters
          ∙ omega (arith, match_waiters-count a u.report_wait ch, t.1),
      omega (arith, next, t.2),
    ) in
    (v, rw (steps, step, got) run, e)

none_left_All : (P : GoString → Type 0) (xs : List GoString) → (length xs == 0) ≡ true → All P xs
none_left_All P [] e = tt
none_left_All P (x ∷ xs) e = absurd (ground (arith, e))

set_of-some : (ids : List GoString) → 0 < length ids → 0 < length (set_of ids)
unfolding set_of
set_of-some [] h = h
set_of-some (i ∷ ids) h = omega arith

abbrev waiter : GrpcUplink → GoString → List GoString → ReportWaiter
waiter u queue ids = record { kind = report_kind_of queue; ids = set_of ids; ch = u.next_channel }

-- What a waiter is told at the end of the steps.
ToldExactly : ℕ → ReportKind → List GoString → List Step → GrpcUplink → Type 0
ToldExactly ch kind ids ss u =
    (u' : GrpcUplink) × (steps ss u ≡ some u')
    × ((u'.channels ch ≡ some nil) ↔ AllAcked kind ids ss)

AllAcked-skip :
    (kind : ReportKind) (ids : List GoString) (s : Step) (ss : List Step)
    → ((id : GoString) → is_acked kind id (s ∷ ss) ≡ is_acked kind id ss)
    → AllAcked kind ids ss ↔ AllAcked kind ids (s ∷ ss)
AllAcked-skip kind [] s ss e = (λ h. tt, λ h. tt)
AllAcked-skip kind (i ∷ ids) s ss e = (
  λ h. (e i ∙ h.0, (AllAcked-skip kind ids s ss e).0 h.1),
  λ h. (sym (e i) ∙ h.0, (AllAcked-skip kind ids s ss e).1 h.1),
)

Waits-steps :
    (ss : List Step) (u : GrpcUplink) (ch : ℕ) (kind : ReportKind) (ids : List GoString)
    → IsFresh u
    → Waits ch kind ids u.report_wait
    → 0 < length ids
    → ToldExactly ch kind ids ss u
unfolding steps ToldExactly
Waits-steps [] u ch kind [] h w some_ids = absurd (omega arith)
Waits-steps [] u ch kind (i ∷ ids) h w some_ids = (
  u,
  refl,
  (
    λ e.
        let no : u.channels ch ≡ none =
          h.free.empty ch (Waits-count ch kind (i ∷ ids) u.report_wait w) in
        cc,
    λ all. let no : false ≡ true = all.0 in cc,
  ),
)
Waits-steps (begin_step queue more ∷ ss) u ch kind ids h w some_ids =
    let k = send_reliable-IsKept u queue more h in
    let (v, run, e) =
      Waits-steps ss (send_reliable u queue more).2 ch kind ids k.fresh (k.waits ch kind ids w)
        some_ids in
    let skip = AllAcked-skip kind ids (begin_step queue more) ss (λ id. refl) in
    (v, run, (λ t. skip.0 (e.0 t), λ a. e.1 (skip.1 a)))
Waits-steps (sent_step ∷ ss) u ch kind ids h w some_ids =
    let (u', sent, k) = reports_send-IsKept u h in
    let (v, run, e) = Waits-steps ss u' ch kind ids k.fresh (k.waits ch kind ids w) some_ids in
    let skip = AllAcked-skip kind ids sent_step ss (λ id. refl) in
    (v, rw (steps, sent) run, (λ t. skip.0 (e.0 t), λ a. e.1 (skip.1 a)))
Waits-steps (ack_step a ∷ ss) u ch kind ids h w some_ids =
    let (u', got, fresh, waiters, next, filled) = reports_recv-IsFresh a u h in
    elim (Bool-cases (kind_eq kind a.kind)) [
      | inr other ↦
          let (v, run, e) =
            Waits-steps ss u' ch kind ids fresh
              (rw waiters (other_kind a ch kind ids u.report_wait other w)) some_ids in
          let skip = AllAcked-skip kind ids (ack_step a) ss (λ id. rw other refl) in
          (v, rw (steps, step, got) run, (λ t. skip.0 (e.0 t), λ n. e.1 (skip.1 n)))
      | inl same ↦ elim (Bool-cases (length (delete_ids a.acked_ids ids) == 0)) [
        | inr left ↦
            let (v, run, e) =
              Waits-steps ss u' ch kind (delete_ids a.acked_ids ids) fresh
                (rw waiters (some_missing a ch kind ids u.report_wait same left w))
                (ground (arith, left)) in
            (
              v,
              rw (steps, step, got) run,
              (
                λ t. rw same (left_named a.acked_ids (λ id. is_acked kind id ss) ids (e.0 t)),
                λ n. e.1 (named_left a.acked_ids (λ id. is_acked kind id ss) ids (rw same at n)),
              ),
            )
        | inl none_left ↦
            let done : 0 < count ch (match_waiters a u.report_wait).1 =
              all_acked a ch kind ids u.report_wait same none_left w in
            let (v, run, e) = told-steps ss u' ch fresh (
              filled ch ∙ ground (arith, done),
              ap (λ ws. count ch (channels_of ws)) waiters
                  ∙ omega (arith, match_waiters-count a u.report_wait ch, h.free.distinct ch, done),
              rw next (under (Waits-count ch kind ids u.report_wait w)),
            ) in
            (
              v,
              rw (steps, step, got) run,
              (
                λ t. rw same (
                    left_named a.acked_ids (λ id. is_acked kind id ss) ids
                      (none_left_All _ (delete_ids a.acked_ids ids) none_left)),
                λ n. e,
              ),
            )
      ]
    ]
  where
    under : 0 < count ch (channels_of u.report_wait) → ch < u.next_channel
    under some_count = ground (arith, h.below ch)

-- A batch that has gone to the queue is told to be acknowledged exactly when each of its ids has been
-- named by an acknowledgement of its kind since then, whatever other batches were registered and sent
-- meanwhile: no step blocks, and an acknowledgement of another kind, or of other ids, does not count. The
-- batch has at least one id, and the channels of the earlier waiters are free.
pub told_exactly :
    (u : GrpcUplink) (queue : GoString) (ids : List GoString) (ss : List Step)
    → IsFresh u
    → 0 < length ids
    → (send_reliable u queue ids).0 ≡ none
    → (u' : GrpcUplink) × (steps ss (send_reliable u queue ids).2 ≡ some u')
      × ((u'.channels (send_reliable u queue ids).1 ≡ some nil)
          ↔ All (λ id. is_acked (report_kind_of queue) id ss ≡ true) ids)
unfolding send_reliable ToldExactly
told_exactly u queue ids ss h some_ids fine = elim (Bool-cases (ltb (length u.report_out) 64)) [
  | inr full ↦ absurd (let no : some queue_full ≡ none = rw (send_reliable, full) at fine in cc no)
  | inl room ↦
      let k =
        registered-IsKept u (waiter u queue ids)
          (u.report_out
            ++ record {
              batch = record { kind = report_kind_of queue; ids = ids };
              ack = u.next_channel;
            }
              ∷ [])
          refl h in
      let (u', run, e) =
        Waits-steps ss _ u.next_channel (report_kind_of queue) (set_of ids) k.fresh
          (Waits-last u.report_wait (waiter u queue ids)) (set_of-some ids some_ids) in
      let all = set_of-All (λ id. is_acked (report_kind_of queue) id ss ≡ true) ids in
      rw (send_reliable, room) (u', run, (λ t. all.0 (e.0 t), λ a. e.1 (all.1 a)))
]
