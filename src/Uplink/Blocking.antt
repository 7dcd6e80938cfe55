-- ===== src/Uplink/Blocking.antt =====
-- The loop that fails the waiters can block.
use tom_ai_agent.Base.{
  ◌==◌, if◌then◌else◌, ==_iff, Bool-cases, Option-cases, ℕ, ◌<◌, ◌≡◌, refl, subst, ◌⊎◌, inl, inr,
  Bool, true, false, none, some, List, [], ◌∷◌, arith,
}
use tom_ai_agent.Uplink.{
  Outcome, failed, stream_failed, UplinkError, Channels, ReportSend, GrpcUplink, send_to,
  send_waiting, send_each_waiting, offer_each, channels_of, reports_send, fail_all_waiters,
}
use tom_ai_agent.Uplink.Reports.{count, send_to-free}

send_to-full :
    (ch : ℕ) (o x : Outcome) (chans : Channels) → chans ch ≡ some x → send_to ch o chans ≡ none
unfolding send_to
send_to-full ch o x chans full = rw (send_to, full) refl

-- A send to another channel leaves a full one full.
send_waiting-keeps :
    (reads : ℕ → Bool) (ch c : ℕ) (o x : Outcome) (chans after : Channels)
    → (c == ch) ≡ false
    → chans c ≡ some x
    → send_waiting reads ch o chans ≡ some after
    → after c ≡ some x
unfolding send_waiting send_to
send_waiting-keeps reads ch c o x chans after differ full sent = elim (Option-cases (chans ch)) [
  | inl free ↦
      let same : some (λ d. if d == ch then some o else chans d) ≡ some after =
        rw (send_waiting, send_to, free) at sent in
      at_c same
  | inr (y, taken) ↦ elim (Bool-cases (reads ch)) [
    | inl read ↦
        let same : some (λ d. if d == ch then some o else chans d) ≡ some after =
          rw (send_waiting, send_to, taken, read) at sent in
        at_c same
    | inr unread ↦
        let no : none ≡ some after = rw (send_waiting, send_to, taken, unread) at sent in
        absurd (cc no)
  ]
]
  where
    at_c : some (λ d. if d == ch then some o else chans d) ≡ some after → after c ≡ some x
    at_c same =
        subst (λ (f : Channels). f c ≡ some x)
          (let e : (λ (d : ℕ). if d == ch then some o else chans d) ≡ after = cc same in e)
          (rw (differ, full) refl)

send_each_waiting-full :
    (reads : ℕ → Bool) (chs : List ℕ) (o x : Outcome) (chans : Channels) (c : ℕ)
    → reads c ≡ false
    → chans c ≡ some x
    → 0 < count c chs
    → send_each_waiting reads chs o chans ≡ none
unfolding send_each_waiting send_waiting
send_each_waiting-full reads [] o x chans c unread full h = absurd (omega arith)
send_each_waiting-full reads (ch ∷ chs) o x chans c unread full h = elim (Bool-cases (c == ch)) [
  | inl same ↦
      let is : c ≡ ch = (==_iff c ch).0 same in
      let shut : reads ch ≡ false = subst (λ d. reads d ≡ false) is unread in
      rw
        (
          send_each_waiting,
          send_waiting,
          send_to-full ch o x chans (subst (λ d. chans d ≡ some x) is full),
          shut,
        )
        refl
  | inr differ ↦ elim (Option-cases (send_waiting reads ch o chans)) [
    | inl stuck ↦ rw (send_each_waiting, stuck) refl
    | inr (after, sent) ↦
        rw (send_each_waiting, sent)
          (send_each_waiting-full reads chs o x after c unread
            (send_waiting-keeps reads ch c o x chans after differ full sent)
            (ground (arith, differ, h)))
  ]
]

offer_each-full :
    (m : List (ℕ × ℕ)) (o x : Outcome) (chans : Channels) (c : ℕ)
    → chans c ≡ some x
    → offer_each m o chans c ≡ some x
unfolding offer_each
offer_each-full [] o x chans c full = full
offer_each-full ((k, ch) ∷ m) o x chans c full =
    offer_each-full m o x _ c (keeps (Bool-cases (c == ch)))
  where
    keeps :
        ((c == ch) ≡ true) ⊎ ((c == ch) ≡ false)
        → (if c == ch then (elim (chans c) [ none ↦ some o | some y ↦ some y ]) else chans c)
          ≡ some x
    keeps (inl e) = rw (e, full) refl
    keeps (inr e) = rw (e, full) refl

-- When the stream of reports refuses a batch whose waiter is registered, the error goes into the channel
-- of the waiter, and the session then fails all waiters. If nobody receives from the channel any more, since
-- the one that waited has given up, the second send to it never ends, and the lock is held for ever.
pub failed_send_blocks :
    (u : GrpcUplink) (r : ReportSend) (rs : List ReportSend) (err : UplinkError) (reads : ℕ → Bool)
    → u.report_out ≡ r ∷ rs
    → u.channels r.ack ≡ none
    → 0 < count r.ack (channels_of u.report_wait)
    → reads r.ack ≡ false
    → (u' : GrpcUplink) × (reports_send false u ≡ some (none, true, u'))
      × (fail_all_waiters reads err u' ≡ none)
unfolding reports_send fail_all_waiters
failed_send_blocks u r rs err reads out free waits unread = (
  record u {
    report_out = rs;
    channels = λ c. if c == r.ack then some (failed stream_failed) else u.channels c;
  },
  rw (reports_send, out, send_to-free r.ack (failed stream_failed) u.channels free) refl,
  rw (fail_all_waiters, blocks) refl,
)
  where
    blocks :
        send_each_waiting reads (channels_of u.report_wait) (failed err) (
          offer_each u.metric_acks
            (failed err)
            (λ c. if c == r.ack then some (failed stream_failed) else u.channels c))
        ≡ none
    blocks =
        send_each_waiting-full reads (channels_of u.report_wait) (failed err) (failed stream_failed)
          _ r.ack unread
          (offer_each-full u.metric_acks (failed err) (failed stream_failed) _ r.ack (ground arith))
          waits
