-- ===== src/Uplink/Metrics.antt =====
-- Which batches of metrics an acknowledgement confirms.
use tom_ai_agent.Base.{
  ltb, leb, if◌then◌else◌, lt→ltb, Bool-cases, ℕ, ◌+◌, ◌<◌, ◌≡◌, refl, ap, ◌∙◌, ◌⊎◌, inl, inr, true,
  false, none, some, List, [], ◌∷◌, arith, Any,
}
use tom_ai_agent.Uplink.{nil, GrpcUplink, split_acks, metrics_recv}
use tom_ai_agent.Uplink.Reports.{count, IsFree, send_each-free}

abbrev pub ack_channels : List (ℕ × ℕ) → List ℕ
ack_channels [] = []
ack_channels ((k, ch) ∷ m) = ch ∷ ack_channels m

-- The batch with the sequence number waits on the channel.
abbrev pub Awaits : ℕ → ℕ → List (ℕ × ℕ) → Type 0
Awaits k ch = Any (λ p. p ≡ (k, ch))

split_acks-count :
    (last : ℕ) (m : List (ℕ × ℕ)) (c : ℕ)
    → count c (ack_channels m)
      ≡ count c (split_acks last m).1 + count c (ack_channels (split_acks last m).0)
unfolding split_acks
split_acks-count last [] c = omega arith
split_acks-count last ((k, ch) ∷ m) c = ground (arith, split_acks-count last m c)

confirmed :
    (last k ch : ℕ) (m : List (ℕ × ℕ))
    → leb k last ≡ true
    → Awaits k ch m
    → 0 < count ch (split_acks last m).1
unfolding split_acks
confirmed last k ch [] low h = absurd h
confirmed last k ch ((j, d) ∷ m) low (inl here) =
    let j_is : j ≡ k = ap (λ (p : ℕ × ℕ). p.0) here in
    let d_is : d ≡ ch = ap (λ (p : ℕ × ℕ). p.1) here in ground (arith, j_is, d_is, low)
confirmed last k ch ((j, d) ∷ m) low (inr there) = ground (arith, confirmed last k ch m low there)

unconfirmed :
    (last k ch : ℕ) (m : List (ℕ × ℕ))
    → leb k last ≡ false
    → Awaits k ch m
    → 0 < count ch (ack_channels (split_acks last m).0)
unfolding split_acks
unconfirmed last k ch [] high h = absurd h
unconfirmed last k ch ((j, d) ∷ m) high (inl here) =
    let j_is : j ≡ k = ap (λ (p : ℕ × ℕ). p.0) here in
    let d_is : d ≡ ch = ap (λ (p : ℕ × ℕ). p.1) here in ground (arith, j_is, d_is, high)
unconfirmed last k ch ((j, d) ∷ m) high (inr there) =
    ground (arith, unconfirmed last k ch m high there)

awaited : (k ch : ℕ) (m : List (ℕ × ℕ)) → Awaits k ch m → 0 < count ch (ack_channels m)
awaited k ch [] h = absurd h
awaited k ch ((j, d) ∷ m) (inl here) =
    let d_is : d ≡ ch = ap (λ (p : ℕ × ℕ). p.1) here in ground (arith, d_is)
awaited k ch ((j, d) ∷ m) (inr there) = ground (arith, awaited k ch m there)

-- An acknowledgement is cumulative: it does not block, the channel of a batch whose sequence number is at
-- most the acknowledged one is told so, whether or not that batch was the one that was acknowledged, and
-- the channel of a batch with a greater number stays empty. The channels of the waiters are free.
metrics_recv_cumulative :
    (last : ℕ) (u : GrpcUplink) (k ch : ℕ)
    → IsFree (ack_channels u.metric_acks) u.channels
    → Awaits k ch u.metric_acks
    → (u' : GrpcUplink) × (metrics_recv last u ≡ some u')
      × (u'.channels ch ≡ (if leb k last then some nil else none))
unfolding metrics_recv
metrics_recv_cumulative last u k ch h w =
    let (after, sent, filled) =
      send_each-free (split_acks last u.metric_acks).1 nil u.channels free in
    (
      record u { metric_acks = (split_acks last u.metric_acks).0; channels = after },
      rw (metrics_recv, sent) refl,
      filled ch ∙ told (Bool-cases (leb k last)),
    )
  where
    split :
        (c : ℕ)
        → count c (ack_channels u.metric_acks)
          ≡ count c (split_acks last u.metric_acks).1
            + count c (ack_channels (split_acks last u.metric_acks).0)
    split c = split_acks-count last u.metric_acks c

    free : IsFree (split_acks last u.metric_acks).1 u.channels
    free = record {
      distinct = λ c. omega (arith, split c, h.distinct c);
      empty = λ c n. h.empty c (omega (arith, split c, n));
    }

    told :
        (leb k last ≡ true) ⊎ (leb k last ≡ false)
        → (if ltb 0 (count ch (split_acks last u.metric_acks).1) then some nil else u.channels ch)
          ≡ (if leb k last then some nil else none)
    told (inl low) = rw (low, lt→ltb 0 _ (confirmed last k ch u.metric_acks low w)) refl
    told (inr high) = rw high (
        ground (
          arith,
          split ch,
          h.distinct ch,
          unconfirmed last k ch u.metric_acks high w,
          h.empty ch (awaited k ch u.metric_acks w),
        ))
