-- ===== src/Connector/Server/Delivery.antt =====
-- The agent's uplink and the connector together: what the agent takes as acknowledged is with the sink.
use tom_ai_agent.Base.{
  Bool-cases, length, All, GoString, ℕ, ◌<◌, ◌≡◌, sym, ◌∙◌, subst, inl, inr, Bool, true, ◌&&◌,
  Option, none, some, List, [], ◌∷◌, arith, Any,
}
use tom_ai_agent.Uplink.{
  nil, ReportKind, ReportAck, GrpcUplink, kind_eq, report_kind_of, send_reliable,
}
use tom_ai_agent.Uplink.Acks.{
  Step, begin_step, sent_step, ack_step, steps, names, is_acked, IsFresh,
}
use tom_ai_agent.Uplink.Told.{told_exactly}
use tom_ai_agent.Connector.Server.{SinkEntry, Server, Report, report_kind_name, serve_reports}
use tom_ai_agent.Connector.Server.Streams.{HasEntry, acked_ids-HasEntry}

kind_eq_sound : (k l : ReportKind) → kind_eq k l ≡ true → l ≡ k
unfolding kind_eq
kind_eq_sound k l e = ground (arith, e)

-- The acknowledgements that come in are some of those that the server has sent.
abbrev pub ComeFrom : List ReportAck → List Step → Type 0
ComeFrom acks [] = Unit
ComeFrom acks (ack_step a ∷ ss) = Any (λ b. b ≡ a) acks × ComeFrom acks ss
ComeFrom acks (begin_step queue ids ∷ ss) = ComeFrom acks ss
ComeFrom acks (sent_step ∷ ss) = ComeFrom acks ss

module _ (takes : List SinkEntry → SinkEntry → Bool) (status_in : GoString → Option GoString)
    (fails : ℕ → Bool) (rs : List (Report × Bool)) (s : Server) where
  acked-HasEntry :
      (kind : ReportKind) (id : GoString) (ss : List Step)
      → ComeFrom (serve_reports takes status_in fails rs s).0 ss
      → is_acked kind id ss ≡ true
      → HasEntry (report_kind_name kind) id (serve_reports takes status_in fails rs s).1.log
  acked-HasEntry kind id [] from e = absurd (ground (arith, e))
  acked-HasEntry kind id (begin_step queue ids ∷ ss) from e = acked-HasEntry kind id ss from e
  acked-HasEntry kind id (sent_step ∷ ss) from e = acked-HasEntry kind id ss from e
  acked-HasEntry kind id (ack_step a ∷ ss) from e =
      elim (Bool-cases (kind_eq kind a.kind && names id a.acked_ids)) [
        | inr other ↦ acked-HasEntry kind id ss from.1 (ground (arith, other, e))
        | inl here ↦
            subst
              (λ k.
                HasEntry (report_kind_name k) id (serve_reports takes status_in fails rs s).1.log)
              (kind_eq_sound kind a.kind (ground (arith, here)))
              (acked_ids-HasEntry takes status_in fails rs s a id from.0 (ground (arith, here)))
      ]

  All-HasEntry :
      (kind : ReportKind) (ids : List GoString) (ss : List Step)
      → ComeFrom (serve_reports takes status_in fails rs s).0 ss
      → All (λ id. is_acked kind id ss ≡ true) ids
      → All
          (λ id.
            HasEntry (report_kind_name kind) id (serve_reports takes status_in fails rs s).1.log)
          ids
  All-HasEntry kind [] ss from h = tt
  All-HasEntry kind (id ∷ ids) ss from h =
      (acked-HasEntry kind id ss from h.0, All-HasEntry kind ids ss from h.1)

  -- If all acknowledgements that reach the agent were sent by the server, a batch of reports that the
  -- uplink tells to be acknowledged is with the sink of the server as a whole: each of its ids was taken,
  -- under the name of its kind. The batch is not empty and the channels of the earlier waiters are free.
  pub told-HasEntry :
      (u u' : GrpcUplink) (queue : GoString) (ids : List GoString) (ss : List Step)
      → IsFresh u
      → 0 < length ids
      → (send_reliable u queue ids).0 ≡ none
      → ComeFrom (serve_reports takes status_in fails rs s).0 ss
      → steps ss (send_reliable u queue ids).2 ≡ some u'
      → u'.channels (send_reliable u queue ids).1 ≡ some nil
      → All
          (λ id.
            HasEntry
              (report_kind_name (report_kind_of queue))
              id
              (serve_reports takes status_in fails rs s).1.log)
          ids
  told-HasEntry u u' queue ids ss fresh some_ids fine from run told =
      let (v, run', e) = told_exactly u queue ids ss fresh some_ids fine in
      All-HasEntry (report_kind_of queue) ids ss from (
        e.0 (
          subst (λ (w : GrpcUplink). w.channels (send_reliable u queue ids).1 ≡ some nil)
            (same u' v (sym run ∙ run')) told))
    where
      same : (p q : GrpcUplink) → some p ≡ some q → p ≡ q
      same p q e = cc e
