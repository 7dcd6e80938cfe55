-- ===== src/Connector/Server/Streams.antt =====
-- An acknowledgement of the server means that the sink has the data.
use tom_ai_agent.Base.{
  Bool-cases, Option-cases, Any-append_left, Any-append_last, str_eq, GoString, str_eq_iff, ℕ, ◌≡◌,
  refl, sym, ap, subst, ◌⊎◌, inl, inr, Bool, true, Option, none, some, List, [], ◌∷◌, ◌++◌, arith,
  Any,
}
use tom_ai_agent.Uplink.{ReportKind, ReportAck}
use tom_ai_agent.Uplink.Acks.{names}
use tom_ai_agent.Connector.Server.{
  SinkEntry, Server, Report, ReportItem, report_kind_name, record_result, take_items, serve_reports,
}

abbrev pub HasEntry : GoString → GoString → List SinkEntry → Type 0
HasEntry kind id = Any (λ e. (e.kind ≡ kind) × (e.id ≡ id))

module _ (takes : List SinkEntry → SinkEntry → Bool) (status_in : GoString → Option GoString)
    (fails : ℕ → Bool) where
  record_result-log :
      (kind : ReportKind) (it : ReportItem) (s : Server)
      → (record_result takes status_in fails kind it s).log ≡ s.log
  unfolding record_result
  record_result-log kind it s = ground arith

  abbrev entry_of : ReportKind → ReportItem → SinkEntry
  entry_of kind it = record { kind = report_kind_name kind; id = it.id; payload = it.payload }

  abbrev after_item : ReportKind → ReportItem → Server → Server
  after_item kind it s =
      record_result takes status_in fails kind it
        (record s { log = s.log ++ entry_of kind it ∷ [] })

  after_item-keeps :
      (kind : ReportKind) (it : ReportItem) (s : Server) (k id : GoString)
      → HasEntry k id s.log
      → HasEntry k id (after_item kind it s).log
  after_item-keeps kind it s k id h =
      subst (HasEntry k id)
        (sym (record_result-log kind it (record s { log = s.log ++ entry_of kind it ∷ [] })))
        (Any-append_left _ s.log (entry_of kind it ∷ []) h)

  after_item-has :
      (kind : ReportKind) (it : ReportItem) (s : Server)
      → HasEntry (report_kind_name kind) it.id (after_item kind it s).log
  after_item-has kind it s =
      subst (HasEntry (report_kind_name kind) it.id)
        (sym (record_result-log kind it (record s { log = s.log ++ entry_of kind it ∷ [] })))
        (Any-append_last _ s.log (entry_of kind it) (refl, refl))

  -- Nothing leaves the log of the sink.
  take_items-keeps :
      (kind : ReportKind) (its : List ReportItem) (s : Server) (k id : GoString)
      → HasEntry k id s.log
      → HasEntry k id (take_items takes status_in fails kind its s).1.log
  unfolding take_items
  take_items-keeps kind [] s k id h = h
  take_items-keeps kind (it ∷ its) s k id h = elim (Bool-cases (takes s.log (entry_of kind it))) [
    | inl taken ↦
        rw (take_items, taken)
          (take_items-keeps kind its (after_item kind it s) k id
            (after_item-keeps kind it s k id h))
    | inr not_taken ↦ rw (take_items, not_taken) h
  ]

  serve_reports-keeps :
      (rs : List (Report × Bool)) (s : Server) (k id : GoString)
      → HasEntry k id s.log
      → HasEntry k id (serve_reports takes status_in fails rs s).1.log
  unfolding serve_reports
  serve_reports-keeps [] s k id h = h
  serve_reports-keeps ((r, sends) ∷ rs) s k id h =
      let here = take_items-keeps r.kind r.items s k id h in
      let later =
        serve_reports-keeps rs (take_items takes status_in fails r.kind r.items s).1 k id here in
      elim (Option-cases (take_items takes status_in fails r.kind r.items s).0) [
        | inl refused ↦ rw (serve_reports, refused) here
        | inr (ids, all) ↦ elim (Bool-cases sends) [
          | inl sent ↦ rw (serve_reports, all, sent) later
          | inr lost ↦ rw (serve_reports, all, lost) here
        ]
      ]

  -- A report that is taken as a whole has all its ids in the log.
  take_items-has :
      (kind : ReportKind) (its : List ReportItem) (s : Server) (ids : List GoString) (id : GoString)
      → (take_items takes status_in fails kind its s).0 ≡ some ids
      → names id ids ≡ true
      → HasEntry (report_kind_name kind) id (take_items takes status_in fails kind its s).1.log
  unfolding take_items
  take_items-has kind [] s ids id all named =
      let none_named : names id [] ≡ true =
        subst (λ x. names id x ≡ true) (sym (same [] ids all)) named in
      cc
    where
      same : (p q : List GoString) → some p ≡ some q → p ≡ q
      same p q e = cc e
  take_items-has kind (it ∷ its) s ids id all named =
      elim (Bool-cases (takes s.log (entry_of kind it))) [
        | inr not_taken ↦
            let no : none ≡ some ids = rw (take_items, not_taken) at all in absurd (cc no)
        | inl taken ↦
            rw (take_items, taken)
              (rest taken (take_items-has kind its (after_item kind it s))
                (Option-cases (take_items takes status_in fails kind its (after_item kind it s)).0))
      ]
    where
      same : (p q : List GoString) → some p ≡ some q → p ≡ q
      same p q e = cc e

      rest :
          takes s.log (entry_of kind it) ≡ true
          → ((is : List GoString) (i : GoString)
              → (take_items takes status_in fails kind its (after_item kind it s)).0 ≡ some is
              → names i is ≡ true
              → HasEntry
                  (report_kind_name kind)
                  i
                  (take_items takes status_in fails kind its (after_item kind it s)).1.log)
          → ((take_items takes status_in fails kind its (after_item kind it s)).0 ≡ none)
            ⊎ ((is : List GoString) × ((take_items takes status_in fails kind its
                    (after_item kind it s)).0
                  ≡ some is))
          → HasEntry
              (report_kind_name kind)
              id
              (take_items takes status_in fails kind its (after_item kind it s)).1.log
      rest taken later (inl refused) =
          let no : none ≡ some ids = rw (take_items, taken, refused) at all in absurd (cc no)
      rest taken later (inr (is, got)) =
          let e : some (it.id ∷ is) ≡ some ids = rw (take_items, taken, got) at all in
          let named' : names id (it.id ∷ is) ≡ true =
            subst (λ x. names id x ≡ true) (sym (same (it.id ∷ is) ids e)) named in
          elim (Bool-cases (str_eq it.id id)) [
            | inl here ↦
                take_items-keeps kind its (after_item kind it s) (report_kind_name kind) id (
                  subst (λ x. HasEntry (report_kind_name kind) x (after_item kind it s).log)
                    ((str_eq_iff it.id id).0 here) (after_item-has kind it s))
            | inr there ↦ later is id got (rw there at named')
          ]

  -- Each id that an acknowledgement of the server names was given to the sink before, under the kind of
  -- the acknowledgement, and the sink has taken it without an error.
  pub acked_ids-HasEntry :
      (rs : List (Report × Bool)) (s : Server) (a : ReportAck) (id : GoString)
      → Any (λ b. b ≡ a) (serve_reports takes status_in fails rs s).0
      → names id a.acked_ids ≡ true
      → HasEntry (report_kind_name a.kind) id (serve_reports takes status_in fails rs s).1.log
  unfolding serve_reports
  acked_ids-HasEntry [] s a id sent named = absurd sent
  acked_ids-HasEntry ((r, sends) ∷ rs) s a id sent named =
      elim (Option-cases (take_items takes status_in fails r.kind r.items s).0) [
        | inl refused ↦ absurd (rw (serve_reports, refused) at sent)
        | inr (ids, all) ↦ elim (Bool-cases sends) [
          | inr lost ↦ absurd (rw (serve_reports, all, lost) at sent)
          | inl out ↦
              rw (serve_reports, all, out)
                (elim (rw (serve_reports, all, out) at sent)
                  as (λ _.
                    HasEntry (report_kind_name a.kind) id
                      (serve_reports takes status_in fails rs
                        (take_items takes status_in fails r.kind r.items s).1).1.log) [
                          | inl here ↦
                              serve_reports-keeps rs
                                (take_items takes status_in fails r.kind r.items s).1
                                (report_kind_name a.kind) id
                                (subst
                                  (λ k.
                                    HasEntry (report_kind_name k) id
                                      (take_items takes status_in fails r.kind r.items s).1.log)
                                  (ap (λ (b : ReportAck). b.kind) here)
                                  (take_items-has r.kind r.items s ids id all (
                                    subst (λ x. names id x ≡ true)
                                      (sym (ap (λ (b : ReportAck). b.acked_ids) here)) named)))
                          | inr there ↦
                              acked_ids-HasEntry rs
                                (take_items takes status_in fails r.kind r.items s).1 a id there
                                named
                        ])
        ]
      ]
