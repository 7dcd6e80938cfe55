-- ===== src/Reporter/Replay/Delivery.antt =====
-- The reliable queues are delivered in order, without a gap, and in the end as a whole.
use tom_ai_agent.Base.{
  leb, Bool-cases, length, take, drop, All, take-append-drop, length-take, length-drop, GoString, ℕ,
  ◌≤◌, ◌<◌, ◌≡◌, refl, sym, ap, ◌∙◌, inl, inr, Bool, true, false, Option, List, [], ◌∷◌, ◌++◌,
  append-nil, append_assoc, arith,
}
use tom_ai_agent.Reporter.Wal.{WalCursor, read_from}
use tom_ai_agent.Reporter.Wal.Cursor.{Log, files_of, IsLog, Points}
use tom_ai_agent.Reporter.Wal.Rounds.{Reads}
use tom_ai_agent.Reporter.Wal.Fifo.{read_from-Reads}
use tom_ai_agent.Reporter.Replay.{decode_all, Replayer, replay_round, replay_rounds}

module _ (Item : Type 0) (decode : GoString → Option Item) (log : Log) (batch_size : ℕ) where
  -- Between two states of the loop the items of the records `taken` were accepted, in their order, and
  -- the records `rest` are still to be delivered.
  pub record Delivers (s : Replayer Item decode) (pending : List GoString)
      (s' : Replayer Item decode) : Type 0 where
    pub taken : List GoString
    pub rest : List GoString
    pub split : pending ≡ taken ++ rest
    pub accepted : s'.accepted ≡ s.accepted ++ decode_all Item decode taken
    pub cursor : Points s'.cursor log rest

  decode_all-append :
      (a b : List GoString)
      → decode_all Item decode (a ++ b) ≡ decode_all Item decode a ++ decode_all Item decode b
  unfolding decode_all
  decode_all-append [] b = refl
  decode_all-append (x ∷ a) b = ground (arith, decode_all-append a b)

  Delivers-refl :
      (s : Replayer Item decode) (pending : List GoString)
      → Points s.cursor log pending
      → (s' : Replayer Item decode) → s'.cursor ≡ s.cursor
      → s'.accepted ≡ s.accepted
      → Delivers s pending s'
  unfolding decode_all
  Delivers-refl s pending p s' c a = record {
    taken = [];
    rest = pending;
    split = refl;
    accepted = a ∙ sym (append-nil s.accepted);
    cursor = rw c p;
  }

  -- A round takes the next records of the log if there are any and the sink accepts them.
  replay_round-Delivers :
      (sends : Bool) (s : Replayer Item decode) (pending : List GoString) (bound : ℕ)
      → IsLog bound log
      → Points s.cursor log pending
      → Delivers s pending (replay_round Item decode batch_size (files_of log) sends s)
  unfolding replay_round
  replay_round-Delivers sends s pending bound h p = elim (Bool-cases (leb (length batch) 0)) [
    | inl nothing ↦ rw (replay_round, nothing) (Delivers-refl s pending p s refl refl)
    | inr found ↦ elim (Bool-cases sends) [
      | inl accepted ↦
          rw (replay_round, found, accepted)
            (record {
              taken = take batch_size pending;
              rest = drop batch_size pending;
              split = sym (take-append-drop batch_size pending);
              accepted = ap (λ items. s.accepted ++ decode_all Item decode items) reads.taken;
              cursor = reads.rest;
            })
      | inr refused ↦ rw (replay_round, found, refused) (Delivers-refl s pending p _ refl refl)
    ]
  ]
    where
      batch : List GoString
      batch = (read_from (files_of log) s.cursor batch_size).0

      reads :
          Reads s.cursor log batch_size [] pending (read_from (files_of log) s.cursor batch_size)
      reads = read_from-Reads bound log s.cursor batch_size pending h p

  Delivers-trans :
      (s t u : Replayer Item decode) (pending : List GoString)
      → (d : Delivers s pending t) → Delivers t d.rest u
      → Delivers s pending u
  Delivers-trans s t u pending d e = record {
    taken = d.taken ++ e.taken;
    rest = e.rest;
    split = d.split ∙ ap (λ xs. d.taken ++ xs) e.split ∙ sym (append_assoc d.taken e.taken e.rest);
    accepted =
        e.accepted
        ∙ ap (λ xs. xs ++ decode_all Item decode e.taken) d.accepted
        ∙ append_assoc s.accepted _ _
        ∙ ap (λ xs. s.accepted ++ xs) (sym (decode_all-append d.taken e.taken));
    cursor = e.cursor;
  }

  -- Whichever of the batches the sink takes, the items that it has accepted are those of the records
  -- from the cursor on, in their order and without a gap or a repetition, and the cursor stands at
  -- the first record that it has not accepted.
  pub replay_rounds-Delivers :
      (sends : List Bool) (s : Replayer Item decode) (pending : List GoString) (bound : ℕ)
      → IsLog bound log
      → Points s.cursor log pending
      → Delivers s pending (replay_rounds Item decode batch_size (files_of log) sends s)
  unfolding replay_rounds
  replay_rounds-Delivers [] s pending bound h p = Delivers-refl s pending p s refl refl
  replay_rounds-Delivers (ok ∷ sends) s pending bound h p =
      let one = replay_round-Delivers ok s pending bound h p in
      Delivers-trans s _ _ pending one (
        replay_rounds-Delivers sends (replay_round Item decode batch_size (files_of log) ok s)
          one.rest bound h one.cursor)

  module _ (s : Replayer Item decode) (pending : List GoString) (bound : ℕ) (h : IsLog bound log)
      (p : Points s.cursor log pending) where
    abbrev here : List GoString × WalCursor
    here = read_from (files_of log) s.cursor batch_size

    Reads-here : Reads s.cursor log batch_size [] pending here
    Reads-here = read_from-Reads bound log s.cursor batch_size pending h p

    -- A round in which the sink takes a batch that is not empty.
    round_takes :
        0 < batch_size
        → 0 < length pending
        → replay_round Item decode batch_size (files_of log) true s ≡ record {
          cursor = here.1;
          backoff = 1;
          accepted = s.accepted ++ decode_all Item decode (take batch_size pending);
        }
    unfolding replay_round
    round_takes some_room some_pending = rw (replay_round, found, Reads-here.taken) refl
      where
        found : leb (length (read_from (files_of log) s.cursor batch_size).0) 0 ≡ false
        found = ground (arith, ap length Reads-here.taken, length-take batch_size pending)

    round_rests : pending ≡ [] → replay_round Item decode batch_size (files_of log) true s ≡ s
    unfolding replay_round
    round_rests none_left = rw (replay_round, nothing) refl
      where
        nothing : leb (length (read_from (files_of log) s.cursor batch_size).0) 0 ≡ true
        nothing =
            ground (
              arith,
              ap length Reads-here.taken,
              ap length none_left,
              length-take batch_size pending,
            )

  -- Once the sink takes every batch, as many rounds as there are records deliver the items of all of
  -- them, provided that a batch may hold a record.
  pub replay_drains :
      (sends : List Bool) (s : Replayer Item decode) (pending : List GoString) (bound : ℕ)
      → IsLog bound log
      → Points s.cursor log pending
      → 0 < batch_size
      → All (λ ok. ok ≡ true) sends
      → length pending ≤ length sends
      → (replay_rounds Item decode batch_size (files_of log) sends s).accepted
        ≡ s.accepted ++ decode_all Item decode pending
  unfolding replay_rounds decode_all
  replay_drains [] s [] bound h p some_room oks enough = sym (append-nil s.accepted)
  replay_drains [] s (x ∷ pending) bound h p some_room oks enough = absurd (omega arith)
  replay_drains (ok ∷ sends) s [] bound h p some_room oks enough = rw oks.0 (
      ap (λ t. (replay_rounds Item decode batch_size (files_of log) sends t).accepted)
        (round_rests s [] bound h p refl)
      ∙ replay_drains sends s [] bound h p some_room oks.1 (omega arith))
  replay_drains (ok ∷ sends) s (x ∷ pending) bound h p some_room oks enough =
      let rest = drop batch_size (x ∷ pending) in
      let later =
        replay_drains sends (replay_round Item decode batch_size (files_of log) true s) rest bound h
          (rw (round_takes s (x ∷ pending) bound h p some_room (omega arith))
            (Reads-here s (x ∷ pending) bound h p).rest)
          some_room oks.1 (omega (arith, length-drop batch_size (x ∷ pending))) in
      rw oks.0 (
        later
        ∙ ap (λ (t : Replayer Item decode). t.accepted ++ decode_all Item decode rest)
            (round_takes s (x ∷ pending) bound h p some_room (omega arith))
        ∙ append_assoc s.accepted _ _
        ∙ ap (λ xs. s.accepted ++ xs)
            (sym (decode_all-append (take batch_size (x ∷ pending)) rest)
              ∙ ap (decode_all Item decode) (take-append-drop batch_size (x ∷ pending))))
