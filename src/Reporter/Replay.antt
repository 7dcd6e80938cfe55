-- ===== src/Reporter/Replay.antt =====
-- internal/reporter/reporter.go, replayLoop: the delivery of the reliable queues from the log. An item
-- is what `decode` makes of a record; a record that does not decode is left out of the batch.
pub mod Delivery
mod Examples
use tom_ai_agent.Base.{
  ltb, leb, if◌then◌else◌, length, GoString, ℕ, ◌*◌, Bool, Option, none, some, List, [], ◌∷◌, ◌++◌,
}
use tom_ai_agent.Reporter.Wal.{Segment, WalCursor, read_from}

module _ (Item : Type 0) (decode : GoString → Option Item) where
  unfoldable pub decode_all : List GoString → List Item
  decode_all [] = []
  decode_all (raw ∷ raws) = elim (decode raw) [
    | none ↦ decode_all raws
    | some it ↦ it ∷ decode_all raws
  ]

  -- `backoff` is in seconds, and `accepted` is what the sink has taken without an error.
  pub record Replayer : Type 0 where
    pub cursor : WalCursor
    pub backoff : ℕ
    pub accepted : List Item

  -- One round of the loop on the segments `files`: whether the sink takes the batch is an argument.
  unfoldable pub replay_round : ℕ → List Segment → Bool → Replayer → Replayer
  unfolding decode_all
  replay_round batch_size files sends s =
      let (items, next) = read_from files s.cursor batch_size in
      if leb (length items) 0
      then s
      else if sends
      then record { cursor = next; backoff = 1; accepted = s.accepted ++ decode_all items }
      else record s { backoff = if ltb s.backoff 60 then s.backoff * 2 else s.backoff }

  unfoldable pub replay_rounds : ℕ → List Segment → List Bool → Replayer → Replayer
  replay_rounds batch_size files [] s = s
  replay_rounds batch_size files (sends ∷ later) s =
      replay_rounds batch_size files later (replay_round batch_size files sends s)
