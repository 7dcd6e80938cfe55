-- ===== src/Reporter/Replay/Examples.antt =====
-- The theorems on the delivery at a log of two segments.
use tom_ai_agent.Base.{
  ◌==◌, if◌then◌else◌, GoString, codes, ◌≡◌, refl, true, false, Option, none, some, [], ◌∷◌, ◌++◌,
  arith,
}
use tom_ai_agent.Base.BigEndian.{put_uint32}
use tom_ai_agent.Reporter.Wal.{encode, header}
use tom_ai_agent.Reporter.Wal.Cursor.{Log, files_of, IsLog, Points, inside}
use tom_ai_agent.Reporter.Replay.{decode_all, Replayer, replay_rounds}
use tom_ai_agent.Reporter.Replay.Delivery.{Delivers, replay_rounds-Delivers, replay_drains}

-- Records that begin with a quote are items.
abbrev decode_quoted : GoString → Option GoString
decode_quoted [] = none
decode_quoted (c ∷ s) = if c == 34 then some s else none

abbrev queue : Log
queue = (3, codes "x" ∷ codes "yy" ∷ []) ∷ (4, codes "zzz" ∷ []) ∷ []

abbrev behind_x : Replayer GoString decode_quoted
behind_x = record { cursor = record { segment = 3; offset = 9 }; backoff = 1; accepted = [] }

queue-IsLog : IsLog 0 queue
queue-IsLog = (omega arith, (omega arith, (omega arith, tt)), (omega arith, (omega arith, tt), tt))

behind_x-Points : Points behind_x.cursor queue (codes "yy" ∷ codes "zzz" ∷ [])
unfolding encode header put_uint32
behind_x-Points = inside (codes "x" ∷ []) (codes "yy" ∷ []) refl refl refl refl

replay_rounds-Delivers_example :
    Delivers GoString decode_quoted queue 1 behind_x
      (codes "yy" ∷ codes "zzz" ∷ [])
      (replay_rounds GoString decode_quoted 1 (files_of queue) (false ∷ true ∷ []) behind_x)
replay_rounds-Delivers_example =
    replay_rounds-Delivers GoString decode_quoted queue 1 (false ∷ true ∷ []) behind_x
      (codes "yy" ∷ codes "zzz" ∷ []) 0 queue-IsLog behind_x-Points

replay_drains_example :
    (replay_rounds GoString decode_quoted 1 (files_of queue) (true ∷ true ∷ []) behind_x).accepted
    ≡ [] ++ decode_all GoString decode_quoted (codes "yy" ∷ codes "zzz" ∷ [])
replay_drains_example =
    replay_drains GoString decode_quoted queue 1 (true ∷ true ∷ []) behind_x
      (codes "yy" ∷ codes "zzz" ∷ []) 0 queue-IsLog behind_x-Points (omega arith) (refl, (refl, tt))
      (omega arith)
