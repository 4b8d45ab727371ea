-- ===== src/Tests/Link.antt =====
-- A link at work: packets queued and flushed.
use scservices.Prelude.{◌≤◌, ◌≡◌, ◌⊎◌, refl, arith, some, List, [], ◌∷◌, Bytes}
use scservices.Serial.{ExpansionHubSerial, Session}
use scservices.Serial.Output.{flush}
use scservices.Serial.Queue.{IsQueued}
use scservices.Serial.Queue.Flush.{Flushes, flush-Flushes, flush_within_limit}
use scservices.Tests.{toy, session_of, configured}

-- Two packets wait, and seven messages are outstanding.
abbrev packets : List Bytes
packets = (1 ∷ 2 ∷ 3 ∷ []) ∷ (4 ∷ 5 ∷ []) ∷ []

abbrev busy : ExpansionHubSerial
busy = record configured {
  write_buffer = 9 ∷ 1 ∷ 2 ∷ 3 ∷ 4 ∷ 5 ∷ [];
  pending_writes = 3 ∷ 2 ∷ [];
  current_count = 1;
  outstanding_messages = 7;
}

busy-IsQueued : IsQueued busy (9 ∷ []) packets
busy-IsQueued = record {
  buffer_is = refl;
  sizes_are = refl;
  count_is = refl;
  nonempty = (omega arith, (omega arith, tt));
}

flush-Flushes_example : Flushes (session_of busy) (9 ∷ []) packets
flush-Flushes_example = flush-Flushes (session_of busy) (9 ∷ []) packets busy-IsQueued (omega arith)

flush_within_limit_example :
    (s' : Session toy) × (flush (session_of busy) ≡ some s')
    × (s'.serial.outstanding_messages ≤ 8)
    × ((s'.serial.outstanding_messages ≡ 8) ⊎ (s'.serial.pending_writes ≡ []))
flush_within_limit_example =
    flush_within_limit (session_of busy) (9 ∷ []) packets busy-IsQueued (omega arith)
