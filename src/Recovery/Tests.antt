-- ===== src/Recovery/Tests.antt =====
-- docs/recovery.md's worked example, run.
use market_wire.Prelude.{ℕ, ◌≡◌, refl, Option, none, some, List, [], ◌∷◌, false, length}
use market_wire.Prelude.Result.{Result, ok}
use market_wire.Recovery.{RecoveryEngine, Release, GapRequest, new_engine, ingest}
use market_wire.OrderedMap
use market_wire.Mold.{MoldMessage, MoldDownstreamPacket}

abbrev message : ℕ → MoldMessage
message s = record { sequence = s; payload = s ∷ [] }

abbrev packet : List MoldMessage → MoldDownstreamPacket
packet ms = record {
  session = 68 ∷ [];
  first_sequence = 0;
  message_count = length ms;
  heartbeat = false;
  end_of_session = false;
  messages = ms;
}

program : Unit {0}
unfolding ingest OrderedMap.find OrderedMap.erase OrderedMap.try_emplace new_engine
program = tt

abbrev after : RecoveryEngine → List MoldMessage → RecoveryEngine
after e ms = (ingest e (packet ms)).0

abbrev answer : RecoveryEngine → List MoldMessage → Result Release
answer e ms = (ingest e (packet ms)).1

abbrev e1 : RecoveryEngine
e1 = after (new_engine 102) (message 104 ∷ message 105 ∷ [])

abbrev e2 : RecoveryEngine
e2 = after e1 (message 102 ∷ [])

abbrev asks : ℕ → ℕ → Option GapRequest
asks first count = some (record { first = first; count = count })

buffers_and_asks :
    answer (new_engine 102) (message 104 ∷ message 105 ∷ [])
    ≡ ok (record {
      ready = [];
      request = asks 102 2;
      duplicate_or_stale = false;
      end_of_session = false;
    })
unfolding program
buffers_and_asks = refl

asks_for_the_rest :
    answer e1 (message 102 ∷ [])
    ≡ ok (record {
      ready = message 102 ∷ [];
      request = asks 103 1;
      duplicate_or_stale = false;
      end_of_session = false;
    })
unfolding program
asks_for_the_rest = refl

drains :
    answer e2 (message 105 ∷ message 103 ∷ [])
    ≡ ok (record {
      ready = message 103 ∷ message 104 ∷ message 105 ∷ [];
      request = none;
      duplicate_or_stale = false;
      end_of_session = false;
    })
unfolding program
drains = refl
