-- ===== src/Recovery/Examples.antt =====
-- The theorems about the recovery engine, at small packets of one session.
use market_wire.Prelude.{
  ℕ, ◌≡◌, refl, inl, inr, true, false, List, [], ◌∷◌, arith, length, none, some,
}
use market_wire.Prelude.Result.{ok, undefined}
use market_wire.Recovery.{RecoveryEngine, new_engine, ingest}
use market_wire.Recovery.Convergence.{ingest_all_converges}
use market_wire.Recovery.Ingest.{Releases, ingest-Releases}
use market_wire.Recovery.Limits.{Marks, ingest-Marks, ingest_undefined}
use market_wire.Recovery.Foreign.{ingest_each, ingest_each-own}
use market_wire.Recovery.Sessions.{Session, opens, takes, RequestsGap, ingest-RequestsGap}
use market_wire.Recovery.Runs.{Delivered, ingest_all, stream_of, ingest_all-Delivered}
use market_wire.Recovery.Stream.{Ends, IsValid, held_by, extend_all}
use market_wire.Mold.{MoldMessage, MoldDownstreamPacket, max_sequence}
use market_wire.OrderedMap
use market_wire.Wire.{ByteList, bytes_equal}

abbrev message : ℕ → MoldMessage
message s = record { sequence = s; payload = s ∷ [] }

abbrev session : ByteList
session = b'D' ∷ []

abbrev foreign : ByteList
foreign = []

abbrev packet : ℕ → List MoldMessage → MoldDownstreamPacket
packet first ms = record {
  session = session;
  first_sequence = first;
  message_count = length ms;
  heartbeat = false;
  end_of_session = false;
  messages = ms;
}

abbrev heartbeat : MoldDownstreamPacket
heartbeat = record (packet 9 []) { message_count = 0; heartbeat = true }

abbrev early : MoldDownstreamPacket
early = packet 4 (message 4 ∷ message 5 ∷ [])

abbrev late : MoldDownstreamPacket
late = packet 2 (message 2 ∷ message 3 ∷ [])

abbrev most : MoldDownstreamPacket
most = packet 2 (message 2 ∷ message 3 ∷ message 4 ∷ [])

abbrev engine : RecoveryEngine
engine = new_engine 2

engine-IsValid : IsValid engine
unfolding new_engine
engine-IsValid = record { sorted = tt; ahead = tt }

engine_opens : engine.session ≡ none
unfolding new_engine
engine_opens = refl

ingest-Releases_example :
    Ends
      (Releases (extend_all (held_by engine) early.messages) session engine)
      (ingest engine early)
ingest-Releases_example =
    ingest-Releases engine early (refl, refl) (omega arith) engine-IsValid (inl engine_opens)

-- Numbers 4 and 5 wait for 2 and 3, which are asked for; the next packet brings number 2 only.
abbrev asking : RecoveryEngine
asking = (ingest engine early).0

asks : ingest engine early ≡ (
  asking,
  ok (record {
    ready = [];
    request = some (record { first = 2; count = 2 });
    duplicate_or_stale = false;
    end_of_session = false;
  }),
)
unfolding ingest new_engine OrderedMap.try_emplace
asks = refl

asking_session : asking.session ≡ some session
unfolding ingest new_engine OrderedMap.try_emplace
asking_session = refl

asking-Session : Session asking (some (record { first = 2; count = 2 }))
asking-Session = takes early (opens (omega arith)) (inl ((refl, refl), omega arith)) asks

ingest-RequestsGap_example :
    Ends
      (RequestsGap (some (record { first = 2; count = 2 })))
      (ingest asking (packet 2 (message 2 ∷ [])))
ingest-RequestsGap_example =
    ingest-RequestsGap asking (some (record { first = 2; count = 2 })) (packet 2 (message 2 ∷ []))
      asking-Session (refl, refl) (omega arith) (inr asking_session)

-- An engine that begins at number 0 takes the fields of a request that it never made for one of number 0.
begins_at_zero :
    (ingest (new_engine 0) (packet 1 (message 1 ∷ []))).1
    ≡ ok (record { ready = []; request = none; duplicate_or_stale = false; end_of_session = false })
unfolding ingest new_engine OrderedMap.try_emplace
begins_at_zero = refl

ingest_all-Delivered_example :
    (e' : RecoveryEngine) × (out : List MoldMessage) × (ingest_all (early ∷ late ∷ []) engine
      ≡ (e', ok out))
    × Delivered (stream_of (held_by engine) (early ∷ late ∷ [])) engine e' out
ingest_all-Delivered_example =
    ingest_all-Delivered session (early ∷ late ∷ []) engine
      (((refl, refl), refl, omega arith), (((refl, refl), refl, omega arith), tt)) engine-IsValid
      (inl engine_opens)

ingest_all_converges_example :
    (out : List MoldMessage) × ((ingest_all (early ∷ late ∷ []) (new_engine 2)).1 ≡ ok out)
    × ((ingest_all (most ∷ early ∷ []) (new_engine 2)).1 ≡ ok out)
    × ((ingest_all (early ∷ late ∷ []) (new_engine 2)).0.expected
        ≡ (ingest_all (most ∷ early ∷ []) (new_engine 2)).0.expected)
ingest_all_converges_example =
    ingest_all_converges session (λ s. s ∷ []) 2 (early ∷ late ∷ []) (most ∷ early ∷ [])
      (((refl, refl), refl, omega arith), (((refl, refl), refl, omega arith), tt))
      (((refl, refl), refl, omega arith), (((refl, refl), refl, omega arith), tt))
      ((refl, (refl, tt)), ((refl, (refl, tt)), tt))
      ((refl, (refl, (refl, tt))), ((refl, (refl, tt)), tt)) (λ s le. ground arith)

abbrev opened : RecoveryEngine
opened = record (new_engine 2) { session = some session }

ingest_each-own_example :
    ingest_each (early ∷ record late { session = foreign } ∷ late ∷ []) opened
    ≡ ingest_each (early ∷ late ∷ []) opened
unfolding bytes_equal
ingest_each-own_example =
    ingest_each-own session (early ∷ record late { session = foreign } ∷ late ∷ []) opened refl

ingest-Marks_example : Ends (Marks heartbeat opened) (ingest opened heartbeat)
ingest-Marks_example = ingest-Marks opened heartbeat refl (inr refl)

abbrev last_but_one : RecoveryEngine
last_but_one = record {
  expected = 0xFFFFFFFFFFFFFFFE;
  last_requested_first = 0;
  last_requested_last = 0;
  pending = (max_sequence, 7 ∷ []) ∷ [];
  session = some session;
}

last_is_held : held_by last_but_one max_sequence ≡ some (7 ∷ [])
unfolding OrderedMap.find
last_is_held = refl

abbrev final : MoldMessage
final = record { sequence = 0xFFFFFFFFFFFFFFFE; payload = 6 ∷ [] }

ingest_undefined_example :
    (ingest last_but_one (packet 0xFFFFFFFFFFFFFFFE (final ∷ []))).1 ≡ undefined
ingest_undefined_example =
    ingest_undefined last_but_one (packet 0xFFFFFFFFFFFFFFFE (final ∷ [])) final [] (7 ∷ [])
      (refl, refl) (inr refl) refl refl refl last_is_held
