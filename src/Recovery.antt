-- ===== src/Recovery.antt =====
-- include/efe/recovery_engine.hpp and src/recovery_engine.cpp: the sequencer that buffers messages
-- behind a gap, asks for the gap again, and releases contiguous messages only.
-- A method returns the engine that it leaves behind beside its outcome, since a caller may go on
-- after an exception.
pub mod Keys
pub mod Stream
pub mod Steps
pub mod Ingest
pub mod Runs
pub mod Convergence
pub mod Requests
pub mod Limits
pub mod Sessions
pub mod Foreign
mod Tests
mod Examples
use market_wire.Prelude.{
  ℕ, zero, suc, ◌+◌, ◌-◌, ◌%◌, ◌^◌, Bool, true, false, ◌&&◌, ◌||◌, Option, none, some, List, [],
  ◌∷◌, ◌++◌, min, ltb, leb, ◌==◌, if◌then◌else◌, length,
}
use market_wire.Prelude.Result.{Result, ok, throw, undefined, session_changed, sequence_exhausted}
use Keys.{sequence_order}
use market_wire.OrderedMap
use market_wire.OrderedMap.{OrderedMap}
use market_wire.Mold.{MoldMessage, MoldDownstreamPacket, sequence_mod, max_sequence}
use market_wire.Wire.{ByteList, bytes_equal}

pub record GapRequest : Type 0 where
  pub first : ℕ
  pub count : ℕ

-- `RecoveryEngine::Result`
pub record Release : Type 0 where
  pub ready : List MoldMessage
  pub request : Option GapRequest
  pub duplicate_or_stale : Bool
  pub end_of_session : Bool

pub record RecoveryEngine : Type 0 where
  pub expected : ℕ
  pub pending : OrderedMap ℕ ByteList
  pub session : Option ByteList
  pub last_requested_first : ℕ
  pub last_requested_last : ℕ

unfoldable pub new_engine : ℕ → RecoveryEngine
new_engine first_expected = record {
  expected = first_expected;
  pending = [];
  session = none;
  last_requested_first = 0;
  last_requested_last = 0;
}

-- An engine and how the method that left it ended.
abbrev pub Outcome : Type 0
Outcome = RecoveryEngine × Result Release

abbrev pub and_then : Outcome → (RecoveryEngine → Release → Outcome) → Outcome
and_then (e, ok r) next = next e r
and_then (e, throw f) next = (e, throw f)
and_then (e, undefined) next = (e, undefined)

unfoldable pub maybe_request : RecoveryEngine → Release → ℕ → RecoveryEngine × Release
maybe_request e r observed_next =
    if leb observed_next e.expected
    then (e, r)
    else let last_missing = observed_next - 1 in
      if e.last_requested_first == e.expected && leb last_missing e.last_requested_last
      then (e, r)
      else let gap = (last_missing - e.expected + 1) % sequence_mod in
        let count = min gap 0xFFFE % 2 ^ 16 in
        (
          record e {
            last_requested_first = e.expected;
            last_requested_last = (e.expected + count - 1) % sequence_mod;
          },
          record r { request = some (record { first = e.expected; count = count }) },
        )

pub deliver : Release → ℕ → ByteList → Release
deliver r sequence payload = record r {
  ready = r.ready ++ (record { sequence = sequence; payload = payload } ∷ []);
}

-- `last_requested_first_ = last_requested_last_ = 0` once the requested range is behind.
pub forget_request : RecoveryEngine → RecoveryEngine
forget_request e =
    if ltb e.last_requested_last e.expected
    then record e { last_requested_first = 0; last_requested_last = 0 }
    else e

-- A round of the loop of `drain` ends it or removes an entry, so `length pending + 1` rounds are
-- enough. At the last sequence number the source erases the same iterator twice.
pub drain_loop : ℕ → RecoveryEngine → Release → Outcome
unfolding deliver forget_request
drain_loop zero e r = (e, undefined)
drain_loop (suc fuel) e r = elim (OrderedMap.find sequence_order e.expected e.pending) [
  | none ↦ (forget_request e, ok r)
  | some payload ↦
      let rest = OrderedMap.erase sequence_order e.expected e.pending in
      let next = record e { expected = e.expected + 1; pending = rest } in
      let more = drain_loop fuel next (deliver r e.expected payload) in
      if e.expected == max_sequence then (record e { pending = rest }, undefined) else more
]

pub drain : RecoveryEngine → Release → Outcome
unfolding drain_loop
drain e r = drain_loop (length e.pending + 1) e r

-- The body of the loop over `packet.messages`.
pub receive : MoldMessage → RecoveryEngine → Release → Outcome
unfolding drain deliver
receive message e r =
    if ltb message.sequence e.expected
    then (e, ok (record r { duplicate_or_stale = true }))
    else if message.sequence == e.expected
    then (if e.expected == max_sequence
        then (e, throw sequence_exhausted)
        else drain (record e { expected = e.expected + 1 })
            (deliver r message.sequence message.payload))
    else (
      record e {
        pending = OrderedMap.try_emplace sequence_order message.sequence message.payload e.pending;
      },
      ok r,
    )

pub receive_all : List MoldMessage → RecoveryEngine → Release → Outcome
unfolding receive
receive_all [] e r = (e, ok r)
receive_all (m ∷ ms) e r = and_then (receive m e r) (receive_all ms)

pub no_release : Release
no_release = record {
  ready = [];
  request = none;
  duplicate_or_stale = false;
  end_of_session = false;
}

-- `if (!pending_.empty()) maybe_request(r, pending_.begin()->first);`
pub gap_before : OrderedMap ℕ ByteList → RecoveryEngine → Release → Outcome
unfolding maybe_request
gap_before [] e r = (e, ok r)
gap_before ((first, payload) ∷ rest) e r = let (e', r') = maybe_request e r first in (e', ok r')

pub request_gap : RecoveryEngine → Release → Outcome
unfolding gap_before
request_gap e r = gap_before e.pending e r

pub receive_packet : MoldDownstreamPacket → RecoveryEngine → Outcome
unfolding maybe_request receive_all request_gap no_release
receive_packet packet e =
    if packet.heartbeat || packet.end_of_session
    then (let (e', r) = maybe_request e no_release packet.first_sequence in
        (e', ok (record r { end_of_session = packet.end_of_session })))
    else and_then (receive_all packet.messages e no_release) request_gap

-- `if (!session_) session_ = packet.session; if (*session_ != packet.session) throw …;`
pub ingest_in : Option ByteList → MoldDownstreamPacket → RecoveryEngine → Outcome
unfolding receive_packet bytes_equal
ingest_in none packet e = receive_packet packet (record e { session = some packet.session })
ingest_in (some session) packet e =
    if bytes_equal session packet.session
    then receive_packet packet e
    else (e, throw session_changed)

unfoldable pub ingest : RecoveryEngine → MoldDownstreamPacket → Outcome
unfolding ingest_in
ingest e packet = ingest_in e.session packet e
