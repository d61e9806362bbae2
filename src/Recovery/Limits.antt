-- ===== src/Recovery/Limits.antt =====
-- The other paths of `RecoveryEngine::ingest`: markers, and the end of the sequence numbers.
use market_wire.Prelude.{
  ℕ, suc, ◌+◌, ◌≡◌, refl, ◌∙◌, ap, sym, true, false, ◌||◌, some, List, [], ◌∷◌, ◌==◌, ltb, arith,
  length, inl, inr,
}
use market_wire.Prelude.Result.{ok, throw, undefined, sequence_exhausted}
use market_wire.Recovery.{
  RecoveryEngine, Release, Outcome, maybe_request, receive, receive_all, and_then, no_release,
  receive_packet, ingest_in, ingest, drain_loop, deliver,
}
use market_wire.Recovery.Requests.{maybe_request_keeps}
use market_wire.Recovery.Stream.{held_by, Ends}
use market_wire.Recovery.Ingest.{IsData, Accepts}
use market_wire.Mold.{MoldMessage, MoldDownstreamPacket, max_sequence}
use market_wire.Wire.{ByteList}
use market_wire.Wire.Bytes.{bytes_equal_refl}

-- A call that took the session in goes on with the packet.
pub ingest_accepted :
    (e : RecoveryEngine) (p : MoldDownstreamPacket)
    → Accepts e p.session
    → ingest e p ≡ receive_packet p (record e { session = some p.session })
unfolding ingest
ingest_accepted e p (inl s) = ap (λ o. ingest_in o p e) s
ingest_accepted e p (inr s) =
    let same : record e { session = some p.session } ≡ e = λ i. record e { session = sym s i } in
    ap (λ o. ingest_in o p e) s ∙ rw (bytes_equal_refl p.session) (ap (receive_packet p) (sym same))

-- What a marker packet may change.
pub record Marks (p : MoldDownstreamPacket) (e e' : RecoveryEngine) (r : Release) : Type 0 where
  pub expected : e'.expected ≡ e.expected
  pub pending : e'.pending ≡ e.pending
  pub ready : r.ready ≡ []
  pub end_of_session : r.end_of_session ≡ p.end_of_session

-- A heartbeat or an end-of-session packet of the engine's session is taken in without an exception.
-- It delivers nothing, leaves the buffer and the next number alone, and only the end-of-session
-- packet reports the end.
pub ingest-Marks :
    (e : RecoveryEngine) (p : MoldDownstreamPacket)
    → (p.heartbeat || p.end_of_session) ≡ true
    → Accepts e p.session
    → Ends (Marks p e) (ingest e p)
unfolding receive_packet
ingest-Marks e p marker accepts =
    let opened = record e { session = some p.session } in
    let result = maybe_request opened no_release p.first_sequence in
    let (expected, pending, _, ready) = maybe_request_keeps opened no_release p.first_sequence in
    (
      result.0,
      record (result.1) { end_of_session = p.end_of_session },
      ingest_accepted e p accepts ∙ rw marker refl,
      record {
        expected = expected;
        pending = pending;
        ready = unfold no_release in ready;
        end_of_session = refl;
      },
    )

-- At the last number the loop of `drain` erases its iterator twice.
drain_loop_undefined :
    (fuel : ℕ) (e : RecoveryEngine) (r : Release) (q : ByteList)
    → e.expected ≡ max_sequence
    → held_by e e.expected ≡ some q
    → (drain_loop (suc fuel) e r).1 ≡ undefined
unfolding drain_loop
drain_loop_undefined fuel e r q last found =
    let test : (e.expected == max_sequence) ≡ true = ground arith in
    rw (found, drain_loop) (rw test refl)

module _ (e : RecoveryEngine) (r : Release) (m : MoldMessage) where
  -- The next message is the last but one, and the last one waits in the buffer.
  receive_undefined :
      (q : ByteList)
      → m.sequence ≡ e.expected
      → e.expected + 1 ≡ max_sequence
      → held_by e max_sequence ≡ some q
      → (receive m e r).1 ≡ undefined
  unfolding receive
  receive_undefined q here last found =
      let not_stale : ltb m.sequence e.expected ≡ false = ground arith in
      let in_order : (m.sequence == e.expected) ≡ true = ground arith in
      let ordinary : (e.expected == max_sequence) ≡ false = ground arith in
      let fuel : length e.pending + 1 ≡ suc (length e.pending) = omega arith in
      rw (not_stale, in_order, ordinary)
        (rw fuel (
          drain_loop_undefined (length e.pending) (record e { expected = e.expected + 1 })
            (deliver r m.sequence m.payload) q last (rw last found)))

  receive_exhausted :
      m.sequence ≡ e.expected
      → e.expected ≡ max_sequence
      → receive m e r ≡ (e, throw sequence_exhausted)
  unfolding receive
  receive_exhausted here last =
      let not_stale : ltb m.sequence e.expected ≡ false = ground arith in
      let in_order : (m.sequence == e.expected) ≡ true = ground arith in
      let at_end : (e.expected == max_sequence) ≡ true = ground arith in
      rw (not_stale, in_order, at_end) refl

and_then_undefined :
    (o : Outcome) (next : RecoveryEngine → Release → Outcome)
    → o.1 ≡ undefined
    → (and_then o next).1 ≡ undefined
and_then_undefined (e, ok r) next h = cc
and_then_undefined (e, throw f) next h = cc
and_then_undefined (e, undefined) next h = refl

-- The source misses its own rule for the last sequence number: with number 2^64 - 2 expected and number
-- 2^64 - 1 buffered, a data packet that begins with number 2^64 - 2 makes the call undefined, where
-- an exception is meant.
pub ingest_undefined :
    (e : RecoveryEngine) (p : MoldDownstreamPacket) (m : MoldMessage) (ms : List MoldMessage)
    (q : ByteList)
    → IsData p
    → Accepts e p.session
    → p.messages ≡ m ∷ ms
    → m.sequence ≡ e.expected
    → e.expected + 1 ≡ max_sequence
    → held_by e max_sequence ≡ some q
    → (ingest e p).1 ≡ undefined
unfolding receive_packet receive_all
ingest_undefined e p m ms q (hb, eos) accepts begins here last found =
    let opened = record e { session = some p.session } in
    ap (λ o. o.1) (ingest_accepted e p accepts)
    ∙ rw (hb, eos, begins)
        (and_then_undefined (receive_all (m ∷ ms) opened no_release) _ (
          and_then_undefined (receive m opened no_release) (receive_all ms)
            (receive_undefined opened no_release m q here last found)))
