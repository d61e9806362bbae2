-- ===== src/Recovery/Foreign.antt =====
-- Packets of other sessions, for a caller that goes on after an exception.
use market_wire.Prelude.{
  ℕ, zero, suc, ◌+◌, ◌≡◌, refl, ◌∙◌, ap, ◌||◌, arith, some, List, [], ◌∷◌, ◌==◌, ltb, if◌then◌else◌,
  length, inl, inr, Bool-cases, Option-cases,
}
use market_wire.Prelude.Result.{Result, ok, throw, undefined, session_changed}
use market_wire.Recovery.{
  RecoveryEngine, Release, Outcome, and_then, deliver, forget_request, drain_loop, drain, receive,
  receive_all, no_release, gap_before, request_gap, receive_packet, ingest_in, ingest,
}
use market_wire.Recovery.Keys.{sequence_order}
use market_wire.Recovery.Requests.{maybe_request_keeps}
use market_wire.Recovery.Runs.{prepend}
use market_wire.Recovery.Stream.{held_by}
use market_wire.OrderedMap
use market_wire.OrderedMap.{OrderedMap}
use market_wire.Mold.{MoldMessage, MoldDownstreamPacket, max_sequence}
use market_wire.Wire.{ByteList, bytes_equal}

-- The session of the engine that a method leaves, whatever the method came to.
Stays : RecoveryEngine → Outcome → Type 0
Stays e o = o.0.session ≡ e.session

forget_request-session : (e : RecoveryEngine) → (forget_request e).session ≡ e.session
unfolding forget_request
forget_request-session e = ground arith

drain_loop-Stays : (fuel : ℕ) (e : RecoveryEngine) (r : Release) → Stays e (drain_loop fuel e r)
unfolding drain_loop Stays
drain_loop-Stays zero e r = refl
drain_loop-Stays (suc fuel) e r = elim (Option-cases (held_by e e.expected)) [
  | inl absent ↦ rw (absent, drain_loop) (forget_request-session e)
  | inr (payload, found) ↦
      let rest = OrderedMap.erase sequence_order e.expected e.pending in
      let next = record e { expected = e.expected + 1; pending = rest } in
      let more = drain_loop-Stays fuel next (deliver r e.expected payload) in
      rw (found, drain_loop)
        (elim (Bool-cases (e.expected == max_sequence)) [ inl t ↦ rw t refl | inr f ↦ rw f more ])
]

receive-Stays : (m : MoldMessage) (e : RecoveryEngine) (r : Release) → Stays e (receive m e r)
unfolding receive drain Stays
receive-Stays m e r =
    let next = record e { expected = e.expected + 1 } in
    let drained = drain_loop-Stays (length e.pending + 1) next (deliver r m.sequence m.payload) in
    elim (Bool-cases (ltb m.sequence e.expected)) [
      | inl t ↦ rw t refl
      | inr f ↦ elim (Bool-cases (m.sequence == e.expected)) [
        | inr g ↦ rw (f, g) refl
        | inl t ↦ elim (Bool-cases (e.expected == max_sequence)) [
          | inl u ↦ rw (f, t, u) refl
          | inr g ↦ rw (f, t, g) drained
        ]
      ]
    ]

and_then-Stays :
    (e : RecoveryEngine) (o : Outcome) (next : RecoveryEngine → Release → Outcome)
    → Stays e o
    → ((e1 : RecoveryEngine) (r : Release) → Stays e1 (next e1 r))
    → Stays e (and_then o next)
unfolding Stays
and_then-Stays e (e1, ok r) next h n = n e1 r ∙ h
and_then-Stays e (e1, throw f) next h n = h
and_then-Stays e (e1, undefined) next h n = h

receive_all-Stays :
    (ms : List MoldMessage) (e : RecoveryEngine) (r : Release) → Stays e (receive_all ms e r)
unfolding receive_all
receive_all-Stays [] e r = unfold Stays in refl
receive_all-Stays (m ∷ ms) e r =
    and_then-Stays e (receive m e r) (receive_all ms) (receive-Stays m e r) (receive_all-Stays ms)

gap_before-Stays :
    (m : OrderedMap ℕ ByteList) (e : RecoveryEngine) (r : Release) → Stays e (gap_before m e r)
unfolding gap_before Stays
gap_before-Stays [] e r = refl
gap_before-Stays ((first, payload) ∷ rest) e r = (maybe_request_keeps e r first).2

receive_packet-Stays :
    (p : MoldDownstreamPacket) (e : RecoveryEngine) → Stays e (receive_packet p e)
unfolding receive_packet request_gap
receive_packet-Stays p e = elim (Bool-cases (p.heartbeat || p.end_of_session)) [
  | inl t ↦ rw t (unfold Stays in (maybe_request_keeps e no_release p.first_sequence).2)
  | inr f ↦ rw f (
      and_then-Stays e (receive_all p.messages e no_release) request_gap
        (receive_all-Stays p.messages e no_release) (λ e1 r. gap_before-Stays e1.pending e1 r))
]

-- The packets that a caller hands over, one after another, and the messages released. An exception loses
-- the packet only.
abbrev go_on :
    Outcome
    → (RecoveryEngine → RecoveryEngine × Result (List MoldMessage))
    → RecoveryEngine × Result (List MoldMessage)
go_on (e, ok r) more = ((more e).0, prepend r.ready (more e).1)
go_on (e, throw f) more = more e
go_on (e, undefined) more = (e, undefined)

unfoldable pub ingest_each :
    List MoldDownstreamPacket → RecoveryEngine → RecoveryEngine × Result (List MoldMessage)
unfolding ingest
ingest_each [] e = (e, ok [])
ingest_each (p ∷ ps) e = go_on (ingest e p) (ingest_each ps)

-- The packets of one session.
abbrev pub own : ByteList → List MoldDownstreamPacket → List MoldDownstreamPacket
own session [] = []
own session (p ∷ ps) = if bytes_equal session p.session then p ∷ own session ps else own session ps

go_on-congr :
    (session : ByteList) (o : Outcome)
    (f g : RecoveryEngine → RecoveryEngine × Result (List MoldMessage))
    → o.0.session ≡ some session
    → ((e : RecoveryEngine) → e.session ≡ some session → f e ≡ g e)
    → go_on o f ≡ go_on o g
go_on-congr session (e, ok r) f g s h = rw (h e s) refl
go_on-congr session (e, throw x) f g s h = h e s
go_on-congr session (e, undefined) f g s h = refl

-- An engine of a session, given packets by a caller that goes on after exceptions, ends in the same state
-- and releases the same messages as if the packets of other sessions had not come.
pub ingest_each-own :
    (session : ByteList) (ps : List MoldDownstreamPacket) (e : RecoveryEngine)
    → e.session ≡ some session
    → ingest_each ps e ≡ ingest_each (own session ps) e
unfolding ingest_each
ingest_each-own session [] e s = refl
ingest_each-own session (p ∷ ps) e s =
    let opens : ingest e p ≡ ingest_in (some session) p e =
      unfold ingest in ap (λ o. ingest_in o p e) s in
    elim (Bool-cases (bytes_equal session p.session)) [
      | inr other ↦
          let refused : ingest e p ≡ (e, throw session_changed) =
            opens ∙ unfold ingest_in in rw other refl in
          rw (other, refused) (ingest_each-own session ps e s)
      | inl same ↦
          let taken : ingest e p ≡ receive_packet p e = opens ∙ unfold ingest_in in rw same refl in
          let stays : (ingest e p).0.session ≡ some session =
            rw taken (unfold Stays in receive_packet-Stays p e ∙ s) in
          rw same (
            go_on-congr session (ingest e p) (ingest_each ps) (ingest_each (own session ps)) stays
              (λ e1 s1. ingest_each-own session ps e1 s1))
    ]
