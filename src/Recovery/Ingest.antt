-- ===== src/Recovery/Ingest.antt =====
-- `RecoveryEngine::ingest` on whole packets and on sequences of them: it implements the stream of
-- Stream.
use market_wire.Prelude.{
  ℕ, ◌<◌, ◌≡◌, refl, ◌∙◌, ap, sym, false, none, some, List, [], ◌∷◌, arith, All, inl, inr, ◌⊎◌,
  lt→ltb,
}
use market_wire.Prelude.Result.{ok}
use market_wire.Recovery.Keys.{sequence_order}
use market_wire.Recovery.{
  RecoveryEngine, Release, Outcome, maybe_request, receive_all, no_release, gap_before,
  receive_packet, ingest_in, ingest,
}
use market_wire.Recovery.Stream.{Stream, extend, extend_all, held_by, IsValid, Delivers, Ends}
use market_wire.Recovery.Requests.{maybe_request_keeps}
use market_wire.Recovery.Steps.{Delivered, Forgets, Forgets-trans, receive-Delivered}
use market_wire.OrderedMap
use market_wire.OrderedMap.Laws.{AllKeys-mono, find_after}
use market_wire.Mold.{MoldMessage, MoldDownstreamPacket, max_sequence}
use market_wire.Wire.{ByteList}
use market_wire.Wire.Bytes.{bytes_equal_refl}

abbrev pub IsBelow : MoldMessage → Type 0
IsBelow m = m.sequence < max_sequence

receive_all-Delivered :
    (from : ℕ) (held : Stream) (ms : List MoldMessage) (e : RecoveryEngine) (r : Release)
    → All IsBelow ms
    → IsValid e
    → Delivers from held r.ready e
    → Ends (Delivered from (extend_all held ms) e r) (receive_all ms e r)
unfolding receive_all
receive_all-Delivered from held [] e r b v d = (
  e,
  r,
  refl,
  (
    v,
    d,
    record { session = refl; request = refl; end_of_session = refl; range = inl (refl, refl) },
  ),
)
receive_all-Delivered from held (m ∷ ms) e r b v d =
    let (e1, r1, run1, (v1, d1, k1)) = receive-Delivered from held m e r v d b.0 in
    let (e2, r2, run2, (v2, d2, k2)) =
      receive_all-Delivered from (extend held m) ms e1 r1 b.1 v1 d1 in
    (
      e2,
      r2,
      rw run1 run2,
      (
        v2,
        d2,
        record {
          session = k2.session ∙ k1.session;
          request = k2.request ∙ k1.request;
          end_of_session = k2.end_of_session ∙ k1.end_of_session;
          range = Forgets-trans e e1 e2 k1.range k2.range;
        },
      ),
    )

SameEngine : RecoveryEngine → Release → RecoveryEngine → Release → Type 0
SameEngine e r e' r' =
    (e'.expected ≡ e.expected)
    × (e'.pending ≡ e.pending)
    × (e'.session ≡ e.session)
    × (r'.ready ≡ r.ready)

gap_before_keeps :
    (m : OrderedMap.OrderedMap ℕ ByteList) (e : RecoveryEngine) (r : Release) {e' : RecoveryEngine}
    {r' : Release}
    → gap_before m e r ≡ (e', ok r')
    → SameEngine e r e' r'
unfolding gap_before SameEngine
gap_before_keeps [] e r h = ground arith
gap_before_keeps ((first, payload) ∷ rest) e r h = ground (arith, maybe_request_keeps e r first)

gap_before_ends :
    (m : OrderedMap.OrderedMap ℕ ByteList) (e : RecoveryEngine) (r : Release)
    → (e' : RecoveryEngine) × (r' : Release) × (gap_before m e r ≡ (e', ok r'))
unfolding gap_before
gap_before_ends [] e r = (e, r, refl)
gap_before_ends ((first, payload) ∷ rest) e r = let o = maybe_request e r first in (o.0, o.1, refl)

-- The call releases the stream `held` from the engine's next number up to the first one missing.
pub record Releases (held : Stream) (session : ByteList) (e e' : RecoveryEngine) (r : Release)
    : Type 0 where
  pub valid : IsValid e'
  pub delivers : Delivers e.expected held r.ready e'
  pub stops : held e'.expected ≡ none
  pub session_is : e'.session ≡ some session

pub next_absent : (e : RecoveryEngine) → IsValid e → held_by e e.expected ≡ none
next_absent e v =
    find_after sequence_order e.expected e.pending
      (AllKeys-mono e.pending (λ k h. lt→ltb _ _ h.0) v.ahead)

-- An engine before its first packet takes any session, later only its own.
abbrev pub Accepts : RecoveryEngine → ByteList → Type 0
Accepts e session = (e.session ≡ none) ⊎ (e.session ≡ some session)

abbrev pub IsData : MoldDownstreamPacket → Type 0
IsData p = (p.heartbeat ≡ false) × (p.end_of_session ≡ false)

Releases-SameEngine :
    {held : Stream} {session : ByteList} {e e1 e2 : RecoveryEngine} {r1 r2 : Release}
    → SameEngine e1 r1 e2 r2
    → Releases held session e e1 r1
    → Releases held session e e2 r2
unfolding SameEngine
Releases-SameEngine {held} {session} {e} {e1} {e2} {r1} {r2}
      (expected, pending, session_same, ready) p =
    let d = p.delivers in
    record {
      valid = record {
        sorted = rw pending p.valid.sorted;
        ahead = rw (pending, expected) p.valid.ahead;
      };
      delivers = record {
        advanced = rw (ready, expected) d.advanced;
        run = rw ready d.run;
        rest = λ s h. rw pending (d.rest s (rw expected at h));
      };
      stops = rw expected p.stops;
      session_is = session_same ∙ p.session_is;
    }

-- The engine and the answer with which the loop over the messages of a data packet ends: the call goes on
-- with the gap that is left.
pub record Received (e : RecoveryEngine) (p : MoldDownstreamPacket) (e' : RecoveryEngine)
    (r : Release) : Type 0 where
  pub releases : Releases (extend_all (held_by e) p.messages) p.session e e' r
  pub no_request : r.request ≡ none
  pub range : Forgets e e'

abbrev pub Receives : RecoveryEngine → MoldDownstreamPacket → Outcome → Type 0
Receives e p o =
    (e1 : RecoveryEngine) × (r1 : Release) × (o ≡ gap_before e1.pending e1 r1) × Received e p e1 r1

receive_packet-Receives :
    (e : RecoveryEngine) (p : MoldDownstreamPacket)
    → IsData p
    → All IsBelow p.messages
    → IsValid e
    → e.session ≡ some p.session
    → Receives e p (receive_packet p e)
unfolding receive_packet
receive_packet-Receives e p (hb, eos) below v s =
    let begin : Delivers e.expected (held_by e) no_release.ready e =
      unfold no_release in record { advanced = omega arith; run = tt; rest = λ t h. refl } in
    let (e1, r1, run1, (v1, d1, k1)) =
      receive_all-Delivered e.expected (held_by e) p.messages e no_release below v begin in
    let stops : extend_all (held_by e) p.messages e1.expected ≡ none =
      sym (d1.rest e1.expected (omega arith)) ∙ next_absent e1 v1 in
    (
      e1,
      r1,
      rw (hb, eos, run1) refl,
      record {
        releases = record { valid = v1; delivers = d1; stops = stops; session_is = k1.session ∙ s };
        no_request = unfold no_release in k1.request;
        range = k1.range;
      },
    )

pub ingest-Receives :
    (e : RecoveryEngine) (p : MoldDownstreamPacket)
    → IsData p
    → All IsBelow p.messages
    → IsValid e
    → Accepts e p.session
    → Receives e p (ingest e p)
unfolding ingest
ingest-Receives e p data_packet below v (inr s) =
    let (e1, r1, run, received) = receive_packet-Receives e p data_packet below v s in
    (e1, r1, ap (λ o. ingest_in o p e) s ∙ rw (bytes_equal_refl p.session) run, received)
ingest-Receives e p data_packet below v (inl s) =
    let opened = record e { session = some p.session } in
    let valid : IsValid opened = record { sorted = v.sorted; ahead = v.ahead } in
    let (e1, r1, run, received) = receive_packet-Receives opened p data_packet below valid refl in
    let done = received.releases in
    (
      e1,
      r1,
      ap (λ o. ingest_in o p e) s ∙ run,
      record {
        releases = record {
          valid = done.valid;
          delivers = record {
            advanced = done.delivers.advanced;
            run = done.delivers.run;
            rest = done.delivers.rest;
          };
          stops = done.stops;
          session_is = done.session_is;
        };
        no_request = received.no_request;
        range = received.range;
      },
    )

-- A well-formed engine takes in a data packet of its session (a new engine takes any session), with
-- every sequence number below 2^64 - 1, without an exception. From the engine's next number on,
-- the call releases the first payload held for each number, up to the first number that is
-- missing, and buffers the rest.
pub ingest-Releases :
    (e : RecoveryEngine) (p : MoldDownstreamPacket)
    → IsData p
    → All IsBelow p.messages
    → IsValid e
    → Accepts e p.session
    → Ends (Releases (extend_all (held_by e) p.messages) p.session e) (ingest e p)
ingest-Releases e p data_packet below v accepts =
    let (e1, r1, run, received) = ingest-Receives e p data_packet below v accepts in
    let (e2, r2, ends) = gap_before_ends e1.pending e1 r1 in
    let same = gap_before_keeps e1.pending e1 r1 ends in
    (e2, r2, run ∙ ends, Releases-SameEngine same received.releases)
