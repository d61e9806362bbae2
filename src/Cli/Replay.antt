-- ===== src/Cli/Replay.antt =====
-- A replay applies to the book what the recovery engine delivers, in its order.
use market_wire.Prelude.{ℕ, ◌≡◌, refl, ap, ◌∙◌, sym, List, [], ◌∷◌, ◌++◌, All, ◌≤◌}
use market_wire.Prelude.Result.{Result, ok, throw, undefined}
use market_wire.Book.{OrderBook}
use market_wire.Cli.Process.{
  apply_event, Applied, and_apply, apply_messages, Processed, leave, release, process_packet,
  and_process, process_all,
}
use market_wire.Itch.{decode_book_event}
use market_wire.Schema.Itch50.{itch50}
use market_wire.Mold.{MoldMessage, MoldDownstreamPacket, parse_downstream}
use market_wire.Recovery.{RecoveryEngine, Outcome, ingest, new_engine}
use market_wire.Recovery.Convergence.{ingest_all_converges, Carries, arrives}
use market_wire.Recovery.Runs.{ingest_all, next_packets, prepend, IsFeed}
use market_wire.Wire.{ByteList}

-- The datagrams are those of the packets.
pub data Parses : List ByteList → List MoldDownstreamPacket → Type 0 where
  none_left : Parses [] []
  one_more :
      {d : ByteList} {p : MoldDownstreamPacket} {ds : List ByteList}
      {ps : List MoldDownstreamPacket}
      → parse_downstream d ≡ ok p
      → Parses ds ps
      → Parses (d ∷ ds) (p ∷ ps)

-- What a replay shows: the book and how it ended.
abbrev pub shown : Processed → Applied
shown (feed, done) = (feed.book, done)

and_apply-join :
    (a : Applied) (f g h : OrderBook → Applied)
    → ((b : OrderBook) → h b ≡ and_apply (f b) g)
    → and_apply a h ≡ and_apply (and_apply a f) g
and_apply-join (b, ok tt) f g h k = k b
and_apply-join (b, throw e) f g h k = refl
and_apply-join (b, undefined) f g h k = refl

apply_messages-append :
    (ms ns : List MoldMessage) (b : OrderBook)
    → apply_messages (ms ++ ns) b ≡ and_apply (apply_messages ms b) (apply_messages ns)
unfolding apply_messages
apply_messages-append [] ns b = refl
apply_messages-append (m ∷ ms) ns b =
    let first = apply_event (decode_book_event itch50 m.payload) b in
    and_apply-join first (apply_messages ms) (apply_messages ns) _ (apply_messages-append ms ns)

-- After a packet's messages, the rest of the run goes on from the book that they left.
shown-leave :
    (e : RecoveryEngine) (a : Applied) (ds : List ByteList) (h : OrderBook → Applied)
    → ((b : OrderBook) → shown (process_all ds (record { recovery = e; book = b })) ≡ h b)
    → shown (and_process (leave e a) (process_all ds)) ≡ and_apply a h
shown-leave e (b, ok tt) ds h k = k b
shown-leave e (b, throw f) ds h k = refl
shown-leave e (b, undefined) ds h k = refl

prepend-ok :
    (ready : List MoldMessage) (more : Result (List MoldMessage)) {out : List MoldMessage}
    → prepend ready more ≡ ok out
    → (rest : List MoldMessage) × (more ≡ ok rest) × (ready ++ rest ≡ out)
prepend-ok ready (ok rest) h = (rest, refl, cc)
prepend-ok ready (throw f) h = cc
prepend-ok ready undefined h = cc

-- The datagrams `ds` do to a book what the messages of the packets `ps` come to.
abbrev Replays : List ByteList → List MoldDownstreamPacket → Type 0
Replays ds ps =
    (e : RecoveryEngine) (b : OrderBook) (out : List MoldMessage)
    → (ingest_all ps e).1 ≡ ok out
    → shown (process_all ds (record { recovery = e; book = b })) ≡ apply_messages out b

release-Replays :
    (ds : List ByteList) (ps : List MoldDownstreamPacket) (b : OrderBook) (out : List MoldMessage)
    (o : Outcome)
    → Replays ds ps
    → (next_packets o (ingest_all ps)).1 ≡ ok out
    → shown (and_process (release o b) (process_all ds)) ≡ apply_messages out b
release-Replays ds ps b out (e1, ok r) k h =
    let (rest, run1, whole) = prepend-ok r.ready (ingest_all ps e1).1 h in
    shown-leave e1 (apply_messages r.ready b) ds (apply_messages rest) (λ b1. k e1 b1 rest run1)
    ∙ sym (apply_messages-append r.ready rest b)
    ∙ ap (λ ms. apply_messages ms b) whole
release-Replays ds ps b out (e1, throw f) k h = cc
release-Replays ds ps b out (e1, undefined) k h = cc

-- If the recovery engine takes the packets of a replay without an exception, the replay ends with the book,
-- and with the exception if any, that the messages delivered come to in one go.
pub process_all-ingest_all :
    {ds : List ByteList} {ps : List MoldDownstreamPacket} (e : RecoveryEngine) (b : OrderBook)
    (out : List MoldMessage)
    → Parses ds ps
    → (ingest_all ps e).1 ≡ ok out
    → shown (process_all ds (record { recovery = e; book = b })) ≡ apply_messages out b
unfolding process_all process_packet ingest_all apply_messages
process_all-ingest_all e b out none_left run = let empty : [] ≡ out = cc in rw (sym empty) refl
process_all-ingest_all e b out (one_more {d} {p} {ds} {ps} parsed more) run = rw parsed (
    release-Replays ds ps b out (ingest e p)
      (λ e1 b1 out1 run1. process_all-ingest_all e1 b1 out1 more run1) run)

-- Two replays of data packets of one session, every sequence number below 2^64 - 1, in which every message
-- carries what the feed has under its number: if from the first number on the same numbers arrive, in
-- whatever order, grouping and multiplicity, both end with the same book, and with the same exception of
-- the decoder or of the book if there is one.
pub process_all_converges :
    (session : ByteList) (feed : ℕ → ByteList) (first : ℕ) (b : OrderBook) {ds es : List ByteList}
    (ps qs : List MoldDownstreamPacket)
    → Parses ds ps
    → Parses es qs
    → All (IsFeed session) ps
    → All (IsFeed session) qs
    → All (λ p. All (Carries feed) p.messages) ps
    → All (λ p. All (Carries feed) p.messages) qs
    → ((s : ℕ) → first ≤ s → arrives s ps ≡ arrives s qs)
    → shown (process_all ds (record { recovery = new_engine first; book = b }))
      ≡ shown (process_all es (record { recovery = new_engine first; book = b }))
process_all_converges session feed first b ps qs pd pe fp fq cp cq same =
    let (out, run1, run2, next) = ingest_all_converges session feed first ps qs fp fq cp cq same in
    process_all-ingest_all (new_engine first) b out pd run1
    ∙ sym (process_all-ingest_all (new_engine first) b out pe run2)
