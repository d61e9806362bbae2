-- ===== src/Recovery/Runs.antt =====
-- The callers' loop: packets one after another, the released messages concatenated.
use market_wire.Prelude.{
  ℕ, suc, ◌+◌, ◌≤◌, ◌≡◌, refl, ◌∙◌, ap, sym, none, some, List, [], ◌∷◌, ◌++◌, arith, All, length,
  length-append, inr,
}
use market_wire.Prelude.Result.{Result, ok, throw, undefined}
use market_wire.Recovery.{RecoveryEngine, Release, Outcome, ingest}
use market_wire.Recovery.Stream.{
  Stream, extend, extend_all, Matches, Matches-extend, held_by, IsValid, Delivers,
}
use market_wire.Recovery.Ingest.{IsBelow, IsData, Accepts, Releases, next_absent, ingest-Releases}
use market_wire.Mold.{MoldMessage, MoldDownstreamPacket}
use market_wire.Wire.{ByteList}

abbrev pub prepend : List MoldMessage → Result (List MoldMessage) → Result (List MoldMessage)
prepend out (ok more) = ok (out ++ more)
prepend out (throw f) = throw f
prepend out undefined = undefined

-- An exception leaves the loop.
abbrev pub next_packets :
    Outcome
    → (RecoveryEngine → RecoveryEngine × Result (List MoldMessage))
    → RecoveryEngine × Result (List MoldMessage)
next_packets (e, ok r) more = ((more e).0, prepend r.ready (more e).1)
next_packets (e, throw f) more = (e, throw f)
next_packets (e, undefined) more = (e, undefined)

unfoldable pub ingest_all :
    List MoldDownstreamPacket → RecoveryEngine → RecoveryEngine × Result (List MoldMessage)
ingest_all [] e = (e, ok [])
ingest_all (p ∷ ps) e = next_packets (ingest e p) (ingest_all ps)

-- The stream of all packets, in order of arrival.
abbrev pub stream_of : Stream → List MoldDownstreamPacket → Stream
stream_of held [] = held
stream_of held (p ∷ ps) = stream_of (extend_all held p.messages) ps

abbrev SameFrom : ℕ → Stream → Stream → Type 0
SameFrom n h g = (s : ℕ) → n ≤ s → h s ≡ g s

extend_all_congr :
    (n : ℕ) (h g : Stream) (ms : List MoldMessage)
    → SameFrom n h g
    → SameFrom n (extend_all h ms) (extend_all g ms)
extend_all_congr n h g [] same = same
extend_all_congr n h g (m ∷ ms) same =
    extend_all_congr n (extend h m) (extend g m) ms (λ s le. rw (same s le) refl)

stream_of_congr :
    (n : ℕ) (h g : Stream) (ps : List MoldDownstreamPacket)
    → SameFrom n h g
    → SameFrom n (stream_of h ps) (stream_of g ps)
stream_of_congr n h g [] same = same
stream_of_congr n h g (p ∷ ps) same =
    stream_of_congr n (extend_all h p.messages) (extend_all g p.messages) ps
      (extend_all_congr n h g p.messages same)

Matches-congr :
    (n : ℕ) (h g : Stream) (out : List MoldMessage)
    → SameFrom n h g
    → Matches n h out
    → Matches n g out
Matches-congr n h g [] same k = tt
Matches-congr n h g (m ∷ out) same k = (
  k.0,
  sym (same n (omega arith)) ∙ k.1,
  Matches-congr (suc n) h g out (λ s le. same s (omega arith)) k.2,
)

Matches-concat :
    (n : ℕ) (h : Stream) (xs ys : List MoldMessage)
    → Matches n h xs
    → Matches (n + length xs) h ys
    → Matches n h (xs ++ ys)
Matches-concat n h [] ys k l = let e : n + 0 ≡ n = omega arith in rw e at l
Matches-concat n h (x ∷ xs) ys k l =
    let e : n + suc (length xs) ≡ suc n + length xs = omega arith in
    (k.0, k.1, Matches-concat (suc n) h xs ys k.2 (rw e at l))

-- A delivered entry is not changed by later packets, so what the first packets delivered is a piece
-- of the whole stream.
Matches-extend_all :
    (n : ℕ) (h : Stream) (ms out : List MoldMessage)
    → Matches n h out
    → Matches n (extend_all h ms) out
Matches-extend_all n h [] out k = k
Matches-extend_all n h (m ∷ ms) out k =
    Matches-extend_all n (extend h m) ms out (Matches-extend n h out m k)

Matches-stream_of :
    (n : ℕ) (h : Stream) (ps : List MoldDownstreamPacket) (out : List MoldMessage)
    → Matches n h out
    → Matches n (stream_of h ps) out
Matches-stream_of n h [] out k = k
Matches-stream_of n h (p ∷ ps) out k =
    Matches-stream_of n (extend_all h p.messages) ps out (Matches-extend_all n h p.messages out k)

-- A data packet of the session, with no sequence number that ends it.
abbrev pub IsFeed : ByteList → MoldDownstreamPacket → Type 0
IsFeed session p = IsData p × (p.session ≡ session) × All IsBelow p.messages

-- What a run of packets has delivered and left buffered.
pub record Delivered (held : Stream) (e e' : RecoveryEngine) (out : List MoldMessage) : Type 0 where
  pub valid : IsValid e'
  pub delivers : Delivers e.expected held out e'
  pub stops : held e'.expected ≡ none

ingest_all_step :
    (p : MoldDownstreamPacket) (ps : List MoldDownstreamPacket) (e : RecoveryEngine)
    {e1 e2 : RecoveryEngine} {r : Release} {out : List MoldMessage}
    → ingest e p ≡ (e1, ok r)
    → ingest_all ps e1 ≡ (e2, ok out)
    → ingest_all (p ∷ ps) e ≡ (e2, ok (r.ready ++ out))
unfolding ingest_all
ingest_all_step p ps e run rest = rw run (rw rest refl)

Delivered-join :
    (held : Stream) (session : ByteList) (ps : List MoldDownstreamPacket) {e e1 e2 : RecoveryEngine}
    {r : Release} {out : List MoldMessage}
    → Releases held session e e1 r
    → Delivered (stream_of (held_by e1) ps) e1 e2 out
    → Delivered (stream_of held ps) e e2 (r.ready ++ out)
Delivered-join held session ps {e} {e1} {e2} {r} {out} one more =
    let d1 = one.delivers in
    let d2 = more.delivers in
    let same : SameFrom e1.expected (stream_of (held_by e1) ps) (stream_of held ps) =
      stream_of_congr e1.expected (held_by e1) held ps d1.rest in
    let later : e1.expected ≤ e2.expected = omega (arith, d2.advanced) in
    let second : Matches e1.expected (stream_of held ps) out =
      Matches-congr e1.expected _ _ out same d2.run in
    record {
      valid = more.valid;
      delivers = record {
        advanced = omega (arith, d1.advanced, d2.advanced, length-append {0} r.ready out);
        run =
            Matches-concat e.expected (stream_of held ps) r.ready out
              (Matches-stream_of e.expected held ps r.ready d1.run) (rw d1.advanced second);
        rest = λ s h. d2.rest s h ∙ same s (omega arith);
      };
      stops = sym (same e2.expected later) ∙ more.stops;
    }

-- A run of data packets of a well-formed engine's session (a new engine takes any), with every sequence
-- number below 2^64 - 1, raises no exception. It delivers, from the engine's next
-- number on, the first payload received for each number, up to the first number that never
-- arrived, and what lies beyond stays buffered.
pub ingest_all-Delivered :
    (session : ByteList) (ps : List MoldDownstreamPacket) (e : RecoveryEngine)
    → All (IsFeed session) ps
    → IsValid e
    → Accepts e session
    → (e' : RecoveryEngine) × (out : List MoldMessage) × (ingest_all ps e ≡ (e', ok out))
      × Delivered (stream_of (held_by e) ps) e e' out
unfolding ingest_all
ingest_all-Delivered session [] e f v a = (
  e,
  [],
  refl,
  record {
    valid = v;
    delivers = record { advanced = omega arith; run = tt; rest = λ s h. refl };
    stops = next_absent e v;
  },
)
ingest_all-Delivered session (p ∷ ps) e f v a =
    let (e1, r1, run1, d1) = ingest-Releases e p f.0.0 f.0.2 v (rw (f.0.1) a) in
    let (e2, out, run2, d2) =
      ingest_all-Delivered session ps e1 f.1 d1.valid (inr (d1.session_is ∙ ap some f.0.1)) in
    (
      e2,
      r1.ready ++ out,
      ingest_all_step p ps e run1 run2,
      Delivered-join (extend_all (held_by e) p.messages) p.session ps d1 d2,
    )
