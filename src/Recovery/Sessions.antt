-- ===== src/Recovery/Sessions.antt =====
-- The requests of a session: what the answers have asked for since the engine was made.
use market_wire.Prelude.{
  ℕ, ◌+◌, ◌<◌, ◌≤◌, ◌≡◌, refl, sym, ◌∙◌, ap, ◌⊎◌, inl, inr, ◌||◌, true, Option, none, some, [], ◌∷◌,
  All, arith, Bool-cases,
}
use market_wire.Prelude.Result.{ok}
use market_wire.Recovery.{
  RecoveryEngine, Release, GapRequest, new_engine, maybe_request, no_release, receive_packet,
  ingest_in, ingest,
}
use market_wire.Recovery.Ingest.{IsBelow, IsData, Accepts, ingest-Receives}
use market_wire.Recovery.Limits.{ingest_accepted}
use market_wire.Recovery.Requests.{
  latest, Remembers, asked_before, Covers, IsTracked, AsksMissing, Requested, no_gap, remembered,
  requested, maybe_request-Requested, Tracks, gap_before-Tracks,
}
use market_wire.Recovery.Steps.{Forgets}
use market_wire.Recovery.Stream.{Ends}
use market_wire.OrderedMap.{OrderedMap}
use market_wire.Mold.{MoldDownstreamPacket, max_sequence}
use market_wire.Wire.{ByteList, bytes_equal}
use market_wire.Wire.Bytes.{eq_of_bytes_equal}

-- A heartbeat or the end of the session, with a sequence number of 64 bits.
abbrev pub IsMarker : MoldDownstreamPacket → Type 0
IsMarker p = ((p.heartbeat || p.end_of_session) ≡ true) × (p.first_sequence ≤ max_sequence)

abbrev pub IsTaken : MoldDownstreamPacket → Type 0
IsTaken p = (IsData p × All IsBelow p.messages) ⊎ IsMarker p

-- An engine after calls that ended without an exception, and the last request that an answer carried.
pub data Session : RecoveryEngine → Option GapRequest → Type 0 where
  opens : {first : ℕ} → 0 < first → Session (new_engine first) none
  takes :
      {e e1 : RecoveryEngine} {asked : Option GapRequest} {r : Release} (p : MoldDownstreamPacket)
      → Session e asked
      → IsTaken p
      → ingest e p ≡ (e1, ok r)
      → Session e1 (latest r.request asked)

Remembers-Forgets :
    (asked : Option GapRequest) (e e1 : RecoveryEngine)
    → Remembers asked e
    → Forgets e e1
    → Remembers asked e1
Remembers-Forgets asked e e1 m (inr reset) = inl reset
Remembers-Forgets asked e e1 (inl (a, b)) (inl (c, d)) = inl (c ∙ a, d ∙ b)
Remembers-Forgets asked e e1 (inr (g, is, from, size)) (inl (c, d)) =
    inr (g, is, from ∙ sym c, omega (arith, size, d))

module _ (asked : Option GapRequest) (e : RecoveryEngine) (p : MoldDownstreamPacket)
    (t : IsTracked asked e) (accepts : Accepts e p.session) where
  ingest_data : IsData p → All IsBelow p.messages → Ends (Tracks asked) (ingest e p)
  ingest_data data_packet below =
      let (e1, r1, run, received) = ingest-Receives e p data_packet below t.valid accepts in
      let done = received.releases in
      let positive : 0 < e1.expected = omega (arith, t.positive, done.delivers.advanced) in
      let memory = Remembers-Forgets asked e e1 t.remembers received.range in
      let (e2, r2, ends, tracks) =
        gap_before-Tracks asked e1 r1 done.valid positive memory received.no_request e1.pending
          refl in
      (e2, r2, run ∙ ends, tracks)

-- A new request is larger than the one before it.
Covers-requested :
    (m : OrderedMap ℕ ByteList) (e : RecoveryEngine) (n last : ℕ)
    → Covers m e
    → (e.last_requested_first ≡ e.expected → e.last_requested_last + 1 < n)
    → e.expected + asked_before n e ≡ last + 1
    → Covers m (record e { last_requested_first = e.expected; last_requested_last = last })
Covers-requested [] e n last c larger size = tt
Covers-requested ((k, payload) ∷ rest) e n last c larger size =
    (refl, omega (arith, c.1, larger c.0, size))

Requested-IsTracked :
    (asked : Option GapRequest) (e : RecoveryEngine) (n : ℕ) {o : RecoveryEngine × Release}
    → IsTracked asked e
    → Requested e no_release n o
    → IsTracked (latest o.1.request asked) o.0
unfolding no_release
Requested-IsTracked asked e n t (no_gap none_left) = t
Requested-IsTracked asked e n t (remembered gap begins reaches) = t
Requested-IsTracked asked e n t (requested {last = last} gap larger size) = record {
  valid = record { sorted = t.valid.sorted; ahead = t.valid.ahead };
  positive = t.positive;
  remembers = inr (record { first = e.expected; count = asked_before n e }, refl, refl, size);
  covers = Covers-requested e.pending e n last t.covers larger size;
}

Covers-opened :
    (m : OrderedMap ℕ ByteList) (e : RecoveryEngine) (session : Option ByteList)
    → Covers m e
    → Covers m (record e { session = session })
Covers-opened [] e session c = tt
Covers-opened ((k, payload) ∷ rest) e session c = c

IsTracked-opened :
    (asked : Option GapRequest) (e : RecoveryEngine) (session : Option ByteList)
    → IsTracked asked e
    → IsTracked asked (record e { session = session })
IsTracked-opened asked e session t = record {
  valid = record { sorted = t.valid.sorted; ahead = t.valid.ahead };
  positive = t.positive;
  remembers = t.remembers;
  covers = Covers-opened e.pending e session t.covers;
}

abbrev TracksOn : Option GapRequest → RecoveryEngine → Release → Type 0
TracksOn asked e r = IsTracked (latest r.request asked) e

ingest_marker :
    (asked : Option GapRequest) (e : RecoveryEngine) (p : MoldDownstreamPacket)
    → IsTracked asked e
    → Accepts e p.session
    → IsMarker p
    → Ends (TracksOn asked) (ingest e p)
unfolding receive_packet
ingest_marker asked e p t accepts (marker, fits) =
    let opened = record e { session = some p.session } in
    let o = maybe_request opened no_release p.first_sequence in
    let step = maybe_request-Requested opened no_release p.first_sequence fits in
    (
      o.0,
      record (o.1) { end_of_session = p.end_of_session },
      ingest_accepted e p accepts ∙ rw marker refl,
      Requested-IsTracked asked opened p.first_sequence
          (IsTracked-opened asked e (some p.session) t) step,
    )

-- Only a packet of the engine's session is taken in.
Accepts-ok :
    (s : Option ByteList) (e : RecoveryEngine) (p : MoldDownstreamPacket) {e1 : RecoveryEngine}
    {r : Release}
    → ingest_in s p e ≡ (e1, ok r)
    → (s ≡ none) ⊎ (s ≡ some p.session)
unfolding ingest_in
Accepts-ok none e p h = inl refl
Accepts-ok (some s) e p h = elim (Bool-cases (bytes_equal s p.session)) [
  | inl same ↦ inr (ap some (eq_of_bytes_equal s p.session same))
  | inr other ↦ absurd (cc (rw other at h))
]

TracksOn-same :
    (asked : Option GapRequest) (e : RecoveryEngine) (p : MoldDownstreamPacket)
    {e1 : RecoveryEngine} {r : Release}
    → Ends (TracksOn asked) (ingest e p)
    → ingest e p ≡ (e1, ok r)
    → TracksOn asked e1 r
TracksOn-same asked e p {e1 = e1} {r = r} (e2, r2, run2, t) run =
    let same_engine : e2 ≡ e1 = cc in
    let same_answer : r2 ≡ r = cc in rw (← same_engine, ← same_answer) t

Session-IsTracked :
    {e : RecoveryEngine} {asked : Option GapRequest} → Session e asked → IsTracked asked e
unfolding new_engine ingest
Session-IsTracked (opens positive) = record {
  valid = record { sorted = tt; ahead = tt };
  positive = positive;
  remembers = inl (refl, refl);
  covers = tt;
}
Session-IsTracked (takes {e = e} {asked = asked} p s (inl (d, below)) run) =
    let accepts = Accepts-ok e.session e p run in
    let (e2, r2, run2, tracks) = ingest_data asked e p (Session-IsTracked s) accepts d below in
    TracksOn-same asked e p (e2, r2, run2, tracks.tracked) run
Session-IsTracked (takes {e = e} {asked = asked} p s (inr marker) run) =
    let accepts = Accepts-ok e.session e p run in
    TracksOn-same asked e p (ingest_marker asked e p (Session-IsTracked s) accepts marker) run

-- What a call answers to a gap, `asked` being the last request before it: its own request is for missing
-- numbers, and the latest request begins at the first missing number and reaches the first one
-- buffered, or has the size that a request can have.
pub record RequestsGap (asked : Option GapRequest) (e : RecoveryEngine) (r : Release) : Type 0 where
  pub fresh : AsksMissing e r
  pub covered :
      (n : ℕ) (payload : ByteList) (rest : OrderedMap ℕ ByteList)
      → e.pending ≡ (n, payload) ∷ rest
      → (g : GapRequest) × (latest r.request asked ≡ some g)
        × (g.first ≡ e.expected)
        × (asked_before n e ≤ g.count)

remembered_request :
    (asked : Option GapRequest) (e : RecoveryEngine) (n : ℕ)
    → 0 < e.expected
    → Remembers asked e
    → (e.last_requested_first ≡ e.expected)
      × (e.expected + asked_before n e ≤ e.last_requested_last + 1)
    → (g : GapRequest) × (asked ≡ some g) × (g.first ≡ e.expected) × (asked_before n e ≤ g.count)
remembered_request asked e n positive (inl reset) c = absurd (omega (arith, reset.0, c.0))
remembered_request asked e n positive (inr (g, is, from, size)) c =
    (g, is, from ∙ c.0, omega (arith, c.0, c.1, from, size))

-- In a session that began at a positive number and went on with data packets of numbers below 2^64 - 1
-- and with markers, `asked` being the last request that an answer carried, a call with a further data
-- packet of the session ends without an exception. A request in its answer asks for 1 to 0xFFFE
-- numbers from the first missing one on, none of which is buffered. And while anything is buffered,
-- the latest request, of this answer or before it, begins at the first missing number and covers the
-- gap before the first buffered number, or 0xFFFE numbers of it.
pub ingest-RequestsGap :
    (e : RecoveryEngine) (asked : Option GapRequest) (p : MoldDownstreamPacket)
    → Session e asked
    → IsData p
    → All IsBelow p.messages
    → Accepts e p.session
    → Ends (RequestsGap asked) (ingest e p)
ingest-RequestsGap e asked p session d below accepts =
    let (e1, r, run, tracks) = ingest_data asked e p (Session-IsTracked session) accepts d below in
    let t = tracks.tracked in
    (
      e1,
      r,
      run,
      record {
        fresh = tracks.fresh;
        covered = λ n payload rest same.
            remembered_request (latest r.request asked) e1 n t.positive t.remembers
              (rw same at t.covers);
      },
    )
