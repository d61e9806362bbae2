-- ===== src/Recovery/Convergence.antt =====
-- Order of arrival and duplicates do not matter: what a run delivers depends on the numbers that
-- arrived and on the payloads that they carry.
use market_wire.Prelude.{
  ℕ, suc, ◌+◌, ◌≤◌, ◌≡◌, refl, ◌∙◌, ap, sym, Bool, false, ◌||◌, none, some, or_else, List, [], ◌∷◌,
  ◌==◌, arith, All, length, if◌then◌else◌, inl, ◌⊎◌,
}
use market_wire.Prelude.Result.{ok}
use market_wire.Recovery.{RecoveryEngine, new_engine}
use market_wire.Recovery.Stream.{Stream, extend, extend_all, Matches, held_by, IsValid}
use market_wire.Recovery.Runs.{ingest_all, stream_of, IsFeed, Delivered, ingest_all-Delivered}
use market_wire.OrderedMap
use market_wire.Mold.{MoldMessage, MoldDownstreamPacket}
use market_wire.Wire.{ByteList}

-- Two pieces of one stream that end where it stops are the same piece.
Matches-unique :
    (n : ℕ) (h g : Stream) (xs ys : List MoldMessage)
    → ((s : ℕ) → n ≤ s → h s ≡ g s)
    → Matches n h xs
    → h (n + length xs) ≡ none
    → Matches n g ys
    → g (n + length ys) ≡ none
    → xs ≡ ys
Matches-unique n h g [] [] same k stop l halt = refl
Matches-unique n h g [] (y ∷ ys) same k stop l halt =
    let start : n + 0 ≡ n = omega arith in absurd (cc (same n (omega arith), rw start at stop, l.1))
Matches-unique n h g (x ∷ xs) [] same k stop l halt =
    let start : n + 0 ≡ n = omega arith in absurd (cc (same n (omega arith), rw start at halt, k.1))
Matches-unique n h g (x ∷ xs) (y ∷ ys) same k stop l halt =
    let next_x : n + suc (length xs) ≡ suc n + length xs = omega arith in
    let next_y : n + suc (length ys) ≡ suc n + length ys = omega arith in
    let tails =
      Matches-unique (suc n) h g xs ys (λ s le. same s (omega arith)) k.2 (rw next_x at stop) l.2
        (rw next_y at halt) in
    let heads : x ≡ y =
      let number : x.sequence ≡ y.sequence = k.0 ∙ sym l.0 in
      let payload : x.payload ≡ y.payload = cc (k.1, l.1, same n (omega arith)) in
      λ i. record { sequence = number i; payload = payload i } in
    cc

-- Every message carries what the feed has under its number.
abbrev pub Carries : (ℕ → ByteList) → MoldMessage → Type 0
Carries feed m = m.payload ≡ feed m.sequence

abbrev pub has_number : ℕ → List MoldMessage → Bool
has_number s [] = false
has_number s (m ∷ ms) = s == m.sequence || has_number s ms

abbrev pub arrives : ℕ → List MoldDownstreamPacket → Bool
arrives s [] = false
arrives s (p ∷ ps) = has_number s p.messages || arrives s ps

module _ (feed : ℕ → ByteList) (s : ℕ) where
  extend_all-feed :
      (held : Stream) (ms : List MoldMessage)
      → All (Carries feed) ms
      → (held s ≡ none) ⊎ (held s ≡ some (feed s))
      → extend_all held ms s ≡ (if has_number s ms then some (feed s) else held s)
  extend_all-feed held [] c k = refl
  extend_all-feed held (m ∷ ms) c k =
      let here : extend held m s ≡ (if s == m.sequence then some (feed s) else held s) =
        unfold or_else in ground arith in
      let kind : (extend held m s ≡ none) ⊎ (extend held m s ≡ some (feed s)) =
        unfold or_else in ground arith in
      extend_all-feed (extend held m) ms c.1 kind ∙ ground arith

  stream_of-feed :
      (held : Stream) (ps : List MoldDownstreamPacket)
      → All (λ p. All (Carries feed) p.messages) ps
      → (held s ≡ none) ⊎ (held s ≡ some (feed s))
      → stream_of held ps s ≡ (if arrives s ps then some (feed s) else held s)
  stream_of-feed held [] c k = refl
  stream_of-feed held (p ∷ ps) c k =
      let here = extend_all-feed held p.messages c.0 k in
      let kind : (extend_all held p.messages s ≡ none)
          ⊎ (extend_all held p.messages s ≡ some (feed s)) =
        rw here (ground arith) in
      stream_of-feed (extend_all held p.messages) ps c.1 kind ∙ rw here (ground arith)

new_engine-IsValid : (first : ℕ) → IsValid (new_engine first)
unfolding new_engine
new_engine-IsValid first = record { sorted = tt; ahead = tt }

fresh_holds : (first s : ℕ) → held_by (new_engine first) s ≡ none
unfolding new_engine OrderedMap.find
fresh_holds first s = refl

Delivered-unique :
    (h g : Stream) {e e1 e2 : RecoveryEngine} {out1 out2 : List MoldMessage}
    → Delivered h e e1 out1
    → Delivered g e e2 out2
    → ((s : ℕ) → e.expected ≤ s → h s ≡ g s)
    → (out1 ≡ out2) × (e1.expected ≡ e2.expected)
Delivered-unique h g {e} {out1 = out1} {out2 = out2} d1 d2 same =
    let outs : out1 ≡ out2 =
      Matches-unique e.expected h g out1 out2 same d1.delivers.run
        (ap h d1.delivers.advanced ∙ d1.stops) d2.delivers.run
        (ap g d2.delivers.advanced ∙ d2.stops) in
    (outs, omega (arith, d1.delivers.advanced, d2.delivers.advanced, ap length outs))

-- Two runs of a fresh engine over data packets of one session, with every sequence number below
-- 2^64 - 1, in which every message carries what the feed has under its number: if from the first number on the same numbers arrive, in whatever
-- order, grouping and multiplicity, then both runs deliver the same messages and expect the same
-- number next. Neither raises an exception.
pub ingest_all_converges :
    (session : ByteList) (feed : ℕ → ByteList) (first : ℕ) (ps qs : List MoldDownstreamPacket)
    → All (IsFeed session) ps
    → All (IsFeed session) qs
    → All (λ p. All (Carries feed) p.messages) ps
    → All (λ p. All (Carries feed) p.messages) qs
    → ((s : ℕ) → first ≤ s → arrives s ps ≡ arrives s qs)
    → (out : List MoldMessage) × ((ingest_all ps (new_engine first)).1 ≡ ok out)
      × ((ingest_all qs (new_engine first)).1 ≡ ok out)
      × ((ingest_all ps (new_engine first)).0.expected
          ≡ (ingest_all qs (new_engine first)).0.expected)
unfolding new_engine
ingest_all_converges session feed first ps qs fp fq cp cq same =
    let e = new_engine first in
    let v = new_engine-IsValid first in
    let (e1, out1, run1, d1) = ingest_all-Delivered session ps e fp v (inl refl) in
    let (e2, out2, run2, d2) = ingest_all-Delivered session qs e fq v (inl refl) in
    let streams : (s : ℕ) → first ≤ s → stream_of (held_by e) ps s ≡ stream_of (held_by e) qs s =
      λ s le.
        stream_of-feed feed s (held_by e) ps cp (inl (fresh_holds first s))
        ∙ rw (same s le)
            (sym (stream_of-feed feed s (held_by e) qs cq (inl (fresh_holds first s)))) in
    let (outs, next) = Delivered-unique _ _ d1 d2 streams in
    (
      out1,
      ap (λ o. o.1) run1,
      ap (λ o. o.1) run2 ∙ ap ok (sym outs),
      ap (λ o. o.0.expected) run1 ∙ next ∙ sym (ap (λ o. o.0.expected) run2),
    )
