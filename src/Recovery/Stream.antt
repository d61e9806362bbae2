-- ===== src/Recovery/Stream.antt =====
-- The message stream that a sequencer promises: to each sequence number the first payload received
-- for it, delivered in order up to the first number that is missing.
use market_wire.Prelude.{
  ℕ, suc, ◌+◌, ◌<◌, ◌≤◌, ◌≡◌, sym, ◌∙◌, ap, Option, some, or_else, List, [], ◌∷◌, ◌++◌, ◌==◌,
  if◌then◌else◌, arith, length,
}
use market_wire.Prelude.Result.{ok}
use market_wire.Recovery.Keys.{sequence_order}
use market_wire.Recovery.{RecoveryEngine, Release, Outcome}
use market_wire.OrderedMap
use market_wire.OrderedMap.{IsSorted, AllKeys}
use market_wire.Mold.{MoldMessage, max_sequence}
use market_wire.Wire.{ByteList}

abbrev pub Stream : Type 0
Stream = ℕ → Option ByteList

-- The first payload for a number stays; a later one is a duplicate.
abbrev pub extend : Stream → MoldMessage → Stream
extend held m s = if s == m.sequence then or_else (held s) (some m.payload) else held s

abbrev pub extend_all : Stream → List MoldMessage → Stream
extend_all held [] = held
extend_all held (m ∷ ms) = extend_all (extend held m) ms

-- `out` is the stream's piece from `from` on.
abbrev pub Matches : ℕ → Stream → List MoldMessage → Type 0
Matches from held [] = Unit
Matches from held (m ∷ ms) =
    (m.sequence ≡ from) × (held from ≡ some m.payload) × Matches (suc from) held ms

pub Matches-append :
    (from : ℕ) (held : Stream) (out : List MoldMessage) (m : MoldMessage)
    → Matches from held out
    → m.sequence ≡ from + length out
    → held m.sequence ≡ some m.payload
    → Matches from held (out ++ (m ∷ []))
Matches-append from held [] m h s e =
    let at_start : m.sequence ≡ from = omega arith in (at_start, ap held (sym at_start) ∙ e, tt)
Matches-append from held (x ∷ out) m h s e =
    (h.0, h.1, Matches-append (suc from) held out m h.2 (omega arith) e)

pub Matches-extend :
    (from : ℕ) (held : Stream) (out : List MoldMessage) (m : MoldMessage)
    → Matches from held out
    → Matches from (extend held m) out
Matches-extend from held [] m h = tt
Matches-extend from held (x ∷ out) m h =
    let kept : extend held m from ≡ some x.payload = unfold or_else in ground arith in
    (h.0, kept, Matches-extend (suc from) held out m h.2)

abbrev pub held_by : RecoveryEngine → Stream
held_by e s = OrderedMap.find sequence_order s e.pending

-- The buffered messages lie ahead of the next one, in order, and below the last number.
abbrev pub IsAhead : ℕ → ℕ → Type 0
IsAhead next s = (next < s) × (s < max_sequence)

pub record IsValid (e : RecoveryEngine) : Type 0 where
  pub sorted : IsSorted sequence_order e.pending
  pub ahead : AllKeys (IsAhead e.expected) e.pending

-- From `from` on the engine has delivered `out`, and buffers what `held` has beyond.
pub record Delivers (from : ℕ) (held : Stream) (out : List MoldMessage) (e : RecoveryEngine)
    : Type 0 where
  pub advanced : from + length out ≡ e.expected
  pub run : Matches from held out
  pub rest : (s : ℕ) → e.expected ≤ s → held_by e s ≡ held s

-- A call that ends with no exception, in a state with `P`.
abbrev pub Ends : (RecoveryEngine → Release → Type 0) → Outcome → Type 0
Ends P o = (e : RecoveryEngine) × (r : Release) × (o ≡ (e, ok r)) × P e r
