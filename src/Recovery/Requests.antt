-- ===== src/Recovery/Requests.antt =====
-- `maybe_request`: what a rerequest asks for, and what the request that stands covers.
use market_wire.Prelude.{
  ℕ, ◌+◌, ◌-◌, ◌%◌, ◌^◌, ◌<◌, ◌≤◌, ◌≡◌, refl, ap, ◌⊎◌, inl, inr, Option, none, some, [], ◌∷◌, arith,
  lt→ltb, ltb→lt, leb, ◌==◌, ◌&&◌, min, Bool-cases,
}
use market_wire.Recovery.Keys.{sequence_order}
use market_wire.Recovery.{RecoveryEngine, Release, GapRequest, maybe_request, gap_before}
use market_wire.Recovery.Stream.{held_by, IsAhead, IsValid, Ends}
use market_wire.OrderedMap
use market_wire.OrderedMap.{OrderedMap, AllKeys, IsSorted}
use market_wire.OrderedMap.Laws.{AllKeys-mono, find_after}
use market_wire.Mold.{max_sequence, sequence_mod}
use market_wire.Wire.{ByteList}

-- The request that stands after an answer: its own, if it has one.
abbrev pub latest : Option GapRequest → Option GapRequest → Option GapRequest
latest none asked = asked
latest (some g) asked = some g

-- The bookkeeping fields are the range of the request that stands, or are reset.
abbrev pub Remembers : Option GapRequest → RecoveryEngine → Type 0
Remembers asked e =
    ((e.last_requested_first ≡ 0) × (e.last_requested_last ≡ 0))
    ⊎ ((g : GapRequest) × (asked ≡ some g)
        × (g.first ≡ e.last_requested_first)
        × (g.first + g.count ≡ e.last_requested_last + 1))

-- What is asked for of a gap before number `n`.
abbrev pub asked_before : ℕ → RecoveryEngine → ℕ
asked_before n e = min (n - e.expected) 0xFFFE

-- The range remembered begins at the first missing number and reaches the first one buffered, or has the
-- size that a request can have.
abbrev pub Covers : OrderedMap ℕ ByteList → RecoveryEngine → Type 0
Covers [] e = Unit {0}
Covers ((n, payload) ∷ rest) e =
    (e.last_requested_first ≡ e.expected)
    × (e.expected + asked_before n e ≤ e.last_requested_last + 1)

pub record IsTracked (asked : Option GapRequest) (e : RecoveryEngine) : Type 0 where
  pub valid : IsValid e
  pub positive : 0 < e.expected
  pub remembers : Remembers asked e
  pub covers : Covers e.pending e

-- A request asks for missing numbers only, from the first one on, and its count fits the rerequest
-- packet.
abbrev pub AsksMissing : RecoveryEngine → Release → Type 0
AsksMissing e r =
    (g : GapRequest)
    → r.request ≡ some g
    → (g.first ≡ e.expected)
      × (0 < g.count)
      × (g.count ≤ 0xFFFE)
      × ((s : ℕ) → g.first ≤ s → s < g.first + g.count → held_by e s ≡ none)

-- A call of `maybe_request` for the numbers before `n`: there is no gap, the range is remembered, or it is
-- asked for.
pub data Requested (e : RecoveryEngine) (r : Release) (n : ℕ)
    : RecoveryEngine × Release → Type 0 where
  no_gap : n ≤ e.expected → Requested e r n (e, r)
  remembered :
      e.expected < n
      → e.last_requested_first ≡ e.expected
      → n ≤ e.last_requested_last + 1
      → Requested e r n (e, r)
  requested :
      {last : ℕ}
      → e.expected < n
      → (e.last_requested_first ≡ e.expected → e.last_requested_last + 1 < n)
      → e.expected + asked_before n e ≡ last + 1
      → Requested e r n (
        record e { last_requested_first = e.expected; last_requested_last = last },
        record r { request = some (record { first = e.expected; count = asked_before n e }) },
      )

pub maybe_request-Requested :
    (e : RecoveryEngine) (r : Release) (n : ℕ)
    → n ≤ max_sequence
    → Requested e r n (maybe_request e r n)
unfolding maybe_request
maybe_request-Requested e r n fits = elim (Bool-cases (leb n e.expected)) [
  | inl t ↦ rw t (no_gap (ground arith))
  | inr f ↦
      let gap : e.expected < n = ground arith in
      let known = e.last_requested_first == e.expected && leb (n - 1) e.last_requested_last in
      elim (Bool-cases known) [
        | inl t ↦ rw (f, t) (remembered gap (ground arith) (ground arith))
        | inr g ↦
            let wraps : (n - 1 - e.expected + 1) % sequence_mod ≡ n - e.expected = omega arith in
            let fits_16 : asked_before n e % 2 ^ 16 ≡ asked_before n e = omega arith in
            rw (f, g) (rw wraps (rw fits_16 (requested gap (λ same. ground arith) (omega arith))))
      ]
]

-- A request changes the bookkeeping of requests only.
pub maybe_request_keeps :
    (e : RecoveryEngine) (r : Release) (n : ℕ)
    → ((maybe_request e r n).0.expected ≡ e.expected)
      × ((maybe_request e r n).0.pending ≡ e.pending)
      × ((maybe_request e r n).0.session ≡ e.session)
      × ((maybe_request e r n).1.ready ≡ r.ready)
unfolding maybe_request
maybe_request_keeps e r n = ground arith

-- No number below the first key is a key.
before_first :
    (first : ℕ) (payload : ByteList) (m : OrderedMap ℕ ByteList) (s : ℕ)
    → IsSorted sequence_order ((first, payload) ∷ m)
    → s < first
    → OrderedMap.find sequence_order s ((first, payload) ∷ m) ≡ none
before_first first payload m s sorted below = find_after sequence_order s ((first, payload) ∷ m) (
  lt→ltb _ _ below,
  AllKeys-mono m (λ k h. let above = ltb→lt first k h in lt→ltb _ _ (omega arith)) sorted.0,
)

-- What a call answers to a gap: its own request is for missing numbers, and the request that stands
-- covers the gap.
pub record Tracks (asked : Option GapRequest) (e : RecoveryEngine) (r : Release) : Type 0 where
  pub fresh : AsksMissing e r
  pub tracked : IsTracked (latest r.request asked) e

module _ (asked : Option GapRequest) (e : RecoveryEngine) (r : Release) (v : IsValid e)
    (positive : 0 < e.expected) (remembers : Remembers asked e) (none_yet : r.request ≡ none) where
  asks_nothing : AsksMissing e r
  asks_nothing g h = absurd (cc)

  same_request : latest r.request asked ≡ asked
  same_request = ap (λ q. latest q asked) none_yet

  module _ (first : ℕ) (payload : ByteList) (rest : OrderedMap ℕ ByteList)
      (same : e.pending ≡ (first, payload) ∷ rest) where
    first-IsAhead : IsAhead e.expected first
    first-IsAhead =
        let ahead : AllKeys (IsAhead e.expected) ((first, payload) ∷ rest) = rw same at v.ahead in
        ahead.0

    first_missing : (s : ℕ) → s < first → held_by e s ≡ none
    first_missing s below =
        let sorted : IsSorted sequence_order ((first, payload) ∷ rest) = rw same at v.sorted in
        rw same (before_first first payload rest s sorted below)

    Requested-Tracks : {o : RecoveryEngine × Release} → Requested e r first o → Tracks asked o.0 o.1
    Requested-Tracks (no_gap none_left) = absurd (omega (arith, first-IsAhead))
    Requested-Tracks (remembered gap begins reaches) = record {
      fresh = asks_nothing;
      tracked = record {
        valid = v;
        positive = positive;
        remembers = rw same_request remembers;
        covers = rw same (begins, omega arith);
      };
    }
    Requested-Tracks (requested {last = last} gap new size) = record {
      fresh = λ g h.
          let is : record { first = e.expected; count = asked_before first e } ≡ g = cc in
          rw (← is) (refl, omega arith, omega arith, λ s lo hi. first_missing s (omega arith));
      tracked = record {
        valid = record { sorted = v.sorted; ahead = v.ahead };
        positive = positive;
        remembers =
            inr (record { first = e.expected; count = asked_before first e }, refl, refl, size);
        covers = rw same (refl, omega arith);
      };
    }

  pub gap_before-Tracks :
      (m : OrderedMap ℕ ByteList) → e.pending ≡ m → Ends (Tracks asked) (gap_before m e r)
  unfolding gap_before
  gap_before-Tracks [] same = (
    e,
    r,
    refl,
    record {
      fresh = asks_nothing;
      tracked = record {
        valid = v;
        positive = positive;
        remembers = rw same_request remembers;
        covers = rw same tt;
      };
    },
  )
  gap_before-Tracks ((first, payload) ∷ rest) same =
      let ahead = first-IsAhead first payload rest same in
      let step = maybe_request-Requested e r first (omega (arith, ahead)) in
      let o = maybe_request e r first in
      (o.0, o.1, refl, Requested-Tracks first payload rest same step)
