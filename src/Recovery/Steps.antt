-- ===== src/Recovery/Steps.antt =====
-- One message: stale, next in order, or ahead of a gap.
use market_wire.Prelude.{
  ℕ, zero, suc, ◌+◌, ◌<◌, ◌≤◌, ◌≡◌, refl, ◌∙◌, sym, none, some, or_else, [], ◌∷◌, ◌==◌, arith,
  length, length-append, Bool-cases, Option-cases, ◌⊎◌, inl, inr, ltb, lt→ltb, true, false,
}
use market_wire.Recovery.Keys.{sequence_order}
use market_wire.Recovery.{RecoveryEngine, Release, drain_loop, deliver, forget_request, receive}
use market_wire.Recovery.Stream.{
  Stream, extend, Matches-append, Matches-extend, held_by, IsAhead, IsValid, Delivers, Ends,
}
use market_wire.OrderedMap
use market_wire.OrderedMap.{OrderedMap, IsSorted, AllKeys, same_refl}
use market_wire.OrderedMap.Laws.{
  AllKeys-mono, AllKeys-zip, AllKeys-find, AllKeys-ne, AllKeys-try_emplace, AllKeys-erase,
  IsSorted-try_emplace, IsSorted-erase, find-try_emplace, find-erase, find_after, length-erase,
}
use market_wire.Mold.{MoldMessage, max_sequence}
use market_wire.Wire.{ByteList}

lt_cases : (a b : ℕ) → (a < b) ⊎ (a ≡ b) ⊎ (b < a)
lt_cases a b = grind arith

-- The range of the last request is kept, or reset.
abbrev pub Forgets : RecoveryEngine → RecoveryEngine → Type 0
Forgets e e' =
    ((e'.last_requested_first ≡ e.last_requested_first)
      × (e'.last_requested_last ≡ e.last_requested_last))
    ⊎ ((e'.last_requested_first ≡ 0) × (e'.last_requested_last ≡ 0))

pub Forgets-trans : (e e1 e2 : RecoveryEngine) → Forgets e e1 → Forgets e1 e2 → Forgets e e2
Forgets-trans e e1 e2 k (inr reset) = inr reset
Forgets-trans e e1 e2 (inl (a, b)) (inl (c, d)) = inl (c ∙ a, d ∙ b)
Forgets-trans e e1 e2 (inr (a, b)) (inl (c, d)) = inr (c ∙ a, d ∙ b)

-- What the drain and the messages leave alone.
pub record Keeps (e : RecoveryEngine) (r : Release) (e' : RecoveryEngine) (r' : Release)
    : Type 0 where
  pub session : e'.session ≡ e.session
  pub request : r'.request ≡ r.request
  pub end_of_session : r'.end_of_session ≡ r.end_of_session
  pub range : Forgets e e'

abbrev pub Delivered : ℕ → Stream → RecoveryEngine → Release → RecoveryEngine → Release → Type 0
Delivered from held e r e' r' = IsValid e' × Delivers from held r'.ready e' × Keeps e r e' r'

-- The buffer behind the entry that is delivered.
erase_next :
    (next : ℕ) (m : OrderedMap ℕ ByteList)
    → IsSorted sequence_order m
    → AllKeys (λ s. (next ≤ s) × (s < max_sequence)) m
    → AllKeys (λ s. (next + 1 ≤ s) × (s < max_sequence)) (OrderedMap.erase sequence_order next m)
erase_next next m s near =
    let rest = OrderedMap.erase sequence_order next m in
    let gone : OrderedMap.find sequence_order next rest ≡ none =
      find-erase sequence_order next next m s ∙ rw (same_refl sequence_order next) in
    AllKeys-zip rest (λ k h ne. (omega arith, h.1))
      (AllKeys-erase sequence_order (λ k. (next ≤ k) × (k < max_sequence)) next m near)
      (AllKeys-ne sequence_order next rest gone)

module _ (from : ℕ) (held : Stream) where
  forget_request-Delivered :
      {e e' : RecoveryEngine} {r r' : Release}
      → Delivered from held e r e' r'
      → Delivered from held e r (forget_request e') r'
  unfolding forget_request
  forget_request-Delivered {e' = e'} (v, d, k) =
      elim (Bool-cases (ltb e'.last_requested_last e'.expected)) [
        | inl t ↦ rw t (
          record { sorted = v.sorted; ahead = v.ahead },
          record { advanced = d.advanced; run = d.run; rest = d.rest },
          record {
            session = k.session;
            request = k.request;
            end_of_session = k.end_of_session;
            range = inr (refl, refl);
          },
        )
        | inr f ↦ rw f (v, d, k)
      ]

  -- The next message in order is delivered out of the buffer.
  deliver_next :
      (e : RecoveryEngine) (r : Release) (payload : ByteList)
      → IsSorted sequence_order e.pending
      → held_by e e.expected ≡ some payload
      → Delivers from held r.ready e
      → Delivers from held (deliver r e.expected payload).ready (record e {
        expected = e.expected + 1;
        pending = OrderedMap.erase sequence_order e.expected e.pending;
      })
  unfolding deliver
  deliver_next e r payload s found d = record {
    advanced = omega (
      arith,
      d.advanced,
      length-append {0} r.ready (record { sequence = e.expected; payload = payload } ∷ []),
    );
    run =
        Matches-append from held r.ready _ d.run (sym d.advanced)
          (sym (d.rest e.expected (omega arith)) ∙ found);
    rest = λ t h. find-erase sequence_order e.expected t e.pending s ∙ ground (arith, d.rest t);
  }

  drain_loop-Delivered :
      (fuel : ℕ) (e : RecoveryEngine) (r : Release)
      → length e.pending < fuel
      → IsSorted sequence_order e.pending
      → AllKeys (λ s. (e.expected ≤ s) × (s < max_sequence)) e.pending
      → Delivers from held r.ready e
      → Ends (Delivered from held e r) (drain_loop fuel e r)
  unfolding drain_loop
  drain_loop-Delivered zero e r enough s near d = absurd (omega arith)
  drain_loop-Delivered (suc fuel) e r enough s near d = elim (Option-cases (held_by e e.expected)) [
    | inl absent ↦
        let ahead =
          AllKeys-zip e.pending (λ k h ne. (omega arith, h.1)) near
            (AllKeys-ne sequence_order e.expected e.pending absent) in
        (
          forget_request e,
          r,
          rw (absent, drain_loop) refl,
          forget_request-Delivered (
            record { sorted = s; ahead = ahead },
            d,
            record {
              session = refl;
              request = refl;
              end_of_session = refl;
              range = inl (refl, refl);
            },
          ),
        )
    | inr (payload, found) ↦
        let rest = OrderedMap.erase sequence_order e.expected e.pending in
        let next = record e { expected = e.expected + 1; pending = rest } in
        let below = (AllKeys-find sequence_order _ e.expected e.pending found near).1 in
        let (e', r', run, (v, d', k)) =
          drain_loop-Delivered fuel next (deliver r e.expected payload)
            (omega (arith, length-erase sequence_order e.expected e.pending found))
            (IsSorted-erase sequence_order e.expected e.pending s)
            (erase_next e.expected e.pending s near) (deliver_next e r payload s found d) in
        let ordinary : (e.expected == max_sequence) ≡ false = ground arith in
        (
          e',
          r',
          rw (found, drain_loop) (rw ordinary run),
          (
            v,
            d',
            record {
              session = k.session;
              request = k.request;
              end_of_session = k.end_of_session;
              range = k.range;
            },
          ),
        )
  ]

module _ (from : ℕ) (held : Stream) (m : MoldMessage) (e : RecoveryEngine) (r : Release)
    (v : IsValid e) (d : Delivers from held r.ready e) where
  receive_stale :
      m.sequence < e.expected → Ends (Delivered from (extend held m) e r) (receive m e r)
  unfolding receive
  receive_stale stale =
      let test : ltb m.sequence e.expected ≡ true = lt→ltb _ _ stale in
      (
        e,
        record r { duplicate_or_stale = true },
        rw test refl,
        (
          v,
          record {
            advanced = d.advanced;
            run = Matches-extend from held r.ready m d.run;
            rest = λ s h. ground (arith, d.rest s);
          },
          record {
            session = refl;
            request = refl;
            end_of_session = refl;
            range = inl (refl, refl);
          },
        ),
      )

  receive_next :
      m.sequence ≡ e.expected
      → m.sequence < max_sequence
      → Ends (Delivered from (extend held m) e r) (receive m e r)
  unfolding receive
  receive_next here below =
      let not_stale : ltb m.sequence e.expected ≡ false = ground arith in
      let in_order : (m.sequence == e.expected) ≡ true = ground arith in
      let ordinary : (e.expected == max_sequence) ≡ false = ground arith in
      let next = record e { expected = e.expected + 1 } in
      let absent : held_by e m.sequence ≡ none =
        find_after sequence_order m.sequence e.pending
          (AllKeys-mono e.pending (λ k h. lt→ltb _ _ (omega arith)) v.ahead) in
      let fresh : extend held m m.sequence ≡ some m.payload =
        unfold or_else in ground (arith, d.rest m.sequence) in
      let start : Delivers from (extend held m) (deliver r m.sequence m.payload).ready next =
        unfold deliver in
        record {
          advanced = omega (
            arith,
            d.advanced,
            length-append {0} r.ready (record { sequence = m.sequence; payload = m.payload } ∷ []),
          );
          run =
              Matches-append from (extend held m) r.ready _
                (Matches-extend from held r.ready m d.run) (omega (arith, d.advanced)) fresh;
          rest = λ s h. ground (arith, d.rest s);
        } in
      let (e', r', run, (v', d', k)) =
        drain_loop-Delivered from (extend held m) (length e.pending + 1) next
          (deliver r m.sequence m.payload) (omega arith) v.sorted
          (AllKeys-mono e.pending (λ s h. (omega arith, h.1)) v.ahead) start in
      (
        e',
        r',
        rw (not_stale, in_order, ordinary) run,
        (
          v',
          d',
          record {
            session = k.session;
            request = k.request;
            end_of_session = k.end_of_session;
            range = k.range;
          },
        ),
      )

  receive_ahead :
      e.expected < m.sequence
      → m.sequence < max_sequence
      → Ends (Delivered from (extend held m) e r) (receive m e r)
  unfolding receive
  receive_ahead gap below =
      let not_stale : ltb m.sequence e.expected ≡ false = ground arith in
      let not_next : (m.sequence == e.expected) ≡ false = ground arith in
      let pending = OrderedMap.try_emplace sequence_order m.sequence m.payload e.pending in
      (
        record e { pending = pending },
        r,
        rw (not_stale, not_next) refl,
        (
          record {
            sorted = IsSorted-try_emplace sequence_order m.sequence m.payload e.pending v.sorted;
            ahead =
                AllKeys-try_emplace sequence_order m.sequence m.payload (IsAhead e.expected)
                  e.pending (gap, below) v.ahead;
          },
          record {
            advanced = d.advanced;
            run = Matches-extend from held r.ready m d.run;
            rest = λ s h.
                find-try_emplace sequence_order m.sequence m.payload s e.pending v.sorted
                ∙ ground (arith, d.rest s, d.rest m.sequence);
          },
          record {
            session = refl;
            request = refl;
            end_of_session = refl;
            range = inl (refl, refl);
          },
        ),
      )

  -- A message below the last number is taken in without an exception, and the engine then delivers
  -- and buffers the stream extended by it.
  pub receive-Delivered :
      m.sequence < max_sequence → Ends (Delivered from (extend held m) e r) (receive m e r)
  receive-Delivered below = elim (lt_cases m.sequence e.expected) [
    | inl stale ↦ receive_stale stale
    | inr (inl here) ↦ receive_next here below
    | inr (inr gap) ↦ receive_ahead gap below
  ]
