-- ===== src/OrderIndex/Written.antt =====
-- The index with another entry written at one position, and what that leaves as it was.
use market_wire.Prelude.{
  ℕ, zero, suc, ◌+◌, ◌<◌, ◌≤◌, ◌≡◌, ◌≢◌, refl, ◌∙◌, sym, ap, inl, inr, false, Bool-cases, List, [],
  ◌∷◌, arith, length, length-set, get_or, get_or-set, set, if◌then◌else◌, ◌==◌, ==_iff, ==_refl,
}
use market_wire.OrderIndex.{
  empty, occupied, Entry, new_entry, FlatOrderIndex, entry_at, is_occupied,
}
use market_wire.OrderIndex.Probe.{probe, Sits, BusyBelow, Reached, IsShaped, count}

abbrev pub weight : Entry → ℕ
weight e = if is_occupied e.state then 1 else 0

pub count-set :
    (es : List Entry) (i : ℕ) (v : Entry)
    → i < length es
    → count (set es i v) + weight (get_or es i new_entry) ≡ count es + weight v
count-set [] i v h = absurd (omega arith)
count-set (e ∷ es) zero v h = omega arith
count-set (e ∷ es) (suc i) v h = omega (arith, count-set es i v (omega arith))

pub count-le-length : (es : List Entry) → count es ≤ length es
count-le-length [] = omega arith
count-le-length (e ∷ es) = ground (arith, count-le-length es)

pub count_full :
    (es : List Entry)
    → ((i : ℕ) → i < length es → (get_or es i new_entry).state ≡ occupied)
    → count es ≡ length es
count_full [] full = refl
count_full (e ∷ es) full =
    let first : e.state ≡ occupied = full 0 (omega arith) in
    rw first (omega (arith, count_full es (λ i lt. full (suc i) (omega arith))))

-- The index with another entry at one position.
abbrev pub written : FlatOrderIndex → ℕ → Entry → ℕ → FlatOrderIndex
written t pos e size = record t { entries = set t.entries pos e; size = size }

pub entry_at-written :
    (t : FlatOrderIndex) (pos : ℕ) (e : Entry) (size j : ℕ)
    → pos < length t.entries
    → entry_at (written t pos e size) j ≡ (if pos == j then e else entry_at t j)
entry_at-written t pos e size j lt = get_or-set t.entries pos j e new_entry lt

module _ (t : FlatOrderIndex) (pos : ℕ) (e : Entry) (size : ℕ) (lt : pos < length t.entries) where
  pub written_here : entry_at (written t pos e size) pos ≡ e
  written_here = entry_at-written t pos e size pos lt ∙ rw (==_refl pos) refl

  pub written_elsewhere : (j : ℕ) → pos ≢ j → entry_at (written t pos e size) j ≡ entry_at t j
  written_elsewhere j ne =
      let other : (pos == j) ≡ false = ground (arith, ne) in
      entry_at-written t pos e size j lt ∙ rw other refl

  probe-written : (key i : ℕ) → probe (written t pos e size) key i ≡ probe t key i
  probe-written key i = rw (length-set t.entries pos e) refl

  pub IsShaped-written : IsShaped t → IsShaped (written t pos e size)
  IsShaped-written s = record {
    bits = s.bits;
    small = s.small;
    capacity = length-set t.entries pos e ∙ s.capacity;
    mask = s.mask;
  }

  -- No entry becomes empty.
  BusyBelow-written :
      (key n : ℕ) → e.state ≢ empty → BusyBelow t key n → BusyBelow (written t pos e size) key n
  BusyBelow-written key n full busy k k_lt = elim (Bool-cases (pos == probe t key k)) [
    | inl same ↦ rw (probe-written key k) (λ s. full (
        ap (λ x. x.state) (sym written_here)
        ∙ ap (λ j. (entry_at (written t pos e size) j).state) ((==_iff _ _).0 same)
        ∙ s))
    | inr other ↦
        let ne : pos ≢ probe t key k = λ q. ground (arith, other, q) in
        rw (probe-written key k)
          (λ s. busy k k_lt (ap (λ x. x.state) (sym (written_elsewhere _ ne)) ∙ s))
  ]

  pub Reached-written :
      (key j : ℕ) → e.state ≢ empty → Reached t key j → Reached (written t pos e size) key j
  Reached-written key j full r = record {
    probes = r.probes;
    inside = rw (length-set t.entries pos e) r.inside;
    there = probe-written key r.probes ∙ r.there;
    busy = BusyBelow-written key r.probes full r.busy;
  }

  pub Sits-back : (key j : ℕ) → pos ≢ j → Sits (written t pos e size) key j → Sits t key j
  Sits-back key j ne sits =
      let same = written_elsewhere j ne in
      record {
        inside = rw (length-set t.entries pos e) at sits.inside;
        state = ap (λ x. x.state) (sym same) ∙ sits.state;
        key = ap (λ x. x.key) (sym same) ∙ sits.key;
      }

  pub Sits-written : (key j : ℕ) → pos ≢ j → Sits t key j → Sits (written t pos e size) key j
  Sits-written key j ne sits =
      let same = written_elsewhere j ne in
      record {
        inside = rw (length-set t.entries pos e) sits.inside;
        state = ap (λ x. x.state) same ∙ sits.state;
        key = ap (λ x. x.key) same ∙ sits.key;
      }
