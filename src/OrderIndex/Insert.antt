-- ===== src/OrderIndex/Insert.antt =====
-- `FlatOrderIndex::insert` adds a key that is not there, as long as the load is below 70%.
use market_wire.Prelude.{
  ℕ, zero, suc, ◌+◌, ◌<◌, ◌≤◌, ◌≡◌, ◌≢◌, refl, ◌∙◌, sym, ap, inl, inr, Bool, true, false, Option,
  none, some, Bool-cases, arith, length, ◌==◌, ==_iff, ==_refl,
}
use market_wire.OrderIndex.{
  empty, occupied, tombstone, FlatOrderIndex, entry_at, store, insert_loop, insert_reused,
  note_tombstone, value_or,
}
use market_wire.OrderIndex.Find.{stop, hit, pass, visit}
use market_wire.OrderIndex.Probe.{
  State-cases, probe, Sits, BusyBelow, IsShaped, next_pos-probe, probe-lt,
}
use market_wire.OrderIndex.Store.{IsFree}

-- What the loop remembers before probe number `i`: the first tombstone, or that all were occupied.
abbrev pub Found : FlatOrderIndex → ℕ → ℕ → Option ℕ → Type 0
Found t key i none = (k : ℕ) → k < i → (entry_at t (probe t key k)).state ≡ occupied
Found t key i (some p) =
    (j : ℕ) × (j < i) × (probe t key j ≡ p) × ((entry_at t p).state ≡ tombstone)

-- The loop stores the key in a free place.
abbrev pub Stores : FlatOrderIndex → ℕ → ℕ → FlatOrderIndex × Bool → Type 0
Stores t key value o = (target : ℕ) × IsFree t key target × (o ≡ (store t target key value, true))

-- One probe of `insert` that ends nothing, and one that meets the key.
module _ (t : FlatOrderIndex) (s : IsShaped t) (key value : ℕ) where
  pub insert_loop-on :
      (n i : ℕ) (found : Option ℕ)
      → (entry_at t (probe t key i)).state ≢ empty
      → ((entry_at t (probe t key i)).state ≡ occupied → (entry_at t (probe t key i)).key ≢ key)
      → insert_loop (suc n) t key value (probe t key i) found
        ≡ insert_loop n t key value
            (probe t key (suc i))
            (note_tombstone (entry_at t (probe t key i)).state (probe t key i) found)
  unfolding insert_loop
  insert_loop-on n i found busy other = elim (State-cases (entry_at t (probe t key i)).state) [
    | inl e ↦ absurd (busy e)
    | inr (inl e) ↦
        let miss : ((entry_at t (probe t key i)).key == key) ≡ false = ground (arith, other e) in
        rw (e, miss, next_pos-probe t s key i) refl
    | inr (inr e) ↦ rw (e, next_pos-probe t s key i) refl
  ]

  pub insert_loop-hit :
      (n i : ℕ) (found : Option ℕ)
      → (entry_at t (probe t key i)).state ≡ occupied
      → (entry_at t (probe t key i)).key ≡ key
      → insert_loop (suc n) t key value (probe t key i) found ≡ (t, false)
  unfolding insert_loop
  insert_loop-hit n i found e k = rw (e, k, ==_refl key) refl

module _ (t : FlatOrderIndex) (s : IsShaped t) (key value : ℕ)
    (absent : (pos : ℕ) → Sits t key pos → ⊥)
    (spare : ((k : ℕ) → k < length t.entries → (entry_at t (probe t key k)).state ≡ occupied)
      → ⊥) where
  tombstone-IsFree :
      (i p : ℕ) → i ≤ length t.entries → BusyBelow t key i → Found t key i (some p) → IsFree t key p
  tombstone-IsFree i p le busy (j, lt, there, state) = record {
    place = record {
      probes = j;
      inside = omega arith;
      there = there;
      busy = λ k k_lt. busy k (omega arith);
    };
    inside = rw there at (probe-lt t s key j);
    unoccupied = λ o. cc (o, state);
  }

  empty-IsFree :
      (i : ℕ)
      → i < length t.entries
      → BusyBelow t key i
      → (entry_at t (probe t key i)).state ≡ empty
      → IsFree t key (probe t key i)
  empty-IsFree i lt busy state = record {
    place = record { probes = i; inside = lt; there = refl; busy = busy };
    inside = probe-lt t s key i;
    unoccupied = λ o. cc (o, state);
  }

  at_empty :
      (n i : ℕ) (found : Option ℕ)
      → i < length t.entries
      → BusyBelow t key i
      → Found t key i found
      → (entry_at t (probe t key i)).state ≡ empty
      → Stores t key value (insert_loop (suc n) t key value (probe t key i) found)
  unfolding insert_loop
  at_empty n i none lt busy f state = (probe t key i, empty-IsFree i lt busy state, rw state refl)
  at_empty n i (some p) lt busy f state =
      (p, tombstone-IsFree i p (omega arith) busy f, rw state refl)

  Found-next :
      (i : ℕ) (found : Option ℕ)
      → (entry_at t (probe t key i)).state ≢ empty
      → Found t key i found
      → Found t key
          (suc i)
          (note_tombstone (entry_at t (probe t key i)).state (probe t key i) found)
  Found-next i found busy f = elim (State-cases (entry_at t (probe t key i)).state) [
    | inl e ↦ absurd (busy e)
    | inr (inl e) ↦ rw e (still_occupied i found e f)
    | inr (inr e) ↦ rw e (first_tombstone i found e f)
  ]
    where
      still_occupied :
          (i : ℕ) (found : Option ℕ)
          → (entry_at t (probe t key i)).state ≡ occupied
          → Found t key i found
          → Found t key (suc i) found
      still_occupied i none e f = λ k lt. elim (Bool-cases (k == i)) [
        | inl same ↦ ap (λ k. (entry_at t (probe t key k)).state) ((==_iff k i).0 same) ∙ e
        | inr other ↦ f k (ground arith)
      ]
      still_occupied i (some p) e (j, lt, there, state) = (j, omega arith, there, state)

      first_tombstone :
          (i : ℕ) (found : Option ℕ)
          → (entry_at t (probe t key i)).state ≡ tombstone
          → Found t key i found
          → Found t key (suc i) (some (value_or found (probe t key i)))
      first_tombstone i none e f = (i, omega arith, refl, e)
      first_tombstone i (some p) e (j, lt, there, state) = (j, omega arith, there, state)

  BusyBelow-next :
      (i : ℕ)
      → (entry_at t (probe t key i)).state ≢ empty
      → BusyBelow t key i
      → BusyBelow t key (suc i)
  BusyBelow-next i here busy k lt e = elim (Bool-cases (k == i)) [
    | inl same ↦ here (ap (λ k. (entry_at t (probe t key k)).state) (sym ((==_iff k i).0 same)) ∙ e)
    | inr other ↦ busy k (ground arith) e
  ]

  pub insert_loop-Stores :
      (n i : ℕ) (found : Option ℕ)
      → i + n ≡ length t.entries
      → BusyBelow t key i
      → Found t key i found
      → Stores t key value (insert_loop n t key value (probe t key i) found)
  unfolding insert_loop insert_reused
  insert_loop-Stores zero i none whole busy f = absurd (spare (λ k lt. f k (omega arith)))
  insert_loop-Stores zero i (some p) whole busy f =
      (p, tombstone-IsFree i p (omega arith) busy f, refl)
  insert_loop-Stores (suc n) i found whole busy f = elim (visit t key (probe t key i)) [
    | stop e ↦ at_empty n i found (omega arith) busy f e
    | hit e k ↦
        absurd (absent (probe t key i) (record { inside = probe-lt t s key i; state = e; key = k }))
    | pass here other ↦ rw (insert_loop-on t s key value n i found here other) (
        insert_loop-Stores n (suc i) _ (omega arith) (BusyBelow-next i here busy)
          (Found-next i found here f))
  ]
