-- ===== src/OrderIndex/Store.antt =====
-- Storing a key in a place that is free for it: the index stays well-formed, and finds it.
use market_wire.Prelude.{
  ℕ, suc, ◌+◌, ◌%◌, ◌^◌, ◌<◌, ◌≡◌, ◌≢◌, refl, ◌∙◌, sym, ap, inl, inr, ◌⊎◌, false, some, Bool-cases,
  arith, length, length-set, set, if◌then◌else◌, ◌==◌, ==_iff, Option-cases,
}
use market_wire.OrderIndex.{empty, occupied, Entry, FlatOrderIndex, entry_at, find, store}
use market_wire.OrderIndex.Find.{find-Sits, find_stored, find_absent, absent_of_none}
use market_wire.OrderIndex.Probe.{State-cases, Sits, Reached, IsValid, count, capacity-le}
use market_wire.OrderIndex.Written.{
  weight, count-set, count-le-length, written, written_here, written_elsewhere, IsShaped-written,
  Reached-written, Sits-back, Sits-written,
}

weight_unoccupied : (e : Entry) → e.state ≢ occupied → weight e ≡ 0
weight_unoccupied e not_there = elim (State-cases e.state) [
  | inl s ↦ rw s refl
  | inr (inl s) ↦ absurd (not_there s)
  | inr (inr s) ↦ rw s refl
]

-- Where `insert` may put a key: no probe before it meets an empty entry, and no key is there.
pub record IsFree (t : FlatOrderIndex) (key target : ℕ) : Type 0 where
  pub place : Reached t key target
  pub inside : target < length t.entries
  pub unoccupied : (entry_at t target).state ≢ occupied

module _ (t : FlatOrderIndex) (valid : IsValid t) (key value target : ℕ)
    (absent : (pos : ℕ) → Sits t key pos → ⊥) (room : IsFree t key target) where
  abbrev stored : Entry
  stored = record { key = key; value = value; state = occupied }

  abbrev after : FlatOrderIndex
  after = written t target stored (suc t.size)

  pub store-written : store t target key value ≡ after
  unfolding store
  store-written =
      let no_wrap : (t.size + 1) % 2 ^ 64 ≡ suc t.size =
        omega (arith, valid.size, count-le-length t.entries, capacity-le t valid.shape) in
      rw no_wrap refl

  not_empty : stored.state ≢ empty
  not_empty = λ s. cc

  pub key_Sits : Sits after key target
  key_Sits =
      let here = written_here t target stored (suc t.size) room.inside in
      record {
        inside = rw (length-set t.entries target stored) room.inside;
        state = ap (λ x. x.state) here;
        key = ap (λ x. x.key) here;
      }

  -- An entry of the new index is the stored one, or one of the old index.
  place : (q pos : ℕ) → Sits after q pos → ((target ≡ pos) × (q ≡ key)) ⊎ Sits t q pos
  place q pos sits = elim (Bool-cases (target == pos)) [
    | inl same ↦
        let e = (==_iff target pos).0 same in
        let here = written_here t target stored (suc t.size) room.inside in
        inl (e, sym sits.key ∙ sym (ap (λ j. (entry_at after j).key) e) ∙ ap (λ x. x.key) here)
    | inr other ↦ inr (
        Sits-back t target stored (suc t.size) room.inside q pos (λ e. ground (arith, other, e))
          sits)
  ]

  size-after : suc t.size ≡ count (set t.entries target stored)
  size-after = omega (
    arith,
    valid.size,
    count-set t.entries target stored room.inside,
    weight_unoccupied (entry_at t target) room.unoccupied,
  )

  Reached-after : (q pos : ℕ) → Sits after q pos → Reached after q pos
  Reached-after q pos sits = elim (place q pos sits) [
    | inl (same, its_key) ↦
        rw (its_key, sym same)
          (Reached-written t target stored (suc t.size) room.inside key target not_empty room.place)
    | inr old ↦
        Reached-written t target stored (suc t.size) room.inside q pos not_empty
          (valid.reached q pos old)
  ]

  unique-after : (k p q : ℕ) → Sits after k p → Sits after k q → p ≡ q
  unique-after k p q sp sq = elim (place k p sp) [
    | inl (same_p, its_key) ↦ elim (place k q sq) [
      | inl (same_q, _) ↦ sym same_p ∙ same_q
      | inr old_q ↦ absurd (absent q (rw its_key at old_q))
    ]
    | inr old_p ↦ elim (place k q sq) [
      | inl (same_q, its_key) ↦ absurd (absent p (rw its_key at old_p))
      | inr old_q ↦ valid.unique k p q old_p old_q
    ]
  ]

  pub store-IsValid : IsValid after
  store-IsValid = record {
    shape = IsShaped-written t target stored (suc t.size) room.inside valid.shape;
    size = size-after;
    reached = Reached-after;
    unique = unique-after;
  }

  find_of_place : (q : ℕ) → (q == key) ≡ false → find after q ≡ find t q
  find_of_place q other = elim (Option-cases (find t q)) [
    | inl missing ↦
        find_absent after store-IsValid q (λ pos sits. elim (place q pos sits) [
          | inl (_, its_key) ↦ ground (arith, other, its_key)
          | inr old ↦ absent_of_none t valid q missing pos old
        ])
        ∙ sym missing
    | inr (v, found) ↦
        let (pos, sits, is_v) = find-Sits t valid q found in
        let apart : target ≢ pos =
          λ e. room.unoccupied (ap (λ j. (entry_at t j).state) e ∙ sits.state) in
        let still = Sits-written t target stored (suc t.size) room.inside q pos apart sits in
        let same = written_elsewhere t target stored (suc t.size) room.inside pos apart in
        find_stored after store-IsValid q pos still
        ∙ ap (λ x. some x.value) same
        ∙ ap some is_v
        ∙ sym found
  ]

  -- The stored key has its value, and every other key has the one that it had.
  pub find-after : (q : ℕ) → find after q ≡ (if q == key then some value else find t q)
  find-after q = elim (Bool-cases (q == key)) [
    | inl same ↦
        let its_key = (==_iff q key).0 same in
        let here = written_here t target stored (suc t.size) room.inside in
        rw same (
          ap (find after) its_key
          ∙ find_stored after store-IsValid key target key_Sits
          ∙ ap (λ x. some x.value) here)
    | inr other ↦ rw other (find_of_place q other)
  ]
