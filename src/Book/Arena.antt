-- ===== src/Book/Arena.antt =====
-- The arena and the index of the book: every slot is free or holds the order that the index has under
-- its id.
pub mod Moves
pub mod Insertions
pub mod Events
pub mod Additions
pub mod Accepts
pub mod Replacements
pub mod Feeds
use market_wire.Prelude.{
  ℕ, zero, suc, ◌+◌, ◌<◌, ◌≤◌, ◌≡◌, ◌≢◌, refl, ◌∙◌, sym, ap, Bool, true, false, some, List, [], ◌∷◌,
  arith, length, length-set, set, ltb, ◌==◌, Bool-cases, inl, inr, ==_iff, if◌then◌else◌,
}
use market_wire.OrderIndex
use market_wire.OrderIndex.{invalid_slot}
use market_wire.OrderIndex.Capacity.{IsMade}
use market_wire.Book.{
  PriceLevel, Slot, OrderBook, slot_at, link_at_tail, unlink_before, unlink_after, unlink,
}
use market_wire.Book.Chain.{Distinct, set_here, set_elsewhere}

-- What the arena needs of a slot: the id of its order, the next free slot, and whether it is in use.
abbrev pub facet : Slot → (ℕ × ℕ) × Bool
facet s = ((s.order.id, s.next_free), s.alive)

-- The same arena, but for the links of the levels and what else orders hold.
pub record Keeps (slots slots' : List Slot) : Type 0 where
  pub size : length slots' ≡ length slots
  pub same : (j : ℕ) → facet (slot_at slots' j) ≡ facet (slot_at slots j)

pub Keeps-refl : (slots : List Slot) → Keeps slots slots
Keeps-refl slots = record { size = refl; same = λ j. refl }

pub Keeps-trans : {a b c : List Slot} → Keeps a b → Keeps b c → Keeps a c
Keeps-trans h k = record { size = k.size ∙ h.size; same = λ j. k.same j ∙ h.same j }

set_outside : (slots : List Slot) (i : ℕ) (s : Slot) → length slots ≤ i → set slots i s ≡ slots
set_outside [] i s h = refl
set_outside (x ∷ slots) zero s h = absurd (omega arith)
set_outside (x ∷ slots) (suc i) s h = ap (λ t. x ∷ t) (set_outside slots i s (omega arith))

pub Keeps-set :
    (slots : List Slot) (i : ℕ) (s : Slot)
    → facet s ≡ facet (slot_at slots i)
    → Keeps slots (set slots i s)
Keeps-set slots i s kept = record {
  size = length-set slots i s;
  same = λ j. elim (Bool-cases (ltb i (length slots))) [
    | inr out ↦ ap (λ t. facet (slot_at t j)) (set_outside slots i s (ground arith))
    | inl in_ ↦
        let inside : i < length slots = ground arith in
        elim (Bool-cases (i == j)) [
          | inl e ↦ rw (sym ((==_iff i j).0 e)) (ap facet (set_here slots i s inside) ∙ kept)
          | inr other ↦ ap facet (set_elsewhere slots i s inside j (λ e. ground (arith, other, e)))
        ]
  ];
}

pub link_at_tail-Keeps :
    (slots : List Slot) (level : PriceLevel) (slot : ℕ)
    → Keeps slots (link_at_tail slots level slot).0
unfolding link_at_tail
link_at_tail-Keeps slots level slot =
    let s = record (slot_at slots slot) { prev = level.tail; next = invalid_slot } in
    let first = Keeps-set slots slot s refl in
    elim (Bool-cases (level.tail == invalid_slot)) [
      | inl e ↦ rw e first
      | inr e ↦ rw e (Keeps-trans first (Keeps-set (set slots slot s) level.tail _ refl))
    ]

unlink_before-Keeps :
    (slots : List Slot) (level : PriceLevel) (prev next : ℕ)
    → Keeps slots (unlink_before slots level prev next).0
unfolding unlink_before
unlink_before-Keeps slots level prev next = elim (Bool-cases (prev == invalid_slot)) [
  | inl e ↦ rw e (Keeps-refl slots)
  | inr e ↦ rw e (Keeps-set slots prev _ refl)
]

unlink_after-Keeps :
    (slots : List Slot) (level : PriceLevel) (prev next : ℕ)
    → Keeps slots (unlink_after slots level prev next).0
unfolding unlink_after
unlink_after-Keeps slots level prev next = elim (Bool-cases (next == invalid_slot)) [
  | inl e ↦ rw e (Keeps-refl slots)
  | inr e ↦ rw e (Keeps-set slots next _ refl)
]

pub unlink-Keeps :
    (slots : List Slot) (level : PriceLevel) (slot : ℕ) → Keeps slots (unlink slots level slot).0
unfolding unlink
unlink-Keeps slots level slot =
    let prev = (slot_at slots slot).prev in
    let next = (slot_at slots slot).next in
    let o1 = unlink_before slots level prev next in
    let o2 = unlink_after o1.0 o1.1 prev next in
    Keeps-trans (unlink_before-Keeps slots level prev next)
      (Keeps-trans (unlink_after-Keeps o1.0 o1.1 prev next) (Keeps-set o2.0 slot _ refl))

-- The free slots `free`, linked from `head` on.
abbrev pub FreeList : List Slot → ℕ → List ℕ → Type 0
FreeList slots head [] = head ≡ invalid_slot
FreeList slots head (x ∷ free) =
    (head ≡ x)
    × (x < length slots)
    × ((slot_at slots x).alive ≡ false)
    × FreeList slots (slot_at slots x).next_free free

-- The slot is in use and holds the order with the id.
pub record Lives (slots : List Slot) (id v : ℕ) : Type 0 where
  pub inside : v < length slots
  pub alive : (slot_at slots v).alive ≡ true
  pub named : (slot_at slots v).order.id ≡ id

-- The index finds exactly the orders of the slots in use, the free list holds `free`, and no slot is
-- lost: there are as many ids and free slots as there are slots.
pub record IsArena (b : OrderBook) (free : List ℕ) : Type 0 where
  pub small : length b.slots ≤ invalid_slot
  pub made : IsMade (length b.slots) b.index
  pub chain : FreeList b.slots b.free_head free
  pub distinct : Distinct free
  pub count : b.index.size + length free ≡ length b.slots
  pub ids : (id v : ℕ) → OrderIndex.find b.index id ≡ some v → Lives b.slots id v
  pub known :
      (v : ℕ)
      → v < length b.slots
      → (slot_at b.slots v).alive ≡ true
      → OrderIndex.find b.index (slot_at b.slots v).order.id ≡ some v
