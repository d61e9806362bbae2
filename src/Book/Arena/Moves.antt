-- ===== src/Book/Arena/Moves.antt =====
-- What the handlers do to the arena and the index: keep it, give back a slot, take one, or rename one.
use market_wire.Prelude.{
  ℕ, ◌+◌, ◌<◌, ◌≡◌, ◌≢◌, refl, ◌∙◌, sym, ap, true, false, none, some, List, [], ◌∷◌, arith, All,
  length, length-set, set, ◌==◌, Bool-cases, inl, inr, ==_iff, if◌then◌else◌,
}
use market_wire.OrderIndex
use market_wire.OrderIndex.{FlatOrderIndex, invalid_slot}
use market_wire.OrderIndex.Adds.{insert-Inserts}
use market_wire.OrderIndex.Capacity.{IsMade, has_room_lem}
use market_wire.OrderIndex.Erase.{erase-Removes, is_some}
use market_wire.OrderIndex.Runs.{IsMade-kept}
use market_wire.Book.{SymbolBook, Slot, OrderBook, slot_at, new_slot, release_slot}
use market_wire.Book.Arena.{facet, Keeps, FreeList, Lives, IsArena}
use market_wire.Book.Chain.{set_here, set_elsewhere}
use market_wire.Events.{Symbol}
use market_wire.OrderedMap.{OrderedMap}

FreeList-Keeps :
    {slots slots' : List Slot} (head : ℕ) (free : List ℕ)
    → Keeps slots slots'
    → FreeList slots head free
    → FreeList slots' head free
FreeList-Keeps head [] k h = h
FreeList-Keeps {slots} {slots'} head (x ∷ free) k (here, inside, dead, rest) =
    let next : (slot_at slots' x).next_free ≡ (slot_at slots x).next_free =
      ap (λ f. f.0.1) (k.same x) in
    (
      here,
      rw k.size inside,
      ap (λ f. f.1) (k.same x) ∙ dead,
      rw next (FreeList-Keeps (slot_at slots x).next_free free k rest),
    )

pub IsArena-Keeps :
    (b : OrderBook) (free : List ℕ) (slots : List Slot) (books : OrderedMap Symbol SymbolBook)
    → Keeps b.slots slots
    → IsArena b free
    → IsArena (record b { slots = slots; books = books }) free
IsArena-Keeps b free slots books k h = record {
  small = rw k.size h.small;
  made = rw k.size h.made;
  chain = FreeList-Keeps b.free_head free k h.chain;
  distinct = h.distinct;
  count = h.count ∙ sym k.size;
  ids = λ id v found.
      let l = h.ids id v found in
      record {
        inside = rw k.size (l.inside);
        alive = ap (λ f. f.1) (k.same v) ∙ l.alive;
        named = ap (λ f. f.0.0) (k.same v) ∙ l.named;
      };
  known = λ v inside alive.
      ap (OrderIndex.find b.index) (ap (λ f. f.0.0) (k.same v))
      ∙ h.known v (rw k.size at inside) (sym (ap (λ f. f.1) (k.same v)) ∙ alive);
}

-- A slot in use is not free.
pub away :
    (slots : List Slot) (v head : ℕ) (free : List ℕ)
    → (slot_at slots v).alive ≡ true
    → FreeList slots head free
    → All (λ x. v ≢ x) free
away slots v head [] alive h = tt
away slots v head (x ∷ free) alive (here, inside, dead, rest) =
    ((λ e. cc (rw e at alive)), away slots v (slot_at slots x).next_free free alive rest)

-- The same arena but for the slot `v`.
pub record Alters (slots slots' : List Slot) (v : ℕ) : Type 0 where
  pub size : length slots' ≡ length slots
  pub others : (j : ℕ) → v ≢ j → facet (slot_at slots' j) ≡ facet (slot_at slots j)

pub Alters-set :
    (slots : List Slot) (v : ℕ) (s : Slot) → v < length slots → Alters slots (set slots v s) v
Alters-set slots v s lt = record {
  size = length-set slots v s;
  others = λ j ne. ap facet (set_elsewhere slots v s lt j ne);
}

pub FreeList-Alters :
    {slots slots' : List Slot} {v : ℕ} (head : ℕ) (free : List ℕ)
    → Alters slots slots' v
    → All (λ x. v ≢ x) free
    → FreeList slots head free
    → FreeList slots' head free
FreeList-Alters head [] k a h = h
FreeList-Alters {slots} {slots'} head (x ∷ free) k a (here, inside, dead, rest) =
    let next : (slot_at slots' x).next_free ≡ (slot_at slots x).next_free =
      ap (λ f. f.0.1) (k.others x a.0) in
    (
      here,
      rw k.size inside,
      ap (λ f. f.1) (k.others x a.0) ∙ dead,
      rw next (FreeList-Alters (slot_at slots x).next_free free k a.1 rest),
    )

pub Lives-Alters :
    {slots slots' : List Slot} {v : ℕ} (id w : ℕ)
    → Alters slots slots' v
    → v ≢ w
    → Lives slots id w
    → Lives slots' id w
Lives-Alters id w k ne l = record {
  inside = rw k.size l.inside;
  alive = ap (λ f. f.1) (k.others w ne) ∙ l.alive;
  named = ap (λ f. f.0.0) (k.others w ne) ∙ l.named;
}

module _ (b : OrderBook) (free : List ℕ) (h : IsArena b free) where
  -- The slot of an order that is known by another id is another slot.
  pub other_slot :
      (id v q w : ℕ)
      → OrderIndex.find b.index id ≡ some v
      → OrderIndex.find b.index q ≡ some w
      → q ≢ id
      → v ≢ w
  other_slot id v q w found sought ne e =
      let one = (h.ids id v found).named in
      let two = (h.ids q w sought).named in
      ne (sym two ∙ ap (λ j. (slot_at b.slots j).order.id) (sym e) ∙ one)

  -- A slot in use is known by the id of its order, which another slot's order does not have.
  pub other_id :
      (id v w : ℕ)
      → OrderIndex.find b.index id ≡ some v
      → v ≢ w
      → w < length b.slots
      → (slot_at b.slots w).alive ≡ true
      → (slot_at b.slots w).order.id ≢ id
  other_id id v w found ne inside alive e =
      let known = h.known w inside alive in
      ne (
        let same : some v ≡ some w = sym found ∙ ap (OrderIndex.find b.index) (sym e) ∙ known in cc)

  pub release-IsArena :
      (id v : ℕ)
      → OrderIndex.find b.index id ≡ some v
      → IsArena (release_slot (record b { index = (OrderIndex.erase b.index id).0 }) v) (v ∷ free)
  unfolding release_slot
  release-IsArena id v found =
      let l = h.ids id v found in
      let s = record new_slot { next_free = b.free_head } in
      let k = Alters-set b.slots v s l.inside in
      let here = set_here b.slots v s l.inside in
      let gone = away b.slots v b.free_head free l.alive h.chain in
      let r = erase-Removes b.index id h.made.valid in
      let taken : (OrderIndex.erase b.index id).1 ≡ true = r.answers ∙ ap is_some found in
      let less : (OrderIndex.erase b.index id).0.size + 1 ≡ b.index.size = rw taken at r.size in
      let next : (slot_at (set b.slots v s) v).next_free ≡ b.free_head =
        ap (λ t. t.next_free) here in
      record {
        small = rw k.size h.small;
        made = rw k.size (IsMade-kept (length b.slots) h.made r.valid r.capacity);
        chain = (
          refl,
          rw k.size l.inside,
          ap (λ t. t.alive) here,
          rw next (FreeList-Alters b.free_head free k gone h.chain),
        );
        distinct = (gone, h.distinct);
        count = rw k.size (omega (arith, less, h.count));
        ids = λ q w sought. elim (Bool-cases (q == id)) [
          | inl same ↦ absurd (cc (rw same at (sym (r.finds q) ∙ sought)))
          | inr other ↦
              let before : OrderIndex.find b.index q ≡ some w =
                rw other at (sym (r.finds q) ∙ sought) in
              Lives-Alters q w k (other_slot id v q w found before (λ e. ground (arith, other, e)))
                (h.ids q w before)
        ];
        known = λ w inside alive. elim (Bool-cases (v == w)) [
          | inl same ↦
              let e : v ≡ w = (==_iff v w).0 same in
              let dead : (slot_at (set b.slots v s) v).alive ≡ true =
                ap (λ j. (slot_at (set b.slots v s) j).alive) e ∙ alive in
              absurd (cc (sym (ap (λ t. t.alive) here) ∙ dead))
          | inr other ↦
              let ne : v ≢ w = λ e. ground (arith, other, e) in
              let f = k.others w ne in
              let was_inside : w < length b.slots = rw k.size at inside in
              let was_alive = sym (ap (λ f. f.1) f) ∙ alive in
              let fresh = other_id id v w found ne was_inside was_alive in
              let not_id : ((slot_at b.slots w).order.id == id) ≡ false = ground (arith, fresh) in
              ap (OrderIndex.find (OrderIndex.erase b.index id).0) (ap (λ f. f.0.0) f)
              ∙ r.finds (slot_at b.slots w).order.id
              ∙ rw not_id (h.known w was_inside was_alive)
        ];
      }

  -- There is room for a key whenever it is not there.
  module _ (id v : ℕ) (absent : OrderIndex.find b.index id ≡ none) where
    pub inserted_lem : (OrderIndex.insert b.index id v).1 ≡ true
    inserted_lem =
        let i = insert-Inserts b.index id v h.made.valid in
        let room = has_room_lem (length b.slots) b.index h.made (omega (arith, h.count)) in
        i.answers ∙ rw (absent, room) refl

    pub find-inserted :
        (q : ℕ)
        → OrderIndex.find (OrderIndex.insert b.index id v).0 q
          ≡ (if q == id then some v else OrderIndex.find b.index q)
    find-inserted q =
        let i = insert-Inserts b.index id v h.made.valid in i.finds q ∙ rw inserted_lem refl

    pub inserted-IsMade : IsMade (length b.slots) (OrderIndex.insert b.index id v).0
    inserted-IsMade =
        let i = insert-Inserts b.index id v h.made.valid in
        IsMade-kept (length b.slots) h.made i.valid i.capacity

    pub size-inserted : (OrderIndex.insert b.index id v).0.size ≡ b.index.size + 1
    size-inserted =
        let i = insert-Inserts b.index id v h.made.valid in i.size ∙ rw inserted_lem refl
