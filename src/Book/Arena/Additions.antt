-- ===== src/Book/Arena/Additions.antt =====
-- Adding an order keeps the arena and the index.
use market_wire.Prelude.{
  ℕ, ◌-◌, ◌<◌, ◌≡◌, refl, ◌∙◌, ap, true, false, Option, none, some, not, List, [], ◌∷◌, arith,
  length, length-set, set, ltb, ◌==◌, ◌||◌, Bool-cases, inl, inr, ==_refl,
}
use market_wire.OrderIndex
use market_wire.OrderIndex.{FlatOrderIndex, invalid_slot}
use market_wire.Book.{PriceLevel, Slot, OrderBook, slot_at, allocate_slot, new_level}
use market_wire.Book.Arena.{Keeps, Keeps-refl, link_at_tail-Keeps, IsArena}
use market_wire.Book.Arena.Events.{HasArena, IsArena-books, drop_empty_book-OnlyBooks}
use market_wire.Book.Arena.Insertions.{take-IsArena}
use market_wire.Book.Arena.Moves.{
  Alters, Alters-set, IsArena-Keeps, release-IsArena, inserted_lem, find-inserted,
}
use market_wire.Book.Chain.{set_here}
use market_wire.Book.Levels.{
  add_to, with_levels, levels_of, new_symbol_book, value_of, is_absent, max_quantity, price_order,
}
use market_wire.Book.Orders.{drop_empty_book, abandon, add_to_book, add_in_slot, add}
use market_wire.Events.{Order, AddEvent, symbol_order}
use market_wire.OrderedMap
use market_wire.OrderedMap.{OrderedMap}

add_to-Keeps :
    (order : Order) (slot : ℕ) (levels : OrderedMap ℕ PriceLevel) (slots : List Slot)
    → Keeps slots (add_to order slot levels slots).0.1
unfolding add_to
add_to-Keeps order slot levels slots =
    let level = value_of (OrderedMap.find (price_order order.side) order.price levels) new_level in
    elim (Bool-cases (ltb (max_quantity - level.total_quantity) order.quantity)) [
      | inl e ↦ rw e (Keeps-refl slots)
      | inr e ↦ rw e (link_at_tail-Keeps slots _ slot)
    ]

add_to_book-HasArena :
    (order : Order) (slot : ℕ) (b : OrderBook) (free : List ℕ)
    → IsArena b free
    → OrderIndex.find b.index order.id ≡ some slot
    → HasArena (add_to_book order slot b).0
unfolding add_to_book abandon
add_to_book-HasArena order slot b free h found =
    let book = value_of (OrderedMap.find symbol_order order.symbol b.books) new_symbol_book in
    let opened = OrderedMap.try_emplace symbol_order order.symbol new_symbol_book b.books in
    let r = add_to order slot (levels_of order.side book) b.slots in
    let book' = with_levels order.side r.0.0 book in
    let books = OrderedMap.assign symbol_order order.symbol book' opened in
    let kept = IsArena-Keeps b free r.0.1 books (add_to-Keeps order slot _ b.slots) h in
    let b' = record b { slots = r.0.1; books = books } in
    elim (Bool-cases r.1) [
      | inl added ↦ rw added (free, kept)
      | inr refused ↦
          let d = drop_empty_book-OnlyBooks order.symbol book' b' in
          let dropped = IsArena-books b' free (drop_empty_book order.symbol book' b').books kept in
          rw refused (rw d (slot ∷ free, release-IsArena _ free dropped order.id slot found))
    ]

-- The slot as `allocate_slot` and then `add` write it.
module _ (slots : List Slot) (x : ℕ) (order : Order) (inside : x < length slots) where
  allocated : List Slot
  allocated = set slots x (record (slot_at slots x) { next_free = invalid_slot; alive = true })

  filled : List Slot
  unfolding allocated
  filled = set allocated x (record (slot_at allocated x) { order = order })

  still_inside : x < length allocated
  unfolding allocated
  still_inside = rw length-set inside

  filled-Alters : Alters slots filled x
  unfolding filled allocated
  filled-Alters =
      let s = record (slot_at slots x) { next_free = invalid_slot; alive = true } in
      let first = Alters-set slots x s inside in
      let second =
        Alters-set allocated x (record (slot_at allocated x) { order = order }) still_inside in
      record {
        size = second.size ∙ first.size;
        others = λ j ne. second.others j ne ∙ first.others j ne;
      }

  filled_here :
      slot_at filled x
      ≡ record (slot_at slots x) { order = order; next_free = invalid_slot; alive = true }
  unfolding filled allocated
  filled_here =
      let s = record (slot_at slots x) { next_free = invalid_slot; alive = true } in
      let put : Slot → Slot = λ t. record t { order = order } in
      set_here allocated x (record (slot_at allocated x) { order = order }) still_inside
      ∙ ap put (set_here slots x s inside)

abbrev pub without_first : OrderBook → OrderBook
without_first b = record b {
  free_head = (slot_at b.slots b.free_head).next_free;
  slots =
      set b.slots b.free_head
        (record (slot_at b.slots b.free_head) { next_free = invalid_slot; alive = true });
}

pub allocate_slot_lem :
    (b : OrderBook)
    → (b.free_head == invalid_slot) ≡ false
    → allocate_slot b ≡ (without_first b, b.free_head)
unfolding allocate_slot
allocate_slot_lem b e = rw e refl

pub allocate_slot_full :
    (b : OrderBook) → (b.free_head == invalid_slot) ≡ true → allocate_slot b ≡ (b, invalid_slot)
unfolding allocate_slot
allocate_slot_full b e = rw e refl

add_slot-HasArena :
    (b : OrderBook) (order : Order) (free : List ℕ)
    → IsArena b free
    → OrderIndex.find b.index order.id ≡ none
    → (b.free_head == invalid_slot) ≡ false
    → HasArena (add_in_slot order b.free_head (without_first b)).0
unfolding add_in_slot filled allocated
add_slot-HasArena b order [] h absent has_slot = absurd (ground (arith, h.chain, has_slot))
add_slot-HasArena b order (x ∷ rest) h absent has_slot =
    let first : b.free_head ≡ x = h.chain.0 in
    let here = filled_here b.slots x order h.chain.1 in
    let taken =
      take-IsArena b x rest h order.id absent (filled b.slots x order h.chain.1)
        (filled-Alters b.slots x order h.chain.1) (ap (λ t. t.alive) here)
        (ap (λ t. t.order.id) here) in
    let found : OrderIndex.find (OrderIndex.insert b.index order.id x).0 order.id ≡ some x =
      find-inserted b (x ∷ rest) h order.id x absent order.id ∙ rw (==_refl order.id) refl in
    let done = add_to_book-HasArena order x _ rest taken found in
    rw (first, inserted_lem b (x ∷ rest) h order.id x absent) done

pub absent_of_is_absent : (sought : Option ℕ) → is_absent sought ≡ true → sought ≡ none
absent_of_is_absent none h = refl
absent_of_is_absent (some v) h = cc

pub add-HasArena : (b : OrderBook) (event : AddEvent) → HasArena b → HasArena (add b event).0
unfolding add
add-HasArena b event (free, h) =
    let order = event.order in
    let sought = OrderIndex.find b.index order.id in
    elim (Bool-cases (order.id == 0 || order.quantity == 0 || not (is_absent sought))) [
      | inl bad ↦ rw bad (free, h)
      | inr fine ↦
          let absent = absent_of_is_absent sought (ground arith) in
          elim (Bool-cases (b.free_head == invalid_slot)) [
            | inl full ↦ rw fine (rw (allocate_slot_full b full) (free, h))
            | inr has_slot ↦ rw fine (
                rw (allocate_slot_lem b has_slot, has_slot)
                  (add_slot-HasArena b order free h absent has_slot))
          ]
    ]
