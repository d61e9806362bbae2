-- ===== src/Book/Arena/Accepts.antt =====
-- When an order is added: the table of ids is never the reason for a refusal.
use market_wire.Prelude.{
  ℕ, ◌-◌, ◌≡◌, refl, ◌∙◌, sym, ap, Bool, false, none, not, List, arith, ltb, ◌==◌, ◌||◌, Bool-cases,
  inl, inr, if◌then◌else◌,
}
use market_wire.Prelude.Result.{ok}
use market_wire.OrderIndex
use market_wire.OrderIndex.{invalid_slot}
use market_wire.Book.{PriceLevel, Slot, OrderBook, new_level}
use market_wire.Book.Arena.{IsArena}
use market_wire.Book.Arena.Additions.{
  without_first, allocate_slot_lem, allocate_slot_full, absent_of_is_absent,
}
use market_wire.Book.Arena.Events.{HasArena}
use market_wire.Book.Arena.Moves.{inserted_lem}
use market_wire.Book.Levels.{
  add_to, levels_of, new_symbol_book, value_of, is_absent, max_quantity, price_order,
}
use market_wire.Book.Orders.{add_to_book, add_in_slot, add}
use market_wire.Events.{Order, AddEvent, symbol_order}
use market_wire.OrderedMap
use market_wire.OrderedMap.{OrderedMap}

abbrev has_room_in : Order → OrderedMap ℕ PriceLevel → Bool
has_room_in order levels =
    let level = value_of (OrderedMap.find (price_order order.side) order.price levels) new_level in
    not (ltb (max_quantity - level.total_quantity) order.quantity)

-- The order's level, an empty one if there is none, can take its quantity in 32 bits.
abbrev pub has_room_for : OrderBook → Order → Bool
has_room_for b order =
    let book = value_of (OrderedMap.find symbol_order order.symbol b.books) new_symbol_book in
    has_room_in order (levels_of order.side book)

-- Whether an order is added.
abbrev pub accepts : OrderBook → Order → Bool
accepts b order =
    if order.id == 0 || order.quantity == 0 || not (is_absent (OrderIndex.find b.index order.id))
    then false
    else if b.free_head == invalid_slot
    then false
    else has_room_for b order

add_to_answer :
    (order : Order) (slot : ℕ) (levels : OrderedMap ℕ PriceLevel) (slots : List Slot)
    → (add_to order slot levels slots).1 ≡ has_room_in order levels
unfolding add_to
add_to_answer order slot levels slots =
    let level = value_of (OrderedMap.find (price_order order.side) order.price levels) new_level in
    elim (Bool-cases (ltb (max_quantity - level.total_quantity) order.quantity)) [
      | inl e ↦ rw e refl
      | inr e ↦ rw e refl
    ]

add_to_book_answer :
    (order : Order) (slot : ℕ) (b : OrderBook)
    → (add_to_book order slot b).1 ≡ ok (has_room_for b order)
unfolding add_to_book
add_to_book_answer order slot b =
    let book = value_of (OrderedMap.find symbol_order order.symbol b.books) new_symbol_book in
    let r = add_to order slot (levels_of order.side book) b.slots in
    let answer = add_to_answer order slot (levels_of order.side book) b.slots in
    elim (Bool-cases r.1) [
      | inl e ↦ rw e (ap ok (sym e ∙ answer))
      | inr e ↦ rw e (ap ok (sym e ∙ answer))
    ]

add_in_slot_answer :
    (b : OrderBook) (order : Order) (free : List ℕ) (slot : ℕ)
    → IsArena b free
    → OrderIndex.find b.index order.id ≡ none
    → (add_in_slot order slot (without_first b)).1 ≡ ok (has_room_for b order)
unfolding add_in_slot
add_in_slot_answer b order free slot h absent =
    rw (inserted_lem b free h order.id slot absent) (add_to_book_answer order slot _)

-- In a book with the invariant, `add` throws nothing and answers yes exactly if the id is new and neither it
-- nor the quantity is 0, a slot is free, and the order's price level can take the quantity in 32 bits.
pub add-accepts :
    (b : OrderBook) (event : AddEvent) → HasArena b → (add b event).1 ≡ ok (accepts b event.order)
unfolding add
add-accepts b event (free, h) =
    let order = event.order in
    let sought = OrderIndex.find b.index order.id in
    elim (Bool-cases (order.id == 0 || order.quantity == 0 || not (is_absent sought))) [
      | inl bad ↦ rw bad refl
      | inr fine ↦
          let absent = absent_of_is_absent sought (ground arith) in
          elim (Bool-cases (b.free_head == invalid_slot)) [
            | inl full ↦ rw fine (rw (allocate_slot_full b full, full) refl)
            | inr has_slot ↦ rw fine (
                rw (allocate_slot_lem b has_slot, has_slot)
                  (add_in_slot_answer b order free b.free_head h absent))
          ]
    ]
