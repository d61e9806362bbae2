-- ===== src/Book/Replace.antt =====
-- `OrderBook::replace`: a new id, quantity and price for an order, which goes to the end of its level.
use market_wire.Prelude.{
  ℕ, ◌+◌, ◌-◌, ◌%◌, ◌^◌, Bool, true, false, Option, none, some, List, ltb, ◌==◌, ◌||◌, not, set,
  if◌then◌else◌,
}
use market_wire.Prelude.Result.{ok, throw, undefined, out_of_range}
use market_wire.Events.{Order, ReplaceEvent, symbol_order}
use market_wire.OrderIndex
use market_wire.OrderIndex.{FlatOrderIndex, invalid_slot}
use market_wire.OrderedMap
use market_wire.OrderedMap.{OrderedMap}
use market_wire.Book.{
  PriceLevel, SymbolBook, Slot, OrderBook, new_level, slot_at, link_at_tail, unlink,
}
use market_wire.Book.Levels.{
  price_order, levels_of, with_levels, max_quantity, value_of, is_absent, undo_level,
}
use market_wire.Book.Orders.{Answer}

-- `slot.order.id = …; slot.order.quantity = …; slot.order.price = …;`
unfoldable pub rewrite_order : List Slot → ℕ → ReplaceEvent → List Slot
rewrite_order slots idx event =
    let slot = slot_at slots idx in
    let order = record (slot.order) {
      id = event.new_order_id;
      quantity = event.new_quantity;
      price = event.new_price;
    } in
    set slots idx (record slot { order = order })

-- What `replace_in` works on: the levels of one side, and the rest of the book.
abbrev pub SideBook : Type 0
SideBook = OrderedMap ℕ PriceLevel × OrderBook

-- `old.price == event.new_price`; the price stays as it is.
unfoldable pub replace_same :
    ReplaceEvent → ℕ → Order → PriceLevel → OrderedMap ℕ PriceLevel → OrderBook → SideBook × Bool
unfolding unlink link_at_tail rewrite_order
replace_same event idx old level levels b =
    let without_old = (level.total_quantity + (2 ^ 64 - old.quantity)) % 2 ^ 64 in
    let total = (without_old + event.new_quantity) % 2 ^ 64 in
    if ltb max_quantity total
    then ((levels, b), false)
    else let (index, inserted) = OrderIndex.insert b.index event.new_order_id idx in
      if not inserted
      then ((levels, record b { index = index }), false)
      else let (slots1, level1) = unlink b.slots level idx in
        let slots2 = rewrite_order slots1 idx event in
        let raised = record level1 { total_quantity = total % 2 ^ 32 } in
        let (slots3, level3) = link_at_tail slots2 raised idx in
        (
          (
            OrderedMap.assign (price_order old.side) old.price level3 levels,
            record b { slots = slots3; index = (OrderIndex.erase index event.old_order_id).0 },
          ),
          true,
        )

-- The move from the old level to the new one, which is in `opened`.
unfoldable pub move_order :
    ReplaceEvent
    → ℕ
    → Order
    → PriceLevel
    → PriceLevel
    → OrderedMap ℕ PriceLevel
    → OrderBook
    → SideBook
unfolding unlink link_at_tail rewrite_order
move_order event idx old old_level new_level opened b =
    let o = price_order old.side in
    let (slots1, unlinked) = unlink b.slots old_level idx in
    let old_level' = record unlinked {
      total_quantity = (unlinked.total_quantity + (2 ^ 32 - old.quantity)) % 2 ^ 32;
    } in
    let slots2 = rewrite_order slots1 idx event in
    let raised = record new_level {
      total_quantity = (new_level.total_quantity + event.new_quantity) % 2 ^ 32;
    } in
    let (slots3, new_level') = link_at_tail slots2 raised idx in
    let levels =
      OrderedMap.assign o event.new_price new_level'
        (OrderedMap.assign o old.price old_level' opened) in
    (
      if old_level'.head == invalid_slot then OrderedMap.erase o old.price levels else levels,
      record b { slots = slots3; index = (OrderIndex.erase b.index event.old_order_id).0 },
    )

-- Another price; a missing old level is read through the iterator `end()`.
unfoldable pub replace_other :
    ReplaceEvent
    → ℕ
    → Order
    → Option PriceLevel
    → OrderedMap ℕ PriceLevel
    → OrderBook
    → SideBook × Option Bool
unfolding undo_level move_order
replace_other event idx old old_level levels b =
    let o = price_order old.side in
    let sought = OrderedMap.find o event.new_price levels in
    let target = value_of sought new_level in
    let opened = OrderedMap.try_emplace o event.new_price new_level levels in
    let undone = undo_level old.side (is_absent sought) event.new_price opened in
    if ltb (max_quantity - target.total_quantity) event.new_quantity
    then ((undone, b), some false)
    else let (index, inserted) = OrderIndex.insert b.index event.new_order_id idx in
      let b' = record b { index = index } in
      if not inserted then ((undone, b'), some false) else elim old_level [
        | none ↦ ((opened, b'), none)
        | some level ↦ (move_order event idx old level target opened b', some true)
      ]

abbrev pub known : SideBook × Bool → SideBook × Option Bool
known (s, answer) = (s, some answer)

unfoldable pub replace_in :
    ReplaceEvent → ℕ → Order → OrderedMap ℕ PriceLevel → OrderBook → SideBook × Option Bool
unfolding replace_same replace_other
replace_in event idx old levels b =
    let old_level = OrderedMap.find (price_order old.side) old.price levels in
    if old.price == event.new_price
    then elim old_level [
      | none ↦ ((levels, b), none)
      | some level ↦ known (replace_same event idx old level levels b)
    ]
    else replace_other event idx old old_level levels b

-- The side's levels go back into the book.
unfoldable pub close_side : Order → SymbolBook → SideBook × Option Bool → Answer
close_side old book ((levels, b), answer) =
    let books =
      OrderedMap.assign symbol_order old.symbol (with_levels old.side levels book) b.books in
    (record b { books = books }, elim answer [ none ↦ undefined | some done ↦ ok done ])

unfoldable pub replace_slot : ReplaceEvent → ℕ → OrderBook → Answer
unfolding replace_in close_side
replace_slot event idx b =
    let old = (slot_at b.slots idx).order in
    elim (OrderedMap.find symbol_order old.symbol b.books) [
      | none ↦ (b, throw out_of_range)
      | some book ↦ close_side old book (replace_in event idx old (levels_of old.side book) b)
    ]

unfoldable pub replace : OrderBook → ReplaceEvent → Answer
unfolding replace_slot
replace b event = elim (OrderIndex.find b.index event.old_order_id) [
  | none ↦ (b, ok false)
  | some idx ↦
      if event.new_order_id == 0
        || event.new_quantity == 0
        || not (is_absent (OrderIndex.find b.index event.new_order_id))
      then (b, ok false)
      else replace_slot event idx b
]
