-- ===== src/Book/Orders.antt =====
-- `OrderBook::add`, `execute`, `cancel`, `erase` and `remove_order`.
use market_wire.Prelude.{
  ℕ, ◌+◌, ◌-◌, ◌%◌, ◌^◌, Bool, true, false, none, some, ltb, ◌==◌, ◌||◌, ◌&&◌, not, set,
  if◌then◌else◌,
}
use market_wire.Prelude.Result.{Result, ok, throw, out_of_range}
use market_wire.Events.{
  Symbol, Order, AddEvent, ExecuteEvent, CancelEvent, DeleteEvent, symbol_order,
}
use market_wire.OrderIndex
use market_wire.OrderIndex.{invalid_slot}
use market_wire.OrderedMap
use market_wire.Book.{SymbolBook, OrderBook, slot_at, allocate_slot, release_slot, unlink}
use market_wire.Book.Levels.{
  levels_of, with_levels, new_symbol_book, is_nil, value_of, is_absent, add_to, drop_empty_in,
  level_of, put_level,
}

-- What a method leaves behind and answers.
abbrev pub Answer : Type 0
Answer = OrderBook × Result Bool

-- `if (symbol_book.bids.empty() && symbol_book.asks.empty()) books_.erase(order.symbol);`
unfoldable pub drop_empty_book : Symbol → SymbolBook → OrderBook → OrderBook
drop_empty_book symbol book b =
    if is_nil book.bids && is_nil book.asks
    then record b { books = OrderedMap.erase symbol_order symbol b.books }
    else b

-- Gives back the slot and the id of an order that its level refused.
unfoldable pub abandon : Order → ℕ → OrderBook → OrderBook
unfolding release_slot
abandon order slot b =
    release_slot (record b { index = (OrderIndex.erase b.index order.id).0 }) slot

-- Inside `try`: the slot holds the order and the index has its id.
unfoldable pub add_to_book : Order → ℕ → OrderBook → Answer
unfolding add_to drop_empty_book abandon
add_to_book order slot b =
    let book = value_of (OrderedMap.find symbol_order order.symbol b.books) new_symbol_book in
    let opened = OrderedMap.try_emplace symbol_order order.symbol new_symbol_book b.books in
    let ((levels, slots), added) = add_to order slot (levels_of order.side book) b.slots in
    let book' = with_levels order.side levels book in
    let b' = record b {
      slots = slots;
      books = OrderedMap.assign symbol_order order.symbol book' opened;
    } in
    if added
    then (b', ok true)
    else (abandon order slot (drop_empty_book order.symbol book' b'), ok false)

-- A slot is allocated.
unfoldable pub add_in_slot : Order → ℕ → OrderBook → Answer
unfolding add_to_book release_slot
add_in_slot order slot b =
    let filled = record b {
      slots = set b.slots slot (record (slot_at b.slots slot) { order = order });
    } in
    let (index, inserted) = OrderIndex.insert filled.index order.id slot in
    let indexed = record filled { index = index } in
    if inserted then add_to_book order slot indexed else (release_slot indexed slot, ok false)

unfoldable pub add : OrderBook → AddEvent → Answer
unfolding allocate_slot add_in_slot
add b event =
    let order = event.order in
    if order.id == 0 || order.quantity == 0 || not (is_absent (OrderIndex.find b.index order.id))
    then (b, ok false)
    else let (b', slot) = allocate_slot b in
      if slot == invalid_slot then (b', ok false) else add_in_slot order slot b'

unfoldable pub erase_empty_level : OrderBook → Order → OrderBook
unfolding drop_empty_in drop_empty_book
erase_empty_level b order = elim (OrderedMap.find symbol_order order.symbol b.books) [
  | none ↦ b
  | some book ↦
      let book' = drop_empty_in order book in
      drop_empty_book order.symbol book'
        (record b { books = OrderedMap.assign symbol_order order.symbol book' b.books })
]

-- `remove_order` from the slot on
unfoldable pub remove_slot : ℕ → ℕ → OrderBook → Answer
unfolding level_of put_level unlink release_slot erase_empty_level
remove_slot id idx b =
    let order = (slot_at b.slots idx).order in
    elim (level_of b order) [
      | none ↦ (b, throw out_of_range)
      | some level ↦
          let lowered = record level {
            total_quantity = (level.total_quantity + (2 ^ 32 - order.quantity)) % 2 ^ 32;
          } in
          let (slots, level') = unlink b.slots lowered idx in
          let unlinked = put_level (record b { slots = slots }) order level' in
          let forgotten = record unlinked { index = (OrderIndex.erase b.index id).0 } in
          (erase_empty_level (release_slot forgotten idx) order, ok true)
    ]

unfoldable pub remove_order : OrderBook → ℕ → Answer
unfolding remove_slot
remove_order b id = elim (OrderIndex.find b.index id) [
  | none ↦ (b, ok false)
  | some idx ↦ remove_slot id idx b
]

-- The rest of `execute` and of `cancel`: shares go from the level and from the order, and an order
-- without shares goes too.
unfoldable pub reduce_slot : ℕ → ℕ → ℕ → OrderBook → Answer
unfolding level_of put_level remove_order
reduce_slot id shares idx b =
    let slot = slot_at b.slots idx in
    let order = slot.order in
    let left = order.quantity - shares in
    if ltb order.quantity shares then (b, ok false) else elim (level_of b order) [
      | none ↦ (b, throw out_of_range)
      | some level ↦
          let lowered = record level {
            total_quantity = (level.total_quantity + (2 ^ 32 - shares)) % 2 ^ 32;
          } in
          let reduced = record slot { order = record order { quantity = left } } in
          let b' = put_level (record b { slots = set b.slots idx reduced }) order lowered in
          if left == 0 then remove_order b' id else (b', ok true)
    ]

unfoldable pub execute : OrderBook → ExecuteEvent → Answer
unfolding reduce_slot
execute b event = elim (OrderIndex.find b.index event.order_id) [
  | none ↦ (b, ok false)
  | some idx ↦
      if event.executed_shares == 0
      then (b, ok false)
      else reduce_slot event.order_id event.executed_shares idx b
]

unfoldable pub cancel : OrderBook → CancelEvent → Answer
unfolding reduce_slot
cancel b event = elim (OrderIndex.find b.index event.order_id) [
  | none ↦ (b, ok false)
  | some idx ↦
      if event.canceled_shares == 0
      then (b, ok false)
      else reduce_slot event.order_id event.canceled_shares idx b
]

-- `OrderBook::erase`
unfoldable pub erase_order : OrderBook → DeleteEvent → Answer
unfolding remove_order
erase_order b event = remove_order b event.order_id
