-- ===== src/Book/Views.antt =====
-- The reading methods of the book: `find`, `best_bid`, `best_ask`, the level snapshots and
-- `state_hash`.
use market_wire.Prelude.{
  ℕ, zero, suc, ◌+◌, ◌*◌, ◌/◌, ◌%◌, ◌^◌, bit_xor, Option, none, some, List, [], ◌∷◌, ◌==◌,
  if◌then◌else◌, length,
}
use market_wire.Events.{Symbol, Order, Side, buy, sell, symbol_order}
use market_wire.OrderIndex
use market_wire.OrderIndex.{invalid_slot}
use market_wire.OrderedMap
use market_wire.OrderedMap.{OrderedMap}
use market_wire.Book.{PriceLevel, SymbolBook, Slot, OrderBook, slot_at}
use market_wire.Book.Levels.{levels_of}

-- The order itself stands for the pointer to it.
unfoldable pub find_order : OrderBook → ℕ → Option Order
find_order b id = elim (OrderIndex.find b.index id) [
  | none ↦ none
  | some slot ↦ some (slot_at b.slots slot).order
]

abbrev pub first_key : OrderedMap ℕ PriceLevel → Option ℕ
first_key [] = none
first_key ((price, level) ∷ levels) = some price

unfoldable pub best_price : Side → OrderBook → Symbol → Option ℕ
best_price side b symbol = elim (OrderedMap.find symbol_order symbol b.books) [
  | none ↦ none
  | some book ↦ first_key (levels_of side book)
]

unfoldable pub best_bid : OrderBook → Symbol → Option ℕ
unfolding best_price
best_bid b symbol = best_price buy b symbol

unfoldable pub best_ask : OrderBook → Symbol → Option ℕ
unfolding best_price
best_ask b symbol = best_price sell b symbol

pub record LevelSnapshot : Type 0 where
  pub price : ℕ
  pub total_quantity : ℕ
  pub fifo_order_ids : List ℕ

-- The orders of a level, from slot `i` on. In a list that does not run in a circle no slot comes
-- twice, so one round for each slot of the arena is enough.
unfoldable pub orders_from : ℕ → List Slot → ℕ → List Order
orders_from zero slots i = []
orders_from (suc n) slots i =
    let rest = orders_from n slots (slot_at slots i).next in
    if i == invalid_slot then [] else (slot_at slots i).order ∷ rest

unfoldable pub orders_of : List Slot → PriceLevel → List Order
unfolding orders_from
orders_of slots level = orders_from (length slots) slots level.head

abbrev pub ids : List Order → List ℕ
ids [] = []
ids (order ∷ orders) = order.id ∷ ids orders

unfoldable pub snapshots : List Slot → OrderedMap ℕ PriceLevel → List LevelSnapshot
unfolding orders_of
snapshots slots [] = []
snapshots slots ((price, level) ∷ levels) =
    record {
      price = price;
      total_quantity = level.total_quantity;
      fifo_order_ids = ids (orders_of slots level);
    }
    ∷ snapshots slots levels

unfoldable pub side_levels : Side → OrderBook → Symbol → List LevelSnapshot
unfolding snapshots
side_levels side b symbol = elim (OrderedMap.find symbol_order symbol b.books) [
  | none ↦ []
  | some book ↦ snapshots b.slots (levels_of side book)
]

unfoldable pub bid_levels : OrderBook → Symbol → List LevelSnapshot
unfolding side_levels
bid_levels b symbol = side_levels buy b symbol

unfoldable pub ask_levels : OrderBook → Symbol → List LevelSnapshot
unfolding side_levels
ask_levels b symbol = side_levels sell b symbol

unfoldable pub hash_mix : ℕ → ℕ → ℕ
hash_mix h value =
    bit_xor h ((value + 0x9e3779b97f4a7c15 + h * 2 ^ 6 % 2 ^ 64 + h / 2 ^ 2) % 2 ^ 64)

unfoldable pub hash_orders : List Order → ℕ → ℕ
unfolding hash_mix
hash_orders [] h = h
hash_orders (order ∷ orders) h = hash_orders orders (hash_mix (hash_mix h order.id) order.quantity)

unfoldable pub hash_each_level : List Slot → OrderedMap ℕ PriceLevel → ℕ → ℕ
unfolding hash_orders orders_of hash_mix
hash_each_level slots [] h = h
hash_each_level slots ((price, level) ∷ levels) h = hash_each_level slots levels (
    hash_mix
      (hash_orders (orders_of slots level) (hash_mix (hash_mix h price) level.total_quantity))
      invalid_slot)

abbrev pub side_number : Side → ℕ
side_number buy = 0
side_number sell = 1

unfoldable pub hash_levels : List Slot → Side → OrderedMap ℕ PriceLevel → ℕ → ℕ
unfolding hash_each_level hash_mix
hash_levels slots side levels h =
    hash_each_level slots levels (hash_mix (hash_mix h (side_number side)) (length levels))

unfoldable pub hash_bytes : Symbol → ℕ → ℕ
unfolding hash_mix
hash_bytes [] h = h
hash_bytes (c ∷ bytes) h = hash_bytes bytes (hash_mix h c)

unfoldable pub hash_books : List Slot → OrderedMap Symbol SymbolBook → ℕ → ℕ
unfolding hash_bytes hash_levels
hash_books slots [] h = h
hash_books slots ((symbol, book) ∷ books) h =
    hash_books slots books
      (hash_levels slots sell book.asks (hash_levels slots buy book.bids (hash_bytes symbol h)))

unfoldable pub state_hash : OrderBook → ℕ
unfolding hash_books hash_mix
state_hash b = hash_books b.slots b.books (hash_mix 0xcbf29ce484222325 (length b.books))
