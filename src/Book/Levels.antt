-- ===== src/Book/Levels.antt =====
-- The price levels of a symbol's two sides, and the levels that an order is added to or taken from.
use market_wire.Prelude.{
  ℕ, ◌+◌, ◌-◌, ◌%◌, ◌^◌, Bool, true, false, Option, none, some, List, [], ◌∷◌, ltb, ◌==◌,
  if◌then◌else◌,
}
use market_wire.Events.{Order, Side, buy, sell, symbol_order}
use market_wire.OrderIndex.{invalid_slot}
use market_wire.OrderedMap
use market_wire.OrderedMap.{KeyOrder, OrderedMap}
use market_wire.Recovery.Keys.{sequence_order, ltb_irreflexive, ltb_transitive, ltb_connected}
use market_wire.Book.{PriceLevel, SymbolBook, Slot, OrderBook, new_level, link_at_tail}

-- `std::greater<Price>`
abbrev pub descending : KeyOrder ℕ
descending = record {
  before = λ a b. ltb b a;
  irreflexive = ltb_irreflexive;
  transitive = λ a b c h k. ltb_transitive c b a k h;
  connected = λ a b h k. ltb_connected a b k h;
}

abbrev pub price_order : Side → KeyOrder ℕ
price_order buy = descending
price_order sell = sequence_order

abbrev pub levels_of : Side → SymbolBook → OrderedMap ℕ PriceLevel
levels_of buy book = book.bids
levels_of sell book = book.asks

abbrev pub with_levels : Side → OrderedMap ℕ PriceLevel → SymbolBook → SymbolBook
with_levels buy levels book = record book { bids = levels }
with_levels sell levels book = record book { asks = levels }

abbrev pub new_symbol_book : SymbolBook
new_symbol_book = record { bids = []; asks = [] }

abbrev pub max_quantity : ℕ
max_quantity = 2 ^ 32 - 1

abbrev pub is_nil {ℓ} : {A : Type ℓ} → List A → Bool
is_nil [] = true
is_nil (x ∷ xs) = false

abbrev pub value_of {ℓ} : {A : Type ℓ} → Option A → A → A
value_of none a = a
value_of (some x) a = x

abbrev pub is_absent {ℓ} : {A : Type ℓ} → Option A → Bool
is_absent none = true
is_absent (some x) = false

-- `if (inserted) levels.erase(level_it);`
unfoldable pub undo_level : Side → Bool → ℕ → OrderedMap ℕ PriceLevel → OrderedMap ℕ PriceLevel
undo_level side inserted price levels =
    if inserted then OrderedMap.erase (price_order side) price levels else levels

-- `add_to`: the levels and the slots that it leaves, and whether the order was added.
unfoldable pub add_to :
    Order → ℕ → OrderedMap ℕ PriceLevel → List Slot → (OrderedMap ℕ PriceLevel × List Slot) × Bool
unfolding undo_level link_at_tail
add_to order slot levels slots =
    let o = price_order order.side in
    let sought = OrderedMap.find o order.price levels in
    let level = value_of sought new_level in
    let opened = OrderedMap.try_emplace o order.price new_level levels in
    if ltb (max_quantity - level.total_quantity) order.quantity
    then ((undo_level order.side (is_absent sought) order.price opened, slots), false)
    else let raised = record level {
      total_quantity = (level.total_quantity + order.quantity) % 2 ^ 32;
    } in
      let (linked, level') = link_at_tail slots raised slot in
      ((OrderedMap.assign o order.price level' opened, linked), true)

-- `if (it != end() && it->second.head == kInvalidSlot) erase(it);`
unfoldable pub drop_empty : Side → ℕ → OrderedMap ℕ PriceLevel → OrderedMap ℕ PriceLevel
drop_empty side price levels = elim (OrderedMap.find (price_order side) price levels) [
  | none ↦ levels
  | some level ↦
      if level.head == invalid_slot
      then OrderedMap.erase (price_order side) price levels
      else levels
]

unfoldable pub drop_empty_in : Order → SymbolBook → SymbolBook
unfolding drop_empty
drop_empty_in order book =
    with_levels order.side (drop_empty order.side order.price (levels_of order.side book)) book

-- `books_.at(symbol)`, then `.at(price)` on the side, as one lookup; `none` is the exception.
unfoldable pub level_of : OrderBook → Order → Option PriceLevel
level_of b order = elim (OrderedMap.find symbol_order order.symbol b.books) [
  | none ↦ none
  | some book ↦ OrderedMap.find (price_order order.side) order.price (levels_of order.side book)
]

-- A write through the reference to that level.
unfoldable pub put_level : OrderBook → Order → PriceLevel → OrderBook
put_level b order level = elim (OrderedMap.find symbol_order order.symbol b.books) [
  | none ↦ b
  | some book ↦
      let levels =
        OrderedMap.assign (price_order order.side) order.price level (levels_of order.side book) in
      record b {
        books =
            OrderedMap.assign symbol_order order.symbol (with_levels order.side levels book)
              b.books;
      }
]
