-- ===== src/Book.antt =====
-- include/efe/order_book.hpp and src/order_book.cpp: the limit order book. Orders live in an arena of
-- slots with a free list; the orders of one price are a doubly linked list through the arena, and
-- price levels and symbols are ordered maps.
-- `slots_[i]` is always a slot in range in the source; an index out of range reads a new slot in the
-- model, and a write there changes nothing. Failing allocations are not modelled, so the handlers
-- for them in `add` have no counterpart.
pub mod Levels
pub mod Orders
pub mod Replace
pub mod Apply
pub mod Views
pub mod Chain
pub mod Link
pub mod Unlink
pub mod Walk
pub mod Arena
mod Tests
mod Examples
use market_wire.Prelude.{
  ℕ, zero, suc, ◌+◌, ◌-◌, ◌*◌, ◌%◌, ◌^◌, Bool, true, false, Option, none, some, List, [], ◌∷◌, ltb,
  leb, ◌==◌, ◌||◌, not, if◌then◌else◌, length, get_or, set,
}
use market_wire.Prelude.Result.{Result, ok, throw, invalid_max_orders}
use market_wire.Events.{Symbol, Order, Side, buy, sell}
use market_wire.OrderIndex
use market_wire.OrderIndex.{FlatOrderIndex, invalid_slot, new_index}
use market_wire.OrderedMap.{OrderedMap}

pub record PriceLevel : Type 0 where
  pub total_quantity : ℕ
  pub head : ℕ
  pub tail : ℕ

pub record SymbolBook : Type 0 where
  pub bids : OrderedMap ℕ PriceLevel
  pub asks : OrderedMap ℕ PriceLevel

pub record Slot : Type 0 where
  pub order : Order
  pub prev : ℕ
  pub next : ℕ
  pub next_free : ℕ
  pub alive : Bool

pub record OrderBook : Type 0 where
  pub slots : List Slot
  pub free_head : ℕ
  pub index : FlatOrderIndex
  pub books : OrderedMap Symbol SymbolBook

-- `Order{}`
abbrev pub new_order : Order
new_order = record {
  id = 0;
  symbol = 0 ∷ 0 ∷ 0 ∷ 0 ∷ 0 ∷ 0 ∷ 0 ∷ 0 ∷ [];
  side = buy;
  quantity = 0;
  price = 0;
}

-- `Slot{}`
abbrev pub new_slot : Slot
new_slot = record {
  order = new_order;
  prev = invalid_slot;
  next = invalid_slot;
  next_free = invalid_slot;
  alive = false;
}

abbrev pub new_level : PriceLevel
new_level = record { total_quantity = 0; head = invalid_slot; tail = invalid_slot }

abbrev pub slot_at : List Slot → ℕ → Slot
slot_at slots i = get_or slots i new_slot

-- The constructor's loop, from slot `i` on for `n` slots: each points to the next, the last to none.
unfoldable pub free_slots : ℕ → ℕ → List Slot
free_slots zero i = []
free_slots (suc zero) i = new_slot ∷ []
free_slots (suc (suc n)) i = record new_slot { next_free = i + 1 } ∷ free_slots (suc n) (i + 1)

unfoldable pub new_book : ℕ → Result OrderBook
unfolding free_slots
new_book max_orders =
    if max_orders == 0 || leb invalid_slot max_orders
    then throw invalid_max_orders
    else ok (record {
      slots = free_slots max_orders 0;
      free_head = 0;
      index = new_index max_orders;
      books = [];
    })

unfoldable pub allocate_slot : OrderBook → OrderBook × ℕ
allocate_slot b =
    let slot = b.free_head in
    if slot == invalid_slot then (b, invalid_slot) else (
      record b {
        free_head = (slot_at b.slots slot).next_free;
        slots =
            set b.slots slot
              (record (slot_at b.slots slot) { next_free = invalid_slot; alive = true });
      },
      slot,
    )

unfoldable pub release_slot : OrderBook → ℕ → OrderBook
release_slot b slot = record b {
  slots = set b.slots slot (record new_slot { next_free = b.free_head });
  free_head = slot;
}

unfoldable pub link_at_tail : List Slot → PriceLevel → ℕ → List Slot × PriceLevel
link_at_tail slots level slot =
    let linked =
      set slots slot (record (slot_at slots slot) { prev = level.tail; next = invalid_slot }) in
    if level.tail == invalid_slot then (linked, record level { head = slot; tail = slot }) else (
      set linked level.tail (record (slot_at linked level.tail) { next = slot }),
      record level { tail = slot },
    )

-- The neighbours of a slot, or the ends of its level, forget it.
unfoldable pub unlink_before : List Slot → PriceLevel → ℕ → ℕ → List Slot × PriceLevel
unlink_before slots level prev next =
    if prev == invalid_slot
    then (slots, record level { head = next })
    else (set slots prev (record (slot_at slots prev) { next = next }), level)

unfoldable pub unlink_after : List Slot → PriceLevel → ℕ → ℕ → List Slot × PriceLevel
unlink_after slots level prev next =
    if next == invalid_slot
    then (slots, record level { tail = prev })
    else (set slots next (record (slot_at slots next) { prev = prev }), level)

unfoldable pub unlink : List Slot → PriceLevel → ℕ → List Slot × PriceLevel
unfolding unlink_before unlink_after
unlink slots level slot =
    let prev = (slot_at slots slot).prev in
    let next = (slot_at slots slot).next in
    let (slots1, level1) = unlink_before slots level prev next in
    let (slots2, level2) = unlink_after slots1 level1 prev next in
    (
      set slots2 slot (record (slot_at slots2 slot) { prev = invalid_slot; next = invalid_slot }),
      level2,
    )
