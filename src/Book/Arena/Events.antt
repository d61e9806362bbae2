-- ===== src/Book/Arena/Events.antt =====
-- Every event keeps the arena and the index.
use market_wire.Prelude.{
  ℕ, ◌+◌, ◌-◌, ◌%◌, ◌^◌, ◌≡◌, refl, some, List, ◌∷◌, set, ltb, ◌==◌, ◌&&◌, Bool-cases, Option-cases,
  inl, inr,
}
use market_wire.OrderIndex
use market_wire.OrderIndex.{FlatOrderIndex, invalid_slot}
use market_wire.Book.{PriceLevel, SymbolBook, OrderBook, slot_at, unlink}
use market_wire.Book.Arena.{Keeps-refl, Keeps-set, unlink-Keeps, IsArena}
use market_wire.Book.Arena.Moves.{IsArena-Keeps, release-IsArena}
use market_wire.Book.Levels.{level_of, put_level, drop_empty_in, is_nil}
use market_wire.Book.Orders.{
  drop_empty_book, erase_empty_level, remove_slot, remove_order, reduce_slot,
}
use market_wire.Events.{Symbol, Order, symbol_order}
use market_wire.OrderedMap
use market_wire.OrderedMap.{OrderedMap}

abbrev pub HasArena : OrderBook → Type 0
HasArena b = (free : List ℕ) × IsArena b free

pub IsArena-books :
    (b : OrderBook) (free : List ℕ) (books : OrderedMap Symbol SymbolBook)
    → IsArena b free
    → IsArena (record b { books = books }) free
IsArena-books b free books h = IsArena-Keeps b free b.slots books (Keeps-refl b.slots) h

-- Some handlers change the price levels only.
abbrev pub OnlyBooks : OrderBook → OrderBook → Type 0
OnlyBooks b b' = b' ≡ record b { books = b'.books }

pub put_level-OnlyBooks :
    (b : OrderBook) (order : Order) (level : PriceLevel) → OnlyBooks b (put_level b order level)
unfolding put_level
put_level-OnlyBooks b order level =
    elim (Option-cases (OrderedMap.find symbol_order order.symbol b.books)) [
      | inl e ↦ rw (e, put_level) refl
      | inr (book, e) ↦ rw (e, put_level) refl
    ]

pub drop_empty_book-OnlyBooks :
    (symbol : Symbol) (book : SymbolBook) (b : OrderBook)
    → OnlyBooks b (drop_empty_book symbol book b)
unfolding drop_empty_book
drop_empty_book-OnlyBooks symbol book b = elim (Bool-cases (is_nil book.bids && is_nil book.asks)) [
  | inl e ↦ rw e refl
  | inr e ↦ rw e refl
]

erase_empty_level-IsArena :
    (b : OrderBook) (order : Order) (free : List ℕ)
    → IsArena b free
    → IsArena (erase_empty_level b order) free
unfolding erase_empty_level
erase_empty_level-IsArena b order free h =
    elim (Option-cases (OrderedMap.find symbol_order order.symbol b.books)) [
      | inl e ↦ rw (e, erase_empty_level) h
      | inr (book, e) ↦
          let book' = drop_empty_in order book in
          let books = OrderedMap.assign symbol_order order.symbol book' b.books in
          let d = drop_empty_book-OnlyBooks order.symbol book' (record b { books = books }) in
          rw (e, erase_empty_level) (rw d (IsArena-books b free _ h))
    ]

remove_slot-HasArena :
    (id idx : ℕ) (b : OrderBook) (free : List ℕ)
    → IsArena b free
    → OrderIndex.find b.index id ≡ some idx
    → HasArena (remove_slot id idx b).0
unfolding remove_slot
remove_slot-HasArena id idx b free h found =
    let order = (slot_at b.slots idx).order in
    elim (Option-cases (level_of b order)) [
      | inl e ↦ rw (e, remove_slot) (free, h)
      | inr (level, e) ↦
          let lowered = record level {
            total_quantity = (level.total_quantity + (2 ^ 32 - order.quantity)) % 2 ^ 32;
          } in
          let u = unlink b.slots lowered idx in
          let p = put_level-OnlyBooks (record b { slots = u.0 }) order u.1 in
          let books = (put_level (record b { slots = u.0 }) order u.1).books in
          let kept = IsArena-Keeps b free u.0 books (unlink-Keeps b.slots lowered idx) h in
          let released =
            release-IsArena (record b { slots = u.0; books = books }) free kept id idx found in
          rw (e, remove_slot)
            (rw p (idx ∷ free, erase_empty_level-IsArena _ order (idx ∷ free) released))
    ]

pub remove_order-HasArena : (b : OrderBook) (id : ℕ) → HasArena b → HasArena (remove_order b id).0
unfolding remove_order
remove_order-HasArena b id (free, h) = elim (Option-cases (OrderIndex.find b.index id)) [
  | inl e ↦ rw (e, remove_order) (free, h)
  | inr (idx, e) ↦ rw (e, remove_order) (remove_slot-HasArena id idx b free h e)
]

pub reduce_slot-HasArena :
    (id shares idx : ℕ) (b : OrderBook) → HasArena b → HasArena (reduce_slot id shares idx b).0
unfolding reduce_slot
reduce_slot-HasArena id shares idx b (free, h) =
    let slot = slot_at b.slots idx in
    let order = slot.order in
    let left = order.quantity - shares in
    elim (Bool-cases (ltb order.quantity shares)) [
      | inl e ↦ rw e (free, h)
      | inr enough ↦ elim (Option-cases (level_of b order)) [
        | inl e ↦ rw (enough, e, reduce_slot) (free, h)
        | inr (level, e) ↦
            let lowered = record level {
              total_quantity = (level.total_quantity + (2 ^ 32 - shares)) % 2 ^ 32;
            } in
            let reduced = record slot { order = record order { quantity = left } } in
            let slots = set b.slots idx reduced in
            let p = put_level-OnlyBooks (record b { slots = slots }) order lowered in
            let books = (put_level (record b { slots = slots }) order lowered).books in
            let kept = IsArena-Keeps b free slots books (Keeps-set b.slots idx reduced refl) h in
            elim (Bool-cases (left == 0)) [
              | inl gone ↦
                  rw (enough, e, gone, reduce_slot) (remove_order-HasArena _ id (rw p (free, kept)))
              | inr some_left ↦ rw (enough, e, some_left, reduce_slot) (rw p (free, kept))
            ]
      ]
    ]
