-- ===== src/Book/Tests.antt =====
-- A book for three orders, run through a feed of events.
use market_wire.Prelude.{ℕ, ◌≡◌, ◌≢◌, refl, some, true, false, List, [], ◌∷◌}
use market_wire.Prelude.Result.{ok, undefined}
use market_wire.Events.{
  Symbol, Order, Side, buy, sell, EventMeta, MarketEvent, AddEvent, add_event, execute_event,
  replace_event, symbol_order,
}
use market_wire.OrderIndex
use market_wire.OrderIndex.{invalid_slot, new_index}
use market_wire.OrderedMap
use market_wire.Book.Arena.Events.{HasArena}
use market_wire.Book.Arena.Accepts.{accepts, add-accepts}
use market_wire.Book.Orders.{add}
use market_wire.Book.Arena.Feeds.{
  Reachable, made, applied, Reachable-HasArena, find_order-Reachable,
}
use market_wire.Book.{OrderBook, new_book, free_slots}
use market_wire.Book.Apply.{apply}
use market_wire.Book.Views.{find_order, LevelSnapshot, bid_levels, best_bid, best_ask}

abbrev meta : EventMeta
meta = record { stock_locate = 1; tracking_number = 0; timestamp_ns = 5 }

abbrev symbol : Symbol
symbol = b'A' ∷ b'C' ∷ b'M' ∷ b'E' ∷ b' ' ∷ b' ' ∷ b' ' ∷ b' ' ∷ []

abbrev adds : ℕ → Side → ℕ → ℕ → MarketEvent
adds id side quantity price = add_event (record {
  meta = meta;
  order = record { id = id; symbol = symbol; side = side; quantity = quantity; price = price };
})

abbrev executes : ℕ → ℕ → MarketEvent
executes id shares = execute_event (record {
  meta = meta;
  order_id = id;
  executed_shares = shares;
  match_number = 0;
  has_execution_price = false;
  execution_price = 0;
  printable = true;
})

abbrev replaces : ℕ → ℕ → ℕ → ℕ → MarketEvent
replaces old new quantity price = replace_event (record {
  meta = meta;
  old_order_id = old;
  new_order_id = new;
  new_quantity = quantity;
  new_price = price;
})

abbrev start : OrderBook
start = record { slots = free_slots 3 0; free_head = 0; index = new_index 3; books = [] }

abbrev play : List MarketEvent → OrderBook → OrderBook
play [] b = b
play (e ∷ es) b = play es (apply b e).0

program : Unit {0}
unfolding free_slots new_index apply OrderIndex.find OrderIndex.insert OrderIndex.erase
    OrderedMap.find OrderedMap.erase OrderedMap.try_emplace OrderedMap.assign bid_levels best_bid
    best_ask symbol_order new_book
program = tt

makes : new_book 3 ≡ ok start
unfolding program
makes = refl

abbrev two_bids : List MarketEvent
two_bids = adds 7 buy 10 100 ∷ adds 8 buy 20 100 ∷ []

abbrev snapshot : ℕ → ℕ → List ℕ → LevelSnapshot
snapshot price total fifo = record { price = price; total_quantity = total; fifo_order_ids = fifo }

fifo_order : bid_levels (play two_bids start) symbol ≡ snapshot 100 30 (7 ∷ 8 ∷ []) ∷ []
unfolding program
fifo_order = refl

partial_execution :
    bid_levels (play (executes 7 4 ∷ []) (play two_bids start)) symbol
    ≡ snapshot 100 26 (7 ∷ 8 ∷ []) ∷ []
unfolding program
partial_execution = refl

full_execution :
    bid_levels (play (executes 7 10 ∷ []) (play two_bids start)) symbol
    ≡ snapshot 100 20 (8 ∷ []) ∷ []
unfolding program
full_execution = refl

loses_priority :
    bid_levels (play (replaces 7 9 5 100 ∷ []) (play two_bids start)) symbol
    ≡ snapshot 100 25 (8 ∷ 9 ∷ []) ∷ []
unfolding program
loses_priority = refl

moves_level :
    bid_levels (play (replaces 7 9 5 101 ∷ []) (play two_bids start)) symbol
    ≡ snapshot 101 5 (9 ∷ []) ∷ snapshot 100 20 (8 ∷ []) ∷ []
unfolding program
moves_level = refl

full_book :
    (apply (play (adds 9 sell 1 200 ∷ []) (play two_bids start)) (adds 10 sell 1 200)).1 ≡ ok false
unfolding program
full_book = refl

first_add : (apply start (adds 7 buy 10 100)).1 ≢ undefined
unfolding program
first_add e = cc

one_bid-Reachable : Reachable 3 (apply start (adds 7 buy 10 100)).0
one_bid-Reachable = applied (adds 7 buy 10 100) (made makes) first_add

Reachable-HasArena_example : HasArena (apply start (adds 7 buy 10 100)).0
Reachable-HasArena_example =
    Reachable-HasArena 3 (apply start (adds 7 buy 10 100)).0 one_bid-Reachable

abbrev bid : Order
bid = record { id = 7; symbol = symbol; side = buy; quantity = 10; price = 100 }

finds_bid : find_order (apply start (adds 7 buy 10 100)).0 7 ≡ some bid
unfolding program find_order
finds_bid = refl

find_order-Reachable_example : bid.id ≡ 7
find_order-Reachable_example =
    find_order-Reachable 3 (apply start (adds 7 buy 10 100)).0 7 bid one_bid-Reachable finds_bid

abbrev bid_event : AddEvent
bid_event = record { meta = meta; order = bid }

add-accepts_example : (add start bid_event).1 ≡ ok (accepts start bid)
add-accepts_example = add-accepts start bid_event (Reachable-HasArena 3 start (made makes))
