-- ===== src/Book/Apply.antt =====
-- `OrderBook::apply`: one event, and a feed of events.
use market_wire.Events.{
  MarketEvent, add_event, execute_event, cancel_event, delete_event, replace_event,
}
use market_wire.Book.{OrderBook}
use market_wire.Book.Orders.{Answer, add, execute, cancel, erase_order}
use market_wire.Book.Replace.{replace}

unfoldable pub apply : OrderBook → MarketEvent → Answer
unfolding add execute cancel erase_order replace
apply b (add_event e) = add b e
apply b (execute_event e) = execute b e
apply b (cancel_event e) = cancel b e
apply b (delete_event e) = erase_order b e
apply b (replace_event e) = replace b e
