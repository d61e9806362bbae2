-- ===== src/Book/Examples.antt =====
-- The theorems about the levels of the book, at a level of two orders in an arena of three slots.
use market_wire.Prelude.{◌≡◌, refl, arith, List, [], ◌∷◌}
use market_wire.Book.{PriceLevel, Slot, new_slot, link_at_tail, unlink}
use market_wire.Book.Chain.{Holds}
use market_wire.Book.Unlink.{Unlinks, unlink-Unlinks}
use market_wire.Book.Views.{orders_of}
use market_wire.Book.Walk.{orders_at, orders_of-Holds}
use market_wire.Book.Link.{Links, link_at_tail-Links}

abbrev arena : List Slot
arena = record new_slot { next = 2 } ∷ new_slot ∷ record new_slot { prev = 0 } ∷ []

abbrev level : PriceLevel
level = record { total_quantity = 30; head = 0; tail = 2 }

level-Holds : Holds arena level (0 ∷ 2 ∷ [])
level-Holds = record {
  segment = (refl, omega arith, refl, (refl, omega arith, refl, (refl, refl)));
  distinct = (omega arith, (tt, tt));
}

link_at_tail-Links_example : Links arena 1 (0 ∷ 2 ∷ []) (link_at_tail arena level 1)
link_at_tail-Links_example =
    link_at_tail-Links arena level 1 (0 ∷ 2 ∷ []) (omega arith) (omega arith) level-Holds
      (omega arith)

unlink-Unlinks_example : Unlinks arena 2 (0 ∷ []) [] (unlink arena level 2)
unlink-Unlinks_example = unlink-Unlinks arena level (0 ∷ []) 2 [] (omega arith) level-Holds

orders_of-Holds_example : orders_of arena level ≡ orders_at arena (0 ∷ 2 ∷ [])
orders_of-Holds_example = orders_of-Holds arena level (0 ∷ 2 ∷ []) (omega arith) level-Holds
