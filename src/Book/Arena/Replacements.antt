-- ===== src/Book/Arena/Replacements.antt =====
-- Replacing an order keeps the arena and the index.
use market_wire.Prelude.{
  ℕ, ◌+◌, ◌-◌, ◌%◌, ◌^◌, ◌<◌, ◌≡◌, ◌≢◌, refl, ◌∙◌, ap, Bool, Option, none, some, not, List, arith,
  length, ltb, ◌==◌, ◌||◌, Bool-cases, Option-cases, inl, inr,
}
use market_wire.Prelude.Result.{undefined}
use market_wire.OrderIndex
use market_wire.OrderIndex.{FlatOrderIndex, invalid_slot}
use market_wire.Book.{PriceLevel, SymbolBook, Slot, OrderBook, slot_at, new_level, unlink}
use market_wire.Book.Arena.{Keeps, link_at_tail-Keeps, unlink-Keeps, IsArena}
use market_wire.Book.Arena.Additions.{absent_of_is_absent}
use market_wire.Book.Arena.Events.{HasArena, IsArena-books}
use market_wire.Book.Arena.Insertions.{rename-IsArena}
use market_wire.Book.Arena.Moves.{Alters, Alters-set, inserted_lem}
use market_wire.Book.Chain.{set_here}
use market_wire.Book.Levels.{levels_of, value_of, is_absent, max_quantity, price_order}
use market_wire.Book.Orders.{Answer}
use market_wire.Book.Replace.{
  rewrite_order, SideBook, replace_same, move_order, replace_other, known, replace_in, close_side,
  replace_slot, replace,
}
use market_wire.Events.{Order, ReplaceEvent, symbol_order}
use market_wire.OrderedMap
use market_wire.OrderedMap.{OrderedMap}

-- A slot's order is rewritten between an unlinking and a linking.
record Renames (slots slots' : List Slot) (v id : ℕ) : Type 0 where
  alters : Alters slots slots' v
  alive : (slot_at slots' v).alive ≡ (slot_at slots v).alive
  named : (slot_at slots' v).order.id ≡ id

rewrite_order-Renames :
    (slots s1 s3 : List Slot) (idx : ℕ) (event : ReplaceEvent)
    → idx < length slots
    → Keeps slots s1
    → Keeps (rewrite_order s1 idx event) s3
    → Renames slots s3 idx event.new_order_id
unfolding rewrite_order
rewrite_order-Renames slots s1 s3 idx event inside k1 k3 =
    let slot = slot_at s1 idx in
    let order = record (slot.order) {
      id = event.new_order_id;
      quantity = event.new_quantity;
      price = event.new_price;
    } in
    let s = record slot { order = order } in
    let inside1 : idx < length s1 = rw k1.size inside in
    let k2 = Alters-set s1 idx s inside1 in
    let here = set_here s1 idx s inside1 in
    record {
      alters = record {
        size = k3.size ∙ k2.size ∙ k1.size;
        others = λ j ne. k3.same j ∙ k2.others j ne ∙ k1.same j;
      };
      alive = ap (λ f. f.1) (k3.same idx) ∙ ap (λ t. t.alive) here ∙ ap (λ f. f.1) (k1.same idx);
      named = ap (λ f. f.0.0) (k3.same idx) ∙ ap (λ t. t.order.id) here;
    }

-- Only undefined behaviour loses the arena.
abbrev Kept : SideBook × Option Bool → Type 0
Kept (s, none) = Unit {0}
Kept (s, some answer) = HasArena s.1

module _ (event : ReplaceEvent) (idx : ℕ) (old : Order) (b : OrderBook) (free : List ℕ)
    (h : IsArena b free) (found : OrderIndex.find b.index event.old_order_id ≡ some idx)
    (absent : OrderIndex.find b.index event.new_order_id ≡ none) where
  renamed-HasArena :
      (slots : List Slot)
      → Renames b.slots slots idx event.new_order_id
      → HasArena (record b {
        slots = slots;
        index =
            (OrderIndex.erase
              (OrderIndex.insert b.index event.new_order_id idx).0
              event.old_order_id).0;
      })
  renamed-HasArena slots r =
      let l = h.ids event.old_order_id idx found in
      (
        free,
        rename-IsArena b free h event.old_order_id event.new_order_id idx found absent slots b.books
            r.alters (r.alive ∙ l.alive) r.named,
      )

  inside : idx < length b.slots
  inside = (h.ids event.old_order_id idx found).inside

  replace_same-Kept :
      (level : PriceLevel) (levels : OrderedMap ℕ PriceLevel)
      → Kept (known (replace_same event idx old level levels b))
  unfolding replace_same
  replace_same-Kept level levels =
      let without_old = (level.total_quantity + (2 ^ 64 - old.quantity)) % 2 ^ 64 in
      let total = (without_old + event.new_quantity) % 2 ^ 64 in
      let u = unlink b.slots level idx in
      let raised = record (u.1) { total_quantity = total % 2 ^ 32 } in
      let slots2 = rewrite_order u.0 idx event in
      let r =
        rewrite_order-Renames b.slots u.0 _ idx event inside (unlink-Keeps b.slots level idx)
          (link_at_tail-Keeps slots2 raised idx) in
      let taken = inserted_lem b free h event.new_order_id idx absent in
      elim (Bool-cases (ltb max_quantity total)) [
        | inl e ↦ rw e (free, h)
        | inr e ↦ rw (e, taken) (renamed-HasArena _ r)
      ]

  move_order-HasArena :
      (level target : PriceLevel) (opened : OrderedMap ℕ PriceLevel)
      → HasArena
          (move_order event idx old level target opened
            (record b { index = (OrderIndex.insert b.index event.new_order_id idx).0 })).1
  unfolding move_order
  move_order-HasArena level target opened =
      let u = unlink b.slots level idx in
      let slots2 = rewrite_order u.0 idx event in
      let raised = record target {
        total_quantity = (target.total_quantity + event.new_quantity) % 2 ^ 32;
      } in
      renamed-HasArena _ (
        rewrite_order-Renames b.slots u.0 _ idx event inside (unlink-Keeps b.slots level idx)
          (link_at_tail-Keeps slots2 raised idx))

  replace_other-Kept :
      (old_level : Option PriceLevel) (levels : OrderedMap ℕ PriceLevel)
      → Kept (replace_other event idx old old_level levels b)
  unfolding replace_other
  replace_other-Kept none levels =
      let target =
        value_of (OrderedMap.find (price_order old.side) event.new_price levels) new_level in
      let taken = inserted_lem b free h event.new_order_id idx absent in
      elim (Bool-cases (ltb (max_quantity - target.total_quantity) event.new_quantity)) [
        | inl e ↦ rw e (free, h)
        | inr e ↦ rw (e, taken) tt
      ]
  replace_other-Kept (some level) levels =
      let target =
        value_of (OrderedMap.find (price_order old.side) event.new_price levels) new_level in
      let taken = inserted_lem b free h event.new_order_id idx absent in
      elim (Bool-cases (ltb (max_quantity - target.total_quantity) event.new_quantity)) [
        | inl e ↦ rw e (free, h)
        | inr e ↦
            rw (e, taken)
              (move_order-HasArena level target
                (OrderedMap.try_emplace (price_order old.side) event.new_price new_level levels))
      ]

  replace_in-Kept : (levels : OrderedMap ℕ PriceLevel) → Kept (replace_in event idx old levels b)
  unfolding replace_in
  replace_in-Kept levels =
      let sought = OrderedMap.find (price_order old.side) old.price levels in
      elim (Bool-cases (old.price == event.new_price)) [
        | inr e ↦ rw e (replace_other-Kept sought levels)
        | inl e ↦ elim (Option-cases sought) [
          | inl n ↦ rw (e, n) tt
          | inr (level, s) ↦ rw (e, s) (replace_same-Kept level levels)
        ]
      ]

abbrev pub KeepsArena : Answer → Type 0
KeepsArena (b, answer) = answer ≢ undefined → HasArena b

close_side-KeepsArena :
    (old : Order) (book : SymbolBook) (s : SideBook × Option Bool)
    → Kept s
    → KeepsArena (close_side old book s)
unfolding close_side
close_side-KeepsArena old book ((levels, b), none) k = λ ne. absurd (ne refl)
close_side-KeepsArena old book ((levels, b), some answer) (free, h) =
    λ ne. (free, IsArena-books b free _ h)

replace_slot-KeepsArena :
    (event : ReplaceEvent) (idx : ℕ) (b : OrderBook) (free : List ℕ)
    → IsArena b free
    → OrderIndex.find b.index event.old_order_id ≡ some idx
    → OrderIndex.find b.index event.new_order_id ≡ none
    → KeepsArena (replace_slot event idx b)
unfolding replace_slot
replace_slot-KeepsArena event idx b free h found absent =
    let old = (slot_at b.slots idx).order in
    elim (Option-cases (OrderedMap.find symbol_order old.symbol b.books)) [
      | inl e ↦ rw (e, replace_slot) (λ ne. (free, h))
      | inr (book, e) ↦
          rw (e, replace_slot)
            (close_side-KeepsArena old book _
              (replace_in-Kept event idx old b free h found absent (levels_of old.side book)))
    ]

pub replace-KeepsArena :
    (b : OrderBook) (event : ReplaceEvent) → HasArena b → KeepsArena (replace b event)
unfolding replace
replace-KeepsArena b event (free, h) =
    let sought = OrderIndex.find b.index event.new_order_id in
    elim (Option-cases (OrderIndex.find b.index event.old_order_id)) [
      | inl e ↦ rw (e, replace) (λ ne. (free, h))
      | inr (idx, e) ↦
          elim (Bool-cases
            (event.new_order_id == 0 || event.new_quantity == 0 || not (is_absent sought))) [
              | inl bad ↦ rw (e, bad, replace) (λ ne. (free, h))
              | inr fine ↦
                  rw (e, fine, replace)
                    (replace_slot-KeepsArena event idx b free h e
                      (absent_of_is_absent sought (ground arith)))
            ]
    ]
