-- ===== src/Book/Arena/Feeds.antt =====
-- The arena and the index under any feed of events.
use market_wire.Prelude.{
  ℕ, zero, suc, ◌+◌, ◌^◌, ◌<◌, ◌≡◌, ◌≢◌, refl, ◌∙◌, sym, ap, false, some, List, [], ◌∷◌, arith,
  ◌==◌, Bool-cases, Option-cases, inl, inr, length, leb, ◌++◌, All, length-append, append_assoc,
}
use market_wire.Prelude.Result.{ok, undefined}
use market_wire.OrderIndex
use market_wire.OrderIndex.{FlatOrderIndex, invalid_slot, new_index}
use market_wire.OrderIndex.Capacity.{new_index-IsMade, new_index_empty}
use market_wire.Book.{Slot, OrderBook, slot_at, free_slots, new_slot, new_book}
use market_wire.Book.Apply.{apply}
use market_wire.Book.Arena.{IsArena, FreeList}
use market_wire.Book.Arena.Additions.{add-HasArena}
use market_wire.Book.Arena.Events.{HasArena, remove_order-HasArena, reduce_slot-HasArena}
use market_wire.Book.Arena.Replacements.{KeepsArena, replace-KeepsArena}
use market_wire.Book.Chain.{Distinct}
use market_wire.Book.Views.{find_order}
use market_wire.Book.Orders.{execute, cancel, erase_order}
use market_wire.Events.{
  Order, MarketEvent, ExecuteEvent, CancelEvent, add_event, execute_event, cancel_event,
  delete_event, replace_event,
}

execute-HasArena :
    (b : OrderBook) (event : ExecuteEvent) → HasArena b → HasArena (execute b event).0
unfolding execute
execute-HasArena b event h = elim (Option-cases (OrderIndex.find b.index event.order_id)) [
  | inl e ↦ rw (e, execute) h
  | inr (idx, e) ↦ elim (Bool-cases (event.executed_shares == 0)) [
    | inl z ↦ rw (e, z, execute) h
    | inr nz ↦
        rw (e, nz, execute) (reduce_slot-HasArena event.order_id event.executed_shares idx b h)
  ]
]

cancel-HasArena : (b : OrderBook) (event : CancelEvent) → HasArena b → HasArena (cancel b event).0
unfolding cancel
cancel-HasArena b event h = elim (Option-cases (OrderIndex.find b.index event.order_id)) [
  | inl e ↦ rw (e, cancel) h
  | inr (idx, e) ↦ elim (Bool-cases (event.canceled_shares == 0)) [
    | inl z ↦ rw (e, z, cancel) h
    | inr nz ↦
        rw (e, nz, cancel) (reduce_slot-HasArena event.order_id event.canceled_shares idx b h)
  ]
]

-- Applying an event, with whatever outcome but undefined behaviour, keeps the arena and the index.
pub apply-HasArena : (b : OrderBook) (e : MarketEvent) → HasArena b → KeepsArena (apply b e)
unfolding apply erase_order
apply-HasArena b (add_event e) h = λ ne. add-HasArena b e h
apply-HasArena b (execute_event e) h = λ ne. execute-HasArena b e h
apply-HasArena b (cancel_event e) h = λ ne. cancel-HasArena b e h
apply-HasArena b (delete_event e) h = λ ne. remove_order-HasArena b e.order_id h
apply-HasArena b (replace_event e) h = replace-KeepsArena b e h

get_or-append_length :
    (pre rest : List Slot) (s : Slot) → slot_at (pre ++ (s ∷ rest)) (length pre) ≡ s
get_or-append_length [] rest s = refl
get_or-append_length (x ∷ pre) rest s = get_or-append_length pre rest s

-- The numbers from `i` on.
upto : ℕ → ℕ → List ℕ
upto i zero = []
upto i (suc n) = i ∷ upto (i + 1) n

length-upto : (i n : ℕ) → length (upto i n) ≡ n
unfolding upto
length-upto i zero = refl
length-upto i (suc n) = ap suc (length-upto (i + 1) n)

upto_later : (j i n : ℕ) → j < i → All (λ y. j ≢ y) (upto i n)
unfolding upto
upto_later j i zero lt = tt
upto_later j i (suc n) lt = ((λ e. ground (arith, e)), upto_later j (i + 1) n (omega arith))

Distinct-upto : (i n : ℕ) → Distinct (upto i n)
unfolding upto
Distinct-upto i zero = tt
Distinct-upto i (suc n) = (upto_later i (i + 1) n (omega arith), Distinct-upto (i + 1) n)

length-free_slots : (n i : ℕ) → length (free_slots n i) ≡ n
unfolding free_slots
length-free_slots zero i = refl
length-free_slots (suc zero) i = refl
length-free_slots (suc (suc n)) i = ap suc (length-free_slots (suc n) (i + 1))

dead_slots : (n i v : ℕ) → (slot_at (free_slots n i) v).alive ≡ false
unfolding free_slots
dead_slots zero i v = refl
dead_slots (suc zero) i zero = refl
dead_slots (suc zero) i (suc v) = refl
dead_slots (suc (suc n)) i zero = refl
dead_slots (suc (suc n)) i (suc v) = dead_slots (suc n) (i + 1) v

FreeList-free_slots :
    (n : ℕ) (pre : List Slot) (i : ℕ) (slots : List Slot)
    → i ≡ length pre
    → slots ≡ pre ++ free_slots (suc n) i
    → FreeList slots i (upto i (suc n))
unfolding free_slots upto
FreeList-free_slots zero pre i slots e whole =
    let here : slot_at slots i ≡ new_slot = rw (whole, e) (get_or-append_length pre [] new_slot) in
    (
      refl,
      omega (arith, e, ap length whole, length-append {0} pre (new_slot ∷ [])),
      ap (λ t. t.alive) here,
      ap (λ t. t.next_free) here,
    )
FreeList-free_slots (suc n) pre i slots e whole =
    let s = record new_slot { next_free = i + 1 } in
    let rest = free_slots (suc n) (i + 1) in
    let here : slot_at slots i ≡ s =
      ap (λ t. slot_at t i) whole
      ∙ ap (slot_at (pre ++ (s ∷ rest))) e
      ∙ get_or-append_length pre rest s in
    let link : (slot_at slots i).next_free ≡ i + 1 = ap (λ t. t.next_free) here in
    (
      refl,
      omega (arith, e, ap length whole, length-append {0} pre (s ∷ rest)),
      ap (λ t. t.alive) here,
      rw link (
          FreeList-free_slots n (pre ++ (s ∷ [])) (i + 1) slots
            (omega (arith, e, length-append {0} pre (s ∷ [])))
            (whole ∙ sym (append_assoc pre (s ∷ []) rest))),
    )

new_book-IsArena :
    (n : ℕ)
    → suc n < invalid_slot
    → IsArena
        (record {
          slots = free_slots (suc n) 0;
          free_head = 0;
          index = new_index (suc n);
          books = [];
        })
        (upto 0 (suc n))
unfolding new_index
new_book-IsArena n fits =
    let size = length-free_slots (suc n) 0 in
    let small : suc n < 2 ^ 32 = omega arith in
    record {
      small = rw size (omega arith);
      made = rw size (new_index-IsMade (suc n) small);
      chain = FreeList-free_slots n [] 0 (free_slots (suc n) 0) refl refl;
      distinct = Distinct-upto 0 (suc n);
      count = rw (size, length-upto 0 (suc n)) (omega arith);
      ids = λ id v found. cc (sym (new_index_empty (suc n) small id) ∙ found);
      known = λ v inside alive. cc (sym (dead_slots (suc n) 0 v) ∙ alive);
    }

new_book-HasArena : (m : ℕ) (b : OrderBook) → new_book m ≡ ok b → HasArena b
unfolding new_book
new_book-HasArena zero b e = absurd cc
new_book-HasArena (suc n) b e =
    let some_orders : (suc n == 0) ≡ false = ground arith in
    elim (Bool-cases (leb invalid_slot (suc n))) [
      | inl big ↦ absurd (cc (rw (some_orders, big) at e))
      | inr fits ↦
          let made = rw (some_orders, fits) at e in
          let is : record {
            slots = free_slots (suc n) 0;
            free_head = 0;
            index = new_index (suc n);
            books = [];
          }
              ≡ b =
            cc in
          rw (sym is) (upto 0 (suc n), new_book-IsArena n (ground arith))
    ]

-- The books that a book made for `m` orders can become, by events without undefined behaviour.
pub data Reachable (m : ℕ) : OrderBook → Type 0 where
  made : {b : OrderBook} → new_book m ≡ ok b → Reachable m b
  applied :
      {b : OrderBook} (e : MarketEvent)
      → Reachable m b
      → (apply b e).1 ≢ undefined
      → Reachable m (apply b e).0

-- In every book that a new book can become by events, the free list holds distinct slots that are not in use,
-- the index finds exactly the orders of the slots in use, each under its own id, and there are as many ids and
-- free slots as there are slots, so that none is lost.
pub Reachable-HasArena : (m : ℕ) (b : OrderBook) → Reachable m b → HasArena b
Reachable-HasArena m b (made e) = new_book-HasArena m b e
Reachable-HasArena m b (applied {b = before} e r ne) =
    apply-HasArena before e (Reachable-HasArena m before r) ne

-- In a book that a feed of events leads to, an order that is found under an id has that id.
pub find_order-Reachable :
    (m : ℕ) (b : OrderBook) (id : ℕ) (order : Order)
    → Reachable m b
    → find_order b id ≡ some order
    → order.id ≡ id
unfolding find_order
find_order-Reachable m b id order r found =
    let (free, h) = Reachable-HasArena m b r in
    elim (Option-cases (OrderIndex.find b.index id)) [
      | inl e ↦ absurd (cc (rw (e, find_order) at found))
      | inr (v, e) ↦
          let same : (slot_at b.slots v).order ≡ order = cc (rw (e, find_order) at found) in
          ap (λ o. o.id) (sym same) ∙ (h.ids id v e).named
    ]
