-- ===== src/Book/Link.antt =====
-- `link_at_tail` puts a slot at the end of a level's list.
use market_wire.Prelude.{
  ℕ, ◌<◌, ◌≤◌, ◌≡◌, ◌≢◌, refl, ◌∙◌, sym, ap, true, false, List, [], ◌∷◌, ◌++◌, arith, All,
  All-append, length, length-set, set, ◌==◌, ==_iff,
}
use market_wire.OrderIndex.{invalid_slot}
use market_wire.Book.{PriceLevel, Slot, slot_at, link_at_tail}
use market_wire.Book.Chain.{
  Distinct, Holds, set_here, set_elsewhere, set_order, Segment-set, Segment-append, last_of,
  Segment-inside, Segment-relink,
}

Distinct-append_one :
    (xs : List ℕ) (i : ℕ) → All (λ y. i ≢ y) xs → Distinct xs → Distinct (xs ++ (i ∷ []))
Distinct-append_one [] i free d = (tt, tt)
Distinct-append_one (x ∷ xs) i free d = (
  All-append (λ y. x ≢ y) xs (i ∷ []) d.0 ((λ e. free.0 (sym e)), tt),
  Distinct-append_one xs i free.1 d.1,
)

-- What linking a slot at the end of a level promises.
pub record Links (slots : List Slot) (slot : ℕ) (xs : List ℕ) (o : List Slot × PriceLevel)
    : Type 0 where
  pub holds : Holds o.0 o.1 (xs ++ (slot ∷ []))
  pub others : (j : ℕ) → slot ≢ j → All (λ y. j ≢ y) xs → slot_at o.0 j ≡ slot_at slots j
  pub orders : (j : ℕ) → (slot_at o.0 j).order ≡ (slot_at slots j).order
  pub size : length o.0 ≡ length slots

module _ (slots : List Slot) (level : PriceLevel) (slot : ℕ) (small : length slots ≤ invalid_slot)
    (inside : slot < length slots) where
  abbrev linked : Slot
  linked = record (slot_at slots slot) { prev = level.tail; next = invalid_slot }

  abbrev slots1 : List Slot
  slots1 = set slots slot linked

  link_first :
      level.tail ≡ invalid_slot
      → Links slots slot [] (slots1, record level { head = slot; tail = slot })
  link_first empty =
      let here = set_here slots slot linked inside in
      record {
        holds = record {
          segment = (
            refl,
            rw (length-set slots slot linked) inside,
            ap (λ t. t.prev) here ∙ empty,
            (ap (λ t. t.next) here, refl),
          );
          distinct = (tt, tt);
        };
        others = λ j ne _. set_elsewhere slots slot linked inside j ne;
        orders = set_order slots slot linked inside refl;
        size = length-set slots slot linked;
      }

  link_after :
      (x : ℕ) (xs : List ℕ)
      → Holds slots level (x ∷ xs)
      → All (λ y. slot ≢ y) (x ∷ xs)
      → Links slots slot (x ∷ xs) (
        set slots1 level.tail (record (slot_at slots1 level.tail) { next = slot }),
        record level { tail = slot },
      )
  link_after x xs h free =
      let tail_in =
        last_of (λ j. j < length slots) slots _ _ x xs level.tail _ h.segment
          (Segment-inside slots _ _ (x ∷ xs) level.tail _ h.segment) in
      let tail_free : slot ≢ level.tail =
        last_of (λ j. slot ≢ j) slots _ _ x xs level.tail _ h.segment free in
      let size1 = length-set slots slot linked in
      let first = Segment-set slots slot linked inside _ _ (x ∷ xs) level.tail _ free h.segment in
      let relinked = record (slot_at slots1 level.tail) { next = slot } in
      let in1 : level.tail < length slots1 = rw size1 tail_in in
      let front = Segment-relink slots1 _ _ x xs level.tail _ slot h.distinct first in
      let here =
        set_elsewhere slots1 level.tail relinked in1 slot (λ e. tail_free (sym e))
        ∙ set_here slots slot linked inside in
      let size2 : length (set slots1 level.tail relinked) ≡ length slots =
        length-set slots1 level.tail relinked ∙ size1 in
      record {
        holds = record {
          segment =
              Segment-append _ _ _ (x ∷ xs) (slot ∷ []) level.tail slot slot invalid_slot front
                (refl, rw size2 inside, ap (λ t. t.prev) here, (ap (λ t. t.next) here, refl));
          distinct = Distinct-append_one (x ∷ xs) slot free h.distinct;
        };
        others = λ j ne away.
            set_elsewhere slots1 level.tail relinked in1 j
              (λ e. last_of (λ y. j ≢ y) slots _ _ x xs level.tail _ h.segment away (sym e))
            ∙ set_elsewhere slots slot linked inside j ne;
        orders = λ j.
            set_order slots1 level.tail relinked in1 refl j
            ∙ set_order slots slot linked inside refl j;
        size = size2;
      }

  link_cases :
      (xs : List ℕ)
      → Holds slots level xs
      → All (λ y. slot ≢ y) xs
      → Links slots slot xs (link_at_tail slots level slot)
  unfolding link_at_tail
  link_cases [] h free =
      let empty : (level.tail == invalid_slot) ≡ true = (==_iff _ _).1 h.segment.1 in
      rw empty (link_first h.segment.1)
  link_cases (x ∷ xs) h free =
      let tail_in =
        last_of (λ j. j < length slots) slots _ _ x xs level.tail _ h.segment
          (Segment-inside slots _ _ (x ∷ xs) level.tail _ h.segment) in
      let full : (level.tail == invalid_slot) ≡ false = ground arith in
      rw full (link_after x xs h free)

-- Take an arena of at most 2^32 - 1 slots and a level that holds the slots `xs`, linked both ways and all
-- distinct. Linking another slot of the arena puts it behind all of `xs`, leaves every slot that is
-- neither it nor one of `xs` as it was, and keeps the order in every slot and the size of the arena.
pub link_at_tail-Links :
    (slots : List Slot) (level : PriceLevel) (slot : ℕ) (xs : List ℕ)
    → length slots ≤ invalid_slot
    → slot < length slots
    → Holds slots level xs
    → All (λ y. slot ≢ y) xs
    → Links slots slot xs (link_at_tail slots level slot)
link_at_tail-Links slots level slot xs small inside h free =
    link_cases slots level slot small inside xs h free
