-- ===== src/Book/Unlink.antt =====
-- `unlink` takes a slot out of a level's list, wherever it stands.
use market_wire.Prelude.{
  ℕ, ◌<◌, ◌≤◌, ◌≡◌, ◌≢◌, refl, ◌∙◌, sym, ap, true, false, List, [], ◌∷◌, ◌++◌, arith, All,
  All-append, length, length-set, set, ◌==◌, ==_iff,
}
use market_wire.OrderIndex.{invalid_slot}
use market_wire.Book.{PriceLevel, Slot, slot_at, unlink, unlink_before, unlink_after}
use market_wire.Book.Chain.{
  Segment, Distinct, Holds, set_here, set_elsewhere, set_order, Segment-set, Segment-append,
  last_of, Segment-inside, Segment-relink,
}

-- The slots before, and the slots after, with what stands between them.
Segment-split :
    (slots : List Slot) (before head : ℕ) (xs : List ℕ) (i : ℕ) (ys : List ℕ) (last after : ℕ)
    → Segment slots before head (xs ++ (i ∷ ys)) last after
    → Segment slots before head xs (slot_at slots i).prev i
      × (i < length slots)
      × Segment slots i (slot_at slots i).next ys last after
Segment-split slots before head [] i ys last after (here, inside, prev, rest) =
    ((here, prev), inside, rest)
Segment-split slots before head (x ∷ xs) i ys last after (here, inside, prev, rest) =
    let (front, inside_i, more) =
      Segment-split slots x (slot_at slots x).next xs i ys last after rest in
    ((here, inside, prev, front), inside_i, more)

All-split :
    (P : ℕ → Type 0) (xs : List ℕ) (i : ℕ) (ys : List ℕ)
    → All P (xs ++ (i ∷ ys))
    → All P xs × P i × All P ys
All-split P [] i ys p = (tt, p.0, p.1)
All-split P (x ∷ xs) i ys p = let (a, p_i, b) = All-split P xs i ys p.1 in ((p.0, a), p_i, b)

-- Three parts of a list, apart from each other.
record Apart (xs : List ℕ) (i : ℕ) (ys : List ℕ) : Type 0 where
  front : Distinct xs
  back : Distinct ys
  both : Distinct (xs ++ ys)
  not_front : All (λ y. i ≢ y) xs
  not_back : All (λ y. i ≢ y) ys
  cross : All (λ x. All (λ y. x ≢ y) ys) xs

Distinct-split : (xs : List ℕ) (i : ℕ) (ys : List ℕ) → Distinct (xs ++ (i ∷ ys)) → Apart xs i ys
Distinct-split [] i ys d = record {
  front = tt;
  back = d.1;
  both = d.1;
  not_front = tt;
  not_back = d.0;
  cross = tt;
}
Distinct-split (x ∷ xs) i ys d =
    let a = Distinct-split xs i ys d.1 in
    let (x_front, x_i, x_back) = All-split (λ y. x ≢ y) xs i ys d.0 in
    record {
      front = (x_front, a.front);
      back = a.back;
      both = (All-append (λ y. x ≢ y) xs ys x_front x_back, a.both);
      not_front = ((λ e. x_i (sym e)), a.not_front);
      not_back = a.not_back;
      cross = (x_back, a.cross);
    }

-- The first slot gets another predecessor.
Segment-rehead :
    (slots : List Slot) (before head y : ℕ) (ys : List ℕ) (last after to : ℕ)
    → All (λ z. y ≢ z) ys
    → Segment slots before head (y ∷ ys) last after
    → Segment
        (set slots head (record (slot_at slots head) { prev = to }))
        to
        head
        (y ∷ ys)
        last
        after
Segment-rehead slots before head y ys last after to free (here, inside, prev, rest) =
    let s = record (slot_at slots head) { prev = to } in
    let inside' : head < length slots = rw here inside in
    let changed : slot_at (set slots head s) y ≡ s =
      ap (slot_at (set slots head s)) (sym here) ∙ set_here slots head s inside' in
    let away : All (λ z. head ≢ z) ys = rw here free in
    let next : (slot_at (set slots head s) y).next ≡ (slot_at slots y).next =
      ap (λ t. t.next) changed ∙ ap (λ j. (slot_at slots j).next) here in
    (
      here,
      rw (length-set slots head s) inside,
      ap (λ t. t.prev) changed,
      rw next (Segment-set slots head s inside' y _ ys last after away rest),
    )

-- An end of a list, and the level that names it.
record Opened (slots : List Slot) (level : PriceLevel) (xs ys : List ℕ) (prev i next : ℕ)
    (o : List Slot × PriceLevel) : Type 0 where
  front : Segment o.0 invalid_slot o.1.head xs prev next
  back : Segment o.0 i next ys o.1.tail invalid_slot
  size : length o.0 ≡ length slots
  others : (j : ℕ) → All (λ y. j ≢ y) xs → slot_at o.0 j ≡ slot_at slots j
  orders : (j : ℕ) → (slot_at o.0 j).order ≡ (slot_at slots j).order

record Closed (slots : List Slot) (xs ys : List ℕ) (prev next : ℕ) (o : List Slot × PriceLevel)
    : Type 0 where
  front : Segment o.0 invalid_slot o.1.head xs prev next
  back : Segment o.0 prev next ys o.1.tail invalid_slot
  size : length o.0 ≡ length slots
  others : (j : ℕ) → All (λ y. j ≢ y) ys → slot_at o.0 j ≡ slot_at slots j
  orders : (j : ℕ) → (slot_at o.0 j).order ≡ (slot_at slots j).order

All-flip : (y : ℕ) (ys xs : List ℕ) → All (λ x. All (λ z. x ≢ z) (y ∷ ys)) xs → All (λ x. y ≢ x) xs
All-flip y ys [] a = tt
All-flip y ys (x ∷ xs) a = ((λ e. a.0.0 (sym e)), All-flip y ys xs a.1)

module _ (slots : List Slot) (level : PriceLevel) (small : length slots ≤ invalid_slot) where
  open_front :
      (xs : List ℕ) (i : ℕ) (ys : List ℕ) (prev next : ℕ)
      → Apart xs i ys
      → Segment slots invalid_slot level.head xs prev i
      → Segment slots i next ys level.tail invalid_slot
      → Opened slots level xs ys prev i next (unlink_before slots level prev next)
  unfolding unlink_before
  open_front [] i ys prev next a f b =
      let none_before : (prev == invalid_slot) ≡ true = (==_iff _ _).1 f.1 in
      rw none_before (record {
        front = (refl, f.1);
        back = b;
        size = refl;
        others = λ j _. refl;
        orders = λ j. refl;
      })
  open_front (x ∷ xs) i ys prev next a f b =
      let inside =
        last_of (λ j. j < length slots) slots _ _ x xs prev _ f
          (Segment-inside slots _ _ (x ∷ xs) prev _ f) in
      let some_before : (prev == invalid_slot) ≡ false = ground arith in
      let s = record (slot_at slots prev) { next = next } in
      let away = last_of (λ j. All (λ y. j ≢ y) ys) slots _ _ x xs prev _ f a.cross in
      rw some_before (record {
        front = Segment-relink slots _ _ x xs prev _ next a.front f;
        back = Segment-set slots prev s inside _ _ ys _ _ away b;
        orders = set_order slots prev s inside refl;
        size = length-set slots prev s;
        others = λ j free.
            set_elsewhere slots prev s inside j
              (λ e. last_of (λ y. j ≢ y) slots _ _ x xs prev _ f free (sym e));
      })

  close_back :
      (xs : List ℕ) (i : ℕ) (ys : List ℕ) (prev next : ℕ)
      → Apart xs i ys
      → Segment slots invalid_slot level.head xs prev next
      → Segment slots i next ys level.tail invalid_slot
      → Closed slots xs ys prev next (unlink_after slots level prev next)
  unfolding unlink_after
  close_back xs i [] prev next a f b =
      let none_after : (next == invalid_slot) ≡ true = (==_iff _ _).1 b.0 in
      rw none_after (record {
        front = f;
        back = (b.0, refl);
        size = refl;
        others = λ j _. refl;
        orders = λ j. refl;
      })
  close_back xs i (y ∷ ys) prev next a f b =
      let inside : next < length slots = rw (b.0) b.1 in
      let some_after : (next == invalid_slot) ≡ false = ground arith in
      let s = record (slot_at slots next) { prev = prev } in
      rw some_after (record {
        front = Segment-set slots next s inside _ _ xs _ _ (rw (b.0) (All-flip y ys xs a.cross)) f;
        back = Segment-rehead slots i next y ys _ _ prev a.back.0 b;
        orders = set_order slots next s inside refl;
        size = length-set slots next s;
        others = λ j free. set_elsewhere slots next s inside j (λ e. free.0 (sym e ∙ b.0));
      })

-- What taking a slot out promises.
pub record Unlinks (slots : List Slot) (slot : ℕ) (xs ys : List ℕ) (o : List Slot × PriceLevel)
    : Type 0 where
  pub holds : Holds o.0 o.1 (xs ++ ys)
  pub others :
      (j : ℕ)
      → slot ≢ j
      → All (λ y. j ≢ y) xs
      → All (λ y. j ≢ y) ys
      → slot_at o.0 j ≡ slot_at slots j
  pub orders : (j : ℕ) → (slot_at o.0 j).order ≡ (slot_at slots j).order
  pub size : length o.0 ≡ length slots

-- Take an arena of at most 2^32 - 1 slots and a level that holds the slots `xs`, then the slot given, then
-- `ys`, linked both ways and all distinct. Unlinking that slot leaves a level that holds `xs` and
-- then `ys`, leaves every other slot as it was but for those in `xs` and `ys`, and keeps the
-- order in every slot and the size of the arena.
pub unlink-Unlinks :
    (slots : List Slot) (level : PriceLevel) (xs : List ℕ) (slot : ℕ) (ys : List ℕ)
    → length slots ≤ invalid_slot
    → Holds slots level (xs ++ (slot ∷ ys))
    → Unlinks slots slot xs ys (unlink slots level slot)
unfolding unlink
unlink-Unlinks slots level xs slot ys small h =
    let prev = (slot_at slots slot).prev in
    let next = (slot_at slots slot).next in
    let a = Distinct-split xs slot ys h.distinct in
    let (f, inside, b) = Segment-split slots _ _ xs slot ys _ _ h.segment in
    let opened = open_front slots level small xs slot ys prev next a f b in
    let o1 = unlink_before slots level prev next in
    let small1 : length o1.0 ≤ invalid_slot = rw (opened.size) small in
    let closed = close_back o1.0 o1.1 small1 xs slot ys prev next a opened.front opened.back in
    let o2 = unlink_after o1.0 o1.1 prev next in
    let cut = record (slot_at o2.0 slot) { prev = invalid_slot; next = invalid_slot } in
    let size2 : length o2.0 ≡ length slots = closed.size ∙ opened.size in
    let inside2 : slot < length o2.0 = rw size2 inside in
    let joined = Segment-append o2.0 _ _ xs ys prev next _ _ closed.front closed.back in
    record {
      holds = record {
        segment =
            Segment-set o2.0 slot cut inside2 _ _ (xs ++ ys) _ _
              (All-append (λ y. slot ≢ y) xs ys a.not_front a.not_back) joined;
        distinct = a.both;
      };
      others = λ j ne free_x free_y.
          set_elsewhere o2.0 slot cut inside2 j ne
          ∙ closed.others j free_y
          ∙ opened.others j free_x;
      orders = λ j. set_order o2.0 slot cut inside2 refl j ∙ closed.orders j ∙ opened.orders j;
      size = length-set o2.0 slot cut ∙ size2;
    }
