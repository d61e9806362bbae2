-- ===== src/Book/Chain.antt =====
-- The doubly linked list of a price level through the arena of slots.
use market_wire.Prelude.{
  ℕ, ◌<◌, ◌≡◌, ◌≢◌, refl, ◌∙◌, sym, ap, false, List, [], ◌∷◌, ◌++◌, arith, All, length, length-set,
  get_or-set, set, ◌==◌, ==_refl, ==_iff, Bool-cases, inl, inr,
}
use market_wire.OrderIndex.{invalid_slot}
use market_wire.Book.{PriceLevel, Slot, slot_at, new_slot}

-- The slots `xs` from `head` to `last`, linked both ways; `before` and `after` lie beyond the ends.
abbrev pub Segment : List Slot → ℕ → ℕ → List ℕ → ℕ → ℕ → Type 0
Segment slots before head [] last after = (head ≡ after) × (last ≡ before)
Segment slots before head (x ∷ xs) last after =
    (head ≡ x)
    × (x < length slots)
    × ((slot_at slots x).prev ≡ before)
    × Segment slots x (slot_at slots x).next xs last after

abbrev pub Distinct : List ℕ → Type 0
Distinct [] = Unit
Distinct (x ∷ xs) = All (λ y. x ≢ y) xs × Distinct xs

-- The level holds the slots `xs`, in this order.
pub record Holds (slots : List Slot) (level : PriceLevel) (xs : List ℕ) : Type 0 where
  pub segment : Segment slots invalid_slot level.head xs level.tail invalid_slot
  pub distinct : Distinct xs

module _ (slots : List Slot) (i : ℕ) (s : Slot) (lt : i < length slots) where
  pub set_here : slot_at (set slots i s) i ≡ s
  set_here = get_or-set slots i i s new_slot lt ∙ rw (==_refl i) refl

  pub set_elsewhere : (j : ℕ) → i ≢ j → slot_at (set slots i s) j ≡ slot_at slots j
  set_elsewhere j ne =
      let other : (i == j) ≡ false = ground (arith, ne) in
      get_or-set slots i j s new_slot lt ∙ rw other refl

  -- A write that keeps the slot's order keeps every order.
  pub set_order :
      s.order ≡ (slot_at slots i).order
      → (j : ℕ) → (slot_at (set slots i s) j).order ≡ (slot_at slots j).order
  set_order kept j = elim (Bool-cases (i == j)) [
    | inl same ↦
        let e = (==_iff i j).0 same in
        sym (ap (λ k. (slot_at (set slots i s) k).order) e)
        ∙ ap (λ t. t.order) set_here
        ∙ kept
        ∙ ap (λ k. (slot_at slots k).order) e
    | inr other ↦ ap (λ t. t.order) (set_elsewhere j (λ e. ground (arith, other, e)))
  ]

  pub Segment-set :
      (before head : ℕ) (xs : List ℕ) (last after : ℕ)
      → All (λ y. i ≢ y) xs
      → Segment slots before head xs last after
      → Segment (set slots i s) before head xs last after
  Segment-set before head [] last after free c = c
  Segment-set before head (x ∷ xs) last after free (here, inside, prev, rest) =
      let same = set_elsewhere x free.0 in
      (
        here,
        rw (length-set slots i s) inside,
        ap (λ t. t.prev) same ∙ prev,
        rw same (Segment-set x (slot_at slots x).next xs last after free.1 rest),
      )

pub Segment-append :
    (slots : List Slot) (before head : ℕ) (xs ys : List ℕ) (middle next last after : ℕ)
    → Segment slots before head xs middle next
    → Segment slots middle next ys last after
    → Segment slots before head (xs ++ ys) last after
Segment-append slots before head [] ys middle next last after (h, m) d = rw (h, sym m) d
Segment-append slots before head (x ∷ xs) ys middle next last after (here, inside, prev, rest) d =
    (here, inside, prev, Segment-append slots x _ xs ys middle next last after rest d)

-- The last slot is one of them.
pub last_of :
    (P : ℕ → Type 0) (slots : List Slot) (before head x : ℕ) (xs : List ℕ) (last after : ℕ)
    → Segment slots before head (x ∷ xs) last after
    → All P (x ∷ xs)
    → P last
last_of P slots before head x [] last after (_, _, _, (_, end)) p = rw end (p.0)
last_of P slots before head x (y ∷ ys) last after (_, _, _, rest) p =
    last_of P slots x _ y ys last after rest p.1

pub Segment-inside :
    (slots : List Slot) (before head : ℕ) (xs : List ℕ) (last after : ℕ)
    → Segment slots before head xs last after
    → All (λ x. x < length slots) xs
Segment-inside slots before head [] last after c = tt
Segment-inside slots before head (x ∷ xs) last after (_, inside, _, rest) =
    (inside, Segment-inside slots x _ xs last after rest)

-- The last slot gets another successor.
pub Segment-relink :
    (slots : List Slot) (before head x : ℕ) (xs : List ℕ) (last after to : ℕ)
    → Distinct (x ∷ xs)
    → Segment slots before head (x ∷ xs) last after
    → Segment
        (set slots last (record (slot_at slots last) { next = to }))
        before
        head
        (x ∷ xs)
        last
        to
Segment-relink slots before head x [] last after to d (here, inside, prev, (_, end)) =
    let s = record (slot_at slots last) { next = to } in
    let at_end : last < length slots = rw end inside in
    let changed : slot_at (set slots last s) x ≡ s =
      ap (slot_at (set slots last s)) (sym end) ∙ set_here slots last s at_end in
    (
      here,
      rw (length-set slots last s) inside,
      ap (λ t. t.prev) changed ∙ ap (λ j. (slot_at slots j).prev) end ∙ prev,
      (ap (λ t. t.next) changed, end),
    )
Segment-relink slots before head x (y ∷ ys) last after to d (here, inside, prev, rest) =
    let s = record (slot_at slots last) { next = to } in
    let at_end =
      last_of (λ j. j < length slots) slots x _ y ys last after rest
        (Segment-inside slots x _ (y ∷ ys) last after rest) in
    let apart : last ≢ x = λ e. last_of (λ j. x ≢ j) slots x _ y ys last after rest d.0 (sym e) in
    let same = set_elsewhere slots last s at_end x apart in
    (
      here,
      rw (length-set slots last s) inside,
      ap (λ t. t.prev) same ∙ prev,
      rw same (Segment-relink slots x _ y ys last after to d.1 rest),
    )
