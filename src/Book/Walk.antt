-- ===== src/Book/Walk.antt =====
-- Reading a level: the walk from `head` along `next` meets exactly the slots that the level holds.
use market_wire.Prelude.{
  ℕ, zero, suc, ◌<◌, ◌≤◌, ◌≡◌, ◌≢◌, refl, ap, inl, inr, true, false, List, [], ◌∷◌, arith, All,
  length, if◌then◌else◌, ◌==◌, ==_iff, Bool-cases,
}
use market_wire.Events.{Order}
use market_wire.OrderIndex.{invalid_slot}
use market_wire.Book.{PriceLevel, Slot, slot_at}
use market_wire.Book.Chain.{Segment, Distinct, Holds, Segment-inside}
use market_wire.Book.Views.{orders_from, orders_of}

-- The list less the first `n` in it.
without : ℕ → List ℕ → List ℕ
without n [] = []
without n (x ∷ xs) = let rest = without n xs in if x == n then xs else x ∷ rest

length-without : (n : ℕ) (xs : List ℕ) → length xs ≤ suc (length (without n xs))
unfolding without
length-without n [] = omega arith
length-without n (x ∷ xs) = elim (Bool-cases (x == n)) [
  | inl same ↦ rw same (omega arith)
  | inr other ↦ rw other (omega (arith, length-without n xs))
]

All-without : (P : ℕ → Type 0) (n : ℕ) (xs : List ℕ) → All P xs → All P (without n xs)
unfolding without
All-without P n [] p = tt
All-without P n (x ∷ xs) p = elim (Bool-cases (x == n)) [
  | inl same ↦ rw same (p.1)
  | inr other ↦ rw other (p.0, All-without P n xs p.1)
]

Distinct-without : (n : ℕ) (xs : List ℕ) → Distinct xs → Distinct (without n xs)
unfolding without
Distinct-without n [] d = tt
Distinct-without n (x ∷ xs) d = elim (Bool-cases (x == n)) [
  | inl same ↦ rw same (d.1)
  | inr other ↦ rw other (All-without (λ y. x ≢ y) n xs d.0, Distinct-without n xs d.1)
]

All-gone : (n : ℕ) (xs : List ℕ) → Distinct xs → All (λ y. n ≢ y) (without n xs)
unfolding without
All-gone n [] d = tt
All-gone n (x ∷ xs) d = elim (Bool-cases (x == n)) [
  | inl same ↦ rw same (rw ((==_iff x n).0 same) at d.0)
  | inr other ↦ rw other ((λ e. ground (arith, other, e)), All-gone n xs d.1)
]

All-below :
    (n : ℕ) (xs : List ℕ) → All (λ y. y < suc n) xs → All (λ y. n ≢ y) xs → All (λ y. y < n) xs
All-below n [] a b = tt
All-below n (x ∷ xs) a b =
    let apart : n ≢ x = b.0 in (ground (arith, apart), All-below n xs a.1 b.1)

-- Distinct numbers below `n` are at most `n`.
length-Distinct : (n : ℕ) (xs : List ℕ) → Distinct xs → All (λ y. y < n) xs → length xs ≤ n
length-Distinct zero [] d a = omega arith
length-Distinct zero (x ∷ xs) d a = absurd (omega (arith, a.0))
length-Distinct (suc n) xs d a =
    let rest =
      length-Distinct n (without n xs) (Distinct-without n xs d)
        (All-below n (without n xs) (All-without (λ y. y < suc n) n xs a) (All-gone n xs d)) in
    omega (arith, rest, length-without n xs)

abbrev pub orders_at : List Slot → List ℕ → List Order
orders_at slots [] = []
orders_at slots (x ∷ xs) = (slot_at slots x).order ∷ orders_at slots xs

orders_from-Segment :
    (slots : List Slot) (n before head : ℕ) (xs : List ℕ) (last : ℕ)
    → length slots ≤ invalid_slot
    → length xs ≤ n
    → Segment slots before head xs last invalid_slot
    → orders_from n slots head ≡ orders_at slots xs
unfolding orders_from
orders_from-Segment slots zero before head [] last small le c = refl
orders_from-Segment slots zero before head (x ∷ xs) last small le c = absurd (omega arith)
orders_from-Segment slots (suc n) before head [] last small le (here, _) =
    let ended : (head == invalid_slot) ≡ true = (==_iff _ _).1 here in rw ended refl
orders_from-Segment slots (suc n) before head (x ∷ xs) last small le (here, inside, prev, rest) =
    let goes_on : (head == invalid_slot) ≡ false = ground arith in
    let more =
      orders_from-Segment slots n x (slot_at slots x).next xs last small (omega arith) rest in
    rw goes_on (rw here (ap (λ os. (slot_at slots x).order ∷ os) more))

-- In an arena of at most 2^32 - 1 slots, walking a level that holds the slots `xs` reads the orders of
-- exactly those slots, in that order: a round for each slot of the arena is enough.
pub orders_of-Holds :
    (slots : List Slot) (level : PriceLevel) (xs : List ℕ)
    → length slots ≤ invalid_slot
    → Holds slots level xs
    → orders_of slots level ≡ orders_at slots xs
unfolding orders_of
orders_of-Holds slots level xs small h =
    let bound =
      length-Distinct (length slots) xs h.distinct (Segment-inside slots _ _ xs _ _ h.segment) in
    orders_from-Segment slots (length slots) _ level.head xs _ small bound h.segment
