-- ===== src/OrderedMap.antt =====
-- `std::map` as the source uses it: an association list in the order of its comparison object.
-- Keys are the same when neither comes before the other.
pub mod Laws
use market_wire.Prelude.{
  ◌≡◌, Bool, true, false, Option, none, some, List, [], ◌∷◌, arith, if◌then◌else◌,
}

-- What a comparison object promises: a strict total order.
pub record KeyOrder (K : Type 0) : Type 0 where
  pub before : K → K → Bool
  pub irreflexive : (a : K) → before a a ≡ false
  pub transitive : (a b c : K) → before a b ≡ true → before b c ≡ true → before a c ≡ true
  pub connected : (a b : K) → before a b ≡ false → before b a ≡ false → a ≡ b

abbrev pub OrderedMap : Type 0 → Type 0 → Type 0
OrderedMap K V = List (K × V)

module _ {K : Type 0} (o : KeyOrder K) where
  abbrev pub same : K → K → Bool
  same a b = if o.before a b then false else if o.before b a then false else true

  pub same_refl : (a : K) → same a a ≡ true
  same_refl a = ground (arith, o.irreflexive a)

  pub eq_of_same : (a b : K) → same a b ≡ true → a ≡ b
  eq_of_same a b h = ground (arith, o.connected a b)

module _ {K V : Type 0} where
  abbrev pub AllKeys : (K → Type 0) → OrderedMap K V → Type 0
  AllKeys P [] = Unit
  AllKeys P ((k, v) ∷ m) = P k × AllKeys P m

module _ {K V : Type 0} (o : KeyOrder K) where
  unfoldable pub find : K → OrderedMap K V → Option V
  find q [] = none
  find q ((k, v) ∷ m) = if same o q k then some v else find q m

  -- `try_emplace(key, value)`: nothing changes if the key is there.
  unfoldable pub try_emplace : K → V → OrderedMap K V → OrderedMap K V
  try_emplace q w [] = (q, w) ∷ []
  try_emplace q w ((k, v) ∷ m) =
      if o.before q k
      then (q, w) ∷ (k, v) ∷ m
      else if o.before k q
      then (k, v) ∷ try_emplace q w m
      else (k, v) ∷ m

  unfoldable pub erase : K → OrderedMap K V → OrderedMap K V
  erase q [] = []
  erase q ((k, v) ∷ m) = if same o q k then m else (k, v) ∷ erase q m

  -- A write through the reference that `find` or `at` returned.
  unfoldable pub assign : K → V → OrderedMap K V → OrderedMap K V
  assign q w [] = []
  assign q w ((k, v) ∷ m) = if same o q k then (k, w) ∷ m else (k, v) ∷ assign q w m

  abbrev pub IsSorted : OrderedMap K V → Type 0
  IsSorted [] = Unit
  IsSorted ((k, v) ∷ m) = AllKeys (λ j. o.before k j ≡ true) m × IsSorted m
