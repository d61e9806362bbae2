-- ===== src/Events.antt =====
-- include/efe/types.hpp and include/efe/events.hpp: symbols, orders and market events.
use market_wire.Prelude.{
  ℕ, ◌-◌, Bool, true, false, [], ◌∷◌, ◌++◌, ◌==◌, ltb, leb, if◌then◌else◌, zero, suc, length, take,
  replicate, min, arith, ◌≡◌, refl,
}
use market_wire.OrderedMap.{KeyOrder}
use market_wire.Wire.{ByteList, at}

-- `Symbol` is its eight bytes.
abbrev pub Symbol : Type 0
Symbol = ByteList

-- `Symbol::from_string` and `Symbol::from_padded`, which have one body
unfoldable pub symbol_from : ByteList → Symbol
symbol_from value = let n = min (length value) 8 in take n value ++ replicate (8 - n) b' '

unfoldable pub symbol_length : ℕ → Symbol → ℕ
symbol_length zero s = 0
symbol_length (suc n) s =
    let shorter = symbol_length n s in if at s n == b' ' then shorter else suc n

unfoldable pub symbol_str : Symbol → ByteList
unfolding symbol_length
symbol_str s = take (symbol_length 8 s) s

-- `char` is signed, so the bytes from 128 on are negative and come first.
abbrev pub char_before : ℕ → ℕ → Bool
char_before a b =
    if leb 128 a
    then (if leb 128 b then ltb a b else true)
    else (if leb 128 b then false else ltb a b)

-- `Symbol::operator<`
abbrev pub symbol_before : Symbol → Symbol → Bool
symbol_before s [] = false
symbol_before [] (b ∷ t) = true
symbol_before (a ∷ s) (b ∷ t) =
    let rest = symbol_before s t in
    if char_before a b then true else if char_before b a then false else rest

pub symbol_irreflexive : (s : Symbol) → symbol_before s s ≡ false
symbol_irreflexive [] = refl
symbol_irreflexive (a ∷ s) = ground (arith, symbol_irreflexive s)

pub symbol_transitive :
    (s t u : Symbol)
    → symbol_before s t ≡ true
    → symbol_before t u ≡ true
    → symbol_before s u ≡ true
symbol_transitive s [] u h k = cc
symbol_transitive s (b ∷ t) [] h k = cc
symbol_transitive [] (b ∷ t) (c ∷ u) h k = refl
symbol_transitive (a ∷ s) (b ∷ t) (c ∷ u) h k = ground (arith, symbol_transitive s t u)

char_connected : (a b : ℕ) → char_before a b ≡ false → char_before b a ≡ false → a ≡ b
char_connected a b h k = ground arith

pub symbol_connected :
    (s t : Symbol) → symbol_before s t ≡ false → symbol_before t s ≡ false → s ≡ t
symbol_connected [] [] h k = refl
symbol_connected [] (b ∷ t) h k = cc
symbol_connected (a ∷ s) [] h k = cc
symbol_connected (a ∷ s) (b ∷ t) h k =
    let heads : a ≡ b = char_connected a b (ground arith) (ground arith) in
    let tails : s ≡ t = symbol_connected s t (ground arith) (ground arith) in cc

unfoldable pub symbol_order : KeyOrder Symbol
symbol_order = record {
  before = symbol_before;
  irreflexive = symbol_irreflexive;
  transitive = symbol_transitive;
  connected = symbol_connected;
}

pub data Side : Type 0 where
  buy sell : Side

pub record EventMeta : Type 0 where
  pub stock_locate : ℕ
  pub tracking_number : ℕ
  pub timestamp_ns : ℕ

pub record Order : Type 0 where
  pub id : ℕ
  pub symbol : Symbol
  pub side : Side
  pub quantity : ℕ
  pub price : ℕ

pub record AddEvent : Type 0 where
  pub meta : EventMeta
  pub order : Order

pub record ExecuteEvent : Type 0 where
  pub meta : EventMeta
  pub order_id : ℕ
  pub executed_shares : ℕ
  pub match_number : ℕ
  pub has_execution_price : Bool
  pub execution_price : ℕ
  pub printable : Bool

pub record CancelEvent : Type 0 where
  pub meta : EventMeta
  pub order_id : ℕ
  pub canceled_shares : ℕ

pub record DeleteEvent : Type 0 where
  pub meta : EventMeta
  pub order_id : ℕ

pub record ReplaceEvent : Type 0 where
  pub meta : EventMeta
  pub old_order_id : ℕ
  pub new_order_id : ℕ
  pub new_quantity : ℕ
  pub new_price : ℕ

pub data MarketEvent : Type 0 where
  add_event : AddEvent → MarketEvent
  execute_event : ExecuteEvent → MarketEvent
  cancel_event : CancelEvent → MarketEvent
  delete_event : DeleteEvent → MarketEvent
  replace_event : ReplaceEvent → MarketEvent
