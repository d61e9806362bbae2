-- ===== src/Recovery/Keys.antt =====
-- `std::less` on sequence numbers, the order of `pending_`.
use market_wire.Prelude.{ℕ, ◌≡◌, true, false, ltb, arith}
use market_wire.OrderedMap.{KeyOrder}

pub ltb_irreflexive : (a : ℕ) → ltb a a ≡ false
ltb_irreflexive a = ground arith

pub ltb_transitive : (a b c : ℕ) → ltb a b ≡ true → ltb b c ≡ true → ltb a c ≡ true
ltb_transitive a b c h k = ground arith

pub ltb_connected : (a b : ℕ) → ltb a b ≡ false → ltb b a ≡ false → a ≡ b
ltb_connected a b h k = ground arith

abbrev pub sequence_order : KeyOrder ℕ
sequence_order = record {
  before = ltb;
  irreflexive = ltb_irreflexive;
  transitive = ltb_transitive;
  connected = ltb_connected;
}
