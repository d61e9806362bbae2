-- ===== src/Cli.antt =====
-- src/main.cpp: the writers of sample messages and packets.
-- The buffers have the sizes that the writers fill, so no index is out of range; `set` of one that
-- is would leave the list as it is, where the source has undefined behaviour.
pub mod Messages
pub mod Packets
pub mod Process
pub mod Replay
pub mod Recorded
mod Tests
use market_wire.Prelude.{
  ℕ, zero, suc, ◌+◌, ◌-◌, ◌*◌, ◌/◌, ◌%◌, ◌^◌, List, [], ◌∷◌, ltb, if◌then◌else◌, length, set,
  replicate,
}
use market_wire.Wire.Bytes.{splice}
use market_wire.Wire.{ByteList, at}

unfoldable pub put_u32 : ByteList → ℕ → ℕ → ByteList
put_u32 b off v =
    let b1 = set b off (v / 2 ^ 24 % 2 ^ 8) in
    let b2 = set b1 (off + 1) (v / 2 ^ 16 % 2 ^ 8) in
    let b3 = set b2 (off + 2) (v / 2 ^ 8 % 2 ^ 8) in set b3 (off + 3) (v % 2 ^ 8)

-- The loops of `put_u64` and `put_u48`, from `i = n - 1` down to 0; `top` is 7 or 5.
unfoldable pub put_loop : ℕ → ℕ → ByteList → ℕ → ℕ → ByteList
put_loop top zero b off v = b
put_loop top (suc i) b off v =
    put_loop top i (set b (off + (top - i)) (v / 2 ^ (i * 8) % 2 ^ 8)) off v

unfoldable pub put_u64 : ByteList → ℕ → ℕ → ByteList
unfolding put_loop
put_u64 b off v = put_loop 7 8 b off v

unfoldable pub put_u16 : ByteList → ℕ → ℕ → ByteList
put_u16 b off v = set (set b off (v / 2 ^ 8 % 2 ^ 8)) (off + 1) (v % 2 ^ 8)

unfoldable pub put_u48 : ByteList → ℕ → ℕ → ByteList
unfolding put_loop
put_u48 b off v = put_loop 5 6 b off v

-- `i < s.size() ? s[i] : ' '`
unfoldable pub padded_char : ByteList → ℕ → ℕ
padded_char s i = if ltb i (length s) then at s i else b' '

-- The rounds of the loop of `put_ascii` that are left, from `i` on.
unfoldable pub put_chars : ℕ → ℕ → ByteList → ℕ → ByteList → ByteList
unfolding padded_char
put_chars zero i b off s = b
put_chars (suc n) i b off s = put_chars n (i + 1) (set b (off + i) (padded_char s i)) off s

unfoldable pub put_ascii : ByteList → ℕ → ℕ → ByteList → ByteList
unfolding put_chars
put_ascii b off n s = put_chars n 0 b off s

unfoldable pub add_msg : ℕ → ℕ → ℕ → ByteList → ℕ → ByteList
unfolding put_u16 put_u32 put_u48 put_u64 put_ascii
add_msg id side qty symbol price =
    let b0 = set (replicate 36 0) 0 b'A' in
    let b1 = put_u16 b0 1 1 in
    let b2 = put_u16 b1 3 1 in
    let b3 = put_u48 b2 5 1000000 in
    let b4 = put_u64 b3 11 id in
    let b5 = set b4 19 side in
    let b6 = put_u32 b5 20 qty in let b7 = put_ascii b6 24 8 symbol in put_u32 b7 32 price

unfoldable pub cancel_msg : ℕ → ℕ → ByteList
unfolding put_u16 put_u32 put_u48 put_u64
cancel_msg id qty =
    let b0 = set (replicate 23 0) 0 b'X' in
    let b1 = put_u16 b0 1 1 in
    let b2 = put_u16 b1 3 2 in
    let b3 = put_u48 b2 5 1000100 in let b4 = put_u64 b3 11 id in put_u32 b4 19 qty

unfoldable pub packet_size : List ByteList → ℕ
packet_size [] = 20
packet_size (m ∷ messages) = (2 + length m) + packet_size messages

-- The loop over the messages: their lengths and their bytes from `off` on.
unfoldable pub put_messages : List ByteList → ByteList → ℕ → ByteList
unfolding put_u16 splice
put_messages [] d off = d
put_messages (m ∷ messages) d off =
    put_messages messages (splice (off + 2) m (put_u16 d off (length m % 2 ^ 16)))
      (off + 2 + length m)

unfoldable pub mold_packet : ByteList → ℕ → List ByteList → ByteList
unfolding put_chars put_u64 put_u16 packet_size put_messages
mold_packet session first messages =
    let d0 = replicate (packet_size messages) 0 in
    let d1 = put_chars 10 0 d0 0 session in
    let d2 = put_u64 d1 10 first in
    let d3 = put_u16 d2 18 (length messages % 2 ^ 16) in put_messages messages d3 20
