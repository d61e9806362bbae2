-- ===== src/Wire.antt =====
-- include/efe/byte_reader.hpp: bounds-checked big-endian reads from a byte span, and writes into one.
-- A `std::span<const std::uint8_t>` is its list of bytes. `bytes[i]` is read behind the bounds check
-- only; an index out of range reads 0 in the model, and no theorem depends on that.
pub mod Bytes
pub mod Read
pub mod Write
pub mod Values
mod Tests
use market_wire.Prelude.{
  ℕ, Bool, true, false, ◌&&◌, ◌==◌, [], ◌∷◌, zero, suc, ◌+◌, ◌-◌, ◌*◌, ◌/◌, ◌%◌, ◌^◌, bit_or,
  bit_and, List, ◌||◌, ltb, if◌then◌else◌, length, get_or, set, take, drop,
}
use market_wire.Prelude.Result.{
  Result, ok, throw, truncated_message, short_output_buffer, ◌>>=◌, ◌>>◌,
}

abbrev pub ByteList : Type 0
ByteList = List ℕ

abbrev pub at : ByteList → ℕ → ℕ
at bytes i = get_or bytes i 0

unfoldable pub require_bytes : ByteList → ℕ → ℕ → Result (Unit {0})
require_bytes bytes offset width =
    if ltb (length bytes) offset || ltb (length bytes - offset) width
    then throw truncated_message
    else ok tt

unfoldable pub read_u8 : ByteList → ℕ → Result ℕ
unfolding require_bytes
read_u8 bytes offset = do require_bytes bytes offset 1; ok (at bytes offset)

unfoldable pub read_u16_be : ByteList → ℕ → Result ℕ
unfolding require_bytes
read_u16_be bytes offset = do
  require_bytes bytes offset 2
  ok (bit_or (at bytes offset * 2 ^ 8) (at bytes (offset + 1)) % 2 ^ 16)

unfoldable pub read_u32_be : ByteList → ℕ → Result ℕ
unfolding require_bytes
read_u32_be bytes offset = do
  require_bytes bytes offset 4
  let b0 = at bytes offset * 2 ^ 24 % 2 ^ 32
  let b1 = at bytes (offset + 1) * 2 ^ 16 % 2 ^ 32
  let b2 = at bytes (offset + 2) * 2 ^ 8 % 2 ^ 32
  ok (bit_or (bit_or (bit_or b0 b1) b2) (at bytes (offset + 3)))

-- `value = (value << 8U) | bytes[i]`, for the given number of rounds
unfoldable pub read_loop : ℕ → ByteList → ℕ → ℕ → ℕ
read_loop zero bytes i value = value
read_loop (suc n) bytes i value =
    read_loop n bytes (i + 1) (bit_or (value * 2 ^ 8 % 2 ^ 64) (at bytes i))

unfoldable pub read_u48_be : ByteList → ℕ → Result ℕ
unfolding require_bytes read_loop
read_u48_be bytes offset = do require_bytes bytes offset 6; ok (read_loop 6 bytes offset 0)

unfoldable pub read_u64_be : ByteList → ℕ → Result ℕ
unfolding require_bytes read_loop
read_u64_be bytes offset = do require_bytes bytes offset 8; ok (read_loop 8 bytes offset 0)

unfoldable pub read_ascii_view : ByteList → ℕ → ℕ → Result ByteList
unfolding require_bytes
read_ascii_view bytes offset width = do
  require_bytes bytes offset width
  ok (take width (drop offset bytes))

-- A `char` is its byte.
unfoldable pub read_char : ByteList → ℕ → Result ℕ
unfolding read_u8
read_char bytes offset = read_u8 bytes offset

unfoldable pub write_u16_be : ByteList → ℕ → ℕ → Result ByteList
write_u16_be bytes offset value =
    if ltb (length bytes) offset || ltb (length bytes - offset) 2
    then throw short_output_buffer
    else ok
        (set (set bytes offset (bit_and (value / 2 ^ 8) 0xFF)) (offset + 1) (bit_and value 0xFF))

-- `i` counts down from 7; the recursion is on `i + 1`.
pub write_loop : ℕ → ByteList → ℕ → ℕ → ByteList
write_loop zero bytes offset value = bytes
write_loop (suc i) bytes offset value =
    write_loop i (set bytes (offset + (7 - i)) (bit_and (value / 2 ^ (i * 8)) 0xFF)) offset value

unfoldable pub write_u64_be : ByteList → ℕ → ℕ → Result ByteList
unfolding write_loop
write_u64_be bytes offset value =
    if ltb (length bytes) offset || ltb (length bytes - offset) 8
    then throw short_output_buffer
    else ok (write_loop 8 bytes offset value)

-- `operator==` of `std::array` and of `std::string`
unfoldable pub bytes_equal : ByteList → ByteList → Bool
bytes_equal [] [] = true
bytes_equal (a ∷ xs) (b ∷ ys) = a == b && bytes_equal xs ys
bytes_equal [] (b ∷ bs) = false
bytes_equal (a ∷ xs) [] = false
