-- ===== src/Wire/Tests.antt =====
-- The readers and writers on small buffers, and the theorems about them at such a buffer.
use market_wire.Prelude.{
  ◌<◌, ◌+◌, ◌≡◌, ◌≤◌, ◌⊎◌, refl, [], ◌∷◌, arith, length, take, drop, replicate,
}
use market_wire.Prelude.Result.{ok, throw, truncated_message, short_output_buffer}
use market_wire.Wire.Read.{be_field, readers-be_field}
use market_wire.Wire.Write.{read_u64_be-write_u64_be}
use market_wire.Wire.{
  ByteList, read_u8, read_u16_be, read_u32_be, read_u48_be, read_u64_be, write_u64_be, write_u16_be,
}

abbrev sample : ByteList
sample = 1 ∷ 2 ∷ 3 ∷ 4 ∷ 5 ∷ 6 ∷ 7 ∷ 255 ∷ []

reads_big_endian : read_u32_be sample 1 ≡ ok 0x02030405
unfolding read_u32_be
reads_big_endian = refl

stops_at_the_end : read_u16_be sample 7 ≡ throw truncated_message
unfolding read_u16_be
stops_at_the_end = refl

writes_big_endian : write_u16_be sample 6 0xABCD ≡ ok (1 ∷ 2 ∷ 3 ∷ 4 ∷ 5 ∷ 6 ∷ 0xAB ∷ 0xCD ∷ [])
unfolding write_u16_be
writes_big_endian = refl

readers-be_field_example :
    (read_u8 sample 0 ≡ be_field 1 sample 0)
    × (read_u16_be sample 0 ≡ be_field 2 sample 0)
    × (read_u32_be sample 0 ≡ be_field 4 sample 0)
    × (read_u48_be sample 0 ≡ be_field 6 sample 0)
    × (read_u64_be sample 0 ≡ be_field 8 sample 0)
readers-be_field_example = readers-be_field sample 0 (omega arith)

abbrev buffer : ByteList
buffer = replicate 10 0

read_u64_be-write_u64_be_example :
    ((1 + 8 ≤ length buffer)
      × (out : ByteList) × (write_u64_be buffer 1 0x0102030405060708 ≡ ok out)
      × (read_u64_be out 1 ≡ ok 0x0102030405060708)
      × (length out ≡ length buffer)
      × (take 1 out ≡ take 1 buffer)
      × (drop (1 + 8) out ≡ drop (1 + 8) buffer))
    ⊎ (length buffer < 1 + 8)
      × (write_u64_be buffer 1 0x0102030405060708 ≡ throw short_output_buffer)
read_u64_be-write_u64_be_example =
    read_u64_be-write_u64_be buffer 1 0x0102030405060708 (omega arith) (omega arith)
