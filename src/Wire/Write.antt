-- ===== src/Wire/Write.antt =====
-- The writers of include/efe/byte_reader.hpp replace one big-endian field, and what they wrote is
-- read back.
use market_wire.Prelude.{
  ℕ, zero, suc, ◌+◌, ◌-◌, ◌*◌, ◌/◌, ◌%◌, ◌^◌, ◌≤◌, ◌≡◌, refl, ◌∙◌, ◌++◌, bit_and, arith, set, ◌<◌,
  true, length-append, leb, le→leb, if◌then◌else◌, length, All, take, drop, length-take,
  drop-append_length, take-append_length, length-drop, append_assoc, ◌⊎◌, Bool-cases, inl, inr,
  leb→le, All-take, All-drop, All-append,
}
use market_wire.Prelude.Bits.{bit_and_mask}
use market_wire.Prelude.Result.{ok, throw, short_output_buffer}
use native.Mathlib.Nat.{mod-eq_of_lt}
use market_wire.Wire.Bytes.{
  IsByte, be_value, to_be, length-to_be, IsByte-to_be, be_value-to_be, pow_eight, splice,
  splice_fits,
}
use market_wire.Wire.Read.{be_field, read_u64_be_lem}
use market_wire.Wire.{ByteList, write_u16_be, write_loop, write_u64_be, read_u64_be}

write_loop-splice :
    (n : ℕ) (bytes : ByteList) (offset v : ℕ)
    → n ≤ 8
    → write_loop n bytes offset v ≡ splice (offset + (8 - n)) (to_be n v) bytes
unfolding write_loop splice to_be
write_loop-splice zero bytes offset v h = refl
write_loop-splice (suc i) bytes offset v h =
    let e : offset + (7 - i) ≡ offset + (8 - suc i) = omega arith in
    let j : offset + (8 - suc i) + 1 ≡ offset + (8 - i) = omega arith in
    let byte : bit_and (v / 2 ^ (i * 8)) 0xFF ≡ v / 256 ^ i % 256 =
      bit_and_mask 8 (v / 2 ^ (i * 8)) ∙ rw pow_eight in
    write_loop-splice i (set bytes (offset + (7 - i)) (bit_and (v / 2 ^ (i * 8)) 0xFF)) offset v
      (omega arith)
    ∙ cc

-- `bytes` with the `n`-byte field at `offset` replaced
abbrev pub with_field : ℕ → ℕ → ByteList → ℕ → ByteList
with_field n v bytes offset = take offset bytes ++ (to_be n v ++ drop (offset + n) bytes)

pub splice_field :
    (n v : ℕ) (bytes : ByteList) (offset : ℕ)
    → offset + n ≤ length bytes
    → splice offset (to_be n v) bytes ≡ with_field n v bytes offset
splice_field n v bytes offset room =
    rw (length-to_be n v) at
      (splice_fits offset (to_be n v) bytes (omega (arith, length-to_be n v)))

pub write_u64_be_lem :
    (bytes : ByteList) (offset v : ℕ)
    → write_u64_be bytes offset v ≡ (
        if leb (offset + 8) (length bytes)
        then ok (with_field 8 v bytes offset)
        else throw short_output_buffer)
unfolding write_u64_be
write_u64_be_lem bytes offset v = elim (Bool-cases (leb (offset + 8) (length bytes))) [
  | inr n ↦ rw n (ground arith)
  | inl room ↦
      let start : offset + 0 ≡ offset = omega arith in
      let spliced = rw start at (write_loop-splice 8 bytes offset v (omega arith)) in
      let written = spliced ∙ splice_field 8 v bytes offset (leb→le _ _ room) in
      rw room (ground (arith, written))
]

pub write_u16_be_lem :
    (bytes : ByteList) (offset v : ℕ)
    → write_u16_be bytes offset v ≡ (
        if leb (offset + 2) (length bytes)
        then ok (with_field 2 v bytes offset)
        else throw short_output_buffer)
unfolding write_u16_be splice to_be
write_u16_be_lem bytes offset v = elim (Bool-cases (leb (offset + 2) (length bytes))) [
  | inr n ↦ rw n (ground arith)
  | inl room ↦
      let hi : bit_and (v / 2 ^ 8) 0xFF ≡ v / 2 ^ 8 % 256 = bit_and_mask 8 (v / 2 ^ 8) in
      let lo : bit_and v 0xFF ≡ v / 1 % 256 = bit_and_mask 8 v ∙ omega arith in
      let written = splice_field 2 v bytes offset (leb→le _ _ room) in
      rw (room, hi, lo) (ground (arith, written))
]

-- A field that was written is read back, and the bytes around it stay.
pub be_field-with_field :
    (n v : ℕ) (bytes : ByteList) (offset : ℕ)
    → v < 256 ^ n
    → offset + n ≤ length bytes
    → be_field n (with_field n v bytes offset) offset ≡ ok v
unfolding be_field
be_field-with_field n v bytes offset small room =
    let pre = take offset bytes in
    let rest = drop (offset + n) bytes in
    let pre_length : length pre ≡ offset = omega (arith, length-take offset bytes) in
    let skipped : drop offset (pre ++ (to_be n v ++ rest)) ≡ to_be n v ++ rest =
      rw pre_length at (drop-append_length pre (to_be n v ++ rest)) in
    let picked : take n (to_be n v ++ rest) ≡ to_be n v =
      rw (length-to_be n v) at (take-append_length (to_be n v) rest) in
    let fits : leb (offset + n) (length (pre ++ (to_be n v ++ rest))) ≡ true = le→leb _ _ (
      omega (
        arith,
        length-append {0} pre (to_be n v ++ rest),
        length-append {0} (to_be n v) rest,
        length-to_be n v,
      )) in
    let value : be_value 0 (to_be n v) ≡ v =
      be_value-to_be n 0 v ∙ omega (arith, mod-eq_of_lt small) in
    rw (fits, skipped, picked, value)

with_field-outside :
    (n v : ℕ) (bytes : ByteList) (offset : ℕ)
    → offset + n ≤ length bytes
    → (length (with_field n v bytes offset) ≡ length bytes)
      × (take offset (with_field n v bytes offset) ≡ take offset bytes)
      × (drop (offset + n) (with_field n v bytes offset) ≡ drop (offset + n) bytes)
with_field-outside n v bytes offset room =
    let pre = take offset bytes in
    let rest = drop (offset + n) bytes in
    let at_front : length pre ≡ offset = omega (arith, length-take offset bytes) in
    let both : length (pre ++ to_be n v) ≡ offset + n =
      omega (arith, length-append {0} pre (to_be n v), length-to_be n v) in
    (
      omega (
        arith,
        length-append {0} pre (to_be n v ++ rest),
        length-append {0} (to_be n v) rest,
        length-to_be n v,
        length-drop (offset + n) bytes,
      ),
      rw at_front at (take-append_length pre (to_be n v ++ rest)),
      rw (both, append_assoc) at (drop-append_length (pre ++ to_be n v) rest),
    )

IsByte-with_field :
    (n v : ℕ) (bytes : ByteList) (offset : ℕ)
    → All IsByte bytes
    → All IsByte (with_field n v bytes offset)
IsByte-with_field n v bytes offset b =
    All-append IsByte (take offset bytes) _ (All-take IsByte offset bytes b)
      (All-append IsByte (to_be n v) _ (IsByte-to_be n v) (All-drop IsByte (offset + n) bytes b))

-- A number below 2^64 that `write_u64_be` has written is read back at its offset, and the other bytes
-- are those of the buffer; the write fails exactly when the buffer has no room.
pub read_u64_be-write_u64_be :
    (bytes : ByteList) (offset v : ℕ)
    → All IsByte bytes
    → v < 2 ^ 64
    → ((offset + 8 ≤ length bytes)
        × (out : ByteList) × (write_u64_be bytes offset v ≡ ok out)
        × (read_u64_be out offset ≡ ok v)
        × (length out ≡ length bytes)
        × (take offset out ≡ take offset bytes)
        × (drop (offset + 8) out ≡ drop (offset + 8) bytes))
      ⊎ (length bytes < offset + 8) × (write_u64_be bytes offset v ≡ throw short_output_buffer)
read_u64_be-write_u64_be bytes offset v b small =
    elim (Bool-cases (leb (offset + 8) (length bytes))) [
      | inl t ↦
          let room = leb→le _ _ t in
          let out = with_field 8 v bytes offset in
          let (size, before, after) = with_field-outside 8 v bytes offset room in
          inl (
            room,
            out,
            write_u64_be_lem bytes offset v ∙ rw t refl,
            read_u64_be_lem out offset (IsByte-with_field 8 v bytes offset b)
                ∙ be_field-with_field 8 v bytes offset small room,
            size,
            before,
            after,
          )
      | inr f ↦ inr (ground arith, write_u64_be_lem bytes offset v ∙ rw f refl)
    ]
